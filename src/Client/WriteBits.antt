-- ===== src/Client/WriteBits.antt =====
-- `modbus_write_bits` against `modbus_reply`.
use libmodbus.Base.{
  ℕ, inl, ◌+◌, ◌-◌, ◌*◌, ◌/◌, ◌%◌, ◌≤◌, ◌<◌, ◌≡◌, refl, ap, ◌∙◌, arith, false, ◌||◌, ltb, bit, List,
  [], ◌∷◌, byte_at, length, drop, get_or-drop, get_or-append_left, pos,
}
use libmodbus.Context.{Backend, Modbus, Errno, transmit, ok}
use libmodbus.Backend.{header_length, next_tid}
use libmodbus.Lengths.{byte_count}
use libmodbus.Mapping.{Mapping}
use libmodbus.Send.{sends}
use libmodbus.Receive.{bytes}
use libmodbus.Data.{set_bits_from_bytes}
use libmodbus.Data.BitTables.{IsUnpacked, set_bits_from_bytes-IsUnpacked}
use libmodbus.Reply.{reply_write_bits, reply, dispatch}
use libmodbus.Client.{pack_bytes, write_bits}
use libmodbus.Client.Messages.{built, drop-message, back, over, asked}
use libmodbus.Client.Packing.{flag, pack_bytes-flag, length-pack_bytes}
use libmodbus.Client.Answered.{sft}
use libmodbus.Client.Reading.{same_backend, next_tid-lt}
use libmodbus.Client.Writing.{
  Writes, rest, body, asking, frame, answering, quantity, counted, data_at, outcome, server_side,
  client_side,
}

pub byte_count-small : (nb : ℕ) → nb ≤ 1968 → byte_count nb < 256
byte_count-small nb hi = ground arith

byte_count-enough : (nb : ℕ) → nb ≤ byte_count nb * 8
byte_count-enough nb = ground arith

module _ (b : Backend) (slave t addr nb : ℕ) (src : List ℕ) (ha : addr < 65536) (lo : 1 ≤ nb)
    (hi : nb ≤ 1968) (small : nb < 65536) (m : Mapping) (low : m.start_bits ≤ addr)
    (room : addr - m.start_bits + nb ≤ m.nb_bits) where
  abbrev payload : List ℕ
  payload = pack_bytes (byte_count nb) nb 0 src

  pub counts : length payload ≡ byte_count nb
  counts = length-pack_bytes (byte_count nb) nb 0 src

  pub is_write : Writes 15
  is_write = inl refl

  abbrev going : List ℕ
  going = frame b slave t 15 addr nb (byte_count nb) payload is_write ha small counts

  abbrev coming : List ℕ
  coming = answering b slave t 15 addr nb (byte_count nb) payload is_write ha small counts

  abbrev ask : List ℕ
  ask = asking b slave t 15 addr nb (byte_count nb) payload is_write ha small counts

  abbrev stored : List ℕ
  stored =
      set_bits_from_bytes m.tab_bits (addr - m.start_bits) nb (drop (header_length b + 6) going)

  reply_write_bits-ok :
      reply_write_bits b
        (sft b slave t 15
          (rest b slave t 15 addr nb (byte_count nb) payload is_write ha small counts)
          (body b slave t 15 addr nb (byte_count nb) payload is_write ha small counts))
        going
        (length going)
        addr
        m
      ≡ outcome b slave t 15 addr nb
          (byte_count nb)
          payload
          is_write
          ha
          small
          counts
          (record m { tab_bits = stored })
  unfolding reply_write_bits
  reply_write_bits-ok =
      let in_range : (ltb nb 1 || ltb 1968 nb || ltb (byte_count nb * 8) nb) ≡ false =
        ground (arith, byte_count-enough nb) in
      let there : (ltb addr m.start_bits || ltb m.nb_bits (addr - m.start_bits + nb)) ≡ false =
        ground arith in
      rw
        (
          quantity b slave t 15 addr nb (byte_count nb) payload is_write ha small counts _ _,
          counted b slave t 15 addr nb (byte_count nb) payload is_write ha small counts,
          in_range,
          there,
          drop-message b _ slave t _ 15 _,
        )
        refl

  -- The bits that the server unpacks are the client's coils.
  unpacked :
      (j : ℕ)
      → j < nb
      → bit (byte_at (drop (header_length b + 6) going) (j / 8)) (j % 8) ≡ flag src j
  unpacked j h =
      ap (λ (v : ℕ). bit v (j % 8)) there
      ∙ pack_bytes-flag (byte_count nb) nb 0 j src h (omega (arith, byte_count-enough nb))
      ∙ ap (flag src) from_start
    where
      from_start : 0 + j ≡ j
      from_start = omega arith

      inside : j / 8 < byte_count nb
      inside = omega (arith, byte_count-enough nb)

      there : byte_at (drop (header_length b + 6) going) (j / 8) ≡ byte_at payload (j / 8)
      there =
          get_or-drop (header_length b + 6) going (j / 8) 0
          ∙ data_at b slave t 15 addr nb (byte_count nb) payload is_write ha small counts (j / 8)
          ∙ get_or-append_left payload (back b ask) (j / 8) 0 (omega (arith, counts, inside))

  stored-IsUnpacked :
      length m.tab_bits ≡ m.nb_bits
      → IsUnpacked (flag src) (addr - m.start_bits) 0 nb m.tab_bits stored
  stored-IsUnpacked room_tab = record {
    same_length = done.same_length;
    inside = λ j p q. done.inside j p q ∙ unpacked j q;
    outside = done.outside;
  }
    where
      done :
          IsUnpacked
            (λ j. bit (byte_at (drop (header_length b + 6) going) (j / 8)) (j % 8))
            (addr - m.start_bits)
            0
            nb
            m.tab_bits
            stored
      done =
          set_bits_from_bytes-IsUnpacked m.tab_bits (addr - m.start_bits) nb
            (drop (header_length b + 6) going) (omega arith)

-- The whole exchange.
module _ (b : Backend) (version : List ℕ) (client server : Modbus) (errno : Errno)
    (slave k addr nb : ℕ) (src : List ℕ) (m : Mapping) (own : client.slave ≡ pos slave)
    (one : 1 ≤ slave) (hs : slave < 256) (e : client.s ≡ pos k) (h : k < 1024) (ha : addr < 65536)
    (lo : 1 ≤ nb) (hi : nb ≤ 1968) (small : nb < 65536) (low : m.start_bits ≤ addr)
    (room : addr - m.start_bits + nb ≤ m.nb_bits) where
  abbrev there_frame : List ℕ
  there_frame = going b slave (next_tid client.t_id) addr nb src ha lo hi small m low room

  abbrev back_frame : List ℕ
  back_frame = coming b slave (next_tid client.t_id) addr nb src ha lo hi small m low room

  abbrev left : List ℕ
  left = stored b slave (next_tid client.t_id) addr nb src ha lo hi small m low room

  pub write_bits-over :
      client.t_id < 65536
      → server.backend ≡ b
      → length m.tab_bits ≡ m.nb_bits
      → (reply version server there_frame (length there_frame) m (sends (length back_frame) ∷ [])
          ≡ (record m { tab_bits = left }, (transmit back_frame ∷ [], ok (length back_frame))))
        × IsUnpacked (flag src) (addr - m.start_bits) 0 nb m.tab_bits left
        × ((write_bits
              (over b client)
              errno
              (sends (length there_frame) ∷ [])
              (bytes back_frame ∷ [])
              addr
              nb
              src).1
            ≡ (transmit there_frame ∷ [], ok (nb, [])))
  unfolding write_bits dispatch
  write_bits-over ht same_b room_tab =
      let in_range : (ltb nb 1 || ltb 1968 nb) ≡ false = ground arith in
      let one_byte : byte_count nb % 256 ≡ byte_count nb = omega (arith, byte_count-small nb hi) in
      let t = next_tid client.t_id in
      let data_part = byte_count nb ∷ pack_bytes (byte_count nb) nb 0 src in
      let d = counts b slave t addr nb src ha lo hi small m low room in
      let basis = built b client slave 15 addr nb data_part own hs (omega arith) in
      (
        rw (same_backend b server same_b) (
            server_side b slave t 15 addr nb (byte_count nb) _ (inl refl) ha small d version server
              m (record m { tab_bits = left }) one hs (next_tid-lt client.t_id ht)
              (reply_write_bits-ok b slave t addr nb src ha lo hi small m low room)),
        stored-IsUnpacked b slave t addr nb src ha lo hi small m low room room_tab,
        rw (in_range, one_byte, basis.0, basis.1)
            (client_side b slave t 15 addr nb (byte_count nb) _ (inl refl) ha small d
              (asked b client) errno k own hs e h),
      )
