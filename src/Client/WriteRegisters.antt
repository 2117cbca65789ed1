-- ===== src/Client/WriteRegisters.antt =====
-- `modbus_write_registers` against `modbus_reply`.
use libmodbus.Base.{
  ℕ, inr, ◌+◌, ◌-◌, ◌*◌, ◌%◌, ◌≤◌, ◌<◌, ◌≡◌, refl, arith, false, ◌||◌, ltb, ◌==◌, ==_iff, not, List,
  [], ◌∷◌, length, AllBelow, pos,
}
use libmodbus.Context.{Backend, Modbus, Errno, transmit, ok}
use libmodbus.Backend.{header_length, next_tid}
use libmodbus.Mapping.{Mapping}
use libmodbus.Send.{sends}
use libmodbus.Receive.{bytes}
use libmodbus.Reply.{reply_write_registers, store_registers, reply, dispatch}
use libmodbus.Client.{words_bytes, write_registers}
use libmodbus.Client.Messages.{built, drop-message, back, over, asked}
use libmodbus.Client.Words.{length-words_bytes}
use libmodbus.Client.Answered.{sft}
use libmodbus.Client.Reading.{same_backend, next_tid-lt}
use libmodbus.Client.Writing.{
  Writes, rest, body, asking, frame, answering, quantity, counted, data_at, outcome, server_side,
  client_side,
}
use libmodbus.Client.Stored.{IsStored, store_registers-IsStored}

module _ (b : Backend) (slave t addr nb : ℕ) (src : List ℕ) (ha : addr < 65536) (lo : 1 ≤ nb)
    (hi : nb ≤ 123) (small : nb < 65536) (m : Mapping) (low : m.start_registers ≤ addr)
    (room : addr - m.start_registers + nb ≤ m.nb_registers) where
  abbrev payload : List ℕ
  payload = words_bytes nb src 0

  pub counts : length payload ≡ nb * 2
  counts = omega (arith, length-words_bytes nb 0 src)

  pub is_write : Writes 16
  is_write = inr refl

  abbrev going : List ℕ
  going = frame b slave t 16 addr nb (nb * 2) payload is_write ha small counts

  abbrev coming : List ℕ
  coming = answering b slave t 16 addr nb (nb * 2) payload is_write ha small counts

  abbrev ask : List ℕ
  ask = asking b slave t 16 addr nb (nb * 2) payload is_write ha small counts

  abbrev stored : List ℕ
  stored = store_registers nb (addr - m.start_registers) (header_length b + 6) going m.tab_registers

  reply_write_registers-ok :
      reply_write_registers b
        (sft b slave t 16
          (rest b slave t 16 addr nb (nb * 2) payload is_write ha small counts)
          (body b slave t 16 addr nb (nb * 2) payload is_write ha small counts))
        going
        (length going)
        addr
        m
      ≡ outcome b slave t 16 addr nb
          (nb * 2)
          payload
          is_write
          ha
          small
          counts
          (record m { tab_registers = stored })
  unfolding reply_write_registers
  reply_write_registers-ok =
      let in_range : (ltb nb 1 || ltb 123 nb || not (nb * 2 == nb * 2)) ≡ false =
        rw ((==_iff (nb * 2) (nb * 2)).1 refl) (ground arith) in
      let there : (ltb addr m.start_registers || ltb m.nb_registers (addr - m.start_registers + nb))
          ≡ false =
        ground arith in
      rw
        (
          quantity b slave t 16 addr nb (nb * 2) payload is_write ha small counts _ _,
          counted b slave t 16 addr nb (nb * 2) payload is_write ha small counts,
          in_range,
          there,
          drop-message b _ slave t _ 16 _,
        )
        refl

  stored-IsStored :
      length m.tab_registers ≡ m.nb_registers
      → AllBelow 65536 src
      → IsStored src 0 (addr - m.start_registers) nb m.tab_registers stored
  stored-IsStored room_tab fit =
      store_registers-IsStored nb 0 (addr - m.start_registers) (header_length b + 6) src
        (back b ask) going m.tab_registers fit (omega arith)
        (data_at b slave t 16 addr nb (nb * 2) payload is_write ha small counts)

-- The whole exchange.
module _ (b : Backend) (version : List ℕ) (client server : Modbus) (errno : Errno)
    (slave k addr nb : ℕ) (src : List ℕ) (m : Mapping) (own : client.slave ≡ pos slave)
    (one : 1 ≤ slave) (hs : slave < 256) (e : client.s ≡ pos k) (h : k < 1024) (ha : addr < 65536)
    (lo : 1 ≤ nb) (hi : nb ≤ 123) (small : nb < 65536) (low : m.start_registers ≤ addr)
    (room : addr - m.start_registers + nb ≤ m.nb_registers) where
  abbrev there_frame : List ℕ
  there_frame = going b slave (next_tid client.t_id) addr nb src ha lo hi small m low room

  abbrev back_frame : List ℕ
  back_frame = coming b slave (next_tid client.t_id) addr nb src ha lo hi small m low room

  abbrev left : List ℕ
  left = stored b slave (next_tid client.t_id) addr nb src ha lo hi small m low room

  pub write_registers-over :
      client.t_id < 65536
      → server.backend ≡ b
      → length m.tab_registers ≡ m.nb_registers
      → AllBelow 65536 src
      → (reply version server there_frame (length there_frame) m (sends (length back_frame) ∷ [])
          ≡ (record m { tab_registers = left }, (transmit back_frame ∷ [], ok (length back_frame))))
        × IsStored src 0 (addr - m.start_registers) nb m.tab_registers left
        × ((write_registers
              (over b client)
              errno
              (sends (length there_frame) ∷ [])
              (bytes back_frame ∷ [])
              addr
              nb
              src).1
            ≡ (transmit there_frame ∷ [], ok (nb, [])))
  unfolding write_registers dispatch
  write_registers-over ht same_b room_tab fit =
      let in_range : (ltb nb 1 || ltb 123 nb) ≡ false = ground arith in
      let one_byte : nb * 2 % 256 ≡ nb * 2 = omega arith in
      let t = next_tid client.t_id in
      let data_part = nb * 2 ∷ words_bytes nb src 0 in
      let d = counts b slave t addr nb src ha lo hi small m low room in
      let basis = built b client slave 16 addr nb data_part own hs (omega arith) in
      (
        rw (same_backend b server same_b) (
            server_side b slave t 16 addr nb (nb * 2) _ (inr refl) ha small d version server m
              (record m { tab_registers = left }) one hs (next_tid-lt client.t_id ht)
              (reply_write_registers-ok b slave t addr nb src ha lo hi small m low room)),
        stored-IsStored b slave t addr nb src ha lo hi small m low room room_tab fit,
        rw (in_range, one_byte, basis.0, basis.1)
            (client_side b slave t 16 addr nb (nb * 2) _ (inr refl) ha small d (asked b client)
              errno k own hs e h),
      )
