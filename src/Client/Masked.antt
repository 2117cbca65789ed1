-- ===== src/Client/Masked.antt =====
-- `modbus_mask_write_register` against `modbus_reply`.
use libmodbus.Base.{
  ℕ, ◌+◌, ◌-◌, ◌%◌, ◌≤◌, ◌<◌, ◌≡◌, refl, ◌∙◌, arith, inr, false, leb, ltb, ◌||◌, bit_and, bit_or,
  List, [], ◌∷◌, ◌++◌, byte_at, length, take, set, pos,
}
use libmodbus.Context.{Backend, rtu, tcp, Modbus, Errno, transmit, ok}
use libmodbus.Backend.{header_length, build_request_basis, next_tid}
use libmodbus.Lengths.{word_at}
use libmodbus.Mapping.{Mapping}
use libmodbus.Send.{sends}
use libmodbus.Receive.{bytes}
use libmodbus.Reply.{reply_mask_write_register, reply, dispatch}
use libmodbus.Client.{word_bytes, mask_write_register}
use libmodbus.Client.Messages.{
  built_plain, back, message, word_at-message, word_at-word_bytes, over, asked,
}
use libmodbus.Client.Answered.{request, sft}
use libmodbus.Client.Reading.{same_backend, next_tid-lt}
use libmodbus.Client.Repeats.{IsRepeated}
use libmodbus.Client.Single.{fields, frame, outcome, asked_for, fits, client_side, server_side}

-- The register afterwards: the digits that are set in the first mask are kept, and the others are
-- those of the second.
abbrev pub masked : ℕ → ℕ → ℕ → ℕ
masked word and_mask or_mask =
    bit_or (bit_and word and_mask) (bit_and or_mask (65535 - and_mask)) % 65536

-- The quantity of the request's basis gives way to the masks.
with_masks :
    (b : Backend) (slave t function addr and_mask or_mask : ℕ)
    → take (header_length b + 3) (message b slave t 0 function (word_bytes addr ++ word_bytes 0))
        ++ word_bytes and_mask
        ++ word_bytes or_mask
      ≡ message b slave t 0 function
          (word_bytes addr ++ (word_bytes and_mask ++ word_bytes or_mask))
with_masks rtu slave t function addr and_mask or_mask = refl
with_masks tcp slave t function addr and_mask or_mask = refl

pub built_masked :
    (b : Backend) (client : Modbus) (slave addr and_mask or_mask : ℕ)
    → client.slave ≡ pos slave
    → slave < 256
    → let (ctx, basis) = build_request_basis (over b client) 22 addr 0 in
      (ctx ≡ asked b client)
      × (take (header_length b + 3) basis ++ word_bytes and_mask ++ word_bytes or_mask
          ≡ message b slave
              (next_tid client.t_id)
              0
              22
              (word_bytes addr ++ (word_bytes and_mask ++ word_bytes or_mask)))
built_masked b client slave addr and_mask or_mask own hs =
    rw (built_plain b client slave 22 addr 0 own hs (omega arith))
      (refl, with_masks b slave (next_tid client.t_id) 22 addr and_mask or_mask)

module _ (b : Backend) (slave t addr and_mask or_mask : ℕ) (hs : slave < 256) (m : Mapping) where
  pub is_mask : IsRepeated 22 (word_bytes or_mask)
  is_mask = inr (refl, refl)

  abbrev going : List ℕ
  going = frame b slave t 22 addr and_mask (word_bytes or_mask) is_mask hs

  abbrev rest : List ℕ
  rest = fields b slave t 22 addr and_mask (word_bytes or_mask) is_mask hs

  second_mask : or_mask < 65536 → word_at going (header_length b + 5) ≡ or_mask
  second_mask small =
      word_at-message slave t _ 22 (rest ++ back b (request b slave t 22 rest rest)) b 4
        (header_length b + 5) (omega arith)
      ∙ word_at-word_bytes or_mask (back b (request b slave t 22 rest rest)) small

  abbrev left : List ℕ
  left =
      set m.tab_registers (addr - m.start_registers)
        (masked (byte_at m.tab_registers (addr - m.start_registers)) and_mask or_mask)

  reply_mask_write_register-ok :
      and_mask < 65536
      → or_mask < 65536
      → m.start_registers ≤ addr
      → addr - m.start_registers < m.nb_registers
      → reply_mask_write_register b (sft b slave t 22 rest rest) going (length going) addr m
        ≡ outcome b slave t 22 addr and_mask
            (word_bytes or_mask)
            is_mask
            hs
            (record m { tab_registers = left })
  unfolding reply_mask_write_register
  reply_mask_write_register-ok small small' low room =
      let there : (ltb addr m.start_registers || leb m.nb_registers (addr - m.start_registers))
          ≡ false =
        ground arith in
      rw
        (
          there,
          fits b slave t 22 addr and_mask (word_bytes or_mask) is_mask hs,
          asked_for b slave t 22 addr and_mask (word_bytes or_mask) is_mask hs small,
          second_mask small',
        )
        refl

-- The whole exchange.
module _ (b : Backend) (version : List ℕ) (client server : Modbus) (errno : Errno)
    (slave k addr and_mask or_mask : ℕ) (m : Mapping) (own : client.slave ≡ pos slave)
    (one : 1 ≤ slave) (hs : slave < 256) (e : client.s ≡ pos k) (h : k < 1024) (ha : addr < 65536)
    (ht : client.t_id < 65536) (same_b : server.backend ≡ b) where
  abbrev there_frame : List ℕ
  there_frame = going b slave (next_tid client.t_id) addr and_mask or_mask hs m

  pub mask_write_register-over :
      and_mask < 65536
      → or_mask < 65536
      → m.start_registers ≤ addr
      → addr - m.start_registers < m.nb_registers
      → (reply version server there_frame (length there_frame) m (sends (length there_frame) ∷ [])
          ≡ (
            record m {
              tab_registers =
                  set m.tab_registers
                    (addr - m.start_registers)
                    (masked (byte_at m.tab_registers (addr - m.start_registers)) and_mask or_mask);
            },
            (transmit there_frame ∷ [], ok (length there_frame)),
          ))
        × ((mask_write_register
              (over b client)
              errno
              (sends (length there_frame) ∷ [])
              (bytes there_frame ∷ [])
              addr
              and_mask
              or_mask).1
            ≡ (transmit there_frame ∷ [], ok (1, [])))
  unfolding mask_write_register dispatch
  mask_write_register-over small small' low room =
      let t = next_tid client.t_id in
      let more = word_bytes or_mask in
      let repeats = is_mask b slave t addr and_mask or_mask hs m in
      let basis = built_masked b client slave addr and_mask or_mask own hs in
      (
        rw (same_backend b server same_b) (
            server_side b slave t 22 addr and_mask more repeats hs version server m _ one ha
              (next_tid-lt client.t_id ht)
              (reply_mask_write_register-ok b slave t addr and_mask or_mask hs m small small' low
                room)),
        rw (basis.0, basis.1)
            (client_side b slave t 22 addr and_mask more repeats hs (asked b client) errno k own e
              h),
      )
