-- ===== src/Client/WriteOne.antt =====
-- `modbus_write_bit` and `modbus_write_register` against `modbus_reply`.
use libmodbus.Base.{
  ℕ, ◌-◌, ◌%◌, ◌≤◌, ◌<◌, ◌≡◌, refl, arith, inl, inr, true, false, leb, ltb, ◌||◌, ◌==◌, Bool-cases,
  if◌then◌else◌, List, [], ◌∷◌, length, set, pos,
}
use libmodbus.Context.{Backend, Modbus, Errno, transmit, ok}
use libmodbus.Backend.{next_tid}
use libmodbus.Mapping.{Mapping}
use libmodbus.Send.{sends}
use libmodbus.Receive.{bytes}
use libmodbus.Reply.{reply_write_bit, reply_write_register, reply, dispatch}
use libmodbus.Client.{write_single, write_bit, write_register}
use libmodbus.Client.Messages.{built_plain, over, asked}
use libmodbus.Client.Answered.{sft}
use libmodbus.Client.Reading.{same_backend, next_tid-lt}
use libmodbus.Client.Single.{
  fields, frame, frame, outcome, asked_for, fits, client_side, server_side,
}

-- The value of a request for one coil, and the entry that the server stores for it.
abbrev pub coil_word : ℕ → ℕ
coil_word status = if status == 0 then 0 else 0xff00

abbrev pub coil_entry : ℕ → ℕ
coil_entry status = if status == 0 then 0 else 1

coil_word-lt : (status : ℕ) → coil_word status < 65536
coil_word-lt status = ground arith

coil_word-known : (status : ℕ) → (coil_word status == 0xff00 || coil_word status == 0) ≡ true
coil_word-known status = elim (Bool-cases (status == 0)) [ inl e ↦ rw e refl | inr e ↦ rw e refl ]

coil_word-off : (status : ℕ) → (coil_word status == 0) ≡ (status == 0)
coil_word-off status = elim (Bool-cases (status == 0)) [ inl e ↦ rw e refl | inr e ↦ rw e refl ]

module _ (b : Backend) (slave t addr : ℕ) (hs : slave < 256) (m : Mapping) where
  reply_write_bit-ok :
      (status : ℕ)
      → m.start_bits ≤ addr
      → addr - m.start_bits < m.nb_bits
      → let value = coil_word status in
        let going = frame b slave t 5 addr value [] (inl (inl refl, refl)) hs in
        reply_write_bit b
          (sft b slave t 5
            (fields b slave t 5 addr value [] (inl (inl refl, refl)) hs)
            (fields b slave t 5 addr value [] (inl (inl refl, refl)) hs))
          going
          (length going)
          addr
          m
        ≡ outcome b slave t 5 addr value []
            (inl (inl refl, refl))
            hs
            (record m { tab_bits = set m.tab_bits (addr - m.start_bits) (coil_entry status) })
  unfolding reply_write_bit
  reply_write_bit-ok status low room =
      let there : (ltb addr m.start_bits || leb m.nb_bits (addr - m.start_bits)) ≡ false =
        ground arith in
      rw
        (
          there,
          fits b slave t 5 addr (coil_word status) [] (inl (inl refl, refl)) hs,
          asked_for b slave t 5 addr (coil_word status) [] (inl (inl refl, refl)) hs
              (coil_word-lt status),
          coil_word-known status,
          coil_word-off status,
        )
        refl

  reply_write_register-ok :
      (value : ℕ)
      → value < 65536
      → m.start_registers ≤ addr
      → addr - m.start_registers < m.nb_registers
      → let going = frame b slave t 6 addr value [] (inl (inr refl, refl)) hs in
        reply_write_register b
          (sft b slave t 6
            (fields b slave t 6 addr value [] (inl (inr refl, refl)) hs)
            (fields b slave t 6 addr value [] (inl (inr refl, refl)) hs))
          going
          (length going)
          addr
          m
        ≡ outcome b slave t 6 addr value []
            (inl (inr refl, refl))
            hs
            (record m { tab_registers = set m.tab_registers (addr - m.start_registers) value })
  unfolding reply_write_register
  reply_write_register-ok value small low room =
      let there : (ltb addr m.start_registers || leb m.nb_registers (addr - m.start_registers))
          ≡ false =
        ground arith in
      let word : value % 65536 ≡ value = omega arith in
      rw
        (
          there,
          fits b slave t 6 addr value [] (inl (inr refl, refl)) hs,
          asked_for b slave t 6 addr value [] (inl (inr refl, refl)) hs small,
          word,
        )
        refl

-- The whole exchanges.
module _ (b : Backend) (version : List ℕ) (client server : Modbus) (errno : Errno)
    (slave k addr : ℕ) (m : Mapping) (own : client.slave ≡ pos slave) (one : 1 ≤ slave)
    (hs : slave < 256) (e : client.s ≡ pos k) (h : k < 1024) (ha : addr < 65536)
    (ht : client.t_id < 65536) (same_b : server.backend ≡ b) where
  pub write_bit-over :
      (status : ℕ)
      → m.start_bits ≤ addr
      → addr - m.start_bits < m.nb_bits
      → let value = coil_word status in
        let going =
          frame b slave (next_tid client.t_id) 5 addr value [] (inl (inl refl, refl)) hs in
        (reply version server going (length going) m (sends (length going) ∷ []) ≡ (
          record m { tab_bits = set m.tab_bits (addr - m.start_bits) (coil_entry status) },
          (transmit going ∷ [], ok (length going)),
        ))
        × ((write_bit
              (over b client)
              errno
              (sends (length going) ∷ [])
              (bytes going ∷ [])
              addr
              status).1
            ≡ (transmit going ∷ [], ok (1, [])))
  unfolding write_bit write_single dispatch
  write_bit-over status low room =
      let value = coil_word status in
      let t = next_tid client.t_id in
      (
        rw (same_backend b server same_b) (
            server_side b slave t 5 addr value [] (inl (inl refl, refl)) hs version server m _ one
              ha (next_tid-lt client.t_id ht)
              (reply_write_bit-ok b slave t addr hs m status low room)),
        rw (built_plain b client slave 5 addr value own hs (omega arith)) (
            client_side b slave t 5 addr value [] (inl (inl refl, refl)) hs (asked b client) errno k
              own e h),
      )

  pub write_register-over :
      (value : ℕ)
      → value < 65536
      → m.start_registers ≤ addr
      → addr - m.start_registers < m.nb_registers
      → let going =
          frame b slave (next_tid client.t_id) 6 addr value [] (inl (inr refl, refl)) hs in
        (reply version server going (length going) m (sends (length going) ∷ []) ≡ (
          record m { tab_registers = set m.tab_registers (addr - m.start_registers) value },
          (transmit going ∷ [], ok (length going)),
        ))
        × ((write_register
              (over b client)
              errno
              (sends (length going) ∷ [])
              (bytes going ∷ [])
              addr
              value).1
            ≡ (transmit going ∷ [], ok (1, [])))
  unfolding write_register write_single dispatch
  write_register-over value small low room =
      let t = next_tid client.t_id in
      (
        rw (same_backend b server same_b) (
            server_side b slave t 6 addr value [] (inl (inr refl, refl)) hs version server m _ one
              ha (next_tid-lt client.t_id ht)
              (reply_write_register-ok b slave t addr hs m value small low room)),
        rw (built_plain b client slave 6 addr value own hs (omega arith)) (
            client_side b slave t 6 addr value [] (inl (inr refl, refl)) hs (asked b client) errno k
              own e h),
      )
