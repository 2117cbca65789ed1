-- ===== src/Client/Missing.antt =====
-- The cases of the switch of `modbus_reply` on a request for entries that the mapping does not have.
use libmodbus.Base.{
  ℕ, ◌+◌, ◌-◌, ◌*◌, ◌≡◌, refl, arith, true, false, ◌||◌, leb, ltb, not, ◌==◌, ==_iff, List, ◌∷◌,
  byte_at,
}
use libmodbus.Context.{Backend, Sft, illegal_data_address}
use libmodbus.Backend.{header_length}
use libmodbus.Lengths.{word_at, byte_count}
use libmodbus.Mapping.{Mapping}
use libmodbus.Reply.{
  Answer, response_exception, reply_read_bits, reply_read_registers, reply_write_bit,
  reply_write_register, reply_mask_write_register, reply_write_bits, reply_write_registers,
  dispatch,
}
use libmodbus.Client.Calls.{
  Call, coils_read, inputs_read, registers_read, input_registers_read, coil_written,
  register_written, register_masked, coils_written, registers_written, code, word, data_part,
  Between, IsAllowed, IsOutside, IsMissing,
}

outside :
    (start count addr nb : ℕ)
    → IsOutside start count addr nb
    → (ltb addr start || ltb count (addr - start + nb)) ≡ true
outside start count addr nb missing = ground arith

outside_one :
    (start count addr : ℕ)
    → IsOutside start count addr 1
    → (ltb addr start || leb count (addr - start)) ≡ true
outside_one start count addr missing = ground arith

-- The cases of the server's switch.
module _ (b : Backend) (s : Sft) (req : List ℕ) (n addr : ℕ) (m : Mapping) where
  abbrev pub refusal : Answer
  refusal = response_exception b s illegal_data_address false m

  module _ (nb : ℕ) (there : word_at req (header_length b + 3) ≡ nb) where
    reply_read_bits-outside :
        (start count : ℕ) (tab : List ℕ)
        → Between nb 2000
        → IsOutside start count addr nb
        → reply_read_bits b s req n addr m start count tab ≡ refusal
    unfolding reply_read_bits
    reply_read_bits-outside start count tab allowed missing =
        let in_range : (ltb nb 1 || ltb 2000 nb) ≡ false = ground (arith, allowed) in
        rw (there, in_range, outside start count addr nb missing) refl

    reply_read_registers-outside :
        (start count : ℕ) (tab : List ℕ)
        → Between nb 125
        → IsOutside start count addr nb
        → reply_read_registers b s req n addr m start count tab ≡ refusal
    unfolding reply_read_registers
    reply_read_registers-outside start count tab allowed missing =
        let in_range : (ltb nb 1 || ltb 125 nb) ≡ false = ground (arith, allowed) in
        rw (there, in_range, outside start count addr nb missing) refl

    reply_write_bits-outside :
        byte_at req (header_length b + 5) ≡ byte_count nb
        → Between nb 1968
        → IsOutside m.start_bits m.nb_bits addr nb
        → reply_write_bits b s req n addr m ≡ refusal
    unfolding reply_write_bits
    reply_write_bits-outside counted allowed missing =
        let in_range : (ltb nb 1 || ltb 1968 nb || ltb (byte_count nb * 8) nb) ≡ false =
          ground (arith, allowed) in
        rw (there, counted, in_range, outside m.start_bits m.nb_bits addr nb missing) refl

    reply_write_registers-outside :
        byte_at req (header_length b + 5) ≡ nb * 2
        → Between nb 123
        → IsOutside m.start_registers m.nb_registers addr nb
        → reply_write_registers b s req n addr m ≡ refusal
    unfolding reply_write_registers
    reply_write_registers-outside counted allowed missing =
        let in_range : (ltb nb 1 || ltb 123 nb || not (nb * 2 == nb * 2)) ≡ false =
          rw ((==_iff (nb * 2) (nb * 2)).1 refl) (ground (arith, allowed)) in
        rw (there, counted, in_range, outside m.start_registers m.nb_registers addr nb missing) refl

  reply_write_bit-outside :
      IsOutside m.start_bits m.nb_bits addr 1 → reply_write_bit b s req n addr m ≡ refusal
  unfolding reply_write_bit
  reply_write_bit-outside missing = rw (outside_one m.start_bits m.nb_bits addr missing) refl

  reply_write_register-outside :
      IsOutside m.start_registers m.nb_registers addr 1
      → reply_write_register b s req n addr m ≡ refusal
  unfolding reply_write_register
  reply_write_register-outside missing =
      rw (outside_one m.start_registers m.nb_registers addr missing) refl

  reply_mask_write_register-outside :
      IsOutside m.start_registers m.nb_registers addr 1
      → reply_mask_write_register b s req n addr m ≡ refusal
  unfolding reply_mask_write_register
  reply_mask_write_register-outside missing =
      rw (outside_one m.start_registers m.nb_registers addr missing) refl

  -- All of them.
  pub dispatch-missing :
      (call : Call) (version : List ℕ)
      → word_at req (header_length b + 3) ≡ word call
      → ((count : ℕ) (rest : List ℕ)
          → data_part call ≡ count ∷ rest
          → byte_at req (header_length b + 5) ≡ count)
      → IsAllowed call
      → IsMissing call m addr
      → dispatch b s req n addr m version (code call) ≡ refusal
  unfolding dispatch
  dispatch-missing (coils_read nb) version there counted allowed missing =
      reply_read_bits-outside nb there m.start_bits m.nb_bits m.tab_bits allowed missing
  dispatch-missing (inputs_read nb) version there counted allowed missing =
      reply_read_bits-outside nb there m.start_input_bits m.nb_input_bits m.tab_input_bits allowed
        missing
  dispatch-missing (registers_read nb) version there counted allowed missing =
      reply_read_registers-outside nb there m.start_registers m.nb_registers m.tab_registers allowed
        missing
  dispatch-missing (input_registers_read nb) version there counted allowed missing =
      reply_read_registers-outside nb there m.start_input_registers m.nb_input_registers
        m.tab_input_registers allowed missing
  dispatch-missing (coil_written status) version there counted allowed missing =
      reply_write_bit-outside missing
  dispatch-missing (register_written value) version there counted allowed missing =
      reply_write_register-outside missing
  dispatch-missing (register_masked and_mask or_mask) version there counted allowed missing =
      reply_mask_write_register-outside missing
  dispatch-missing (coils_written nb src) version there counted allowed missing =
      reply_write_bits-outside nb there (counted _ _ refl) allowed missing
  dispatch-missing (registers_written nb src) version there counted allowed missing =
      reply_write_registers-outside nb there (counted _ _ refl) allowed missing
