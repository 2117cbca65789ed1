-- ===== src/Client/CallFrames.antt =====
-- The frames of the client's calls that begin with an address.
use libmodbus.Base.{
  ℕ, ◌+◌, ◌≤◌, ◌<◌, ◌≡◌, refl, ◌∙◌, arith, List, ◌∷◌, byte_at, length, length-append,
}
use libmodbus.Context.{Backend}
use libmodbus.Backend.{header_length, checksum_length}
use libmodbus.Lengths.{
  byte_count, compute_meta_length_after_function, compute_data_length_after_meta,
}
use libmodbus.Reply.{required_length}
use libmodbus.Client.Messages.{back, length-message, function-message, byte_at-message, length-back}
use libmodbus.Client.Packing.{length-pack_bytes}
use libmodbus.Client.Words.{length-words_bytes}
use libmodbus.Client.Refused.{frame}
use libmodbus.Client.Calls.{
  Call, coils_read, inputs_read, registers_read, input_registers_read, coil_written,
  register_written, register_masked, coils_written, registers_written, code, word, data_part,
  IsAllowed,
}

pub small_code : (call : Call) → code call < 128
small_code (coils_read nb) = omega arith
small_code (inputs_read nb) = omega arith
small_code (registers_read nb) = omega arith
small_code (input_registers_read nb) = omega arith
small_code (coil_written status) = omega arith
small_code (register_written value) = omega arith
small_code (register_masked and_mask or_mask) = omega arith
small_code (coils_written nb src) = omega arith
small_code (registers_written nb src) = omega arith

pub small_word : (call : Call) → IsAllowed call → word call < 65536
small_word (coils_read nb) allowed = omega (arith, allowed.1)
small_word (inputs_read nb) allowed = omega (arith, allowed.1)
small_word (registers_read nb) allowed = omega (arith, allowed.1)
small_word (input_registers_read nb) allowed = omega (arith, allowed.1)
small_word (coil_written status) allowed = ground arith
small_word (register_written value) allowed = allowed
small_word (register_masked and_mask or_mask) allowed = allowed.0
small_word (coils_written nb src) allowed = omega (arith, allowed.1)
small_word (registers_written nb src) allowed = omega (arith, allowed.1)

-- A message of the call is as long as its function code and its byte count ask for.
module _ (b : Backend) (msg : List ℕ) where
  long_enough :
      (call : Call)
      → byte_at msg (header_length b) ≡ code call
      → ((count : ℕ) (rest : List ℕ)
          → data_part call ≡ count ∷ rest
          → byte_at msg (header_length b + 5) ≡ count)
      → length msg ≡ header_length b + 5 + length (data_part call) + checksum_length b
      → required_length b msg (length msg) ≤ length msg
  unfolding required_length compute_meta_length_after_function compute_data_length_after_meta
  long_enough (coils_read nb) named counted long = rw named (ground (arith, long))
  long_enough (inputs_read nb) named counted long = rw named (ground (arith, long))
  long_enough (registers_read nb) named counted long = rw named (ground (arith, long))
  long_enough (input_registers_read nb) named counted long = rw named (ground (arith, long))
  long_enough (coil_written status) named counted long = rw named (ground (arith, long))
  long_enough (register_written value) named counted long = rw named (ground (arith, long))
  long_enough (register_masked and_mask or_mask) named counted long =
      rw named (ground (arith, long))
  long_enough (coils_written nb src) named counted long =
      rw (named, counted _ _ refl)
        (ground (arith, long, length-pack_bytes (byte_count nb) nb 0 src))
  long_enough (registers_written nb src) named counted long =
      rw (named, counted _ _ refl) (ground (arith, long, length-words_bytes nb 0 src))

module _ (b : Backend) (slave t addr : ℕ) (call : Call) (hs : slave < 256) where
  abbrev pub going : List ℕ
  going = frame b slave t (code call) addr (word call) (data_part call) hs (small_code call)

  pub counted :
      (count : ℕ) (rest : List ℕ)
      → data_part call ≡ count ∷ rest
      → byte_at going (header_length b + 5) ≡ count
  counted count rest e =
      byte_at-message slave t _ (code call) _ b 4 (header_length b + 5) (omega arith) ∙ rw e refl

  length-going : length going ≡ header_length b + 5 + length (data_part call) + checksum_length b
  length-going = omega (
    arith,
    length-message slave t _ (code call) _ b,
    length-append (data_part call) (back b _),
    length-back b _,
  )

  pub whole : required_length b going (length going) ≤ length going
  whole = long_enough b going call (function-message slave t _ (code call) _ b) counted length-going
