-- ===== src/Client/Calls.antt =====
-- The client's calls that begin with an address, as one type: what each is called on the context,
-- what it sends, and which entries of the server it needs.
use libmodbus.Base.{ℕ, ◌+◌, ◌*◌, ◌≤◌, ◌<◌, if◌then◌else◌, ◌==◌, ◌⊎◌, List, [], ◌∷◌}
use libmodbus.Context.{Errno, Modbus}
use libmodbus.Lengths.{byte_count}
use libmodbus.Send.{SendOutcome}
use libmodbus.Receive.{Event}
use libmodbus.Mapping.{Mapping}
use libmodbus.Client.{
  Filled, read_bits, read_input_bits, read_registers, read_input_registers, write_bit,
  write_register, write_bits, write_registers, mask_write_register, word_bytes, pack_bytes,
  words_bytes,
}

pub data Call : Type 0 where
  coils_read inputs_read registers_read input_registers_read : ℕ → Call
  coil_written register_written : ℕ → Call
  register_masked : ℕ → ℕ → Call
  coils_written registers_written : ℕ → List ℕ → Call

-- The call, at an address.
abbrev pub issue : Call → Modbus → Errno → List SendOutcome → List Event → ℕ → Modbus × Filled
issue (coils_read nb) ctx errno sends events addr = read_bits ctx errno sends events addr nb
issue (inputs_read nb) ctx errno sends events addr = read_input_bits ctx errno sends events addr nb
issue (registers_read nb) ctx errno sends events addr =
    read_registers ctx errno sends events addr nb
issue (input_registers_read nb) ctx errno sends events addr =
    read_input_registers ctx errno sends events addr nb
issue (coil_written status) ctx errno sends events addr =
    write_bit ctx errno sends events addr status
issue (register_written value) ctx errno sends events addr =
    write_register ctx errno sends events addr value
issue (register_masked and_mask or_mask) ctx errno sends events addr =
    mask_write_register ctx errno sends events addr and_mask or_mask
issue (coils_written nb src) ctx errno sends events addr =
    write_bits ctx errno sends events addr nb src
issue (registers_written nb src) ctx errno sends events addr =
    write_registers ctx errno sends events addr nb src

-- The function code, the word behind the address and the data behind that.
abbrev pub code : Call → ℕ
code (coils_read nb) = 1
code (inputs_read nb) = 2
code (registers_read nb) = 3
code (input_registers_read nb) = 4
code (coil_written status) = 5
code (register_written value) = 6
code (register_masked and_mask or_mask) = 22
code (coils_written nb src) = 15
code (registers_written nb src) = 16

abbrev pub word : Call → ℕ
word (coils_read nb) = nb
word (inputs_read nb) = nb
word (registers_read nb) = nb
word (input_registers_read nb) = nb
word (coil_written status) = if status == 0 then 0 else 0xff00
word (register_written value) = value
word (register_masked and_mask or_mask) = and_mask
word (coils_written nb src) = nb
word (registers_written nb src) = nb

abbrev pub data_part : Call → List ℕ
data_part (coils_read nb) = []
data_part (inputs_read nb) = []
data_part (registers_read nb) = []
data_part (input_registers_read nb) = []
data_part (coil_written status) = []
data_part (register_written value) = []
data_part (register_masked and_mask or_mask) = word_bytes or_mask
data_part (coils_written nb src) = byte_count nb ∷ pack_bytes (byte_count nb) nb 0 src
data_part (registers_written nb src) = nb * 2 ∷ words_bytes nb src 0

-- What the client lets through: the quantities of each call, and words of 16 bits.
abbrev pub Between : ℕ → ℕ → Type 0
Between nb most = (1 ≤ nb) × (nb ≤ most)

abbrev pub IsAllowed : Call → Type 0
IsAllowed (coils_read nb) = Between nb 2000
IsAllowed (inputs_read nb) = Between nb 2000
IsAllowed (registers_read nb) = Between nb 125
IsAllowed (input_registers_read nb) = Between nb 125
IsAllowed (coil_written status) = Unit {0}
IsAllowed (register_written value) = value < 65536
IsAllowed (register_masked and_mask or_mask) = (and_mask < 65536) × (or_mask < 65536)
IsAllowed (coils_written nb src) = Between nb 1968
IsAllowed (registers_written nb src) = Between nb 123

-- Entries `addr` to `addr + nb - 1` are not all among the `count` entries from `start` on.
abbrev pub IsOutside : ℕ → ℕ → ℕ → ℕ → Type 0
IsOutside start count addr nb = (addr < start) ⊎ (start + count < addr + nb)

-- The server's mapping does not have what the call needs.
abbrev pub IsMissing : Call → Mapping → ℕ → Type 0
IsMissing (coils_read nb) m addr = IsOutside m.start_bits m.nb_bits addr nb
IsMissing (inputs_read nb) m addr = IsOutside m.start_input_bits m.nb_input_bits addr nb
IsMissing (registers_read nb) m addr = IsOutside m.start_registers m.nb_registers addr nb
IsMissing (input_registers_read nb) m addr =
    IsOutside m.start_input_registers m.nb_input_registers addr nb
IsMissing (coil_written status) m addr = IsOutside m.start_bits m.nb_bits addr 1
IsMissing (register_written value) m addr = IsOutside m.start_registers m.nb_registers addr 1
IsMissing (register_masked and_mask or_mask) m addr =
    IsOutside m.start_registers m.nb_registers addr 1
IsMissing (coils_written nb src) m addr = IsOutside m.start_bits m.nb_bits addr nb
IsMissing (registers_written nb src) m addr = IsOutside m.start_registers m.nb_registers addr nb
