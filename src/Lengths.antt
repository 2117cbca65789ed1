-- ===== src/Lengths.antt =====
-- The length computations of src/modbus.c, by which both ends frame a message.
use libmodbus.Base.{
  ℕ, ◌+◌, ◌*◌, ◌/◌, ◌%◌, ◌^◌, bit_or, ◌||◌, leb, ◌==◌, if◌then◌else◌, Option, none, some, List,
  byte_at,
}
use libmodbus.Context.{
  Backend, MsgType, indication, confirmation, fc_read_coils, fc_read_discrete_inputs,
  fc_read_holding_registers, fc_read_input_registers, fc_write_single_coil,
  fc_write_single_register, fc_read_exception_status, fc_write_multiple_coils,
  fc_write_multiple_registers, fc_report_slave_id, fc_mask_write_register,
  fc_write_and_read_registers,
}
use libmodbus.Backend.{header_length, checksum_length}

-- `(x[i] << 8) + x[i + 1]`
abbrev pub word_at : List ℕ → ℕ → ℕ
word_at buf i = byte_at buf i * 256 + byte_at buf (i + 1)

-- `(x[i] << 8) | x[i + 1]`
abbrev pub word_or_at : List ℕ → ℕ → ℕ
word_or_at buf i = bit_or (byte_at buf i * 2 ^ 8) (byte_at buf (i + 1))

-- `(nb / 8) + ((nb % 8) ? 1 : 0)`
abbrev pub byte_count : ℕ → ℕ
byte_count nb = nb / 8 + (if nb % 8 == 0 then 0 else 1)

-- The length of the expected response with the checksum; `none` is MSG_LENGTH_UNDEFINED.
unfoldable pub compute_response_length_from_request : Backend → List ℕ → Option ℕ
compute_response_length_from_request backend req =
    let offset = header_length backend in
    let function = byte_at req offset in
    let total = λ (length : ℕ). some (offset + length + checksum_length backend) in
    if function == fc_read_coils || function == fc_read_discrete_inputs
    then total (2 + byte_count (word_or_at req (offset + 3)))
    else if function == fc_write_and_read_registers
        || (function == fc_read_holding_registers || function == fc_read_input_registers)
    then total (2 + 2 * word_or_at req (offset + 3))
    else if function == fc_read_exception_status
    then total 3
    else if function == fc_report_slave_id
    then none
    else if function == fc_mask_write_register
    then total 7
    else total 5

-- The number of bytes to read after the function code.
unfoldable pub compute_meta_length_after_function : ℕ → MsgType → ℕ
compute_meta_length_after_function function indication =
    if leb function fc_write_single_register
    then 4
    else if function == fc_write_multiple_coils || function == fc_write_multiple_registers
    then 5
    else if function == fc_mask_write_register
    then 6
    else if function == fc_write_and_read_registers
    then 9
    else 0
compute_meta_length_after_function function confirmation =
    if function == fc_write_single_coil
      || function == fc_write_single_register
      || (function == fc_write_multiple_coils || function == fc_write_multiple_registers)
    then 4
    else if function == fc_mask_write_register
    then 6
    else 1

-- The number of bytes to read after the meta fields, checksum included.
unfoldable pub compute_data_length_after_meta : Backend → List ℕ → MsgType → ℕ
compute_data_length_after_meta backend msg indication =
    let offset = header_length backend in
    let function = byte_at msg offset in
    (if function == fc_write_multiple_coils || function == fc_write_multiple_registers
      then byte_at msg (offset + 5)
      else if function == fc_write_and_read_registers
      then byte_at msg (offset + 9)
      else 0)
    + checksum_length backend
compute_data_length_after_meta backend msg confirmation =
    let offset = header_length backend in
    let function = byte_at msg offset in
    (if leb function fc_read_input_registers
        || (function == fc_report_slave_id || function == fc_write_and_read_registers)
      then byte_at msg (offset + 1)
      else 0)
    + checksum_length backend
