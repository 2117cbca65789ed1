-- ===== src/Crc.antt =====
-- `crc16` of src/modbus-rtu.c, by its two lookup tables.
pub mod Tables
pub mod Reference
pub mod Detect
use libmodbus.Base.{ℕ, ◌*◌, ◌%◌, ◌^◌, bit_or, bit_xor, List, [], ◌∷◌, byte_at, take}
use Tables.{table_crc_hi, table_crc_lo}

-- `while (buffer_length--)` over the bytes that are left.
unfoldable pub crc_loop : List ℕ → ℕ → ℕ → ℕ
crc_loop [] crc_hi crc_lo = bit_or (crc_hi * 2 ^ 8) crc_lo
crc_loop (b ∷ buffer) crc_hi crc_lo =
    let i = bit_xor crc_lo b in
    crc_loop buffer (byte_at table_crc_lo i) (bit_xor crc_hi (byte_at table_crc_hi i))

-- The length is a `uint16_t`.
unfoldable pub crc16 : List ℕ → ℕ → ℕ
crc16 buffer buffer_length = crc_loop (take (buffer_length % 2 ^ 16) buffer) 0xff 0xff
