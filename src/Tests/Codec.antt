-- ===== src/Tests/Codec.antt =====
-- Runs of the checksum, of the framing and of the conversions of src/modbus-data.c.
use libmodbus.Base.{
  ℕ, ◌+◌, ◌*◌, ◌%◌, ◌/◌, ◌≡◌, ◌≢◌, refl, arith, [], ◌∷◌, ◌++◌, byte_at, length, bit, replicate,
  get_or-lt, AllBelow-replicate,
}
use libmodbus.Context.{rtu, tcp, ok, err, flush, embbadcrc}
use libmodbus.Crc.{crc16}
use libmodbus.Crc.Reference.{crc_register, crc16-crc_register}
use libmodbus.Crc.Detect.{crc16_detects}
use libmodbus.Backend.{send_msg_pre, check_integrity}
use libmodbus.Backend.Framing.{
  crc_bytes, check_integrity-send_msg_pre, check_integrity_detects, send_msg_pre-length,
}
use libmodbus.Data.{
  get_byte_from_bits, set_bits_from_byte, set_bits_from_bytes, Pair, get_float_abcd, get_float_dcba,
  get_float_badc, get_float_cdab, set_float_abcd, set_float_dcba, set_float_badc, set_float_cdab,
}
use libmodbus.Data.BitTables.{
  IsUnpacked, digits_value, set_bits_from_bytes-IsUnpacked, get_byte_from_bits-eq-digits_value,
  get_byte_from_bits-set_bits_from_byte,
}
use libmodbus.Data.FloatOrders.{get_float-set_float, set_float-get_float}
use libmodbus.Tests.{context}

crc16-crc_register_example : crc16 (17 ∷ 3 ∷ []) 2 ≡ crc_register 0xffff (17 ∷ 3 ∷ [])
crc16-crc_register_example =
    crc16-crc_register (17 ∷ 3 ∷ []) (omega arith, (omega arith, tt)) (omega arith)

crc16_detects_example : crc16 (17 ∷ 3 ∷ 9 ∷ []) 3 ≢ crc16 (17 ∷ 4 ∷ 9 ∷ []) 3
crc16_detects_example =
    crc16_detects (17 ∷ []) (9 ∷ []) 3 4 (omega arith, tt) (omega arith, tt) (omega arith)
      (omega arith) (omega arith) (omega arith)

check_integrity-send_msg_pre_example :
    check_integrity
      (context rtu)
      (send_msg_pre rtu (17 ∷ 3 ∷ []))
      (length (send_msg_pre rtu (17 ∷ 3 ∷ [])))
    ≡ ([], ok (length (send_msg_pre rtu (17 ∷ 3 ∷ []))))
check_integrity-send_msg_pre_example =
    check_integrity-send_msg_pre (context rtu) (17 ∷ 3 ∷ []) refl (omega arith)

check_integrity_detects_example :
    let frame = (17 ∷ 4 ∷ 9 ∷ []) ++ crc_bytes (crc16 (17 ∷ 3 ∷ 9 ∷ []) 3) in
    check_integrity (context rtu) frame (length frame) ≡ (flush ∷ [], err embbadcrc)
check_integrity_detects_example =
    check_integrity_detects (context rtu) (17 ∷ []) (9 ∷ []) 3 4 refl (omega arith, tt)
      (omega arith, tt) (omega arith) (omega arith) (omega arith) (omega arith)

send_msg_pre-length_example :
    let frame = send_msg_pre tcp (replicate 12 1) in
    (length frame ≡ 12) × (byte_at frame 4 * 256 + byte_at frame 5 + 6 ≡ 12)
send_msg_pre-length_example = send_msg_pre-length (replicate 12 1) (omega arith) (omega arith)

set_bits_from_bytes-IsUnpacked_example :
    IsUnpacked
      (λ j. bit (byte_at (0x9a ∷ 3 ∷ []) (j / 8)) (j % 8))
      1
      0
      10
      (replicate 12 7)
      (set_bits_from_bytes (replicate 12 7) 1 10 (0x9a ∷ 3 ∷ []))
set_bits_from_bytes-IsUnpacked_example =
    set_bits_from_bytes-IsUnpacked (replicate 12 7) 1 10 (0x9a ∷ 3 ∷ []) (omega arith)

get_byte_from_bits-eq-digits_value_example :
    get_byte_from_bits (replicate 9 1) 1 5 ≡ digits_value (replicate 9 1) 1 5
get_byte_from_bits-eq-digits_value_example =
    get_byte_from_bits-eq-digits_value (replicate 9 1) 1 5 (λ j p.
      get_or-lt 2 (replicate 9 1) (1 + j) (omega arith) (AllBelow-replicate 2 9 1 (omega arith)))

get_byte_from_bits-set_bits_from_byte_example :
    get_byte_from_bits (set_bits_from_byte (replicate 9 0) 1 0x9a) 1 8 ≡ 0x9a
get_byte_from_bits-set_bits_from_byte_example =
    get_byte_from_bits-set_bits_from_byte (replicate 9 0) 1 0x9a (omega arith) (omega arith)

get_float-set_float_example :
    let i : ℕ = 0x47f12000 in
    (get_float_abcd (set_float_abcd i) ≡ i)
    × (get_float_dcba (set_float_dcba i) ≡ i)
    × (get_float_badc (set_float_badc i) ≡ i)
    × (get_float_cdab (set_float_cdab i) ≡ i)
get_float-set_float_example = get_float-set_float 0x47f12000 (omega arith)

abbrev pair : Pair
pair = record { first = 0x47f1; second = 0x2000 }

set_float-get_float_example :
    (set_float_abcd (get_float_abcd pair) ≡ pair)
    × (set_float_dcba (get_float_dcba pair) ≡ pair)
    × (set_float_badc (get_float_badc pair) ≡ pair)
    × (set_float_cdab (get_float_cdab pair) ≡ pair)
set_float-get_float_example = set_float-get_float pair (omega arith, omega arith)
