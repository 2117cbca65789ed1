-- ===== src/Data.antt =====
-- src/modbus-data.c and the byte and word macros of src/modbus.h.
-- A table of bits or registers is a list; a `uint8_t` or `uint16_t` is a number below 2 ^ 8 or 2 ^ 16.
pub mod Digits
pub mod BitTables
pub mod FloatOrders
use libmodbus.Base.{
  ℕ, zero, suc, ◌+◌, ◌-◌, ◌*◌, ◌/◌, ◌%◌, ◌^◌, bit_and, bit_or, List, ◌==◌, ltb, if◌then◌else◌,
  byte_at, set,
}

-- `(value & (1 << i)) ? 1 : 0`
abbrev pub test_bit : ℕ → ℕ → ℕ
test_bit value i = if bit_and value (2 ^ i) == 0 then 0 else 1

-- The loop of `modbus_set_bits_from_byte` with `n` rounds left.
unfoldable pub set_byte_loop : ℕ → ℕ → ℕ → ℕ → List ℕ → List ℕ
set_byte_loop zero i idx value dest = dest
set_byte_loop (suc n) i idx value dest =
    set_byte_loop n (i + 1) idx value (set dest (idx + i) (test_bit value i))

unfoldable pub set_bits_from_byte : List ℕ → ℕ → ℕ → List ℕ
set_bits_from_byte dest idx value = set_byte_loop 8 0 idx value dest

-- The loop of `modbus_set_bits_from_bytes`; `i` is the source's `i - idx`, `n` the rounds left.
unfoldable pub set_bytes_loop : ℕ → ℕ → ℕ → ℕ → List ℕ → List ℕ → List ℕ
set_bytes_loop zero i shift idx tab_byte dest = dest
set_bytes_loop (suc n) i shift idx tab_byte dest =
    set_bytes_loop n (i + 1) ((shift + 1) % 8) idx tab_byte
      (set dest (idx + i) (test_bit (byte_at tab_byte (i / 8)) shift))

unfoldable pub set_bits_from_bytes : List ℕ → ℕ → ℕ → List ℕ → List ℕ
set_bits_from_bytes dest idx nb_bits tab_byte = set_bytes_loop nb_bits 0 0 idx tab_byte dest

-- `value |= (src[idx + i] << i)`, kept to the `uint8_t` that `value` is.
unfoldable pub get_byte_loop : ℕ → ℕ → ℕ → List ℕ → ℕ → ℕ
get_byte_loop zero i idx src value = value
get_byte_loop (suc n) i idx src value =
    get_byte_loop n (i + 1) idx src (bit_or value (byte_at src (idx + i) * 2 ^ i) % 256)

unfoldable pub get_byte_from_bits : List ℕ → ℕ → ℕ → ℕ
get_byte_from_bits src idx nb_bits =
    get_byte_loop (if ltb 8 nb_bits then 8 else nb_bits) 0 idx src 0

-- `MODBUS_GET_HIGH_BYTE`, on the operand of the shift.
abbrev pub high_byte : ℕ → ℕ
high_byte w = bit_and (w / 256) 0xff

-- `MODBUS_GET_LOW_BYTE`
abbrev pub low_byte : ℕ → ℕ
low_byte w = bit_and w 0xff

-- The two registers `src[0]` and `src[1]`, or `dest[0]` and `dest[1]`.
pub record Pair : Type 0 where
  pub first : ℕ
  pub second : ℕ

-- The bit pattern of the `float` (`memcpy(&f, &i, 4)`), assembled in the order abcd.
abbrev pub assemble : ℕ → ℕ → ℕ → ℕ → ℕ
assemble a b c d = bit_or (bit_or (bit_or (a * 2 ^ 24) (b * 2 ^ 16)) (c * 2 ^ 8)) d

unfoldable pub get_float_abcd : Pair → ℕ
get_float_abcd src =
    let a = high_byte src.first in
    let b = low_byte src.first in
    let c = high_byte src.second in let d = low_byte src.second in assemble a b c d

unfoldable pub get_float_dcba : Pair → ℕ
get_float_dcba src =
    let d = high_byte src.first in
    let c = low_byte src.first in
    let b = high_byte src.second in let a = low_byte src.second in assemble a b c d

unfoldable pub get_float_badc : Pair → ℕ
get_float_badc src =
    let b = high_byte src.first in
    let a = low_byte src.first in
    let d = high_byte src.second in let c = low_byte src.second in assemble a b c d

unfoldable pub get_float_cdab : Pair → ℕ
get_float_cdab src =
    let c = high_byte src.first in
    let d = low_byte src.first in
    let a = high_byte src.second in let b = low_byte src.second in assemble a b c d

-- `(i >> k) & 0xFF` for the pattern `i` of the `float`, `k` a multiple of 8.
abbrev pub pattern_byte : ℕ → ℕ → ℕ
pattern_byte i k = bit_and (i / 2 ^ k) 0xff

abbrev pub join_bytes : ℕ → ℕ → ℕ
join_bytes hi lo = bit_or (hi * 2 ^ 8) lo

unfoldable pub set_float_abcd : ℕ → Pair
set_float_abcd i =
    let a = pattern_byte i 24 in
    let b = pattern_byte i 16 in
    let c = pattern_byte i 8 in
    let d = pattern_byte i 0 in record { first = join_bytes a b; second = join_bytes c d }

unfoldable pub set_float_dcba : ℕ → Pair
set_float_dcba i =
    let a = pattern_byte i 24 in
    let b = pattern_byte i 16 in
    let c = pattern_byte i 8 in
    let d = pattern_byte i 0 in record { first = join_bytes d c; second = join_bytes b a }

unfoldable pub set_float_badc : ℕ → Pair
set_float_badc i =
    let a = pattern_byte i 24 in
    let b = pattern_byte i 16 in
    let c = pattern_byte i 8 in
    let d = pattern_byte i 0 in record { first = join_bytes b a; second = join_bytes d c }

unfoldable pub set_float_cdab : ℕ → Pair
set_float_cdab i =
    let a = pattern_byte i 24 in
    let b = pattern_byte i 16 in
    let c = pattern_byte i 8 in
    let d = pattern_byte i 0 in record { first = join_bytes c d; second = join_bytes a b }

-- The deprecated names.
unfoldable pub get_float : Pair → ℕ
get_float src = get_float_cdab src

unfoldable pub set_float : ℕ → Pair
set_float f = set_float_cdab f
