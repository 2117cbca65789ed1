-- ===== src/Crc/Reference.antt =====
-- The lookup tables against the definition of CRC-16/MODBUS by a shift register.
use libmodbus.Base.{
  ℕ, zero, suc, ◌+◌, ◌*◌, ◌/◌, ◌%◌, ◌^◌, ◌<◌, ◌≡◌, refl, sym, ap, ◌∙◌, arith, true, ◌==◌, ==_iff,
  if◌then◌else◌, List, [], ◌∷◌, byte_at, take, length, IsBytes, bit_xor, bit_xor_step,
  bit_xor_assoc, bit_xor_comm, bit_xor-lt, shifted_bit_xor, shifted_bit_or, byte_at-lt, ◌⊎◌, inl,
  inr, all_below, all_below-holds, take-all, AllBelow-take,
}
use native.Mathlib.Nat.{pow-suc}
use libmodbus.Crc.{crc_loop, crc16}
use libmodbus.Crc.Tables.{table_crc_hi, table_crc_lo}

-- One shift of the register, with the polynomial 0xA001 (0x8005 reflected).
unfoldable pub shift_once : ℕ → ℕ
shift_once c = if c % 2 == 0 then c / 2 else bit_xor (c / 2) 0xa001

unfoldable pub shift_times : ℕ → ℕ → ℕ
shift_times zero c = c
shift_times (suc k) c = shift_times k (shift_once c)

-- The register after a message, from the register before it.
unfoldable pub crc_register : ℕ → List ℕ → ℕ
crc_register c [] = c
crc_register c (b ∷ bs) = crc_register (shift_times 8 (bit_xor c b)) bs

-- Shifting commutes with adding a part that stands above the bits that are shifted out.
shift_once-xor : (h y : ℕ) → shift_once (bit_xor (h * 2) y) ≡ bit_xor h (shift_once y)
unfolding shift_once
shift_once-xor h y = elim (even_or_odd (y % 2) (omega arith)) [
  | inl e ↦
      let e' : bit_xor (h * 2) y % 2 ≡ 0 = omega (arith, bit_xor_step (h * 2) y) in rw (e, e') half
  | inr e ↦
      let e' : bit_xor (h * 2) y % 2 ≡ 1 = omega (arith, bit_xor_step (h * 2) y) in
      rw (e, e') (ap (λ (t : ℕ). bit_xor t 0xa001) half ∙ bit_xor_assoc h (y / 2) 0xa001)
]
  where
    even_or_odd : (d : ℕ) → d < 2 → (d ≡ 0) ⊎ (d ≡ 1)
    even_or_odd zero p = inl refl
    even_or_odd (suc zero) p = inr refl
    even_or_odd (suc (suc d)) p = absurd (omega arith)

    halves : (h * 2 / 2) ≡ h
    halves = omega arith

    half : bit_xor (h * 2) y / 2 ≡ bit_xor h (y / 2)
    half = omega (arith, bit_xor_step (h * 2) y, ap (λ (t : ℕ). bit_xor t (y / 2)) halves)

shift_times-xor : (k h y : ℕ) → shift_times k (bit_xor (h * 2 ^ k) y) ≡ bit_xor h (shift_times k y)
unfolding shift_times
shift_times-xor zero h y = ap (λ (t : ℕ). bit_xor t y) (omega arith)
shift_times-xor (suc k) h y =
    ap (λ (t : ℕ). shift_times k (shift_once (bit_xor t y))) twice
    ∙ ap (shift_times k) (shift_once-xor (h * 2 ^ k) y)
    ∙ shift_times-xor k h (shift_once y)
  where
    twice : h * 2 ^ suc k ≡ h * 2 ^ k * 2
    twice = omega (arith, ap (λ (t : ℕ). h * t) (pow-suc 2 k))

-- Each entry pair is the register after one byte from an empty register.
tables_agree :
    all_below 256 (λ i. shift_times 8 i == byte_at table_crc_lo i * 256 + byte_at table_crc_hi i)
    ≡ true
unfolding all_below shift_times shift_once table_crc_hi table_crc_lo
tables_agree = refl

shift_times-table :
    (i : ℕ) → i < 256 → shift_times 8 i ≡ byte_at table_crc_lo i * 256 + byte_at table_crc_hi i
shift_times-table i h = (==_iff _ _).0 (all_below-holds 256 _ i tables_agree h)

pub table_crc_hi-IsBytes : IsBytes table_crc_hi
unfolding table_crc_hi
table_crc_hi-IsBytes = omega arith

pub table_crc_lo-IsBytes : IsBytes table_crc_lo
unfolding table_crc_lo
table_crc_lo-IsBytes = omega arith

-- Eight shifts of the register `hi * 256 + i`, by the tables.
pub shift_times-split :
    (hi i : ℕ)
    → hi < 256
    → i < 256
    → shift_times 8 (hi * 256 + i)
      ≡ byte_at table_crc_lo i * 256 + bit_xor hi (byte_at table_crc_hi i)
shift_times-split hi i hh hi' =
    ap (shift_times 8) (sym (shifted_bit_xor 8 hi i hi'))
    ∙ shift_times-xor 8 hi i
    ∙ ap (bit_xor hi) (shift_times-table i hi' ∙ sym (shifted_bit_xor 8 tl th small))
    ∙ sym (bit_xor_assoc hi (tl * 256) th)
    ∙ ap (λ (t : ℕ). bit_xor t th) (bit_xor_comm hi (tl * 256))
    ∙ bit_xor_assoc (tl * 256) hi th
    ∙ shifted_bit_xor 8 tl (bit_xor hi th) (bit_xor-lt 8 hi th hh small)
  where
    tl : ℕ
    tl = byte_at table_crc_lo i

    th : ℕ
    th = byte_at table_crc_hi i

    small : th < 256
    small = byte_at-lt table_crc_hi i table_crc_hi-IsBytes

-- Adding a byte touches the low half of the register only.
pub bit_xor-low_half :
    (hi lo b : ℕ) → lo < 256 → b < 256 → bit_xor (hi * 256 + lo) b ≡ hi * 256 + bit_xor lo b
bit_xor-low_half hi lo b hl hb =
    ap (λ (t : ℕ). bit_xor t b) (sym (shifted_bit_xor 8 hi lo hl))
    ∙ bit_xor_assoc (hi * 256) lo b
    ∙ shifted_bit_xor 8 hi (bit_xor lo b) (bit_xor-lt 8 lo b hl hb)

-- One round of the loop is one byte into the register.
crc_step :
    (hi lo b : ℕ)
    → hi < 256
    → lo < 256
    → b < 256
    → shift_times 8 (bit_xor (hi * 256 + lo) b)
      ≡ byte_at table_crc_lo (bit_xor lo b) * 256 + bit_xor hi (byte_at table_crc_hi (bit_xor lo b))
crc_step hi lo b hh hl hb =
    ap (shift_times 8) (bit_xor-low_half hi lo b hl hb)
    ∙ shift_times-split hi (bit_xor lo b) hh (bit_xor-lt 8 lo b hl hb)

crc_loop-crc_register :
    (buffer : List ℕ) (hi lo : ℕ)
    → IsBytes buffer
    → hi < 256
    → lo < 256
    → crc_loop buffer hi lo ≡ crc_register (hi * 256 + lo) buffer
unfolding crc_loop crc_register
crc_loop-crc_register [] hi lo h hh hl = shifted_bit_or 8 hi lo hl
crc_loop-crc_register (b ∷ bs) hi lo (hb, h) hh hl =
    crc_loop-crc_register bs (byte_at table_crc_lo i) (bit_xor hi (byte_at table_crc_hi i)) h
      (byte_at-lt table_crc_lo i table_crc_lo-IsBytes)
      (bit_xor-lt 8 hi _ hh (byte_at-lt table_crc_hi i table_crc_hi-IsBytes))
    ∙ ap (λ (t : ℕ). crc_register t bs) (sym (crc_step hi lo b hh hl hb))
  where
    i : ℕ
    i = bit_xor lo b

-- For every message of bytes shorter than 2 ^ 16, the table-driven `crc16` over the whole message is
-- the register of CRC-16/MODBUS, shifted bit by bit from 0xFFFF.
pub crc16-crc_register :
    (buffer : List ℕ)
    → IsBytes buffer
    → length buffer < 65536
    → crc16 buffer (length buffer) ≡ crc_register 0xffff buffer
unfolding crc16
crc16-crc_register buffer h short =
    ap (λ (l : List ℕ). crc_loop l 255 255) whole
    ∙ crc_loop-crc_register buffer 255 255 h (omega arith) (omega arith)
  where
    whole : take (length buffer % 2 ^ 16) buffer ≡ buffer
    whole =
        let e : length buffer % 2 ^ 16 ≡ length buffer = omega arith in
        rw e (take-all (length buffer) buffer (omega arith))

crc_loop-lt :
    (buffer : List ℕ) (hi lo : ℕ)
    → IsBytes buffer
    → hi < 256
    → lo < 256
    → crc_loop buffer hi lo < 65536
unfolding crc_loop
crc_loop-lt [] hi lo h hh hl = omega (arith, shifted_bit_or 8 hi lo hl)
crc_loop-lt (b ∷ bs) hi lo (hb, h) hh hl =
    crc_loop-lt bs _ _ h (byte_at-lt table_crc_lo (bit_xor lo b) table_crc_lo-IsBytes)
      (bit_xor-lt 8 hi _ hh (byte_at-lt table_crc_hi (bit_xor lo b) table_crc_hi-IsBytes))

-- The result fits the `uint16_t` that `crc16` returns.
pub crc16-lt : (buffer : List ℕ) (n : ℕ) → IsBytes buffer → crc16 buffer n < 65536
unfolding crc16
crc16-lt buffer n h =
    crc_loop-lt (take (n % 2 ^ 16) buffer) 255 255 (AllBelow-take 256 (n % 2 ^ 16) buffer h)
      (omega arith) (omega arith)
