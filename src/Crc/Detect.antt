-- ===== src/Crc/Detect.antt =====
-- What the checksum detects: a change of one byte, wherever it stands.
use libmodbus.Base.{
  suc, ℕ, ◌+◌, ◌*◌, ◌/◌, ◌%◌, ◌<◌, ◌≡◌, ◌≢◌, refl, sym, ap, ◌∙◌, arith, true, ◌==◌, ==_iff,
  if◌then◌else◌, List, [], ◌∷◌, ◌++◌, byte_at, length, IsBytes, AllBelow-append, bit_xor,
  bit_xor_comm, bit_xor-lt, bit_xor-bit_xor, all_below, all_below-holds, byte_at-lt, length-append,
}
use libmodbus.Crc.{crc16}
use libmodbus.Crc.Tables.{table_crc_hi, table_crc_lo}
use libmodbus.Crc.Reference.{
  shift_times, crc_register, shift_times-split, bit_xor-low_half, table_crc_hi-IsBytes,
  table_crc_lo-IsBytes, crc16-crc_register,
}

-- The first index at which a table holds a value.
index_of : ℕ → List ℕ → ℕ
index_of v [] = 0
index_of v (x ∷ xs) = let rest = index_of v xs + 1 in if x == v then 0 else rest

lo_indices : all_below 256 (λ i. index_of (byte_at table_crc_lo i) table_crc_lo == i) ≡ true
unfolding all_below index_of table_crc_lo
lo_indices = refl

-- No two entries of the low table are equal.
lo_injective :
    (i j : ℕ) → i < 256 → j < 256 → byte_at table_crc_lo i ≡ byte_at table_crc_lo j → i ≡ j
lo_injective i j hi hj e =
    sym ((==_iff _ _).0 (all_below-holds 256 _ i lo_indices hi))
    ∙ ap (λ (v : ℕ). index_of v table_crc_lo) e
    ∙ (==_iff _ _).0 (all_below-holds 256 _ j lo_indices hj)

xor_right_cancel : (a b c : ℕ) → bit_xor a c ≡ bit_xor b c → a ≡ b
xor_right_cancel a b c e =
    sym (bit_xor-bit_xor a c) ∙ ap (λ (t : ℕ). bit_xor t c) e ∙ bit_xor-bit_xor b c

split_injective :
    (h i k j : ℕ)
    → h < 256
    → i < 256
    → k < 256
    → j < 256
    → shift_times 8 (h * 256 + i) ≡ shift_times 8 (k * 256 + j)
    → (h ≡ k) × (i ≡ j)
split_injective h i k j ph pi pk pj e = (same_hi, same_index)
  where
    lt_xor : (a b : ℕ) → a < 256 → bit_xor a (byte_at table_crc_hi b) < 256
    lt_xor a b p = bit_xor-lt 8 a _ p (byte_at-lt table_crc_hi b table_crc_hi-IsBytes)

    sums :
        byte_at table_crc_lo i * 256 + bit_xor h (byte_at table_crc_hi i)
        ≡ byte_at table_crc_lo j * 256 + bit_xor k (byte_at table_crc_hi j)
    sums = sym (shift_times-split h i ph pi) ∙ e ∙ shift_times-split k j pk pj

    same_index : i ≡ j
    same_index = lo_injective i j pi pj (omega (arith, sums, lt_xor h i ph, lt_xor k j pk))

    same_hi : h ≡ k
    same_hi = xor_right_cancel h k (byte_at table_crc_hi i) (
        omega (arith, sums, lt_xor h i ph, lt_xor k j pk)
        ∙ ap (λ (t : ℕ). bit_xor k (byte_at table_crc_hi t)) (sym same_index))

-- Eight shifts lose nothing of a 16-bit register.
shift_times_injective :
    (c d : ℕ) → c < 65536 → d < 65536 → shift_times 8 c ≡ shift_times 8 d → c ≡ d
shift_times_injective c d hc hd e = omega (
  arith,
  split_injective (c / 256) (c % 256) (d / 256) (d % 256) (omega arith) (omega arith) (omega arith)
      (omega arith) (ap (shift_times 8) cs ∙ e ∙ ap (shift_times 8) ds),
)
  where
    cs : c / 256 * 256 + c % 256 ≡ c
    cs = omega arith

    ds : d ≡ d / 256 * 256 + d % 256
    ds = omega arith

register_after-lt : (c b : ℕ) → c < 65536 → b < 256 → shift_times 8 (bit_xor c b) < 65536
register_after-lt c b hc hb =
    let hi : ℕ = c / 256 in
    let i : ℕ = bit_xor (c % 256) b in
    let small : i < 256 = bit_xor-lt 8 (c % 256) b (omega arith) hb in
    let whole : c ≡ hi * 256 + c % 256 = omega arith in
    let e : shift_times 8 (bit_xor c b)
        ≡ byte_at table_crc_lo i * 256 + bit_xor hi (byte_at table_crc_hi i) =
      ap (λ (t : ℕ). shift_times 8 (bit_xor t b)) whole
      ∙ ap (shift_times 8) (bit_xor-low_half hi (c % 256) b (omega arith) hb)
      ∙ shift_times-split hi i (omega arith) small in
    omega (
      arith,
      e,
      byte_at-lt table_crc_lo i table_crc_lo-IsBytes,
      bit_xor-lt 8 hi (byte_at table_crc_hi i) (omega arith)
          (byte_at-lt table_crc_hi i table_crc_hi-IsBytes),
    )

xor_byte-lt : (c b : ℕ) → c < 65536 → b < 256 → bit_xor c b < 65536
xor_byte-lt c b hc hb = bit_xor-lt 16 c b hc (omega arith)

-- Whatever follows, two different registers never meet again.
crc_register_injective :
    (bs : List ℕ) (c d : ℕ)
    → IsBytes bs
    → c < 65536
    → d < 65536
    → crc_register c bs ≡ crc_register d bs
    → c ≡ d
unfolding crc_register
crc_register_injective [] c d h hc hd e = e
crc_register_injective (b ∷ bs) c d (hb, h) hc hd e = xor_right_cancel c d b (
    shift_times_injective (bit_xor c b) (bit_xor d b) (xor_byte-lt c b hc hb)
      (xor_byte-lt d b hd hb)
      (crc_register_injective bs _ _ h (register_after-lt c b hc hb) (register_after-lt d b hd hb)
        e))

crc_register_detects :
    (xs ys : List ℕ) (c b b' : ℕ)
    → IsBytes xs
    → IsBytes ys
    → c < 65536
    → b < 256
    → b' < 256
    → crc_register c (xs ++ b ∷ ys) ≡ crc_register c (xs ++ b' ∷ ys)
    → b ≡ b'
unfolding crc_register
crc_register_detects [] ys c b b' hx hy hc hb hb' e =
    xor_right_cancel b b' c (bit_xor_comm b c ∙ same ∙ bit_xor_comm c b')
  where
    same : bit_xor c b ≡ bit_xor c b'
    same = shift_times_injective _ _ (xor_byte-lt c b hc hb) (xor_byte-lt c b' hc hb') (
        crc_register_injective ys _ _ hy (register_after-lt c b hc hb)
          (register_after-lt c b' hc hb') e)
crc_register_detects (x ∷ xs) ys c b b' (hx, hxs) hy hc hb hb' e =
    crc_register_detects xs ys _ b b' hxs hy (register_after-lt c x hc hx) hb hb' e

-- Two messages of bytes that differ in exactly one byte have different checksums.
pub crc16_detects :
    (xs ys : List ℕ) (b b' : ℕ)
    → IsBytes xs
    → IsBytes ys
    → b < 256
    → b' < 256
    → length xs + suc (length ys) < 65536
    → b ≢ b'
    → crc16 (xs ++ b ∷ ys) (length (xs ++ b ∷ ys)) ≢ crc16 (xs ++ b' ∷ ys) (length (xs ++ b' ∷ ys))
crc16_detects xs ys b b' hx hy hb hb' short ne e = ne (
    crc_register_detects xs ys 0xffff b b' hx hy (omega arith) hb hb'
      (sym (reference b hb) ∙ e ∙ reference b' hb'))
  where
    reference :
        (v : ℕ)
        → v < 256
        → crc16 (xs ++ v ∷ ys) (length (xs ++ v ∷ ys)) ≡ crc_register 0xffff (xs ++ v ∷ ys)
    reference v hv =
        crc16-crc_register (xs ++ v ∷ ys) (AllBelow-append 256 xs (v ∷ ys) hx (hv, hy))
          (omega (arith, length-append xs (v ∷ ys)))
