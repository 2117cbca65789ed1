-- ===== src/Data/FloatOrders.antt =====
-- The four byte orders of a `float` in two registers.
use libmodbus.Base.{
  ℕ, ◌+◌, ◌*◌, ◌/◌, ◌^◌, ◌<◌, ◌≡◌, ap, ◌∙◌, arith, bit_and-255, shifted_bit_or, bit_and, bit_or,
}
use libmodbus.Data.{
  Pair, assemble, pattern_byte, join_bytes, get_float_abcd, get_float_dcba, get_float_badc,
  get_float_cdab, set_float_abcd, set_float_dcba, set_float_badc, set_float_cdab,
}

join_bytes_sum : (hi lo : ℕ) → lo < 256 → join_bytes hi lo ≡ hi * 256 + lo
join_bytes_sum hi lo h = shifted_bit_or 8 hi lo h

-- Bytes of a joined word.
high_join : (hi lo : ℕ) → hi < 256 → lo < 256 → bit_and (join_bytes hi lo / 256) 255 ≡ hi
high_join hi lo h l = omega (arith, bit_and-255 (join_bytes hi lo / 256), join_bytes_sum hi lo l)

low_join : (hi lo : ℕ) → lo < 256 → bit_and (join_bytes hi lo) 255 ≡ lo
low_join hi lo l = omega (arith, bit_and-255 (join_bytes hi lo), join_bytes_sum hi lo l)

pattern_byte-lt : (i k : ℕ) → pattern_byte i k < 256
pattern_byte-lt i k = omega (arith, bit_and-255 (i / 2 ^ k))

assemble_sum :
    (a b c d : ℕ)
    → b < 256
    → c < 256
    → d < 256
    → assemble a b c d ≡ a * 16777216 + b * 65536 + c * 256 + d
assemble_sum a b c d hb hc hd =
    ap (λ (t : ℕ). bit_or (bit_or t (c * 2 ^ 8)) d) first
    ∙ ap (λ (t : ℕ). bit_or t d) second
    ∙ third
  where
    first : bit_or (a * 2 ^ 24) (b * 2 ^ 16) ≡ (a * 256 + b) * 2 ^ 16
    first = omega (arith, shifted_bit_or 24 a (b * 2 ^ 16) (omega arith))

    second : bit_or ((a * 256 + b) * 2 ^ 16) (c * 2 ^ 8) ≡ (a * 65536 + b * 256 + c) * 2 ^ 8
    second = omega (arith, shifted_bit_or 16 (a * 256 + b) (c * 2 ^ 8) (omega arith))

    third : bit_or ((a * 65536 + b * 256 + c) * 2 ^ 8) d ≡ a * 16777216 + b * 65536 + c * 256 + d
    third = omega (arith, shifted_bit_or 8 (a * 65536 + b * 256 + c) d hd)

-- Assembling the four bytes of a 32-bit pattern gives it back.
assemble-pattern :
    (i : ℕ)
    → i < 2 ^ 32
    → assemble (pattern_byte i 24) (pattern_byte i 16) (pattern_byte i 8) (pattern_byte i 0) ≡ i
assemble-pattern i h =
    assemble_sum _ _ _ _ (pattern_byte-lt i 16) (pattern_byte-lt i 8) (pattern_byte-lt i 0)
    ∙ omega (
      arith,
      bit_and-255 (i / 2 ^ 24),
      bit_and-255 (i / 2 ^ 16),
      bit_and-255 (i / 2 ^ 8),
      bit_and-255 (i / 2 ^ 0),
    )

-- The bytes of an assembled pattern.
record IsParts (i a b c d : ℕ) : Type 0 where
  byte_a : pattern_byte i 24 ≡ a
  byte_b : pattern_byte i 16 ≡ b
  byte_c : pattern_byte i 8 ≡ c
  byte_d : pattern_byte i 0 ≡ d

assemble-IsParts :
    (a b c d : ℕ) → a < 256 → b < 256 → c < 256 → d < 256 → IsParts (assemble a b c d) a b c d
assemble-IsParts a b c d ha hb hc hd = record {
  byte_a = omega (arith, bit_and-255 (assemble a b c d / 2 ^ 24), assemble_sum a b c d hb hc hd);
  byte_b = omega (arith, bit_and-255 (assemble a b c d / 2 ^ 16), assemble_sum a b c d hb hc hd);
  byte_c = omega (arith, bit_and-255 (assemble a b c d / 2 ^ 8), assemble_sum a b c d hb hc hd);
  byte_d = omega (arith, bit_and-255 (assemble a b c d / 2 ^ 0), assemble_sum a b c d hb hc hd);
}

-- Splitting a register into its bytes and joining them gives it back.
join_split : (w : ℕ) → w < 65536 → join_bytes (bit_and (w / 256) 255) (bit_and w 255) ≡ w
join_split w h = omega (
  arith,
  bit_and-255 (w / 256),
  bit_and-255 w,
  join_bytes_sum (bit_and (w / 256) 255) (bit_and w 255) (omega (arith, bit_and-255 w)),
)

mask-lt : (w : ℕ) → bit_and w 255 < 256
mask-lt w = omega (arith, bit_and-255 w)

module _ (i : ℕ) (h : i < 2 ^ 32) where
  high :
      (k l : ℕ)
      → bit_and (join_bytes (pattern_byte i k) (pattern_byte i l) / 256) 255 ≡ pattern_byte i k
  high k l =
      high_join (pattern_byte i k) (pattern_byte i l) (pattern_byte-lt i k) (pattern_byte-lt i l)

  low :
      (k l : ℕ) → bit_and (join_bytes (pattern_byte i k) (pattern_byte i l)) 255 ≡ pattern_byte i l
  low k l = low_join (pattern_byte i k) (pattern_byte i l) (pattern_byte-lt i l)

  get-set_abcd : get_float_abcd (set_float_abcd i) ≡ i
  unfolding get_float_abcd set_float_abcd
  get-set_abcd = rw (high 24 16, low 24 16, high 8 0, low 8 0) (assemble-pattern i h)

  get-set_dcba : get_float_dcba (set_float_dcba i) ≡ i
  unfolding get_float_dcba set_float_dcba
  get-set_dcba = rw (high 0 8, low 0 8, high 16 24, low 16 24) (assemble-pattern i h)

  get-set_badc : get_float_badc (set_float_badc i) ≡ i
  unfolding get_float_badc set_float_badc
  get-set_badc = rw (high 16 24, low 16 24, high 0 8, low 0 8) (assemble-pattern i h)

  get-set_cdab : get_float_cdab (set_float_cdab i) ≡ i
  unfolding get_float_cdab set_float_cdab
  get-set_cdab = rw (high 8 0, low 8 0, high 24 16, low 24 16) (assemble-pattern i h)

-- For every 32-bit pattern of a float, each getter reads back from two registers what the setter
-- of the same byte order wrote: abcd, dcba, badc and cdab.
pub get_float-set_float :
    (i : ℕ)
    → i < 2 ^ 32
    → (get_float_abcd (set_float_abcd i) ≡ i)
      × (get_float_dcba (set_float_dcba i) ≡ i)
      × (get_float_badc (set_float_badc i) ≡ i)
      × (get_float_cdab (set_float_cdab i) ≡ i)
get_float-set_float i h = (get-set_abcd i h, get-set_dcba i h, get-set_badc i h, get-set_cdab i h)

-- Two registers as a pair of numbers below 2 ^ 16.
abbrev pub IsPair : Pair → Type 0
IsPair p = (p.first < 65536) × (p.second < 65536)

module _ (p : Pair) (h : IsPair p) where
  abbrev a1 : ℕ
  a1 = bit_and (p.first / 256) 255

  abbrev b1 : ℕ
  b1 = bit_and p.first 255

  abbrev a2 : ℕ
  a2 = bit_and (p.second / 256) 255

  abbrev b2 : ℕ
  b2 = bit_and p.second 255

  words_back :
      (x y z w : ℕ)
      → x ≡ a1
      → y ≡ b1
      → z ≡ a2
      → w ≡ b2
      → ◌≡◌ {A = Pair} (record { first = join_bytes x y; second = join_bytes z w }) p
  words_back x y z w ex ey ez ew = λ i. record { first = one i; second = two i }
    where
      one : join_bytes x y ≡ p.first
      one = rw (ex, ey) (join_split p.first h.0)

      two : join_bytes z w ≡ p.second
      two = rw (ez, ew) (join_split p.second h.1)

  set-get_abcd : set_float_abcd (get_float_abcd p) ≡ p
  unfolding get_float_abcd set_float_abcd
  set-get_abcd =
      let q = assemble-IsParts a1 b1 a2 b2 (mask-lt _) (mask-lt _) (mask-lt _) (mask-lt _) in
      words_back _ _ _ _ q.byte_a q.byte_b q.byte_c q.byte_d

  set-get_dcba : set_float_dcba (get_float_dcba p) ≡ p
  unfolding get_float_dcba set_float_dcba
  set-get_dcba =
      let q = assemble-IsParts b2 a2 b1 a1 (mask-lt _) (mask-lt _) (mask-lt _) (mask-lt _) in
      words_back _ _ _ _ q.byte_d q.byte_c q.byte_b q.byte_a

  set-get_badc : set_float_badc (get_float_badc p) ≡ p
  unfolding get_float_badc set_float_badc
  set-get_badc =
      let q = assemble-IsParts b1 a1 b2 a2 (mask-lt _) (mask-lt _) (mask-lt _) (mask-lt _) in
      words_back _ _ _ _ q.byte_b q.byte_a q.byte_d q.byte_c

  set-get_cdab : set_float_cdab (get_float_cdab p) ≡ p
  unfolding get_float_cdab set_float_cdab
  set-get_cdab =
      let q = assemble-IsParts a2 b2 a1 b1 (mask-lt _) (mask-lt _) (mask-lt _) (mask-lt _) in
      words_back _ _ _ _ q.byte_c q.byte_d q.byte_a q.byte_b

-- For every two 16-bit registers, each setter writes back the two registers that the getter of the
-- same byte order assembled the pattern from: abcd, dcba, badc and cdab.
pub set_float-get_float :
    (p : Pair)
    → IsPair p
    → (set_float_abcd (get_float_abcd p) ≡ p)
      × (set_float_dcba (get_float_dcba p) ≡ p)
      × (set_float_badc (get_float_badc p) ≡ p)
      × (set_float_cdab (get_float_cdab p) ≡ p)
set_float-get_float p h = (set-get_abcd p h, set-get_dcba p h, set-get_badc p h, set-get_cdab p h)
