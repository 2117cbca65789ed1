-- ===== src/Data/BitTables.antt =====
-- The bit tables of src/modbus-data.c: packing eight bits to a byte, and unpacking.
use libmodbus.Base.{
  ℕ, zero, suc, ◌+◌, ◌-◌, ◌*◌, ◌/◌, ◌%◌, ◌^◌, ◌≤◌, ◌<◌, ◌≡◌, refl, ap, ◌∙◌, arith, List, bit,
  bit_and, bit_or, bit_and-pow, bit-lt, bit_or_shifted, byte_at, set, length, length-set,
  get_or-set_self, get_or-set_ne, if◌then◌else◌, ◌⊎◌, ltb, min,
}
use libmodbus.Data.{
  test_bit, set_byte_loop, set_bits_from_byte, set_bytes_loop, set_bits_from_bytes, get_byte_loop,
  get_byte_from_bits,
}
use native.Mathlib.Nat.{one-le-pow, pow-suc}

-- The test by a mask reads one binary digit.
pub test_bit-bit : (value i : ℕ) → test_bit value i ≡ bit value i
test_bit-bit value i = two_cases (bit value i) (bit-lt value i) (bit_and-pow value i)
  where
    two_cases : (d : ℕ) → d < 2 → bit_and value (2 ^ i) ≡ d * 2 ^ i → test_bit value i ≡ d
    two_cases zero h e = ground arith
    two_cases (suc zero) h e = ground (arith, one-le-pow i 2 (omega arith))
    two_cases (suc (suc d)) h e = absurd (omega arith)

-- What a loop over the indices from `lo` to below `hi` leaves in a table: digit `j` of `source`
-- at index `idx + j`, and every other entry as it was.
pub record IsUnpacked (source : ℕ → ℕ) (idx lo hi : ℕ) (dest out : List ℕ) : Type 0 where
  pub same_length : length out ≡ length dest
  pub inside : (j : ℕ) → lo ≤ j → j < hi → byte_at out (idx + j) ≡ source j
  pub outside : (k : ℕ) → (k < idx + lo) ⊎ (idx + hi ≤ k) → byte_at out k ≡ byte_at dest k

module _ (source : ℕ → ℕ) (idx : ℕ) where
  IsUnpacked-set :
      (i hi v : ℕ) (dest out : List ℕ)
      → i < hi
      → idx + hi ≤ length dest
      → v ≡ source i
      → IsUnpacked source idx (i + 1) hi (set dest (idx + i) v) out
      → IsUnpacked source idx i hi dest out
  IsUnpacked-set i hi v dest out below fits e rest = record {
    same_length = rest.same_length ∙ length-set dest (idx + i) v;
    inside = λ j p q.
        ground (arith, rest.inside j, rest.outside (idx + j), get_or-set_self dest (idx + i) v 0);
    outside = λ k p. ground (arith, rest.outside k, get_or-set_ne dest (idx + i) k v 0);
  }

set_bytes_loop-IsUnpacked :
    (n i shift hi idx : ℕ) (tab dest : List ℕ)
    → i + n ≡ hi
    → shift ≡ i % 8
    → idx + hi ≤ length dest
    → IsUnpacked
        (λ j. bit (byte_at tab (j / 8)) (j % 8))
        idx
        i
        hi
        dest
        (set_bytes_loop n i shift idx tab dest)
unfolding set_bytes_loop
set_bytes_loop-IsUnpacked zero i shift hi idx tab dest e s fits = record {
  same_length = refl;
  inside = λ j p q. absurd (omega arith);
  outside = λ k p. refl;
}
set_bytes_loop-IsUnpacked (suc n) i shift hi idx tab dest e s fits =
    let v : ℕ = test_bit (byte_at tab (i / 8)) shift in
    IsUnpacked-set (λ j. bit (byte_at tab (j / 8)) (j % 8)) idx i hi v dest _ (omega arith) fits
      (test_bit-bit (byte_at tab (i / 8)) shift ∙ ap (bit (byte_at tab (i / 8))) s)
      (set_bytes_loop-IsUnpacked n (i + 1) ((shift + 1) % 8) hi idx tab (set dest (idx + i) v)
        (omega arith) (omega arith) (omega (arith, length-set dest (idx + i) v)))

-- Where the table has room, `modbus_set_bits_from_bytes` writes digit `j % 8` of byte `j / 8` at
-- `idx + j` for each `j` below `nb_bits`, and changes no other entry, nor the table's length.
pub set_bits_from_bytes-IsUnpacked :
    (dest : List ℕ) (idx nb_bits : ℕ) (tab : List ℕ)
    → idx + nb_bits ≤ length dest
    → IsUnpacked
        (λ j. bit (byte_at tab (j / 8)) (j % 8))
        idx
        0
        nb_bits
        dest
        (set_bits_from_bytes dest idx nb_bits tab)
unfolding set_bits_from_bytes
set_bits_from_bytes-IsUnpacked dest idx nb_bits tab fits =
    set_bytes_loop-IsUnpacked nb_bits 0 0 nb_bits idx tab dest (omega arith) (omega arith) fits

set_byte_loop-IsUnpacked :
    (n i hi idx value : ℕ) (dest : List ℕ)
    → i + n ≡ hi
    → idx + hi ≤ length dest
    → IsUnpacked (bit value) idx i hi dest (set_byte_loop n i idx value dest)
unfolding set_byte_loop
set_byte_loop-IsUnpacked zero i hi idx value dest e fits = record {
  same_length = refl;
  inside = λ j p q. absurd (omega arith);
  outside = λ k p. refl;
}
set_byte_loop-IsUnpacked (suc n) i hi idx value dest e fits =
    let v : ℕ = test_bit value i in
    IsUnpacked-set (bit value) idx i hi v dest _ (omega arith) fits (test_bit-bit value i) (
      set_byte_loop-IsUnpacked n (i + 1) hi idx value (set dest (idx + i) v) (omega arith)
        (omega (arith, length-set dest (idx + i) v)))

-- The number whose `n` lowest digits stand at `src[idx]` and after it, lowest first.
abbrev pub digits_value : List ℕ → ℕ → ℕ → ℕ
digits_value src idx zero = 0
digits_value src idx (suc n) = byte_at src idx + 2 * digits_value src (idx + 1) n

pub pow-le : (k i : ℕ) → i + k ≡ 8 → 2 ^ i ≤ 256
pow-le zero i e = let e' : i ≡ 8 = omega arith in rw e' (omega arith)
pow-le (suc k) i e = omega (arith, pow-le k (suc i) (omega arith), pow-suc 2 i)

get_byte_loop-eq-digits_value :
    (n i idx value : ℕ) (src : List ℕ)
    → i + n ≤ 8
    → value < 2 ^ i
    → ((j : ℕ) → j < 8 → byte_at src (idx + j) < 2)
    → get_byte_loop n i idx src value ≡ value + 2 ^ i * digits_value src (idx + i) n
unfolding get_byte_loop
get_byte_loop-eq-digits_value zero i idx value src fits small bits = omega arith
get_byte_loop-eq-digits_value (suc n) i idx value src fits small bits =
    let b : ℕ = byte_at src (idx + i) in
    let v : ℕ = bit_or value (b * 2 ^ i) % 256 in
    let bound : 2 ^ suc i ≤ 256 = pow-le (7 - i) (suc i) (omega arith) in
    let top : b * 2 ^ i ≤ 2 ^ i = at_most_once b (bits i (omega arith)) in
    let ev : v ≡ value + b * 2 ^ i =
      omega (arith, bit_or_shifted i value b small, pow-suc 2 i, bound, top) in
    get_byte_loop-eq-digits_value n (i + 1) idx v src (omega arith)
      (ground (arith, ev, pow-suc 2 i, top, next_pow)) bits
    ∙ finish v ev
  where
    at_most_once : (b : ℕ) → b < 2 → b * 2 ^ i ≤ 2 ^ i
    at_most_once zero h = omega arith
    at_most_once (suc zero) h = omega arith
    at_most_once (suc (suc b)) h = absurd (omega arith)

    next_pow : 2 ^ (i + 1) ≡ 2 * 2 ^ i
    next_pow = let e : i + 1 ≡ suc i = omega arith in rw e (omega (arith, pow-suc 2 i))

    finish :
        (v : ℕ)
        → v ≡ value + byte_at src (idx + i) * 2 ^ i
        → v + 2 ^ (i + 1) * digits_value src (idx + (i + 1)) n
          ≡ value + 2 ^ i * (byte_at src (idx + i) + 2 * digits_value src (idx + i + 1) n)
    finish v ev =
        let e : idx + (i + 1) ≡ idx + i + 1 = omega arith in rw (e, next_pow) (omega (arith, ev))

-- On bits, `modbus_get_byte_from_bits` gives the number of the digits that it reads, which are
-- `nb_bits` but at most eight.
pub get_byte_from_bits-eq-digits_value :
    (src : List ℕ) (idx nb_bits : ℕ)
    → ((j : ℕ) → j < 8 → byte_at src (idx + j) < 2)
    → get_byte_from_bits src idx nb_bits ≡ digits_value src idx (min 8 nb_bits)
unfolding get_byte_from_bits
get_byte_from_bits-eq-digits_value src idx nb_bits bits =
    ap (λ (k : ℕ). get_byte_loop k 0 idx src 0) count
    ∙ get_byte_loop-eq-digits_value (min 8 nb_bits) 0 idx 0 src (omega arith) (omega arith) bits
    ∙ finish
  where
    count : (if ltb 8 nb_bits then 8 else nb_bits) ≡ min 8 nb_bits
    count = ground arith

    finish :
        0 + 2 ^ 0 * digits_value src (idx + 0) (min 8 nb_bits)
        ≡ digits_value src idx (min 8 nb_bits)
    finish = let e : idx + 0 ≡ idx = omega arith in rw e (omega arith)

digits_value-bit :
    (n value idx : ℕ) (src : List ℕ)
    → ((j : ℕ) → j < n → byte_at src (idx + j) ≡ bit value j)
    → value < 2 ^ n
    → digits_value src idx n ≡ value
digits_value-bit zero value idx src h small = omega arith
digits_value-bit (suc n) value idx src h small = omega (
  arith,
  first,
  pow-suc 2 n,
  digits_value-bit n (value / 2) (idx + 1) src rest (omega (arith, pow-suc 2 n)),
)
  where
    first : byte_at src idx ≡ value % 2
    first = let e : idx + 0 ≡ idx = omega arith in rw e at (h 0 (omega arith))

    rest : (j : ℕ) → j < n → byte_at src (idx + 1 + j) ≡ bit (value / 2) j
    rest j p = let e : idx + suc j ≡ idx + 1 + j = omega arith in rw e at (h (suc j) (omega arith))

-- A byte that `modbus_set_bits_from_byte` spreads over eight entries of a table with room for them
-- is read back by `modbus_get_byte_from_bits`.
pub get_byte_from_bits-set_bits_from_byte :
    (dest : List ℕ) (idx value : ℕ)
    → idx + 8 ≤ length dest
    → value < 256
    → get_byte_from_bits (set_bits_from_byte dest idx value) idx 8 ≡ value
unfolding set_bits_from_byte
get_byte_from_bits-set_bits_from_byte dest idx value fits small =
    get_byte_from_bits-eq-digits_value out idx 8 bits
    ∙ digits_value-bit 8 value idx out (λ j p. done.inside j (omega arith) p) small
  where
    out : List ℕ
    out = set_byte_loop 8 0 idx value dest

    done : IsUnpacked (bit value) idx 0 8 dest out
    done = set_byte_loop-IsUnpacked 8 0 8 idx value dest (omega arith) fits

    bits : (j : ℕ) → j < 8 → byte_at out (idx + j) < 2
    bits j p = rw (done.inside j (omega arith) p) (bit-lt value j)
