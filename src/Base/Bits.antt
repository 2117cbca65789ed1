-- ===== src/Base/Bits.antt =====
-- The bit operations of C on values that are not negative, as arithmetic.
use Prim.Native.Nat.{ℕ, zero, suc, ◌+◌, ◌*◌, ◌/◌, ◌%◌, ◌^◌, ◌≤◌, ◌<◌, min, max}
use Prim.Native.Nat.{bit_and, bit_or, bit_xor, digits, bitwise, differ}
use Prim.Native.Nat.{bit_and-bitwise, bit_or-bitwise, bit_xor-bitwise}
use mathlib.Core.Path.{◌≡◌, refl, ap, ◌∙◌}
use native.Mathlib.Nat.{pow-suc}
use native.Mathlib.Omega.{arith}

-- `digits` recurs on fuel; any fuel from `a` on gives the same value.
module _ (z : ℕ → ℕ) (f : ℕ → ℕ → ℕ) where
  enough_digits : (n m a b : ℕ) → a ≤ n → a ≤ m → digits z f n a b ≡ digits z f m a b
  enough_digits n m zero b p q = at_zero n m
    where
      at_zero : (n m : ℕ) → digits z f n 0 b ≡ digits z f m 0 b
      at_zero zero zero = refl
      at_zero zero (suc m) = refl
      at_zero (suc n) zero = refl
      at_zero (suc n) (suc m) = refl
  enough_digits zero m (suc a) b p q = absurd (omega arith)
  enough_digits (suc n) zero (suc a) b p q = absurd (omega arith)
  enough_digits (suc n) (suc m) (suc a) b p q =
      rw (enough_digits n m (suc a / 2) (b / 2) (omega arith) (omega arith))

  lowest_digit :
      (m n : ℕ)
      → bitwise z f (suc m) n ≡ f (suc m % 2) (n % 2) + 2 * bitwise z f (suc m / 2) (n / 2)
  lowest_digit m n =
      let same = enough_digits m (suc m / 2) (suc m / 2) (n / 2) (omega arith) (omega arith) in
      omega (arith, same)

pub bit_and_step : (a b : ℕ) → bit_and a b ≡ min (a % 2) (b % 2) + 2 * bit_and (a / 2) (b / 2)
bit_and_step zero b = simp bit_and-bitwise (omega arith)
bit_and_step (suc a) b = simp bit_and-bitwise (lowest_digit (λ y. 0) min a b)

differ_parity : (x y : ℕ) → x < 2 → y < 2 → differ x y ≡ (x + y) % 2
differ_parity zero zero p q = refl
differ_parity zero (suc zero) p q = refl
differ_parity (suc zero) zero p q = refl
differ_parity (suc zero) (suc zero) p q = refl
differ_parity zero (suc (suc y)) p q = absurd (omega arith)
differ_parity (suc zero) (suc (suc y)) p q = absurd (omega arith)
differ_parity (suc (suc x)) y p q = absurd (omega arith)

pub bit_xor_step : (a b : ℕ) → bit_xor a b ≡ (a % 2 + b % 2) % 2 + 2 * bit_xor (a / 2) (b / 2)
bit_xor_step zero b = simp bit_xor-bitwise (omega arith)
bit_xor_step (suc a) b = omega (
  arith,
  bit_xor-bitwise (suc a) b,
  bit_xor-bitwise (suc a / 2) (b / 2),
  lowest_digit (λ y. y) differ a b,
  differ_parity (suc a % 2) (b % 2) (omega arith) (omega arith),
)

pub bit_or_step : (a b : ℕ) → bit_or a b ≡ max (a % 2) (b % 2) + 2 * bit_or (a / 2) (b / 2)
bit_or_step zero b = simp bit_or-bitwise (omega arith)
bit_or_step (suc a) b = simp bit_or-bitwise (lowest_digit (λ y. y) max a b)

-- Binary digit `k` of a number.
abbrev pub bit : ℕ → ℕ → ℕ
bit a zero = a % 2
bit a (suc k) = bit (a / 2) k

pub bit-bit_and : (a b k : ℕ) → bit (bit_and a b) k ≡ min (bit a k) (bit b k)
bit-bit_and a b zero = omega (arith, bit_and_step a b)
bit-bit_and a b (suc k) =
    let e : bit_and a b / 2 ≡ bit_and (a / 2) (b / 2) = omega (arith, bit_and_step a b) in
    rw e (bit-bit_and (a / 2) (b / 2) k)

pub bit-bit_or : (a b k : ℕ) → bit (bit_or a b) k ≡ max (bit a k) (bit b k)
bit-bit_or a b zero = omega (arith, bit_or_step a b)
bit-bit_or a b (suc k) =
    let e : bit_or a b / 2 ≡ bit_or (a / 2) (b / 2) = omega (arith, bit_or_step a b) in
    rw e (bit-bit_or (a / 2) (b / 2) k)

pub bit-lt : (a k : ℕ) → bit a k < 2
bit-lt a zero = omega arith
bit-lt a (suc k) = bit-lt (a / 2) k

zero_fuel : (n a : ℕ) → a ≤ n → (bit_and a 0 ≡ 0) × (bit_or a 0 ≡ a) × (bit_xor a 0 ≡ a)
zero_fuel n zero h = (refl, refl, refl)
zero_fuel zero (suc a) h = absurd (omega arith)
zero_fuel (suc n) (suc a) h =
    let ih = zero_fuel n (suc a / 2) (omega arith) in
    (
      omega (arith, bit_and_step (suc a) 0, ih.0),
      omega (arith, bit_or_step (suc a) 0, ih.1),
      omega (arith, bit_xor_step (suc a) 0, ih.2),
    )

pub bit_and-zero : (a : ℕ) → bit_and a 0 ≡ 0
bit_and-zero a = (zero_fuel a a (omega arith)).0

pub bit_or-zero : (a : ℕ) → bit_or a 0 ≡ a
bit_or-zero a = (zero_fuel a a (omega arith)).1

pub bit_xor-zero : (a : ℕ) → bit_xor a 0 ≡ a
bit_xor-zero a = (zero_fuel a a (omega arith)).2

double_pow : (c k : ℕ) → c * 2 ^ suc k ≡ 2 * (c * 2 ^ k)
double_pow c k = omega (arith, ap (λ (t : ℕ). c * t) (pow-suc 2 k))

zero-bit_or : (b : ℕ) → bit_or 0 b ≡ b
zero-bit_or b = bit_or-bitwise 0 b

-- `a | (c << k)` is a sum where `a` fits `k` bits.
pub bit_or_shifted : (k a c : ℕ) → a < 2 ^ k → bit_or a (c * 2 ^ k) ≡ a + c * 2 ^ k
bit_or_shifted zero zero c h = omega (arith, zero-bit_or (c * 2 ^ 0))
bit_or_shifted zero (suc a) c h = absurd (omega arith)
bit_or_shifted (suc k) a c h = ground (
  arith,
  bit_or_step a (c * 2 ^ suc k),
  double_pow c k,
  pow-suc 2 k,
  bit_or_shifted k (a / 2) c (omega (arith, pow-suc 2 k)),
)

-- `(c << k) | a` likewise.
pub shifted_bit_or : (k c a : ℕ) → a < 2 ^ k → bit_or (c * 2 ^ k) a ≡ c * 2 ^ k + a
shifted_bit_or zero c zero h = omega (arith, bit_or-zero (c * 2 ^ 0))
shifted_bit_or zero c (suc a) h = absurd (omega arith)
shifted_bit_or (suc k) c a h = ground (
  arith,
  bit_or_step (c * 2 ^ suc k) a,
  double_pow c k,
  pow-suc 2 k,
  shifted_bit_or k c (a / 2) (omega (arith, pow-suc 2 k)),
)

-- Testing one bit by a mask.
pub bit_and-pow : (a k : ℕ) → bit_and a (2 ^ k) ≡ bit a k * 2 ^ k
bit_and-pow a zero = omega (arith, bit_and_step a 1, bit_and-zero (a / 2))
bit_and-pow a (suc k) = ground (
  arith,
  bit_and_step a (2 ^ suc k),
  pow-suc 2 k,
  double_pow (bit (a / 2) k) k,
  bit_and-pow (a / 2) k,
)

mask_step : (m a r : ℕ) → bit_and (a / 2) m ≡ r → bit_and a (2 * m + 1) ≡ r * 2 + a % 2
mask_step m a r h =
    let half : (2 * m + 1) / 2 ≡ m = omega arith in
    let odd : (2 * m + 1) % 2 ≡ 1 = omega arith in
    let e : bit_and (a / 2) ((2 * m + 1) / 2) ≡ r = rw half h in
    omega (arith, bit_and_step a (2 * m + 1), e, odd)

low_four : (a : ℕ) → bit_and a 15 ≡ a % 16
low_four a =
    mask_step 7 a _ (mask_step 3 _ _ (mask_step 1 _ _ (mask_step 0 _ _ (bit_and-zero _))))
    ∙ omega arith

pub bit_and-255 : (a : ℕ) → bit_and a 255 ≡ a % 256
bit_and-255 a =
    mask_step 127 a _ (mask_step 63 _ _ (mask_step 31 _ _ (mask_step 15 _ _ (low_four _))))
    ∙ omega arith

xor_cancel_fuel : (n a b : ℕ) → a ≤ n → b ≤ n → bit_xor (bit_xor a b) b ≡ a
xor_cancel_fuel zero a b p q =
    let ea : a ≡ 0 = omega arith in let eb : b ≡ 0 = omega arith in rw (ea, eb) refl
xor_cancel_fuel (suc n) a b p q =
    let e : bit_xor a b / 2 ≡ bit_xor (a / 2) (b / 2) = omega (arith, bit_xor_step a b) in
    omega (
      arith,
      bit_xor_step a b,
      bit_xor_step (bit_xor a b) b,
      ap (λ (t : ℕ). bit_xor t (b / 2)) e,
      xor_cancel_fuel n (a / 2) (b / 2) (omega arith) (omega arith),
    )

pub bit_xor-bit_xor : (a b : ℕ) → bit_xor (bit_xor a b) b ≡ a
bit_xor-bit_xor a b = xor_cancel_fuel (a + b) a b (omega arith) (omega arith)

xor_assoc_fuel :
    (n a b c : ℕ) → a ≤ n → b ≤ n → c ≤ n → bit_xor (bit_xor a b) c ≡ bit_xor a (bit_xor b c)
xor_assoc_fuel zero a b c p q r =
    let ea : a ≡ 0 = omega arith in
    let eb : b ≡ 0 = omega arith in let ec : c ≡ 0 = omega arith in rw (ea, eb, ec) refl
xor_assoc_fuel (suc n) a b c p q r =
    let e : bit_xor a b / 2 ≡ bit_xor (a / 2) (b / 2) = omega (arith, bit_xor_step a b) in
    let d : bit_xor b c / 2 ≡ bit_xor (b / 2) (c / 2) = omega (arith, bit_xor_step b c) in
    omega (
      arith,
      bit_xor_step a b,
      bit_xor_step b c,
      bit_xor_step (bit_xor a b) c,
      bit_xor_step a (bit_xor b c),
      ap (λ (t : ℕ). bit_xor t (c / 2)) e,
      ap (λ (t : ℕ). bit_xor (a / 2) t) d,
      xor_assoc_fuel n (a / 2) (b / 2) (c / 2) (omega arith) (omega arith) (omega arith),
    )

pub bit_xor_assoc : (a b c : ℕ) → bit_xor (bit_xor a b) c ≡ bit_xor a (bit_xor b c)
bit_xor_assoc a b c = xor_assoc_fuel (a + b + c) a b c (omega arith) (omega arith) (omega arith)

xor_comm_fuel : (n a b : ℕ) → a ≤ n → b ≤ n → bit_xor a b ≡ bit_xor b a
xor_comm_fuel zero a b p q =
    let ea : a ≡ 0 = omega arith in let eb : b ≡ 0 = omega arith in rw (ea, eb) refl
xor_comm_fuel (suc n) a b p q = omega (
  arith,
  bit_xor_step a b,
  bit_xor_step b a,
  xor_comm_fuel n (a / 2) (b / 2) (omega arith) (omega arith),
)

pub bit_xor_comm : (a b : ℕ) → bit_xor a b ≡ bit_xor b a
bit_xor_comm a b = xor_comm_fuel (a + b) a b (omega arith) (omega arith)

pub bit_xor-lt : (k a b : ℕ) → a < 2 ^ k → b < 2 ^ k → bit_xor a b < 2 ^ k
bit_xor-lt zero a b p q =
    let ea : a ≡ 0 = omega arith in
    let eb : b ≡ 0 = omega arith in rw (ea, eb) (omega (arith, bit_xor-zero 0))
bit_xor-lt (suc k) a b p q = omega (
  arith,
  bit_xor_step a b,
  pow-suc 2 k,
  bit_xor-lt k (a / 2) (b / 2) (omega (arith, pow-suc 2 k)) (omega (arith, pow-suc 2 k)),
)

-- `(c << k) ^ a` is a sum where `a` fits `k` bits.
pub shifted_bit_xor : (k c a : ℕ) → a < 2 ^ k → bit_xor (c * 2 ^ k) a ≡ c * 2 ^ k + a
shifted_bit_xor zero c zero h = omega (arith, bit_xor-zero (c * 2 ^ 0))
shifted_bit_xor zero c (suc a) h = absurd (omega arith)
shifted_bit_xor (suc k) c a h = ground (
  arith,
  bit_xor_step (c * 2 ^ suc k) a,
  double_pow c k,
  pow-suc 2 k,
  shifted_bit_xor k c (a / 2) (omega (arith, pow-suc 2 k)),
)
