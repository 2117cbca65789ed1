-- ===== src/Data/Digits.antt =====
-- Binary digits: a number with one more digit on top.
use libmodbus.Base.{ℕ, zero, suc, ◌+◌, ◌*◌, ◌/◌, ◌^◌, ◌<◌, ◌≡◌, arith, bit}
use native.Mathlib.Nat.{pow-suc}

pub digit_fits : (s v d : ℕ) → v < 2 ^ s → d < 2 → v + d * 2 ^ s < 2 ^ suc s
digit_fits s v zero h k = omega (arith, pow-suc 2 s)
digit_fits s v (suc zero) h k = omega (arith, pow-suc 2 s)
digit_fits s v (suc (suc d)) h k = absurd (omega arith)

-- The digits of a number with one more digit on top.
pub bit_top : (s v d : ℕ) → v < 2 ^ s → d < 2 → bit (v + d * 2 ^ s) s ≡ d
bit_top zero v d h k = ground arith
bit_top (suc s) v d h k =
    let e : (v + d * 2 ^ suc s) / 2 ≡ v / 2 + d * 2 ^ s = half d k in
    rw e (bit_top s (v / 2) d (omega (arith, pow-suc 2 s)) k)
  where
    half : (d : ℕ) → d < 2 → (v + d * 2 ^ suc s) / 2 ≡ v / 2 + d * 2 ^ s
    half zero k = omega arith
    half (suc zero) k = omega (arith, pow-suc 2 s)
    half (suc (suc d)) k = absurd (omega arith)

pub bit_below : (q s v d : ℕ) → q < s → v < 2 ^ s → d < 2 → bit (v + d * 2 ^ s) q ≡ bit v q
bit_below q zero v d l h k = absurd (omega arith)
bit_below zero (suc s) v zero l h k = omega arith
bit_below zero (suc s) v (suc zero) l h k = omega (arith, pow-suc 2 s)
bit_below zero (suc s) v (suc (suc d)) l h k = absurd (omega arith)
bit_below (suc q) (suc s) v d l h k =
    let e : (v + d * 2 ^ suc s) / 2 ≡ v / 2 + d * 2 ^ s = half d k in
    rw e (bit_below q s (v / 2) d (omega arith) (omega (arith, pow-suc 2 s)) k)
  where
    half : (d : ℕ) → d < 2 → (v + d * 2 ^ suc s) / 2 ≡ v / 2 + d * 2 ^ s
    half zero k = omega arith
    half (suc zero) k = omega (arith, pow-suc 2 s)
    half (suc (suc d)) k = absurd (omega arith)
