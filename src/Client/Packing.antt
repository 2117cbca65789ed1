-- ===== src/Client/Packing.antt =====
-- The coils that a client writes: eight of them to a byte, lowest first.
use libmodbus.Base.{
  ℕ, zero, suc, ◌+◌, ◌-◌, ◌*◌, ◌/◌, ◌%◌, ◌^◌, ◌≤◌, ◌<◌, ◌≡◌, refl, ap, ◌∙◌, arith, true, ◌==◌,
  ==_iff, ltb, if◌then◌else◌, List, byte_at, length, bit, bit_and, bit_or, bit_or_shifted,
  all_below, all_below-holds, Bool-cases, inl, inr,
}
use native.Mathlib.Nat.{pow-suc}
use libmodbus.Data.Digits.{digit_fits, bit_top, bit_below}
use libmodbus.Data.BitTables.{pow-le}
use libmodbus.Client.{pack_byte, pack_bytes}

-- A coil is on where its entry is not 0.
abbrev pub flag : List ℕ → ℕ → ℕ
flag src i = if byte_at src i == 0 then 0 else 1

-- Clearing a bit above those of a number leaves the number.
cleared :
    all_below 8
      (λ k. all_below 256 (λ x. if ltb x (2 ^ k) then bit_and x (255 - 2 ^ k) == x else true))
    ≡ true
unfolding all_below
cleared = refl

clear_above : (k x : ℕ) → k < 8 → x < 2 ^ k → bit_and x (255 - 2 ^ k) ≡ x
clear_above k x hk hx =
    let small : x < 256 = omega (arith, pow-le (8 - k) k (omega arith)) in
    let row = all_below-holds 8 _ k cleared hk in
    let cell = all_below-holds 256 _ x row small in
    let below : ltb x (2 ^ k) ≡ true = ground arith in
    (==_iff (bit_and x (255 - 2 ^ k)) x).0 (rw below at cell)

-- One round of the loop puts the coil on top of the number.
with_flag :
    (k x i : ℕ) (src : List ℕ)
    → k < 8
    → x < 2 ^ k
    → (if byte_at src i == 0 then bit_and x (255 - 2 ^ k) else bit_or x (2 ^ k))
      ≡ x + flag src i * 2 ^ k
with_flag k x i src hk hx = elim (Bool-cases (byte_at src i == 0)) [
  | inl e ↦ rw e (clear_above k x hk hx ∙ omega arith)
  | inr e ↦ rw e (
      let one : 2 ^ k ≡ 1 * 2 ^ k = omega arith in
      ap (λ (m : ℕ). bit_or x m) one ∙ bit_or_shifted k x 1 hx)
]

flag-lt : (src : List ℕ) (i : ℕ) → flag src i < 2
flag-lt src i = ground arith

next_power : (k : ℕ) → 2 ^ k * 2 ≡ 2 ^ (k + 1)
next_power k = let e : k + 1 ≡ suc k = omega arith in rw e (omega (arith, pow-suc 2 k))

pack_round :
    (left k nb i x : ℕ) (src : List ℕ)
    → k < 8
    → x < 2 ^ k
    → pack_byte (suc left) (2 ^ k) (suc nb) i src x
      ≡ pack_byte left (2 ^ (k + 1)) nb (i + 1) src (x + flag src i * 2 ^ k)
unfolding pack_byte
pack_round left k nb i x src hk hx = rw (next_power k, with_flag k x i src hk hx) refl

next_fits : (k x i : ℕ) (src : List ℕ) → x < 2 ^ k → x + flag src i * 2 ^ k < 2 ^ (k + 1)
next_fits k x i src hx =
    let e : k + 1 ≡ suc k = omega arith in rw e (digit_fits k x (flag src i) hx (flag-lt src i))

pack_byte_low :
    (left k nb i x q : ℕ) (src : List ℕ)
    → left + k ≡ 8
    → x < 2 ^ k
    → q < k
    → bit (pack_byte left (2 ^ k) nb i src x) q ≡ bit x q
unfolding pack_byte
pack_byte_low zero k nb i x q src e hx hq = refl
pack_byte_low (suc left) k zero i x q src e hx hq = refl
pack_byte_low (suc left) k (suc nb) i x q src e hx hq =
    ap (λ (v : ℕ). bit v q) (pack_round left k nb i x src (omega arith) hx)
    ∙ pack_byte_low left (k + 1) nb (i + 1) (x + flag src i * 2 ^ k) q src (omega arith)
        (next_fits k x i src hx) (omega arith)
    ∙ bit_below q k x (flag src i) hq hx (flag-lt src i)

pack_byte-flag :
    (left k nb i x r : ℕ) (src : List ℕ)
    → left + k ≡ 8
    → x < 2 ^ k
    → r < nb
    → r < left
    → bit (pack_byte left (2 ^ k) nb i src x) (k + r) ≡ flag src (i + r)
pack_byte-flag zero k nb i x r src e hx hr hl = absurd (omega arith)
pack_byte-flag (suc left) k zero i x r src e hx hr hl = absurd (omega arith)
pack_byte-flag (suc left) k (suc nb) i x zero src e hx hr hl =
    let e1 : k + 0 ≡ k = omega arith in
    let e2 : i + 0 ≡ i = omega arith in
    rw (e1, e2, pack_round left k nb i x src (omega arith) hx)
      (pack_byte_low left (k + 1) nb (i + 1) (x + flag src i * 2 ^ k) k src (omega arith)
          (next_fits k x i src hx) (omega arith)
        ∙ bit_top k x (flag src i) hx (flag-lt src i))
pack_byte-flag (suc left) k (suc nb) i x (suc r) src e hx hr hl =
    let e1 : k + suc r ≡ k + 1 + r = omega arith in
    let e2 : i + suc r ≡ i + 1 + r = omega arith in
    rw (e1, e2, pack_round left k nb i x src (omega arith) hx)
      (pack_byte-flag left (k + 1) nb (i + 1) (x + flag src i * 2 ^ k) r src (omega arith)
        (next_fits k x i src hx) (omega arith) (omega arith))

-- The bytes of the request hold the coils in order.
pub pack_bytes-flag :
    (n nb i j : ℕ) (src : List ℕ)
    → j < nb
    → nb ≤ 8 * n
    → bit (byte_at (pack_bytes n nb i src) (j / 8)) (j % 8) ≡ flag src (i + j)
unfolding pack_bytes
pack_bytes-flag zero nb i j src hj room = absurd (omega arith)
pack_bytes-flag (suc n) nb i j src hj room = elim (Bool-cases (ltb j 8)) [
  | inl low ↦
      let e1 : j / 8 ≡ 0 = ground arith in
      let e2 : j % 8 ≡ 0 + j = ground arith in
      rw (e1, e2) (pack_byte-flag 8 0 nb i 0 j src (omega arith) (omega arith) hj (ground arith))
  | inr high ↦
      let e1 : j / 8 ≡ suc ((j - 8) / 8) = ground arith in
      let e2 : j % 8 ≡ (j - 8) % 8 = ground arith in
      let e3 : i + j ≡ i + 8 + (j - 8) = ground arith in
      rw (e1, e2, e3) (pack_bytes-flag n (nb - 8) (i + 8) (j - 8) src (ground arith) (omega arith))
]

pub length-pack_bytes : (n nb i : ℕ) (src : List ℕ) → length (pack_bytes n nb i src) ≡ n
unfolding pack_bytes
length-pack_bytes zero nb i src = refl
length-pack_bytes (suc n) nb i src = ap suc (length-pack_bytes n (nb - 8) (i + 8) src)
