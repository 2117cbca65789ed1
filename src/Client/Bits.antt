-- ===== src/Client/Bits.antt =====
-- The bits of a response, as the client unpacks them.
use libmodbus.Base.{
  ℕ, zero, suc, ◌+◌, ◌-◌, ◌*◌, ◌/◌, ◌%◌, ◌^◌, ◌≤◌, ◌<◌, ◌≡◌, refl, sym, ap, ◌∙◌, arith, List, [],
  ◌∷◌, ◌++◌, byte_at, length, length-append, take, drop, AllBelow, bit, ltb, min, append-nil,
  append_assoc, get_or-append_left, get_or-append_right, get_or-take, get_or-drop, get_or_ext,
  length-take, length-drop, Bool-cases, inl, inr,
}
use native.Mathlib.Nat.{pow-suc}
use libmodbus.Data.BitTables.{test_bit-bit}
use libmodbus.Reply.{response_io_status}
use libmodbus.Reply.Packed.{same_digit, loop_entries}
use libmodbus.Client.{byte_bits, io_status_bits}

-- The digits of a byte from `k` on.
abbrev pub bits_of : ℕ → ℕ → ℕ → List ℕ
bits_of v k zero = []
bits_of v k (suc n) = bit v k ∷ bits_of v (k + 1) n

byte_bits-bits_of :
    (left k v nb : ℕ) (dest : List ℕ)
    → byte_bits left v (2 ^ k) nb dest ≡ dest ++ bits_of v k (min left nb)
unfolding byte_bits
byte_bits-bits_of zero k v nb dest =
    let e : min 0 nb ≡ 0 = omega arith in rw e (sym (append-nil dest))
byte_bits-bits_of (suc left) k v zero dest =
    let e : min (suc left) 0 ≡ 0 = omega arith in rw e (sym (append-nil dest))
byte_bits-bits_of (suc left) k v (suc nb) dest =
    let twice : 2 ^ k * 2 ≡ 2 ^ (k + 1) = double k in
    let more : min (suc left) (suc nb) ≡ suc (min left nb) = omega arith in
    rw (more, test_bit-bit v k, twice)
      (byte_bits-bits_of left (k + 1) v nb (dest ++ bit v k ∷ [])
        ∙ append_assoc dest (bit v k ∷ []) (bits_of v (k + 1) (min left nb)))
  where
    double : (k : ℕ) → 2 ^ k * 2 ≡ 2 ^ (k + 1)
    double k = let e : k + 1 ≡ suc k = omega arith in rw e (omega (arith, pow-suc 2 k))

length-bits_of : (v k n : ℕ) → length (bits_of v k n) ≡ n
length-bits_of v k zero = refl
length-bits_of v k (suc n) = ap suc (length-bits_of v (k + 1) n)

byte_at-bits_of : (v k n q : ℕ) → q < n → byte_at (bits_of v k n) q ≡ bit v (k + q)
byte_at-bits_of v k zero q h = absurd (omega arith)
byte_at-bits_of v k (suc n) zero h = let e : k + 0 ≡ k = omega arith in rw e refl
byte_at-bits_of v k (suc n) (suc q) h =
    let e : k + suc q ≡ k + 1 + q = omega arith in
    rw e (byte_at-bits_of v (k + 1) n q (omega arith))

-- What the client's loops store, as a list.
abbrev pub unpacked : ℕ → ℕ → ℕ → List ℕ → List ℕ
unpacked zero p nb rsp = []
unpacked (suc n) p nb rsp = bits_of (byte_at rsp p) 0 (min 8 nb) ++ unpacked n (p + 1) (nb - 8) rsp

io_status_bits-unpacked :
    (n p nb : ℕ) (rsp dest : List ℕ) → io_status_bits n p nb rsp dest ≡ dest ++ unpacked n p nb rsp
unfolding io_status_bits
io_status_bits-unpacked zero p nb rsp dest = sym (append-nil dest)
io_status_bits-unpacked (suc n) p nb rsp dest =
    io_status_bits-unpacked n (p + 1) (nb - 8) rsp _
    ∙ rw (byte_bits-bits_of 8 0 (byte_at rsp p) nb dest)
        (append_assoc dest (bits_of (byte_at rsp p) 0 (min 8 nb)) (unpacked n (p + 1) (nb - 8) rsp))

length-unpacked : (n p nb : ℕ) (rsp : List ℕ) → nb ≤ 8 * n → length (unpacked n p nb rsp) ≡ nb
length-unpacked zero p nb rsp h = omega arith
length-unpacked (suc n) p nb rsp h = omega (
  arith,
  length-append (bits_of (byte_at rsp p) 0 (min 8 nb)) (unpacked n (p + 1) (nb - 8) rsp),
  length-bits_of (byte_at rsp p) 0 (min 8 nb),
  length-unpacked n (p + 1) (nb - 8) rsp (omega arith),
)

byte_at-unpacked :
    (n p nb q : ℕ) (rsp : List ℕ)
    → q < nb
    → nb ≤ 8 * n
    → byte_at (unpacked n p nb rsp) q ≡ bit (byte_at rsp (p + q / 8)) (q % 8)
byte_at-unpacked zero p nb q rsp h room = absurd (omega arith)
byte_at-unpacked (suc n) p nb q rsp h room = elim (Bool-cases (ltb q 8)) [
  | inl low ↦
      get_or-append_left here later q 0
        (ground (arith, length-bits_of (byte_at rsp p) 0 (min 8 nb)))
      ∙ byte_at-bits_of (byte_at rsp p) 0 (min 8 nb) q (ground arith)
      ∙ same_digit rsp p (p + q / 8) (0 + q) (q % 8) (ground arith) (ground arith)
  | inr high ↦
      get_or-append_right here later (q - 8) q 0
        (ground (arith, length-bits_of (byte_at rsp p) 0 (min 8 nb)))
      ∙ byte_at-unpacked n (p + 1) (nb - 8) (q - 8) rsp (ground arith) (omega arith)
      ∙ same_digit rsp (p + 1 + (q - 8) / 8) (p + q / 8) ((q - 8) % 8) (q % 8) (ground arith)
          (ground arith)
]
  where
    here : List ℕ
    here = bits_of (byte_at rsp p) 0 (min 8 nb)

    later : List ℕ
    later = unpacked n (p + 1) (nb - 8) rsp

-- A bit of the bytes that the server packs is the entry of its table.
pub packed_bit :
    (tab : List ℕ) (i nb q : ℕ)
    → AllBelow 2 tab
    → i + nb ≤ length tab
    → q < nb
    → bit (byte_at (response_io_status tab i nb []) (q / 8)) (q % 8) ≡ byte_at tab (i + q)
unfolding response_io_status
packed_bit tab i nb q bits room hq =
    same_digit (response_io_status tab i nb []) (q / 8) (0 + (0 + q) / 8) (q % 8) ((0 + q) % 8)
      (omega arith) (omega arith)
    ∙ loop_entries tab bits nb i 0 0 q [] (omega arith) (omega arith) hq

-- The client stores the entries that the server has packed, where the response holds them.
pub io_status_bits-entries :
    (n i p nb : ℕ) (tab rsp packed : List ℕ)
    → AllBelow 2 tab
    → i + nb ≤ length tab
    → nb ≤ 8 * n
    → packed ≡ response_io_status tab i nb []
    → ((k : ℕ) → k < n → byte_at rsp (p + k) ≡ byte_at packed k)
    → io_status_bits n p nb rsp [] ≡ take nb (drop i tab)
unfolding response_io_status
io_status_bits-entries n i p nb tab rsp packed bits room fits is_packed h =
    io_status_bits-unpacked n p nb rsp []
    ∙ get_or_ext 0 (unpacked n p nb rsp) (take nb (drop i tab)) same_length
        (λ q hq. entry q (omega (arith, length-unpacked n p nb rsp fits)))
  where
    same_length : length (unpacked n p nb rsp) ≡ length (take nb (drop i tab))
    same_length =
        omega
          (arith, length-unpacked n p nb rsp fits, length-take nb (drop i tab), length-drop i tab)

    entry : (q : ℕ) → q < nb → byte_at (unpacked n p nb rsp) q ≡ byte_at (take nb (drop i tab)) q
    entry q hq =
        byte_at-unpacked n p nb q rsp hq fits
        ∙ ap (λ (x : ℕ). bit x (q % 8))
            (h (q / 8) (omega arith) ∙ ap (λ (l : List ℕ). byte_at l (q / 8)) is_packed)
        ∙ packed_bit tab i nb q bits room hq
        ∙ sym (get_or-take nb (drop i tab) q 0 hq ∙ get_or-drop i tab q 0)
