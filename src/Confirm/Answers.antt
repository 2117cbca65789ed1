-- ===== src/Confirm/Answers.antt =====
-- What each function of the protocol prescribes for the response to its request, and that
-- `check_confirmation` sees to it.
use libmodbus.Base.{
  ℕ, zero, suc, ◌+◌, ◌*◌, ◌/◌, ◌≡◌, ◌≢◌, ◌⊎◌, inl, inr, arith, refl, sym, Bool, true, false, ◌&&◌,
  ◌==◌, ==_iff, Bool-cases, List, byte_at,
}
use libmodbus.Context.{Backend, rtu, tcp, Errno, ok, err}
use libmodbus.Backend.{header_length, checksum_length, pre_check_confirmation}

-- The header answers that of the request: over RTU the slave is the one that was asked, unless all
-- were; over TCP the transaction is the request's and the protocol is 0.
abbrev pub IsReplyHeader : Backend → List ℕ → List ℕ → Type 0
IsReplyHeader rtu req rsp = (byte_at rsp 0 ≡ byte_at req 0) ⊎ (byte_at req 0 ≡ 0)
IsReplyHeader tcp req rsp =
    (byte_at rsp 0 ≡ byte_at req 0)
    × (byte_at rsp 1 ≡ byte_at req 1)
    × (byte_at rsp 2 ≡ 0)
    × (byte_at rsp 3 ≡ 0)

module _ (b : Backend) (req rsp : List ℕ) where
  -- The fields behind the function code that stand in a request and in its response.
  abbrev pub asked : ℕ → ℕ
  asked k = byte_at req (header_length b + k)

  abbrev pub answered : ℕ → ℕ
  answered k = byte_at rsp (header_length b + k)

  -- The number of values that the request names.
  abbrev pub number : ℕ
  number = asked 3 * 256 + asked 4

  -- The first `k` fields of the request come back.
  abbrev pub Repeats : ℕ → Type 0
  Repeats zero = Unit {0}
  Repeats (suc k) = Repeats k × (answered (suc k) ≡ asked (suc k))

-- The function is none of those whose answer has a form of its own.
abbrev pub IsOther : ℕ → Type 0
IsOther f =
    (f ≢ 1)
    × (f ≢ 2)
    × (f ≢ 3)
    × (f ≢ 4)
    × (f ≢ 5)
    × (f ≢ 6)
    × (f ≢ 7)
    × (f ≢ 15)
    × (f ≢ 16)
    × (f ≢ 17)
    × (f ≢ 22)
    × (f ≢ 23)

-- The response of `n` bytes is one to a request for the function, and reports the count of values:
-- what each function of the protocol prescribes for its answer.
pub data IsAnswer (b : Backend) (req rsp : List ℕ) (n : ℕ) : ℕ → ℕ → Type 0 where
  bits_read :
      (f : ℕ)
      → (f ≡ 1) ⊎ (f ≡ 2)
      → answered b req rsp 1 ≡ (number b req rsp + 7) / 8
      → n ≡ header_length b + 2 + answered b req rsp 1 + checksum_length b
      → IsAnswer b req rsp n f (answered b req rsp 1)
  registers_read :
      (f : ℕ)
      → (f ≡ 3) ⊎ (f ≡ 4) ⊎ (f ≡ 23)
      → answered b req rsp 1 / 2 ≡ number b req rsp
      → n ≡ header_length b + 2 + 2 * number b req rsp + checksum_length b
      → IsAnswer b req rsp n f (number b req rsp)
  one_written :
      (f : ℕ)
      → (f ≡ 5) ⊎ (f ≡ 6)
      → Repeats b req rsp 4
      → n ≡ header_length b + 5 + checksum_length b
      → IsAnswer b req rsp n f 1
  many_written :
      (f : ℕ)
      → (f ≡ 15) ⊎ (f ≡ 16)
      → Repeats b req rsp 4
      → n ≡ header_length b + 5 + checksum_length b
      → IsAnswer b req rsp n f (number b req rsp)
  slave_id_reported : IsAnswer b req rsp n 17 (answered b req rsp 1)
  status_read : n ≡ header_length b + 3 + checksum_length b → IsAnswer b req rsp n 7 1
  masked : n ≡ header_length b + 7 + checksum_length b → IsAnswer b req rsp n 22 1
  otherwise :
      (f : ℕ) → IsOther f → n ≡ header_length b + 5 + checksum_length b → IsAnswer b req rsp n f 1

pub and_true : (x y : Bool) → (x && y) ≡ true → (x ≡ true) × (y ≡ true)
and_true true y e = (refl, e)
and_true false y e = absurd cc

pub check-IsReplyHeader :
    (b : Backend) (req rsp : List ℕ) (rc : ℕ)
    → pre_check_confirmation b req rsp ≡ ok rc
    → IsReplyHeader b req rsp
unfolding pre_check_confirmation
check-IsReplyHeader rtu req rsp rc e = elim (Bool-cases (byte_at req 0 == byte_at rsp 0)) [
  | inl same ↦ inl (sym ((==_iff _ _).0 same))
  | inr other ↦ elim (Bool-cases (byte_at req 0 == 0)) [
    | inl all ↦ inr ((==_iff _ 0).0 all)
    | inr one ↦ absurd (failed (rw (other, one) at e))
  ]
]
  where
    failed : {x : Errno} → err x ≡ ok rc → ⊥
    failed h = cc
check-IsReplyHeader tcp req rsp rc e = elim (Bool-cases (byte_at req 0 == byte_at rsp 0)) [
  | inr other ↦ absurd (failed (rw other at e))
  | inl high ↦ elim (Bool-cases (byte_at req 1 == byte_at rsp 1)) [
    | inr other ↦ absurd (failed (rw (high, other) at e))
    | inl low ↦ elim (Bool-cases (byte_at rsp 2 * 256 + byte_at rsp 3 == 0)) [
      | inr other ↦ absurd (failed (rw (high, low, other) at e))
      | inl protocol ↦
          let z = (==_iff _ 0).0 protocol in
          (sym ((==_iff _ _).0 high), sym ((==_iff _ _).0 low), omega (arith, z), omega (arith, z))
    ]
  ]
]
  where
    failed : {x : Errno} → err x ≡ ok rc → ⊥
    failed h = cc
