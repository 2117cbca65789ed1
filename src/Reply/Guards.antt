-- ===== src/Reply/Guards.antt =====
-- The tests before a case of `modbus_reply` is served, and the fronts of what it then writes.
use libmodbus.Base.{
  ℕ, ◌<◌, ◌||◌, leb, byte_at, byte_at-lt, ◌+◌, ◌-◌, ◌%◌, ◌≡◌, refl, arith, Bool, true, false, ltb,
  inl, inr, if◌then◌else◌, List, [], ◌∷◌, ◌++◌, length-append, IsBytes,
}
use libmodbus.Context.{Backend, rtu, tcp, Sft}
use libmodbus.Backend.{header_length, build_response_basis}
use libmodbus.Mapping.{Mapping}
use libmodbus.Reply.{
  Answer, response_exception, register_bytes, response_io_status, request_sft, request_function,
}
use libmodbus.Reply.Answers.{
  length-build_response_basis, length-response_exception, byte_at-register_bytes,
  byte_at-io_status_loop,
}
use mathlib.Core.Path.{subst}
use libmodbus.Reply.Front.{IsFront, same_front, basis-IsFront}
use libmodbus.Reply.Verdict.{Within, IsServed, IsReason, IsHeadedFrom}

last_of_basis :
    (b : Backend) (basis : Sft) (x : ℕ)
    → byte_at (build_response_basis b basis ++ x ∷ []) (header_length b + 1) ≡ x
unfolding build_response_basis
last_of_basis rtu basis x = refl
last_of_basis tcp basis x = refl

-- What the tests of a range leave.
pub tested_range :
    (start count limit address nb : ℕ)
    → (ltb nb 1 || ltb limit nb) ≡ false
    → (ltb address start || ltb count (address - start + nb)) ≡ false
    → Within start count limit address nb
tested_range start count limit address nb x y = record {
  some_entry = ground arith;
  limited = ground arith;
  from_start = ground arith;
  to_end = ground arith;
}

pub tested_entry :
    (start count address : ℕ)
    → (ltb address start || leb count (address - start)) ≡ false
    → Within start count 1 address 1
tested_entry start count address x = record {
  some_entry = omega arith;
  limited = omega arith;
  from_start = ground arith;
  to_end = ground arith;
}

module _ (req : List ℕ) (bytes : IsBytes req) where
  module _ (b : Backend) (n address : ℕ) (m : Mapping) where
    abbrev sft : Sft
    sft = request_sft b req

    abbrev f : ℕ
    f = request_function b req

    abbrev Headed : Answer → Type 0
    Headed a = IsHeadedFrom address b req m a

    abbrev Served : Type 0
    Served = IsServed b req address m f

    f-lt : f < 256
    f-lt = byte_at-lt req (header_length b) bytes

    pub exception-IsHeaded :
        (code : ℕ) (to_flush : Bool)
        → IsReason f code
        → code < 256
        → Headed (response_exception b sft code to_flush m)
    unfolding response_exception
    exception-IsHeaded code to_flush why small =
        let same : code % 256 ≡ code = omega arith in
        inr record {
          front = basis-IsFront req bytes b (f + 0x80) (code % 256 ∷ []) _ refl;
          code_only = length-response_exception b sft code to_flush m;
          reason = rw (last_byte, same) why;
          kept = refl;
        }
      where
        last_byte :
            byte_at (response_exception b sft code to_flush m).rsp (header_length b + 1)
            ≡ code % 256
        last_byte = last_of_basis b (record sft { function = f + 0x80 }) (code % 256)

    pub normal-IsFront :
        (a : Answer) (body : List ℕ)
        → a.rsp ≡ build_response_basis b sft ++ body
        → IsFront b req f a
    normal-IsFront a body e =
        let same : f % 256 ≡ f = omega (arith, f-lt) in
        subst (λ g. IsFront b req g a) same (basis-IsFront req bytes b f body a e)

    pub with_registers :
        (count nb i : ℕ) (tab : List ℕ) (a : Answer)
        → a.rsp ≡ register_bytes nb i tab (build_response_basis b sft ++ count ∷ [])
        → IsFront b req f a
    with_registers count nb i tab a e =
        same_front b req f basis a
          (λ k h. rw e (
            byte_at-register_bytes nb i tab basis.rsp k (
              omega (
                arith,
                length-append (build_response_basis b sft) (count ∷ []),
                length-build_response_basis b sft,
              ))))
          (normal-IsFront basis (count ∷ []) refl)
      where
        basis : Answer
        basis = record { rsp = build_response_basis b sft ++ count ∷ []; actions = []; mapping = m }

    pub with_status :
        (count nb i : ℕ) (tab : List ℕ) (a : Answer)
        → a.rsp ≡ response_io_status tab i nb (build_response_basis b sft ++ count ∷ [])
        → IsFront b req f a
    unfolding response_io_status
    with_status count nb i tab a e =
        same_front b req f basis a
          (λ k h. rw e (
            byte_at-io_status_loop nb i tab 0 0 basis.rsp k (
              omega (
                arith,
                length-append (build_response_basis b sft) (count ∷ []),
                length-build_response_basis b sft,
              ))))
          (normal-IsFront basis (count ∷ []) refl)
      where
        basis : Answer
        basis = record { rsp = build_response_basis b sft ++ count ∷ []; actions = []; mapping = m }

    -- The two tests that every table access starts with.
    pub guarded :
        (bad out : Bool) (a : Answer)
        → (bad ≡ false → out ≡ false → Served)
        → IsFront b req f a
        → Headed (
            if bad
            then response_exception b sft 3 true m
            else if out
            then response_exception b sft 2 false m
            else a)
    guarded true out a served h = exception-IsHeaded 3 true (inr (inr refl)) (omega arith)
    guarded false true a served h = exception-IsHeaded 2 false (inr (inl refl)) (omega arith)
    guarded false false a served h = inl (h, served refl refl)

    -- The tests of the cases that echo the request.
    pub checked :
        (out bad : Bool) (a : Answer)
        → (out ≡ false → Served)
        → IsFront b req f a
        → Headed (
            if out
            then response_exception b sft 2 false m
            else if bad
            then response_exception b sft 3 false m
            else a)
    checked true bad a served h = exception-IsHeaded 2 false (inr (inl refl)) (omega arith)
    checked false true a served h = exception-IsHeaded 3 false (inr (inr refl)) (omega arith)
    checked false false a served h = inl (h, served refl)

    pub valid_only :
        (out bad good : Bool) (a : Answer)
        → (out ≡ false → good ≡ true → Served)
        → IsFront b req f a
        → Headed (
            if out
            then response_exception b sft 2 false m
            else if bad
            then response_exception b sft 3 false m
            else if good
            then a
            else response_exception b sft 3 false m)
    valid_only true bad good a served h = exception-IsHeaded 2 false (inr (inl refl)) (omega arith)
    valid_only false true good a served h =
        exception-IsHeaded 3 false (inr (inr refl)) (omega arith)
    valid_only false false true a served h = inl (h, served refl refl)
    valid_only false false false a served h =
        exception-IsHeaded 3 false (inr (inr refl)) (omega arith)
