-- ===== src/Confirm/Kinds.antt =====
-- Each kind of answer, out of the tests of its length and its fields in `check_confirmation`.
use libmodbus.Base.{
  ℕ, ◌+◌, ◌*◌, ◌/◌, ◌≡◌, ◌⊎◌, inl, inr, arith, refl, ap, ◌∙◌, sym, Bool, true, false, ◌&&◌, ◌||◌,
  ◌==◌, ==_iff, List, byte_at, byte_at-lt, IsBytes, shifted_bit_or,
}
use mathlib.Core.Path.{subst}
use libmodbus.Context.{Backend}
use libmodbus.Backend.{header_length}
use libmodbus.Lengths.{compute_response_length_from_request, byte_count, word_at, word_or_at}
use libmodbus.Confirm.{Echo, same_at, expected_echo, length_fits}
use libmodbus.Confirm.Answers.{
  asked, answered, number, IsOther, IsAnswer, bits_read, registers_read, one_written, many_written,
  masked, status_read, slave_id_reported, otherwise, and_true,
}

-- The functions that are answered in one way.
abbrev pub AnyKind : ℕ → Type 0
AnyKind f =
    ((f ≡ 1) ⊎ (f ≡ 2))
    ⊎ (((f ≡ 3) ⊎ (f ≡ 4) ⊎ (f ≡ 23))
        ⊎ (((f ≡ 5) ⊎ (f ≡ 6))
            ⊎ (((f ≡ 15) ⊎ (f ≡ 16)) ⊎ ((f ≡ 22) ⊎ ((f ≡ 7) ⊎ ((f ≡ 17) ⊎ IsOther f))))))

pub kind_of : (f : ℕ) → AnyKind f
kind_of f = ground arith

module _ (b : Backend) (req rsp : List ℕ) (asks : IsBytes req) (answers : IsBytes rsp) where
  word_or_at-is :
      (msg : List ℕ) (i : ℕ)
      → IsBytes msg
      → word_or_at msg i ≡ byte_at msg i * 256 + byte_at msg (i + 1)
  word_or_at-is msg i bytes =
      shifted_bit_or 8 (byte_at msg i) (byte_at msg (i + 1)) (byte_at-lt msg (i + 1) bytes)

  number_or : word_or_at req (header_length b + 3) ≡ number b req rsp
  number_or =
      let e : header_length b + 4 ≡ header_length b + 3 + 1 = omega arith in
      rw e (word_or_at-is req (header_length b + 3) asks)

  number_at : word_at req (header_length b + 3) ≡ number b req rsp
  number_at = let e : header_length b + 3 + 1 ≡ header_length b + 4 = omega arith in rw e refl

  rounded_up : (nb : ℕ) → byte_count nb ≡ (nb + 7) / 8
  rounded_up nb = ground arith

  abbrev both_at : ℕ → ℕ → Bool
  both_at j k = same_at req rsp (header_length b + j) && same_at req rsp (header_length b + k)

  both :
      (j k : ℕ)
      → both_at j k ≡ true
      → (answered b req rsp j ≡ asked b req rsp j) × (answered b req rsp k ≡ asked b req rsp k)
  both j k h = let (x, y) = and_true _ _ h in (sym ((==_iff _ _).0 x), sym ((==_iff _ _).0 y))

  same_word :
      word_or_at rsp (header_length b + 3) ≡ word_at req (header_length b + 3)
      → (answered b req rsp 3 ≡ asked b req rsp 3) × (answered b req rsp 4 ≡ asked b req rsp 4)
  same_word h =
      let e : header_length b + 3 + 1 ≡ header_length b + 4 = omega arith in
      let w : answered b req rsp 3 * 256 + answered b req rsp 4 ≡ number b req rsp =
        rw e at (sym (word_or_at-is rsp (header_length b + 3) answers) ∙ h ∙ number_at) in
      let below =
        λ (msg : List ℕ). λ (all : IsBytes msg). byte_at-lt msg (header_length b + 4) all in
      (
        omega (arith, w, below req asks, below rsp answers),
        omega (arith, w, below req asks, below rsp answers),
      )

  -- The counts agree on one that is reported, and so do the fields.
  abbrev pub Agrees : Echo → ℕ → Type 0
  Agrees echo count =
      (echo.req_nb_value ≡ count) × (echo.rsp_nb_value ≡ count) × (echo.fields_ok ≡ true)

  module _ (n count : ℕ) where
    abbrev Fits : Type 0
    Fits = length_fits (compute_response_length_from_request b req) n ≡ true

    -- What is known of a function, whichever it is.
    module _ (f : ℕ) (q : byte_at req (header_length b) ≡ f) (fits : Fits)
        (agree : Agrees (expected_echo (header_length b) f req rsp) count) where
      abbrev Answers : Type 0
      Answers = IsAnswer b req rsp n f count

      counted : (c : ℕ) → c ≡ count → IsAnswer b req rsp n f c → Answers
      counted c e answer = subst (IsAnswer b req rsp n f) e answer

      is_bits_read : (f ≡ 1) ⊎ (f ≡ 2) → Answers
      unfolding compute_response_length_from_request expected_echo
      is_bits_read h =
          let bits : (f == 1 || f == 2) ≡ true = ground arith in
          let long = (==_iff n _).0 (rw (q, bits) at fits) in
          let (asks_for, reports, fine) = rw bits at agree in
          counted _ reports (
            bits_read f h
              (reports ∙ sym asks_for ∙ ap byte_count number_at ∙ rounded_up (number b req rsp))
              (omega (arith, ap byte_count number_or, ap byte_count number_at)))

      is_registers_read : (f ≡ 3) ⊎ (f ≡ 4) ⊎ (f ≡ 23) → Answers
      unfolding compute_response_length_from_request expected_echo
      is_registers_read h =
          let bits : (f == 1 || f == 2) ≡ false = ground arith in
          let words : (f == 23 || (f == 3 || f == 4)) ≡ true = ground arith in
          let long = (==_iff n _).0 (rw (q, bits, words) at fits) in
          let (asks_for, reports, fine) = rw (bits, words) at agree in
          counted _ (sym number_at ∙ asks_for)
            (registers_read f h (omega (arith, number_at)) (omega (arith, number_or)))

      is_one_written : (f ≡ 5) ⊎ (f ≡ 6) → Answers
      unfolding compute_response_length_from_request expected_echo
      is_one_written h =
          let bits : (f == 1 || f == 2) ≡ false = ground arith in
          let words : (f == 23 || (f == 3 || f == 4)) ≡ false = ground arith in
          let status : (f == 7) ≡ false = ground arith in
          let id : (f == 17) ≡ false = ground arith in
          let mask : (f == 22) ≡ false = ground arith in
          let many : (f == 15 || f == 16) ≡ false = ground arith in
          let single : (f == 5 || f == 6) ≡ true = ground arith in
          let long = (==_iff n _).0 (rw (q, bits, words, status, id, mask) at fits) in
          let (asks_for, reports, fine) = rw (bits, words, many, id, single) at agree in
          let (first_two, last_two) = and_true (both_at 1 2) (both_at 3 4) fine in
          let (one, two) = both 1 2 first_two in
          let (three, four) = both 3 4 last_two in
          counted _ reports (one_written f h ((((tt, one), two), three), four) long)

      is_many_written : (f ≡ 15) ⊎ (f ≡ 16) → Answers
      unfolding compute_response_length_from_request expected_echo
      is_many_written h =
          let bits : (f == 1 || f == 2) ≡ false = ground arith in
          let words : (f == 23 || (f == 3 || f == 4)) ≡ false = ground arith in
          let status : (f == 7) ≡ false = ground arith in
          let id : (f == 17) ≡ false = ground arith in
          let mask : (f == 22) ≡ false = ground arith in
          let many : (f == 15 || f == 16) ≡ true = ground arith in
          let long = (==_iff n _).0 (rw (q, bits, words, status, id, mask) at fits) in
          let (asks_for, reports, fine) = rw (bits, words, many) at agree in
          let (one, two) = both 1 2 fine in
          let (three, four) = same_word (reports ∙ sym asks_for) in
          counted _ (sym number_at ∙ asks_for)
            (many_written f h ((((tt, one), two), three), four) long)

      is_masked : f ≡ 22 → Answers
      unfolding compute_response_length_from_request expected_echo
      is_masked h =
          let long = (==_iff n _).0 (rw (q, h) at fits) in
          let (asks_for, reports, fine) = rw h at agree in counted _ reports (rw h (masked long))

      is_status_read : f ≡ 7 → Answers
      unfolding compute_response_length_from_request expected_echo
      is_status_read h =
          let long = (==_iff n _).0 (rw (q, h) at fits) in
          let (asks_for, reports, fine) = rw h at agree in
          counted _ reports (rw h (status_read long))

      is_slave_id_reported : f ≡ 17 → Answers
      unfolding compute_response_length_from_request expected_echo
      is_slave_id_reported h =
          let (asks_for, reports, fine) = rw h at agree in
          counted _ reports (rw h slave_id_reported)

      is_otherwise : IsOther f → Answers
      unfolding compute_response_length_from_request expected_echo
      is_otherwise h =
          let bits : (f == 1 || f == 2) ≡ false = ground arith in
          let words : (f == 23 || (f == 3 || f == 4)) ≡ false = ground arith in
          let status : (f == 7) ≡ false = ground arith in
          let id : (f == 17) ≡ false = ground arith in
          let mask : (f == 22) ≡ false = ground arith in
          let many : (f == 15 || f == 16) ≡ false = ground arith in
          let single : (f == 5 || f == 6) ≡ false = ground arith in
          let long = (==_iff n _).0 (rw (q, bits, words, status, id, mask) at fits) in
          let (asks_for, reports, fine) = rw (bits, words, many, id, single) at agree in
          counted _ reports (otherwise f h long)

    pub by_kind :
        (f : ℕ)
        → byte_at req (header_length b) ≡ f
        → Fits
        → Agrees (expected_echo (header_length b) f req rsp) count
        → AnyKind f
        → IsAnswer b req rsp n f count
    by_kind f q fits agree (inl h) = is_bits_read f q fits agree h
    by_kind f q fits agree (inr (inl h)) = is_registers_read f q fits agree h
    by_kind f q fits agree (inr (inr (inl h))) = is_one_written f q fits agree h
    by_kind f q fits agree (inr (inr (inr (inl h)))) = is_many_written f q fits agree h
    by_kind f q fits agree (inr (inr (inr (inr (inl h))))) = is_masked f q fits agree h
    by_kind f q fits agree (inr (inr (inr (inr (inr (inl h)))))) = is_status_read f q fits agree h
    by_kind f q fits agree (inr (inr (inr (inr (inr (inr (inl h))))))) =
        is_slave_id_reported f q fits agree h
    by_kind f q fits agree (inr (inr (inr (inr (inr (inr (inr h))))))) =
        is_otherwise f q fits agree h
