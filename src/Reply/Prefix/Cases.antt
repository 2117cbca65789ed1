-- ===== src/Reply/Prefix/Cases.antt =====
-- The cases of `modbus_reply` on a request and on its first bytes.
use libmodbus.Base.{
  ℕ, zero, suc, ◌+◌, ◌-◌, ◌*◌, ◌/◌, ◌%◌, ◌≤◌, ◌<◌, ◌≡◌, refl, sym, ap, ◌∙◌, arith, Bool, true,
  false, ◌⊎◌, inl, inr, if◌then◌else◌, ◌==◌, ◌||◌, not, ltb, List, ◌++◌, byte_at, set, take, drop,
  length, get_or-take, take-take, take-drop-take, get_or-drop, if_intro, ==_iff,
}
use libmodbus.Context.{Backend, Sft}
use libmodbus.Backend.{header_length, checksum_length, build_response_basis}
use libmodbus.Data.{set_bytes_loop, set_bits_from_bytes, test_bit}
use libmodbus.Lengths.{word_at, compute_response_length_from_request}
use libmodbus.Mapping.{Mapping}
use libmodbus.Reply.{
  Answer, store_registers, echo_four, reply_read_bits, reply_read_registers, reply_write_bit,
  reply_write_register, reply_write_bits, reply_write_registers, reply_report_slave_id,
  reply_mask_write_register, reply_write_and_read_registers,
}
use libmodbus.Reply.Answers.{length-build_response_basis}
use libmodbus.Reply.Bounds.{single_write_length, mask_write_length}

set_bytes_same :
    (k i shift idx : ℕ) (xs ys tab : List ℕ)
    → ((j : ℕ) → j < i + k → byte_at xs (j / 8) ≡ byte_at ys (j / 8))
    → set_bytes_loop k i shift idx xs tab ≡ set_bytes_loop k i shift idx ys tab
unfolding set_bytes_loop
set_bytes_same zero i shift idx xs ys tab h = refl
set_bytes_same (suc k) i shift idx xs ys tab h =
    ap
      (λ (b : ℕ).
        set_bytes_loop k (i + 1) ((shift + 1) % 8) idx xs (set tab (idx + i) (test_bit b shift)))
      (h i (omega arith))
    ∙ set_bytes_same k (i + 1) ((shift + 1) % 8) idx xs ys _ (λ j p. h j (omega arith))

or_last : (a b c : Bool) → (a || b || c) ≡ false → c ≡ false
or_last true b c e = absurd cc
or_last false true c e = absurd cc
or_last false false c e = e

-- Two branches that differ only where the test fails, its last part at least.
same_if :
    (a b c : Bool) (x y y' : Answer)
    → (c ≡ false → y ≡ y')
    → (if a || b || c then x else y) ≡ (if a || b || c then x else y')
same_if true b c x y y' h = refl
same_if false true c x y y' h = refl
same_if false false true x y y' h = refl
same_if false false false x y y' h = h refl

not-false : (a b : ℕ) → not (a == b) ≡ false → a ≡ b
not-false a b e = (==_iff a b).0 (positive (a == b) e)
  where
    positive : (t : Bool) → not t ≡ false → t ≡ true
    positive true e = refl
    positive false e = absurd cc

pub ltb-false : (a b : ℕ) → ltb a b ≡ false → b ≤ a
ltb-false a b e = ground arith

-- `n` bytes of the buffer are the request.
module _ (n : ℕ) (req : List ℕ) where
  abbrev pub cut : List ℕ
  cut = take n req

  pub byte_same : (i : ℕ) → i < n → byte_at cut i ≡ byte_at req i
  byte_same i h = get_or-take n req i 0 h

  pub word_same : (i : ℕ) → i + 1 < n → word_at cut i ≡ word_at req i
  word_same i h = omega (arith, byte_same i (omega arith), byte_same (i + 1) h)

  store_same :
      (k i j : ℕ) (tab : List ℕ)
      → j + 2 * k ≤ n
      → store_registers k i j cut tab ≡ store_registers k i j req tab
  unfolding store_registers
  store_same zero i j tab h = refl
  store_same (suc k) i j tab h =
      ap (λ (w : ℕ). store_registers k (i + 1) (j + 2) cut (set tab i (w % 65536)))
        (word_same j (omega arith))
      ∙ store_same k (i + 1) (j + 2) _ (omega arith)

  module _ (backend : Backend) (sft : Sft) (address : ℕ) (m : Mapping) where
    pub read_bits_same :
        (start nb : ℕ) (tab : List ℕ)
        → header_length backend + 5 ≤ n
        → reply_read_bits backend sft cut n address m start nb tab
          ≡ reply_read_bits backend sft req n address m start nb tab
    unfolding reply_read_bits
    read_bits_same start nb tab h = rw (word_same (header_length backend + 3) (omega arith)) refl

    pub read_registers_same :
        (start nb : ℕ) (tab : List ℕ)
        → header_length backend + 5 ≤ n
        → reply_read_registers backend sft cut n address m start nb tab
          ≡ reply_read_registers backend sft req n address m start nb tab
    unfolding reply_read_registers
    read_registers_same start nb tab h =
        rw (word_same (header_length backend + 3) (omega arith)) refl

    echo_same : take (n - checksum_length backend) cut ≡ take (n - checksum_length backend) req
    echo_same = take-take (n - checksum_length backend) n req (omega arith)

    computed_same :
        (byte_at req (header_length backend) ≡ 5) ⊎ (byte_at req (header_length backend) ≡ 6)
        → header_length backend < n
        → compute_response_length_from_request backend cut
          ≡ compute_response_length_from_request backend req
    computed_same (inl e) h =
        single_write_length backend cut (inl (byte_same _ h ∙ e))
        ∙ sym (single_write_length backend req (inl e))
    computed_same (inr e) h =
        single_write_length backend cut (inr (byte_same _ h ∙ e))
        ∙ sym (single_write_length backend req (inr e))

    pub write_bit_same :
        byte_at req (header_length backend) ≡ 5
        → header_length backend + 5 ≤ n
        → reply_write_bit backend sft cut n address m ≡ reply_write_bit backend sft req n address m
    unfolding reply_write_bit
    write_bit_same e h =
        rw
          (
            word_same (header_length backend + 3) (omega arith),
            computed_same (inl e) (omega arith),
            echo_same,
          )
          refl

    pub write_register_same :
        byte_at req (header_length backend) ≡ 6
        → header_length backend + 5 ≤ n
        → reply_write_register backend sft cut n address m
          ≡ reply_write_register backend sft req n address m
    unfolding reply_write_register
    write_register_same e h =
        rw
          (
            word_same (header_length backend + 3) (omega arith),
            computed_same (inr e) (omega arith),
            echo_same,
          )
          refl

    pub mask_write_same :
        byte_at req (header_length backend) ≡ 22
        → header_length backend + 7 ≤ n
        → reply_mask_write_register backend sft cut n address m
          ≡ reply_mask_write_register backend sft req n address m
    unfolding reply_mask_write_register
    mask_write_same e h =
        rw
          (
            word_same (header_length backend + 3) (omega arith),
            word_same (header_length backend + 5) (omega arith),
            mask_write_length backend cut (byte_same _ (omega arith) ∙ e)
                ∙ sym (mask_write_length backend req e),
            echo_same,
          )
          refl

    four_same :
        header_length backend + 5 ≤ n
        → echo_four backend sft cut n address m ≡ echo_four backend sft req n address m
    four_same h =
        ap (λ (l : List ℕ). build_response_basis backend sft ++ l)
          (take-drop-take 4 (length (build_response_basis backend sft)) n req
            (omega (arith, length-build_response_basis backend sft)))

    bits_same :
        (idx nb nb_bytes k : ℕ) (tab : List ℕ)
        → nb ≤ nb_bytes * 8
        → k + nb_bytes ≤ n
        → set_bits_from_bytes tab idx nb (drop k cut) ≡ set_bits_from_bytes tab idx nb (drop k req)
    unfolding set_bits_from_bytes
    bits_same idx nb nb_bytes k tab g h = set_bytes_same _ 0 0 _ (drop k cut) (drop k req) _ (λ j p.
        get_or-drop k cut (j / 8) 0
        ∙ byte_same (k + j / 8) (omega arith)
        ∙ sym (get_or-drop k req (j / 8) 0))

    pub write_bits_same :
        header_length backend + 6 + byte_at req (header_length backend + 5) ≤ n
        → reply_write_bits backend sft cut n address m
          ≡ reply_write_bits backend sft req n address m
    unfolding reply_write_bits
    write_bits_same h =
        rw
          (
            word_same (header_length backend + 3) (omega arith),
            byte_same (header_length backend + 5) (omega arith),
            four_same (omega arith),
          )
          (same_if (ltb (word_at req (header_length backend + 3)) 1)
            (ltb 1968 (word_at req (header_length backend + 3)))
            (ltb (byte_at req (header_length backend + 5) * 8)
              (word_at req (header_length backend + 3)))
            _ _ _
            (λ q.
              rw
                (bits_same (address - m.start_bits) (word_at req (header_length backend + 3))
                  (byte_at req (header_length backend + 5)) (header_length backend + 6) m.tab_bits
                  (ltb-false _ _ q) h)
                refl))

    pub write_registers_same :
        header_length backend + 6 + byte_at req (header_length backend + 5) ≤ n
        → reply_write_registers backend sft cut n address m
          ≡ reply_write_registers backend sft req n address m
    unfolding reply_write_registers
    write_registers_same h =
        rw
          (
            word_same (header_length backend + 3) (omega arith),
            byte_same (header_length backend + 5) (omega arith),
            four_same (omega arith),
          )
          (same_if (ltb (word_at req (header_length backend + 3)) 1)
            (ltb 123 (word_at req (header_length backend + 3)))
            (not (
              byte_at req (header_length backend + 5)
              == word_at req (header_length backend + 3) * 2))
            _ _ _
            (λ q.
              rw
                (store_same (word_at req (header_length backend + 3)) (address - m.start_registers)
                  (header_length backend + 6) m.tab_registers (twice q))
                refl))
      where
        twice :
            not (
                byte_at req (header_length backend + 5)
                == word_at req (header_length backend + 3) * 2)
              ≡ false
            → header_length backend + 6 + 2 * word_at req (header_length backend + 3) ≤ n
        twice q = omega (arith, not-false _ _ q)

    pub write_and_read_same :
        header_length backend + 10 + byte_at req (header_length backend + 9) ≤ n
        → reply_write_and_read_registers backend sft cut n address m
          ≡ reply_write_and_read_registers backend sft req n address m
    unfolding reply_write_and_read_registers
    write_and_read_same h =
        rw
          (
            word_same (header_length backend + 3) (omega arith),
            word_same (header_length backend + 5) (omega arith),
            word_same (header_length backend + 7) (omega arith),
            byte_same (header_length backend + 9) (omega arith),
          )
          (same_if (ltb (word_at req (header_length backend + 7)) 1)
            (ltb 121 (word_at req (header_length backend + 7)))
            (ltb (word_at req (header_length backend + 3)) 1
              || ltb 125 (word_at req (header_length backend + 3))
              || not (
                  byte_at req (header_length backend + 9)
                  == word_at req (header_length backend + 7) * 2))
            _ _ _
            (λ q.
              rw
                (store_same (word_at req (header_length backend + 7))
                  (word_at req (header_length backend + 5) % 65536 - m.start_registers)
                  (header_length backend + 10) m.tab_registers (twice q))
                refl))
      where
        twice :
            (ltb (word_at req (header_length backend + 3)) 1
                || ltb 125 (word_at req (header_length backend + 3))
                || not (
                    byte_at req (header_length backend + 9)
                    == word_at req (header_length backend + 7) * 2))
              ≡ false
            → header_length backend + 10 + 2 * word_at req (header_length backend + 7) ≤ n
        twice q =
            let last : not (
                  byte_at req (header_length backend + 9)
                  == word_at req (header_length backend + 7) * 2)
                ≡ false =
              or_last (ltb (word_at req (header_length backend + 3)) 1)
                (ltb 125 (word_at req (header_length backend + 3))) _ q in
            omega (arith, not-false _ _ last)

    pub report_same :
        (version : List ℕ)
        → reply_report_slave_id backend sft cut n address m version
          ≡ reply_report_slave_id backend sft req n address m version
    unfolding reply_report_slave_id
    report_same version = refl

    pub case_same :
        (f k : ℕ) (x x' y y' : Answer)
        → (f ≡ k → x ≡ x')
        → y ≡ y'
        → (if f == k then x else y) ≡ (if f == k then x' else y')
    case_same f k x x' y y' h l =
        if_intro (λ (z : Answer). z ≡ (if f == k then x' else y')) (f == k) x y
          (λ e. h ((==_iff f k).0 e) ∙ sym (rw e refl)) (λ e. l ∙ sym (rw e refl))
