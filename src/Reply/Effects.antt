-- ===== src/Reply/Effects.antt =====
-- What `modbus_reply` does to the mapping.
use libmodbus.Base.{
  ℕ, suc, ◌+◌, ◌-◌, ◌*◌, ◌%◌, ◌<◌, ◌≡◌, refl, arith, Bool, true, false, if_intro, ltb, ==_iff, none,
  ◌∙◌, ◌||◌, not, inl, inr, if◌then◌else◌, ◌==◌, List, [], ◌∷◌, ◌++◌, byte_at, set, take, drop,
  length, length-set, length-append, some, AllBelow-set, get_or-append_left, get_or-take, bit_and,
  bit_or,
}
use libmodbus.Context.{Backend, Sft}
use libmodbus.Backend.{header_length, checksum_length, build_response_basis}
use libmodbus.Lengths.{word_at, compute_response_length_from_request}
use libmodbus.Mapping.{Mapping, IsValid}
use libmodbus.Reply.{
  Answer, response_exception, register_bytes, reply_read_bits, reply_read_registers,
  reply_write_bit, reply_write_register, reply_write_bits, reply_write_registers,
  reply_report_slave_id, reply_mask_write_register, reply_write_and_read_registers, dispatch,
  respond, is_length, required_length, request_sft, request_address,
}
use libmodbus.Reply.Answers.{
  length-build_response_basis, length-store_registers, store_registers-AllBelow,
  set_bits_from_bytes-keeps, byte_at-register_bytes,
}
use mathlib.Core.Path.{subst}
use libmodbus.Reply.Bounds.{single_write_length, mask_write_length}
use libmodbus.Reply.Kept.{
  IsKept, IsSound, IsKept-bits, IsKept-registers, basis_function, unchanged-IsSound,
}

module _ (backend : Backend) (sft : Sft) (req : List ℕ) (req_length address : ℕ) (m : Mapping)
    (v : IsValid m) where
  exception-IsSound :
      (code : ℕ) (to_flush : Bool)
      → IsSound backend m (response_exception backend sft code to_flush m)
  unfolding response_exception
  exception-IsSound code to_flush = unchanged-IsSound backend m _ v refl

  reply_read_bits-IsSound :
      (start nb_bits : ℕ) (tab : List ℕ)
      → IsSound backend m (reply_read_bits backend sft req req_length address m start nb_bits tab)
  unfolding reply_read_bits response_exception
  reply_read_bits-IsSound start nb_bits tab = unchanged-IsSound backend m _ v (ground arith)

  reply_read_registers-IsSound :
      (start nb_registers : ℕ) (tab : List ℕ)
      → IsSound backend m
          (reply_read_registers backend sft req req_length address m start nb_registers tab)
  unfolding reply_read_registers response_exception
  reply_read_registers-IsSound start nb_registers tab =
      unchanged-IsSound backend m _ v (ground arith)

  -- A write whose response repeats the function code, which is below 0x80.
  write-IsSound :
      (a : Answer)
      → IsKept m a.mapping
      → byte_at a.rsp (header_length backend) < 128
      → IsSound backend m a
  write-IsSound a k h = record { kept = k; untouched = λ p. absurd (omega arith) }

  -- The two checks of the single writes, and their exceptions.
  checked :
      (a b : Bool) (x : Answer)
      → (b ≡ false → IsSound backend m x)
      → IsSound backend m (
          if a
          then response_exception backend sft 2 false m
          else if b
          then response_exception backend sft 3 false m
          else x)
  checked a b x h =
      if_intro (IsSound backend m) a _ _ (λ _. exception-IsSound 2 false)
        λ _. if_intro (IsSound backend m) b _ _ (λ _. exception-IsSound 3 false) h

  set_bit-IsKept : (i w : ℕ) → w < 256 → IsKept m (record m { tab_bits = set m.tab_bits i w })
  set_bit-IsKept i w h =
      IsKept-bits m _ v (length-set m.tab_bits i w) (AllBelow-set 256 m.tab_bits i w h v.bits_fit)

  set_register-IsKept :
      (i w : ℕ) → w < 65536 → IsKept m (record m { tab_registers = set m.tab_registers i w })
  set_register-IsKept i w h =
      IsKept-registers m _ v (length-set m.tab_registers i w)
        (AllBelow-set 65536 m.tab_registers i w h v.registers_fit)

  -- The two checks of the other cases.
  guarded :
      (a b : Bool) (x : Answer)
      → IsSound backend m x
      → IsSound backend m (
          if a
          then response_exception backend sft 3 true m
          else if b
          then response_exception backend sft 2 false m
          else x)
  guarded a b x h =
      if_intro (IsSound backend m) a _ _ (λ _. exception-IsSound 3 true)
        λ _. if_intro (IsSound backend m) b _ _ (λ _. exception-IsSound 2 false) (λ _. h)

  -- An echo of the request repeats its function code.
  echo_function :
      (n : ℕ)
      → header_length backend < n
      → byte_at (take n req) (header_length backend) ≡ byte_at req (header_length backend)
  echo_function n h = get_or-take n req (header_length backend) 0 h

  single_echo :
      (k : ℕ)
      → not (is_length (compute_response_length_from_request backend req) req_length) ≡ false
      → compute_response_length_from_request backend req
        ≡ some (header_length backend + suc k + checksum_length backend)
      → byte_at req (header_length backend) < 128
      → byte_at (take (req_length - checksum_length backend) req) (header_length backend) < 128
  single_echo k h e small =
      let n : req_length ≡ header_length backend + suc k + checksum_length backend = ground arith in
      omega (arith, echo_function (req_length - checksum_length backend) (omega arith))

  reply_write_bit-IsSound :
      byte_at req (header_length backend) ≡ 5
      → IsSound backend m (reply_write_bit backend sft req req_length address m)
  unfolding reply_write_bit
  reply_write_bit-IsSound e =
      let w : ℕ = if word_at req (header_length backend + 3) == 0 then 0 else 1 in
      let small : w < 256 = ground arith in
      checked _ _ _ λ q.
        if_intro (IsSound backend m)
          (word_at req (header_length backend + 3) == 0xff00
            || word_at req (header_length backend + 3) == 0)
          _ _
          (λ _.
            write-IsSound _ (set_bit-IsKept (address - m.start_bits) w small)
              (single_echo 4 q (single_write_length backend req (inl e)) (omega arith)))
          (λ _. exception-IsSound 3 false)

  reply_write_register-IsSound :
      byte_at req (header_length backend) ≡ 6
      → IsSound backend m (reply_write_register backend sft req req_length address m)
  unfolding reply_write_register
  reply_write_register-IsSound e =
      let w : ℕ = word_at req (header_length backend + 3) % 65536 in
      checked _ _ _ λ q.
        write-IsSound _ (set_register-IsKept (address - m.start_registers) w (omega arith))
          (single_echo 4 q (single_write_length backend req (inr e)) (omega arith))

  reply_mask_write_register-IsSound :
      byte_at req (header_length backend) ≡ 22
      → IsSound backend m (reply_mask_write_register backend sft req req_length address m)
  unfolding reply_mask_write_register
  reply_mask_write_register-IsSound e =
      let and_mask : ℕ = word_at req (header_length backend + 3) in
      let or_mask : ℕ = word_at req (header_length backend + 5) in
      let old : ℕ = byte_at m.tab_registers (address - m.start_registers) in
      let w : ℕ = bit_or (bit_and old and_mask) (bit_and or_mask (65535 - and_mask)) % 65536 in
      checked _ _ _ λ q.
        write-IsSound _ (set_register-IsKept (address - m.start_registers) w (omega arith))
          (single_echo 6 q (mask_write_length backend req e) (omega arith))

  module _ (small : sft.function < 128) where
    basis_small :
        (tail : List ℕ)
        → byte_at (build_response_basis backend sft ++ tail) (header_length backend) < 128
    basis_small tail = omega (
      arith,
      basis_function backend sft,
      length-build_response_basis backend sft,
      get_or-append_left (build_response_basis backend sft) tail (header_length backend) 0
          (omega (arith, length-build_response_basis backend sft)),
    )

    reply_write_bits-IsSound :
        IsSound backend m (reply_write_bits backend sft req req_length address m)
    unfolding reply_write_bits
    reply_write_bits-IsSound =
        let (same, fit) =
          set_bits_from_bytes-keeps m.tab_bits (address - m.start_bits)
            (word_at req (header_length backend + 3)) (drop (header_length backend + 6) req)
            v.bits_fit in
        guarded _ _ _ (write-IsSound _ (IsKept-bits m _ v same fit) (basis_small _))

    reply_write_registers-IsSound :
        IsSound backend m (reply_write_registers backend sft req req_length address m)
    unfolding reply_write_registers
    reply_write_registers-IsSound = guarded _ _ _ (
        write-IsSound _
          (IsKept-registers m _ v (length-store_registers _ _ _ req m.tab_registers)
            (store_registers-AllBelow _ _ _ req m.tab_registers v.registers_fit))
          (basis_small _))

    reply_write_and_read_registers-IsSound :
        IsSound backend m (reply_write_and_read_registers backend sft req req_length address m)
    unfolding reply_write_and_read_registers
    reply_write_and_read_registers-IsSound = guarded _ _ _ (
        write-IsSound _
          (IsKept-registers m _ v (length-store_registers _ _ _ req m.tab_registers)
            (store_registers-AllBelow _ _ _ req m.tab_registers v.registers_fit))
          (read_back _ _ _))
      where
        basis : List ℕ
        basis =
            build_response_basis backend sft
            ++ word_at req (header_length backend + 3) * 2 % 256 ∷ []

        long_basis : header_length backend < length basis
        long_basis = omega (
          arith,
          length-build_response_basis backend sft,
          length-append (build_response_basis backend sft)
              (word_at req (header_length backend + 3) * 2 % 256 ∷ []),
        )

        read_back :
            (n i : ℕ) (tab : List ℕ)
            → byte_at (register_bytes n i tab basis) (header_length backend) < 128
        read_back n i tab = omega (
          arith,
          byte_at-register_bytes n i tab basis (header_length backend) long_basis,
          basis_small (word_at req (header_length backend + 3) * 2 % 256 ∷ []),
        )

  exception_unknown : IsSound backend m (response_exception backend sft 1 true m)
  exception_unknown = exception-IsSound 1 true

  reply_report_slave_id-IsSound :
      (version : List ℕ)
      → IsSound backend m (reply_report_slave_id backend sft req req_length address m version)
  unfolding reply_report_slave_id
  reply_report_slave_id-IsSound version = unchanged-IsSound backend m _ v refl

  abbrev IfSplit : (f k : ℕ) (x y : Answer) → Type 0
  IfSplit f k x y =
      (f ≡ k → IsSound backend m x)
      → IsSound backend m y
      → IsSound backend m (if f == k then x else y)

  if_function : (f k : ℕ) (x y : Answer) → IfSplit f k x y
  if_function f k x y h l =
      if_intro (IsSound backend m) (f == k) x y (λ e. h ((==_iff f k).0 e)) (λ _. l)

  dispatch-IsSound :
      (version : List ℕ)
      → byte_at req (header_length backend) ≡ sft.function
      → IsSound backend m (dispatch backend sft req req_length address m version sft.function)
  unfolding dispatch
  dispatch-IsSound version e =
      let f : ℕ = sft.function in
      if_function f 1 _ _ (λ _. reply_read_bits-IsSound _ _ _)
        (if_function f 2 _ _ (λ _. reply_read_bits-IsSound _ _ _)
          (if_function f 3 _ _ (λ _. reply_read_registers-IsSound _ _ _)
            (if_function f 4 _ _ (λ _. reply_read_registers-IsSound _ _ _)
              (if_function f 5 _ _ (λ q. reply_write_bit-IsSound (e ∙ q))
                (if_function f 6 _ _ (λ q. reply_write_register-IsSound (e ∙ q))
                  (if_function f 15 _ _ (λ q. reply_write_bits-IsSound (omega arith))
                    (if_function f 16 _ _ (λ q. reply_write_registers-IsSound (omega arith))
                      (if_function f 17 _ _ (λ _. reply_report_slave_id-IsSound version)
                        (if_function f 7 _ _ (λ _. exception_unknown)
                          (if_function f 22 _ _ (λ q. reply_mask_write_register-IsSound (e ∙ q))
                            (if_function f 23 _ _
                              (λ q. reply_write_and_read_registers-IsSound (omega arith))
                              exception_unknown)))))))))))

-- Every request, well formed or not, leaves a well-formed mapping well formed, with the same
-- addresses and the same inputs; and one that is answered by an exception leaves it as it was.
pub respond-IsSound :
    (version : List ℕ) (backend : Backend) (req : List ℕ) (req_length : ℕ) (m : Mapping)
    (answer : Answer)
    → IsValid m
    → respond version backend req req_length m ≡ some answer
    → IsSound backend m answer
unfolding respond
respond-IsSound version backend req req_length m answer v e =
    let ok_case =
      dispatch-IsSound backend (request_sft backend req) req req_length
        (request_address backend req req_length) m v version refl in
    let bad_case =
      exception-IsSound backend (request_sft backend req) req req_length 0 m v 3 true in
    split_answer (ltb req_length (header_length backend + 1))
      (ltb req_length (required_length backend req req_length)) _ _ bad_case ok_case e
  where
    split_answer :
        (a b : Bool) (x y : Answer)
        → IsSound backend m x
        → IsSound backend m y
        → (if a then none else if b then some x else some y) ≡ some answer
        → IsSound backend m answer
    split_answer true b x y h k p = cc
    split_answer false true x y h k p = let q : x ≡ answer = cc in subst (IsSound backend m) q h
    split_answer false false x y h k p = let q : y ≡ answer = cc in subst (IsSound backend m) q k
