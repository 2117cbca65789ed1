-- ===== src/Reply/Prefix.antt =====
-- `modbus_reply` reads nothing of the request buffer behind the length that it is given.
mod Cases
use libmodbus.Base.{
  ℕ, zero, suc, ◌+◌, ◌-◌, ◌*◌, ◌/◌, ◌%◌, ◌≤◌, ◌<◌, ◌≡◌, refl, sym, ap, ap₂, ◌∙◌, arith, Bool, true,
  false, ◌⊎◌, inl, inr, if◌then◌else◌, ◌==◌, ◌||◌, not, ltb, leb, List, [], ◌∷◌, ◌++◌, byte_at, set,
  take, drop, length, some, none, Option, get_or-take, take-take, take-drop-take, get_or-drop,
  if_intro, ==_iff,
}
use libmodbus.Context.{Backend, rtu, tcp, Sft, indication}
use libmodbus.Backend.{header_length, checksum_length, build_response_basis, get_response_tid}
use libmodbus.Data.{set_bytes_loop, set_bits_from_bytes, test_bit}
use libmodbus.Lengths.{
  word_at, compute_response_length_from_request, compute_meta_length_after_function,
  compute_data_length_after_meta,
}
use libmodbus.Mapping.{Mapping}
use libmodbus.Reply.{
  Answer, response_exception, register_bytes, store_registers, echo_four, reply_read_bits,
  reply_read_registers, reply_write_bit, reply_write_register, reply_write_bits,
  reply_write_registers, reply_report_slave_id, reply_mask_write_register,
  reply_write_and_read_registers, dispatch, respond, is_length, required_length, request_sft,
  request_address, request_function,
}
use libmodbus.Reply.Answers.{length-build_response_basis}
use libmodbus.Reply.Bounds.{single_write_length, mask_write_length}
use libmodbus.Reply.Prefix.Cases.{
  byte_same, word_same, read_bits_same, read_registers_same, write_bit_same, write_register_same,
  mask_write_same, write_bits_same, write_registers_same, write_and_read_same, report_same,
  case_same, ltb-false, cut,
}

module _ (n : ℕ) (req : List ℕ) where
  demand_read :
      (backend : Backend)
      → byte_at req (header_length backend) ≤ 6
      → required_length backend req n ≤ n
      → header_length backend + 5 ≤ n
  unfolding required_length compute_meta_length_after_function
  demand_read backend e h = ground arith

  demand_mask :
      (backend : Backend)
      → byte_at req (header_length backend) ≡ 22
      → required_length backend req n ≤ n
      → header_length backend + 7 ≤ n
  unfolding required_length compute_meta_length_after_function
  demand_mask backend e h = ground arith

  demand_write :
      (backend : Backend)
      → (byte_at req (header_length backend) ≡ 15) ⊎ (byte_at req (header_length backend) ≡ 16)
      → required_length backend req n ≤ n
      → header_length backend + 6 + byte_at req (header_length backend + 5) ≤ n
  unfolding required_length compute_meta_length_after_function compute_data_length_after_meta
  demand_write backend e h = ground arith

  demand_both :
      (backend : Backend)
      → byte_at req (header_length backend) ≡ 23
      → required_length backend req n ≤ n
      → header_length backend + 10 + byte_at req (header_length backend + 9) ≤ n
  unfolding required_length compute_meta_length_after_function compute_data_length_after_meta
  demand_both backend e h = ground arith

  required_same :
      (backend : Backend)
      → header_length backend < n
      → required_length backend (cut n req) n ≡ required_length backend req n
  unfolding required_length compute_meta_length_after_function compute_data_length_after_meta
  required_same backend h = ground (
    arith,
    byte_same n req (header_length backend) h,
    byte_same n req (header_length backend + 5),
    byte_same n req (header_length backend + 9),
  )

  sft_same :
      (backend : Backend)
      → header_length backend < n
      → request_sft backend (cut n req) ≡ request_sft backend req
  unfolding get_response_tid
  sft_same rtu h = rw (byte_same n req 0 (omega arith), byte_same n req 1 (omega arith)) refl
  sft_same tcp h =
      rw
        (
          byte_same n req 6 (omega arith),
          byte_same n req 7 (omega arith),
          byte_same n req 0 (omega arith),
          byte_same n req 1 (omega arith),
        )
        refl

  address_same :
      (backend : Backend) → request_address backend (cut n req) n ≡ request_address backend req n
  address_same backend = ground (arith, word_same n req (header_length backend + 1))

  dispatch_same :
      (backend : Backend) (sft : Sft) (address : ℕ) (m : Mapping) (version : List ℕ)
      → required_length backend req n ≤ n
      → dispatch backend sft (cut n req) n address m version (byte_at req (header_length backend))
        ≡ dispatch backend sft req n address m version (byte_at req (header_length backend))
  unfolding dispatch
  dispatch_same backend sft address m version l =
      let f : ℕ = byte_at req (header_length backend) in
      let case = case_same n req backend sft address m f in
      case 1 _ _ _ _ (λ q. read_bits_same n req _ _ _ _ _ _ _ (demand_read backend (omega arith) l))
        (case 2 _ _ _ _
          (λ q. read_bits_same n req _ _ _ _ _ _ _ (demand_read backend (omega arith) l))
          (case 3 _ _ _ _
            (λ q. read_registers_same n req _ _ _ _ _ _ _ (demand_read backend (omega arith) l))
            (case 4 _ _ _ _
              (λ q. read_registers_same n req _ _ _ _ _ _ _ (demand_read backend (omega arith) l))
              (case 5 _ _ _ _
                (λ q. write_bit_same n req _ _ _ _ q (demand_read backend (omega arith) l))
                (case 6 _ _ _ _
                  (λ q. write_register_same n req _ _ _ _ q (demand_read backend (omega arith) l))
                  (case 15 _ _ _ _
                    (λ q. write_bits_same n req _ _ _ _ (demand_write backend (inl q) l))
                    (case 16 _ _ _ _
                      (λ q. write_registers_same n req _ _ _ _ (demand_write backend (inr q) l))
                      (case 17 _ _ _ _ (λ q. report_same n req _ _ _ _ version)
                        (case 7 _ _ _ _ (λ q. refl)
                          (case 22 _ _ _ _
                            (λ q. mask_write_same n req _ _ _ _ q (demand_mask backend q l))
                            (case 23 _ _ _ _
                              (λ q. write_and_read_same n req _ _ _ _ (demand_both backend q l))
                              refl)))))))))))

-- `modbus_reply` reads nothing behind the `req_length` bytes of the request: whatever stands in the
-- buffer after them, the response, the actions and the mapping are the same.
pub respond-take :
    (version : List ℕ) (backend : Backend) (req : List ℕ) (n : ℕ) (m : Mapping)
    → respond version backend (take n req) n m ≡ respond version backend req n m
unfolding respond
respond-take version backend req n m =
    branches (ltb n (header_length backend + 1)) (ltb n (required_length backend (take n req) n))
      (ltb n (required_length backend req n)) _ _ _ _
      (λ a. ap (ltb n) (required_same n req backend (long a)))
      (λ a.
        ap (λ (s : Sft). response_exception backend s 3 true m) (sft_same n req backend (long a)))
      (λ a b. dispatched (long a) (ltb-false _ _ b))
  where
    long : ltb n (header_length backend + 1) ≡ false → header_length backend < n
    long a = omega (arith, ltb-false _ _ a)

    branches :
        (a b b' : Bool) (x x' y y' : Answer)
        → (a ≡ false → b ≡ b')
        → (a ≡ false → x ≡ x')
        → (a ≡ false → b' ≡ false → y ≡ y')
        → (if a then none else if b then some x else some y)
          ≡ (if a then none else if b' then some x' else some y')
    branches true b b' x x' y y' eb ex ey = refl
    branches false b true x x' y y' eb ex ey = rw (eb refl, ex refl) refl
    branches false b false x x' y y' eb ex ey = rw (eb refl, ey refl refl) refl

    dispatched :
        header_length backend < n
        → required_length backend req n ≤ n
        → dispatch backend
            (request_sft backend (take n req))
            (take n req)
            n
            (request_address backend (take n req) n)
            m
            version
            (byte_at (take n req) (header_length backend))
          ≡ dispatch backend
              (request_sft backend req)
              req
              n
              (request_address backend req n)
              m
              version
              (byte_at req (header_length backend))
    dispatched h l =
        rw
          (
            sft_same n req backend h,
            address_same n req backend,
            byte_same n req (header_length backend) h,
          )
          (dispatch_same n req backend (request_sft backend req) (request_address backend req n) m
            version l)
