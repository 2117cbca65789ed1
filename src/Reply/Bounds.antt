-- ===== src/Reply/Bounds.antt =====
-- No response of `modbus_reply` is longer than the backend's largest frame.
use libmodbus.Base.{
  ℕ, ◌+◌, ◌-◌, ◌*◌, ◌≤◌, ◌≡◌, refl, arith, List, length, length-append, length-take, ◌∷◌, [], ◌++◌,
  some, Bool, true, false, ◌⊎◌, inl, inr, byte_at, ◌%◌,
}
use libmodbus.Context.{Backend, rtu, tcp, Sft}
use libmodbus.Backend.{header_length, checksum_length, max_adu_length, build_response_basis}
use libmodbus.Lengths.{word_at, byte_count, compute_response_length_from_request}
use libmodbus.Mapping.{Mapping}
use libmodbus.Reply.{
  Answer, response_exception, store_registers, reply_read_bits, reply_read_registers,
  reply_write_bit, reply_write_register, reply_write_bits, reply_write_registers,
  reply_report_slave_id, reply_mask_write_register, reply_write_and_read_registers, dispatch,
  respond, request_sft, request_address, request_function,
}
use libmodbus.Reply.Answers.{
  length-build_response_basis, length-response_exception, length-response_io_status,
  length-register_bytes, echo_four-le,
}

-- The response with its checksum fits a frame of the backend.
abbrev pub Fits : Backend → Answer → Type 0
Fits backend a = length a.rsp + checksum_length backend ≤ max_adu_length backend

pub largest_pdu : (b : Backend) → max_adu_length b ≡ header_length b + checksum_length b + 253
largest_pdu rtu = refl
largest_pdu tcp = refl

-- The single writes and the mask write are answered by an echo of a fixed length.
pub single_write_length :
    (backend : Backend) (req : List ℕ)
    → (byte_at req (header_length backend) ≡ 5) ⊎ (byte_at req (header_length backend) ≡ 6)
    → compute_response_length_from_request backend req
      ≡ some (header_length backend + 5 + checksum_length backend)
unfolding compute_response_length_from_request
single_write_length backend req (inl e) = rw e refl
single_write_length backend req (inr e) = rw e refl

pub mask_write_length :
    (backend : Backend) (req : List ℕ)
    → byte_at req (header_length backend) ≡ 22
    → compute_response_length_from_request backend req
      ≡ some (header_length backend + 7 + checksum_length backend)
unfolding compute_response_length_from_request
mask_write_length backend req e = rw e refl

module _ (backend : Backend) (sft : Sft) (req : List ℕ) (req_length address : ℕ) (m : Mapping) where
  Fits-of_length : (a : Answer) → length a.rsp ≤ header_length backend + 253 → Fits backend a
  Fits-of_length a h = omega (arith, largest_pdu backend)

  exception-Fits :
      (code : ℕ) (to_flush : Bool) → Fits backend (response_exception backend sft code to_flush m)
  exception-Fits code to_flush =
      omega (arith, largest_pdu backend, length-response_exception backend sft code to_flush m)

  with_body :
      (x : ℕ) → length (build_response_basis backend sft ++ x ∷ []) ≡ header_length backend + 2
  with_body x = omega (
    arith,
    length-append (build_response_basis backend sft) (x ∷ []),
    length-build_response_basis backend sft,
  )

  reply_read_bits-Fits :
      (start nb_bits : ℕ) (tab : List ℕ)
      → Fits backend (reply_read_bits backend sft req req_length address m start nb_bits tab)
  unfolding reply_read_bits
  reply_read_bits-Fits start nb_bits tab =
      let nb : ℕ = word_at req (header_length backend + 3) in
      ground (
        arith,
        exception-Fits 3 true,
        exception-Fits 2 false,
        largest_pdu backend,
        with_body (byte_count nb % 256),
        length-response_io_status tab (address - start) nb
            (build_response_basis backend sft ++ byte_count nb % 256 ∷ []),
      )

  reply_read_registers-Fits :
      (start nb_registers : ℕ) (tab : List ℕ)
      → Fits backend
          (reply_read_registers backend sft req req_length address m start nb_registers tab)
  unfolding reply_read_registers
  reply_read_registers-Fits start nb_registers tab =
      let nb : ℕ = word_at req (header_length backend + 3) in
      ground (
        arith,
        exception-Fits 3 true,
        exception-Fits 2 false,
        largest_pdu backend,
        with_body (nb * 2 % 256),
        length-register_bytes nb (address - start) tab
            (build_response_basis backend sft ++ nb * 2 % 256 ∷ []),
      )

  reply_write_bit-Fits :
      byte_at req (header_length backend) ≡ 5
      → Fits backend (reply_write_bit backend sft req req_length address m)
  unfolding reply_write_bit
  reply_write_bit-Fits e = ground (
    arith,
    exception-Fits 3 false,
    exception-Fits 2 false,
    largest_pdu backend,
    single_write_length backend req (inl e),
    length-take (req_length - checksum_length backend) req,
  )

  reply_write_register-Fits :
      byte_at req (header_length backend) ≡ 6
      → Fits backend (reply_write_register backend sft req req_length address m)
  unfolding reply_write_register
  reply_write_register-Fits e = ground (
    arith,
    exception-Fits 3 false,
    exception-Fits 2 false,
    largest_pdu backend,
    single_write_length backend req (inr e),
    length-take (req_length - checksum_length backend) req,
  )

  reply_write_bits-Fits : Fits backend (reply_write_bits backend sft req req_length address m)
  unfolding reply_write_bits
  reply_write_bits-Fits = ground (
    arith,
    exception-Fits 3 true,
    exception-Fits 2 false,
    largest_pdu backend,
    echo_four-le backend sft req req_length address m,
  )

  reply_write_registers-Fits :
      Fits backend (reply_write_registers backend sft req req_length address m)
  unfolding reply_write_registers
  reply_write_registers-Fits = ground (
    arith,
    exception-Fits 3 true,
    exception-Fits 2 false,
    largest_pdu backend,
    echo_four-le backend sft req req_length address m,
  )

  reply_report_slave_id-Fits :
      (version : List ℕ)
      → length version ≤ 246
      → Fits backend (reply_report_slave_id backend sft req req_length address m version)
  unfolding reply_report_slave_id
  reply_report_slave_id-Fits version h =
      let body : List ℕ = 180 ∷ 0xff ∷ 0x4c ∷ 0x4d ∷ 0x42 ∷ version in
      omega (
        arith,
        largest_pdu backend,
        length-append (build_response_basis backend sft) (length body % 256 ∷ body),
        length-build_response_basis backend sft,
      )

  reply_mask_write_register-Fits :
      byte_at req (header_length backend) ≡ 22
      → Fits backend (reply_mask_write_register backend sft req req_length address m)
  unfolding reply_mask_write_register
  reply_mask_write_register-Fits e = ground (
    arith,
    exception-Fits 3 false,
    exception-Fits 2 false,
    largest_pdu backend,
    mask_write_length backend req e,
    length-take (req_length - checksum_length backend) req,
  )

  reply_write_and_read_registers-Fits :
      Fits backend (reply_write_and_read_registers backend sft req req_length address m)
  unfolding reply_write_and_read_registers
  reply_write_and_read_registers-Fits =
      let nb : ℕ = word_at req (header_length backend + 3) in
      ground (
        arith,
        exception-Fits 3 true,
        exception-Fits 2 false,
        largest_pdu backend,
        with_body (nb * 2 % 256),
        length-register_bytes nb (address - m.start_registers)
            (store_registers (word_at req (header_length backend + 7))
              (word_at req (header_length backend + 5) % 65536 - m.start_registers)
              (header_length backend + 10) req m.tab_registers)
            (build_response_basis backend sft ++ nb * 2 % 256 ∷ []),
      )

  dispatch-Fits :
      (version : List ℕ) (function : ℕ)
      → length version ≤ 246
      → byte_at req (header_length backend) ≡ function
      → Fits backend (dispatch backend sft req req_length address m version function)
  unfolding dispatch
  dispatch-Fits version function h e = ground (
    arith,
    reply_read_bits-Fits m.start_bits m.nb_bits m.tab_bits,
    reply_read_bits-Fits m.start_input_bits m.nb_input_bits m.tab_input_bits,
    reply_read_registers-Fits m.start_registers m.nb_registers m.tab_registers,
    reply_read_registers-Fits m.start_input_registers m.nb_input_registers m.tab_input_registers,
    reply_write_bit-Fits,
    reply_write_register-Fits,
    reply_write_bits-Fits,
    reply_write_registers-Fits,
    reply_report_slave_id-Fits version,
    reply_mask_write_register-Fits,
    reply_write_and_read_registers-Fits,
    exception-Fits 1 true,
  )

-- Whatever the request and the mapping, the response that `modbus_reply` builds fits, with its
-- checksum, the largest frame of its backend, and so the buffer of 260 bytes; the version string of
-- the build is taken to have at most 246 bytes.
pub respond-Fits :
    (version : List ℕ) (backend : Backend) (req : List ℕ) (req_length : ℕ) (m : Mapping)
    (answer : Answer)
    → length version ≤ 246
    → respond version backend req req_length m ≡ some answer
    → Fits backend answer
unfolding respond
respond-Fits version backend req req_length m answer h e = ground (
  arith,
  dispatch-Fits backend (request_sft backend req) req req_length
      (request_address backend req req_length) m version (request_function backend req) h refl,
  exception-Fits backend (request_sft backend req) req req_length 0 m 3 true,
)
