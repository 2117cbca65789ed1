-- ===== src/Reply.antt =====
-- `modbus_reply` of src/modbus.c: one function for each case of its switch.
-- The response buffer is the list of the bytes written so far.
pub mod Answers
pub mod Packed
pub mod Bounds
pub mod Prefix
pub mod Effects
pub mod Served
pub mod Header
pub mod Front
pub mod Verdict
pub mod Guards
pub mod Kept
use libmodbus.Base.{
  ℕ, zero, suc, ◌+◌, ◌-◌, ◌*◌, ◌/◌, ◌%◌, ◌^◌, bit_and, bit_or, Bool, true, false, ◌&&◌, ◌||◌, ltb,
  leb, ◌==◌, not, if◌then◌else◌, Option, none, some, List, [], ◌∷◌, ◌++◌, byte_at, set, length,
  take, drop,
}
use libmodbus.Context
use libmodbus.Context.{
  Backend, rtu, tcp, Modbus, Sft, Action, sleep, flush, Result, ok, err, pending, Run, embbaddata,
  indication, has_flag, broadcast_address, quirk_reply_to_broadcast, einval, exception_max,
}
use libmodbus.Backend.{header_length, checksum_length, build_response_basis, get_response_tid}
use libmodbus.Lengths.{
  word_at, byte_count, compute_response_length_from_request, compute_meta_length_after_function,
  compute_data_length_after_meta,
}
use libmodbus.Data.{set_bits_from_bytes}
use libmodbus.Mapping.{Mapping}
use libmodbus.Send.{SendOutcome, send_msg}

-- What a case of the switch leaves: the response, what was done to the line, and the mapping.
pub record Answer : Type 0 where
  pub rsp : List ℕ
  pub actions : List Action
  pub mapping : Mapping

-- `response_exception`: `sft->function` is raised by 0x80; `to_flush` first waits and flushes.
unfoldable pub response_exception : Backend → Sft → ℕ → Bool → Mapping → Answer
response_exception backend sft exception_code to_flush m = record {
  rsp =
      build_response_basis backend (record sft { function = sft.function + 0x80 })
      ++ exception_code % 256 ∷ [];
  actions = if to_flush then sleep ∷ flush ∷ [] else [];
  mapping = m;
}

-- `rsp_length != req_length`, negated; the length is undefined for no case that asks.
abbrev pub is_length : Option ℕ → ℕ → Bool
is_length none n = false
is_length (some k) n = k == n

-- The loop of `response_io_status`, with `n` rounds left.
unfoldable pub io_status_loop : ℕ → ℕ → List ℕ → ℕ → ℕ → List ℕ → List ℕ
io_status_loop zero i tab shift one_byte rsp =
    if shift == 0 then rsp else rsp ++ one_byte % 256 ∷ []
io_status_loop (suc n) i tab shift one_byte rsp =
    let one_byte' = bit_or one_byte (byte_at tab i * 2 ^ shift) in
    let full = shift == 7 in
    io_status_loop n (i + 1) tab (if full then 0 else shift + 1) (if full then 0 else one_byte')
      (if full then rsp ++ one_byte' % 256 ∷ [] else rsp)

unfoldable pub response_io_status : List ℕ → ℕ → ℕ → List ℕ → List ℕ
response_io_status tab address nb rsp = io_status_loop nb address tab 0 0 rsp

-- `for (i = mapping_address; …) { rsp[…] = tab[i] >> 8; rsp[…] = tab[i] & 0xFF; }`
unfoldable pub register_bytes : ℕ → ℕ → List ℕ → List ℕ → List ℕ
register_bytes zero i tab rsp = rsp
register_bytes (suc n) i tab rsp =
    register_bytes n (i + 1) tab
      (rsp ++ byte_at tab i / 256 % 256 ∷ bit_and (byte_at tab i) 0xff ∷ [])

-- The loops that store the words from `req[offset + j]` on into the registers from `i` on.
unfoldable pub store_registers : ℕ → ℕ → ℕ → List ℕ → List ℕ → List ℕ
store_registers zero i j req tab = tab
store_registers (suc n) i j req tab =
    store_registers n (i + 1) (j + 2) req (set tab i (word_at req j % 65536))

module _ (backend : Backend) (sft : Sft) (req : List ℕ) (req_length address : ℕ) (m : Mapping) where
  -- MODBUS_FC_READ_COILS and MODBUS_FC_READ_DISCRETE_INPUTS
  unfoldable pub reply_read_bits : ℕ → ℕ → List ℕ → Answer
  reply_read_bits start_bits nb_bits tab_bits =
      let nb = word_at req (header_length backend + 3) in
      let mapping_address = address - start_bits in
      if ltb nb 1 || ltb Context.max_read_bits nb
      then response_exception backend sft Context.illegal_data_value true m
      else if ltb address start_bits || ltb nb_bits (mapping_address + nb)
      then response_exception backend sft Context.illegal_data_address false m
      else record {
        rsp =
            response_io_status tab_bits mapping_address nb
              (build_response_basis backend sft ++ byte_count nb % 256 ∷ []);
        actions = [];
        mapping = m;
      }

  -- MODBUS_FC_READ_HOLDING_REGISTERS and MODBUS_FC_READ_INPUT_REGISTERS
  unfoldable pub reply_read_registers : ℕ → ℕ → List ℕ → Answer
  reply_read_registers start_registers nb_registers tab_registers =
      let nb = word_at req (header_length backend + 3) in
      let mapping_address = address - start_registers in
      if ltb nb 1 || ltb Context.max_read_registers nb
      then response_exception backend sft Context.illegal_data_value true m
      else if ltb address start_registers || ltb nb_registers (mapping_address + nb)
      then response_exception backend sft Context.illegal_data_address false m
      else record {
        rsp =
            register_bytes nb mapping_address tab_registers
              (build_response_basis backend sft ++ nb * 2 % 256 ∷ []);
        actions = [];
        mapping = m;
      }

  -- MODBUS_FC_WRITE_SINGLE_COIL
  unfoldable pub reply_write_bit : Answer
  reply_write_bit =
      let mapping_address = address - m.start_bits in
      let data_word = word_at req (header_length backend + 3) in
      if ltb address m.start_bits || leb m.nb_bits mapping_address
      then response_exception backend sft Context.illegal_data_address false m
      else if not (is_length (compute_response_length_from_request backend req) req_length)
      then response_exception backend sft Context.illegal_data_value false m
      else if data_word == 0xff00 || data_word == 0
      then record {
        rsp = take (req_length - checksum_length backend) req;
        actions = [];
        mapping = record m {
          tab_bits = set m.tab_bits mapping_address (if data_word == 0 then 0 else 1);
        };
      }
      else response_exception backend sft Context.illegal_data_value false m

  -- MODBUS_FC_WRITE_SINGLE_REGISTER
  unfoldable pub reply_write_register : Answer
  reply_write_register =
      let mapping_address = address - m.start_registers in
      let data_word = word_at req (header_length backend + 3) in
      if ltb address m.start_registers || leb m.nb_registers mapping_address
      then response_exception backend sft Context.illegal_data_address false m
      else if not (is_length (compute_response_length_from_request backend req) req_length)
      then response_exception backend sft Context.illegal_data_value false m
      else record {
        rsp = take (req_length - checksum_length backend) req;
        actions = [];
        mapping = record m {
          tab_registers = set m.tab_registers mapping_address (data_word % 65536);
        };
      }

  -- The bytes `req[rsp_length]` to `req[rsp_length + 3]` that are copied behind the basis.
  abbrev pub echo_four : List ℕ
  echo_four =
      let basis = build_response_basis backend sft in basis ++ take 4 (drop (length basis) req)

  -- MODBUS_FC_WRITE_MULTIPLE_COILS
  unfoldable pub reply_write_bits : Answer
  reply_write_bits =
      let offset = header_length backend in
      let nb = word_at req (offset + 3) in
      let nb_bits = byte_at req (offset + 5) in
      let mapping_address = address - m.start_bits in
      if ltb nb 1 || ltb Context.max_write_bits nb || ltb (nb_bits * 8) nb
      then response_exception backend sft Context.illegal_data_value true m
      else if ltb address m.start_bits || ltb m.nb_bits (mapping_address + nb)
      then response_exception backend sft Context.illegal_data_address false m
      else record {
        rsp = echo_four;
        actions = [];
        mapping = record m {
          tab_bits = set_bits_from_bytes m.tab_bits mapping_address nb (drop (offset + 6) req);
        };
      }

  -- MODBUS_FC_WRITE_MULTIPLE_REGISTERS
  unfoldable pub reply_write_registers : Answer
  reply_write_registers =
      let offset = header_length backend in
      let nb = word_at req (offset + 3) in
      let nb_bytes = byte_at req (offset + 5) in
      let mapping_address = address - m.start_registers in
      if ltb nb 1 || ltb Context.max_write_registers nb || not (nb_bytes == nb * 2)
      then response_exception backend sft Context.illegal_data_value true m
      else if ltb address m.start_registers || ltb m.nb_registers (mapping_address + nb)
      then response_exception backend sft Context.illegal_data_address false m
      else record {
        rsp = echo_four;
        actions = [];
        mapping = record m {
          tab_registers = store_registers nb mapping_address (offset + 6) req m.tab_registers;
        };
      }

  -- MODBUS_FC_REPORT_SLAVE_ID; `version` is LIBMODBUS_VERSION_STRING, set by the build.
  unfoldable pub reply_report_slave_id : List ℕ → Answer
  reply_report_slave_id version =
      let body = 180 ∷ 0xff ∷ 0x4c ∷ 0x4d ∷ 0x42 ∷ version in
      record {
        rsp = build_response_basis backend sft ++ length body % 256 ∷ body;
        actions = [];
        mapping = m;
      }

  -- MODBUS_FC_MASK_WRITE_REGISTER
  unfoldable pub reply_mask_write_register : Answer
  reply_mask_write_register =
      let offset = header_length backend in
      let mapping_address = address - m.start_registers in
      let and_mask = word_at req (offset + 3) in
      let or_mask = word_at req (offset + 5) in
      let word = byte_at m.tab_registers mapping_address in
      if ltb address m.start_registers || leb m.nb_registers mapping_address
      then response_exception backend sft Context.illegal_data_address false m
      else if not (is_length (compute_response_length_from_request backend req) req_length)
      then response_exception backend sft Context.illegal_data_value false m
      else record {
        rsp = take (req_length - checksum_length backend) req;
        actions = [];
        mapping = record m {
          tab_registers =
              set m.tab_registers mapping_address
                (bit_or (bit_and word and_mask) (bit_and or_mask (65535 - and_mask)) % 65536);
        };
      }

  -- MODBUS_FC_WRITE_AND_READ_REGISTERS: the write comes first.
  unfoldable pub reply_write_and_read_registers : Answer
  reply_write_and_read_registers =
      let offset = header_length backend in
      let nb = word_at req (offset + 3) in
      let address_write = word_at req (offset + 5) % 65536 in
      let nb_write = word_at req (offset + 7) in
      let nb_write_bytes = byte_at req (offset + 9) in
      let mapping_address = address - m.start_registers in
      let mapping_address_write = address_write - m.start_registers in
      if ltb nb_write 1
        || ltb Context.max_wr_write_registers nb_write
        || (ltb nb 1
            || ltb Context.max_wr_read_registers nb
            || not (nb_write_bytes == nb_write * 2))
      then response_exception backend sft Context.illegal_data_value true m
      else if ltb address m.start_registers
          || ltb m.nb_registers (mapping_address + nb)
          || (ltb address_write m.start_registers
              || ltb m.nb_registers (mapping_address_write + nb_write))
      then response_exception backend sft Context.illegal_data_address false m
      else let tab =
          store_registers nb_write mapping_address_write (offset + 10) req m.tab_registers in
        record {
          rsp =
              register_bytes nb mapping_address tab
                (build_response_basis backend sft ++ nb * 2 % 256 ∷ []);
          actions = [];
          mapping = record m { tab_registers = tab };
        }

  -- The switch on the function code.
  unfoldable pub dispatch : List ℕ → ℕ → Answer
  dispatch version function =
      if function == Context.fc_read_coils
      then reply_read_bits m.start_bits m.nb_bits m.tab_bits
      else if function == Context.fc_read_discrete_inputs
      then reply_read_bits m.start_input_bits m.nb_input_bits m.tab_input_bits
      else if function == Context.fc_read_holding_registers
      then reply_read_registers m.start_registers m.nb_registers m.tab_registers
      else if function == Context.fc_read_input_registers
      then reply_read_registers m.start_input_registers m.nb_input_registers m.tab_input_registers
      else if function == Context.fc_write_single_coil
      then reply_write_bit
      else if function == Context.fc_write_single_register
      then reply_write_register
      else if function == Context.fc_write_multiple_coils
      then reply_write_bits
      else if function == Context.fc_write_multiple_registers
      then reply_write_registers
      else if function == Context.fc_report_slave_id
      then reply_report_slave_id version
      else if function == Context.fc_read_exception_status
      then response_exception backend sft Context.illegal_function true m
      else if function == Context.fc_mask_write_register
      then reply_mask_write_register
      else if function == Context.fc_write_and_read_registers
      then reply_write_and_read_registers
      else response_exception backend sft Context.illegal_function true m

abbrev pub request_slave : Backend → List ℕ → ℕ
request_slave backend req = byte_at req (header_length backend - 1)

abbrev pub request_function : Backend → List ℕ → ℕ
request_function backend req = byte_at req (header_length backend)

-- The address field, or 0 where the request has none.
abbrev pub request_address : Backend → List ℕ → ℕ → ℕ
request_address backend req req_length =
    let offset = header_length backend in
    if leb (offset + 3) req_length then word_at req (offset + 1) % 65536 else 0

abbrev pub request_sft : Backend → List ℕ → Sft
request_sft backend req = record {
  slave = request_slave backend req;
  function = request_function backend req;
  t_id = get_response_tid backend req;
}

-- The length that the function code and the byte count of a request ask for.
unfoldable pub required_length : Backend → List ℕ → ℕ → ℕ
required_length backend req req_length =
    let offset = header_length backend in
    let meta_length =
      compute_meta_length_after_function (request_function backend req) indication in
    let data_length =
      if leb (offset + 1 + meta_length) req_length
      then compute_data_length_after_meta backend req indication
      else 0 in
    offset + 1 + meta_length + data_length

-- `modbus_reply` up to its two calls of `send_msg`: `none` is a request with no function code.
unfoldable pub respond : List ℕ → Backend → List ℕ → ℕ → Mapping → Option Answer
respond version backend req req_length m =
    if ltb req_length (header_length backend + 1)
    then none
    else if ltb req_length (required_length backend req req_length)
    then some
        (response_exception backend (request_sft backend req) Context.illegal_data_value true m)
    else some (
        dispatch backend (request_sft backend req) req req_length
          (request_address backend req req_length) m version (request_function backend req))

-- A broadcast over RTU gets no response, unless the quirk asks for one.
unfoldable pub is_suppressed : Modbus → List ℕ → Bool
is_suppressed ctx req = elim ctx.backend [
  | tcp ↦ false
  | rtu ↦
      request_slave rtu req == broadcast_address
      && not (has_flag ctx.quirks quirk_reply_to_broadcast)
]

-- `modbus_reply`, with the mapping after it. `outcomes` are the results of the calls of `send`.
unfoldable pub reply : List ℕ → Modbus → List ℕ → ℕ → Mapping → List SendOutcome → Mapping × Run ℕ
reply version ctx req req_length m outcomes = elim (respond version ctx.backend req req_length m) [
  | none ↦ (m, ([], err embbaddata))
  | some answer ↦
      let (sent, r) = send_msg ctx answer.rsp outcomes in
      if is_suppressed ctx req
      then (answer.mapping, (answer.actions, ok 0))
      else (answer.mapping, (answer.actions ++ sent, r))
]

unfoldable pub reply_exception : Modbus → List ℕ → ℕ → List SendOutcome → Run ℕ
reply_exception ctx req exception_code outcomes =
    let sft =
      let s : Sft = record (request_sft ctx.backend req) {
        function = request_function ctx.backend req + 0x80;
      } in
      s in
    if ltb exception_code exception_max
    then send_msg ctx (build_response_basis ctx.backend sft ++ exception_code % 256 ∷ []) outcomes
    else ([], err einval)
