-- ===== src/Client/Reading.antt =====
-- A request for a number of entries, and a response that holds a byte count and its data: what the
-- two ends make of the pair, for each of the four reading functions.
use libmodbus.Base.{
  ℕ, suc, ◌+◌, ◌-◌, ◌≤◌, ◌<◌, ◌≡◌, refl, sym, ap, ◌∙◌, arith, true, ==_iff, List, [], ◌∷◌, ◌++◌,
  byte_at, length, length-append, some, bit_and-255, pos,
}
use libmodbus.Context.{Backend, Modbus, Sft, Errno, transmit, ok, confirmation}
use libmodbus.Backend.{
  header_length, checksum_length, build_request_basis, build_response_basis, send_msg_pre, next_tid,
}
use libmodbus.Lengths.{
  word_at, word_or_at, compute_meta_length_after_function, compute_data_length_after_meta,
  compute_response_length_from_request,
}
use libmodbus.Mapping.{Mapping}
use libmodbus.Send.{sends}
use libmodbus.Receive.{bytes}
use libmodbus.Receive.Framing.{frame_length}
use libmodbus.Reply.{Answer, required_length, reply, dispatch}
use libmodbus.Reply.Served.{respond-message, reply-some}
use libmodbus.Confirm.{check_confirmation, expected_echo}
use libmodbus.Confirm.Accepts.{check_confirmation-ok}
use libmodbus.Client.{word_bytes, exchange}
use libmodbus.Client.Messages.{
  built_plain, back, carried, message, length-message, slave-message, function-message,
  byte_at-message, word_at-message, length-back, word_at-word_bytes, send_msg_pre-front,
  pre_check-message, over, asked,
}
use libmodbus.Reply.Bounds.{largest_pdu}
use libmodbus.Client.Words.{word_or_at-eq-word_at}
use libmodbus.Client.Answered.{response_is, exchange-message}

module _ (b : Backend) (slave t function addr nb : ℕ) (hf : function ≤ 4) (ha : addr < 65536)
    (hi : nb < 65536) where
  abbrev pub request : List ℕ
  request = message b slave t 0 function (word_bytes addr ++ word_bytes nb)

  abbrev pub fields : List ℕ
  fields = word_bytes addr ++ (word_bytes nb ++ back b request)

  abbrev pub sent : List ℕ
  sent = message b slave t (length request - 6) function fields

  abbrev pub sft : Sft
  sft = record { slave = slave; function = function; t_id = carried b t }

  pub sent_is : send_msg_pre b request ≡ sent
  sent_is = send_msg_pre-front b slave t function (word_bytes addr ++ word_bytes nb)

  pub quantity :
      (n : ℕ) (rest : List ℕ)
      → word_at
          (message b slave t n function (word_bytes addr ++ (word_bytes nb ++ rest)))
          (header_length b + 3)
        ≡ nb
  quantity n rest =
      word_at-message slave t n function (word_bytes addr ++ (word_bytes nb ++ rest)) b 2
        (header_length b + 3) (omega arith)
      ∙ word_at-word_bytes nb rest hi

  pub request_word : word_or_at request (header_length b + 3) ≡ nb
  request_word =
      word_or_at-eq-word_at request (header_length b + 3) (
        omega (
          arith,
          byte_at-message slave t 0 function (word_bytes addr ++ word_bytes nb) b 3
              (header_length b + 3 + 1) (omega arith),
          bit_and-255 nb,
        ))
      ∙ quantity 0 []

  pub request_function : byte_at request (header_length b) ≡ function
  request_function = function-message slave t 0 function (word_bytes addr ++ word_bytes nb) b

  -- The data that the response holds.
  module _ (count : ℕ) (payload : List ℕ) (counts : length payload ≡ count) (fits : count ≤ 250)
      (m : Mapping) where
    abbrev pub answer : Answer
    answer = record {
      rsp = build_response_basis b sft ++ count ∷ payload;
      actions = [];
      mapping = m;
    }

    abbrev pub tail : List ℕ
    tail = back b answer.rsp

    abbrev pub response : List ℕ
    response = message b slave t (length answer.rsp - 6) function (count ∷ (payload ++ tail))

    length-response : length response ≡ header_length b + 2 + count + checksum_length b
    length-response = omega (
      arith,
      length-message slave t (length answer.rsp - 6) function (count ∷ (payload ++ tail)) b,
      length-append payload tail,
      length-back b answer.rsp,
    )

    -- The byte count of the response, and its data.
    pub counted : byte_at response (header_length b + 1) ≡ count
    counted =
        byte_at-message slave t (length answer.rsp - 6) function (count ∷ (payload ++ tail)) b 0
          (header_length b + 1) (omega arith)

    pub payload_at :
        (k : ℕ) → byte_at response (header_length b + 2 + k) ≡ byte_at (payload ++ tail) k
    payload_at k =
        byte_at-message slave t _ function (count ∷ (payload ++ tail)) b (suc k)
          (header_length b + 2 + k) (omega arith)

    function_back : byte_at response (header_length b) ≡ function
    function_back =
        function-message slave t (length answer.rsp - 6) function (count ∷ (payload ++ tail)) b

    framed : frame_length b confirmation response ≡ length response
    unfolding frame_length compute_meta_length_after_function compute_data_length_after_meta
    framed = rw (function_back, counted) (ground (arith, length-response))

    accepted :
        (ctx : Modbus) (n : ℕ)
        → compute_response_length_from_request b request
          ≡ some (header_length b + (2 + count) + checksum_length b)
        → expected_echo (header_length b) function request response
          ≡ record { req_nb_value = n; rsp_nb_value = n; fields_ok = true }
        → check_confirmation (over b ctx) request response (length response) ≡ ([], ok n)
    accepted ctx n computed echo =
        check_confirmation-ok (over b ctx) request response (length response) n
          (pre_check-message b slave t 0 (length answer.rsp - 6) function function _
            (count ∷ (payload ++ tail)))
          (omega (arith, function_back)) (request_function ∙ sym function_back)
          (rw (computed, length-response) ((==_iff _ _).1 (omega arith))) (rw function_back echo)

    -- The server's side of the exchange.
    pub server_side :
        (version : List ℕ) (server : Modbus)
        → 1 ≤ slave
        → slave < 256
        → t < 65536
        → dispatch b sft sent (length sent) addr m version function ≡ answer
        → reply version (over b server) sent (length sent) m (sends (length response) ∷ [])
          ≡ (m, (transmit response ∷ [], ok (length response)))
    unfolding required_length compute_meta_length_after_function compute_data_length_after_meta
    server_side version server own hs ht switch =
        rw
          (sym (
            response_is b slave t function (word_bytes addr ++ word_bytes nb) (count ∷ payload) hs
              (omega arith)))
          (reply-some version b server sent (length sent) m answer
            (respond-message b slave t (length request - 6) function addr nb (back b request) m
                version ha ht whole
              ∙ ap some switch)
            (rw (slave-message slave t (length request - 6) function fields b) own) refl)
      where
        whole : required_length b sent (length sent) ≤ length sent
        whole =
            let f = function-message slave t (length request - 6) function fields b in
            ground (
              arith,
              length-message slave t (length request - 6) function fields b,
              length-back b request,
              f,
            )

    -- The client's side of it.
    pub client_side :
        (client : Modbus) (errno : Errno) (k n : ℕ) (use_rsp : List ℕ → ℕ → List ℕ)
        → client.slave ≡ pos slave
        → slave < 256
        → client.s ≡ pos k
        → k < 1024
        → compute_response_length_from_request b request
          ≡ some (header_length b + (2 + count) + checksum_length b)
        → expected_echo (header_length b) function request response
          ≡ record { req_nb_value = n; rsp_nb_value = n; fields_ok = true }
        → let frame = send_msg_pre b request in
          exchange
            (over b client)
            errno
            request
            (sends (length frame) ∷ [])
            (bytes response ∷ [])
            use_rsp
          ≡ (transmit frame ∷ [], ok (n, use_rsp response n))
    client_side client errno k n use_rsp own hs e h computed echo = rw sent_is (
        exchange-message b slave t function (word_bytes addr ++ word_bytes nb) (count ∷ payload) hs
          (omega arith) client errno k n use_rsp own e h framed
          (omega (arith, length-response, largest_pdu b)) (accepted client n computed echo))

pub same_backend : (b : Backend) (server : Modbus) → server.backend ≡ b → server ≡ over b server
same_backend b server e = ap (λ b. over b server) e

pub next_tid-lt : (t : ℕ) → t < 65536 → next_tid t < 65536
unfolding next_tid
next_tid-lt t h = ground arith

-- The request as the client builds it.
pub built :
    (b : Backend) (client : Modbus) (slave function addr nb : ℕ) (hf : function ≤ 4)
    (ha : addr < 65536) (hi : nb < 65536)
    → client.slave ≡ pos slave
    → slave < 256
    → build_request_basis (over b client) function addr nb
      ≡ (asked b client, request b slave (next_tid client.t_id) function addr nb hf ha hi)
built b client slave function addr nb hf ha hi own hs =
    built_plain b client slave function addr nb own hs (omega arith)
