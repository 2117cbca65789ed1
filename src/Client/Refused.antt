-- ===== src/Client/Refused.antt =====
-- A request that begins with an address and a word, and the exception that refuses it: what the two
-- ends make of the pair, for any function code and any data behind those fields.
use libmodbus.Base.{
  ℕ, ◌+◌, ◌-◌, ◌≤◌, ◌<◌, ◌≡◌, refl, sym, ap, ◌∙◌, arith, true, false, leb, ltb, ==_iff, List, [],
  ◌∷◌, ◌++◌, byte_at, length, some, pos,
}
use libmodbus.Context.{
  Backend, Modbus, Errno, transmit, ok, err, emb, confirmation, illegal_data_address,
}
use libmodbus.Backend.{header_length, checksum_length, pre_check_confirmation}
use libmodbus.Lengths.{word_at, compute_meta_length_after_function, compute_data_length_after_meta}
use libmodbus.Mapping.{Mapping}
use libmodbus.Send.{sends}
use libmodbus.Receive.{bytes}
use libmodbus.Receive.Framing.{frame_length}
use libmodbus.Reply.{required_length, response_exception, reply, dispatch}
use libmodbus.Reply.Bounds.{largest_pdu}
use libmodbus.Reply.Served.{respond-message, reply-some}
use libmodbus.Confirm.{check_body, check_confirmation}
use libmodbus.Confirm.Accepts.{pre_checked}
use libmodbus.Client.{word_bytes, exchange}
use libmodbus.Client.Messages.{
  back, length-message, slave-message, function-message, byte_at-message, word_at-message,
  length-back, word_at-word_bytes, pre_check-message, over, asked,
}
use libmodbus.Client.Exchange.{exchange-err}
use libmodbus.Client.Answered.{request, sent, sent_is, answer, response, sft, response_is, intact}

-- An exception that answers the request's function is returned as its error.
check_confirmation-exception :
    (ctx : Modbus) (req rsp : List ℕ) (function code : ℕ)
    → let offset = header_length ctx.backend in
      pre_check_confirmation ctx.backend req rsp ≡ ok 0
      → byte_at req offset ≡ function
      → byte_at rsp offset ≡ function + 128
      → byte_at rsp (offset + 1) ≡ code
      → code < 12
      → length rsp ≡ offset + 2 + checksum_length ctx.backend
      → check_confirmation ctx req rsp (length rsp) ≡ ([], err (emb code))
unfolding check_confirmation check_body
check_confirmation-exception ctx req rsp function code pre asked raised holds known whole =
    let high : leb 128 (function + 128) ≡ true = ground arith in
    let back : function + 128 - 128 ≡ function = omega arith in
    let small : ltb code 12 ≡ true = ground arith in
    pre_checked (pre_check_confirmation ctx.backend req rsp) (check_body ctx req rsp (length rsp)) _
      pre
    ∙ rw
        (
          raised,
          high,
          whole,
          (==_iff _ (header_length ctx.backend + 2 + checksum_length ctx.backend)).1 refl,
          asked,
          back,
          (==_iff function function).1 refl,
          holds,
          small,
        )
        refl

module _ (b : Backend) (slave t function addr value : ℕ) (more : List ℕ) (hs : slave < 256)
    (hf : function < 128) where
  abbrev pub fields : List ℕ
  fields = word_bytes addr ++ (word_bytes value ++ more)

  abbrev pub frame : List ℕ
  frame = sent b slave t function fields []

  -- The exception, with the code of an address that the server does not have.
  abbrev body : List ℕ
  body = illegal_data_address ∷ []

  abbrev pub exception : List ℕ
  exception = response b slave t (function + 128) fields body

  pub asked_for : value < 65536 → word_at frame (header_length b + 3) ≡ value
  asked_for small =
      word_at-message slave t _ function (fields ++ back b (request b slave t function fields [])) b
        2 (header_length b + 3) (omega arith)
      ∙ word_at-word_bytes value (more ++ back b (request b slave t function fields [])) small

  length-exception : length exception ≡ header_length b + 2 + checksum_length b
  length-exception = omega (
    arith,
    length-message slave t _ (function + 128)
        (body ++ back b (answer b slave t (function + 128) fields body)) b,
    length-back b (answer b slave t (function + 128) fields body),
  )

  raised : byte_at exception (header_length b) ≡ function + 128
  raised = function-message slave t _ (function + 128) _ b

  framed : frame_length b confirmation exception ≡ length exception
  unfolding frame_length compute_meta_length_after_function compute_data_length_after_meta
  framed = rw raised (ground (arith, length-exception))

  refused :
      (ctx : Modbus)
      → check_confirmation
          (over b ctx)
          (request b slave t function fields [])
          exception
          (length exception)
        ≡ ([], err (emb illegal_data_address))
  refused ctx =
      check_confirmation-exception (over b ctx) (request b slave t function fields []) exception
        function 2 (pre_check-message b slave t 0 _ function (function + 128) fields _)
        (function-message slave t 0 function fields b) raised
        (byte_at-message slave t _ (function + 128) _ b 0 (header_length b + 1) (omega arith))
        (omega arith) length-exception

  pub client_side :
      (client : Modbus) (errno : Errno) (k : ℕ) (use_rsp : List ℕ → ℕ → List ℕ)
      → client.slave ≡ pos slave
      → client.s ≡ pos k
      → k < 1024
      → exchange
          (over b client)
          errno
          (request b slave t function fields [])
          (sends (length frame) ∷ [])
          (bytes exception ∷ [])
          use_rsp
        ≡ (transmit frame ∷ [], err (emb illegal_data_address))
  client_side client errno k use_rsp own e h = rw (sym (sent_is b slave t function fields [])) (
      exchange-err (over b client) errno k e h (request b slave t function fields []) exception
        use_rsp
        (rw (sent_is b slave t function fields [])
          (omega (arith, length-message slave t _ function _ b)))
        (omega (arith, length-exception)) framed (omega (arith, length-exception, largest_pdu b))
        (intact b slave t (function + 128) fields body hs (omega arith) client own)
        (emb illegal_data_address) (refused client))

  pub server_side :
      (version : List ℕ) (server : Modbus) (m : Mapping)
      → 1 ≤ slave
      → addr < 65536
      → t < 65536
      → required_length b frame (length frame) ≤ length frame
      → dispatch b (sft b slave t function fields []) frame (length frame) addr m version function
        ≡ response_exception b (sft b slave t function fields []) illegal_data_address false m
      → reply version (over b server) frame (length frame) m (sends (length exception) ∷ [])
        ≡ (m, (transmit exception ∷ [], ok (length exception)))
  unfolding response_exception
  server_side version server m own ha ht whole switch =
      rw (sym (response_is b slave t (function + 128) fields body hs (omega arith))) (
        reply-some version b server frame (length frame) m
          (response_exception b (sft b slave t function fields []) illegal_data_address false m)
          (respond-message b slave t _ function addr value
              (more ++ back b (request b slave t function fields [])) m version ha ht whole
            ∙ ap some switch)
          (rw (slave-message slave t _ function _ b) own) refl)
