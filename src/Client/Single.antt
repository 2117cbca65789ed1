-- ===== src/Client/Single.antt =====
-- A write of one coil or one register, or of a register through masks, whose response is the request
-- again.
use libmodbus.Base.{
  ℕ, ◌+◌, ◌-◌, ◌%◌, ◌≤◌, ◌<◌, ◌≡◌, refl, sym, ap, ◌∙◌, arith, inl, inr, true, ==_iff, List, [], ◌∷◌,
  ◌++◌, byte_at, length, length-append, take, take-append, append_assoc, zero, suc, some, pos,
}
use libmodbus.Context.{Backend, Modbus, Errno, transmit, ok, confirmation}
use libmodbus.Backend.{header_length, checksum_length, send_msg_pre}
use libmodbus.Lengths.{
  word_at, compute_response_length_from_request, compute_meta_length_after_function,
  compute_data_length_after_meta,
}
use libmodbus.Mapping.{Mapping}
use libmodbus.Send.{sends}
use libmodbus.Receive.{bytes}
use libmodbus.Receive.Framing.{frame_length}
use libmodbus.Reply.{Answer, is_length, required_length, reply, dispatch}
use libmodbus.Reply.Bounds.{largest_pdu, single_write_length, mask_write_length}
use libmodbus.Reply.Served.{respond-message, reply-some}
use libmodbus.Confirm.{check_confirmation}
use libmodbus.Confirm.Accepts.{check_confirmation-ok}
use libmodbus.Client.{word_bytes, exchange, no_data}
use libmodbus.Client.Messages.{
  front, back, message, length-message, slave-message, function-message, byte_at-message,
  word_at-message, length-back, word_at-word_bytes, pre_check-message, build_response_basis-front,
  over,
}
use libmodbus.Client.Answered.{request, sent, answer, response, sft, exchange-message}
use libmodbus.Client.Repeats.{IsRepeated, expected_echo-repeated, resent, front-carried}

module _ (b : Backend) (slave t function addr value : ℕ) (more : List ℕ)
    (hf : IsRepeated function more) (hs : slave < 256) where
  abbrev pub fields : List ℕ
  fields = word_bytes addr ++ (word_bytes value ++ more)

  abbrev pub frame : List ℕ
  frame = sent b slave t function fields fields

  abbrev ask : List ℕ
  ask = request b slave t function fields fields

  small : function < 128
  small = ground arith

  answer_is : answer b slave t function fields fields ≡ ask
  answer_is =
      let ms : slave % 256 ≡ slave = omega arith in
      let mf : function % 256 ≡ function = omega (arith, small) in
      rw
        (
          build_response_basis-front b (sft b slave t function fields fields),
          ms,
          mf,
          front-carried b slave t 0 function,
        )
        refl

  echo_is : response b slave t function fields fields ≡ frame
  echo_is = ap (λ msg. message b slave t (length msg - 6) function (fields ++ back b msg)) answer_is

  pub length-frame : length frame ≡ header_length b + 5 + length more + checksum_length b
  length-frame = omega (
    arith,
    length-message slave t _ function _ b,
    length-append more (back b ask),
    length-back b ask,
  )

  pub named : byte_at frame (header_length b) ≡ function
  named = function-message slave t _ function _ b

  pub computed :
      (req : List ℕ)
      → byte_at req (header_length b) ≡ function
      → compute_response_length_from_request b req
        ≡ some (header_length b + 5 + length more + checksum_length b)
  computed req e = elim hf [
    | inl (one, none_more) ↦
        let total : header_length b + 5 + checksum_length b
            ≡ header_length b + 5 + length more + checksum_length b =
          omega (arith, none_more) in
        single_write_length b req (rw e one) ∙ ap (λ (k : ℕ). some k) total
    | inr (mask, two_more) ↦
        let total : header_length b + 7 + checksum_length b
            ≡ header_length b + 5 + length more + checksum_length b =
          omega (arith, two_more) in
        mask_write_length b req (e ∙ mask) ∙ ap (λ (k : ℕ). some k) total
  ]

  framed : frame_length b confirmation frame ≡ length frame
  unfolding frame_length compute_meta_length_after_function compute_data_length_after_meta
  framed = rw named (ground (arith, length-frame))

  -- The bytes behind the front agree.
  same : (i k : ℕ) → i < 4 → k ≡ header_length b + 1 + i → byte_at ask k ≡ byte_at frame k
  same i k h e =
      byte_at-message slave t 0 function fields b i k e
      ∙ first_four i h
      ∙ sym (byte_at-message slave t _ function (fields ++ back b ask) b i k e)
    where
      first_four : (i : ℕ) → i < 4 → byte_at fields i ≡ byte_at (fields ++ back b ask) i
      first_four zero h = refl
      first_four (suc zero) h = refl
      first_four (suc (suc zero)) h = refl
      first_four (suc (suc (suc zero))) h = refl
      first_four (suc (suc (suc (suc i)))) h = absurd (omega arith)

  accepted : (ctx : Modbus) → check_confirmation (over b ctx) ask frame (length frame) ≡ ([], ok 1)
  accepted ctx =
      let h = header_length b in
      check_confirmation-ok (over b ctx) ask frame (length frame) 1
        (pre_check-message b slave t 0 _ function function fields _) (omega (arith, named, small))
        (function-message slave t 0 function fields b ∙ sym named)
        (rw (computed ask (function-message slave t 0 function fields b), length-frame)
          ((==_iff _ _).1 refl))
        (rw named (
          expected_echo-repeated h function more ask frame hf
            (same 0 (h + 1) (omega arith) (omega arith))
            (same 1 (h + 2) (omega arith) (omega arith))
            (same 2 (h + 3) (omega arith) (omega arith))
            (same 3 (h + 4) (omega arith) (omega arith))))

  pub client_side :
      (client : Modbus) (errno : Errno) (k : ℕ)
      → client.slave ≡ pos slave
      → client.s ≡ pos k
      → k < 1024
      → exchange (over b client) errno ask (sends (length frame) ∷ []) (bytes frame ∷ []) no_data
        ≡ (transmit frame ∷ [], ok (1, []))
  client_side client errno k own e h =
      ap
        (λ rsp.
          exchange (over b client) errno ask (sends (length frame) ∷ []) (bytes rsp ∷ []) no_data)
        (sym echo_is)
      ∙ exchange-message b slave t function fields fields hs (omega (arith, small)) client errno k 1
          no_data own e h (rw echo_is framed)
          (rw echo_is (omega (arith, length-frame, largest_pdu b))) (rw echo_is (accepted client))

  pub asked_for : value < 65536 → word_at frame (header_length b + 3) ≡ value
  asked_for fit =
      word_at-message slave t _ function (fields ++ back b ask) b 2 (header_length b + 3)
        (omega arith)
      ∙ word_at-word_bytes value (more ++ back b ask) fit

  -- The length that the server expects.
  pub fits : is_length (compute_response_length_from_request b frame) (length frame) ≡ true
  fits = rw (computed frame named, length-frame) ((==_iff _ _).1 refl)

  -- What the server sends back is the request.
  abbrev pub outcome : Mapping → Answer
  outcome m = record {
    rsp = take (length frame - checksum_length b) frame;
    actions = [];
    mapping = m;
  }

  taken :
      take (length frame - checksum_length b) frame
      ≡ message b slave t (length ask - 6) function fields
  taken =
      ap (take (length frame - checksum_length b))
        (sym (append_assoc (front b slave t (length ask - 6) function) fields (back b ask)))
      ∙ take-append _ (message b slave t (length ask - 6) function fields) (back b ask)
          (omega (arith, length-frame, length-message slave t (length ask - 6) function fields b))

  whole : required_length b frame (length frame) ≤ length frame
  unfolding required_length compute_meta_length_after_function compute_data_length_after_meta
  whole = rw named (ground (arith, length-frame))

  pub server_side :
      (version : List ℕ) (server : Modbus) (m m' : Mapping)
      → 1 ≤ slave
      → addr < 65536
      → t < 65536
      → dispatch b
          (sft b slave t function fields fields)
          frame
          (length frame)
          addr
          m
          version
          function
        ≡ outcome m'
      → reply version (over b server) frame (length frame) m (sends (length frame) ∷ [])
        ≡ (m', (transmit frame ∷ [], ok (length frame)))
  server_side version server m m' own ha ht switch =
      ap (λ rsp. reply version (over b server) frame (length frame) m (sends (length rsp) ∷ []))
        (sym sent_again)
      ∙ reply-some version b server frame (length frame) m (outcome m')
          (respond-message b slave t _ function addr value (more ++ back b ask) m version ha ht
              whole
            ∙ ap some switch)
          (rw (slave-message slave t _ function _ b) own) refl
      ∙ ap (λ rsp. (m', (transmit rsp ∷ [], ok (length rsp)))) sent_again
    where
      sent_again : send_msg_pre b (take (length frame - checksum_length b) frame) ≡ frame
      sent_again = ap (send_msg_pre b) taken ∙ resent b slave t (length ask - 6) function fields
