-- ===== src/Client/Writing.antt =====
-- A request that writes a number of entries, with a byte count and its data, and the response that
-- echoes address and number: what the two ends make of the pair, for coils and for registers.
use libmodbus.Base.{
  ℕ, zero, suc, ◌+◌, ◌-◌, ◌≤◌, ◌<◌, ◌≡◌, refl, sym, ap, ◌∙◌, arith, ◌⊎◌, inl, inr, ==_iff, List, [],
  ◌∷◌, ◌++◌, byte_at, length, length-append, some, bit_and-255, pos,
}
use libmodbus.Context.{Backend, Modbus, Errno, transmit, ok, confirmation}
use libmodbus.Backend.{header_length, checksum_length}
use libmodbus.Lengths.{
  word_at, word_or_at, compute_meta_length_after_function, compute_data_length_after_meta,
  compute_response_length_from_request,
}
use libmodbus.Mapping.{Mapping}
use libmodbus.Send.{sends}
use libmodbus.Receive.{bytes}
use libmodbus.Receive.Framing.{frame_length}
use libmodbus.Reply.{Answer, required_length, reply, dispatch}
use libmodbus.Reply.Bounds.{largest_pdu}
use libmodbus.Reply.Served.{respond-message, reply-some}
use libmodbus.Confirm.{check_confirmation}
use libmodbus.Confirm.Accepts.{check_confirmation-ok, expected_echo-writes}
use libmodbus.Client.{word_bytes, exchange, no_data}
use libmodbus.Client.Messages.{
  back, message, length-message, slave-message, function-message, byte_at-message, word_at-message,
  length-back, word_at-word_bytes, pre_check-message, over,
}
use libmodbus.Client.Words.{word_or_at-eq-word_at}
use libmodbus.Client.Answered.{request, sent, answer, response, sft, response_is, exchange-message}

-- The two functions that write several entries.
abbrev pub Writes : ℕ → Type 0
Writes function = (function ≡ 15) ⊎ (function ≡ 16)

module _ (b : Backend) (slave t function addr nb count : ℕ) (payload : List ℕ)
    (hf : Writes function) (ha : addr < 65536) (hi : nb < 65536)
    (counts : length payload ≡ count) where
  abbrev pub rest : List ℕ
  rest = word_bytes addr ++ (word_bytes nb ++ count ∷ payload)

  abbrev pub body : List ℕ
  body = word_bytes addr ++ word_bytes nb

  abbrev pub asking : List ℕ
  asking = request b slave t function rest body

  abbrev pub frame : List ℕ
  frame = sent b slave t function rest body

  abbrev pub answering : List ℕ
  answering = response b slave t function rest body

  small_function : function < 128
  small_function = ground arith

  pub quantity :
      (n : ℕ) (more : List ℕ)
      → word_at
          (message b slave t n function (word_bytes addr ++ (word_bytes nb ++ more)))
          (header_length b + 3)
        ≡ nb
  quantity n more =
      word_at-message slave t n function (word_bytes addr ++ (word_bytes nb ++ more)) b 2
        (header_length b + 3) (omega arith)
      ∙ word_at-word_bytes nb more hi

  pub counted : byte_at frame (header_length b + 5) ≡ count
  counted =
      byte_at-message slave t (length asking - 6) function (rest ++ back b asking) b 4
        (header_length b + 5) (omega arith)

  -- The data in the frame.
  pub data_at :
      (k : ℕ) → byte_at frame (header_length b + 6 + k) ≡ byte_at (payload ++ back b asking) k
  data_at k =
      byte_at-message slave t (length asking - 6) function (rest ++ back b asking) b
        (suc (suc (suc (suc (suc k))))) (header_length b + 6 + k) (omega arith)

  length-frame : length frame ≡ header_length b + 6 + count + checksum_length b
  length-frame = omega (
    arith,
    length-message slave t (length asking - 6) function (rest ++ back b asking) b,
    length-append payload (back b asking),
    length-back b asking,
  )

  whole : required_length b frame (length frame) ≤ length frame
  unfolding required_length compute_meta_length_after_function compute_data_length_after_meta
  whole =
      rw (function-message slave t (length asking - 6) function (rest ++ back b asking) b, counted)
        (ground (arith, length-frame))

  length-answering : length answering ≡ header_length b + 5 + checksum_length b
  length-answering = omega (
    arith,
    length-message slave t (length (answer b slave t function rest body) - 6) function
        (body ++ back b (answer b slave t function rest body)) b,
    length-back b (answer b slave t function rest body),
  )

  function_back : byte_at answering (header_length b) ≡ function
  function_back = function-message slave t _ function _ b

  framed : frame_length b confirmation answering ≡ length answering
  unfolding frame_length compute_meta_length_after_function compute_data_length_after_meta
  framed = rw function_back (ground (arith, length-answering))

  computed :
      Writes function
      → compute_response_length_from_request b asking
        ≡ some (header_length b + 5 + checksum_length b)
  unfolding compute_response_length_from_request
  computed (inl e) = rw (function-message slave t 0 function rest b, e) refl
  computed (inr e) = rw (function-message slave t 0 function rest b, e) refl

  abbrev ending : List ℕ
  ending = back b (answer b slave t function rest body)

  rsp_word : word_or_at answering (header_length b + 3) ≡ nb
  rsp_word =
      word_or_at-eq-word_at answering (header_length b + 3) (
        omega (
          arith,
          byte_at-message slave t _ function (body ++ ending) b 3 (header_length b + 3 + 1)
              (omega arith),
          bit_and-255 nb,
        ))
      ∙ word_at-message slave t _ function (body ++ ending) b 2 (header_length b + 3) (omega arith)
      ∙ word_at-word_bytes nb ending hi

  -- The first bytes behind the front agree.
  address_byte :
      (i k : ℕ) → i < 4 → k ≡ header_length b + 1 + i → byte_at asking k ≡ byte_at answering k
  address_byte i k h e =
      byte_at-message slave t 0 function rest b i k e
      ∙ first_four i h
      ∙ sym (byte_at-message slave t _ function (body ++ ending) b i k e)
    where
      first_four : (i : ℕ) → i < 4 → byte_at rest i ≡ byte_at (body ++ ending) i
      first_four zero h = refl
      first_four (suc zero) h = refl
      first_four (suc (suc zero)) h = refl
      first_four (suc (suc (suc zero))) h = refl
      first_four (suc (suc (suc (suc i)))) h = absurd (omega arith)

  accepted :
      (ctx : Modbus)
      → check_confirmation (over b ctx) asking answering (length answering) ≡ ([], ok nb)
  accepted ctx =
      check_confirmation-ok (over b ctx) asking answering (length answering) nb
        (pre_check-message b slave t 0 _ function function rest _)
        (omega (arith, function_back, small_function))
        (function-message slave t 0 function rest b ∙ sym function_back)
        (rw (computed hf, length-answering) ((==_iff _ _).1 refl))
        (rw function_back (
          expected_echo-writes (header_length b) asking answering nb function hf
            (quantity 0 (count ∷ payload)) rsp_word
            (address_byte 0 (header_length b + 1) (omega arith) (omega arith))
            (address_byte 1 (header_length b + 2) (omega arith) (omega arith))))

  -- The server's answer, with the mapping that it leaves.
  abbrev pub outcome : Mapping → Answer
  outcome m = record { rsp = answer b slave t function rest body; actions = []; mapping = m }

  pub server_side :
      (version : List ℕ) (server : Modbus) (m m' : Mapping)
      → 1 ≤ slave
      → slave < 256
      → t < 65536
      → dispatch b (sft b slave t function rest body) frame (length frame) addr m version function
        ≡ outcome m'
      → reply version (over b server) frame (length frame) m (sends (length answering) ∷ [])
        ≡ (m', (transmit answering ∷ [], ok (length answering)))
  server_side version server m m' own hs ht switch =
      rw (sym (response_is b slave t function rest body hs (omega (arith, small_function)))) (
        reply-some version b server frame (length frame) m (outcome m')
          (respond-message b slave t (length asking - 6) function addr nb
              (count ∷ (payload ++ back b asking)) m version ha ht whole
            ∙ ap some switch)
          (rw (slave-message slave t (length asking - 6) function (rest ++ back b asking) b) own)
          refl)

  pub client_side :
      (client : Modbus) (errno : Errno) (k : ℕ)
      → client.slave ≡ pos slave
      → slave < 256
      → client.s ≡ pos k
      → k < 1024
      → exchange
          (over b client)
          errno
          asking
          (sends (length frame) ∷ [])
          (bytes answering ∷ [])
          no_data
        ≡ (transmit frame ∷ [], ok (nb, []))
  client_side client errno k own hs e h =
      exchange-message b slave t function rest body hs (omega (arith, small_function)) client errno
        k nb no_data own e h framed (omega (arith, length-answering, largest_pdu b))
        (accepted client)
