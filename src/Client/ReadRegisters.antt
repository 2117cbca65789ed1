-- ===== src/Client/ReadRegisters.antt =====
-- Reading registers, from one end to the other: `modbus_read_registers` and
-- `modbus_read_input_registers` against `modbus_reply`.
use libmodbus.Base.{
  ℕ, true, ◌+◌, ◌-◌, ◌*◌, ◌%◌, ◌≤◌, ◌<◌, ◌≡◌, refl, ap, ◌∙◌, arith, ◌⊎◌, inl, inr, false, ◌||◌, ltb,
  List, [], ◌∷◌, ◌++◌, length, take, drop, AllBelow, append_assoc, some, pos,
}
use libmodbus.Context.{Backend, Modbus, Sft, Errno, transmit, ok}
use libmodbus.Backend.{
  header_length, checksum_length, build_request_basis, build_response_basis, send_msg_pre, next_tid,
}
use libmodbus.Lengths.{compute_response_length_from_request}
use libmodbus.Mapping.{Mapping}
use libmodbus.Send.{sends}
use libmodbus.Receive.{bytes}
use libmodbus.Reply.{reply_read_registers, reply, dispatch}
use libmodbus.Reply.Served.{register_bytes-words_bytes}
use libmodbus.Confirm.{expected_echo}
use libmodbus.Confirm.Accepts.{expected_echo-words}
use libmodbus.Client.{words_bytes, response_words, read_words}
use libmodbus.Client.Messages.{over, asked}
use libmodbus.Client.Words.{response_words-words_bytes, length-words_bytes}
use libmodbus.Client.Reading.{
  request, sent, sft, sent_is, quantity, request_word, request_function, answer, tail, response,
  counted, payload_at, server_side, client_side, same_backend, next_tid-lt, built,
}

-- The two functions that read registers.
module _ (b : Backend) (slave t function addr nb : ℕ) (hf : (function ≡ 3) ⊎ (function ≡ 4))
    (h4 : function ≤ 4) (ha : addr < 65536) (lo : 1 ≤ nb) (hi : nb ≤ 125) (small : nb < 65536) where
  computed :
      (function ≡ 3) ⊎ (function ≡ 4)
      → compute_response_length_from_request b (request b slave t function addr nb h4 ha small)
        ≡ some (header_length b + (2 + 2 * nb) + checksum_length b)
  unfolding compute_response_length_from_request
  computed (inl e) =
      rw
        (
          request_function b slave t function addr nb h4 ha small,
          request_word b slave t function addr nb h4 ha small,
          e,
        )
        refl
  computed (inr e) =
      rw
        (
          request_function b slave t function addr nb h4 ha small,
          request_word b slave t function addr nb h4 ha small,
          e,
        )
        refl

  -- The table that is read.
  module _ (start count : ℕ) (tab : List ℕ) (m : Mapping) (low : start ≤ addr)
      (room : addr - start + nb ≤ count) (same : length tab ≡ count)
      (fit : AllBelow 65536 tab) where
    abbrev payload : List ℕ
    payload = words_bytes nb tab (addr - start)

    counts : length payload ≡ nb * 2
    counts = omega (arith, length-words_bytes nb (addr - start) tab)

    reply_read_registers-ok :
        reply_read_registers b
          (sft b slave t function addr nb h4 ha small)
          (sent b slave t function addr nb h4 ha small)
          (length (sent b slave t function addr nb h4 ha small))
          addr
          m
          start
          count
          tab
        ≡ answer b slave t function addr nb h4 ha small (nb * 2) payload counts (omega arith) m
    unfolding reply_read_registers
    reply_read_registers-ok =
        let in_range : (ltb nb 1 || ltb 125 nb) ≡ false = ground arith in
        let there : (ltb addr start || ltb count (addr - start + nb)) ≡ false = ground arith in
        let one_byte : nb * 2 % 256 ≡ nb * 2 = omega arith in
        let basis = build_response_basis b (sft b slave t function addr nb h4 ha small) in
        rw
          (
            quantity b slave t function addr nb h4 ha small _ _,
            in_range,
            there,
            one_byte,
            register_bytes-words_bytes nb (addr - start) tab (basis ++ nb * 2 ∷ []),
            append_assoc basis (nb * 2 ∷ []) payload,
          )
          refl

    abbrev rsp : List ℕ
    rsp = response b slave t function addr nb h4 ha small (nb * 2) payload counts (omega arith) m

    -- What the client reads of the response.
    words_read : response_words nb (header_length b + 2) rsp ≡ take nb (drop (addr - start) tab)
    words_read =
        response_words-words_bytes nb (addr - start) (header_length b + 2) tab
          (tail b slave t function addr nb h4 ha small (nb * 2) payload counts (omega arith) m) rsp
          fit (omega arith)
          (payload_at b slave t function addr nb h4 ha small (nb * 2) payload counts (omega arith)
            m)

    echoed :
        expected_echo
          (header_length b)
          function
          (request b slave t function addr nb h4 ha small)
          rsp
        ≡ record { req_nb_value = nb; rsp_nb_value = nb; fields_ok = true }
    echoed =
        expected_echo-words (header_length b) (request b slave t function addr nb h4 ha small) rsp
          nb function hf (quantity b slave t function addr nb h4 ha small 0 [])
          (omega (
            arith,
            counted b slave t function addr nb h4 ha small (nb * 2) payload counts (omega arith) m,
          ))

-- One request for words, with the function code and the table that it reads.
module _ (b : Backend) (version : List ℕ) (client server : Modbus) (errno : Errno)
    (slave k function addr nb : ℕ) (own : client.slave ≡ pos slave) (one : 1 ≤ slave)
    (hs : slave < 256) (e : client.s ≡ pos k) (h : k < 1024) (hf : (function ≡ 3) ⊎ (function ≡ 4))
    (ha : addr < 65536) (lo : 1 ≤ nb) (hi : nb ≤ 125) (start count : ℕ) (tab : List ℕ) (m : Mapping)
    (low : start ≤ addr) (room : addr - start + nb ≤ count) (same : length tab ≡ count)
    (fit : AllBelow 65536 tab) where
  pub read_words-over :
      client.t_id < 65536
      → server.backend ≡ b
      → ((n : ℕ) (req : List ℕ) (sft : Sft)
          → dispatch b sft req n addr m version function
            ≡ reply_read_registers b sft req n addr m start count tab)
      → let frame = send_msg_pre b (build_request_basis (over b client) function addr nb).1 in
        (rsp : List ℕ) × (reply version server frame (length frame) m (sends (length rsp) ∷ [])
          ≡ (m, (transmit rsp ∷ [], ok (length rsp))))
        × ((read_words
              (over b client)
              errno
              (sends (length frame) ∷ [])
              (bytes rsp ∷ [])
              function
              addr
              nb).1
            ≡ (transmit frame ∷ [], ok (nb, take nb (drop (addr - start) tab))))
  unfolding read_words
  read_words-over ht same_b switch =
      let in_range : ltb 125 nb ≡ false = ground arith in
      let h4 : function ≤ 4 = ground arith in
      let small : nb < 65536 = omega arith in
      let t = next_tid client.t_id in
      let d =
        counts b slave t function addr nb hf h4 ha lo hi small start count tab m low room same
          fit in
      (
        rsp b slave t function addr nb hf h4 ha lo hi small start count tab m low room same fit,
        rw
            (
              same_backend b server same_b,
              built b client slave function addr nb h4 ha small own hs,
              sent_is b slave t function addr nb h4 ha small,
            )
            (server_side b slave t function addr nb h4 ha small (nb * 2) _ d (omega arith) m version
              server one hs (next_tid-lt client.t_id ht)
              (switch _ _ _
                ∙ reply_read_registers-ok b slave t function addr nb hf h4 ha lo hi small start
                    count tab m low room same fit)),
        rw (built b client slave function addr nb h4 ha small own hs, in_range)
            (client_side b slave t function addr nb h4 ha small (nb * 2) _ d (omega arith) m
                (asked b client) errno k nb _ own hs e h
                (computed b slave t function addr nb hf h4 ha lo hi small hf
                  ∙ ap some (omega arith))
                (echoed b slave t function addr nb hf h4 ha lo hi small start count tab m low room
                  same fit)
              ∙ rw
                  (words_read b slave t function addr nb hf h4 ha lo hi small start count tab m low
                    room same fit)
                  refl),
      )
