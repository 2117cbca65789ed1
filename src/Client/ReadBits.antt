-- ===== src/Client/ReadBits.antt =====
-- Reading bits, from one end to the other: `modbus_read_bits` and `modbus_read_input_bits` against
-- `modbus_reply`.
use libmodbus.Base.{
  ℕ, true, ◌+◌, ◌-◌, ◌*◌, ◌%◌, ◌≤◌, ◌<◌, ◌≡◌, refl, ap, ◌∙◌, arith, ◌⊎◌, inl, inr, false, ◌||◌, ltb,
  List, [], ◌∷◌, ◌++◌, length, take, drop, AllBelow, append_assoc, get_or-append_left, byte_at, bit,
  ◌/◌, some, pos,
}
use libmodbus.Context.{Backend, Modbus, Sft, Errno, transmit, ok}
use libmodbus.Backend.{
  header_length, checksum_length, build_request_basis, build_response_basis, send_msg_pre, next_tid,
}
use libmodbus.Lengths.{byte_count, compute_response_length_from_request}
use libmodbus.Mapping.{Mapping}
use libmodbus.Send.{sends}
use libmodbus.Receive.{bytes}
use libmodbus.Reply.{reply_read_bits, response_io_status, reply, dispatch}
use libmodbus.Reply.Answers.{length-response_io_status}
use libmodbus.Confirm.{expected_echo}
use libmodbus.Confirm.Accepts.{expected_echo-bits}
use libmodbus.Client.{io_status_bits, read_io_status}
use libmodbus.Client.Messages.{over, asked}
use libmodbus.Client.Bits.{io_status_bits-entries, packed_bit}
use libmodbus.Reply.Packed.{response_io_status-append, same_digit}
use libmodbus.Client.Reading.{
  request, sent, sft, sent_is, quantity, request_word, request_function, answer, tail, response,
  counted, payload_at, server_side, client_side, same_backend, next_tid-lt, built,
}

-- From `p` on, a message has the count of the bytes, and in them the entries of a table from `i` on,
-- eight to a byte, the first of them lowest.
pub record IsPacked (p i nb : ℕ) (tab msg : List ℕ) : Type 0 where
  pub byte_total : byte_at msg p ≡ byte_count nb
  pub entries : (j : ℕ) → j < nb → bit (byte_at msg (p + 1 + j / 8)) (j % 8) ≡ byte_at tab (i + j)

few : (nb : ℕ) → nb ≤ 2000 → byte_count nb ≤ 250
few nb h = ground arith

enough : (nb : ℕ) → nb ≤ 8 * byte_count nb
enough nb = ground arith

-- The two functions that read bits.
module _ (b : Backend) (slave t function addr nb : ℕ) (hf : (function ≡ 1) ⊎ (function ≡ 2))
    (h4 : function ≤ 4) (ha : addr < 65536) (lo : 1 ≤ nb) (hi : nb ≤ 2000)
    (small : nb < 65536) where
  computed :
      (function ≡ 1) ⊎ (function ≡ 2)
      → compute_response_length_from_request b (request b slave t function addr nb h4 ha small)
        ≡ some (header_length b + (2 + byte_count nb) + checksum_length b)
  unfolding compute_response_length_from_request
  computed (inl e) =
      rw
        (
          request_function b slave t function addr nb h4 ha small,
          request_word b slave t function addr nb h4 ha small,
          e,
        )
        refl
  computed (inr e) =
      rw
        (
          request_function b slave t function addr nb h4 ha small,
          request_word b slave t function addr nb h4 ha small,
          e,
        )
        refl

  -- The table that is read.
  module _ (start count : ℕ) (tab : List ℕ) (m : Mapping) (low : start ≤ addr)
      (room : addr - start + nb ≤ count) (same : length tab ≡ count) (fit : AllBelow 2 tab) where
    abbrev payload : List ℕ
    payload = response_io_status tab (addr - start) nb []

    counts : length payload ≡ byte_count nb
    counts = omega (arith, length-response_io_status tab (addr - start) nb [])

    reply_read_bits-ok :
        reply_read_bits b
          (sft b slave t function addr nb h4 ha small)
          (sent b slave t function addr nb h4 ha small)
          (length (sent b slave t function addr nb h4 ha small))
          addr
          m
          start
          count
          tab
        ≡ answer b slave t function addr nb h4 ha small (byte_count nb) payload counts (few nb hi) m
    unfolding reply_read_bits
    reply_read_bits-ok =
        let in_range : (ltb nb 1 || ltb 2000 nb) ≡ false = ground arith in
        let there : (ltb addr start || ltb count (addr - start + nb)) ≡ false = ground arith in
        let one_byte : byte_count nb % 256 ≡ byte_count nb = omega (arith, few nb hi) in
        let basis = build_response_basis b (sft b slave t function addr nb h4 ha small) in
        rw
          (
            quantity b slave t function addr nb h4 ha small _ _,
            in_range,
            there,
            one_byte,
            response_io_status-append tab (addr - start) nb (basis ++ byte_count nb ∷ []),
            append_assoc basis (byte_count nb ∷ []) payload,
          )
          refl

    abbrev rsp : List ℕ
    rsp =
        response b slave t function addr nb h4 ha small (byte_count nb) payload counts (few nb hi) m

    -- The bytes behind the count are those of the payload.
    at_payload :
        (k : ℕ) → k < byte_count nb → byte_at rsp (header_length b + 2 + k) ≡ byte_at payload k
    at_payload k hk =
        payload_at b slave t function addr nb h4 ha small (byte_count nb) payload counts (few nb hi)
          m k
        ∙ get_or-append_left payload
            (tail b slave t function addr nb h4 ha small (byte_count nb) payload counts (few nb hi)
              m)
            k 0 (omega (arith, counts))

    rsp-IsPacked : IsPacked (header_length b + 1) (addr - start) nb tab rsp
    rsp-IsPacked = record {
      byte_total =
          counted b slave t function addr nb h4 ha small (byte_count nb) payload counts (few nb hi)
            m;
      entries = λ j hj.
          same_digit rsp (header_length b + 1 + 1 + j / 8) (header_length b + 2 + j / 8) (j % 8)
            (j % 8) (omega arith) refl
          ∙ ap (λ (x : ℕ). bit x (j % 8)) (at_payload (j / 8) (ground arith))
          ∙ packed_bit tab (addr - start) nb j fit (omega arith) hj;
    }

    -- What the client reads of the response.
    bits_read :
        io_status_bits (byte_count nb) (header_length b + 2) nb rsp []
        ≡ take nb (drop (addr - start) tab)
    bits_read =
        io_status_bits-entries (byte_count nb) (addr - start) (header_length b + 2) nb tab rsp
          payload fit (omega arith) (enough nb) refl at_payload

    echoed :
        expected_echo
          (header_length b)
          function
          (request b slave t function addr nb h4 ha small)
          rsp
        ≡ record { req_nb_value = byte_count nb; rsp_nb_value = byte_count nb; fields_ok = true }
    echoed =
        expected_echo-bits (header_length b) (request b slave t function addr nb h4 ha small) rsp
          (byte_count nb) function hf
          (ap byte_count (quantity b slave t function addr nb h4 ha small 0 []))
          (counted b slave t function addr nb h4 ha small (byte_count nb) payload counts (few nb hi)
            m)

-- One request for bits, with the function code and the table that it reads.
module _ (b : Backend) (version : List ℕ) (client server : Modbus) (errno : Errno)
    (slave k function addr nb : ℕ) (own : client.slave ≡ pos slave) (one : 1 ≤ slave)
    (hs : slave < 256) (e : client.s ≡ pos k) (h : k < 1024) (hf : (function ≡ 1) ⊎ (function ≡ 2))
    (ha : addr < 65536) (lo : 1 ≤ nb) (hi : nb ≤ 2000) (start count : ℕ) (tab : List ℕ)
    (m : Mapping) (low : start ≤ addr) (room : addr - start + nb ≤ count)
    (same : length tab ≡ count) (fit : AllBelow 2 tab) where
  pub read_io_status-over :
      client.t_id < 65536
      → server.backend ≡ b
      → ((n : ℕ) (req : List ℕ) (sft : Sft)
          → dispatch b sft req n addr m version function
            ≡ reply_read_bits b sft req n addr m start count tab)
      → let frame = send_msg_pre b (build_request_basis (over b client) function addr nb).1 in
        (rsp : List ℕ) × (reply version server frame (length frame) m (sends (length rsp) ∷ [])
          ≡ (m, (transmit rsp ∷ [], ok (length rsp))))
        × IsPacked (header_length b + 1) (addr - start) nb tab rsp
        × ((read_io_status
              (over b client)
              errno
              (sends (length frame) ∷ [])
              (bytes rsp ∷ [])
              function
              addr
              nb).1
            ≡ (transmit frame ∷ [], ok (byte_count nb, take nb (drop (addr - start) tab))))
  unfolding read_io_status
  read_io_status-over ht same_b switch =
      let h4 : function ≤ 4 = ground arith in
      let small : nb < 65536 = omega arith in
      let t = next_tid client.t_id in
      let d =
        counts b slave t function addr nb hf h4 ha lo hi small start count tab m low room same
          fit in
      (
        rsp b slave t function addr nb hf h4 ha lo hi small start count tab m low room same fit,
        rw
            (
              same_backend b server same_b,
              built b client slave function addr nb h4 ha small own hs,
              sent_is b slave t function addr nb h4 ha small,
            )
            (server_side b slave t function addr nb h4 ha small (byte_count nb) _ d (few nb hi) m
              version server one hs (next_tid-lt client.t_id ht)
              (switch _ _ _
                ∙ reply_read_bits-ok b slave t function addr nb hf h4 ha lo hi small start count tab
                    m low room same fit)),
        rsp-IsPacked b slave t function addr nb hf h4 ha lo hi small start count tab m low room same
            fit,
        rw (built b client slave function addr nb h4 ha small own hs) (
            client_side b slave t function addr nb h4 ha small (byte_count nb) _ d (few nb hi) m
              (asked b client) errno k (byte_count nb) _ own hs e h
              (computed b slave t function addr nb hf h4 ha lo hi small hf)
              (echoed b slave t function addr nb hf h4 ha lo hi small start count tab m low room
                same fit)
            ∙ rw
                (bits_read b slave t function addr nb hf h4 ha lo hi small start count tab m low
                  room same fit)
                refl),
      )
