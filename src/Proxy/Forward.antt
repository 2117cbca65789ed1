-- ===== src/Proxy/Forward.antt =====
-- `modbus_proxy` on a request that the device answers.
use libmodbus.Base.{
  ℕ, ◌+◌, ◌-◌, ◌%◌, ◌≤◌, ◌<◌, ◌≡◌, refl, sym, ap, ◌∙◌, arith, pos, false, ltb, List, [], ◌∷◌, ◌++◌,
  length, length-append,
}
use libmodbus.Context.{Backend, Modbus, Errno, transmit, ok, confirmation}
use libmodbus.Backend.{
  header_length, checksum_length, max_adu_length, build_response_basis, send_msg_pre,
  pre_check_confirmation,
}
use libmodbus.Send.{sends}
use libmodbus.Receive.{bytes, receive_msg}
use libmodbus.Receive.Framing.{frame_length}
use libmodbus.Client.Exchange.{receive_msg-ok}
use libmodbus.Client.Messages.{
  front, back, carried, message, over, length-message, slave-message, length-back,
  send_msg_pre-response, build_response_basis-front, pre_check-message, check_integrity-message,
}
use libmodbus.Proxy.Asked.{
  send_msg-whole, req, device, asked, sent_raw, raw_length, sent_request, proxy-asks,
}
use libmodbus.Proxy.{Outcome, check_request, forward, ask, proxy}
use libmodbus.Proxy.Relay.{backend_request-message, relay-wrapped}

module _ (fb bb : Backend) (fctx bctx : Modbus) (errno : Errno) (slave t n function : ℕ)
    (body tail : List ℕ) (function' : ℕ) (body' : List ℕ) (k : ℕ) (hs : slave ≤ 247)
    (ht : t < 65536) (hf : function < 256) (hf' : function' < 256)
    (whole : length tail ≡ checksum_length fb) (short : length body ≤ 252) (e : bctx.s ≡ pos k)
    (h : k < 1024) where
  abbrev message_in : List ℕ
  message_in = req fb bb fctx bctx slave t n function body tail hs whole short

  abbrev open_device : Modbus
  open_device = device fb bb fctx bctx slave t n function body tail hs whole short

  abbrev message_out : List ℕ
  message_out = asked fb bb fctx bctx slave t n function body tail hs whole short

  -- What the device answers.
  abbrev told : List ℕ
  told =
      build_response_basis bb (record { slave = slave; function = function'; t_id = carried bb 0 })
      ++ body'

  abbrev rsp : List ℕ
  rsp = message bb slave 0 (length told - 6) function' (body' ++ back bb told)

  abbrev wrapped : List ℕ
  wrapped =
      build_response_basis fb (record { slave = slave; function = function'; t_id = carried fb t })
      ++ body'

  rsp_is : send_msg_pre bb told ≡ rsp
  rsp_is = send_msg_pre-response bb slave 0 function' body' (omega arith) hf'

  checked :
      pre_check_confirmation bb (check_request open_device (slave ∷ function ∷ body)) rsp ≡ ok 0
  checked =
      let ms : slave % 256 ≡ slave = omega arith in
      rw
        (
          build_response_basis-front bb (record { slave = slave; function = function; t_id = 0 }),
          ms,
        )
        (pre_check-message bb slave 0 0 (length told - 6) (function % 256) function' body
          (body' ++ back bb told))

  received :
      frame_length bb confirmation rsp ≡ length rsp
      → length rsp ≤ max_adu_length bb
      → (receive_msg open_device confirmation errno (bytes rsp ∷ [])).1 ≡ ([], ok (rsp, length rsp))
  received framed fits =
      receive_msg-ok open_device errno k e h rsp
        (omega
          (arith, length-message slave 0 (length told - 6) function' (body' ++ back bb told) bb))
        framed fits
        (rw (sym rsp_is) (
          check_integrity-message bb open_device slave told refl
            (rw basis (
              omega
                (arith, length-message (slave % 256) (carried bb 0) 0 (function' % 256) body' bb)))
            (rw basis (
              omega
                (arith, slave-message (slave % 256) (carried bb 0) 0 (function' % 256) body' bb)))))
    where
      basis :
          build_response_basis bb
            (record { slave = slave; function = function'; t_id = carried bb 0 })
          ≡ front bb (slave % 256) (carried bb 0) 0 (function' % 256)
      basis = build_response_basis-front bb _

  forwarded :
      forward
        (over fb fctx)
        message_in
        (length message_in)
        (sends (length (send_msg_pre fb wrapped)) ∷ [])
        open_device
        errno
        (slave ∷ function ∷ body)
        rsp
        (length rsp)
        (transmit (send_msg_pre bb message_out) ∷ [])
      ≡ record {
        frontend = transmit (send_msg_pre fb wrapped) ∷ [];
        backend = transmit (send_msg_pre bb message_out) ∷ [];
        result = ok (length (send_msg_pre fb wrapped));
      }
  unfolding forward pre_check_confirmation send_msg_pre
  forwarded =
      let some_pdu : ltb (length rsp) (header_length bb + checksum_length bb + 1) ≡ false = ground (
        arith,
        length-message slave 0 (length told - 6) function' (body' ++ back bb told) bb,
        length-append body' (back bb told),
        length-back bb told,
      ) in
      rw
        (
          checked,
          some_pdu,
          relay-wrapped fb bb fctx open_device t ht slave n function (body ++ tail) slave 0
              (length told - 6) function' (omega arith) hf' body' (back bb told)
              (length-back bb told),
          send_msg-whole (over fb fctx) wrapped,
        )
        refl

  module _ (framed : frame_length bb confirmation rsp ≡ length rsp)
      (fits : length rsp ≤ max_adu_length bb) where
    abbrev proxied : Outcome
    proxied = record {
      frontend = transmit (send_msg_pre fb wrapped) ∷ [];
      backend = transmit (send_msg_pre bb message_out) ∷ [];
      result = ok (length (send_msg_pre fb wrapped));
    }

    ask-answered :
        ask
          (over fb fctx)
          message_in
          (length message_in)
          (sends (length (send_msg_pre fb wrapped)) ∷ [])
          open_device
          errno
          (sends (length (send_msg_pre bb message_out)) ∷ [])
          (bytes rsp ∷ [])
        ≡ proxied
    unfolding ask
    ask-answered =
        rw
          (
            ask,
            sent_request fb bb fctx bctx slave t n function body tail hs whole short,
            received framed fits,
            backend_request-message slave t n function body tail fb fctx whole,
            raw_length fb bb fctx bctx slave t n function body tail hs whole short,
            sent_raw fb bb fctx bctx slave t n function body tail hs whole short,
            received framed fits,
            forwarded,
          )
          refl

    -- A request to a slave up to 247, of a function code and at most 252 bytes of data, is proxied
    -- whole: over the open backend the device is sent that function and data under transaction 0,
    -- in its own framing; and when it answers in one piece, with a frame that fits, the frontend is
    -- sent the answer's function and data under the transaction of the request. Nothing else is
    -- sent on either line, and the length of the frontend's frame is returned.
    pub proxy-answered :
        proxy
          (over fb fctx)
          message_in
          (length message_in)
          (sends (length (send_msg_pre fb wrapped)) ∷ [])
          (over bb bctx)
          errno
          (sends (length (send_msg_pre bb message_out)) ∷ [])
          (bytes rsp ∷ [])
        ≡ (open_device, proxied)
    proxy-answered =
        proxy-asks fb bb fctx bctx slave t n function body tail hs whole short _ _ errno
          (bytes rsp ∷ [])
        ∙ ap (λ out. (open_device, out)) ask-answered
