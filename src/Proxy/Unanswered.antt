-- ===== src/Proxy/Unanswered.antt =====
-- `modbus_proxy` on a request that the device does not answer.
use libmodbus.Base.{
  ℕ, ◌+◌, ◌-◌, ◌%◌, ◌≤◌, ◌<◌, ◌≡◌, refl, ap, ◌∙◌, true, ltb, List, [], ◌∷◌, ◌++◌, length,
}
use libmodbus.Context.{
  Backend, Modbus, Errno, einval, econnreset, etimedout, ebadf, epipe, econnrefused, enomem,
  einprogress, eintr, eoverflow, emb, os, Action, transmit, ok, err, confirmation, gateway_path,
  gateway_target,
}
use libmodbus.Backend.{header_length, checksum_length, build_response_basis, send_msg_pre}
use libmodbus.Send.{sends, send_raw_request_tid}
use libmodbus.Receive.{Event, receive_msg}
use libmodbus.Reply.{reply_exception}
use libmodbus.Client.Messages.{carried, over, slave-message, function-message, tid-message}
use libmodbus.Proxy.{Outcome, backend_request, fail_with, ask, proxy}
use libmodbus.Proxy.Asked.{send_msg-whole, req, device, asked, sent_request, proxy-asks}

-- The exception that the code chooses for an error of the receipt.
abbrev pub gateway_code : Errno → ℕ
gateway_code etimedout = gateway_target
gateway_code _ = gateway_path

gateway_code-known : (e : Errno) → ltb (gateway_code e) 12 ≡ true
gateway_code-known einval = refl
gateway_code-known econnreset = refl
gateway_code-known etimedout = refl
gateway_code-known ebadf = refl
gateway_code-known epipe = refl
gateway_code-known econnrefused = refl
gateway_code-known enomem = refl
gateway_code-known einprogress = refl
gateway_code-known eintr = refl
gateway_code-known eoverflow = refl
gateway_code-known (emb n) = refl
gateway_code-known (os n) = refl

-- The case of the error.
by_error :
    {A : Type 0} (e : Errno) (f : ℕ → Errno → A)
    → (elim e as (λ e. A) [ etimedout ↦ f gateway_target etimedout | e ↦ f gateway_path e ])
      ≡ f (gateway_code e) e
by_error einval f = refl
by_error econnreset f = refl
by_error etimedout f = refl
by_error ebadf f = refl
by_error epipe f = refl
by_error econnrefused f = refl
by_error enomem f = refl
by_error einprogress f = refl
by_error eintr f = refl
by_error eoverflow f = refl
by_error (emb n) f = refl
by_error (os n) f = refl

module _ (fb bb : Backend) (fctx bctx : Modbus) (slave t n function : ℕ) (body tail : List ℕ)
    (hs : slave ≤ 247) (whole : length tail ≡ checksum_length fb) (short : length body ≤ 252)
    (ht : t < 65536) (errno : Errno) (events : List Event) (received : List Action)
    (e : Errno) where
  abbrev message_in : List ℕ
  message_in = req fb bb fctx bctx slave t n function body tail hs whole short

  abbrev open_device : Modbus
  open_device = device fb bb fctx bctx slave t n function body tail hs whole short

  abbrev frame_out : List ℕ
  frame_out = send_msg_pre bb (asked fb bb fctx bctx slave t n function body tail hs whole short)

  abbrev exception : List ℕ
  exception = send_msg_pre fb (
      build_response_basis fb
        (record { slave = slave; function = function + 0x80; t_id = carried fb t })
      ++ gateway_code e % 256 ∷ [])

  refused :
      reply_exception (over fb fctx) message_in (gateway_code e) (sends (length exception) ∷ [])
      ≡ (transmit exception ∷ [], ok (length exception))
  unfolding reply_exception
  refused =
      rw
        (
          slave-message slave t n function (body ++ tail) fb,
          function-message slave t n function (body ++ tail) fb,
          tid-message slave t n function (body ++ tail) fb ht,
          gateway_code-known e,
        )
        (send_msg-whole (over fb fctx) _)

  -- The failure with what has been done on the backend's line.
  abbrev failed : ℕ → Errno → Outcome
  failed code x =
      fail_with (over fb fctx) message_in (length message_in) (sends (length exception) ∷ []) code
        ((send_raw_request_tid open_device
            (backend_request (over fb fctx) message_in (length message_in))
            (length message_in - header_length fb - checksum_length fb + 1) 0
            (sends (length frame_out) ∷ [])).0
          ++ (receive_msg open_device confirmation errno events).1.0)
        x

  -- A request to a slave up to 247, of a function code and at most 252 bytes of data, is proxied to
  -- a device from which no response is received, but an error. Then the device has been sent one
  -- frame, with that function and data under transaction 0; the frontend is sent one frame, an
  -- exception to its request under its transaction: GATEWAY_TARGET where the error is a timeout, and
  -- GATEWAY_PATH where it is any other, which a response with a wrong checksum (EMBBADCRC) and one
  -- that is too long (EMBBADDATA) also give; and the error is returned.
  pub proxy-unanswered :
      (receive_msg open_device confirmation errno events).1 ≡ (received, err e)
      → proxy
          (over fb fctx)
          message_in
          (length message_in)
          (sends (length exception) ∷ [])
          (over bb bctx)
          errno
          (sends (length frame_out) ∷ [])
          events
        ≡ (
          open_device,
          record {
            frontend = transmit exception ∷ [];
            backend = transmit frame_out ∷ received;
            result = err e;
          },
        )
  unfolding ask fail_with
  proxy-unanswered silent =
      proxy-asks fb bb fctx bctx slave t n function body tail hs whole short _ _ errno events
      ∙ ap (λ out. (open_device, out))
          (rw
            (ask, sent_request fb bb fctx bctx slave t n function body tail hs whole short, silent)
            (by_error e failed
              ∙ rw
                  (
                    fail_with,
                    refused,
                    sent_request fb bb fctx bctx slave t n function body tail hs whole short,
                    silent,
                  )
                  refl))
