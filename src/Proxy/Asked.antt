-- ===== src/Proxy/Asked.antt =====
-- `modbus_proxy` up to its request to the device.
use libmodbus.Base.{
  ℕ, ◌+◌, ◌-◌, ◌≤◌, ◌≡◌, refl, arith, pos, true, false, ◌||◌, ltb, leb, ==_iff, List, [], ◌∷◌, ◌++◌,
  length, length-append, take-all,
}
use libmodbus.Context.{Backend, rtu, tcp, Modbus, Errno, transmit, ok, set_slave, max_slave}
use libmodbus.Backend.{header_length, checksum_length, build_response_basis, send_msg_pre}
use libmodbus.Send.{SendOutcome, sends, send_loop, send_msg, send_raw_request_tid}
use libmodbus.Receive.{Event}
use libmodbus.Reply.Served.{and_false}
use libmodbus.Client.Messages.{message, over, length-message, slave-message}
use libmodbus.Proxy.{backend_request, ask, proxy}
use libmodbus.Proxy.Relay.{backend_request-message}

-- A frame that is sent whole.
pub send_msg-whole :
    (ctx : Modbus) (msg : List ℕ)
    → let frame = send_msg_pre ctx.backend msg in
      send_msg ctx msg (sends (length frame) ∷ []) ≡ (transmit frame ∷ [], ok (length frame))
unfolding send_msg send_loop
send_msg-whole ctx msg =
    let n : ℕ = length (send_msg_pre ctx.backend msg) in
    rw ((==_iff n n).1 refl, and_false (ltb 0 n)) refl

set_slave-ok :
    (b : Backend) (ctx : Modbus) (slave : ℕ)
    → slave ≤ 247
    → set_slave (over b ctx) (pos slave) ≡ ok (record (over b ctx) { slave = pos slave })
unfolding set_slave
set_slave-ok rtu ctx slave h =
    let low : leb slave (max_slave ctx) ≡ true = ground arith in rw low refl
set_slave-ok tcp ctx slave h =
    let low : leb slave (max_slave ctx) ≡ true = ground arith in rw low refl

module _ (fb bb : Backend) (fctx bctx : Modbus) (slave t n function : ℕ) (body tail : List ℕ)
    (hs : slave ≤ 247) (whole : length tail ≡ checksum_length fb) (short : length body ≤ 252) where
  abbrev pub req : List ℕ
  req = message fb slave t n function (body ++ tail)

  abbrev pub raw : List ℕ
  raw = slave ∷ function ∷ body

  abbrev pub device : Modbus
  device = record bctx { backend = bb; slave = pos slave }

  -- What the device is asked.
  abbrev pub asked : List ℕ
  asked = build_response_basis bb (record { slave = slave; function = function; t_id = 0 }) ++ body

  pub sent_raw :
      send_raw_request_tid device raw
        (length body + 2)
        0
        (sends (length (send_msg_pre bb asked)) ∷ [])
      ≡ (transmit (send_msg_pre bb asked) ∷ [], ok (length (send_msg_pre bb asked)))
  unfolding send_raw_request_tid
  sent_raw =
      let fits : (ltb (length body + 2) 2 || ltb (253 + 1) (length body + 2)) ≡ false =
        ground arith in
      let all : length body + 2 - 2 ≡ length body = omega arith in
      rw (fits, all, take-all (length body) body (omega arith)) (send_msg-whole device asked)

  pub raw_length : length req - header_length fb - checksum_length fb + 1 ≡ length body + 2
  raw_length =
      omega (arith, length-message slave t n function (body ++ tail) fb, length-append body tail)

  pub sent_request :
      send_raw_request_tid device
        (backend_request (over fb fctx) req (length req))
        (length req - header_length fb - checksum_length fb + 1)
        0
        (sends (length (send_msg_pre bb asked)) ∷ [])
      ≡ (transmit (send_msg_pre bb asked) ∷ [], ok (length (send_msg_pre bb asked)))
  sent_request =
      rw (backend_request-message slave t n function body tail fb fctx whole, raw_length) sent_raw

  -- The request is passed on, with the slave set.
  pub proxy-asks :
      (frontend_sends backend_sends : List SendOutcome) (errno : Errno) (events : List Event)
      → proxy
          (over fb fctx)
          req
          (length req)
          frontend_sends
          (over bb bctx)
          errno
          backend_sends
          events
        ≡ (
          device,
          ask (over fb fctx) req (length req) frontend_sends device errno backend_sends events,
        )
  unfolding proxy
  proxy-asks frontend_sends backend_sends errno events =
      let long : ltb (length req) 1 ≡ false =
        ground (arith, length-message slave t n function (body ++ tail) fb) in
      let limits : (ltb (length req) (header_length fb + checksum_length fb + 1)
            || ltb (header_length fb + checksum_length fb + 253 + 1) (length req))
          ≡ false =
        ground
          (arith, length-message slave t n function (body ++ tail) fb, length-append body tail) in
      rw
        (
          long,
          limits,
          slave-message slave t n function (body ++ tail) fb,
          set_slave-ok bb bctx slave hs,
        )
        refl
