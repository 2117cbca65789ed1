-- ===== src/Proxy.antt =====
-- `modbus_proxy` of src/modbus.c: a request that came in on one context is sent on over another,
-- and the response goes back.
pub mod Relay
pub mod Asked
pub mod Unanswered
pub mod Forward
use libmodbus.Base.{ℕ, ◌+◌, ◌-◌, pos, ◌||◌, ltb, if◌then◌else◌, List, [], ◌++◌, byte_at, take, drop}
use libmodbus.Context.{
  Errno, einval, etimedout, embbaddata, Action, Result, ok, err, pending, Modbus, Sft, confirmation,
  max_pdu_length, set_slave, gateway_path, gateway_target,
}
use libmodbus.Backend.{
  header_length, checksum_length, build_response_basis, get_response_tid, pre_check_confirmation,
}
use libmodbus.Send.{SendOutcome, send_msg, send_raw_request_tid}
use libmodbus.Receive.{Event, receive_msg}
use libmodbus.Reply.{reply_exception}

-- What a call does to the two lines: first the frontend's, then the backend's.
pub record Outcome : Type 0 where
  pub frontend : List Action
  pub backend : List Action
  pub result : Result ℕ

-- The PDU with the slave in front of it: what `modbus_send_raw_request` takes.
abbrev pub backend_request : Modbus → List ℕ → ℕ → List ℕ
backend_request ctx req req_length =
    take (req_length - header_length ctx.backend - checksum_length ctx.backend + 1)
      (drop (header_length ctx.backend - 1) req)

-- The response of the backend's device in the frame of the frontend.
unfoldable pub relay : Modbus → Modbus → List ℕ → List ℕ → ℕ → List ℕ
relay frontend_ctx backend_ctx req rsp rsp_length =
    let offset = header_length backend_ctx.backend in
    let sft =
      let s : Sft = record {
        slave = byte_at rsp (offset - 1);
        function = byte_at rsp offset;
        t_id = get_response_tid frontend_ctx.backend req;
      } in
      s in
    build_response_basis frontend_ctx.backend sft
    ++ take (rsp_length - offset - checksum_length backend_ctx.backend - 1) (drop (offset + 1) rsp)

-- The request that the header of the confirmation is checked against.
abbrev pub check_request : Modbus → List ℕ → List ℕ
check_request backend_ctx raw =
    let sft =
      let s : Sft = record { slave = byte_at raw 0; function = byte_at raw 1; t_id = 0 } in s in
    build_response_basis backend_ctx.backend sft ++ drop 2 raw

module _ (frontend_ctx : Modbus) (req : List ℕ) (req_length : ℕ)
    (frontend_sends : List SendOutcome) where
  -- `modbus_reply_exception` on the frontend, and -1. What the exception's own call returns is
  -- dropped, but for a call that has not returned.
  unfoldable pub fail_with : ℕ → List Action → Errno → Outcome
  fail_with exception_code actions e =
      let (sent, r) = reply_exception frontend_ctx req exception_code frontend_sends in
      record {
        frontend = sent;
        backend = actions;
        result = elim r [ ok n ↦ err e | err e' ↦ err e' | pending ↦ pending ];
      }

  -- What is done with the response of the backend. A response without a PDU sets no `errno`.
  unfoldable pub forward : Modbus → Errno → List ℕ → List ℕ → ℕ → List Action → Outcome
  forward backend_ctx errno raw rsp rsp_length actions =
      let offset = header_length backend_ctx.backend in
      let (sent, r) =
        send_msg frontend_ctx (relay frontend_ctx backend_ctx req rsp rsp_length) frontend_sends in
      elim (pre_check_confirmation backend_ctx.backend (check_request backend_ctx raw) rsp) [
        | err e ↦ fail_with gateway_target actions e
        | pending ↦ record { frontend = []; backend = actions; result = pending }
        | ok rc ↦
            if ltb rsp_length (offset + checksum_length backend_ctx.backend + 1)
            then fail_with gateway_target actions errno
            else record { frontend = sent; backend = actions; result = r }
      ]

  -- From the raw request on, with the slave set.
  unfoldable pub ask : Modbus → Errno → List SendOutcome → List Event → Outcome
  ask backend_ctx errno backend_sends events =
      let raw = backend_request frontend_ctx req req_length in
      let (sent, sending) =
        send_raw_request_tid backend_ctx raw
          (req_length
            - header_length frontend_ctx.backend
            - checksum_length frontend_ctx.backend
            + 1)
          0 backend_sends in
      let (_, (received, receiving)) = receive_msg backend_ctx confirmation errno events in
      elim sending [
        | err e ↦ fail_with gateway_path sent e
        | pending ↦ record { frontend = []; backend = sent; result = pending }
        | ok rc ↦ elim receiving [
          | err etimedout ↦ fail_with gateway_target (sent ++ received) etimedout
          | err e ↦ fail_with gateway_path (sent ++ received) e
          | pending ↦ record { frontend = []; backend = sent ++ received; result = pending }
          | ok (rsp, rsp_length) ↦ forward backend_ctx errno raw rsp rsp_length (sent ++ received)
        ]
      ]

  -- The backend's context takes the slave of the request.
  unfoldable pub proxy : Modbus → Errno → List SendOutcome → List Event → Modbus × Outcome
  proxy backend_ctx errno backend_sends events =
      let offset = header_length frontend_ctx.backend in
      let surplus = offset + checksum_length frontend_ctx.backend in
      if ltb req_length 1
      then (backend_ctx, record { frontend = []; backend = []; result = err einval })
      else if ltb req_length (surplus + 1) || ltb (surplus + max_pdu_length + 1) req_length
      then (backend_ctx, record { frontend = []; backend = []; result = err embbaddata })
      else elim (set_slave backend_ctx (pos (byte_at req (offset - 1)))) [
        | err e ↦ (backend_ctx, fail_with gateway_path [] e)
        | pending ↦ (backend_ctx, record { frontend = []; backend = []; result = pending })
        | ok ctx ↦ (ctx, ask ctx errno backend_sends events)
      ]
