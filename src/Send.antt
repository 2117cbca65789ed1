-- ===== src/Send.antt =====
-- `send_msg` of src/modbus.c, with its retries, and the raw requests.
pub mod Retries
use libmodbus.Base.{
  ℕ, ◌+◌, ◌-◌, Bool, true, false, ◌&&◌, ◌||◌, ltb, ◌==◌, not, if◌then◌else◌, List, [], ◌∷◌, ◌++◌,
  byte_at, length, drop, take,
}
use libmodbus.Context.{
  Errno, einval, econnreset, ebadf, epipe, embbaddata, Action, sleep, flush, close, connect,
  transmit, ok, err, pending, Run, Modbus, Sft, recovery_link, has_flag, max_pdu_length,
}
use libmodbus.Backend.{send_msg_pre, build_response_basis}

-- What one call of the backend's `send` returns: a count, or -1 with `errno` set.
pub data SendOutcome : Type 0 where
  sends : ℕ → SendOutcome
  fails : Errno → SendOutcome

-- `errno == EBADF || errno == ECONNRESET || errno == EPIPE`
abbrev pub is_broken : Errno → Bool
is_broken ebadf = true
is_broken econnreset = true
is_broken epipe = true
is_broken _ = false

-- What is done before the next try in link recovery.
abbrev pub recover_send : Errno → List Action
recover_send e = if is_broken e then close ∷ sleep ∷ connect ∷ [] else sleep ∷ flush ∷ []

-- The `do … while` loop, and the test behind it. `link` says that link recovery is on; the list is
-- what the calls of `send` return, in order.
unfoldable pub send_loop : Bool → List ℕ → List SendOutcome → Run ℕ
send_loop link msg [] = ([], pending)
send_loop link msg (sends rc ∷ outcomes) =
    (transmit msg ∷ [], if ltb 0 rc && not (rc == length msg) then err embbaddata else ok rc)
send_loop link msg (fails e ∷ outcomes) =
    let (actions, r) = send_loop link msg outcomes in
    if link then (transmit msg ∷ recover_send e ++ actions, r) else (transmit msg ∷ [], err e)

unfoldable pub send_msg : Modbus → List ℕ → List SendOutcome → Run ℕ
send_msg ctx msg outcomes =
    send_loop (has_flag ctx.error_recovery recovery_link) (send_msg_pre ctx.backend msg) outcomes

-- `raw_req` is the slave, the function and the data.
unfoldable pub send_raw_request_tid : Modbus → List ℕ → ℕ → ℕ → List SendOutcome → Run ℕ
send_raw_request_tid ctx raw_req raw_req_length tid outcomes =
    if ltb raw_req_length 2 || ltb (max_pdu_length + 1) raw_req_length
    then ([], err einval)
    else let sft =
        let s : Sft = record {
          slave = byte_at raw_req 0;
          function = byte_at raw_req 1;
          t_id = tid;
        } in
        s in
      send_msg ctx
        (build_response_basis ctx.backend sft ++ take (raw_req_length - 2) (drop 2 raw_req))
        outcomes

unfoldable pub send_raw_request : Modbus → List ℕ → ℕ → List SendOutcome → Run ℕ
send_raw_request ctx raw_req raw_req_length outcomes =
    send_raw_request_tid ctx raw_req raw_req_length 0 outcomes
