-- ===== src/Receive.antt =====
-- `_modbus_receive_msg` of src/modbus.c: reading one message from the line, step by step.
pub mod Termination
pub mod Framing
use libmodbus.Base.{
  ℕ, zero, suc, ◌+◌, ◌-◌, ◌%◌, ◌≤◌, ℤ, pos, negsuc, Bool, true, false, ◌&&◌, ltb, leb, ◌==◌, not,
  if◌then◌else◌, List, [], ◌∷◌, ◌++◌, byte_at, length, take, drop,
}
use libmodbus.Context.{
  Errno, einval, econnreset, etimedout, ebadf, econnrefused, os, embbaddata, Action, sleep, flush,
  close, connect, Result, ok, err, pending, Run, ◌>>=◌, Backend, rtu, tcp, MsgType, indication,
  confirmation, Modbus, has_flag, recovery_link,
}
use libmodbus.Backend.{header_length, max_adu_length, check_integrity}
use libmodbus.System.{fd_setsize}
use libmodbus.Lengths.{compute_meta_length_after_function, compute_data_length_after_meta}

-- What one round of the loop meets: `select` fails, `recv` fails, or bytes are there to be read
-- (none of them if the peer has closed the connection).
pub data Event : Type 0 where
  select_fails : Errno → Event
  recv_fails : Errno → Event
  bytes : List ℕ → Event

pub data Step : Type 0 where
  step_function step_meta step_data : Step

-- What the loop has read, and what it waits for.
pub record State : Type 0 where
  pub msg : List ℕ
  pub length_to_read : ℕ
  pub step : Step

abbrev pub recover_select : Bool → Errno → List Action
recover_select false e = []
recover_select true etimedout = sleep ∷ flush ∷ []
recover_select true ebadf = close ∷ connect ∷ []
recover_select true _ = []

abbrev pub recover_recv : Bool → Errno → List Action
recover_recv false e = []
recover_recv true econnreset = close ∷ connect ∷ []
recover_recv true econnrefused = close ∷ connect ∷ []
recover_recv true ebadf = close ∷ connect ∷ []
recover_recv true _ = []

module _ (backend : Backend) (msg_type : MsgType) where
  -- The case `_STEP_META`: the length of the data, or too many of them.
  unfoldable pub after_meta : List ℕ → Result State
  after_meta msg =
      let length_to_read = compute_data_length_after_meta backend msg msg_type in
      if ltb (max_adu_length backend) (length msg + length_to_read)
      then err embbaddata
      else ok (record { msg = msg; length_to_read = length_to_read; step = step_data })

  -- The switch on the step, once all that was awaited is read.
  unfoldable pub next_step : Step → List ℕ → Result State
  next_step step_function msg =
      let meta =
        compute_meta_length_after_function (byte_at msg (header_length backend)) msg_type in
      if meta == 0
      then after_meta msg
      else ok (record { msg = msg; length_to_read = meta; step = step_meta })
  next_step step_meta msg = after_meta msg
  next_step step_data msg = ok (record { msg = msg; length_to_read = 0; step = step_data })

  -- The state after `chunk` has been read.
  unfoldable pub advance : State → List ℕ → Result State
  advance st chunk =
      let msg = st.msg ++ chunk in
      let left = st.length_to_read - length chunk in
      if left == 0
      then next_step st.step msg
      else ok (record { msg = msg; length_to_read = left; step = st.step })

-- What `recv` leaves of the bytes for the rounds to come.
abbrev pub leave : List ℕ → List Event → List Event
leave [] events = events
leave (b ∷ bs) events = bytes (b ∷ bs) ∷ events

-- The `while` loop, with the events that are left. Fuel that has run out is `pending`; the
-- fuel of `receive_msg` never does. A call of `recv` reads at most `length_to_read` bytes.
unfoldable pub receive_loop :
    ℕ → Backend → MsgType → Bool → State → List Event → List Event × Run (List ℕ)
receive_loop zero backend msg_type link st events = (events, ([], pending))
receive_loop (suc fuel) backend msg_type link st [] =
    (([], if st.length_to_read == 0 then ([], ok st.msg) else ([], pending)))
receive_loop (suc fuel) backend msg_type link st (select_fails e ∷ events) =
    if st.length_to_read == 0
    then (select_fails e ∷ events, ([], ok st.msg))
    else (events, (recover_select link e, err e))
receive_loop (suc fuel) backend msg_type link st (recv_fails e ∷ events) =
    if st.length_to_read == 0
    then (recv_fails e ∷ events, ([], ok st.msg))
    else (events, (recover_recv link e, err e))
receive_loop (suc fuel) backend msg_type link st (bytes [] ∷ events) =
    if st.length_to_read == 0
    then (bytes [] ∷ events, ([], ok st.msg))
    else (events, (recover_recv link econnreset, err econnreset))
receive_loop (suc fuel) backend msg_type link st (bytes (b ∷ bs) ∷ events) =
    let chunk = take st.length_to_read (b ∷ bs) in
    let rest = leave (drop st.length_to_read (b ∷ bs)) events in
    if st.length_to_read == 0
    then (bytes (b ∷ bs) ∷ events, ([], ok st.msg))
    else elim (advance backend msg_type st chunk) [
      | ok st' ↦ receive_loop fuel backend msg_type link st' rest
      | err e ↦ (rest, ([], err e))
      | pending ↦ (rest, ([], pending))
    ]

abbrev pub initial : Backend → State
initial backend = record {
  msg = [];
  length_to_read = header_length backend + 1;
  step = step_function;
}

-- No message takes more rounds than this.
abbrev pub receive_fuel : ℕ
receive_fuel = 300

-- The message with the result of the integrity check. `is_connected` is, for both backends,
-- `ctx->s >= 0`, and -1 is returned with `errno` as it was, `errno`, if that fails.
unfoldable pub receive_msg : Modbus → MsgType → Errno → List Event → List Event × Run (List ℕ × ℕ)
receive_msg ctx msg_type errno events =
    let link = has_flag ctx.error_recovery recovery_link in
    let (events', run) =
      receive_loop receive_fuel ctx.backend msg_type link (initial ctx.backend) events in
    let checked =
      run >>= λ msg. check_integrity ctx msg (length msg) >>= λ rc. ([], ok (msg, rc)) in
    elim ctx.s [
      | negsuc n ↦ (events, ([], err errno))
      | pos n ↦ if leb fd_setsize n then (events, ([], err einval)) else (events', checked)
    ]

-- The result of a confirmation that is read and ignored: 0, whether it was one or an error.
abbrev pub ignored : Run (List ℕ × ℕ) → Run (List ℕ × ℕ)
ignored (actions, ok (msg, rc)) = (actions, ok (msg, 0))
ignored (actions, err e) = (actions, ok ([], 0))
ignored (actions, pending) = (actions, pending)

-- Whether a request for another slave was read, so that its confirmation is to be ignored.
abbrev pub is_foreign : Result (List ℕ × ℕ) → Bool
is_foreign (ok (msg, rc)) = rc == 0
is_foreign (err e) = false
is_foreign pending = false

-- The `receive` of the two backends, for a server. RTU shares its line with other slaves: after
-- a request to one of them, the message that follows is that slave's confirmation.
unfoldable pub receive : Modbus → Errno → List Event → Modbus × (List Event × Run (List ℕ × ℕ))
receive ctx errno events =
    let (events1, run1) = receive_msg ctx confirmation errno events in
    let (events2, run2) = receive_msg ctx indication errno events in
    elim ctx.backend [
      | tcp ↦ (ctx, (events2, run2))
      | rtu ↦
          if ctx.confirmation_to_ignore
          then (record ctx { confirmation_to_ignore = false }, (events1, ignored run1))
          else (record ctx { confirmation_to_ignore = is_foreign run2.1 }, (events2, run2))
    ]

-- `modbus_receive_confirmation`
unfoldable pub receive_confirmation : Modbus → Errno → List Event → List Event × Run (List ℕ × ℕ)
receive_confirmation ctx errno events = receive_msg ctx confirmation errno events
