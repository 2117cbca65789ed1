-- ===== src/Receive/Termination.antt =====
-- The receive loop ends, and stays within the message buffer.
use libmodbus.Base.{
  ℕ, zero, suc, ◌+◌, ◌≤◌, ◌<◌, ◌≡◌, ◌≢◌, refl, arith, Bool, false, inl, inr, ◌==◌, Bool-cases, List,
  [], ◌∷◌, ◌++◌, length, length-append, length-take, take, byte_at,
}
use libmodbus.Context.{
  Result-cases, Result, ok, err, pending, Backend, rtu, tcp, MsgType, indication, confirmation,
}
use libmodbus.Backend.{header_length, max_adu_length}
use libmodbus.Lengths.{compute_meta_length_after_function}
use libmodbus.Receive.{
  Event, select_fails, recv_fails, bytes, Step, step_function, step_meta, step_data, State,
  after_meta, next_step, advance, receive_loop, initial, receive_fuel,
}

meta-le : (function : ℕ) (t : MsgType) → compute_meta_length_after_function function t ≤ 9
unfolding compute_meta_length_after_function
meta-le function indication = ground arith
meta-le function confirmation = ground arith

-- What is read and what is awaited fit the buffer. Before the data the sum is smaller.
abbrev pub sum_limit : Backend → Step → ℕ
sum_limit backend step_function = header_length backend + 1
sum_limit backend step_meta = header_length backend + 10
sum_limit backend step_data = max_adu_length backend

abbrev pub IsBounded : Backend → State → Type 0
IsBounded backend st = length st.msg + st.length_to_read ≤ sum_limit backend st.step

-- The rounds that the steps behind the present one may take.
abbrev pub later : Step → ℕ
later step_function = 269
later step_meta = 260
later step_data = 0

-- The rounds that may be left: each reads a byte at least.
abbrev pub rounds : State → ℕ
rounds st = st.length_to_read + later st.step

max_adu-le : (backend : Backend) → max_adu_length backend ≤ 260
max_adu-le rtu = omega arith
max_adu-le tcp = omega arith

header-le : (backend : Backend) → header_length backend + 10 ≤ max_adu_length backend
header-le rtu = omega arith
header-le tcp = omega arith

module _ (backend : Backend) (t : MsgType) where
  after_meta-lem :
      (msg : List ℕ) (st : State)
      → after_meta backend t msg ≡ ok st
      → IsBounded backend st × (rounds st ≤ 260) × (st.msg ≡ msg) × (st.step ≡ step_data)
  unfolding after_meta
  after_meta-lem msg st e = ground (arith, max_adu-le backend)

  next_step-lem :
      (step : Step) (msg : List ℕ) (st : State)
      → next_step backend t step msg ≡ ok st
      → length msg ≤ sum_limit backend step
      → IsBounded backend st × (rounds st ≤ later step) × (st.msg ≡ msg)
  unfolding next_step
  next_step-lem step_function msg st e h =
      ground (arith, after_meta-lem msg st, meta-le (byte_at msg (header_length backend)) t)
  next_step-lem step_meta msg st e h = ground (arith, after_meta-lem msg st)
  next_step-lem step_data msg st e h = ground arith

  after_meta-ne-pending : (msg : List ℕ) → after_meta backend t msg ≢ pending
  unfolding after_meta
  after_meta-ne-pending msg e = ground arith

  next_step-ne-pending : (step : Step) (msg : List ℕ) → next_step backend t step msg ≢ pending
  unfolding next_step
  next_step-ne-pending step_function msg e = ground (arith, after_meta-ne-pending msg)
  next_step-ne-pending step_meta msg e = after_meta-ne-pending msg e
  next_step-ne-pending step_data msg e = cc

  pub advance-ne-pending : (st : State) (chunk : List ℕ) → advance backend t st chunk ≢ pending
  unfolding advance
  advance-ne-pending st chunk e = ground (arith, next_step-ne-pending st.step (st.msg ++ chunk))

  -- Reading at most what is awaited keeps the buffer's bound, at every step of the protocol.
  pub advance-IsBounded :
      (st : State) (chunk : List ℕ) (st' : State)
      → IsBounded backend st
      → length chunk ≤ st.length_to_read
      → 0 < length chunk
      → advance backend t st chunk ≡ ok st'
      → IsBounded backend st' × (rounds st' < rounds st) × (st'.msg ≡ st.msg ++ chunk)
  unfolding advance
  advance-IsBounded st chunk st' h fits some_read e =
      ground (arith, length-append st.msg chunk, next_step-lem st.step (st.msg ++ chunk) st')

-- What holds of the loop's result: a message that fits the buffer, an error, or, only once the
-- events are used up, no result yet.
abbrev pub Ends : Backend → List Event → Result (List ℕ) → Type 0
Ends backend events (ok msg) = length msg ≤ max_adu_length backend
Ends backend events (err e) = Unit {0}
Ends backend events pending = events ≡ []

limit-le : (backend : Backend) (step : Step) → sum_limit backend step ≤ max_adu_length backend
limit-le rtu step_function = omega arith
limit-le rtu step_meta = omega arith
limit-le rtu step_data = omega arith
limit-le tcp step_function = omega arith
limit-le tcp step_meta = omega arith
limit-le tcp step_data = omega arith

module _ (backend : Backend) (t : MsgType) (link : Bool) where
  receive_loop-Ends_fuel :
      (fuel : ℕ) (st : State) (events : List Event)
      → IsBounded backend st
      → rounds st < fuel
      → let (left, run) = receive_loop fuel backend t link st events in Ends backend left run.1
  unfolding receive_loop
  receive_loop-Ends_fuel zero st events h m = absurd (omega arith)
  receive_loop-Ends_fuel (suc fuel) st [] h m = elim (Bool-cases (st.length_to_read == 0)) [
    | inl e ↦ rw e (omega (arith, limit-le backend st.step))
    | inr e ↦ rw e refl
  ]
  receive_loop-Ends_fuel (suc fuel) st (select_fails x ∷ events) h m =
      elim (Bool-cases (st.length_to_read == 0)) [
        | inl e ↦ rw e (omega (arith, limit-le backend st.step))
        | inr e ↦ rw e tt
      ]
  receive_loop-Ends_fuel (suc fuel) st (recv_fails x ∷ events) h m =
      elim (Bool-cases (st.length_to_read == 0)) [
        | inl e ↦ rw e (omega (arith, limit-le backend st.step))
        | inr e ↦ rw e tt
      ]
  receive_loop-Ends_fuel (suc fuel) st (bytes [] ∷ events) h m =
      elim (Bool-cases (st.length_to_read == 0)) [
        | inl e ↦ rw e (omega (arith, limit-le backend st.step))
        | inr e ↦ rw e tt
      ]
  receive_loop-Ends_fuel (suc fuel) st (bytes (b ∷ bs) ∷ events) h m =
      elim (Bool-cases (st.length_to_read == 0)) [
        | inl e ↦ rw e (omega (arith, limit-le backend st.step))
        | inr e ↦ rw e (elim (Result-cases (advance backend t st chunk)) [
          | inl (st', a) ↦
              let (keeps, falls, _) =
                advance-IsBounded backend t st chunk st' h fits (some_read e) a in
              rw a (receive_loop-Ends_fuel fuel st' _ keeps (omega arith))
          | inr (inl (x, a)) ↦ rw a tt
          | inr (inr a) ↦ absurd (advance-ne-pending backend t st chunk a)
        ])
      ]
    where
      chunk : List ℕ
      chunk = take st.length_to_read (b ∷ bs)

      fits : length chunk ≤ st.length_to_read
      fits = omega (arith, length-take st.length_to_read (b ∷ bs))

      some_read : (st.length_to_read == 0) ≡ false → 0 < length chunk
      some_read e = ground (arith, length-take st.length_to_read (b ∷ bs))

pub initial-IsBounded : (backend : Backend) → IsBounded backend (initial backend)
initial-IsBounded rtu = omega arith
initial-IsBounded tcp = omega arith

-- From its start, the loop of `_modbus_receive_msg` ends within 300 rounds on any events: its fuel
-- never runs out, and a message that it reads fits the backend's largest frame.
pub receive_loop-Ends :
    (backend : Backend) (t : MsgType) (link : Bool) (events : List Event)
    → let (left, run) = receive_loop receive_fuel backend t link (initial backend) events in
      Ends backend left run.1
receive_loop-Ends backend t link events =
    receive_loop-Ends_fuel backend t link receive_fuel (initial backend) events
      (initial-IsBounded backend) (start backend)
  where
    start : (backend : Backend) → rounds (initial backend) < receive_fuel
    start rtu = omega arith
    start tcp = omega arith
