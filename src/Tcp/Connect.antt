-- ===== src/Tcp/Connect.antt =====
-- Which socket a connection takes, and that no other descriptor is left open or closed.
use libmodbus.Base.{
  ℕ, ◌≡◌, refl, Bool, true, false, ◌&&◌, not, List, ◌∷◌, Option, none, some, ◌==◌, if◌then◌else◌,
  leb, pos, Bool-cases, inl, inr,
}
use libmodbus.Context.{
  Errno, einprogress, etimedout, econnrefused, Result, ok, err, pending, Modbus,
}
use libmodbus.System.{Syscall, returned, failed, fd_setsize, release_open}
use libmodbus.System.Held.{Absent, release_self}
use libmodbus.Tcp.{
  Calls, Called, give_up, take_over, set_ipv4_options, wait_connected, connect_socket, tcp_connect,
}

-- A new descriptor is none of those that are open.
abbrev pub Fresh : Syscall → List ℕ → Type 0
Fresh (returned s) live = Absent s live
Fresh (failed e) live = Unit {0}

abbrev pub succeeds : Syscall → Bool
succeeds (returned n) = true
succeeds (failed e) = false

abbrev pub is_positive : Syscall → Bool
is_positive (returned n) = not (n == 0)
is_positive (failed e) = false

abbrev pub is_zero : Syscall → Bool
is_zero (returned n) = n == 0
is_zero (failed e) = false

-- The connection is made at once, or it is in progress and `select` and SO_ERROR confirm it.
abbrev pub established : Calls → Bool
established calls = elim calls.connecting [
  | returned n ↦ true
  | failed e ↦ elim e [
    | einprogress ↦ is_positive calls.selecting && is_zero calls.so_error
    | other ↦ false
  ]
]

-- The socket of an address, where it fits an `fd_set` and the test holds.
abbrev pub usable : Syscall → Bool → Option ℕ
usable (returned s) test = if leb fd_setsize s then none else (if test then some s else none)
usable (failed e) test = none

-- A call with the socket takes it over in the place of the previous one; a call without it fails,
-- and the open descriptors and the context are as they were.
abbrev pub Adopted : Modbus → List ℕ → Option ℕ → Called → Type 0
Adopted ctx live (some s) c =
    (c.result ≡ ok 0)
    × (c.ctx ≡ record ctx { s = pos s })
    × (c.live ≡ release_open ctx.s (s ∷ live))
Adopted ctx live none c = (e : Errno) × (c.result ≡ err e) × (c.ctx ≡ ctx) × (c.live ≡ live)

-- `_connect` returns a value exactly where the connection is established.
abbrev pub Verdict : Bool → Result ℕ → Type 0
Verdict true r = (n : ℕ) × (r ≡ ok n)
Verdict false r = (e : Errno) × (r ≡ err e)

module _ (s : ℕ) (calls : Calls) (h : leb fd_setsize s ≡ false) where
  abbrev with_values : Syscall → Syscall → Syscall → Calls
  with_values co se so = record calls { connecting = co; selecting = se; so_error = so }

  abbrev Decided : Syscall → Syscall → Syscall → Type 0
  Decided co se so =
      Verdict (established (with_values co se so)) (connect_socket s (with_values co se so))

  by_values : (co se so : Syscall) → Decided co se so
  unfolding connect_socket wait_connected
  by_values (returned n) se so = (n, refl)
  by_values (failed einprogress) (failed e) so = rw h (e, refl)
  by_values (failed einprogress) (returned n) (failed e) = elim (Bool-cases (n == 0)) [
    | inl z ↦ rw (h, z) (etimedout, refl)
    | inr z ↦ rw (h, z) (econnrefused, refl)
  ]
  by_values (failed einprogress) (returned n) (returned v) = elim (Bool-cases (n == 0)) [
    | inl z ↦ rw (h, z) (etimedout, refl)
    | inr z ↦ elim (Bool-cases (v == 0)) [
      | inl w ↦ rw (h, z, w) (0, refl)
      | inr w ↦ rw (h, z, w) (econnrefused, refl)
    ]
  ]
  by_values (failed e) se so = (e, refl)

  pub connect_socket-established : Verdict (established calls) (connect_socket s calls)
  connect_socket-established = by_values calls.connecting calls.selecting calls.so_error

-- What both connecting functions do with the result of `_connect`.
module _ (ctx : Modbus) (live : List ℕ) (s : ℕ) (fresh : Absent s live) where
  closed : {e : Errno} → Adopted ctx live none (give_up ctx s live e)
  closed {e} = (e, refl, refl, release_self s live fresh)

  finish :
      (b : Bool) (r : Result ℕ)
      → Verdict b r
      → Adopted ctx live (if b then some s else none) (elim r as (λ r. Called) [
        | ok rc ↦ take_over ctx s (s ∷ live)
        | err e ↦ give_up ctx s live e
        | pending ↦ record { live = s ∷ live; ctx = ctx; result = pending }
      ])
  finish true (ok n) v = (refl, refl, refl)
  finish true (err e) (n, v) = absurd cc
  finish true pending (n, v) = absurd cc
  finish false (ok n) (e, v) = absurd cc
  finish false (err e) v = closed
  finish false pending (e, v) = absurd cc

-- The options are set and the address is one.
abbrev pub addressed : Calls → Bool
addressed calls =
    succeeds calls.no_delay && (succeeds calls.low_delay && is_positive calls.inet_pton)

module _ (ctx : Modbus) (errno : Errno) (live : List ℕ) (calls : Calls) where
  abbrev with_answers : Syscall → Syscall → Syscall → Syscall → Calls
  with_answers so nd ld ip = record calls {
    socket = so;
    no_delay = nd;
    low_delay = ld;
    inet_pton = ip;
  }

  abbrev Connected : Calls → Type 0
  Connected c =
      Adopted ctx live (usable c.socket (addressed c && established c))
        (tcp_connect ctx errno c live)

  module _ (s : ℕ) (fresh : Absent s live) (small : leb fd_setsize s ≡ false) where
    with_socket : (nd ld ip : Syscall) → Connected (with_answers (returned s) nd ld ip)
    unfolding tcp_connect set_ipv4_options
    with_socket (failed e) ld ip = rw small (closed ctx live s fresh)
    with_socket (returned a) (failed e) ip = rw small (closed ctx live s fresh)
    with_socket (returned a) (returned b) (failed e) = rw small (closed ctx live s fresh)
    with_socket (returned a) (returned b) (returned n) = elim (Bool-cases (n == 0)) [
      | inl z ↦ rw (small, z) (closed ctx live s fresh)
      | inr z ↦
          let c : Calls = with_answers (returned s) (returned a) (returned b) (returned n) in
          rw (small, z)
            (finish ctx live s fresh (established c) (connect_socket s c)
              (connect_socket-established s c small))
    ]

  by_answers : (so nd ld ip : Syscall) → Fresh so live → Connected (with_answers so nd ld ip)
  unfolding tcp_connect
  by_answers (failed e) nd ld ip fresh = (e, refl, refl, refl)
  by_answers (returned s) nd ld ip fresh = elim (Bool-cases (leb fd_setsize s)) [
    | inl big ↦ rw big (closed ctx live s fresh)
    | inr small ↦ with_socket s fresh small nd ld ip
  ]

  -- A connection that is established with a socket of the system, the options set and the address
  -- valid, takes that socket in the place of the previous one; every other connection fails, and
  -- leaves the open descriptors and the context as they were.
  pub tcp_connect-Adopted : Fresh calls.socket live → Connected calls
  tcp_connect-Adopted fresh =
      by_answers calls.socket calls.no_delay calls.low_delay calls.inet_pton fresh
