-- ===== src/Tcp.antt =====
-- The sockets of src/modbus-tcp.c: connecting, listening, accepting and flushing.
-- The system's answers are arguments; `live` are the descriptors that the process has open.
pub mod Connect
pub mod Addresses
pub mod Listen
pub mod Flush
use libmodbus.Base.{
  ℕ, ◌+◌, ◌-◌, pos, negsuc, Bool, true, false, List, [], ◌∷◌, Option, none, some, ◌==◌,
  if◌then◌else◌, leb, byte_at,
}
use libmodbus.Context.{
  Errno, einval, etimedout, econnrefused, einprogress, eoverflow, Result, ok, err, pending, Modbus,
}
use libmodbus.System.{Syscall, returned, failed, fd_setsize, release, release_open}

-- What the calls for one address return. `inet_pton` is not called by the PI variant.
pub record Calls : Type 0 where
  pub socket : Syscall
  pub is_inet : Bool
  pub no_delay : Syscall
  pub low_delay : Syscall
  pub inet_pton : Syscall
  pub connecting : Syscall
  pub selecting : Syscall
  pub so_error : Syscall

-- `_modbus_tcp_set_ipv4_options`: two calls of `setsockopt`.
unfoldable pub set_ipv4_options : Calls → Result ℕ
set_ipv4_options calls = elim calls.no_delay [
  | failed e ↦ err e
  | returned n ↦ elim calls.low_delay [ failed e ↦ err e | returned n ↦ ok 0 ]
]

-- `_connect` from the point where the connection is in progress.
unfoldable pub wait_connected : ℕ → Calls → Result ℕ
wait_connected sockfd calls = if leb fd_setsize sockfd then err einval else elim calls.selecting [
  | failed e ↦ err e
  | returned n ↦ if n == 0 then err etimedout else elim calls.so_error [
    | failed e ↦ err econnrefused
    | returned optval ↦ if optval == 0 then ok 0 else err econnrefused
  ]
]

-- `_connect`
unfoldable pub connect_socket : ℕ → Calls → Result ℕ
connect_socket sockfd calls = elim calls.connecting [
  | returned n ↦ ok n
  | failed e ↦ elim e [ einprogress ↦ wait_connected sockfd calls | other ↦ err other ]
]

-- The open descriptors, the context and the result of a call.
pub record Called : Type 0 where
  pub live : List ℕ
  pub ctx : Modbus
  pub result : Result ℕ

-- A failure with the socket closed again.
abbrev pub give_up : Modbus → ℕ → List ℕ → Errno → Called
give_up ctx s live e = record { live = release s (s ∷ live); ctx = ctx; result = err e }

-- Any previously open socket is replaced.
abbrev pub take_over : Modbus → ℕ → List ℕ → Called
take_over ctx s live = record {
  live = release_open ctx.s live;
  ctx = record ctx { s = pos s };
  result = ok 0;
}

-- `_modbus_tcp_connect`. `errno` is what it was: a text that is no address does not set it.
unfoldable pub tcp_connect : Modbus → Errno → Calls → List ℕ → Called
tcp_connect ctx errno calls live = elim calls.socket [
  | failed e ↦ record { live = live; ctx = ctx; result = err e }
  | returned s ↦
      if leb fd_setsize s then give_up ctx s live einval else elim (set_ipv4_options calls) [
        | err e ↦ give_up ctx s live e
        | pending ↦ record { live = s ∷ live; ctx = ctx; result = pending }
        | ok rc ↦ elim calls.inet_pton [
          | failed e ↦ give_up ctx s live e
          | returned n ↦
              if n == 0 then give_up ctx s live errno else elim (connect_socket s calls) [
                | err e ↦ give_up ctx s live e
                | pending ↦ record { live = s ∷ live; ctx = ctx; result = pending }
                | ok rc ↦ take_over ctx s (s ∷ live)
              ]
        ]
      ]
]

-- What the loop over the addresses leaves: the open descriptors, `errno` and the new socket.
pub record Tried : Type 0 where
  pub live : List ℕ
  pub errno : Errno
  pub new_s : Option ℕ

-- `errno` after the options were set, with the result dropped.
abbrev after_options : Calls → Errno → Errno
after_options calls errno =
    if calls.is_inet
    then elim (set_ipv4_options calls) [ err e ↦ e | ok n ↦ errno | pending ↦ errno ]
    else errno

-- The loop of `_modbus_tcp_pi_connect`.
unfoldable pub try_addresses : Errno → List Calls → List ℕ → Tried
try_addresses errno [] live = record { live = live; errno = errno; new_s = none }
try_addresses errno (calls ∷ rest) live = elim calls.socket [
  | failed e ↦ try_addresses e rest live
  | returned s ↦ elim (leb fd_setsize s) [
    | true ↦ try_addresses errno rest (release s (s ∷ live))
    | false ↦ elim (connect_socket s calls) [
      | err e ↦ try_addresses e rest (release s (s ∷ live))
      | pending ↦ try_addresses errno rest (release s (s ∷ live))
      | ok rc ↦ record { live = s ∷ live; errno = after_options calls errno; new_s = some s }
    ]
  ]
]

-- `_modbus_tcp_pi_connect`; `none` is a failure of `getaddrinfo`.
unfoldable pub tcp_pi_connect : Modbus → Errno → Option (List Calls) → List ℕ → Called
tcp_pi_connect ctx errno none live = record { live = live; ctx = ctx; result = err econnrefused }
tcp_pi_connect ctx errno (some addresses) live =
    let tried = try_addresses errno addresses live in
    elim tried.new_s [
      | none ↦ record { live = tried.live; ctx = ctx; result = err tried.errno }
      | some s ↦ take_over ctx s tried.live
    ]

unfoldable pub is_connected : Modbus → Bool
is_connected ctx = elim ctx.s [ pos n ↦ true | negsuc n ↦ false ]

-- `_modbus_tcp_close`
unfoldable pub tcp_close : Modbus → List ℕ → Called
tcp_close ctx live = elim ctx.s [
  | negsuc n ↦ record { live = live; ctx = ctx; result = ok 0 }
  | pos s ↦ record { live = release s live; ctx = record ctx { s = negsuc 0 }; result = ok 0 }
]

-- The loop of `_modbus_tcp_flush`; the list is what the calls of `recv` return, in order.
unfoldable pub flush_loop : ℕ → List Syscall → Result ℕ
flush_loop rc_sum [] = pending
flush_loop rc_sum (failed e ∷ calls) = ok rc_sum
flush_loop rc_sum (returned rc ∷ calls) =
    let next = flush_loop (rc_sum + rc) calls in
    if leb rc_sum (65535 - rc) then if rc == 260 then next else ok (rc_sum + rc) else err eoverflow

unfoldable pub tcp_flush : List Syscall → Result ℕ
tcp_flush calls = flush_loop 0 calls

-- What the calls for one address to listen on return.
pub record ListenCalls : Type 0 where
  pub socket : Syscall
  pub reuse : Syscall
  pub inet_pton : Syscall
  pub binding : Syscall
  pub listening : Syscall

-- A call's open descriptors and its result.
pub record Listened : Type 0 where
  pub live : List ℕ
  pub result : Result ℕ

-- The steps behind the address, which `modbus_tcp_listen` has in common with the PI loop.
abbrev pub abandon : ℕ → List ℕ → Errno → Listened
abandon s live e = record { live = release s (s ∷ live); result = err e }

abbrev pub bind_and_listen : ℕ → ListenCalls → List ℕ → Listened
bind_and_listen s calls live = elim calls.binding [
  | failed e ↦ abandon s live e
  | returned n ↦ elim calls.listening [
    | failed e ↦ abandon s live e
    | returned n ↦ record { live = s ∷ live; result = ok s }
  ]
]

-- `modbus_tcp_listen`; an address that begins with 0 is any address.
unfoldable pub tcp_listen : List ℕ → Errno → ListenCalls → List ℕ → Listened
tcp_listen ip errno calls live = elim calls.socket [
  | failed e ↦ record { live = live; result = err e }
  | returned s ↦ elim calls.reuse [
    | failed e ↦ abandon s live e
    | returned n ↦
        if byte_at ip 0 == b'0' then bind_and_listen s calls live else elim calls.inet_pton [
          | failed e ↦ abandon s live e
          | returned n ↦ if n == 0 then abandon s live errno else bind_and_listen s calls live
        ]
  ]
]

-- The loop of `modbus_tcp_pi_listen`.
unfoldable pub try_listen : Errno → List ListenCalls → List ℕ → Tried
try_listen errno [] live = record { live = live; errno = errno; new_s = none }
try_listen errno (calls ∷ rest) live = elim calls.socket [
  | failed e ↦ try_listen e rest live
  | returned s ↦ elim calls.reuse [
    | failed e ↦ try_listen e rest (release s (s ∷ live))
    | returned n ↦ elim calls.binding [
      | failed e ↦ try_listen e rest (release s (s ∷ live))
      | returned n ↦ elim calls.listening [
        | failed e ↦ try_listen e rest (release s (s ∷ live))
        | returned n ↦ record { live = s ∷ live; errno = errno; new_s = some s }
      ]
    ]
  ]
]

-- The node that is asked for: none, for any, where the text is empty.
abbrev pub node_or_null : List ℕ → Option (List ℕ)
node_or_null [] = none
node_or_null (c ∷ text) = some (c ∷ text)

-- The service that is asked for: "502" where the text is empty.
abbrev pub service_or_502 : List ℕ → List ℕ
service_or_502 [] = b'5' ∷ b'0' ∷ b'2' ∷ []
service_or_502 (c ∷ text) = c ∷ text

-- `modbus_tcp_pi_listen`; where `getaddrinfo` is `none`, it fails.
unfoldable pub tcp_pi_listen :
    (Option (List ℕ) → List ℕ → Option (List ListenCalls))
    → List ℕ
    → List ℕ
    → Errno
    → List ℕ
    → Listened
tcp_pi_listen getaddrinfo node service errno live =
    elim (getaddrinfo (node_or_null node) (service_or_502 service)) [
      | none ↦ record { live = live; result = err econnrefused }
      | some addresses ↦
          let tried = try_listen errno addresses live in
          elim tried.new_s [
            | none ↦ record { live = tried.live; result = err tried.errno }
            | some s ↦ record { live = tried.live; result = ok s }
          ]
    ]

-- `modbus_tcp_accept`. The context takes the new socket, and -1 on a failure.
unfoldable pub tcp_accept : Modbus → Syscall → List ℕ → Called
tcp_accept ctx (failed e) live = record {
  live = live;
  ctx = record ctx { s = negsuc 0 };
  result = err e;
}
tcp_accept ctx (returned s) live =
    if leb fd_setsize s
    then record {
      live = release s (s ∷ live);
      ctx = record ctx { s = negsuc 0 };
      result = err einval;
    }
    else record { live = s ∷ live; ctx = record ctx { s = pos s }; result = ok s }

-- `modbus_tcp_pi_accept`, which differs only in what it prints.
abbrev pub tcp_pi_accept : Modbus → Syscall → List ℕ → Called
tcp_pi_accept ctx call live = tcp_accept ctx call live
