-- ===== src/Tests/Sockets.antt =====
-- Runs of the sockets: connecting, listening and flushing; and the contexts over TCP.
use libmodbus.Base.{
  Option, List, ℕ, ◌+◌, ◌*◌, ◌≤◌, ◌<◌, ◌≡◌, ◌≢◌, refl, arith, true, [], ◌∷◌, ◌++◌, some, none,
  replicate, length-replicate, zero, suc,
}
use libmodbus.Context.{einval, econnrefused, einprogress, eoverflow, ok, err, pending, tcp}
use libmodbus.System.{returned, failed}
use libmodbus.Tcp.{
  Calls, ListenCalls, tcp_connect, tcp_pi_connect, tcp_listen, tcp_pi_listen, tcp_flush,
}
use libmodbus.Tcp.Connect.{Adopted, tcp_connect-Adopted}
use libmodbus.Tcp.Addresses.{tcp_pi_connect-Adopted}
use libmodbus.Tcp.Listen.{Opened, tcp_listen-Opened, tcp_pi_listen-Opened}
use libmodbus.Tcp.Flush.{AllFit, tcp_flush_counts, tcp_flush-ne-pending}
use libmodbus.Tests.{context}

-- A connection that is in progress and then established, and one that is refused.
abbrev established_calls : ℕ → Calls
established_calls s = record {
  socket = returned s;
  is_inet = true;
  no_delay = returned 0;
  low_delay = returned 0;
  inet_pton = returned 1;
  connecting = failed einprogress;
  selecting = returned 1;
  so_error = returned 0;
}

abbrev refused_calls : ℕ → Calls
refused_calls s = record (established_calls s) { connecting = failed econnrefused }

-- Descriptor 3 is the context's; the new one takes its place.
tcp_connect-Adopted_example :
    Adopted
      (context tcp)
      (3 ∷ 1 ∷ [])
      (some 5)
      (tcp_connect (context tcp) einval (established_calls 5) (3 ∷ 1 ∷ []))
tcp_connect-Adopted_example =
    tcp_connect-Adopted (context tcp) einval (3 ∷ 1 ∷ []) (established_calls 5) (refl, (refl, tt))

tcp_pi_connect-Adopted_example : Adopted (context tcp) (3 ∷ 1 ∷ []) (some 6) (
    tcp_pi_connect
      (context tcp)
      einval
      (some (refused_calls 5 ∷ established_calls 6 ∷ []))
      (3 ∷ 1 ∷ []))
tcp_pi_connect-Adopted_example =
    tcp_pi_connect-Adopted (context tcp) einval (refused_calls 5 ∷ established_calls 6 ∷ [])
      (3 ∷ 1 ∷ []) ((refl, (refl, tt)), ((refl, (refl, tt)), tt))

abbrev bound_calls : ℕ → ListenCalls
bound_calls s = record {
  socket = returned s;
  reuse = returned 0;
  inet_pton = returned 1;
  binding = returned 0;
  listening = returned 0;
}

abbrev unbound_calls : ℕ → ListenCalls
unbound_calls s = record (bound_calls s) { binding = failed einval }

tcp_listen-Opened_example :
    Opened (3 ∷ []) none (tcp_listen (b'1' ∷ b'2' ∷ []) einval (unbound_calls 5) (3 ∷ []))
tcp_listen-Opened_example =
    tcp_listen-Opened (b'1' ∷ b'2' ∷ []) einval (3 ∷ []) (unbound_calls 5) (refl, tt)

-- Two addresses of any node, of which the first is taken.
abbrev any_addresses : Option (List ℕ) → List ℕ → Option (List ListenCalls)
any_addresses none service = some (unbound_calls 5 ∷ bound_calls 5 ∷ [])
any_addresses (some name) service = none

tcp_pi_listen-Opened_example :
    Opened (3 ∷ []) (some 5) (tcp_pi_listen any_addresses [] [] einval (3 ∷ []))
tcp_pi_listen-Opened_example =
    tcp_pi_listen-Opened any_addresses [] [] einval (3 ∷ []) ((refl, tt), ((refl, tt), tt))

tcp_flush_counts_example :
    (2 * 260 + 7 ≤ 65535
      → tcp_flush (replicate 2 (returned 260) ++ returned 7 ∷ []) ≡ ok (2 * 260 + 7))
    × (65535 < 2 * 260 + 7
        → tcp_flush (replicate 2 (returned 260) ++ returned 7 ∷ []) ≡ err eoverflow)
tcp_flush_counts_example = tcp_flush_counts 2 (returned 7) [] (omega arith)

full_buffers : (n : ℕ) → AllFit (replicate n (returned 260))
full_buffers zero = tt
full_buffers (suc n) = (omega arith, full_buffers n)

tcp_flush-ne-pending_example : tcp_flush (replicate 253 (returned 260)) ≢ pending
tcp_flush-ne-pending_example =
    tcp_flush-ne-pending (replicate 253 (returned 260)) (full_buffers 253)
      (omega (arith, length-replicate 253 (returned 260)))
