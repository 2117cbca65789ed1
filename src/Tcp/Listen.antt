-- ===== src/Tcp/Listen.antt =====
-- Which socket a server listens on, and that no other descriptor is left open.
use libmodbus.Base.{
  ℕ, ◌≡◌, refl, Bool, true, false, ◌&&◌, ◌||◌, List, [], ◌∷◌, Option, none, some, ◌==◌, byte_at,
  Bool-cases, inl, inr, if◌then◌else◌,
}
use libmodbus.Context.{Errno, econnrefused, ok, err}
use libmodbus.System.{Syscall, returned, failed}
use libmodbus.System.Held.{Absent, release_self}
use libmodbus.Tcp.{
  ListenCalls, Listened, Tried, bind_and_listen, abandon, tcp_listen, try_listen, tcp_pi_listen,
  node_or_null, service_or_502,
}
use libmodbus.Tcp.Connect.{Fresh, succeeds, is_positive}
use libmodbus.Tcp.Addresses.{or_else}

-- The socket of an address, where the test holds.
abbrev pub bound : Syscall → Bool → Option ℕ
bound (returned s) test = if test then some s else none
bound (failed e) test = none

abbrev pub all_succeed : ListenCalls → Bool
all_succeed calls = succeeds calls.reuse && (succeeds calls.binding && succeeds calls.listening)

-- A call with the socket leaves it open and returns it; one without it fails, and closes all that
-- it opened.
abbrev pub Opened : List ℕ → Option ℕ → Listened → Type 0
Opened live (some s) r = (r.result ≡ ok s) × (r.live ≡ s ∷ live)
Opened live none r = (e : Errno) × (r.result ≡ err e) × (r.live ≡ live)

abbrev pub AllNew : List ListenCalls → List ℕ → Type 0
AllNew [] live = Unit {0}
AllNew (calls ∷ rest) live = Fresh calls.socket live × AllNew rest live

-- The socket of the first address that can be listened on.
abbrev pub first_bound : List ListenCalls → Option ℕ
first_bound [] = none
first_bound (calls ∷ rest) = or_else (bound calls.socket (all_succeed calls)) (first_bound rest)

abbrev Left : List ℕ → Option ℕ → Tried → Type 0
Left live (some s) t = (t.new_s ≡ some s) × (t.live ≡ s ∷ live)
Left live none t = (t.new_s ≡ none) × (t.live ≡ live)

module _ (live : List ℕ) where
  try_listen-Left :
      (errno : Errno) (addresses : List ListenCalls)
      → AllNew addresses live
      → Left live (first_bound addresses) (try_listen errno addresses live)
  unfolding try_listen
  try_listen-Left errno [] fresh = (refl, refl)
  try_listen-Left errno (calls ∷ rest) (fresh, more) =
      by_calls calls.socket calls.reuse calls.binding calls.listening fresh
        (λ e. try_listen-Left e rest more)
    where
      by_calls :
          (so re bi li : Syscall)
          → Fresh so live
          → ((errno : Errno) → Left live (first_bound rest) (try_listen errno rest live))
          → let c : ListenCalls = record calls {
            socket = so;
            reuse = re;
            binding = bi;
            listening = li;
          } in
            Left live (first_bound (c ∷ rest)) (try_listen errno (c ∷ rest) live)
      by_calls (failed e) re bi li f ih = ih e
      by_calls (returned s) (failed e) bi li f ih = rw (release_self s live f, try_listen) (ih e)
      by_calls (returned s) (returned a) (failed e) li f ih =
          rw (release_self s live f, try_listen) (ih e)
      by_calls (returned s) (returned a) (returned b) (failed e) f ih =
          rw (release_self s live f, try_listen) (ih e)
      by_calls (returned s) (returned a) (returned b) (returned c) f ih = (refl, refl)

-- What is asked of the system for a node and a service, of which an empty text is any node and
-- the service "502".
abbrev pub addresses_of :
    (Option (List ℕ) → List ℕ → Option (List ListenCalls))
    → List ℕ
    → List ℕ
    → Option (List ListenCalls)
addresses_of getaddrinfo [] [] = getaddrinfo none (b'5' ∷ b'0' ∷ b'2' ∷ [])
addresses_of getaddrinfo [] service = getaddrinfo none service
addresses_of getaddrinfo node [] = getaddrinfo (some node) (b'5' ∷ b'0' ∷ b'2' ∷ [])
addresses_of getaddrinfo node service = getaddrinfo (some node) service

abbrev pub AllNewAt : Option (List ListenCalls) → List ℕ → Type 0
AllNewAt none live = Unit {0}
AllNewAt (some addresses) live = AllNew addresses live

abbrev pub first_bound_at : Option (List ListenCalls) → Option ℕ
first_bound_at none = none
first_bound_at (some addresses) = first_bound addresses

module _ (getaddrinfo : Option (List ℕ) → List ℕ → Option (List ListenCalls)) where
  addresses_of-asked :
      (host service : List ℕ)
      → addresses_of getaddrinfo host service
        ≡ getaddrinfo (node_or_null host) (service_or_502 service)
  addresses_of-asked [] [] = refl
  addresses_of-asked [] (c ∷ service) = refl
  addresses_of-asked (c ∷ host) [] = refl
  addresses_of-asked (c ∷ host) (d ∷ service) = refl

  by_first :
      (live : List ℕ) (o : Option ℕ) (tried : Tried)
      → Left live o tried
      → Opened live o (elim tried.new_s as (λ x. Listened) [
        | none ↦ record { live = tried.live; result = err tried.errno }
        | some s ↦ record { live = tried.live; result = ok s }
      ])
  by_first live (some s) tried (n, l) = rw (n, l) (refl, refl)
  by_first live none tried (n, l) = rw (n, l) (tried.errno, refl, refl)

  by_answer :
      (host service : List ℕ) (errno : Errno) (live : List ℕ) (found : Option (List ListenCalls))
      → getaddrinfo (node_or_null host) (service_or_502 service) ≡ found
      → AllNewAt found live
      → Opened live (first_bound_at found) (tcp_pi_listen getaddrinfo host service errno live)
  unfolding tcp_pi_listen
  by_answer host service errno live none e fresh = rw (tcp_pi_listen, e) (econnrefused, refl, refl)
  by_answer host service errno live (some addresses) e fresh =
      rw (tcp_pi_listen, e)
        (by_first live (first_bound addresses) (try_listen errno addresses live)
          (try_listen-Left live errno addresses fresh))

  -- A server on a node, or on any where its name is empty, and a service, or "502" where that is
  -- empty, listens on the first of their addresses that can be listened on, and leaves no other
  -- descriptor open; where there is none, or the addresses cannot be found, it fails and closes all
  -- that it opened.
  pub tcp_pi_listen-Opened :
      (host service : List ℕ) (errno : Errno) (live : List ℕ)
      → AllNewAt (addresses_of getaddrinfo host service) live
      → Opened live
          (first_bound_at (addresses_of getaddrinfo host service))
          (tcp_pi_listen getaddrinfo host service errno live)
  tcp_pi_listen-Opened host service errno live = rw (addresses_of-asked host service) (
      by_answer host service errno live (getaddrinfo (node_or_null host) (service_or_502 service))
        refl)

-- The address may be any, or the text is one.
abbrev pub names_address : List ℕ → ListenCalls → Bool
names_address ip calls = byte_at ip 0 == b'0' || is_positive calls.inet_pton

module _ (ip : List ℕ) (errno : Errno) (live : List ℕ) (calls : ListenCalls) where
  abbrev with_calls : Syscall → Syscall → Syscall → Syscall → Syscall → ListenCalls
  with_calls so re ip bi li = record {
    socket = so;
    reuse = re;
    inet_pton = ip;
    binding = bi;
    listening = li;
  }

  abbrev Serves : ListenCalls → Type 0
  Serves c =
      Opened live (bound c.socket (names_address ip c && all_succeed c))
        (tcp_listen ip errno c live)

  module _ (s : ℕ) (fresh : Absent s live) where
    given_up : {e : Errno} → Opened live none (abandon s live e)
    given_up {e} = (e, refl, release_self s live fresh)

    bound_or_not :
        (bi li : Syscall) (c : ListenCalls)
        → let d : ListenCalls = record c { binding = bi; listening = li } in
          Opened live
            (if succeeds bi && succeeds li then some s else none)
            (bind_and_listen s d live)
    bound_or_not (failed e) li c = given_up
    bound_or_not (returned b) (failed e) c = given_up
    bound_or_not (returned b) (returned l) c = (refl, refl)

    with_address :
        (any : Bool) (re pt bi li : Syscall)
        → (byte_at ip 0 == b'0') ≡ any
        → Serves (with_calls (returned s) re pt bi li)
    unfolding tcp_listen
    with_address true (failed x) pt bi li e = rw e given_up
    with_address true (returned r) pt bi li e = rw e (bound_or_not bi li calls)
    with_address false (failed x) (failed y) bi li e = rw e given_up
    with_address false (failed x) (returned n) bi li e = elim (Bool-cases (n == 0)) [
      | inl z ↦ rw (e, z) given_up
      | inr z ↦ rw (e, z) given_up
    ]
    with_address false (returned r) (failed y) bi li e = rw e given_up
    with_address false (returned r) (returned n) bi li e = elim (Bool-cases (n == 0)) [
      | inl z ↦ rw (e, z) given_up
      | inr z ↦ rw (e, z) (bound_or_not bi li calls)
    ]

  by_calls : (so re pt bi li : Syscall) → Fresh so live → Serves (with_calls so re pt bi li)
  unfolding tcp_listen
  by_calls (failed e) re pt bi li fresh = (e, refl, refl)
  by_calls (returned s) re pt bi li fresh =
      with_address s fresh (byte_at ip 0 == b'0') re pt bi li refl

  -- `modbus_tcp_listen` returns a socket that is open where every call for it succeeds and the
  -- address is any or is one; else it fails and has closed what it opened.
  pub tcp_listen-Opened : Fresh calls.socket live → Serves calls
  tcp_listen-Opened fresh =
      by_calls calls.socket calls.reuse calls.inet_pton calls.binding calls.listening fresh
