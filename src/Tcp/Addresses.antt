-- ===== src/Tcp/Addresses.antt =====
-- `_modbus_tcp_pi_connect`: the loop over the addresses of a node.
use libmodbus.Base.{
  ℕ, ◌≡◌, refl, Bool, true, false, List, [], ◌∷◌, Option, none, some, leb, Bool-cases, inl, inr,
  if◌then◌else◌,
}
use libmodbus.Context.{Errno, Result, ok, err, pending, Modbus}
use libmodbus.System.{Syscall, returned, failed, fd_setsize, release}
use libmodbus.System.Held.{Absent, release_self}
use libmodbus.Tcp.{Calls, Tried, connect_socket, try_addresses, tcp_pi_connect}
use libmodbus.Tcp.Connect.{Fresh, established, usable, Adopted, Verdict, connect_socket-established}

-- The system's answers give no descriptor that is open already.
abbrev pub AllFresh : List Calls → List ℕ → Type 0
AllFresh [] live = Unit {0}
AllFresh (calls ∷ rest) live = Fresh calls.socket live × AllFresh rest live

abbrev pub or_else : Option ℕ → Option ℕ → Option ℕ
or_else none o = o
or_else (some s) o = some s

-- The socket of the first address that can be connected to.
abbrev pub first_usable : List Calls → Option ℕ
first_usable [] = none
first_usable (calls ∷ rest) = or_else (usable calls.socket (established calls)) (first_usable rest)

-- The loop ends with that socket open, and with no other.
abbrev Kept : List ℕ → Option ℕ → Tried → Type 0
Kept live (some s) t = (t.new_s ≡ some s) × (t.live ≡ s ∷ live)
Kept live none t = (t.new_s ≡ none) × (t.live ≡ live)

module _ (live : List ℕ) where
  module _ (s : ℕ) (fresh : Absent s live) (rest : List Calls)
      (ih : (errno : Errno) → Kept live (first_usable rest) (try_addresses errno rest live)) where
    -- A socket that was closed again leaves what was open.
    next :
        (errno : Errno)
        → Kept live (first_usable rest) (try_addresses errno rest (release s (s ∷ live)))
    next errno = rw (release_self s live fresh) (ih errno)

    after_connect :
        (b : Bool) (r : Result ℕ) (errno left : Errno)
        → Verdict b r
        → Kept live
            (or_else (if b then some s else none) (first_usable rest))
            (elim r as (λ r. Tried) [
              | err e ↦ try_addresses e rest (release s (s ∷ live))
              | pending ↦ try_addresses errno rest (release s (s ∷ live))
              | ok rc ↦ record { live = s ∷ live; errno = left; new_s = some s }
            ])
    after_connect true (ok n) errno left v = (refl, refl)
    after_connect true (err e) errno left (n, v) = absurd cc
    after_connect true pending errno left (n, v) = absurd cc
    after_connect false (ok n) errno left (e, v) = absurd cc
    after_connect false (err e) errno left v = next e
    after_connect false pending errno left (e, v) = absurd cc

  try_addresses-Kept :
      (errno : Errno) (addresses : List Calls)
      → AllFresh addresses live
      → Kept live (first_usable addresses) (try_addresses errno addresses live)
  unfolding try_addresses
  try_addresses-Kept errno [] fresh = (refl, refl)
  try_addresses-Kept errno (calls ∷ rest) (fresh, more) =
      by_socket calls.socket fresh (λ e. try_addresses-Kept e rest more)
    where
      by_socket :
          (so : Syscall)
          → Fresh so live
          → ((errno : Errno) → Kept live (first_usable rest) (try_addresses errno rest live))
          → let c : Calls = record calls { socket = so } in
            Kept live (first_usable (c ∷ rest)) (try_addresses errno (c ∷ rest) live)
      by_socket (failed e) f ih = ih e
      by_socket (returned s) f ih = elim (Bool-cases (leb fd_setsize s)) [
        | inl big ↦ rw (big, try_addresses) (next s f rest ih errno)
        | inr small ↦
            let c : Calls = record calls { socket = returned s } in
            rw (small, try_addresses)
              (after_connect s f rest ih (established c) (connect_socket s c) errno _
                (connect_socket-established s c small))
      ]

-- A connection to a node takes the socket of its first address that can be connected to, in the place
-- of the previous one, and leaves no other descriptor open; where there is none, it fails, and
-- the open descriptors and the context are as they were.
pub tcp_pi_connect-Adopted :
    (ctx : Modbus) (errno : Errno) (addresses : List Calls) (live : List ℕ)
    → AllFresh addresses live
    → Adopted ctx live (first_usable addresses) (tcp_pi_connect ctx errno (some addresses) live)
unfolding tcp_pi_connect
tcp_pi_connect-Adopted ctx errno addresses live fresh =
    by_first (first_usable addresses) (try_addresses-Kept live errno addresses fresh)
  where
    tried : Tried
    tried = try_addresses errno addresses live

    by_first :
        (o : Option ℕ)
        → Kept live o tried
        → Adopted ctx live o (tcp_pi_connect ctx errno (some addresses) live)
    by_first (some s) (e, e') = rw (e, e', tcp_pi_connect) (refl, refl, refl)
    by_first none (e, e') = rw (e, e', tcp_pi_connect) (tried.errno, refl, refl, refl)
