-- ===== src/Client/Repeats.antt =====
-- The requests that a server repeats as its response.
use libmodbus.Base.{
  ℕ, ◌+◌, ◌-◌, ◌≡◌, refl, sym, ap, ◌⊎◌, inl, inr, ==_iff, List, ◌++◌, byte_at, length, append-nil,
}
use libmodbus.Context.{Backend, rtu, tcp}
use libmodbus.Backend.{send_msg_pre}
use libmodbus.Confirm.{expected_echo}
use libmodbus.Confirm.Accepts.{agreed}
use libmodbus.Client.Messages.{front, carried, message}
use libmodbus.Client.Answered.{sent}

-- The two functions that write one entry.
abbrev pub WritesOne : ℕ → Type 0
WritesOne function = (function ≡ 5) ⊎ (function ≡ 6)

-- The requests that a server repeats, with what stands behind the address and the first word.
abbrev pub IsRepeated : ℕ → List ℕ → Type 0
IsRepeated function more =
    (WritesOne function × (length more ≡ 0)) ⊎ ((function ≡ 22) × (length more ≡ 2))

-- The counts and the fields agree where the response repeats the request.
pub expected_echo-repeated :
    (offset function : ℕ) (more req rsp : List ℕ)
    → IsRepeated function more
    → byte_at req (offset + 1) ≡ byte_at rsp (offset + 1)
    → byte_at req (offset + 2) ≡ byte_at rsp (offset + 2)
    → byte_at req (offset + 3) ≡ byte_at rsp (offset + 3)
    → byte_at req (offset + 4) ≡ byte_at rsp (offset + 4)
    → expected_echo offset function req rsp ≡ agreed offset req rsp 1
unfolding expected_echo
expected_echo-repeated offset function more req rsp h s1 s2 s3 s4 = elim h [
  | inl (inl e, _) ↦
      rw (e, (==_iff _ _).1 s1, (==_iff _ _).1 s2, (==_iff _ _).1 s3, (==_iff _ _).1 s4) refl
  | inl (inr e, _) ↦
      rw (e, (==_iff _ _).1 s1, (==_iff _ _).1 s2, (==_iff _ _).1 s3, (==_iff _ _).1 s4) refl
  | inr (e, _) ↦ rw e refl
]

-- A message that is sent once more, without its checksum, gives the same frame.
pub resent :
    (b : Backend) (slave t n function : ℕ) (body : List ℕ)
    → send_msg_pre b (message b slave t n function body) ≡ sent b slave t function body body
unfolding send_msg_pre
resent rtu slave t n function body = refl
resent tcp slave t n function body =
    ap (λ l. front tcp slave t (length (front tcp slave t 0 function ++ body) - 6) function ++ l)
      (sym (append-nil body))

-- Only TCP carries the transaction.
pub front-carried :
    (b : Backend) (slave t n function : ℕ)
    → front b slave (carried b t) n function ≡ front b slave t n function
front-carried rtu slave t n function = refl
front-carried tcp slave t n function = refl
