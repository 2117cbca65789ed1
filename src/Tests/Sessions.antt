-- ===== src/Tests/Sessions.antt =====
-- Sessions of a client with a server, and the memory.
use libmodbus.Base.{ℕ, ◌≡◌, refl, arith, List, [], ◌∷◌}
use libmodbus.Context.{einval, rtu, tcp, ok, err, emb}
use libmodbus.Mapping.{Mapping}
use libmodbus.Client.Calls.{
  Call, coils_read, coil_written, register_masked, registers_written, registers_read,
}
use libmodbus.Memory.{remote, memory_of, collect, written, updated, fetched, view, overwrite}
use libmodbus.Memory.Present.{AreBits, Exchanged}
use libmodbus.Memory.Refinement.{issue-remote}
use libmodbus.Memory.Session.{Session, remotely, Session-remotely}
use libmodbus.Tests.{context, mapping, mapping-IsValid, ready}

mapping-AreBits : AreBits mapping
mapping-AreBits = ((omega arith, (omega arith, (omega arith, tt))), tt)

issue-remote_example :
    Exchanged []
      (context tcp)
      (context tcp)
      einval
      21
      mapping
      (coil_written 1)
      (remote (coil_written 1) 21 (memory_of mapping))
issue-remote_example =
    issue-remote [] (context tcp) (context tcp) einval 17 21 mapping (ready tcp) refl
      mapping-IsValid (omega arith) mapping-AreBits (coil_written 1) tt tt

-- Two writes, a read of both, and a read that goes past the end.
abbrev calls : List (Call × ℕ)
calls =
    (registers_written 2 (7 ∷ 8 ∷ []), 108)
    ∷ (register_masked 0xf0 5, 107)
    ∷ (registers_read 3, 107)
    ∷ (coils_read 4, 20)
    ∷ []

Session-remotely_example :
    (last : Mapping) × Session []
      (context rtu)
      einval
      (context rtu)
      mapping
      calls
      (remotely calls (memory_of mapping)).1
      last
    × (memory_of last ≡ (remotely calls (memory_of mapping)).0)
Session-remotely_example =
    Session-remotely [] (context rtu) einval 17 calls (context rtu) mapping
      (
        ((omega arith, omega arith), (omega arith, (omega arith, tt)), omega arith),
        (
          ((omega arith, omega arith), tt, omega arith),
          (
            ((omega arith, omega arith), tt, omega arith),
            (((omega arith, omega arith), tt, omega arith), tt),
          ),
        ),
      )
      (ready rtu) refl (mapping-IsValid, mapping-AreBits)

-- What the memory answers.
results :
    (remotely calls (memory_of mapping)).1
    ≡ ok (2, []) ∷ ok (1, []) ∷ ok (3, 37 ∷ 7 ∷ 8 ∷ []) ∷ err (emb 2) ∷ []
unfolding remotely remote collect written updated fetched view overwrite
results = refl
