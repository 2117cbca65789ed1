-- ===== src/Memory/Refinement.antt =====
-- The calls of a client, answered by a server over either backend, against the memory.
use libmodbus.Base.{AllBelow, ℕ, ◌<◌, ◌≡◌, refl, arith, inl, inr, List}
use libmodbus.Context.{Modbus, Errno, err, emb, illegal_data_address}
use libmodbus.Mapping.{Mapping, IsValid}
use libmodbus.Client.Calls.{
  Call, coils_read, inputs_read, registers_read, input_registers_read, coil_written,
  register_written, register_masked, coils_written, registers_written, IsAllowed, IsMissing,
}
use libmodbus.Client.Refusals.{issue-missing}
use libmodbus.Client.EndToEnd.{IsReady}
use libmodbus.Memory.{fetched, written, updated, remote, memory_of}
use libmodbus.Memory.Views.{missing_cell, within, collect-outside}
use libmodbus.Memory.Present.{
  AreBits, Exchanged, coils_read-there, inputs_read-there, registers_read-there,
  input_registers_read-there,
}
use libmodbus.Memory.Written.{
  coil_written-there, register_written-there, register_masked-there, coils_written-there,
  registers_written-there,
}

-- The values that a call writes into registers have 16 bits.
abbrev pub AreWords : Call → Type 0
AreWords (registers_written nb src) = AllBelow 65536 src
AreWords _ = Unit {0}

-- What the call needs is not there.
remote-missing :
    (call : Call) (addr : ℕ) (m : Mapping)
    → IsAllowed call
    → IsMissing call m addr
    → remote call addr (memory_of m) ≡ (memory_of m, err (emb illegal_data_address))
unfolding remote fetched written updated
remote-missing (coils_read nb) addr m allowed missing =
    rw (collect-outside m.start_bits m.nb_bits m.tab_bits nb addr allowed.0 missing) refl
remote-missing (inputs_read nb) addr m allowed missing =
    rw
      (collect-outside m.start_input_bits m.nb_input_bits m.tab_input_bits nb addr allowed.0
        missing)
      refl
remote-missing (registers_read nb) addr m allowed missing =
    rw (collect-outside m.start_registers m.nb_registers m.tab_registers nb addr allowed.0 missing)
      refl
remote-missing (input_registers_read nb) addr m allowed missing =
    rw
      (collect-outside m.start_input_registers m.nb_input_registers m.tab_input_registers nb addr
        allowed.0 missing)
      refl
remote-missing (coil_written status) addr m allowed missing =
    rw (collect-outside m.start_bits m.nb_bits m.tab_bits 1 addr (omega arith) missing) refl
remote-missing (register_written value) addr m allowed missing =
    rw
      (collect-outside m.start_registers m.nb_registers m.tab_registers 1 addr (omega arith)
        missing)
      refl
remote-missing (register_masked and_mask or_mask) addr m allowed missing =
    rw (remote, updated, missing_cell m.start_registers m.nb_registers m.tab_registers addr missing)
      refl
remote-missing (coils_written nb src) addr m allowed missing =
    rw (collect-outside m.start_bits m.nb_bits m.tab_bits nb addr allowed.0 missing) refl
remote-missing (registers_written nb src) addr m allowed missing =
    rw (collect-outside m.start_registers m.nb_registers m.tab_registers nb addr allowed.0 missing)
      refl

module _ (version : List ℕ) (client server : Modbus) (errno : Errno) (slave addr : ℕ) (m : Mapping)
    (ready : IsReady client slave) (same : server.backend ≡ client.backend) (v : IsValid m)
    (ha : addr < 65536) (bits : AreBits m) where
  refused :
      (call : Call)
      → IsAllowed call
      → IsMissing call m addr
      → Exchanged version client server errno addr m call (remote call addr (memory_of m))
  refused call allowed missing =
      let (frame, rsp, failed, kept) =
        issue-missing version client server errno slave addr call m ready same ha allowed missing in
      rw (remote-missing call addr m allowed missing) (frame, rsp, m, failed, kept, refl)

  -- A connected client whose slave is set, to no broadcast, and a server over the same backend, with
  -- a well-formed mapping whose bits are 0 or 1, implement the memory that the mapping stands for:
  -- for each of the nine calls that begin with an address, with a quantity that the call allows and
  -- 16-bit values, there are a frame that the client sends and a response that `modbus_reply` sends
  -- to it, such that the client, fed with that response, returns what the call on the memory
  -- returns, the values or the error of an illegal data address, and the mapping afterwards
  -- stands for the memory after that call.
  pub issue-remote :
      (call : Call)
      → IsAllowed call
      → AreWords call
      → Exchanged version client server errno addr m call (remote call addr (memory_of m))
  issue-remote (coils_read nb) allowed words = elim (within m.start_bits m.nb_bits addr nb) [
    | inl missing ↦ refused (coils_read nb) allowed missing
    | inr place ↦
        coils_read-there version client server errno slave addr m ready same v ha nb allowed.0
          allowed.1 bits place.0 place.1
  ]
  issue-remote (inputs_read nb) allowed words =
      elim (within m.start_input_bits m.nb_input_bits addr nb) [
        | inl missing ↦ refused (inputs_read nb) allowed missing
        | inr place ↦
            inputs_read-there version client server errno slave addr m ready same v ha nb allowed.0
              allowed.1 bits place.0 place.1
      ]
  issue-remote (registers_read nb) allowed words =
      elim (within m.start_registers m.nb_registers addr nb) [
        | inl missing ↦ refused (registers_read nb) allowed missing
        | inr place ↦
            registers_read-there version client server errno slave addr m ready same v ha nb
              allowed.0 allowed.1 place.0 place.1
      ]
  issue-remote (input_registers_read nb) allowed words =
      elim (within m.start_input_registers m.nb_input_registers addr nb) [
        | inl missing ↦ refused (input_registers_read nb) allowed missing
        | inr place ↦
            input_registers_read-there version client server errno slave addr m ready same v ha nb
              allowed.0 allowed.1 place.0 place.1
      ]
  issue-remote (coil_written status) allowed words = elim (within m.start_bits m.nb_bits addr 1) [
    | inl missing ↦ refused (coil_written status) allowed missing
    | inr place ↦
        coil_written-there version client server errno slave addr m ready same v ha status place.0
          place.1
  ]
  issue-remote (register_written value) allowed words =
      elim (within m.start_registers m.nb_registers addr 1) [
        | inl missing ↦ refused (register_written value) allowed missing
        | inr place ↦
            register_written-there version client server errno slave addr m ready same v ha value
              allowed place.0 place.1
      ]
  issue-remote (register_masked and_mask or_mask) allowed words =
      elim (within m.start_registers m.nb_registers addr 1) [
        | inl missing ↦ refused (register_masked and_mask or_mask) allowed missing
        | inr place ↦
            register_masked-there version client server errno slave addr m ready same v ha and_mask
              or_mask allowed.0 allowed.1 place.0 place.1
      ]
  issue-remote (coils_written nb src) allowed words = elim (within m.start_bits m.nb_bits addr nb) [
    | inl missing ↦ refused (coils_written nb src) allowed missing
    | inr place ↦
        coils_written-there version client server errno slave addr m ready same v ha nb allowed.0
          src allowed.1 place.0 place.1
  ]
  issue-remote (registers_written nb src) allowed words =
      elim (within m.start_registers m.nb_registers addr nb) [
        | inl missing ↦ refused (registers_written nb src) allowed missing
        | inr place ↦
            registers_written-there version client server errno slave addr m ready same v ha nb
              allowed.0 src allowed.1 words place.0 place.1
      ]
