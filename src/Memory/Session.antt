-- ===== src/Memory/Session.antt =====
-- Several calls of one client, one after the other, each answered by the server.
use libmodbus.Base.{
  ℕ, ◌<◌, ◌≡◌, refl, sym, ap, ◌∙◌, arith, false, ◌||◌, ltb, ◌==◌, if◌then◌else◌, List, [], ◌∷◌,
  length,
}
use mathlib.Core.Path.{subst}
use libmodbus.Context.{Backend, rtu, tcp, Modbus, Errno, transmit, ok, Result}
use libmodbus.Mapping.{Mapping, IsValid}
use libmodbus.Send.{SendOutcome, sends}
use libmodbus.Receive.{Event, bytes}
use libmodbus.Reply.{reply}
use libmodbus.Client.{
  read_io_status, read_bits, read_input_bits, read_words, read_registers, read_input_registers,
  write_single, write_bit, write_register, mask_write_register, write_bits, write_registers,
}
use libmodbus.Client.Messages.{counter, asked, build_request_basis-front}
use libmodbus.Client.Reading.{next_tid-lt}
use libmodbus.Client.Calls.{
  Call, coils_read, inputs_read, registers_read, input_registers_read, coil_written,
  register_written, register_masked, coils_written, registers_written, issue, IsAllowed,
}
use libmodbus.Client.EndToEnd.{IsReady}
use libmodbus.Memory.{Memory, remote, memory_of}
use libmodbus.Memory.Present.{AreBits}
use libmodbus.Memory.Refinement.{AreWords, issue-remote}
use libmodbus.Memory.Invariant.{
  HoldsBits, view-HoldsBits, HoldsBits-view, reply-IsValid, remote-inputs, remote-HoldsBits,
}

module _ (client : Modbus) (errno : Errno) (outcomes : List SendOutcome) (events : List Event)
    (addr : ℕ) where
  -- A call that is let through leaves the client as its request was built.
  issue-asked :
      (call : Call)
      → IsAllowed call
      → (issue call client errno outcomes events addr).0 ≡ asked client.backend client
  unfolding read_bits read_input_bits read_io_status read_registers read_input_registers read_words
      write_bit write_register write_single mask_write_register write_bits write_registers
  issue-asked (coils_read nb) allowed =
      let in_range : (ltb nb 1 || ltb 2000 nb) ≡ false = ground (arith, allowed) in
      rw (in_range, build_request_basis-front client.backend client 1 addr nb) refl
  issue-asked (inputs_read nb) allowed =
      let in_range : (ltb nb 1 || ltb 2000 nb) ≡ false = ground (arith, allowed) in
      rw (in_range, build_request_basis-front client.backend client 2 addr nb) refl
  issue-asked (registers_read nb) allowed =
      let in_range : (ltb nb 1 || ltb 125 nb) ≡ false = ground (arith, allowed) in
      let few : ltb 125 nb ≡ false = ground (arith, allowed) in
      rw (in_range, few, build_request_basis-front client.backend client 3 addr nb) refl
  issue-asked (input_registers_read nb) allowed =
      let in_range : (ltb nb 1 || ltb 125 nb) ≡ false = ground (arith, allowed) in
      let few : ltb 125 nb ≡ false = ground (arith, allowed) in
      rw (in_range, few, build_request_basis-front client.backend client 4 addr nb) refl
  issue-asked (coil_written status) allowed =
      rw
        (build_request_basis-front client.backend client 5 addr (if status == 0 then 0 else 0xff00))
        refl
  issue-asked (register_written value) allowed =
      rw (build_request_basis-front client.backend client 6 addr value) refl
  issue-asked (register_masked and_mask or_mask) allowed =
      rw (build_request_basis-front client.backend client 22 addr 0) refl
  issue-asked (coils_written nb src) allowed =
      let in_range : (ltb nb 1 || ltb 1968 nb) ≡ false = ground (arith, allowed) in
      rw (in_range, build_request_basis-front client.backend client 15 addr nb) refl
  issue-asked (registers_written nb src) allowed =
      let in_range : (ltb nb 1 || ltb 123 nb) ≡ false = ground (arith, allowed) in
      rw (in_range, build_request_basis-front client.backend client 16 addr nb) refl

  issue-IsReady :
      (call : Call) (slave : ℕ)
      → IsAllowed call
      → IsReady client slave
      → IsReady (issue call client errno outcomes events addr).0 slave
        × ((issue call client errno outcomes events addr).0.backend ≡ client.backend)
  issue-IsReady call slave allowed ready =
      rw (issue-asked call allowed) (ready_asked client.backend ready, refl)
    where
      ready_asked : (b : Backend) → IsReady client slave → IsReady (asked b client) slave
      ready_asked b ready = record {
        descriptor = ready.descriptor;
        is_slave = ready.is_slave;
        no_broadcast = ready.no_broadcast;
        one_byte = ready.one_byte;
        is_open = ready.is_open;
        selectable = ready.selectable;
        small_tid = counted b;
      }
        where
          counted : (b : Backend) → counter b client.t_id < 65536
          counted rtu = ready.small_tid
          counted tcp = next_tid-lt client.t_id ready.small_tid

-- The results of the client's calls.
abbrev pub Results : Type 0
Results = List (Result (ℕ × List ℕ))

-- A session: each call sends one frame, which the server answers with one response, and the client
-- that has its result goes on to the next call, against the mapping that the server has left.
module _ (version : List ℕ) (server : Modbus) (errno : Errno) where
  pub data Session : Modbus → Mapping → List (Call × ℕ) → Results → Mapping → Type 0 where
    ended : {client : Modbus} {m : Mapping} → Session client m [] [] m
    turn :
        {client : Modbus} {m after last : Mapping} {calls : List (Call × ℕ)} {results : Results}
        {call : Call} {addr : ℕ} {frame rsp : List ℕ} {result : Result (ℕ × List ℕ)}
        → (issue call client errno (sends (length frame) ∷ []) (bytes rsp ∷ []) addr).1
          ≡ (transmit frame ∷ [], result)
        → reply version server frame (length frame) m (sends (length rsp) ∷ [])
          ≡ (after, (transmit rsp ∷ [], ok (length rsp)))
        → Session
            (issue call client errno (sends (length frame) ∷ []) (bytes rsp ∷ []) addr).0
            after
            calls
            results
            last
        → Session client m ((call, addr) ∷ calls) (result ∷ results) last

-- The calls on a memory, in order.
unfoldable pub remotely : List (Call × ℕ) → Memory → Memory × Results
remotely [] mem = (mem, [])
remotely ((call, addr) ∷ calls) mem =
    let (after, result) = remote call addr mem in
    let (last, results) = remotely calls after in (last, result ∷ results)

abbrev pub AllAllowed : List (Call × ℕ) → Type 0
AllAllowed [] = Unit {0}
AllAllowed ((call, addr) ∷ calls) =
    (IsAllowed call × AreWords call × (addr < 65536)) × AllAllowed calls

-- What is true between the calls.
abbrev pub IsServed : Mapping → Type 0
IsServed m = IsValid m × AreBits m

module _ (version : List ℕ) (server : Modbus) (errno : Errno) (slave : ℕ) where
  after-IsServed :
      (m after : Mapping) (call : Call) (addr : ℕ) (req : List ℕ) (n : ℕ)
      (outcomes : List SendOutcome)
      → IsServed m
      → (reply version server req n m outcomes).0 ≡ after
      → memory_of after ≡ (remote call addr (memory_of m)).0
      → IsServed after
  after-IsServed m after call addr req n outcomes served left same = (
    valid,
    (
      HoldsBits-view after.start_bits after.nb_bits after.tab_bits valid.bits_length (
          subst (λ (mem : Memory). HoldsBits mem.coils) (sym same)
            (remote-HoldsBits call addr (memory_of m)
              (view-HoldsBits m.start_bits m.nb_bits m.tab_bits served.1.0))),
      HoldsBits-view after.start_input_bits after.nb_input_bits after.tab_input_bits
          valid.input_bits_length
          (subst HoldsBits
            (sym (ap (λ (mem : Memory). mem.inputs) same ∙ remote-inputs call addr (memory_of m)))
            (view-HoldsBits m.start_input_bits m.nb_input_bits m.tab_input_bits served.1.1)),
    ),
  )
    where
      valid : IsValid after
      valid = subst IsValid left (reply-IsValid version server req n m outcomes served.0)

  -- A client and a server over one backend, run from a connected client with its slave set, to no
  -- broadcast, and from a well-formed mapping whose bits are 0 or 1, through any list of allowed calls
  -- of 16-bit values at 16-bit addresses, have a session in which every call returns what it returns
  -- on the memory that the mapping stands for, run through the same calls; and the mapping at the end
  -- stands for the memory at the end.
  pub Session-remotely :
      (calls : List (Call × ℕ)) (client : Modbus) (m : Mapping)
      → AllAllowed calls
      → IsReady client slave
      → server.backend ≡ client.backend
      → IsServed m
      → (last : Mapping) × Session version server errno client m calls
          (remotely calls (memory_of m)).1
          last
        × (memory_of last ≡ (remotely calls (memory_of m)).0)
  unfolding remotely
  Session-remotely [] client m allowed ready same served = (m, ended, refl)
  Session-remotely ((call, addr) ∷ calls) client m (now, later) ready same served =
      let (frame, rsp, after, result, replied, left) =
        issue-remote version client server errno slave addr m ready same served.0 now.2 served.1
          call now.0 now.1 in
      let (ready', same') =
        issue-IsReady client errno (sends (length frame) ∷ []) (bytes rsp ∷ []) addr call slave
          now.0 ready in
      let served' =
        after-IsServed m after call addr frame (length frame) (sends (length rsp) ∷ []) served
          (ap (λ r. r.0) replied) left in
      let (last, session, final) =
        Session-remotely calls _ after later ready' (same ∙ sym same') served' in
      rw (sym left) (last, turn result replied session, final)
