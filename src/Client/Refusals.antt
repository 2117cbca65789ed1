-- ===== src/Client/Refusals.antt =====
-- A client that asks for entries that the server does not have.
use libmodbus.Base.{
  ℕ, ◌*◌, ◌%◌, ◌<◌, ◌≡◌, refl, if◌then◌else◌, ◌==◌, arith, false, ◌||◌, ltb, List, [], ◌∷◌, length,
  pos,
}
use libmodbus.Context.{Backend, Modbus, Errno, transmit, ok, err, emb, illegal_data_address}
use libmodbus.Backend.{next_tid}
use libmodbus.Lengths.{byte_count}
use libmodbus.Mapping.{Mapping}
use libmodbus.Send.{sends}
use libmodbus.Receive.{bytes}
use libmodbus.Reply.{reply}
use libmodbus.Client.{
  read_io_status, read_bits, read_input_bits, read_words, read_registers, read_input_registers,
  write_single, write_bit, write_register, mask_write_register, write_bits, write_registers,
  exchange,
}
use libmodbus.Client.Messages.{built, built_plain, over, asked}
use libmodbus.Client.Answered.{request}
use libmodbus.Client.Reading.{same_backend, next_tid-lt}
use libmodbus.Client.WriteBits.{byte_count-small}
use libmodbus.Client.Refused.{fields, exception, asked_for, client_side, server_side}
use libmodbus.Client.Masked.{built_masked}
use libmodbus.Client.Calls.{
  Call, coils_read, inputs_read, registers_read, input_registers_read, coil_written,
  register_written, register_masked, coils_written, registers_written, issue, code, word, data_part,
  IsAllowed, IsMissing,
}
use libmodbus.Client.Missing.{dispatch-missing}
use libmodbus.Client.EndToEnd.{IsReady}
use libmodbus.Client.CallFrames.{small_code, small_word, going, counted, whole}

-- The request that the call builds, and what it then makes of the exchange.
module _ (b : Backend) (client : Modbus) (errno : Errno) (slave k addr : ℕ)
    (own : client.slave ≡ pos slave) (hs : slave < 256) (e : client.s ≡ pos k) (h : k < 1024) where
  abbrev there : Call → List ℕ
  there call = going b slave (next_tid client.t_id) addr call hs

  abbrev back_frame : Call → List ℕ
  back_frame call =
      exception b slave (next_tid client.t_id) (code call) addr (word call) (data_part call) hs
        (small_code call)

  exchanged :
      (call : Call) (use_rsp : List ℕ → ℕ → List ℕ)
      → exchange
          (asked b client)
          errno
          (request b slave
            (next_tid client.t_id)
            (code call)
            (fields b slave
              (next_tid client.t_id)
              (code call)
              addr
              (word call)
              (data_part call)
              hs
              (small_code call))
            [])
          (sends (length (there call)) ∷ [])
          (bytes (back_frame call) ∷ [])
          use_rsp
        ≡ (transmit (there call) ∷ [], err (emb illegal_data_address))
  exchanged call use_rsp =
      client_side b slave (next_tid client.t_id) (code call) addr (word call) (data_part call) hs
        (small_code call) (asked b client) errno k use_rsp own e h

  issue-refused :
      (call : Call)
      → IsAllowed call
      → (issue call
          (over b client)
          errno
          (sends (length (there call)) ∷ [])
          (bytes (back_frame call) ∷ [])
          addr).1
        ≡ (transmit (there call) ∷ [], err (emb illegal_data_address))
  unfolding read_bits read_input_bits read_io_status read_registers read_input_registers read_words
      write_bit write_register write_single mask_write_register write_bits write_registers
  issue-refused (coils_read nb) allowed =
      let in_range : (ltb nb 1 || ltb 2000 nb) ≡ false = ground (arith, allowed) in
      rw
        (
          in_range,
          built_plain b client slave 1 addr nb own hs (omega arith),
          exchanged (coils_read nb) _,
        )
        refl
  issue-refused (inputs_read nb) allowed =
      let in_range : (ltb nb 1 || ltb 2000 nb) ≡ false = ground (arith, allowed) in
      rw
        (
          in_range,
          built_plain b client slave 2 addr nb own hs (omega arith),
          exchanged (inputs_read nb) _,
        )
        refl
  issue-refused (registers_read nb) allowed =
      let in_range : (ltb nb 1 || ltb 125 nb) ≡ false = ground (arith, allowed) in
      let few : ltb 125 nb ≡ false = ground (arith, allowed) in
      rw (in_range, few, built_plain b client slave 3 addr nb own hs (omega arith))
        (exchanged (registers_read nb) _)
  issue-refused (input_registers_read nb) allowed =
      let in_range : (ltb nb 1 || ltb 125 nb) ≡ false = ground (arith, allowed) in
      let few : ltb 125 nb ≡ false = ground (arith, allowed) in
      rw (in_range, few, built_plain b client slave 4 addr nb own hs (omega arith))
        (exchanged (input_registers_read nb) _)
  issue-refused (coil_written status) allowed =
      rw
        (built_plain b client slave 5 addr (if status == 0 then 0 else 0xff00) own hs (omega arith))
        (exchanged (coil_written status) _)
  issue-refused (register_written value) allowed =
      rw (built_plain b client slave 6 addr value own hs (omega arith))
        (exchanged (register_written value) _)
  issue-refused (register_masked and_mask or_mask) allowed =
      let basis = built_masked b client slave addr and_mask or_mask own hs in
      rw (basis.0, basis.1) (exchanged (register_masked and_mask or_mask) _)
  issue-refused (coils_written nb src) allowed =
      let in_range : (ltb nb 1 || ltb 1968 nb) ≡ false = ground (arith, allowed) in
      let small : byte_count nb < 256 = byte_count-small nb allowed.1 in
      let one_byte : byte_count nb % 256 ≡ byte_count nb = omega (arith, small) in
      let basis =
        built b client slave 15 addr nb (data_part (coils_written nb src)) own hs (omega arith) in
      rw (in_range, one_byte, basis.0, basis.1) (exchanged (coils_written nb src) _)
  issue-refused (registers_written nb src) allowed =
      let in_range : (ltb nb 1 || ltb 123 nb) ≡ false = ground (arith, allowed) in
      let one_byte : nb * 2 % 256 ≡ nb * 2 = omega (arith, allowed.1) in
      let basis =
        built b client slave 16 addr nb (data_part (registers_written nb src)) own hs
          (omega arith) in
      rw (in_range, one_byte, basis.0, basis.1) (exchanged (registers_written nb src) _)

module _ (version : List ℕ) (client server : Modbus) (errno : Errno) (slave addr : ℕ) (call : Call)
    (m : Mapping) (ready : IsReady client slave) (same : server.backend ≡ client.backend) where
  -- Over either backend, a connected client whose slave is set, to no broadcast, asks in one of the
  -- nine calls that begin with an address, with a quantity that the call allows, for entries that
  -- are not all in the server's mapping. Then it sends one frame; `modbus_reply` leaves the mapping
  -- as it is and sends one response; and fed with that response the client fails, with the error of
  -- an illegal data address.
  pub issue-missing :
      addr < 65536
      → IsAllowed call
      → IsMissing call m addr
      → (frame : List ℕ) × (rsp : List ℕ) × ((issue call client errno
            (sends (length frame) ∷ [])
            (bytes rsp ∷ [])
            addr).1
          ≡ (transmit frame ∷ [], err (emb illegal_data_address)))
        × (reply version server frame (length frame) m (sends (length rsp) ∷ [])
            ≡ (m, (transmit rsp ∷ [], ok (length rsp))))
  issue-missing ha allowed missing =
      let b = client.backend in
      let t = next_tid client.t_id in
      (
        _,
        _,
        issue-refused b client errno slave ready.descriptor addr ready.is_slave ready.one_byte
            ready.is_open ready.selectable call allowed,
        rw (same_backend b server same) (
            server_side b slave t (code call) addr (word call) (data_part call) ready.one_byte
              (small_code call) version server m ready.no_broadcast ha
              (next_tid-lt client.t_id ready.small_tid) (whole b slave t addr call ready.one_byte)
              (dispatch-missing b _ _ _ addr m call version
                (asked_for b slave t (code call) addr (word call) (data_part call) ready.one_byte
                  (small_code call) (small_word call allowed))
                (counted b slave t addr call ready.one_byte) allowed missing)),
      )
