-- ===== src/Client/EndToEnd.antt =====
-- A client and a server over one backend: what the client asks for is what the mapping holds, and
-- what it writes is what the mapping then holds.
use libmodbus.Base.{
  AllBelow, ℕ, ◌+◌, ◌-◌, ◌≤◌, ◌<◌, ◌≡◌, refl, arith, inl, inr, false, ◌||◌, ltb, List, [], ◌∷◌,
  length, take, drop, pos,
}
use libmodbus.Context.{
  Modbus, Errno, transmit, ok, fc_read_holding_registers, fc_read_input_registers, fc_read_coils,
  fc_read_discrete_inputs,
}
use libmodbus.Backend.{header_length, build_request_basis, send_msg_pre}
use libmodbus.Mapping.{Mapping, IsValid}
use libmodbus.Send.{sends}
use libmodbus.Receive.{bytes}
use libmodbus.Reply.{reply, dispatch}
use libmodbus.Client.{
  read_bits, read_input_bits, read_registers, read_input_registers, write_bits, write_registers,
}
use libmodbus.Client.Stored.{IsStored}
use libmodbus.Data.BitTables.{IsUnpacked}
use libmodbus.Client.Packing.{flag}
use libmodbus.Client.WriteBits.{write_bits-over}
use libmodbus.Client.WriteRegisters.{write_registers-over}
use libmodbus.Client.ReadBits.{IsPacked, read_io_status-over}
use libmodbus.Client.ReadRegisters.{read_words-over}

-- A client that is connected and has set its slave, which is no broadcast.
pub record IsReady (ctx : Modbus) (slave : ℕ) : Type 0 where
  pub descriptor : ℕ
  pub is_slave : ctx.slave ≡ pos slave
  pub no_broadcast : 1 ≤ slave
  pub one_byte : slave < 256
  pub is_open : ctx.s ≡ pos descriptor
  pub selectable : descriptor < 1024
  pub small_tid : ctx.t_id < 65536

module _ (version : List ℕ) (client server : Modbus) (errno : Errno) (slave addr nb : ℕ)
    (m : Mapping) (ready : IsReady client slave) (same : server.backend ≡ client.backend)
    (v : IsValid m) (ha : addr < 65536) (lo : 1 ≤ nb) (hi : nb ≤ 125) where
  -- Over either backend, `modbus_read_registers` for registers that the server's mapping has is
  -- answered by `modbus_reply`, which leaves the mapping as it is; and fed with that response, it
  -- sends the request once and returns their number and their values. The client is connected and
  -- its slave set, to no broadcast; the mapping is well formed; 1 to 125 registers are asked for.
  pub read_registers-reply :
      m.start_registers ≤ addr
      → addr - m.start_registers + nb ≤ m.nb_registers
      → let frame =
          send_msg_pre client.backend
            (build_request_basis client fc_read_holding_registers addr nb).1 in
        (rsp : List ℕ) × (reply version server frame (length frame) m (sends (length rsp) ∷ [])
          ≡ (m, (transmit rsp ∷ [], ok (length rsp))))
        × ((read_registers client errno (sends (length frame) ∷ []) (bytes rsp ∷ []) addr nb).1 ≡ (
          transmit frame ∷ [],
          ok (nb, take nb (drop (addr - m.start_registers) m.tab_registers)),
        ))
  unfolding read_registers dispatch
  read_registers-reply low room =
      let in_range : (ltb nb 1 || ltb 125 nb) ≡ false = ground arith in
      let (rsp, served, read) =
        read_words-over client.backend version client server errno slave ready.descriptor 3 addr nb
          ready.is_slave ready.no_broadcast ready.one_byte ready.is_open ready.selectable (inl refl)
          ha lo hi m.start_registers m.nb_registers m.tab_registers m low room v.registers_length
          v.registers_fit ready.small_tid same (λ n req sft. refl) in
      (rsp, served, rw in_range read)

  -- Over either backend, `modbus_read_input_registers` for 1 to 125 input registers that the
  -- server's well-formed mapping has is answered by `modbus_reply`, which leaves the mapping as it
  -- is; and a connected client whose slave is set, to no broadcast, sends the request once and,
  -- fed with that response, returns their number and their values.
  pub read_input_registers-reply :
      m.start_input_registers ≤ addr
      → addr - m.start_input_registers + nb ≤ m.nb_input_registers
      → let frame =
          send_msg_pre client.backend
            (build_request_basis client fc_read_input_registers addr nb).1 in
        (rsp : List ℕ) × (reply version server frame (length frame) m (sends (length rsp) ∷ [])
          ≡ (m, (transmit rsp ∷ [], ok (length rsp))))
        × ((read_input_registers client errno
              (sends (length frame) ∷ [])
              (bytes rsp ∷ [])
              addr
              nb).1
            ≡ (
              transmit frame ∷ [],
              ok (nb, take nb (drop (addr - m.start_input_registers) m.tab_input_registers)),
            ))
  unfolding read_input_registers dispatch
  read_input_registers-reply low room =
      let in_range : (ltb nb 1 || ltb 125 nb) ≡ false = ground arith in
      let (rsp, served, read) =
        read_words-over client.backend version client server errno slave ready.descriptor 4 addr nb
          ready.is_slave ready.no_broadcast ready.one_byte ready.is_open ready.selectable (inr refl)
          ha lo hi m.start_input_registers m.nb_input_registers m.tab_input_registers m low room
          v.input_registers_length v.input_registers_fit ready.small_tid same (λ n req sft. refl) in
      (rsp, served, rw in_range read)

module _ (version : List ℕ) (client server : Modbus) (errno : Errno) (slave addr nb : ℕ)
    (m : Mapping) (ready : IsReady client slave) (same : server.backend ≡ client.backend)
    (v : IsValid m) (ha : addr < 65536) (lo : 1 ≤ nb) (hi : nb ≤ 2000) where
  in_range : (ltb nb 1 || ltb 2000 nb) ≡ false
  in_range = ground arith

  -- Over either backend, `modbus_read_bits` for 1 to 2000 coils that the server's well-formed mapping
  -- has, each of them 0 or 1, is answered by `modbus_reply`, whose response has
  -- behind the function code the count of the bytes and, eight to a byte with the first lowest,
  -- those coils, and which leaves the mapping as it is; and a connected client whose slave is set, to no broadcast, sends
  -- the request once and, fed with that response, returns their number and their values.
  pub read_bits-reply :
      AllBelow 2 m.tab_bits
      → m.start_bits ≤ addr
      → addr - m.start_bits + nb ≤ m.nb_bits
      → let frame =
          send_msg_pre client.backend (build_request_basis client fc_read_coils addr nb).1 in
        (rsp : List ℕ) × (reply version server frame (length frame) m (sends (length rsp) ∷ [])
          ≡ (m, (transmit rsp ∷ [], ok (length rsp))))
        × IsPacked (header_length client.backend + 1) (addr - m.start_bits) nb m.tab_bits rsp
        × ((read_bits client errno (sends (length frame) ∷ []) (bytes rsp ∷ []) addr nb).1
            ≡ (transmit frame ∷ [], ok (nb, take nb (drop (addr - m.start_bits) m.tab_bits))))
  unfolding read_bits dispatch
  read_bits-reply bits low room =
      let (rsp, served, packed, read) =
        read_io_status-over client.backend version client server errno slave ready.descriptor 1 addr
          nb ready.is_slave ready.no_broadcast ready.one_byte ready.is_open ready.selectable
          (inl refl) ha lo hi m.start_bits m.nb_bits m.tab_bits m low room v.bits_length bits
          ready.small_tid same (λ n req sft. refl) in
      (rsp, served, packed, rw (in_range, read) refl)

  -- `modbus_read_input_bits` likewise, for input bits.
  pub read_input_bits-reply :
      AllBelow 2 m.tab_input_bits
      → m.start_input_bits ≤ addr
      → addr - m.start_input_bits + nb ≤ m.nb_input_bits
      → let frame =
          send_msg_pre client.backend
            (build_request_basis client fc_read_discrete_inputs addr nb).1 in
        (rsp : List ℕ) × (reply version server frame (length frame) m (sends (length rsp) ∷ [])
          ≡ (m, (transmit rsp ∷ [], ok (length rsp))))
        × IsPacked
            (header_length client.backend + 1)
            (addr - m.start_input_bits)
            nb
            m.tab_input_bits
            rsp
        × ((read_input_bits client errno (sends (length frame) ∷ []) (bytes rsp ∷ []) addr nb).1 ≡ (
          transmit frame ∷ [],
          ok (nb, take nb (drop (addr - m.start_input_bits) m.tab_input_bits)),
        ))
  unfolding read_input_bits dispatch
  read_input_bits-reply bits low room =
      let (rsp, served, packed, read) =
        read_io_status-over client.backend version client server errno slave ready.descriptor 2 addr
          nb ready.is_slave ready.no_broadcast ready.one_byte ready.is_open ready.selectable
          (inr refl) ha lo hi m.start_input_bits m.nb_input_bits m.tab_input_bits m low room
          v.input_bits_length bits ready.small_tid same (λ n req sft. refl) in
      (rsp, served, packed, rw (in_range, read) refl)

module _ (version : List ℕ) (client server : Modbus) (errno : Errno) (slave addr nb : ℕ)
    (src : List ℕ) (m : Mapping) (ready : IsReady client slave)
    (same : server.backend ≡ client.backend) (v : IsValid m) (ha : addr < 65536) (lo : 1 ≤ nb)
    (hi : nb ≤ 123) (low : m.start_registers ≤ addr)
    (room : addr - m.start_registers + nb ≤ m.nb_registers) where
  -- Over either backend, `modbus_write_registers` of 1 to 123 values of 16 bits into registers, from
  -- a 16-bit address on, that the server's well-formed mapping has, by a connected client whose
  -- slave is set, to no broadcast, sends one frame, to which `modbus_reply` responds after it has
  -- stored exactly those values at those registers, every other register and table being kept; and
  -- fed with that response, the client returns the number of the values.
  pub write_registers-reply :
      AllBelow 65536 src
      → (frame : List ℕ) × (rsp : List ℕ) × (tab : List ℕ) × ((write_registers client errno
            (sends (length frame) ∷ [])
            (bytes rsp ∷ [])
            addr
            nb
            src).1
          ≡ (transmit frame ∷ [], ok (nb, [])))
        × (reply version server frame (length frame) m (sends (length rsp) ∷ [])
            ≡ (record m { tab_registers = tab }, (transmit rsp ∷ [], ok (length rsp))))
        × IsStored src 0 (addr - m.start_registers) nb m.tab_registers tab
  write_registers-reply small =
      let served =
        write_registers-over client.backend version client server errno slave ready.descriptor addr
          nb src m ready.is_slave ready.no_broadcast ready.one_byte ready.is_open ready.selectable
          ha lo hi (omega arith) low room ready.small_tid same v.registers_length small in
      (_, _, _, served.2, served.0, served.1)

module _ (version : List ℕ) (client server : Modbus) (errno : Errno) (slave addr nb : ℕ)
    (src : List ℕ) (m : Mapping) (ready : IsReady client slave)
    (same : server.backend ≡ client.backend) (v : IsValid m) (ha : addr < 65536) (lo : 1 ≤ nb) where
  -- Over either backend, `modbus_write_bits` of 1 to 1968 coils that the server's well-formed
  -- mapping has, by a connected client whose slave is set, to no broadcast, sends one frame, to
  -- which `modbus_reply` responds after it has set exactly those coils, to 1 where the client's
  -- entry is not 0 and to 0 where it is, every other coil and table being kept; and fed with that
  -- response, the client returns the number of the coils.
  pub write_bits-reply :
      nb ≤ 1968
      → m.start_bits ≤ addr
      → addr - m.start_bits + nb ≤ m.nb_bits
      → (frame : List ℕ) × (rsp : List ℕ) × (tab : List ℕ) × ((write_bits client errno
            (sends (length frame) ∷ [])
            (bytes rsp ∷ [])
            addr
            nb
            src).1
          ≡ (transmit frame ∷ [], ok (nb, [])))
        × (reply version server frame (length frame) m (sends (length rsp) ∷ [])
            ≡ (record m { tab_bits = tab }, (transmit rsp ∷ [], ok (length rsp))))
        × IsUnpacked (flag src) (addr - m.start_bits) 0 nb m.tab_bits tab
  write_bits-reply hi low room =
      let served =
        write_bits-over client.backend version client server errno slave ready.descriptor addr nb
          src m ready.is_slave ready.no_broadcast ready.one_byte ready.is_open ready.selectable ha
          lo hi (omega arith) low room ready.small_tid same v.bits_length in
      (_, _, _, served.2, served.0, served.1)
