-- ===== src/Memory/Present.antt =====
-- What an exchange does to the memory, and calls that read entries that the server has.
use libmodbus.Base.{AllBelow, ℕ, ◌+◌, ◌-◌, ◌≤◌, ◌<◌, ◌≡◌, refl, List, [], ◌∷◌, length}
use libmodbus.Context.{Modbus, Errno, transmit, ok, Result}
use libmodbus.Mapping.{Mapping, IsValid}
use libmodbus.Send.{sends}
use libmodbus.Receive.{bytes}
use libmodbus.Reply.{reply}
use libmodbus.Client.Calls.{
  Call, coils_read, inputs_read, registers_read, input_registers_read, issue,
}
use libmodbus.Client.EndToEnd.{
  IsReady, read_bits-reply, read_input_bits-reply, read_registers-reply, read_input_registers-reply,
}
use libmodbus.Memory.{Memory, fetched, remote, memory_of}
use libmodbus.Memory.Views.{collect-inside}

-- Each entry of the tables of bits is 0 or 1.
abbrev pub AreBits : Mapping → Type 0
AreBits m = AllBelow 2 m.tab_bits × AllBelow 2 m.tab_input_bits

-- One exchange of a call, and what it returns and does to the memory.
abbrev pub Exchanged :
    List ℕ → Modbus → Modbus → Errno → ℕ → Mapping → Call → Memory × Result (ℕ × List ℕ) → Type 0
Exchanged version client server errno addr m call expected =
    (frame : List ℕ) × (rsp : List ℕ) × (after : Mapping) × ((issue call client errno
        (sends (length frame) ∷ []) (bytes rsp ∷ []) addr).1
      ≡ (transmit frame ∷ [], expected.1))
    × (reply version server frame (length frame) m (sends (length rsp) ∷ [])
        ≡ (after, (transmit rsp ∷ [], ok (length rsp))))
    × (memory_of after ≡ expected.0)

module _ (version : List ℕ) (client server : Modbus) (errno : Errno) (slave addr : ℕ) (m : Mapping)
    (ready : IsReady client slave) (same : server.backend ≡ client.backend) (v : IsValid m)
    (ha : addr < 65536) where
  module _ (nb : ℕ) (allowed : 1 ≤ nb) where
    pub coils_read-there :
        nb ≤ 2000
        → AreBits m
        → m.start_bits ≤ addr
        → addr - m.start_bits + nb ≤ m.nb_bits
        → Exchanged version client server errno addr m
            (coils_read nb)
            (remote (coils_read nb) addr (memory_of m))
    unfolding remote fetched
    coils_read-there hi bits low room =
        let (rsp, served, packed, read) =
          read_bits-reply version client server errno slave addr nb m ready same v ha allowed hi
            bits.0 low room in
        rw (collect-inside m.start_bits m.nb_bits m.tab_bits nb addr v.bits_length low room)
          (_, rsp, m, read, served, refl)

    pub inputs_read-there :
        nb ≤ 2000
        → AreBits m
        → m.start_input_bits ≤ addr
        → addr - m.start_input_bits + nb ≤ m.nb_input_bits
        → Exchanged version client server errno addr m
            (inputs_read nb)
            (remote (inputs_read nb) addr (memory_of m))
    unfolding remote fetched
    inputs_read-there hi bits low room =
        let (rsp, served, packed, read) =
          read_input_bits-reply version client server errno slave addr nb m ready same v ha allowed
            hi bits.1 low room in
        rw
          (collect-inside m.start_input_bits m.nb_input_bits m.tab_input_bits nb addr
            v.input_bits_length low room)
          (_, rsp, m, read, served, refl)

    pub registers_read-there :
        nb ≤ 125
        → m.start_registers ≤ addr
        → addr - m.start_registers + nb ≤ m.nb_registers
        → Exchanged version client server errno addr m
            (registers_read nb)
            (remote (registers_read nb) addr (memory_of m))
    unfolding remote fetched
    registers_read-there hi low room =
        let (rsp, served, read) =
          read_registers-reply version client server errno slave addr nb m ready same v ha allowed
            hi low room in
        rw
          (collect-inside m.start_registers m.nb_registers m.tab_registers nb addr
            v.registers_length low room)
          (_, rsp, m, read, served, refl)

    pub input_registers_read-there :
        nb ≤ 125
        → m.start_input_registers ≤ addr
        → addr - m.start_input_registers + nb ≤ m.nb_input_registers
        → Exchanged version client server errno addr m
            (input_registers_read nb)
            (remote (input_registers_read nb) addr (memory_of m))
    unfolding remote fetched
    input_registers_read-there hi low room =
        let (rsp, served, read) =
          read_input_registers-reply version client server errno slave addr nb m ready same v ha
            allowed hi low room in
        rw
          (collect-inside m.start_input_registers m.nb_input_registers m.tab_input_registers nb addr
            v.input_registers_length low room)
          (_, rsp, m, read, served, refl)
