-- ===== src/Memory/Written.antt =====
-- Calls that write entries that the server has.
use libmodbus.Base.{AllBelow, ℕ, ◌+◌, ◌-◌, ◌≤◌, ◌<◌, ◌≡◌, ap, arith, List, byte_at, length}
use libmodbus.Context.{Modbus, Errno}
use libmodbus.Mapping.{Mapping, IsValid}
use libmodbus.Client.Packing.{flag}
use libmodbus.Client.WriteOne.{coil_entry, write_bit-over, write_register-over}
use libmodbus.Client.Masked.{mask_write_register-over}
use libmodbus.Client.Calls.{
  coil_written, register_written, register_masked, coils_written, registers_written,
}
use libmodbus.Client.EndToEnd.{IsReady, write_bits-reply, write_registers-reply}
use libmodbus.Memory.{written, updated, remote, memory_of}
use libmodbus.Memory.Views.{there, collect-inside, view-filled, IsUnpacked-stored, IsUnpacked-one}
use libmodbus.Memory.Present.{Exchanged}

module _ (version : List ℕ) (client server : Modbus) (errno : Errno) (slave addr : ℕ) (m : Mapping)
    (ready : IsReady client slave) (same : server.backend ≡ client.backend) (v : IsValid m)
    (ha : addr < 65536) where
  module _ (nb : ℕ) (allowed : 1 ≤ nb) where
    pub coils_written-there :
        (src : List ℕ)
        → nb ≤ 1968
        → m.start_bits ≤ addr
        → addr - m.start_bits + nb ≤ m.nb_bits
        → Exchanged version client server errno addr m
            (coils_written nb src)
            (remote (coils_written nb src) addr (memory_of m))
    unfolding remote written
    coils_written-there src hi low room =
        let (frame, rsp, tab, sent, served, stored) =
          write_bits-reply version client server errno slave addr nb src m ready same v ha allowed
            hi low room in
        rw (collect-inside m.start_bits m.nb_bits m.tab_bits nb addr v.bits_length low room) (
          frame,
          rsp,
          record m { tab_bits = tab },
          sent,
          served,
          ap (λ cells. record (memory_of m) { coils = cells })
              (view-filled m.start_bits m.nb_bits m.tab_bits addr nb (flag src) tab low room
                stored),
        )

    pub registers_written-there :
        (src : List ℕ)
        → nb ≤ 123
        → AllBelow 65536 src
        → m.start_registers ≤ addr
        → addr - m.start_registers + nb ≤ m.nb_registers
        → Exchanged version client server errno addr m
            (registers_written nb src)
            (remote (registers_written nb src) addr (memory_of m))
    unfolding remote written
    registers_written-there src hi words low room =
        let (frame, rsp, tab, sent, served, stored) =
          write_registers-reply version client server errno slave addr nb src m ready same v ha
            allowed hi low room words in
        rw
          (collect-inside m.start_registers m.nb_registers m.tab_registers nb addr
            v.registers_length low room)
          (
            frame,
            rsp,
            record m { tab_registers = tab },
            sent,
            served,
            ap (λ cells. record (memory_of m) { registers = cells })
                (view-filled m.start_registers m.nb_registers m.tab_registers addr nb (byte_at src)
                  tab low room (IsUnpacked-stored src _ nb m.tab_registers tab stored)),
          )

  pub coil_written-there :
      (status : ℕ)
      → m.start_bits ≤ addr
      → addr - m.start_bits + 1 ≤ m.nb_bits
      → Exchanged version client server errno addr m
          (coil_written status)
          (remote (coil_written status) addr (memory_of m))
  unfolding remote written
  coil_written-there status low room =
      let served =
        write_bit-over client.backend version client server errno slave ready.descriptor addr m
          ready.is_slave ready.no_broadcast ready.one_byte ready.is_open ready.selectable ha
          ready.small_tid same status low (omega arith) in
      let room_tab : addr - m.start_bits < length m.tab_bits = omega (arith, v.bits_length) in
      rw (collect-inside m.start_bits m.nb_bits m.tab_bits 1 addr v.bits_length low room) (
        _,
        _,
        _,
        served.1,
        served.0,
        ap (λ cells. record (memory_of m) { coils = cells })
            (view-filled m.start_bits m.nb_bits m.tab_bits addr 1 (λ j. coil_entry status) _ low
              room (IsUnpacked-one m.tab_bits (addr - m.start_bits) (coil_entry status) room_tab)),
      )

  pub register_written-there :
      (value : ℕ)
      → value < 65536
      → m.start_registers ≤ addr
      → addr - m.start_registers + 1 ≤ m.nb_registers
      → Exchanged version client server errno addr m
          (register_written value)
          (remote (register_written value) addr (memory_of m))
  unfolding remote written
  register_written-there value small low room =
      let served =
        write_register-over client.backend version client server errno slave ready.descriptor addr m
          ready.is_slave ready.no_broadcast ready.one_byte ready.is_open ready.selectable ha
          ready.small_tid same value small low (omega arith) in
      let room_tab : addr - m.start_registers < length m.tab_registers =
        omega (arith, v.registers_length) in
      rw
        (collect-inside m.start_registers m.nb_registers m.tab_registers 1 addr v.registers_length
          low room)
        (
          _,
          _,
          _,
          served.1,
          served.0,
          ap (λ cells. record (memory_of m) { registers = cells })
              (view-filled m.start_registers m.nb_registers m.tab_registers addr 1 (λ j. value) _
                low room
                (IsUnpacked-one m.tab_registers (addr - m.start_registers) value room_tab)),
        )

  pub register_masked-there :
      (and_mask or_mask : ℕ)
      → and_mask < 65536
      → or_mask < 65536
      → m.start_registers ≤ addr
      → addr - m.start_registers + 1 ≤ m.nb_registers
      → Exchanged version client server errno addr m
          (register_masked and_mask or_mask)
          (remote (register_masked and_mask or_mask) addr (memory_of m))
  unfolding remote updated
  register_masked-there and_mask or_mask small small' low room =
      let served =
        mask_write_register-over client.backend version client server errno slave ready.descriptor
          addr and_mask or_mask m ready.is_slave ready.no_broadcast ready.one_byte ready.is_open
          ready.selectable ha ready.small_tid same small small' low (omega arith) in
      let room_tab : addr - m.start_registers < length m.tab_registers =
        omega (arith, v.registers_length) in
      rw
        (
          remote,
          updated,
          there m.start_registers m.nb_registers m.tab_registers addr low (omega arith),
        )
        (
          _,
          _,
          _,
          served.1,
          served.0,
          ap (λ cells. record (memory_of m) { registers = cells })
              (view-filled m.start_registers m.nb_registers m.tab_registers addr 1 _ _ low room
                (IsUnpacked-one m.tab_registers (addr - m.start_registers) _ room_tab)),
        )
