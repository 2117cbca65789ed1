-- ===== src/Memory.antt =====
-- A memory of four tables at the other end of the line, and what the calls of src/modbus.c do to it:
-- the specification of a client and a server together, without frames and without indices.
pub mod Views
pub mod Present
pub mod Written
pub mod Refinement
pub mod Invariant
pub mod Session
use libmodbus.Base.{
  ℕ, zero, suc, ◌+◌, ◌-◌, ◌||◌, ltb, leb, ◌==◌, if◌then◌else◌, Option, none, some, List, [], ◌∷◌,
  byte_at,
}
use libmodbus.Context.{Result, ok, err, emb, illegal_data_address}
use libmodbus.Mapping.{Mapping}
use libmodbus.Client.Packing.{flag}
use libmodbus.Client.WriteOne.{coil_entry}
use libmodbus.Client.Masked.{masked}
use libmodbus.Client.Calls.{
  Call, coils_read, inputs_read, registers_read, input_registers_read, coil_written,
  register_written, register_masked, coils_written, registers_written,
}

-- A table, as what each address holds.
abbrev pub Cells : Type 0
Cells = ℕ → Option ℕ

pub record Memory : Type 0 where
  pub coils : Cells
  pub inputs : Cells
  pub registers : Cells
  pub input_registers : Cells

-- The values from an address on, where all of them are there.
unfoldable pub collect : Cells → ℕ → ℕ → Option (List ℕ)
collect cells addr zero = some []
collect cells addr (suc nb) =
    let rest = collect cells (addr + 1) nb in
    elim (cells addr) [ none ↦ none | some x ↦ elim rest [ none ↦ none | some xs ↦ some (x ∷ xs) ] ]

-- The cells from an address on, replaced.
unfoldable pub overwrite : Cells → ℕ → ℕ → (ℕ → ℕ) → Cells
overwrite cells addr nb values a =
    if ltb a addr || leb (addr + nb) a then cells a else some (values (a - addr))

-- What a reading call returns.
unfoldable pub fetched : ℕ → Option (List ℕ) → Result (ℕ × List ℕ)
fetched nb none = err (emb illegal_data_address)
fetched nb (some values) = ok (nb, values)

-- What a writing call does, where the cells that it writes are there.
unfoldable pub written : ℕ → Option (List ℕ) → Memory → Memory → Memory × Result (ℕ × List ℕ)
written nb none before after = (before, err (emb illegal_data_address))
written nb (some values) before after = (after, ok (nb, []))

-- What a call does that puts a new value in the place of one.
unfoldable pub updated : Option ℕ → Memory → (ℕ → Memory) → Memory × Result (ℕ × List ℕ)
updated none before after = (before, err (emb illegal_data_address))
updated (some word) before after = (after word, ok (1, []))

-- The calls on a memory.
unfoldable pub remote : Call → ℕ → Memory → Memory × Result (ℕ × List ℕ)
remote (coils_read nb) addr mem = (mem, fetched nb (collect mem.coils addr nb))
remote (inputs_read nb) addr mem = (mem, fetched nb (collect mem.inputs addr nb))
remote (registers_read nb) addr mem = (mem, fetched nb (collect mem.registers addr nb))
remote (input_registers_read nb) addr mem = (mem, fetched nb (collect mem.input_registers addr nb))
remote (coil_written status) addr mem =
    written 1 (collect mem.coils addr 1) mem
      (record mem { coils = overwrite mem.coils addr 1 (λ j. coil_entry status) })
remote (register_written value) addr mem =
    written 1 (collect mem.registers addr 1) mem
      (record mem { registers = overwrite mem.registers addr 1 (λ j. value) })
remote (register_masked and_mask or_mask) addr mem = updated (mem.registers addr) mem (λ word.
    record mem { registers = overwrite mem.registers addr 1 (λ j. masked word and_mask or_mask) })
remote (coils_written nb src) addr mem =
    written nb (collect mem.coils addr nb) mem
      (record mem { coils = overwrite mem.coils addr nb (flag src) })
remote (registers_written nb src) addr mem =
    written nb (collect mem.registers addr nb) mem
      (record mem { registers = overwrite mem.registers addr nb (byte_at src) })

-- A table of the mapping holds its `count` entries from `start` on.
unfoldable pub view : ℕ → ℕ → List ℕ → Cells
view start count tab a =
    if ltb a start || leb count (a - start) then none else some (byte_at tab (a - start))

abbrev pub memory_of : Mapping → Memory
memory_of m = record {
  coils = view m.start_bits m.nb_bits m.tab_bits;
  inputs = view m.start_input_bits m.nb_input_bits m.tab_input_bits;
  registers = view m.start_registers m.nb_registers m.tab_registers;
  input_registers = view m.start_input_registers m.nb_input_registers m.tab_input_registers;
}
