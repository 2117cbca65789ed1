-- ===== src/Mapping.antt =====
-- `modbus_mapping_t` and its allocation in src/modbus.c.
pub mod Allocation
use libmodbus.Base.{
  ℕ, ◌≡◌, ℤ, pos, Bool, true, false, ◌||◌, ltb, ◌==◌, not, if◌then◌else◌, List, [], ◌∷◌, length,
  replicate, AllBelow, IsBytes,
}
use libmodbus.Context.{einval, enomem, Result, ok, err, max_table_size}

-- A table that is NULL is the empty list.
pub record Mapping : Type 0 where
  pub nb_bits : ℕ
  pub start_bits : ℕ
  pub nb_input_bits : ℕ
  pub start_input_bits : ℕ
  pub nb_input_registers : ℕ
  pub start_input_registers : ℕ
  pub nb_registers : ℕ
  pub start_registers : ℕ
  pub tab_bits : List ℕ
  pub tab_input_bits : List ℕ
  pub tab_input_registers : List ℕ
  pub tab_registers : List ℕ

-- Each table has its declared number of entries, within the address space of the protocol, and
-- its entries fit their C type.
pub record IsValid (m : Mapping) : Type 0 where
  pub bits_length : length m.tab_bits ≡ m.nb_bits
  pub input_bits_length : length m.tab_input_bits ≡ m.nb_input_bits
  pub registers_length : length m.tab_registers ≡ m.nb_registers
  pub input_registers_length : length m.tab_input_registers ≡ m.nb_input_registers
  pub bits_fit : IsBytes m.tab_bits
  pub input_bits_fit : IsBytes m.tab_input_bits
  pub registers_fit : AllBelow 65536 m.tab_registers
  pub input_registers_fit : AllBelow 65536 m.tab_input_registers

-- The five blocks that a mapping is made of.
pub data Block : Type 0 where
  structure bits input_bits registers input_registers : Block

unfoldable pub same_block : Block → Block → Bool
same_block structure structure = true
same_block bits bits = true
same_block input_bits input_bits = true
same_block registers registers = true
same_block input_registers input_registers = true
same_block _ _ = false

-- `free`; a block that was not allocated is a null pointer, and nothing happens.
unfoldable pub free_block : Block → List Block → List Block
free_block b [] = []
free_block b (c ∷ live) = if same_block b c then free_block b live else c ∷ free_block b live

unfoldable pub free_blocks : List Block → List Block → List Block
free_blocks [] live = live
free_blocks (b ∷ bs) live = free_blocks bs (free_block b live)

-- Allocating one table: nothing for no entries, else `malloc` and `memset` to 0, or the early
-- return that frees what was allocated before. `live` are the blocks allocated so far.
unfoldable pub alloc_table :
    (Block → Bool)
    → Block
    → ℕ
    → List Block
    → List Block
    → (List Block → List ℕ → List Block × Result Mapping)
    → List Block × Result Mapping
alloc_table malloc b nb live to_free next =
    if nb == 0
    then next live []
    else if malloc b
    then next (b ∷ live) (replicate nb 0)
    else (free_blocks to_free live, err enomem)

-- `malloc b` says whether the allocation of the block succeeds. The start addresses are taken below
-- 2^31: the C parameters are `unsigned int` and the fields of the mapping `int`, which from there on
-- would be negative.
unfoldable pub mapping_new_start_address :
    (Block → Bool) → ℕ → ℕ → ℕ → ℕ → ℕ → ℕ → ℕ → ℕ → List Block × Result Mapping
mapping_new_start_address malloc start_b nb_b start_ib nb_ib start_r nb_r start_ir nb_ir =
    if ltb max_table_size nb_b
      || ltb max_table_size nb_ib
      || (ltb max_table_size nb_r || ltb max_table_size nb_ir)
    then ([], err einval)
    else if not (malloc structure)
    then ([], err enomem)
    else alloc_table malloc bits nb_b (structure ∷ []) (structure ∷ []) λ live1 tab_b.
      alloc_table malloc input_bits nb_ib live1 (bits ∷ structure ∷ []) λ live2 tab_ib.
        alloc_table malloc registers nb_r live2 (input_bits ∷ bits ∷ structure ∷ []) λ live3 tab_r.
          alloc_table malloc input_registers nb_ir live3
            (registers ∷ input_bits ∷ bits ∷ structure ∷ [])
            λ live4 tab_ir. (
              live4,
              ok (record {
                nb_bits = nb_b;
                start_bits = start_b;
                nb_input_bits = nb_ib;
                start_input_bits = start_ib;
                nb_input_registers = nb_ir;
                start_input_registers = start_ir;
                nb_registers = nb_r;
                start_registers = start_r;
                tab_bits = tab_b;
                tab_input_bits = tab_ib;
                tab_input_registers = tab_ir;
                tab_registers = tab_r;
              }),
            )

-- The counts are `int`; a negative one is rejected.
unfoldable pub mapping_new : (Block → Bool) → ℤ → ℤ → ℤ → ℤ → List Block × Result Mapping
mapping_new malloc (pos nb_b) (pos nb_ib) (pos nb_r) (pos nb_ir) =
    mapping_new_start_address malloc 0 nb_b 0 nb_ib 0 nb_r 0 nb_ir
mapping_new malloc _ _ _ _ = ([], err einval)

unfoldable pub mapping_free : List Block → List Block
mapping_free live =
    free_blocks (input_registers ∷ registers ∷ input_bits ∷ bits ∷ structure ∷ []) live
