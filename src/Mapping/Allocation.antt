-- ===== src/Mapping/Allocation.antt =====
-- Allocating and freeing a mapping.
use libmodbus.Base.{
  ℕ, ◌<◌, ◌≡◌, refl, arith, Bool, true, false, ◌||◌, ltb, ◌==◌, ==_iff, not, if◌then◌else◌,
  if_intro, List, [], ◌∷◌, length, replicate, length-replicate, AllBelow, AllBelow-replicate,
}
use libmodbus.Context.{Errno, Result, ok, err, pending, einval, enomem}
use libmodbus.Mapping.{
  Mapping, IsValid, Block, structure, bits, input_bits, registers, input_registers, same_block,
  free_block, free_blocks, alloc_table, mapping_new_start_address, mapping_free,
}

-- Every live block is in a list of blocks to be freed.
abbrev covers : List Block → Block → Bool
covers [] b = false
covers (c ∷ cs) b = same_block c b || covers cs b

abbrev AllCovered : List Block → List Block → Type 0
AllCovered cs [] = Unit {0}
AllCovered cs (b ∷ live) = (covers cs b ≡ true) × AllCovered cs live

free_block-AllCovered :
    (c : Block) (cs live : List Block)
    → AllCovered (c ∷ cs) live
    → AllCovered cs (free_block c live)
unfolding free_block
free_block-AllCovered c cs [] h = tt
free_block-AllCovered c cs (b ∷ live) (p, h) =
    freed (same_block c b) p (free_block-AllCovered c cs live h)
  where
    freed :
        (t : Bool)
        → (t || covers cs b) ≡ true
        → AllCovered cs (free_block c live)
        → AllCovered cs (if t then free_block c live else b ∷ free_block c live)
    freed true q ih = ih
    freed false q ih = (q, ih)

free_blocks-covered : (cs live : List Block) → AllCovered cs live → free_blocks cs live ≡ []
unfolding free_blocks
free_blocks-covered [] [] h = refl
free_blocks-covered [] (b ∷ live) (p, h) = absurd cc
free_blocks-covered (c ∷ cs) live h =
    free_blocks-covered cs (free_block c live) (free_block-AllCovered c cs live h)

more_covered : (c : Block) (cs live : List Block) → AllCovered cs live → AllCovered (c ∷ cs) live
more_covered c cs [] h = tt
more_covered c cs (b ∷ live) (p, h) = (either (same_block c b) p, more_covered c cs live h)
  where
    either : (t : Bool) → covers cs b ≡ true → (t || covers cs b) ≡ true
    either true q = refl
    either false q = q

covers_self : (b : Block) (cs : List Block) → covers (b ∷ cs) b ≡ true
unfolding same_block
covers_self structure cs = refl
covers_self bits cs = refl
covers_self input_bits cs = refl
covers_self registers cs = refl
covers_self input_registers cs = refl

-- What an allocation leaves: a valid mapping that `mapping_free` frees whole, or no block.
unfoldable pub Balanced : List Block × Result Mapping → Type 0
Balanced (live, ok m) = IsValid m × (mapping_free live ≡ [])
Balanced (live, err e) = live ≡ []
Balanced (live, pending) = ⊥

failed : (live : List Block) (e : Errno) → live ≡ [] → Balanced (live, err e)
unfolding Balanced
failed live e h = h

complete :
    (live : List Block) (m : Mapping)
    → IsValid m
    → AllCovered (input_registers ∷ registers ∷ input_bits ∷ bits ∷ structure ∷ []) live
    → Balanced (live, ok m)
unfolding Balanced mapping_free
complete live m v h = (v, free_blocks-covered _ live h)

-- One table: the continuation gets a table of the right length, of zeros.
alloc_table-Balanced :
    (malloc : Block → Bool) (b : Block) (nb : ℕ) (cs live : List Block)
    (next : List Block → List ℕ → List Block × Result Mapping)
    → AllCovered cs live
    → ((live' : List Block) (tab : List ℕ)
        → AllCovered (b ∷ cs) live'
        → length tab ≡ nb
        → ((n : ℕ) → 0 < n → AllBelow n tab)
        → Balanced (next live' tab))
    → Balanced (alloc_table malloc b nb live cs next)
unfolding alloc_table
alloc_table-Balanced malloc b nb cs live next h k =
    if_intro Balanced (nb == 0) _ _
      (λ z. k live [] (more_covered b cs live h) (omega (arith, (==_iff nb 0).0 z)) (λ n p. tt))
      (λ z.
        if_intro Balanced (malloc b) _ _
          (λ q.
            k (b ∷ live) (replicate nb 0) (covers_self b cs, more_covered b cs live h)
              (length-replicate nb 0) (λ n p. AllBelow-replicate n nb 0 p))
          (λ q. failed _ enomem (free_blocks-covered cs live h)))

-- Whichever allocations fail, `modbus_mapping_new_start_address` either returns a well-formed
-- mapping, whose blocks `modbus_mapping_free` frees to the last, or it fails and every block that
-- it had allocated is freed again.
pub mapping_new_start_address-Balanced :
    (malloc : Block → Bool) (start_b nb_b start_ib nb_ib start_r nb_r start_ir nb_ir : ℕ)
    → Balanced
        (mapping_new_start_address malloc start_b nb_b start_ib nb_ib start_r nb_r start_ir nb_ir)
unfolding mapping_new_start_address
mapping_new_start_address-Balanced malloc start_b nb_b start_ib nb_ib start_r nb_r start_ir nb_ir =
    if_intro Balanced (ltb 65536 nb_b || ltb 65536 nb_ib || (ltb 65536 nb_r || ltb 65536 nb_ir)) _ _
      (λ q. failed [] einval refl)
      (λ q.
        if_intro Balanced (not (malloc structure)) _ _ (λ q. failed [] enomem refl)
          (λ q.
            alloc_table-Balanced malloc bits nb_b (structure ∷ []) (structure ∷ []) _
              (covers_self structure [], tt)
              λ live1 tab_b h1 l1 s1.
                alloc_table-Balanced malloc input_bits nb_ib _ live1 _ h1 λ live2 tab_ib h2 l2 s2.
                  alloc_table-Balanced malloc registers nb_r _ live2 _ h2 λ live3 tab_r h3 l3 s3.
                    alloc_table-Balanced malloc input_registers nb_ir _ live3 _ h3
                      λ live4 tab_ir h4 l4 s4.
                        complete live4 _
                          (record {
                            bits_length = l1;
                            input_bits_length = l2;
                            registers_length = l3;
                            input_registers_length = l4;
                            bits_fit = s1 256 bytes_some;
                            input_bits_fit = s2 256 bytes_some;
                            registers_fit = s3 65536 words_some;
                            input_registers_fit = s4 65536 words_some;
                          })
                          h4))
  where
    bytes_some : 0 < 256
    bytes_some = omega arith

    words_some : 0 < 65536
    words_some = omega arith
