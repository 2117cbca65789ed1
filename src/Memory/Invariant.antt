-- ===== src/Memory/Invariant.antt =====
-- What stays true of the server's mapping and of the client from one call to the next.
use libmodbus.Base.{
  AllBelow, ℕ, suc, ◌+◌, ◌-◌, ◌<◌, ◌≡◌, refl, arith, inl, inr, true, false, ◌||◌, ltb, leb,
  if◌then◌else◌, Bool, Bool-cases, Option, none, some, List, [], ◌∷◌, byte_at, length, get_or-lt,
}
use libmodbus.Context.{Modbus, Run}
use libmodbus.Mapping.{Mapping, IsValid}
use libmodbus.Send.{SendOutcome}
use libmodbus.Reply.{Answer, is_suppressed, respond, reply}
use libmodbus.Reply.Effects.{respond-IsSound}
use libmodbus.Client.Packing.{flag}
use libmodbus.Client.WriteOne.{coil_entry}
use libmodbus.Client.Calls.{
  Call, coils_read, inputs_read, registers_read, input_registers_read, coil_written,
  register_written, register_masked, coils_written, registers_written,
}
use libmodbus.Memory.{Cells, Memory, collect, overwrite, written, updated, remote, view}

-- Every request leaves a well-formed mapping well formed.
pub reply-IsValid :
    (version : List ℕ) (ctx : Modbus) (req : List ℕ) (n : ℕ) (m : Mapping)
    (outcomes : List SendOutcome)
    → IsValid m
    → IsValid (reply version ctx req n m outcomes).0
unfolding reply
reply-IsValid version ctx req n m outcomes v =
    by_answer (respond version ctx.backend req n m) _ _ v (λ answer e.
      let valid = (respond-IsSound version ctx.backend req n m answer v e).kept.valid in
      by_flag (is_suppressed ctx req) _ _ valid valid)
  where
    by_answer :
        (o : Option Answer) (x : Mapping × Run ℕ) (f : Answer → Mapping × Run ℕ)
        → IsValid x.0
        → ((a : Answer) → o ≡ some a → IsValid (f a).0)
        → IsValid (elim o as (λ o. Mapping × Run ℕ) [ none ↦ x | some a ↦ f a ]).0
    by_answer none x f h k = h
    by_answer (some a) x f h k = k a refl

    by_flag :
        (c : Bool) (x y : Mapping × Run ℕ)
        → IsValid x.0
        → IsValid y.0
        → IsValid (if◌then◌else◌ {A = Mapping × Run ℕ} c x y).0
    by_flag true x y h k = h
    by_flag false x y h k = k

-- The cells hold bits.
abbrev pub HoldsBits : Cells → Type 0
HoldsBits cells = (a x : ℕ) → cells a ≡ some x → x < 2

pub view-HoldsBits :
    (start count : ℕ) (tab : List ℕ) → AllBelow 2 tab → HoldsBits (view start count tab)
unfolding view
view-HoldsBits start count tab bits a x e =
    elim (Bool-cases (ltb a start || leb count (a - start))) [
      | inl f ↦ absurd (let g : none ≡ some x = rw f at e in cc)
      | inr f ↦
          let g : some (byte_at tab (a - start)) ≡ some x = rw f at e in
          let h : byte_at tab (a - start) ≡ x = cc in
          omega (arith, h, get_or-lt 2 tab (a - start) (omega arith) bits)
    ]

AllBelow-of : (n : ℕ) (xs : List ℕ) → ((i : ℕ) → i < length xs → byte_at xs i < n) → AllBelow n xs
AllBelow-of n [] h = tt
AllBelow-of n (x ∷ xs) h = (h 0 (omega arith), AllBelow-of n xs (λ i p. h (suc i) (omega arith)))

pub HoldsBits-view :
    (start count : ℕ) (tab : List ℕ)
    → length tab ≡ count
    → HoldsBits (view start count tab)
    → AllBelow 2 tab
unfolding view
HoldsBits-view start count tab same bits = AllBelow-of 2 tab (λ i p.
    let inside : (ltb (start + i) start || leb count (start + i - start)) ≡ false = ground arith in
    let e : start + i - start ≡ i = omega arith in
    bits (start + i) (byte_at tab i) (rw (inside, e) refl))

overwrite-HoldsBits :
    (cells : Cells) (addr nb : ℕ) (values : ℕ → ℕ)
    → HoldsBits cells
    → ((j : ℕ) → values j < 2)
    → HoldsBits (overwrite cells addr nb values)
unfolding overwrite
overwrite-HoldsBits cells addr nb values old new a x e =
    elim (Bool-cases (ltb a addr || leb (addr + nb) a)) [
      | inl f ↦ old a x (rw f at e)
      | inr f ↦
          let g : some (values (a - addr)) ≡ some x = rw f at e in
          let h : values (a - addr) ≡ x = cc in omega (arith, h, new (a - addr))
    ]

flag-lt : (src : List ℕ) (j : ℕ) → flag src j < 2
flag-lt src j = ground arith

coil_entry-lt : (status : ℕ) → coil_entry status < 2
coil_entry-lt status = ground arith

written-inputs :
    (nb : ℕ) (found : Option (List ℕ)) (before after : Memory)
    → after.inputs ≡ before.inputs
    → (written nb found before after).0.inputs ≡ before.inputs
unfolding written
written-inputs nb none before after e = refl
written-inputs nb (some xs) before after e = e

updated-inputs :
    (found : Option ℕ) (before : Memory) (after : ℕ → Memory)
    → ((word : ℕ) → (after word).inputs ≡ before.inputs)
    → (updated found before after).0.inputs ≡ before.inputs
unfolding updated
updated-inputs none before after e = refl
updated-inputs (some word) before after e = e word

-- The calls on a memory keep its inputs, and its coils bits.
pub remote-inputs :
    (call : Call) (addr : ℕ) (mem : Memory) → (remote call addr mem).0.inputs ≡ mem.inputs
unfolding remote
remote-inputs (coils_read nb) addr mem = refl
remote-inputs (inputs_read nb) addr mem = refl
remote-inputs (registers_read nb) addr mem = refl
remote-inputs (input_registers_read nb) addr mem = refl
remote-inputs (coil_written status) addr mem =
    written-inputs 1 (collect mem.coils addr 1) mem _ refl
remote-inputs (register_written value) addr mem =
    written-inputs 1 (collect mem.registers addr 1) mem _ refl
remote-inputs (register_masked and_mask or_mask) addr mem =
    updated-inputs (mem.registers addr) mem _ (λ word. refl)
remote-inputs (coils_written nb src) addr mem =
    written-inputs nb (collect mem.coils addr nb) mem _ refl
remote-inputs (registers_written nb src) addr mem =
    written-inputs nb (collect mem.registers addr nb) mem _ refl

written-HoldsBits :
    (nb : ℕ) (found : Option (List ℕ)) (before after : Memory)
    → HoldsBits before.coils
    → HoldsBits after.coils
    → HoldsBits (written nb found before after).0.coils
unfolding written
written-HoldsBits nb none before after old new = old
written-HoldsBits nb (some xs) before after old new = new

updated-HoldsBits :
    (found : Option ℕ) (before : Memory) (after : ℕ → Memory)
    → HoldsBits before.coils
    → ((word : ℕ) → HoldsBits (after word).coils)
    → HoldsBits (updated found before after).0.coils
unfolding updated
updated-HoldsBits none before after old new = old
updated-HoldsBits (some word) before after old new = new word

pub remote-HoldsBits :
    (call : Call) (addr : ℕ) (mem : Memory)
    → HoldsBits mem.coils
    → HoldsBits (remote call addr mem).0.coils
unfolding remote
remote-HoldsBits (coils_read nb) addr mem old = old
remote-HoldsBits (inputs_read nb) addr mem old = old
remote-HoldsBits (registers_read nb) addr mem old = old
remote-HoldsBits (input_registers_read nb) addr mem old = old
remote-HoldsBits (coil_written status) addr mem old =
    written-HoldsBits 1 (collect mem.coils addr 1) mem _ old (
      overwrite-HoldsBits mem.coils addr 1 (λ j. coil_entry status) old (λ j. coil_entry-lt status))
remote-HoldsBits (register_written value) addr mem old =
    written-HoldsBits 1 (collect mem.registers addr 1) mem _ old old
remote-HoldsBits (register_masked and_mask or_mask) addr mem old =
    updated-HoldsBits (mem.registers addr) mem _ old (λ word. old)
remote-HoldsBits (coils_written nb src) addr mem old =
    written-HoldsBits nb (collect mem.coils addr nb) mem _ old
      (overwrite-HoldsBits mem.coils addr nb (flag src) old (flag-lt src))
remote-HoldsBits (registers_written nb src) addr mem old =
    written-HoldsBits nb (collect mem.registers addr nb) mem _ old old
