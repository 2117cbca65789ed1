-- ===== src/Memory/Views.antt =====
-- The tables of the server's mapping as cells: what is collected from them, and what is overwritten.
use libmodbus.Base.{
  ℕ, zero, suc, ◌+◌, ◌-◌, ◌≤◌, ◌<◌, ◌≡◌, refl, ap, ◌∙◌, arith, inl, inr, ◌⊎◌, true, false, ◌||◌,
  ltb, leb, Bool-cases, none, some, List, [], ◌∷◌, byte_at, length, take, drop, set, length-set,
  get_or-set_self, get_or-set_ne,
}
use std.Path.{fun_ext}
use libmodbus.Data.BitTables.{IsUnpacked}
use libmodbus.Client.Stored.{IsStored}
use libmodbus.Client.Calls.{IsOutside}
use libmodbus.Memory.{collect, overwrite, view}

-- The entries from one of the list on.
take-drop-suc :
    (n i : ℕ) (xs : List ℕ)
    → i < length xs
    → take (suc n) (drop i xs) ≡ byte_at xs i ∷ take n (drop (i + 1) xs)
take-drop-suc n i [] h = absurd (omega arith)
take-drop-suc n zero (x ∷ xs) h = refl
take-drop-suc n (suc i) (x ∷ xs) h =
    let e : suc i + 1 ≡ suc (i + 1) = omega arith in rw e (take-drop-suc n i xs (omega arith))

pub within :
    (start count addr nb : ℕ)
    → IsOutside start count addr nb ⊎ ((start ≤ addr) × (addr - start + nb ≤ count))
within start count addr nb = elim (Bool-cases (ltb addr start)) [
  | inl below ↦ inl (inl (ground arith))
  | inr low ↦ elim (Bool-cases (ltb (start + count) (addr + nb))) [
    | inl over ↦ inl (inr (ground arith))
    | inr room ↦ inr (ground arith, ground arith)
  ]
]

module _ (start count : ℕ) (tab : List ℕ) where
  pub there :
      (a : ℕ)
      → start ≤ a
      → a - start < count
      → view start count tab a ≡ some (byte_at tab (a - start))
  unfolding view
  there a low room =
      let e : (ltb a start || leb count (a - start)) ≡ false = ground arith in rw e refl

  -- A cell that is not.
  pub missing_cell : (a : ℕ) → IsOutside start count a 1 → view start count tab a ≡ none
  unfolding view
  missing_cell a missing =
      let e : (ltb a start || leb count (a - start)) ≡ true = ground arith in rw e refl

  -- All of the entries are there.
  pub collect-inside :
      (nb addr : ℕ)
      → length tab ≡ count
      → start ≤ addr
      → addr - start + nb ≤ count
      → collect (view start count tab) addr nb ≡ some (take nb (drop (addr - start) tab))
  unfolding collect
  collect-inside zero addr same low room = refl
  collect-inside (suc nb) addr same low room =
      let next : addr + 1 - start ≡ addr - start + 1 = omega arith in
      rw
        (
          collect,
          there addr low (omega arith),
          collect-inside nb (addr + 1) same (omega arith) (omega arith),
          next,
          take-drop-suc nb (addr - start) tab (omega arith),
        )
        refl

  -- One of them is not.
  pub collect-outside :
      (nb addr : ℕ)
      → 1 ≤ nb
      → IsOutside start count addr nb
      → collect (view start count tab) addr nb ≡ none
  unfolding collect view
  collect-outside zero addr some_nb missing = absurd (omega arith)
  collect-outside (suc nb) addr some_nb missing =
      elim (Bool-cases (ltb addr start || leb count (addr - start))) [
        | inl e ↦ rw (collect, view, e) refl
        | inr e ↦
            let later : collect (view start count tab) (addr + 1) nb ≡ none =
              collect-outside nb (addr + 1) (ground arith) (ground arith) in
            rw (collect, view, e, later) refl
      ]

  -- A loop that fills entries overwrites their cells.
  pub view-filled :
      (addr nb : ℕ) (values : ℕ → ℕ) (out : List ℕ)
      → start ≤ addr
      → addr - start + nb ≤ count
      → IsUnpacked values (addr - start) 0 nb tab out
      → view start count out ≡ overwrite (view start count tab) addr nb values
  unfolding view overwrite
  view-filled addr nb values out low room filled = fun_ext at
    where
      at : (a : ℕ) → view start count out a ≡ overwrite (view start count tab) addr nb values a
      at a = elim (Bool-cases (ltb a addr || leb (addr + nb) a)) [
        | inl e ↦ elim (Bool-cases (ltb a start || leb count (a - start))) [
          | inl f ↦ rw (e, f) refl
          | inr f ↦ rw (e, f) (ap (λ (x : ℕ). some x) (filled.outside (a - start) (ground arith)))
        ]
        | inr e ↦
            let f : (ltb a start || leb count (a - start)) ≡ false = ground arith in
            let i : a - start ≡ addr - start + (a - addr) = ground arith in
            rw (e, f, i)
              (ap (λ (x : ℕ). some x) (filled.inside (a - addr) (omega arith) (ground arith)))
      ]

-- The two other ways of filling.
pub IsUnpacked-stored :
    (src : List ℕ) (idx nb : ℕ) (tab out : List ℕ)
    → IsStored src 0 idx nb tab out
    → IsUnpacked (byte_at src) idx 0 nb tab out
IsUnpacked-stored src idx nb tab out stored = record {
  same_length = stored.same_length;
  inside = λ j p q. let e : 0 + j ≡ j = omega arith in stored.inside j q ∙ ap (byte_at src) e;
  outside = λ k p. stored.outside k (ground arith);
}

pub IsUnpacked-one :
    (tab : List ℕ) (idx value : ℕ)
    → idx < length tab
    → IsUnpacked (λ j. value) idx 0 1 tab (set tab idx value)
IsUnpacked-one tab idx value room = record {
  same_length = length-set tab idx value;
  inside =
      λ j p q. let e : idx + j ≡ idx = omega arith in rw e (get_or-set_self tab idx value 0 room);
  outside = λ k p. get_or-set_ne tab idx k value 0 (ground arith);
}
