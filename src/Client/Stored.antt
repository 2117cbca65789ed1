-- ===== src/Client/Stored.antt =====
-- Registers that a request carries, as the server stores them.
use libmodbus.Base.{
  ℕ, zero, suc, ◌+◌, ◌/◌, ◌%◌, ◌≤◌, ◌<◌, ◌≡◌, refl, ap, ◌∙◌, arith, bit_and-255, ◌⊎◌, inl, List,
  ◌++◌, byte_at, length, length-set, set, get_or-set_self, get_or-set_ne, AllBelow, get_or-lt,
}
use libmodbus.Lengths.{word_at}
use libmodbus.Client.{words_bytes}
use libmodbus.Reply.{store_registers}

-- Entry `i + k` of the table is `src[p + k]` for `k` below `n`, and every other entry is kept.
pub record IsStored (src : List ℕ) (p i n : ℕ) (tab out : List ℕ) : Type 0 where
  pub same_length : length out ≡ length tab
  pub inside : (k : ℕ) → k < n → byte_at out (i + k) ≡ byte_at src (p + k)
  pub outside : (k : ℕ) → (k < i) ⊎ (i + n ≤ k) → byte_at out k ≡ byte_at tab k

pub store_registers-IsStored :
    (n p i j : ℕ) (src tail req tab : List ℕ)
    → AllBelow 65536 src
    → i + n ≤ length tab
    → ((k : ℕ) → byte_at req (j + k) ≡ byte_at (words_bytes n src p ++ tail) k)
    → IsStored src p i n tab (store_registers n i j req tab)
unfolding store_registers words_bytes
store_registers-IsStored zero p i j src tail req tab small room h = record {
  same_length = refl;
  inside = λ k q. absurd (omega arith);
  outside = λ k q. refl;
}
store_registers-IsStored (suc n) p i j src tail req tab small room h = extend (
    store_registers-IsStored n (p + 1) (i + 1) (j + 2) src tail req (set tab i w) small
      (omega (arith, length-set tab i w))
      (λ k. let e : j + 2 + k ≡ j + suc (suc k) = omega arith in rw e (h (suc (suc k)))))
  where
    w : ℕ
    w = word_at req j % 65536

    high : byte_at req j ≡ byte_at src p / 256 % 256
    high = (let e : j ≡ j + 0 = omega arith in ap (byte_at req) e) ∙ h 0

    stored : w ≡ byte_at src p
    stored =
        omega
          (arith, high, h 1, bit_and-255 (byte_at src p), get_or-lt 65536 src p (omega arith) small)

    extend :
        {out : List ℕ}
        → IsStored src (p + 1) (i + 1) n (set tab i w) out
        → IsStored src p i (suc n) tab out
    extend {out} rest = record {
      same_length = rest.same_length ∙ length-set tab i w;
      inside = within;
      outside = λ k q. rest.outside k (ground arith) ∙ get_or-set_ne tab i k w 0 (ground arith);
    }
      where
        within : (k : ℕ) → k < suc n → byte_at out (i + k) ≡ byte_at src (p + k)
        within zero q =
            let e : i + 0 ≡ i = omega arith in
            let e' : p + 0 ≡ p = omega arith in
            rw (e, e')
              (rest.outside i (inl (omega arith))
                ∙ get_or-set_self tab i w 0 (omega arith)
                ∙ stored)
        within (suc k) q =
            let e : i + suc k ≡ i + 1 + k = omega arith in
            let e' : p + suc k ≡ p + 1 + k = omega arith in rw (e, e') (rest.inside k (omega arith))
