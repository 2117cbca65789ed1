-- ===== src/Reply/Packed.antt =====
-- The tables of bits in a response: eight entries to a byte.
use libmodbus.Base.{
  ℕ, zero, suc, ◌+◌, ◌-◌, ◌*◌, ◌/◌, ◌%◌, ◌^◌, ◌<◌, ◌≡◌, refl, sym, ap, ap₂, ◌∙◌, arith, List, [],
  ◌∷◌, ◌++◌, byte_at, length, length-append, AllBelow, get_or-lt, bit, bit_or, bit_or_shifted,
  false, ==_iff, ◌==◌, append-nil, append_assoc, get_or-append_right, Bool-cases, inl, inr,
}
use libmodbus.Data.BitTables.{pow-le}
use libmodbus.Data.Digits.{digit_fits, bit_top, bit_below}
use libmodbus.Reply.{io_status_loop, response_io_status}
use libmodbus.Reply.Answers.{byte_at-io_status_loop}

-- Equal positions hold equal digits, and equal entries.
pub same_digit :
    (out : List ℕ) (k l q r : ℕ) → k ≡ l → q ≡ r → bit (byte_at out k) q ≡ bit (byte_at out l) r
same_digit out k l q r e f = ap₂ (λ (k q : ℕ). bit (byte_at out k) q) e f

same_entry : (tab : List ℕ) (i j : ℕ) → i ≡ j → byte_at tab i ≡ byte_at tab j
same_entry tab i j e = ap (byte_at tab) e

-- The server's loop, with `s` digits of a byte put together as `v`.
module _ (tab : List ℕ) (h : AllBelow 2 tab) where
  entry-lt : (i : ℕ) → byte_at tab i < 2
  entry-lt i = get_or-lt 2 tab i (omega arith) h

  -- The byte with the next entry on top.
  with_next : (s v i : ℕ) → v < 2 ^ s → bit_or v (byte_at tab i * 2 ^ s) ≡ v + byte_at tab i * 2 ^ s
  with_next s v i hv = bit_or_shifted s v (byte_at tab i) hv

  with_next-lt : (s v i : ℕ) → v < 2 ^ s → bit_or v (byte_at tab i * 2 ^ s) < 2 ^ suc s
  with_next-lt s v i hv = rw (with_next s v i hv) (digit_fits s v (byte_at tab i) hv (entry-lt i))

  one_byte : (s v i : ℕ) → s < 8 → v < 2 ^ s → bit_or v (byte_at tab i * 2 ^ s) < 256
  one_byte s v i hs hv = omega (arith, with_next-lt s v i hv, pow-le (7 - s) (suc s) (omega arith))

  -- The byte that the loop completes at position 7.
  full_byte :
      (n i v : ℕ) (rsp : List ℕ)
      → v < 2 ^ 7
      → let b = bit_or v (byte_at tab i * 2 ^ 7) in
        byte_at (io_status_loop n (i + 1) tab 0 0 (rsp ++ b % 256 ∷ [])) (length rsp) ≡ b
  full_byte n i v rsp hv =
      byte_at-io_status_loop n (i + 1) tab 0 0 (rsp ++ b % 256 ∷ []) (length rsp)
        (omega (arith, length-append rsp (b % 256 ∷ [])))
      ∙ get_or-append_right rsp (b % 256 ∷ []) 0 (length rsp) 0 (omega arith)
      ∙ omega (arith, one_byte 7 v i (omega arith) hv)
    where
      b : ℕ
      b = bit_or v (byte_at tab i * 2 ^ 7)

  -- One round of the loop.
  loop_full :
      (n i v : ℕ) (rsp : List ℕ)
      → io_status_loop (suc n) i tab 7 v rsp
        ≡ io_status_loop n (i + 1) tab 0 0 (rsp ++ bit_or v (byte_at tab i * 2 ^ 7) % 256 ∷ [])
  unfolding io_status_loop
  loop_full n i v rsp = refl

  loop_more :
      (n i s v : ℕ) (rsp : List ℕ)
      → (s == 7) ≡ false
      → io_status_loop (suc n) i tab s v rsp
        ≡ io_status_loop n (i + 1) tab (s + 1) (bit_or v (byte_at tab i * 2 ^ s)) rsp
  unfolding io_status_loop
  loop_more n i s v rsp e = rw e refl

  more_fits : (s v i : ℕ) → v < 2 ^ s → bit_or v (byte_at tab i * 2 ^ s) < 2 ^ (s + 1)
  more_fits s v i hv = let e : s + 1 ≡ suc s = omega arith in rw e (with_next-lt s v i hv)

  low_digits :
      (n i s v q : ℕ) (rsp : List ℕ)
      → s < 8
      → v < 2 ^ s
      → q < s
      → bit (byte_at (io_status_loop n i tab s v rsp) (length rsp)) q ≡ bit v q
  unfolding io_status_loop
  low_digits zero i s v q rsp hs hv hq =
      let some_digits : (s == 0) ≡ false = ground arith in
      rw (some_digits, get_or-append_right rsp (v % 256 ∷ []) 0 (length rsp) 0 (omega arith))
        (ap (λ (x : ℕ). bit x q) (omega (arith, pow-le (8 - s) s (omega arith))))
  low_digits (suc n) i s v q rsp hs hv hq = elim (Bool-cases (s == 7)) [
    | inl e ↦
        let e' : s ≡ 7 = (==_iff s 7).0 e in
        let hv' : v < 2 ^ 7 = rw e' at hv in
        rw (e', loop_full n i v rsp, full_byte n i v rsp hv', with_next 7 v i hv')
          (bit_below q 7 v (byte_at tab i) (omega arith) hv' (entry-lt i))
    | inr e ↦
        loop_digit n i s v q rsp e
        ∙ low_digits n (i + 1) (s + 1) (bit_or v (byte_at tab i * 2 ^ s)) q rsp (ground arith)
            (more_fits s v i hv) (omega arith)
        ∙ rw (with_next s v i hv) (bit_below q s v (byte_at tab i) hq hv (entry-lt i))
  ]
    where
      loop_digit :
          (n i s v q : ℕ) (rsp : List ℕ)
          → (s == 7) ≡ false
          → bit (byte_at (io_status_loop (suc n) i tab s v rsp) (length rsp)) q
            ≡ bit
                (byte_at
                  (io_status_loop n (i + 1) tab (s + 1) (bit_or v (byte_at tab i * 2 ^ s)) rsp)
                  (length rsp))
                q
      loop_digit n i s v q rsp e =
          ap (λ (l : List ℕ). bit (byte_at l (length rsp)) q) (loop_more n i s v rsp e)

  -- What the loop leaves behind `rsp`: from digit `s` on, the entries of the table, eight to a byte.
  pub loop_entries :
      (n i s v r : ℕ) (rsp : List ℕ)
      → s < 8
      → v < 2 ^ s
      → r < n
      → bit (byte_at (io_status_loop n i tab s v rsp) (length rsp + (s + r) / 8)) ((s + r) % 8)
        ≡ byte_at tab (i + r)
  loop_entries zero i s v r rsp hs hv hr = absurd (omega arith)
  loop_entries (suc n) i s v zero rsp hs hv hr = elim (Bool-cases (s == 7)) [
    | inl e ↦
        let e' : s ≡ 7 = (==_iff s 7).0 e in
        let hv' : v < 2 ^ 7 = rw e' at hv in
        let out =
          io_status_loop n (i + 1) tab 0 0 (rsp ++ bit_or v (byte_at tab i * 2 ^ 7) % 256 ∷ []) in
        rw (e', loop_full n i v rsp)
          (same_digit out (length rsp + 0) (length rsp) 7 7 (omega arith) refl
            ∙ ap (λ (x : ℕ). bit x 7) (full_byte n i v rsp hv' ∙ with_next 7 v i hv')
            ∙ bit_top 7 v (byte_at tab i) hv' (entry-lt i)
            ∙ same_entry tab i (i + 0) (omega arith))
    | inr e ↦
        let b = bit_or v (byte_at tab i * 2 ^ s) in
        let out = io_status_loop n (i + 1) tab (s + 1) b rsp in
        rw (loop_more n i s v rsp e) (
          same_digit out (length rsp + (s + 0) / 8) (length rsp) ((s + 0) % 8) s (omega arith)
            (omega arith)
          ∙ low_digits n (i + 1) (s + 1) b s rsp (ground arith) (more_fits s v i hv) (omega arith)
          ∙ ap (λ (x : ℕ). bit x s) (with_next s v i hv)
          ∙ bit_top s v (byte_at tab i) hv (entry-lt i)
          ∙ same_entry tab i (i + 0) (omega arith))
  ]
  loop_entries (suc n) i s v (suc r) rsp hs hv hr = elim (Bool-cases (s == 7)) [
    | inl e ↦
        let e' : s ≡ 7 = (==_iff s 7).0 e in
        let rsp' = rsp ++ bit_or v (byte_at tab i * 2 ^ 7) % 256 ∷ [] in
        let out = io_status_loop n (i + 1) tab 0 0 rsp' in
        rw (e', loop_full n i v rsp)
          (same_digit out (length rsp + (7 + suc r) / 8) (length rsp' + (0 + r) / 8)
              ((7 + suc r) % 8) ((0 + r) % 8)
              (omega (arith, length-append rsp (bit_or v (byte_at tab i * 2 ^ 7) % 256 ∷ [])))
              (omega arith)
            ∙ loop_entries n (i + 1) 0 0 r rsp' (omega arith) (omega arith) (omega arith)
            ∙ same_entry tab (i + 1 + r) (i + suc r) (omega arith))
    | inr e ↦
        let b = bit_or v (byte_at tab i * 2 ^ s) in
        let out = io_status_loop n (i + 1) tab (s + 1) b rsp in
        rw (loop_more n i s v rsp e) (
          same_digit out (length rsp + (s + suc r) / 8) (length rsp + (s + 1 + r) / 8)
            ((s + suc r) % 8) ((s + 1 + r) % 8) (omega arith) (omega arith)
          ∙ loop_entries n (i + 1) (s + 1) b r rsp (ground arith) (more_fits s v i hv) (omega arith)
          ∙ same_entry tab (i + 1 + r) (i + suc r) (omega arith))
  ]

-- The server's loop appends to what was written before.
io_status_loop-append :
    (n i s v : ℕ) (tab xs rsp : List ℕ)
    → io_status_loop n i tab s v (xs ++ rsp) ≡ xs ++ io_status_loop n i tab s v rsp
unfolding io_status_loop
io_status_loop-append zero i s v tab xs rsp = elim (Bool-cases (s == 0)) [
  | inl e ↦ rw e refl
  | inr e ↦ rw e (append_assoc xs rsp (v % 256 ∷ []))
]
io_status_loop-append (suc n) i s v tab xs rsp = elim (Bool-cases (s == 7)) [
  | inl e ↦
      let b = bit_or v (byte_at tab i * 2 ^ s) % 256 in
      rw (e, append_assoc xs rsp (b ∷ []))
        (io_status_loop-append n (i + 1) 0 0 tab xs (rsp ++ b ∷ []))
  | inr e ↦
      rw e (io_status_loop-append n (i + 1) (s + 1) (bit_or v (byte_at tab i * 2 ^ s)) tab xs rsp)
]

pub response_io_status-append :
    (tab : List ℕ) (i nb : ℕ) (rsp : List ℕ)
    → response_io_status tab i nb rsp ≡ rsp ++ response_io_status tab i nb []
unfolding response_io_status
response_io_status-append tab i nb rsp =
    ap (λ (r : List ℕ). io_status_loop nb i tab 0 0 r) (sym (append-nil rsp))
    ∙ io_status_loop-append nb i 0 0 tab rsp []
