-- ===== src/Client/Words.antt =====
-- Registers in a message: what one end writes, the other reads.
use libmodbus.Base.{
  ℕ, zero, suc, ◌+◌, ◌*◌, ◌/◌, ◌%◌, ◌^◌, ◌≤◌, ◌<◌, ◌≡◌, refl, sym, ap, ap₂, ◌∙◌, arith, bit_or,
  bit_and, bit_and-255, shifted_bit_or, List, [], ◌∷◌, ◌++◌, byte_at, length, take, drop, AllBelow,
  get_or-lt,
}
use libmodbus.Lengths.{word_at, word_or_at}
use libmodbus.Client.{words_bytes, response_words}

pub take-drop-suc :
    (n i : ℕ) (xs : List ℕ)
    → i < length xs
    → take (suc n) (drop i xs) ≡ byte_at xs i ∷ take n (drop (i + 1) xs)
take-drop-suc n i [] h = absurd (omega arith)
take-drop-suc n zero (x ∷ xs) h = refl
take-drop-suc n (suc i) (x ∷ xs) h =
    let e : suc i + 1 ≡ suc (i + 1) = omega arith in rw e (take-drop-suc n i xs (omega arith))

-- The two ways to put a word together agree on bytes.
pub word_or_at-eq-word_at :
    (buf : List ℕ) (i : ℕ) → byte_at buf (i + 1) < 256 → word_or_at buf i ≡ word_at buf i
word_or_at-eq-word_at buf i h = shifted_bit_or 8 (byte_at buf i) (byte_at buf (i + 1)) h

word_of_bytes : (w : ℕ) → w < 65536 → bit_or (w / 256 % 256 * 2 ^ 8) (bit_and w 0xff) ≡ w
word_of_bytes w h =
    shifted_bit_or 8 (w / 256 % 256) (bit_and w 0xff) (omega (arith, bit_and-255 w))
    ∙ omega (arith, bit_and-255 w)

-- The words from `p` on are read back where they stand as bytes.
pub response_words-words_bytes :
    (n i p : ℕ) (tab tail rsp : List ℕ)
    → AllBelow 65536 tab
    → i + n ≤ length tab
    → ((k : ℕ) → byte_at rsp (p + k) ≡ byte_at (words_bytes n tab i ++ tail) k)
    → response_words n p rsp ≡ take n (drop i tab)
unfolding response_words words_bytes
response_words-words_bytes zero i p tab tail rsp small room h = refl
response_words-words_bytes (suc n) i p tab tail rsp small room h =
    ap₂ ◌∷◌ first (
      response_words-words_bytes n (i + 1) (p + 2) tab tail rsp small (omega arith)
        (λ k. let e : p + 2 + k ≡ p + suc (suc k) = omega arith in rw e (h (suc (suc k)))))
    ∙ sym (take-drop-suc n i tab (omega arith))
  where
    w : ℕ
    w = byte_at tab i

    first : word_or_at rsp p ≡ w
    first =
        let e : byte_at rsp p ≡ w / 256 % 256 =
          (let q : p ≡ p + 0 = omega arith in ap (byte_at rsp) q) ∙ h 0 in
        rw (e, h 1) (word_of_bytes w (get_or-lt 65536 tab i (omega arith) small))

pub length-words_bytes : (n i : ℕ) (src : List ℕ) → length (words_bytes n src i) ≡ 2 * n
unfolding words_bytes
length-words_bytes zero i src = omega arith
length-words_bytes (suc n) i src = omega (arith, length-words_bytes n (i + 1) src)
