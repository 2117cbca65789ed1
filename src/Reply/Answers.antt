-- ===== src/Reply/Answers.antt =====
-- What the loops of `modbus_reply` write: lengths and ranges.
use libmodbus.Base.{
  ℕ, zero, suc, ◌+◌, ◌*◌, ◌/◌, ◌%◌, ◌^◌, ◌≤◌, ◌<◌, ◌≡◌, refl, ◌∙◌, arith, Bool, bit_and, bit_or,
  ◌==◌, Bool-cases, inl, inr, List, [], ◌∷◌, ◌++◌, byte_at, set, length, length-append, length-set,
  length-take, get_or-append_left, AllBelow, IsBytes, AllBelow-set, take, drop,
}
use libmodbus.Context.{Backend, rtu, tcp, Sft}
use libmodbus.Backend.{header_length, build_response_basis}
use libmodbus.Data.{test_bit, set_bytes_loop, set_bits_from_bytes}
use libmodbus.Lengths.{word_at, byte_count}
use libmodbus.Mapping.{Mapping}
use libmodbus.Reply.{
  response_exception, io_status_loop, response_io_status, register_bytes, store_registers,
  echo_four,
}

pub length-build_response_basis :
    (backend : Backend) (sft : Sft)
    → length (build_response_basis backend sft) ≡ header_length backend + 1
unfolding build_response_basis
length-build_response_basis rtu sft = refl
length-build_response_basis tcp sft = refl

pub length-response_exception :
    (backend : Backend) (sft : Sft) (code : ℕ) (to_flush : Bool) (m : Mapping)
    → length (response_exception backend sft code to_flush m).rsp ≡ header_length backend + 2
unfolding response_exception build_response_basis
length-response_exception rtu sft code to_flush m = refl
length-response_exception tcp sft code to_flush m = refl

length-io_status_loop :
    (n i : ℕ) (tab : List ℕ) (shift one_byte : ℕ) (rsp : List ℕ)
    → shift < 8
    → length (io_status_loop n i tab shift one_byte rsp) ≡ length rsp + (n + shift + 7) / 8
unfolding io_status_loop
length-io_status_loop zero i tab shift one_byte rsp h =
    ground (arith, length-append rsp (one_byte % 256 ∷ []))
length-io_status_loop (suc n) i tab shift one_byte rsp h = elim (Bool-cases (shift == 7)) [
  | inl e ↦ rw e (
      ground (
        arith,
        length-io_status_loop n (i + 1) tab 0 0 (rsp ++ byte % 256 ∷ []),
        length-append rsp (byte % 256 ∷ []),
      ))
  | inr e ↦ rw e (ground (arith, length-io_status_loop n (i + 1) tab (shift + 1) byte rsp))
]
  where
    byte : ℕ
    byte = bit_or one_byte (byte_at tab i * 2 ^ shift)

pub length-response_io_status :
    (tab : List ℕ) (address nb : ℕ) (rsp : List ℕ)
    → length (response_io_status tab address nb rsp) ≡ length rsp + byte_count nb
unfolding response_io_status
length-response_io_status tab address nb rsp =
    ground (arith, length-io_status_loop nb address tab 0 0 rsp)

pub length-register_bytes :
    (n i : ℕ) (tab rsp : List ℕ) → length (register_bytes n i tab rsp) ≡ length rsp + 2 * n
unfolding register_bytes
length-register_bytes zero i tab rsp = omega arith
length-register_bytes (suc n) i tab rsp =
    let two : List ℕ = byte_at tab i / 256 % 256 ∷ bit_and (byte_at tab i) 0xff ∷ [] in
    omega (arith, length-register_bytes n (i + 1) tab (rsp ++ two), length-append rsp two)

pub length-store_registers :
    (n i j : ℕ) (req tab : List ℕ) → length (store_registers n i j req tab) ≡ length tab
unfolding store_registers
length-store_registers zero i j req tab = refl
length-store_registers (suc n) i j req tab =
    length-store_registers n (i + 1) (j + 2) req _ ∙ length-set tab i (word_at req j % 65536)

pub store_registers-AllBelow :
    (n i j : ℕ) (req tab : List ℕ)
    → AllBelow 65536 tab
    → AllBelow 65536 (store_registers n i j req tab)
unfolding store_registers
store_registers-AllBelow zero i j req tab h = h
store_registers-AllBelow (suc n) i j req tab h =
    store_registers-AllBelow n (i + 1) (j + 2) req _
      (AllBelow-set 65536 tab i (word_at req j % 65536) (omega arith) h)

test_bit-lt : (v i : ℕ) → test_bit v i < 256
test_bit-lt v i = ground arith

set_bytes_loop-keeps :
    (n i shift idx : ℕ) (bytes tab : List ℕ)
    → IsBytes tab
    → (length (set_bytes_loop n i shift idx bytes tab) ≡ length tab)
      × IsBytes (set_bytes_loop n i shift idx bytes tab)
unfolding set_bytes_loop
set_bytes_loop-keeps zero i shift idx bytes tab h = (refl, h)
set_bytes_loop-keeps (suc n) i shift idx bytes tab h =
    let v : ℕ = test_bit (byte_at bytes (i / 8)) shift in
    let (same, fit) =
      set_bytes_loop-keeps n (i + 1) ((shift + 1) % 8) idx bytes (set tab (idx + i) v)
        (AllBelow-set 256 tab (idx + i) v (test_bit-lt _ shift) h) in
    (same ∙ length-set tab (idx + i) v, fit)

pub set_bits_from_bytes-keeps :
    (tab : List ℕ) (idx nb : ℕ) (bytes : List ℕ)
    → IsBytes tab
    → (length (set_bits_from_bytes tab idx nb bytes) ≡ length tab)
      × IsBytes (set_bits_from_bytes tab idx nb bytes)
unfolding set_bits_from_bytes
set_bits_from_bytes-keeps tab idx nb bytes h = set_bytes_loop-keeps nb 0 0 idx bytes tab h

pub echo_four-le :
    (backend : Backend) (sft : Sft) (req : List ℕ) (req_length address : ℕ) (m : Mapping)
    → length (echo_four backend sft req req_length address m) ≤ header_length backend + 5
echo_four-le backend sft req req_length address m =
    let basis = build_response_basis backend sft in
    omega (
      arith,
      length-append basis (take 4 (drop (length basis) req)),
      length-take 4 (drop (length basis) req),
      length-build_response_basis backend sft,
    )

-- The loops append: what was written before stays.
pub byte_at-register_bytes :
    (n i : ℕ) (tab rsp : List ℕ) (k : ℕ)
    → k < length rsp
    → byte_at (register_bytes n i tab rsp) k ≡ byte_at rsp k
unfolding register_bytes
byte_at-register_bytes zero i tab rsp k h = refl
byte_at-register_bytes (suc n) i tab rsp k h =
    let two : List ℕ = byte_at tab i / 256 % 256 ∷ bit_and (byte_at tab i) 0xff ∷ [] in
    byte_at-register_bytes n (i + 1) tab (rsp ++ two) k (omega (arith, length-append rsp two))
    ∙ get_or-append_left rsp two k 0 h

pub byte_at-io_status_loop :
    (n i : ℕ) (tab : List ℕ) (shift one_byte : ℕ) (rsp : List ℕ) (k : ℕ)
    → k < length rsp
    → byte_at (io_status_loop n i tab shift one_byte rsp) k ≡ byte_at rsp k
unfolding io_status_loop
byte_at-io_status_loop zero i tab shift one_byte rsp k h =
    ground (arith, get_or-append_left rsp (one_byte % 256 ∷ []) k 0 h)
byte_at-io_status_loop (suc n) i tab shift one_byte rsp k h = elim (Bool-cases (shift == 7)) [
  | inl e ↦ rw e (
      byte_at-io_status_loop n (i + 1) tab 0 0 (rsp ++ byte % 256 ∷ []) k
        (omega (arith, length-append rsp (byte % 256 ∷ [])))
      ∙ get_or-append_left rsp (byte % 256 ∷ []) k 0 h)
  | inr e ↦ rw e (byte_at-io_status_loop n (i + 1) tab (shift + 1) byte rsp k h)
]
  where
    byte : ℕ
    byte = bit_or one_byte (byte_at tab i * 2 ^ shift)
