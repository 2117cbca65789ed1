-- ===== src/Reply/Verdict.antt =====
-- Which requests `modbus_reply` may serve, and how it refuses the others.
use libmodbus.Base.{ℕ, ◌+◌, ◌*◌, ◌%◌, ◌≤◌, ◌≡◌, ◌≢◌, ◌⊎◌, List, byte_at, length}
use libmodbus.Context.{Backend}
use libmodbus.Backend.{header_length}
use libmodbus.Mapping.{Mapping}
use libmodbus.Reply.{Answer, request_address, request_function}
use libmodbus.Reply.Front.{IsFront}

-- A number of entries, of 1 up to a limit, from an address on, that a table has.
pub record Within (start count limit address nb : ℕ) : Type 0 where
  pub some_entry : 1 ≤ nb
  pub limited : nb ≤ limit
  pub from_start : start ≤ address
  pub to_end : address + nb ≤ start + count

-- The word of the request that stands `k` bytes behind its function code.
abbrev pub field : Backend → List ℕ → ℕ → ℕ
field b req k = byte_at req (header_length b + k) * 256 + byte_at req (header_length b + k + 1)

-- What a function must find to be served: the entries that it names stand in its table, within the
-- limits of the protocol, and there are as many bytes of data as it needs.
module _ (b : Backend) (req : List ℕ) (address : ℕ) (m : Mapping) where
  pub data IsServed : ℕ → Type 0 where
    coils_served :
        {f : ℕ} → f ≡ 1 → Within m.start_bits m.nb_bits 2000 address (field b req 3) → IsServed f
    inputs_served :
        {f : ℕ}
        → f ≡ 2
        → Within m.start_input_bits m.nb_input_bits 2000 address (field b req 3)
        → IsServed f
    registers_served :
        {f : ℕ}
        → f ≡ 3
        → Within m.start_registers m.nb_registers 125 address (field b req 3)
        → IsServed f
    input_registers_served :
        {f : ℕ}
        → f ≡ 4
        → Within m.start_input_registers m.nb_input_registers 125 address (field b req 3)
        → IsServed f
    coil_stored :
        {f : ℕ}
        → f ≡ 5
        → Within m.start_bits m.nb_bits 1 address 1
        → (field b req 3 ≡ 0xff00) ⊎ (field b req 3 ≡ 0)
        → IsServed f
    register_stored :
        {f : ℕ} → f ≡ 6 → Within m.start_registers m.nb_registers 1 address 1 → IsServed f
    coils_stored :
        {f : ℕ}
        → f ≡ 15
        → Within m.start_bits m.nb_bits 1968 address (field b req 3)
        → field b req 3 ≤ 8 * byte_at req (header_length b + 5)
        → IsServed f
    registers_stored :
        {f : ℕ}
        → f ≡ 16
        → Within m.start_registers m.nb_registers 123 address (field b req 3)
        → byte_at req (header_length b + 5) ≡ 2 * field b req 3
        → IsServed f
    named : {f : ℕ} → f ≡ 17 → IsServed f
    register_masked :
        {f : ℕ} → f ≡ 22 → Within m.start_registers m.nb_registers 1 address 1 → IsServed f
    registers_exchanged :
        {f : ℕ}
        → f ≡ 23
        → Within m.start_registers m.nb_registers 125 address (field b req 3)
        → Within m.start_registers m.nb_registers 121 (field b req 5 % 65536) (field b req 7)
        → byte_at req (header_length b + 9) ≡ 2 * field b req 7
        → IsServed f

-- The functions that are not served at all.
abbrev pub IsUnknown : ℕ → Type 0
IsUnknown f =
    (f ≢ 1)
    × (f ≢ 2)
    × (f ≢ 3)
    × (f ≢ 4)
    × (f ≢ 5)
    × (f ≢ 6)
    × (f ≢ 15)
    × (f ≢ 16)
    × (f ≢ 17)
    × (f ≢ 22)
    × (f ≢ 23)

-- The exception codes: illegal function, which is for those alone, illegal data address, and
-- illegal data value.
abbrev pub IsReason : ℕ → ℕ → Type 0
IsReason f code = ((code ≡ 1) × IsUnknown f) ⊎ ((code ≡ 2) ⊎ (code ≡ 3))

-- An exception: one byte, which is its code, stands behind the raised function code, and nothing
-- is changed.
pub record IsRefused (b : Backend) (req : List ℕ) (m : Mapping) (a : Answer) : Type 0 where
  pub front : IsFront b req ((request_function b req + 0x80) % 256) a
  pub code_only : length a.rsp ≡ header_length b + 2
  pub reason : IsReason (request_function b req) (byte_at a.rsp (header_length b + 1))
  pub kept : a.mapping ≡ m

abbrev pub IsHeadedFrom :
    (address : ℕ) (b : Backend) (req : List ℕ) (m : Mapping) (a : Answer) → Type 0
IsHeadedFrom address b req m a =
    (IsFront b req (request_function b req) a × IsServed b req address m (request_function b req))
    ⊎ IsRefused b req m a

-- A response is either one of the request's own function code, to a request that may be served, or
-- an exception.
abbrev pub IsHeaded : Backend → List ℕ → ℕ → Mapping → Answer → Type 0
IsHeaded b req n m a = IsHeadedFrom (request_address b req n) b req m a
