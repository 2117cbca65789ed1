-- ===== src/Create/Contexts.antt =====
-- Which arguments make a context, and what is allocated when one is returned or none is.
use libmodbus.Base.{
  ℕ, ◌+◌, ◌*◌, ◌≤◌, ◌<◌, ◌≡◌, refl, arith, ◌⊎◌, inl, inr, ℤ, pos, negsuc, Bool, true, false, ◌&&◌,
  ◌||◌, ltb, leb, ◌==◌, not, if◌then◌else◌, if_intro, Bool-cases, ==_iff, List, [], ◌∷◌, Option,
  none, some, length,
}
use native.Mathlib.Nat.{div-le_self, le_trans}
use libmodbus.Context.{einval, enomem, Result, ok, err, pending, Modbus, rtu, tcp, init_common}
use libmodbus.System.{Syscall, returned, failed, release}
use libmodbus.Rtu.{Port}
use libmodbus.Rtu.Opening.{IsSupported}
use libmodbus.Create.{
  context_block, backend_block, device_block, rtu_free, tcp_free, tcp_context, onebyte_time,
  new_rtu_context, new_rtu, TcpData, new_tcp,
}

-- The allocations of a context over RTU succeed.
abbrev pub HasRtuMemory : (ℕ → Bool) → Type 0
HasRtuMemory malloc =
    (malloc context_block ≡ true) × (malloc backend_block ≡ true) × (malloc device_block ≡ true)

abbrev pub IsParity : ℕ → Type 0
IsParity p = (p ≡ b'N') ⊎ (p ≡ b'E') ⊎ (p ≡ b'O')

abbrev pub AreLineArguments : ℤ → ℕ → ℤ → ℤ → Type 0
AreLineArguments (pos baud) parity (pos data_bit) (pos stop_bit) =
    (0 < baud)
    × IsParity parity
    × (5 ≤ data_bit)
    × (data_bit ≤ 8)
    × ((stop_bit ≡ 1) ⊎ (stop_bit ≡ 2))
AreLineArguments _ _ _ _ = ⊥

abbrev pub IsText : Option (List ℕ) → Type 0
IsText (some (c ∷ text)) = Unit {0}
IsText _ = ⊥

-- A context that is returned has its blocks, which its release frees to the last; where none is
-- returned, nothing is allocated and the condition does not hold.
abbrev pub IsNewPort : Type 0 → List ℕ × Result (Modbus × Port) → Type 0
IsNewPort Accepted (live, ok (ctx, port)) =
    Accepted
    × (rtu_free live ≡ [])
    × IsSupported port
    × (ctx.backend ≡ rtu)
    × (ctx.s ≡ negsuc 0)
    × (port.onebyte_time ≤ 12000000)
IsNewPort Accepted (live, err e) = (live ≡ []) × ¬ Accepted
IsNewPort Accepted (live, pending) = ⊥

onebyte_time-le :
    (baud parity data_bit stop_bit : ℕ)
    → 0 < baud
    → data_bit ≤ 8
    → stop_bit ≤ 2
    → onebyte_time baud parity data_bit stop_bit ≤ 12000000
unfolding onebyte_time
onebyte_time-le baud parity data_bit stop_bit h d s =
    let most : 1000000 * (1 + data_bit + (if parity == b'N' then 0 else 1) + stop_bit) ≤ 12000000 =
      ground arith in
    le_trans (div-le_self _ baud) most

is_parity : (p : ℕ) → (p == b'N' || (p == b'E' || p == b'O')) ≡ true → IsParity p
is_parity p h = elim (Bool-cases (p == b'N')) [
  | inl e ↦ inl ((==_iff p b'N').0 e)
  | inr n ↦ elim (Bool-cases (p == b'E')) [
    | inl e ↦ inr (inl ((==_iff p b'E').0 e))
    | inr n' ↦ inr (inr ((==_iff p b'O').0 (rw (n, n') at h)))
  ]
]

parity_tested : (p : ℕ) → IsParity p → (p == b'N' || (p == b'E' || p == b'O')) ≡ true
parity_tested p (inl e) = rw e refl
parity_tested p (inr (inl e)) = rw e refl
parity_tested p (inr (inr e)) = rw e refl

pub held : (b : Bool) → not b ≡ false → b ≡ true
held true h = refl
held false h = absurd cc

pub failed_one : {b : Bool} → not b ≡ true → b ≡ true → ⊥
failed_one {b} h k = clash (rw k at h)
  where
    clash : false ≡ true → ⊥
    clash e = cc

one_or_two : (n : ℕ) → (not (n == 1) && not (n == 2)) ≡ false → (n ≡ 1) ⊎ (n ≡ 2)
one_or_two n h = elim (Bool-cases (n == 1)) [
  | inl e ↦ inl ((==_iff n 1).0 e)
  | inr e ↦ inr ((==_iff n 2).0 (held (n == 2) (rw e at h)))
]

neither : (n : ℕ) → (not (n == 1) && not (n == 2)) ≡ true → (n ≡ 1) ⊎ (n ≡ 2) → ⊥
neither n h (inl e) = ground arith
neither n h (inr e) = ground arith

at_most_two : (n : ℕ) → (n ≡ 1) ⊎ (n ≡ 2) → n ≤ 2
at_most_two n (inl e) = omega arith
at_most_two n (inr e) = omega arith

module _ (malloc : ℕ → Bool) (raw : Modbus) where
  abbrev pub Accepted : Option (List ℕ) → ℤ → ℕ → ℤ → ℤ → Type 0
  Accepted device baud parity data_bit stop_bit =
      IsText device × AreLineArguments baud parity data_bit stop_bit × HasRtuMemory malloc

  module _ (c : ℕ) (device : List ℕ) (baud parity data_bit stop_bit : ℕ) (fast : 0 < baud)
      (low : 5 ≤ data_bit) (high : data_bit ≤ 8) (stops : (stop_bit ≡ 1) ⊎ (stop_bit ≡ 2)) where
    abbrev Wanted : Type 0
    Wanted = Accepted (some (c ∷ device)) (pos baud) parity (pos data_bit) (pos stop_bit)

    allocated :
        IsNewPort Wanted (new_rtu_context malloc raw (c ∷ device) baud parity data_bit stop_bit)
    unfolding new_rtu_context rtu_free release init_common
    allocated =
        if_intro (IsNewPort Wanted) (not (malloc context_block)) _ _
          (λ h. (refl, λ p. failed_one h p.2.0))
          λ h1.
            if_intro (IsNewPort Wanted) (not (malloc backend_block)) _ _
              (λ h. (refl, λ p. failed_one h p.2.1))
              λ h2.
                if_intro (IsNewPort Wanted) (not (malloc device_block)) _ _
                  (λ h. (refl, λ p. failed_one h p.2.2))
                  λ h3.
                    if_intro (IsNewPort Wanted)
                      (parity == b'N' || (parity == b'E' || parity == b'O')) _ _
                      (λ h. (
                        (
                          tt,
                          (fast, is_parity parity h, low, high, stops),
                          (held _ h1, held _ h2, held _ h3),
                        ),
                        refl,
                        record {
                          bits_low = low;
                          bits_high = high;
                          stops = stops;
                          parities = is_parity parity h;
                        },
                        refl,
                        refl,
                        onebyte_time-le baud parity data_bit stop_bit fast high
                            (at_most_two stop_bit stops),
                      ))
                      (λ h. (refl, λ p. ground (arith, parity_tested parity p.1.1)))

  -- `modbus_new_rtu` returns a context exactly where the device has a name, the speed is positive,
  -- there are 5 to 8 data bits, 1 or 2 stop bits and a parity N, E or O, and every allocation
  -- succeeds. It is unconnected, the time of a byte fits an `int`, and its release frees every
  -- block; where none is returned, every block that was allocated is freed.
  pub new_rtu-IsNewPort :
      (device : Option (List ℕ)) (baud : ℤ) (parity : ℕ) (data_bit stop_bit : ℤ)
      → IsNewPort
          (Accepted device baud parity data_bit stop_bit)
          (new_rtu malloc raw device baud parity data_bit stop_bit)
  unfolding new_rtu
  new_rtu-IsNewPort (some (c ∷ device)) (pos baud) parity (pos data_bit) (pos stop_bit) =
      let Q : List ℕ × Result (Modbus × Port) → Type 0 =
        IsNewPort (Accepted (some (c ∷ device)) (pos baud) parity (pos data_bit) (pos stop_bit)) in
      if_intro Q (baud == 0) _ _ (λ h. (refl, λ p. ground arith))
        λ h1.
          if_intro Q (ltb data_bit 5 || ltb 8 data_bit) _ _ (λ h. (refl, λ p. ground arith))
            λ h2.
              if_intro Q (not (stop_bit == 1) && not (stop_bit == 2)) _ _
                (λ h. (refl, λ p. neither stop_bit h p.1.4))
                λ h3.
                  allocated c device baud parity data_bit stop_bit (ground arith) (ground arith)
                    (ground arith) (one_or_two stop_bit h3)
  new_rtu-IsNewPort none baud parity data_bit stop_bit = (refl, λ p. absurd p.0)
  new_rtu-IsNewPort (some []) baud parity data_bit stop_bit = (refl, λ p. absurd p.0)
  new_rtu-IsNewPort (some (c ∷ device)) (negsuc n) parity data_bit stop_bit =
      (refl, λ p. absurd p.1)
  new_rtu-IsNewPort (some (c ∷ device)) (pos n) parity (negsuc k) stop_bit = (refl, λ p. absurd p.1)
  new_rtu-IsNewPort (some (c ∷ device)) (pos n) parity (pos k) (negsuc j) = (refl, λ p. absurd p.1)

  -- The allocations of a context over TCP succeed.
  abbrev pub HasTcpMemory : Type 0
  HasTcpMemory = (malloc context_block ≡ true) × (malloc backend_block ≡ true)

  -- The text is none, or has 1 to 15 characters.
  abbrev pub IsAddress : Option (List ℕ) → Type 0
  IsAddress none = Unit {0}
  IsAddress (some text) = (1 ≤ length text) × (length text ≤ 15)

  -- The handler of SIGPIPE, where one is to be installed, is.
  abbrev pub IsInstalled : Option Syscall → Type 0
  IsInstalled (some (failed e)) = ⊥
  IsInstalled _ = Unit {0}

  abbrev pub IsNewTcp :
      Option Syscall → Option (List ℕ) → ℤ → List ℕ × Result (Modbus × TcpData) → Type 0
  IsNewTcp handler ip port (live, ok (ctx, tcp_data)) =
      (IsInstalled handler × HasTcpMemory × IsAddress ip)
      × (tcp_free live ≡ [])
      × (ctx.backend ≡ tcp)
      × (ctx.slave ≡ pos 255)
      × (ctx.s ≡ negsuc 0)
      × (ctx.t_id ≡ 0)
      × (tcp_data.port ≡ port)
      × (length tcp_data.ip ≤ 15)
  IsNewTcp handler ip port (live, err e) =
      (live ≡ []) × ¬ (IsInstalled handler × HasTcpMemory × IsAddress ip)
  IsNewTcp handler ip port (live, pending) = ⊥

  module _ (handler : Option Syscall) (port : ℤ) (installed : IsInstalled handler) where
    abbrev MadeFrom : Option (List ℕ) → List ℕ × Result (Modbus × TcpData) → Type 0
    MadeFrom ip = IsNewTcp handler ip port

    by_address :
        (ip : Option (List ℕ))
        → HasTcpMemory
        → MadeFrom ip (elim ip as (λ o. List ℕ × Result (Modbus × TcpData)) [
          | none ↦ (
            backend_block ∷ context_block ∷ [],
            ok (tcp_context raw, record { ip = b'0' ∷ []; port = port }),
          )
          | some text ↦
              if length text == 0
              then (tcp_free (backend_block ∷ context_block ∷ []), err einval)
              else if leb 16 (length text)
              then (tcp_free (backend_block ∷ context_block ∷ []), err einval)
              else (
                backend_block ∷ context_block ∷ [],
                ok (tcp_context raw, record { ip = text; port = port }),
              )
        ])
    unfolding tcp_free release init_common
    by_address none has = ((installed, has, tt), refl, refl, refl, refl, refl, refl, omega arith)
    by_address (some text) has =
        if_intro (MadeFrom (some text)) (length text == 0) _ _ (λ h. (refl, λ p. ground arith))
          λ h1.
            if_intro (MadeFrom (some text)) (leb 16 (length text)) _ _
              (λ h. (refl, λ p. ground arith))
              (λ h2. (
                (installed, has, (ground arith, ground arith)),
                refl,
                refl,
                refl,
                refl,
                refl,
                refl,
                ground arith,
              ))

    by_memory :
        (ip : Option (List ℕ))
        → MadeFrom ip (
            if not (malloc context_block)
            then ([], err enomem)
            else if not (malloc backend_block)
            then (tcp_free (context_block ∷ []), err enomem)
            else elim ip as (λ o. List ℕ × Result (Modbus × TcpData)) [
              | none ↦ (
                backend_block ∷ context_block ∷ [],
                ok (tcp_context raw, record { ip = b'0' ∷ []; port = port }),
              )
              | some text ↦
                  if length text == 0
                  then (tcp_free (backend_block ∷ context_block ∷ []), err einval)
                  else if leb 16 (length text)
                  then (tcp_free (backend_block ∷ context_block ∷ []), err einval)
                  else (
                    backend_block ∷ context_block ∷ [],
                    ok (tcp_context raw, record { ip = text; port = port }),
                  )
            ])
    unfolding tcp_free release
    by_memory ip =
        if_intro (MadeFrom ip) (not (malloc context_block)) _ _
          (λ h. (refl, λ p. failed_one h p.1.0))
          λ h1.
            if_intro (MadeFrom ip) (not (malloc backend_block)) _ _
              (λ h. (refl, λ p. failed_one h p.1.1)) (λ h2. by_address ip (held _ h1, held _ h2))

  -- `modbus_new_tcp` returns a context exactly where the handler of SIGPIPE is installed, if one is
  -- needed, both allocations succeed, and the address is null or any text of 1 to 15 characters,
  -- which need not be a valid address. The context is unconnected, with slave 0xFF, transaction 0,
  -- the port and an address that fits; and its release frees both blocks. Where none is returned,
  -- every block that was allocated is freed.
  pub new_tcp-IsNewTcp :
      (handler : Option Syscall) (ip : Option (List ℕ)) (port : ℤ)
      → IsNewTcp handler ip port (new_tcp handler malloc raw ip port)
  unfolding new_tcp
  new_tcp-IsNewTcp (some (failed e)) ip port = (refl, λ p. p.0)
  new_tcp-IsNewTcp (some (returned n)) ip port = by_memory (some (returned n)) port tt ip
  new_tcp-IsNewTcp none ip port = by_memory none port tt ip
