-- ===== src/Tcp/Flush.antt =====
-- The loop of `_modbus_tcp_flush`.
use libmodbus.Base.{
  ℕ, zero, suc, ◌+◌, ◌*◌, ◌≤◌, ◌<◌, ◌≡◌, ◌≢◌, ◌∙◌, arith, List, [], ◌∷◌, ◌++◌, length, ap,
  replicate,
}
use libmodbus.Context.{eoverflow, ok, err, pending}
use libmodbus.System.{Syscall, returned, failed}
use libmodbus.Tcp.{flush_loop, tcp_flush}

-- What a call of `recv` may return for a buffer of 260 bytes.
abbrev pub FitsBuffer : Syscall → Type 0
FitsBuffer (returned n) = n ≤ 260
FitsBuffer (failed e) = Unit {0}

abbrev pub AllFit : List Syscall → Type 0
AllFit [] = Unit {0}
AllFit (c ∷ calls) = FitsBuffer c × AllFit calls

-- The bytes that the last call took out.
abbrev pub last_read : Syscall → ℕ
last_read (returned n) = n
last_read (failed e) = 0

-- A call that is not a full buffer.
abbrev pub IsLast : Syscall → Type 0
IsLast (returned n) = n < 260
IsLast (failed e) = Unit {0}

flush_loop_last :
    (sum : ℕ) (last : Syscall) (rest : List Syscall)
    → IsLast last
    → sum + last_read last ≤ 65535
    → flush_loop sum (last ∷ rest) ≡ ok (sum + last_read last)
unfolding flush_loop
flush_loop_last sum (returned n) rest h fits = ground arith
flush_loop_last sum (failed e) rest h fits = ground arith

flush_loop_over :
    (k sum : ℕ) (last : Syscall) (rest : List Syscall)
    → IsLast last
    → sum ≤ 65535
    → 65535 < sum + k * 260 + last_read last
    → flush_loop sum (replicate k (returned 260) ++ last ∷ rest) ≡ err eoverflow
unfolding flush_loop
flush_loop_over zero sum (returned n) rest h low over = ground arith
flush_loop_over zero sum (failed e) rest h low over = absurd (omega arith)
flush_loop_over (suc k) sum last rest h low over =
    ground (arith, flush_loop_over k (sum + 260) last rest)

flush_loop_sum :
    (k sum : ℕ) (last : Syscall) (rest : List Syscall)
    → IsLast last
    → sum + k * 260 + last_read last ≤ 65535
    → flush_loop sum (replicate k (returned 260) ++ last ∷ rest)
      ≡ ok (sum + k * 260 + last_read last)
unfolding flush_loop
flush_loop_sum zero sum last rest h fits =
    flush_loop_last sum last rest h (omega arith) ∙ ap (λ (n : ℕ). ok n) (omega arith)
flush_loop_sum (suc k) sum last rest h fits = ground (arith, flush_loop_sum k (sum + 260) last rest)

-- The flush reads full buffers until one is not full or the call fails, and returns the number of
-- the bytes that it dropped, or EOVERFLOW where that is no `uint16_t`.
pub tcp_flush_counts :
    (k : ℕ) (last : Syscall) (rest : List Syscall)
    → IsLast last
    → let n = k * 260 + last_read last in
      (n ≤ 65535 → tcp_flush (replicate k (returned 260) ++ last ∷ rest) ≡ ok n)
      × (65535 < n → tcp_flush (replicate k (returned 260) ++ last ∷ rest) ≡ err eoverflow)
unfolding tcp_flush
tcp_flush_counts k last rest h = (
  λ fits. flush_loop_sum k 0 last rest h (omega arith) ∙ ap (λ (n : ℕ). ok n) (omega arith),
  λ over. flush_loop_over k 0 last rest h (omega arith) (omega arith),
)

flush_loop-ne-pending :
    (sum : ℕ) (calls : List Syscall)
    → sum ≤ 65535
    → AllFit calls
    → 65535 < sum + 260 * length calls
    → flush_loop sum calls ≢ pending
unfolding flush_loop
flush_loop-ne-pending sum [] low fit many = absurd (omega arith)
flush_loop-ne-pending sum (failed e ∷ calls) low fit many = λ h. cc
flush_loop-ne-pending sum (returned n ∷ calls) low fit many =
    ground (arith, flush_loop-ne-pending (sum + n) calls)

-- Whatever a sender puts on the line, the flush ends within 253 calls of `recv`, each of which
-- returns at most the 260 bytes that it is asked for.
pub tcp_flush-ne-pending :
    (calls : List Syscall) → AllFit calls → 253 ≤ length calls → tcp_flush calls ≢ pending
unfolding tcp_flush
tcp_flush-ne-pending calls fit many = flush_loop-ne-pending 0 calls (omega arith) fit (omega arith)
