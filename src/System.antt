-- ===== src/System.antt =====
-- What the library has from the operating system: system calls, open descriptors, allocated memory.
-- A call is one value of `Syscall`; the descriptors or blocks that are held are a list of numbers.
pub mod Held
use libmodbus.Base.{ℕ, ℤ, pos, negsuc, Bool, List, [], ◌∷◌, ◌==◌, if◌then◌else◌, leb}
use libmodbus.Context.{Errno, einval, eintr, etimedout, Result, ok, err, pending}

-- What a system call returns: a value that is not negative, or -1 with `errno` set.
pub data Syscall : Type 0 where
  returned : ℕ → Syscall
  failed : Errno → Syscall

-- The size of an `fd_set`.
abbrev pub fd_setsize : ℕ
fd_setsize = 1024

-- `close` of a descriptor, or `free` of a block.
unfoldable pub release : ℕ → List ℕ → List ℕ
release h [] = []
release h (x ∷ live) = if x == h then release h live else x ∷ release h live

-- `if (ctx->s >= 0) close(ctx->s)`
abbrev pub release_open : ℤ → List ℕ → List ℕ
release_open (pos s) live = release s live
release_open (negsuc n) live = live

-- The `select` of the two backends, on a signal called again. The list is what the calls of the
-- system's `select` return, in order.
unfoldable pub wait_readable : ℤ → List Syscall → Result ℕ
wait_readable s [] = pending
wait_readable s (returned n ∷ calls) = if n == 0 then err etimedout else ok n
wait_readable s (failed e ∷ calls) =
    let again = wait_readable s calls in
    elim e [
      | eintr ↦ elim s [
        | negsuc n ↦ err einval
        | pos n ↦ if leb fd_setsize n then err einval else again
      ]
      | other ↦ err other
    ]
