-- ===== src/Rtu/Line.antt =====
-- The state of the line in src/modbus-rtu.c, on POSIX: `_modbus_rtu_is_connected`,
-- `_modbus_rtu_flush` and `_modbus_rtu_select`.
use libmodbus.Base.{
  ℕ, ◌<◌, ◌≡◌, arith, pos, negsuc, zero, suc, refl, leb, Bool, true, false, List, ◌++◌, replicate,
}
use libmodbus.Context.{Modbus, Result, ok, err, eintr}
use libmodbus.System.{Syscall, returned, failed, wait_readable}

unfoldable pub rtu_is_connected : Modbus → Bool
rtu_is_connected ctx = elim ctx.s [ pos n ↦ true | negsuc n ↦ false ]

-- What `tcflush` returns is passed on.
unfoldable pub rtu_flush : Syscall → Result ℕ
rtu_flush (returned n) = ok n
rtu_flush (failed e) = err e

unfoldable pub rtu_select : Modbus → List Syscall → Result ℕ
rtu_select ctx calls = wait_readable ctx.s calls

wait_interrupted :
    (k d : ℕ) (calls : List Syscall)
    → d < 1024
    → wait_readable (pos d) (replicate k (failed eintr) ++ calls) ≡ wait_readable (pos d) calls
unfolding wait_readable
wait_interrupted zero d calls h = refl
wait_interrupted (suc k) d calls h =
    let low : leb 1024 d ≡ false = ground arith in
    rw (wait_readable, low) (wait_interrupted k d calls h)

-- However many signals interrupt it, `_modbus_rtu_select` on an open port whose descriptor fits a set
-- ends with what the calls that follow give.
pub rtu_select-interrupted :
    (k d : ℕ) (ctx : Modbus) (calls : List Syscall)
    → ctx.s ≡ pos d
    → d < 1024
    → rtu_select ctx (replicate k (failed eintr) ++ calls) ≡ rtu_select ctx calls
unfolding rtu_select
rtu_select-interrupted k d ctx calls e h = rw e (wait_interrupted k d calls h)
