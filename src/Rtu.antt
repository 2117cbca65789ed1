-- ===== src/Rtu.antt =====
-- The serial port of src/modbus-rtu.c on POSIX: its settings, the RTS signal, opening and closing.
pub mod Delay
pub mod Opening
pub mod Line
use libmodbus.Base.{
  ℕ, zero, suc, ◌+◌, ◌-◌, ◌*◌, ◌^◌, bit_and, bit_or, min, ℤ, pos, negsuc, is_pos, Bool, true, false,
  ◌&&◌, ◌||◌, ltb, ◌==◌, not, if◌then◌else◌, List, [], ◌∷◌, ◌++◌, Option, none, some, length,
}
use libmodbus.Context.{Errno, einval, Result, ok, err, Backend, rtu, tcp, Modbus}
use libmodbus.System.{Syscall, returned, failed, release}

-- MODBUS_RTU_RS232, MODBUS_RTU_RS485 and MODBUS_RTU_RTS_*
abbrev pub rs232 : ℕ
rs232 = 0

abbrev pub rs485 : ℕ
rs485 = 1

abbrev pub rts_none : ℕ
rts_none = 0

abbrev pub rts_up : ℕ
rts_up = 1

abbrev pub rts_down : ℕ
rts_down = 2

-- The function that sets the line: the library's own, or one of the caller, by its address.
pub data SetRts : Type 0 where
  ioctl_rts : SetRts
  custom : ℕ → SetRts

-- `modbus_rtu_t`, but for the saved settings and the flag that the context has.
pub record Port : Type 0 where
  pub device : List ℕ
  pub baud : ℕ
  pub data_bit : ℕ
  pub stop_bit : ℕ
  pub parity : ℕ
  pub serial_mode : ℕ
  pub rts : ℕ
  pub rts_delay : ℕ
  pub onebyte_time : ℕ
  pub set_rts : SetRts

-- What is done to the serial line, in order.
pub data LineAction : Type 0 where
  signal : SetRts → Bool → LineAction
  usleep : ℕ → LineAction
  write : List ℕ → LineAction

-- `_modbus_rtu_ioctl_rts`: the flags that are set, `mask` being TIOCM_RTS.
unfoldable pub ioctl_flags : ℕ → Bool → Syscall → Option ℕ
ioctl_flags mask on (failed e) = none
ioctl_flags mask on (returned flags) =
    some (if on then bit_or flags mask else bit_and flags (2 ^ 32 - 1 - mask))

-- The `while` loop that sleeps in chunks.
unfoldable pub delay_chunks : ℕ → ℕ → List ℕ
delay_chunks zero total_delay = []
delay_chunks (suc fuel) total_delay =
    let delay = if ltb 999999 total_delay then 999999 else total_delay in
    let rest = delay ∷ delay_chunks fuel (total_delay - delay) in
    if ltb 0 total_delay then rest else []

-- No delay takes more chunks than this.
abbrev pub delay_fuel : ℕ
delay_fuel = 1001

-- The delay behind a transmission, at most 1000 seconds.
unfoldable pub total_delay : Port → ℕ → ℕ
total_delay port req_length =
    let total = port.onebyte_time * req_length + port.rts_delay in
    if ltb 1000000000 total then 1000000000 else total

abbrev pub sleeps : List ℕ → List LineAction
sleeps [] = []
sleeps (d ∷ ds) = usleep d ∷ sleeps ds

-- `_modbus_rtu_send`; `written` is what `write` returns.
unfoldable pub rtu_send : Port → List ℕ → Syscall → List LineAction × Syscall
rtu_send port req written = if port.rts == rts_none then (write req ∷ [], written) else (
  signal port.set_rts (port.rts == rts_up)
        ∷ usleep port.rts_delay
        ∷ write req
        ∷ sleeps (delay_chunks delay_fuel (total_delay port (length req)))
      ++ signal port.set_rts (not (port.rts == rts_up)) ∷ [],
  written,
)

-- `modbus_rtu_set_serial_mode`; `getting` and `setting` are the two calls of `ioctl`.
unfoldable pub set_serial_mode : Backend → Port → ℤ → Syscall → Syscall → Result Port
set_serial_mode tcp port mode getting setting = err einval
set_serial_mode rtu port mode getting setting =
    let change = λ (m : ℕ). elim getting as (λ c. Result Port) [
      | failed e ↦ err e
      | returned n ↦ elim setting [
        | failed e ↦ err e
        | returned n ↦ ok (record port { serial_mode = m })
      ]
    ] in
    if is_pos mode rs485
    then change rs485
    else if is_pos mode rs232
    then (if port.serial_mode == rs485
        then change rs232
        else ok (record port { serial_mode = rs232 }))
    else err einval

unfoldable pub get_serial_mode : Backend → Port → Result ℕ
get_serial_mode tcp port = err einval
get_serial_mode rtu port = ok port.serial_mode

unfoldable pub get_rts : Backend → Port → Result ℕ
get_rts tcp port = err einval
get_rts rtu port = ok port.rts

-- `modbus_rtu_set_rts`, with what it does to the line.
unfoldable pub set_rts : Backend → Port → ℤ → List LineAction × Result Port
set_rts tcp port mode = ([], err einval)
set_rts rtu port (negsuc n) = ([], err einval)
set_rts rtu port (pos mode) =
    if mode == rts_none || (mode == rts_up || mode == rts_down)
    then (signal port.set_rts (not (mode == rts_up)) ∷ [], ok (record port { rts = mode }))
    else ([], err einval)

unfoldable pub set_custom_rts : Backend → Port → ℕ → Result Port
set_custom_rts tcp port address = err einval
set_custom_rts rtu port address = ok (record port { set_rts = custom address })

unfoldable pub get_rts_delay : Backend → Port → Result ℕ
get_rts_delay tcp port = err einval
get_rts_delay rtu port = ok port.rts_delay

unfoldable pub set_rts_delay : Backend → Port → ℤ → Result Port
set_rts_delay backend port (negsuc n) = err einval
set_rts_delay tcp port (pos us) = err einval
set_rts_delay rtu port (pos us) = ok (record port { rts_delay = us })

-- The flags of `struct termios` that the port sets or clears, and its speed as a number of bauds.
pub record Termios : Type 0 where
  pub speed : ℕ
  pub cread : Bool
  pub clocal : Bool
  pub csize : ℕ
  pub cstopb : Bool
  pub parenb : Bool
  pub parodd : Bool
  pub raw_input : Bool
  pub inpck : Bool
  pub flow_control : Bool
  pub opost : Bool
  pub vmin : ℕ
  pub vtime : ℕ

abbrev pub known_speeds : List ℕ
known_speeds =
    110 ∷ 300 ∷ 600 ∷ 1200 ∷ 2400 ∷ 4800 ∷ 9600 ∷ 19200 ∷ 38400 ∷ 57600 ∷ 115200 ∷ 230400 ∷ 460800
    ∷ 500000 ∷ 576000 ∷ 921600 ∷ 1000000 ∷ 1152000 ∷ 1500000 ∷ 2500000 ∷ 3000000 ∷ 3500000 ∷ 4000000
    ∷ []

unfoldable pub is_one_of : ℕ → List ℕ → Bool
is_one_of n [] = false
is_one_of n (m ∷ ms) = n == m || is_one_of n ms

-- `_get_termios_speed`, on a system that has all the constants.
unfoldable pub get_termios_speed : ℕ → ℕ
unfolding is_one_of
get_termios_speed baud = if is_one_of baud known_speeds then baud else 9600

-- The structure that `_modbus_rtu_connect` fills, from one that is all 0. With `by_number` the
-- speed is the number of bauds: the system's constants are numbers, or it has `termios2`.
unfoldable pub port_settings : Bool → Port → Termios
port_settings by_number port = record {
  speed = if by_number then port.baud else get_termios_speed port.baud;
  cread = true;
  clocal = true;
  csize =
      if port.data_bit == 5
      then 5
      else if port.data_bit == 6
      then 6
      else if port.data_bit == 7
      then 7
      else 8;
  cstopb = not (port.stop_bit == 1);
  parenb = not (port.parity == b'N');
  parodd = not (port.parity == b'N') && not (port.parity == b'E');
  raw_input = true;
  inpck = not (port.parity == b'N');
  flow_control = false;
  opost = false;
  vmin = 0;
  vtime = 0;
}

-- What the system calls of `_modbus_rtu_connect` return; with `termios2` the two that set the speed
-- are not made, and count as calls that succeed.
pub record OpenCalls : Type 0 where
  pub opening : Syscall
  pub saving : Syscall
  pub input_speed : Syscall
  pub output_speed : Syscall
  pub setting : Syscall

-- The open descriptors, the context, the result and the settings of the port after a call.
pub record PortOpened : Type 0 where
  pub live : List ℕ
  pub ctx : Modbus
  pub result : Result ℕ
  pub settings : Option Termios

-- `close(ctx->s); ctx->s = -1; return -1;`
abbrev pub close_again : Modbus → ℕ → List ℕ → Errno → PortOpened
close_again ctx s live e = record {
  live = release s (s ∷ live);
  ctx = record ctx { s = negsuc 0 };
  result = err e;
  settings = none;
}

unfoldable pub rtu_connect : Bool → Modbus → Port → OpenCalls → List ℕ → PortOpened
rtu_connect by_number ctx port calls live = elim calls.opening [
  | failed e ↦ record {
    live = live;
    ctx = record ctx { s = negsuc 0 };
    result = err e;
    settings = none;
  }
  | returned s ↦ elim calls.saving [
    | failed e ↦ close_again ctx s live e
    | returned n ↦ elim calls.input_speed [
      | failed e ↦ close_again ctx s live e
      | returned n ↦ elim calls.output_speed [
        | failed e ↦ close_again ctx s live e
        | returned n ↦ elim calls.setting [
          | failed e ↦ close_again ctx s live e
          | returned n ↦ record {
            live = s ∷ live;
            ctx = record ctx { s = pos s };
            result = ok 0;
            settings = some (port_settings by_number port);
          }
        ]
      ]
    ]
  ]
]

-- `_modbus_rtu_close`; the settings that were saved are put back.
unfoldable pub rtu_close : Modbus → Termios → List ℕ → PortOpened
rtu_close ctx old_tios live = elim ctx.s [
  | negsuc n ↦ record { live = live; ctx = ctx; result = ok 0; settings = none }
  | pos s ↦ record {
    live = release s live;
    ctx = record ctx { s = negsuc 0 };
    result = ok 0;
    settings = some old_tios;
  }
]
