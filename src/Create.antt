-- ===== src/Create.antt =====
-- The contexts: `modbus_new_rtu` of src/modbus-rtu.c, `modbus_new_tcp` and `modbus_new_tcp_pi` of
-- src/modbus-tcp.c, and their release. `malloc` says which allocations succeed; `raw` is what a new
-- block for the context holds. A text is the list of its characters, and `none` a null pointer.
pub mod Contexts
pub mod Hosts
use libmodbus.Base.{
  ℕ, ◌+◌, ◌*◌, ◌/◌, ℤ, pos, negsuc, Bool, true, false, ◌&&◌, ◌||◌, ltb, leb, ◌==◌, not,
  if◌then◌else◌, List, [], ◌∷◌, Option, none, some, length,
}
use libmodbus.Context.{einval, enomem, Result, ok, err, Modbus, Backend, rtu, tcp, init_common}
use libmodbus.System.{Syscall, failed, release}
use libmodbus.Rtu.{Port, rs232, rts_none, ioctl_rts}

-- The blocks that a context is made of.
abbrev pub context_block : ℕ
context_block = 0

abbrev pub backend_block : ℕ
backend_block = 1

abbrev pub device_block : ℕ
device_block = 2

abbrev pub node_block : ℕ
node_block = 3

abbrev pub service_block : ℕ
service_block = 4

-- `_modbus_rtu_free`; a block that was not allocated is a null pointer, and nothing happens.
unfoldable pub rtu_free : List ℕ → List ℕ
rtu_free live = release context_block (release backend_block (release device_block live))

-- `_modbus_tcp_free`
unfoldable pub tcp_free : List ℕ → List ℕ
tcp_free live = release context_block (release backend_block live)

-- `_modbus_tcp_pi_free`
unfoldable pub tcp_pi_free : List ℕ → List ℕ
tcp_pi_free live =
    release context_block (release backend_block (release service_block (release node_block live)))

-- The time of one byte on the line, in microseconds.
unfoldable pub onebyte_time : ℕ → ℕ → ℕ → ℕ → ℕ
onebyte_time baud parity data_bit stop_bit =
    1000000 * (1 + data_bit + (if parity == b'N' then 0 else 1) + stop_bit) / baud

-- `modbus_new_rtu` from the allocation of the context on.
unfoldable pub new_rtu_context :
    (ℕ → Bool) → Modbus → List ℕ → ℕ → ℕ → ℕ → ℕ → List ℕ × Result (Modbus × Port)
new_rtu_context malloc raw device baud parity data_bit stop_bit =
    let port : Port = record {
      device = device;
      baud = baud;
      data_bit = data_bit;
      stop_bit = stop_bit;
      parity = parity;
      serial_mode = rs232;
      rts = rts_none;
      rts_delay = onebyte_time baud parity data_bit stop_bit;
      onebyte_time = onebyte_time baud parity data_bit stop_bit;
      set_rts = ioctl_rts;
    } in
    let ctx = record (init_common raw) { backend = rtu; confirmation_to_ignore = false } in
    let live = device_block ∷ backend_block ∷ context_block ∷ [] in
    if not (malloc context_block)
    then ([], err enomem)
    else if not (malloc backend_block)
    then (rtu_free (context_block ∷ []), err enomem)
    else if not (malloc device_block)
    then (rtu_free (backend_block ∷ context_block ∷ []), err enomem)
    else if parity == b'N' || (parity == b'E' || parity == b'O')
    then (live, ok (ctx, port))
    else (rtu_free live, err einval)

unfoldable pub new_rtu :
    (ℕ → Bool) → Modbus → Option (List ℕ) → ℤ → ℕ → ℤ → ℤ → List ℕ × Result (Modbus × Port)
new_rtu malloc raw (some (c ∷ device)) (pos baud) parity (pos data_bit) (pos stop_bit) =
    if baud == 0
    then ([], err einval)
    else if ltb data_bit 5 || ltb 8 data_bit
    then ([], err einval)
    else if not (stop_bit == 1) && not (stop_bit == 2)
    then ([], err einval)
    else new_rtu_context malloc raw (c ∷ device) baud parity data_bit stop_bit
new_rtu malloc raw device baud parity data_bit stop_bit = ([], err einval)

-- `modbus_tcp_t` and `modbus_tcp_pi_t`, but for the transaction counter that the context has.
pub record TcpData : Type 0 where
  pub ip : List ℕ
  pub port : ℤ

pub record TcpPiData : Type 0 where
  pub node : List ℕ
  pub service : List ℕ

-- MODBUS_TCP_SLAVE
abbrev pub tcp_slave : ℕ
tcp_slave = 0xff

-- The context of both, as it is returned.
abbrev pub tcp_context : Modbus → Modbus
tcp_context raw =
    let ctx = init_common raw in record ctx { slave = pos tcp_slave; backend = tcp; t_id = 0 }

-- On a BSD, `sigaction` is called first: `handler` is `none` elsewhere.
unfoldable pub new_tcp :
    Option Syscall → (ℕ → Bool) → Modbus → Option (List ℕ) → ℤ → List ℕ × Result (Modbus × TcpData)
new_tcp (some (failed e)) malloc raw ip port = ([], err e)
new_tcp handler malloc raw ip port =
    let live = backend_block ∷ context_block ∷ [] in
    if not (malloc context_block)
    then ([], err enomem)
    else if not (malloc backend_block)
    then (tcp_free (context_block ∷ []), err enomem)
    else elim ip [
      | none ↦ (live, ok (tcp_context raw, record { ip = b'0' ∷ []; port = port }))
      | some text ↦
          if length text == 0
          then (tcp_free live, err einval)
          else if leb 16 (length text)
          then (tcp_free live, err einval)
          else (live, ok (tcp_context raw, record { ip = text; port = port }))
    ]

-- The node, or "" for any host.
abbrev pub node_or_any : Option (List ℕ) → List ℕ
node_or_any none = []
node_or_any (some node) = node

-- The service, or "502", the port of Modbus.
abbrev pub service_or_default : Option (List ℕ) → List ℕ
service_or_default none = b'5' ∷ b'0' ∷ b'2' ∷ []
service_or_default (some []) = b'5' ∷ b'0' ∷ b'2' ∷ []
service_or_default (some (c ∷ service)) = c ∷ service

unfoldable pub new_tcp_pi :
    (ℕ → Bool) → Modbus → Option (List ℕ) → Option (List ℕ) → List ℕ × Result (Modbus × TcpPiData)
new_tcp_pi malloc raw node service =
    if not (malloc context_block)
    then ([], err enomem)
    else if not (malloc backend_block)
    then (tcp_pi_free (context_block ∷ []), err enomem)
    else if not (malloc node_block)
    then (tcp_pi_free (backend_block ∷ context_block ∷ []), err enomem)
    else if not (malloc service_block)
    then (tcp_pi_free (node_block ∷ backend_block ∷ context_block ∷ []), err enomem)
    else (
      service_block ∷ node_block ∷ backend_block ∷ context_block ∷ [],
      ok (
        tcp_context raw,
        record { node = node_or_any node; service = service_or_default service },
      ),
    )
