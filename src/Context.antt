-- ===== src/Context.antt =====
-- The context of src/modbus-private.h, its constants, and the setters and getters of src/modbus.c.
-- The pointers are taken to be valid: the null checks of the source have no counterpart.
use libmodbus.Base.{
  ℕ, ◌-◌, ◌%◌, ◌^◌, bit_and, bit_or, ℤ, pos, negsuc, Bool, ◌&&◌, ◌||◌, ltb, leb, ◌==◌,
  if◌then◌else◌, not, List, ◌++◌, ◌≡◌, refl, ◌⊎◌, inl, inr,
}

-- The values of `errno`. `emb n` is MODBUS_ENOBASE + n; `os n` is any other value of the system.
pub data Errno : Type 0 where
  einval econnreset etimedout ebadf epipe econnrefused enomem einprogress eintr eoverflow : Errno
  emb : ℕ → Errno
  os : ℕ → Errno

-- MODBUS_EXCEPTION_*, the exception codes of the protocol.
abbrev pub illegal_function : ℕ
illegal_function = 1

abbrev pub illegal_data_address : ℕ
illegal_data_address = 2

abbrev pub illegal_data_value : ℕ
illegal_data_value = 3

abbrev pub slave_or_server_failure : ℕ
slave_or_server_failure = 4

abbrev pub acknowledge : ℕ
acknowledge = 5

abbrev pub slave_or_server_busy : ℕ
slave_or_server_busy = 6

abbrev pub negative_acknowledge : ℕ
negative_acknowledge = 7

abbrev pub memory_parity : ℕ
memory_parity = 8

abbrev pub not_defined : ℕ
not_defined = 9

abbrev pub gateway_path : ℕ
gateway_path = 10

abbrev pub gateway_target : ℕ
gateway_target = 11

abbrev pub exception_max : ℕ
exception_max = 12

-- EMBBADCRC and the values after it follow EMBXGTAR.
abbrev pub embbadcrc : Errno
embbadcrc = emb 12

abbrev pub embbaddata : Errno
embbaddata = emb 13

abbrev pub embbadexc : Errno
embbadexc = emb 14

abbrev pub embmdata : Errno
embmdata = emb 16

abbrev pub embbadslave : Errno
embbadslave = emb 17

-- EMBXILVAL
abbrev pub embxilval : Errno
embxilval = emb 3

-- What a call does to the line, in order. `transmit` is one call of the backend's `send`.
pub data Action : Type 0 where
  sleep flush close connect : Action
  transmit : List ℕ → Action

-- A result of the library: a value, or -1 with `errno` set. `pending` is no result: what the
-- environment has answered so far is used up, and the call has not returned.
pub data Result {ℓ} (A : Type ℓ) : Type ℓ where
  ok : A → Result A
  err : Errno → Result A
  pending : Result A

-- To split on a computed result and keep the equation.
pub Result-cases {ℓ} :
    {A : Type ℓ} (r : Result A)
    → ((a : A) × (r ≡ ok a)) ⊎ ((e : Errno) × (r ≡ err e)) ⊎ (r ≡ pending)
Result-cases (ok a) = inl (a, refl)
Result-cases (err e) = inr (inl (e, refl))
Result-cases pending = inr (inr refl)

-- A call with its effects on the line.
abbrev pub Run {ℓ} : Type ℓ → Type ℓ
Run A = List Action × Result A

infixl 5 ◌>>=◌
abbrev pub ◌>>=◌ {ℓ κ} : {A : Type ℓ} {B : Type κ} → Run A → (A → Run B) → Run B
◌>>=◌ (actions, ok a) f = let (more, r) = f a in (actions ++ more, r)
◌>>=◌ (actions, err e) f = (actions, err e)
◌>>=◌ (actions, pending) f = (actions, pending)

-- MODBUS_FC_*, the function codes.
abbrev pub fc_read_coils : ℕ
fc_read_coils = 1

abbrev pub fc_read_discrete_inputs : ℕ
fc_read_discrete_inputs = 2

abbrev pub fc_read_holding_registers : ℕ
fc_read_holding_registers = 3

abbrev pub fc_read_input_registers : ℕ
fc_read_input_registers = 4

abbrev pub fc_write_single_coil : ℕ
fc_write_single_coil = 5

abbrev pub fc_write_single_register : ℕ
fc_write_single_register = 6

abbrev pub fc_read_exception_status : ℕ
fc_read_exception_status = 7

abbrev pub fc_write_multiple_coils : ℕ
fc_write_multiple_coils = 15

abbrev pub fc_write_multiple_registers : ℕ
fc_write_multiple_registers = 16

abbrev pub fc_report_slave_id : ℕ
fc_report_slave_id = 17

abbrev pub fc_mask_write_register : ℕ
fc_mask_write_register = 22

abbrev pub fc_write_and_read_registers : ℕ
fc_write_and_read_registers = 23

-- Limits of src/modbus.h and src/modbus.c.
abbrev pub max_read_bits : ℕ
max_read_bits = 2000

abbrev pub max_write_bits : ℕ
max_write_bits = 1968

abbrev pub max_read_registers : ℕ
max_read_registers = 125

abbrev pub max_write_registers : ℕ
max_write_registers = 123

abbrev pub max_wr_write_registers : ℕ
max_wr_write_registers = 121

abbrev pub max_wr_read_registers : ℕ
max_wr_read_registers = 125

abbrev pub max_pdu_length : ℕ
max_pdu_length = 253

abbrev pub max_message_length : ℕ
max_message_length = 260

abbrev pub max_table_size : ℕ
max_table_size = 65536

abbrev pub broadcast_address : ℕ
broadcast_address = 0

-- MODBUS_QUIRK_MAX_SLAVE and MODBUS_QUIRK_REPLY_TO_BROADCAST
abbrev pub quirk_max_slave : ℕ
quirk_max_slave = 2

abbrev pub quirk_reply_to_broadcast : ℕ
quirk_reply_to_broadcast = 4

-- MODBUS_ERROR_RECOVERY_LINK and MODBUS_ERROR_RECOVERY_PROTOCOL
abbrev pub recovery_link : ℕ
recovery_link = 2

abbrev pub recovery_protocol : ℕ
recovery_protocol = 4

-- The two backend types; the TCP and the TCP PI tables agree in all that is modelled.
pub data Backend : Type 0 where
  rtu tcp : Backend

pub data MsgType : Type 0 where
  indication confirmation : MsgType

pub record Timeval : Type 0 where
  pub tv_sec : ℕ
  pub tv_usec : ℕ

-- `modbus_t`, with the fields of the backend's own data that the modelled code changes: the
-- transaction counter of TCP and the flag of RTU. `debug` governs printing only.
pub record Modbus : Type 0 where
  pub slave : ℤ
  pub s : ℤ
  pub debug : ℤ
  pub error_recovery : ℕ
  pub quirks : ℕ
  pub response_timeout : Timeval
  pub byte_timeout : Timeval
  pub indication_timeout : Timeval
  pub backend : Backend
  pub t_id : ℕ
  pub confirmation_to_ignore : Bool

-- `sft_t`
pub record Sft : Type 0 where
  pub slave : ℕ
  pub function : ℕ
  pub t_id : ℕ

-- A test of a flag, as in `ctx->quirks & MODBUS_QUIRK_MAX_SLAVE`.
abbrev pub has_flag : ℕ → ℕ → Bool
has_flag word mask = not (bit_and word mask == 0)

unfoldable pub init_common : Modbus → Modbus
init_common ctx = record ctx {
  slave = negsuc 0;
  s = negsuc 0;
  debug = pos 0;
  error_recovery = 0;
  quirks = 0;
  response_timeout = record { tv_sec = 0; tv_usec = 500000 };
  byte_timeout = record { tv_sec = 0; tv_usec = 500000 };
  indication_timeout = record { tv_sec = 0; tv_usec = 0 };
}

-- `_modbus_set_slave` of the two backends: both accept what is in range, TCP also 0xFF.
abbrev pub max_slave : Modbus → ℕ
max_slave ctx = if has_flag ctx.quirks quirk_max_slave then 255 else 247

abbrev pub rtu_set_slave : Modbus → ℤ → Result Modbus
rtu_set_slave ctx (negsuc n) = err einval
rtu_set_slave ctx (pos n) =
    if leb n (max_slave ctx) then ok (record ctx { slave = pos n }) else err einval

abbrev pub tcp_set_slave : Modbus → ℤ → Result Modbus
tcp_set_slave ctx (negsuc n) = err einval
tcp_set_slave ctx (pos n) =
    if leb n (max_slave ctx)
    then ok (record ctx { slave = pos n })
    else if n == 0xff
    then ok (record ctx { slave = pos n })
    else err einval

unfoldable pub set_slave : Modbus → ℤ → Result Modbus
set_slave ctx slave = elim ctx.backend [
  | rtu ↦ rtu_set_slave ctx slave
  | tcp ↦ tcp_set_slave ctx slave
]

unfoldable pub get_slave : Modbus → ℤ
get_slave ctx = ctx.slave

-- The field takes the value as a `uint8_t`.
unfoldable pub set_error_recovery : Modbus → ℕ → Modbus
set_error_recovery ctx mode = record ctx { error_recovery = mode % 2 ^ 8 }

unfoldable pub set_socket : Modbus → ℤ → Modbus
set_socket ctx s = record ctx { s = s }

unfoldable pub get_socket : Modbus → ℤ
get_socket ctx = ctx.s

unfoldable pub get_response_timeout : Modbus → Timeval
get_response_timeout ctx = ctx.response_timeout

unfoldable pub set_response_timeout : Modbus → ℕ → ℕ → Result Modbus
set_response_timeout ctx to_sec to_usec =
    if (to_sec == 0 && to_usec == 0) || ltb 999999 to_usec
    then err einval
    else ok (record ctx { response_timeout = record { tv_sec = to_sec; tv_usec = to_usec } })

unfoldable pub get_byte_timeout : Modbus → Timeval
get_byte_timeout ctx = ctx.byte_timeout

unfoldable pub set_byte_timeout : Modbus → ℕ → ℕ → Result Modbus
set_byte_timeout ctx to_sec to_usec =
    if ltb 999999 to_usec
    then err einval
    else ok (record ctx { byte_timeout = record { tv_sec = to_sec; tv_usec = to_usec } })

unfoldable pub get_indication_timeout : Modbus → Timeval
get_indication_timeout ctx = ctx.indication_timeout

unfoldable pub set_indication_timeout : Modbus → ℕ → ℕ → Result Modbus
set_indication_timeout ctx to_sec to_usec =
    if ltb 999999 to_usec
    then err einval
    else ok (record ctx { indication_timeout = record { tv_sec = to_sec; tv_usec = to_usec } })

-- The mask is an `unsigned int`.
unfoldable pub enable_quirks : Modbus → ℕ → Modbus
enable_quirks ctx mask = record ctx { quirks = bit_or ctx.quirks mask }

-- `ctx->quirks &= ~quirks_mask`, on 32 bits.
unfoldable pub disable_quirks : Modbus → ℕ → Modbus
disable_quirks ctx mask = record ctx { quirks = bit_and ctx.quirks (2 ^ 32 - 1 - mask) }

unfoldable pub set_debug : Modbus → ℤ → Modbus
set_debug ctx flag = record ctx { debug = flag }
