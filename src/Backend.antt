-- ===== src/Backend.antt =====
-- The operation tables of the two backends: src/modbus-rtu.c and src/modbus-tcp.c.
-- A message under construction is the list of the bytes written so far.
pub mod Framing
use libmodbus.Base.{
  ℕ, ◌+◌, ◌-◌, ◌*◌, ◌/◌, ◌%◌, ◌^◌, bit_and, bit_or, ℤ, pos, negsuc, Bool, true, false, ◌&&◌, ◌||◌,
  ◌==◌, not, if◌then◌else◌, is_pos, List, [], ◌∷◌, ◌++◌, byte_at, set, length, ltb,
}
use libmodbus.Context.{
  embbadcrc, embbaddata, embbadslave, Result, ok, err, Run, flush, Backend, rtu, tcp, Modbus, Sft,
  broadcast_address, has_flag, recovery_protocol,
}
use libmodbus.Crc.{crc16}

abbrev pub header_length : Backend → ℕ
header_length rtu = 1
header_length tcp = 7

abbrev pub checksum_length : Backend → ℕ
checksum_length rtu = 2
checksum_length tcp = 0

-- MODBUS_RTU_MAX_ADU_LENGTH and MODBUS_TCP_MAX_ADU_LENGTH
abbrev pub max_adu_length : Backend → ℕ
max_adu_length rtu = 256
max_adu_length tcp = 260

-- What C stores of an `int` in a byte; `slave` may still be -1, which TCP sends as 0xFF.
abbrev pub to_byte : ℤ → ℕ
to_byte (pos n) = n % 256
to_byte (negsuc n) = 255 - n % 256

-- The transaction ID after the increment of `_modbus_tcp_build_request_basis`.
unfoldable pub next_tid : ℕ → ℕ
next_tid t_id = if ltb t_id 65535 then t_id + 1 else 0

-- The header and the three leading fields of a request. The slave is taken to be set: the C code
-- asserts that it is not -1, and stops the program otherwise.
abbrev pub rtu_build_request_basis : Modbus → ℕ → ℕ → ℕ → Modbus × List ℕ
rtu_build_request_basis ctx function addr nb = (
  ctx,
  to_byte ctx.slave
      ∷ function % 256
      ∷ addr / 256 % 256
      ∷ bit_and addr 0xff
      ∷ nb / 256 % 256
      ∷ bit_and nb 0xff
      ∷ [],
)

-- The length of the TCP header (bytes 4 and 5) is written by `send_msg_pre`; until then it is 0 here.
abbrev pub tcp_build_request_basis : Modbus → ℕ → ℕ → ℕ → Modbus × List ℕ
tcp_build_request_basis ctx function addr nb =
    let t_id = next_tid ctx.t_id in
    (
      record ctx { t_id = t_id },
      t_id / 256 % 256
          ∷ bit_and t_id 0xff
          ∷ 0
          ∷ 0
          ∷ 0
          ∷ 0
          ∷ to_byte ctx.slave
          ∷ function % 256
          ∷ addr / 256 % 256
          ∷ bit_and addr 0xff
          ∷ nb / 256 % 256
          ∷ bit_and nb 0xff
          ∷ [],
    )

-- The request's beginning, with the context after the call.
unfoldable pub build_request_basis : Modbus → ℕ → ℕ → ℕ → Modbus × List ℕ
build_request_basis ctx function addr nb = elim ctx.backend [
  | rtu ↦ rtu_build_request_basis ctx function addr nb
  | tcp ↦ tcp_build_request_basis ctx function addr nb
]

abbrev pub rtu_build_response_basis : Sft → List ℕ
rtu_build_response_basis sft = sft.slave % 256 ∷ sft.function % 256 ∷ []

abbrev pub tcp_build_response_basis : Sft → List ℕ
tcp_build_response_basis sft =
    sft.t_id / 256 % 256
    ∷ bit_and sft.t_id 0xff
    ∷ 0
    ∷ 0
    ∷ 0
    ∷ 0
    ∷ sft.slave % 256
    ∷ sft.function % 256
    ∷ []

unfoldable pub build_response_basis : Backend → Sft → List ℕ
build_response_basis rtu sft = rtu_build_response_basis sft
build_response_basis tcp sft = tcp_build_response_basis sft

abbrev pub rtu_get_response_tid : List ℕ → ℕ
rtu_get_response_tid req = 0

abbrev pub tcp_get_response_tid : List ℕ → ℕ
tcp_get_response_tid req = byte_at req 0 * 256 + byte_at req 1

unfoldable pub get_response_tid : Backend → List ℕ → ℕ
get_response_tid rtu req = rtu_get_response_tid req
get_response_tid tcp req = tcp_get_response_tid req

-- RTU appends the checksum, low byte first.
abbrev pub rtu_send_msg_pre : List ℕ → List ℕ
rtu_send_msg_pre req = let crc = crc16 req (length req) in req ++ bit_and crc 0xff ∷ crc / 256 ∷ []

-- TCP fills in the length.
abbrev pub tcp_send_msg_pre : List ℕ → List ℕ
tcp_send_msg_pre req =
    let mbap_length = length req - 6 in
    set (set req 4 (mbap_length / 256 % 256)) 5 (bit_and mbap_length 0xff)

unfoldable pub send_msg_pre : Backend → List ℕ → List ℕ
send_msg_pre rtu req = rtu_send_msg_pre req
send_msg_pre tcp req = tcp_send_msg_pre req

-- `ok 0` is a message for another slave.
abbrev pub rtu_check_integrity : Modbus → List ℕ → ℕ → Run ℕ
rtu_check_integrity ctx msg msg_length =
    let slave = byte_at msg 0 in
    let crc_calculated = crc16 msg (msg_length - 2) in
    let crc_received =
      bit_or (byte_at msg (msg_length - 1) * 2 ^ 8) (byte_at msg (msg_length - 2)) in
    if not (crc_calculated == crc_received)
    then (if has_flag ctx.error_recovery recovery_protocol then flush ∷ [] else [], err embbadcrc)
    else if not (is_pos ctx.slave slave) && not (slave == broadcast_address)
    then ([], ok 0)
    else ([], ok msg_length)

abbrev pub tcp_check_integrity : Modbus → List ℕ → ℕ → Run ℕ
tcp_check_integrity ctx msg msg_length = ([], ok msg_length)

unfoldable pub check_integrity : Modbus → List ℕ → ℕ → Run ℕ
check_integrity ctx msg msg_length = elim ctx.backend [
  | tcp ↦ tcp_check_integrity ctx msg msg_length
  | rtu ↦ rtu_check_integrity ctx msg msg_length
]

-- Whether the header of a confirmation answers the request.
abbrev pub rtu_pre_check_confirmation : List ℕ → List ℕ → Result ℕ
rtu_pre_check_confirmation req rsp =
    if not (byte_at req 0 == byte_at rsp 0) && not (byte_at req 0 == broadcast_address)
    then err embbadslave
    else ok 0

abbrev pub tcp_pre_check_confirmation : List ℕ → List ℕ → Result ℕ
tcp_pre_check_confirmation req rsp =
    if not (byte_at req 0 == byte_at rsp 0) || not (byte_at req 1 == byte_at rsp 1)
    then err embbaddata
    else if not (byte_at rsp 2 * 256 + byte_at rsp 3 == 0)
    then err embbaddata
    else ok 0

unfoldable pub pre_check_confirmation : Backend → List ℕ → List ℕ → Result ℕ
pre_check_confirmation rtu req rsp = rtu_pre_check_confirmation req rsp
pre_check_confirmation tcp req rsp = tcp_pre_check_confirmation req rsp
