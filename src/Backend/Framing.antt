-- ===== src/Backend/Framing.antt =====
-- A frame that is sent passes the receiver's integrity check, and a damaged one does not.
use libmodbus.Base.{
  ℕ, suc, ◌+◌, ◌-◌, ◌*◌, ◌/◌, ◌%◌, ◌^◌, ◌≤◌, ◌<◌, ◌≡◌, ◌≢◌, refl, sym, ap, ◌∙◌, arith, Bool, true,
  false, ◌&&◌, ◌||◌, not, ◌==◌, ==_iff, if◌then◌else◌, is_pos, List, [], ◌∷◌, ◌++◌, byte_at, length,
  length-append, take-append_less, get_or-append_left, get_or-append_right, IsBytes, bit_and,
  bit_or, bit_and-255, shifted_bit_or, set, length-set, get_or-set_self, get_or-set_ne,
}
use libmodbus.Context.{
  ok, err, Run, flush, rtu, tcp, Modbus, embbadcrc, broadcast_address, has_flag, recovery_protocol,
}
use libmodbus.Crc.{crc16, crc_loop}
use libmodbus.Crc.Detect.{crc16_detects}
use libmodbus.Backend.{send_msg_pre, check_integrity}

-- The checksum as RTU appends it.
abbrev pub crc_bytes : ℕ → List ℕ
crc_bytes crc = bit_and crc 0xff ∷ crc / 256 ∷ []

-- Of a frame the checksum covers the message, whatever follows.
crc16-append : (msg tail : List ℕ) → crc16 (msg ++ tail) (length msg) ≡ crc16 msg (length msg)
unfolding crc16
crc16-append msg tail =
    ap (λ (l : List ℕ). crc_loop l 0xff 0xff)
      (take-append_less (length msg % 2 ^ 16) msg tail (omega arith))

-- What a receiver reads of the two bytes behind the message.
received_crc :
    (msg : List ℕ) (crc : ℕ)
    → let frame = msg ++ crc_bytes crc in
      let n = length frame in
      (bit_or (byte_at frame (n - 1) * 2 ^ 8) (byte_at frame (n - 2)) ≡ crc) × (n - 2 ≡ length msg)
received_crc msg crc = (
  rw (hi, lo)
      (omega (
        arith,
        bit_and-255 crc,
        shifted_bit_or 8 (crc / 256) (bit_and crc 255) (omega (arith, bit_and-255 crc)),
      )),
  omega (arith, length-append msg (crc_bytes crc)),
)
  where
    hi : byte_at (msg ++ crc_bytes crc) (length (msg ++ crc_bytes crc) - 1) ≡ crc / 256
    hi =
        get_or-append_right msg (crc_bytes crc) 1 _ 0
          (omega (arith, length-append msg (crc_bytes crc)))

    lo : byte_at (msg ++ crc_bytes crc) (length (msg ++ crc_bytes crc) - 2) ≡ bit_and crc 255
    lo =
        get_or-append_right msg (crc_bytes crc) 0 _ 0
          (omega (arith, length-append msg (crc_bytes crc)))

-- Whether a message is for this end: its own slave address, or a broadcast.
abbrev pub is_addressed : Modbus → ℕ → Bool
is_addressed ctx slave = is_pos ctx.slave slave || slave == broadcast_address

branches :
    (same own cast : Bool) (refused : Run ℕ) (n : ℕ)
    → (if not same then refused else if not own && not cast then ([], ok 0) else ([], ok n))
      ≡ (if same then ([], ok (if own || cast then n else 0)) else refused)
branches false own cast refused n = refl
branches true false false refused n = refl
branches true false true refused n = refl
branches true true cast refused n = refl

check_frame :
    (ctx : Modbus) (msg : List ℕ) (crc : ℕ)
    → ctx.backend ≡ rtu
    → 0 < length msg
    → let frame = msg ++ crc_bytes crc in
      check_integrity ctx frame (length frame) ≡ (
        if crc16 msg (length msg) == crc
        then ([], ok (if is_addressed ctx (byte_at msg 0) then length frame else 0))
        else (
          if has_flag ctx.error_recovery recovery_protocol then flush ∷ [] else [],
          err embbadcrc,
        ))
unfolding check_integrity
check_frame ctx msg crc e some_msg =
    let (word, n) = received_crc msg crc in
    rw (e, check_integrity)
      (rw
        (
          word,
          n,
          crc16-append msg (crc_bytes crc),
          get_or-append_left msg (crc_bytes crc) 0 0 some_msg,
        )
        (branches (crc16 msg (length msg) == crc) (is_pos ctx.slave (byte_at msg 0))
          (byte_at msg 0 == broadcast_address) _ _))

-- A message of bytes that RTU sends passes the integrity check of a receiver that it is addressed
-- to, or that it reaches as a broadcast; any other receiver ignores it (the result 0).
pub check_integrity-send_msg_pre :
    (ctx : Modbus) (msg : List ℕ)
    → ctx.backend ≡ rtu
    → 0 < length msg
    → let frame = send_msg_pre rtu msg in
      check_integrity ctx frame (length frame)
      ≡ ([], ok (if is_addressed ctx (byte_at msg 0) then length frame else 0))
unfolding send_msg_pre
check_integrity-send_msg_pre ctx msg e some_msg =
    check_frame ctx msg (crc16 msg (length msg)) e some_msg
    ∙ rw ((==_iff (crc16 msg (length msg)) (crc16 msg (length msg))).1 refl) refl

-- An RTU frame in which one byte of the message was changed on the line is refused by every
-- receiver with EMBBADCRC, after a flush where protocol recovery is on.
pub check_integrity_detects :
    (ctx : Modbus) (xs ys : List ℕ) (b b' : ℕ)
    → ctx.backend ≡ rtu
    → IsBytes xs
    → IsBytes ys
    → b < 256
    → b' < 256
    → length xs + suc (length ys) < 65536
    → b ≢ b'
    → let frame = (xs ++ b' ∷ ys) ++ crc_bytes (crc16 (xs ++ b ∷ ys) (length (xs ++ b ∷ ys))) in
      check_integrity ctx frame (length frame)
      ≡ (if has_flag ctx.error_recovery recovery_protocol then flush ∷ [] else [], err embbadcrc)
check_integrity_detects ctx xs ys b b' e hx hy hb hb' short ne =
    check_frame ctx (xs ++ b' ∷ ys) _ e (omega (arith, length-append xs (b' ∷ ys)))
    ∙ rw differs refl
  where
    sent : ℕ
    sent = crc16 (xs ++ b ∷ ys) (length (xs ++ b ∷ ys))

    seen : ℕ
    seen = crc16 (xs ++ b' ∷ ys) (length (xs ++ b' ∷ ys))

    unequal : seen ≢ sent
    unequal q = crc16_detects xs ys b b' hx hy hb hb' short ne (sym q)

    differs : (seen == sent) ≡ false
    differs = ground (arith, unequal)

-- The message that TCP sends names its own length in bytes 4 and 5, counted from byte 6 on.
pub send_msg_pre-length :
    (msg : List ℕ)
    → 6 ≤ length msg
    → length msg < 65536
    → let frame = send_msg_pre tcp msg in
      (length frame ≡ length msg) × (byte_at frame 4 * 256 + byte_at frame 5 + 6 ≡ length msg)
unfolding send_msg_pre
send_msg_pre-length msg enough short = (
  length-set (set msg 4 hi) 5 lo ∙ length-set msg 4 hi,
  omega (
    arith,
    bit_and-255 (length msg - 6),
    get_or-set_self (set msg 4 hi) 5 lo 0 (omega (arith, length-set msg 4 hi)),
    get_or-set_ne (set msg 4 hi) 5 4 lo 0 (omega arith),
    get_or-set_self msg 4 hi 0 (omega arith),
  ),
)
  where
    hi : ℕ
    hi = (length msg - 6) / 256 % 256

    lo : ℕ
    lo = bit_and (length msg - 6) 255
