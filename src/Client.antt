-- ===== src/Client.antt =====
-- The client's requests in src/modbus.c. A call reads its answer with `receive_msg`; `sends` and
-- `events` are what the line answers, and the tables that C fills are returned.
pub mod Messages
pub mod Answered
pub mod Repeats
pub mod Single
pub mod WriteOne
pub mod Masked
pub mod Stored
pub mod Writing
pub mod WriteRegisters
pub mod WriteBits
pub mod Bits
pub mod Packing
pub mod Reading
pub mod ReadBits
pub mod ReadRegisters
pub mod EndToEnd
pub mod Refused
pub mod Calls
pub mod CallFrames
pub mod Missing
pub mod Refusals
pub mod Exchange
pub mod Words
use libmodbus.Base.{
  ℕ, zero, suc, ◌+◌, ◌-◌, ◌*◌, ◌/◌, ◌%◌, bit_and, bit_or, ◌||◌, ltb, ◌==◌, if◌then◌else◌, List, [],
  ◌∷◌, ◌++◌, byte_at, take, min,
}
use libmodbus.Context
use libmodbus.Context.{
  Errno, einval, embxilval, Action, Result, ok, err, pending, Run, ◌>>=◌, Backend, MsgType,
  confirmation, Modbus,
}
use libmodbus.Backend.{header_length, build_request_basis}
use libmodbus.Lengths.{byte_count, word_or_at}
use libmodbus.Send.{SendOutcome, send_msg}
use libmodbus.Receive.{Event, receive_msg}
use libmodbus.Confirm.{check_confirmation}

-- A call that answers with a count and fills a table.
abbrev pub Filled : Type 0
Filled = Run (ℕ × List ℕ)

-- Receiving the confirmation of a request and checking it.
unfoldable pub confirm : Modbus → Errno → List ℕ → List Event → (List ℕ → ℕ → List ℕ) → Filled
confirm ctx errno req events use_rsp = (receive_msg ctx confirmation errno events).1 >>= λ received.
    check_confirmation ctx req received.0 received.1 >>= λ count.
    ([], ok (count, use_rsp received.0 count))

-- What every request does after it is built: send it, and if something was sent, receive the
-- confirmation and check it. `use` takes the response and the count that the check returns.
unfoldable pub exchange :
    Modbus → Errno → List ℕ → List SendOutcome → List Event → (List ℕ → ℕ → List ℕ) → Filled
exchange ctx errno req sends events use_rsp = send_msg ctx req sends >>= λ rc.
    if ltb 0 rc then confirm ctx errno req events use_rsp else ([], ok (rc, []))

-- The inner loop of `read_io_status`: at most eight bits of one byte, lowest first, while the
-- position is below `nb`. `left` is 8 less the bits done.
unfoldable pub byte_bits : ℕ → ℕ → ℕ → ℕ → List ℕ → List ℕ
byte_bits zero temp bit nb dest = dest
byte_bits (suc left) temp bit zero dest = dest
byte_bits (suc left) temp bit (suc nb) dest =
    byte_bits left temp (bit * 2) nb (dest ++ (if bit_and temp bit == 0 then 0 else 1) ∷ [])

-- The outer loop, with `n` bytes left from `rsp[i]` on and `nb` bits still to be stored.
unfoldable pub io_status_bits : ℕ → ℕ → ℕ → List ℕ → List ℕ → List ℕ
io_status_bits zero i nb rsp dest = dest
io_status_bits (suc n) i nb rsp dest =
    io_status_bits n (i + 1) (nb - 8) rsp (byte_bits 8 (byte_at rsp i) 1 nb dest)

-- The loop that stores `n` words from `rsp[i]` on.
unfoldable pub response_words : ℕ → ℕ → List ℕ → List ℕ
response_words zero i rsp = []
response_words (suc n) i rsp = word_or_at rsp i ∷ response_words n (i + 2) rsp

-- The loop that stores `n` bytes from `rsp[i]` on.
unfoldable pub response_bytes : ℕ → ℕ → List ℕ → List ℕ
response_bytes zero i rsp = []
response_bytes (suc n) i rsp = byte_at rsp i ∷ response_bytes n (i + 1) rsp

-- `req[req_length++] = w >> 8; req[req_length++] = w & 0x00FF;`
abbrev pub word_bytes : ℕ → List ℕ
word_bytes w = w / 256 % 256 ∷ bit_and w 0xff ∷ []

unfoldable pub words_bytes : ℕ → List ℕ → ℕ → List ℕ
words_bytes zero src i = []
words_bytes (suc n) src i = word_bytes (byte_at src i) ++ words_bytes n src (i + 1)

-- Nothing is read from the response of a write.
abbrev pub no_data : List ℕ → ℕ → List ℕ
no_data rsp rc = []

-- The caller gets `nb` where `read_io_status` returned a count.
abbrev pub with_count : ℕ → Filled → Filled
with_count nb run = run >>= λ filled. ([], ok (nb, filled.1))

module _ (ctx : Modbus) (errno : Errno) (sends : List SendOutcome) (events : List Event) where
  unfoldable pub read_io_status : ℕ → ℕ → ℕ → Modbus × Filled
  read_io_status function addr nb =
      let (ctx', req) = build_request_basis ctx function addr nb in
      (
        ctx',
        exchange ctx' errno req sends events
            (λ rsp rc. io_status_bits rc (header_length ctx.backend + 2) nb rsp []),
      )

  unfoldable pub read_bits : ℕ → ℕ → Modbus × Filled
  read_bits addr nb =
      let (ctx', run) = read_io_status Context.fc_read_coils addr nb in
      if ltb nb 1 || ltb Context.max_read_bits nb
      then (ctx, ([], err embxilval))
      else (ctx', with_count nb run)

  unfoldable pub read_input_bits : ℕ → ℕ → Modbus × Filled
  read_input_bits addr nb =
      let (ctx', run) = read_io_status Context.fc_read_discrete_inputs addr nb in
      if ltb nb 1 || ltb Context.max_read_bits nb
      then (ctx, ([], err embxilval))
      else (ctx', with_count nb run)

  -- The static `read_registers`, which both public ones call.
  unfoldable pub read_words : ℕ → ℕ → ℕ → Modbus × Filled
  read_words function addr nb =
      let (ctx', req) = build_request_basis ctx function addr nb in
      if ltb Context.max_read_registers nb then (ctx, ([], err embxilval)) else (
        ctx',
        exchange ctx' errno req sends events
            (λ rsp rc. response_words rc (header_length ctx.backend + 2) rsp),
      )

  unfoldable pub read_registers : ℕ → ℕ → Modbus × Filled
  read_registers addr nb =
      let call = read_words Context.fc_read_holding_registers addr nb in
      if ltb nb 1 || ltb Context.max_read_registers nb then (ctx, ([], err embxilval)) else call

  unfoldable pub read_input_registers : ℕ → ℕ → Modbus × Filled
  read_input_registers addr nb =
      let call = read_words Context.fc_read_input_registers addr nb in
      if ltb nb 1 || ltb Context.max_read_registers nb then (ctx, ([], err embxilval)) else call

  unfoldable pub write_single : ℕ → ℕ → ℕ → Modbus × Filled
  write_single function addr value =
      let (ctx', req) = build_request_basis ctx function addr value in
      (ctx', exchange ctx' errno req sends events no_data)

  unfoldable pub write_bit : ℕ → ℕ → Modbus × Filled
  write_bit addr status =
      write_single Context.fc_write_single_coil addr (if status == 0 then 0 else 0xff00)

  unfoldable pub write_register : ℕ → ℕ → Modbus × Filled
  write_register addr value = write_single Context.fc_write_single_register addr value

-- The `while` loop of `modbus_write_bits`: one byte of at most eight bits, with `nb` bits left
-- from `src[pos]` on.
unfoldable pub pack_byte : ℕ → ℕ → ℕ → ℕ → List ℕ → ℕ → ℕ
pack_byte zero bit nb pos src byte = byte
pack_byte (suc left) bit zero pos src byte = byte
pack_byte (suc left) bit (suc nb) pos src byte =
    pack_byte left (bit * 2) nb (pos + 1) src
      (if byte_at src pos == 0 then bit_and byte (255 - bit) else bit_or byte bit)

-- The `for` loop, with `n` bytes left.
unfoldable pub pack_bytes : ℕ → ℕ → ℕ → List ℕ → List ℕ
pack_bytes zero nb pos src = []
pack_bytes (suc n) nb pos src = pack_byte 8 1 nb pos src 0 ∷ pack_bytes n (nb - 8) (pos + 8) src

module _ (ctx : Modbus) (errno : Errno) (sends : List SendOutcome) (events : List Event) where
  unfoldable pub write_bits : ℕ → ℕ → List ℕ → Modbus × Filled
  write_bits addr nb src =
      let (ctx', basis) = build_request_basis ctx Context.fc_write_multiple_coils addr nb in
      let count = byte_count nb in
      if ltb nb 1 || ltb Context.max_write_bits nb then (ctx, ([], err embxilval)) else (
        ctx',
        exchange ctx' errno (basis ++ count % 256 ∷ pack_bytes count nb 0 src) sends events no_data,
      )

  unfoldable pub write_registers : ℕ → ℕ → List ℕ → Modbus × Filled
  write_registers addr nb src =
      let (ctx', basis) = build_request_basis ctx Context.fc_write_multiple_registers addr nb in
      if ltb nb 1 || ltb Context.max_write_registers nb then (ctx, ([], err embxilval)) else (
        ctx',
        exchange ctx' errno (basis ++ nb * 2 % 256 ∷ words_bytes nb src 0) sends events no_data,
      )

  -- The quantity of the basis is overwritten by the masks.
  unfoldable pub mask_write_register : ℕ → ℕ → ℕ → Modbus × Filled
  mask_write_register addr and_mask or_mask =
      let (ctx', basis) = build_request_basis ctx Context.fc_mask_write_register addr 0 in
      let req =
        take (header_length ctx.backend + 3) basis ++ word_bytes and_mask ++ word_bytes or_mask in
      (ctx', exchange ctx' errno req sends events no_data)

  unfoldable pub write_and_read_registers : ℕ → ℕ → List ℕ → ℕ → ℕ → Modbus × Filled
  write_and_read_registers write_addr write_nb src read_addr read_nb =
      let (ctx', basis) =
        build_request_basis ctx Context.fc_write_and_read_registers read_addr read_nb in
      let req =
        basis
        ++ (word_bytes write_addr
            ++ (word_bytes write_nb ++ write_nb * 2 % 256 ∷ words_bytes write_nb src 0)) in
      if ltb write_nb 1 || ltb read_nb 1
      then (ctx, ([], err einval))
      else if ltb Context.max_wr_write_registers write_nb
      then (ctx, ([], err embxilval))
      else if ltb Context.max_wr_read_registers read_nb
      then (ctx, ([], err embxilval))
      else (
        ctx',
        exchange ctx' errno req sends events
            (λ rsp rc. response_words rc (header_length ctx.backend + 2) rsp),
      )

  -- Address and quantity of the basis are dropped. At most `max_dest` bytes are stored.
  unfoldable pub report_slave_id : ℕ → Modbus × Filled
  report_slave_id max_dest =
      let (ctx', basis) = build_request_basis ctx Context.fc_report_slave_id 0 0 in
      let req = take (header_length ctx.backend + 1) basis in
      if max_dest == 0 then (ctx, ([], err einval)) else (
        ctx',
        exchange ctx' errno req sends events
            (λ rsp rc. response_bytes (min rc max_dest) (header_length ctx.backend + 2) rsp),
      )
