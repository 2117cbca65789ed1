-- ===== src/Client/Messages.antt =====
-- The messages that the two ends build, field by field, in both framings.
use libmodbus.Base.{
  ℕ, ◌+◌, ◌-◌, ◌/◌, ◌%◌, ◌<◌, ◌≡◌, refl, sym, ap, ◌∙◌, arith, bit_and, bit_and-255, List, [], ◌∷◌,
  ◌++◌, byte_at, length, append-nil, append_assoc, drop, get_or-append_right, pos, ==_iff,
}
use libmodbus.Context.{ok, Backend, rtu, tcp, Modbus, Sft}
use libmodbus.Crc.{crc16}
use libmodbus.Backend.{
  header_length, checksum_length, to_byte, next_tid, build_request_basis, build_response_basis,
  get_response_tid, send_msg_pre, pre_check_confirmation, check_integrity,
}
use libmodbus.Lengths.{word_at}
use libmodbus.Client.{word_bytes}
use libmodbus.Backend.Framing.{check_integrity-send_msg_pre}

-- The header and the function code of a message; `t` and `n` fill the transaction and the length.
abbrev pub front : Backend → ℕ → ℕ → ℕ → ℕ → List ℕ
front rtu slave t n function = slave ∷ function ∷ []
front tcp slave t n function =
    t / 256 % 256 ∷ bit_and t 0xff ∷ 0 ∷ 0 ∷ n / 256 % 256 ∷ bit_and n 0xff ∷ slave ∷ function ∷ []

-- The transaction that a message of the backend carries.
abbrev pub carried : Backend → ℕ → ℕ
carried rtu t = 0
carried tcp t = t

-- The checksum behind it.
abbrev pub back : Backend → List ℕ → List ℕ
back rtu msg = bit_and (crc16 msg (length msg)) 0xff ∷ crc16 msg (length msg) / 256 ∷ []
back tcp msg = []

-- The counter of transactions after a request, and the context that has it.
abbrev pub counter : Backend → ℕ → ℕ
counter rtu t = t
counter tcp t = next_tid t

abbrev pub over : Backend → Modbus → Modbus
over b ctx = record ctx { backend = b }

abbrev pub asked : Backend → Modbus → Modbus
asked b ctx = record ctx { backend = b; t_id = counter b ctx.t_id }

pub build_request_basis-front :
    (b : Backend) (ctx : Modbus) (function addr nb : ℕ)
    → build_request_basis (over b ctx) function addr nb ≡ (
      asked b ctx,
      front b (to_byte ctx.slave) (next_tid ctx.t_id) 0 (function % 256)
          ++ (word_bytes addr ++ word_bytes nb),
    )
unfolding build_request_basis
build_request_basis-front rtu ctx function addr nb = refl
build_request_basis-front tcp ctx function addr nb = refl

pub build_response_basis-front :
    (b : Backend) (sft : Sft)
    → build_response_basis b sft ≡ front b (sft.slave % 256) sft.t_id 0 (sft.function % 256)
unfolding build_response_basis
build_response_basis-front rtu sft = refl
build_response_basis-front tcp sft = refl

pub send_msg_pre-front :
    (b : Backend) (slave t function : ℕ) (body : List ℕ)
    → let msg = front b slave t 0 function ++ body in
      send_msg_pre b msg ≡ front b slave t (length msg - 6) function ++ (body ++ back b msg)
unfolding send_msg_pre
send_msg_pre-front rtu slave t function body = refl
send_msg_pre-front tcp slave t function body =
    ap (λ l. front tcp slave t (length (front tcp slave t 0 function ++ body) - 6) function ++ l)
      (sym (append-nil body))

pub word_at-word_bytes : (w : ℕ) (rest : List ℕ) → w < 65536 → word_at (word_bytes w ++ rest) 0 ≡ w
word_at-word_bytes w rest h = omega (arith, bit_and-255 w)

-- A message with its front, and the fields behind it.
abbrev pub message : Backend → ℕ → ℕ → ℕ → ℕ → List ℕ → List ℕ
message b slave t n function rest = front b slave t n function ++ rest

module _ (slave t n function : ℕ) (rest : List ℕ) where
  pub length-message :
      (b : Backend) → length (message b slave t n function rest) ≡ header_length b + 1 + length rest
  length-message rtu = omega arith
  length-message tcp = omega arith

  pub slave-message :
      (b : Backend) → byte_at (message b slave t n function rest) (header_length b - 1) ≡ slave
  slave-message rtu = refl
  slave-message tcp = refl

  pub function-message :
      (b : Backend) → byte_at (message b slave t n function rest) (header_length b) ≡ function
  function-message rtu = refl
  function-message tcp = refl

  pub byte_at-message :
      (b : Backend) (i k : ℕ)
      → k ≡ header_length b + 1 + i
      → byte_at (message b slave t n function rest) k ≡ byte_at rest i
  byte_at-message rtu i k e =
      get_or-append_right (front rtu slave t n function) rest i k 0 (omega arith)
  byte_at-message tcp i k e =
      get_or-append_right (front tcp slave t n function) rest i k 0 (omega arith)

  pub word_at-message :
      (b : Backend) (i k : ℕ)
      → k ≡ header_length b + 1 + i
      → word_at (message b slave t n function rest) k ≡ word_at rest i
  word_at-message b i k e =
      omega (arith, byte_at-message b i k e, byte_at-message b (i + 1) (k + 1) (omega arith))

  pub tid-message :
      (b : Backend)
      → t < 65536
      → get_response_tid b (message b slave t n function rest) ≡ carried b t
  unfolding get_response_tid
  tid-message rtu h = refl
  tid-message tcp h = omega (arith, bit_and-255 t)

-- The header of a response that carries the slave and the transaction of the request is accepted.
pub pre_check-message :
    (b : Backend) (slave t n n' f f' : ℕ) (rest rest' : List ℕ)
    → pre_check_confirmation b (message b slave t n f rest) (message b slave t n' f' rest') ≡ ok 0
unfolding pre_check_confirmation
pre_check-message rtu slave t n n' f f' rest rest' = rw ((==_iff slave slave).1 refl) refl
pre_check-message tcp slave t n n' f f' rest rest' =
    rw
      (
        (==_iff (t / 256 % 256) (t / 256 % 256)).1 refl,
        (==_iff (bit_and t 0xff) (bit_and t 0xff)).1 refl,
      )
      refl

-- A response as it is sent: the fields of its request in its front, and its body.
pub send_msg_pre-response :
    (b : Backend) (slave t function : ℕ) (body : List ℕ)
    → slave < 256
    → function < 256
    → let msg =
        build_response_basis b (record { slave = slave; function = function; t_id = carried b t })
        ++ body in
      send_msg_pre b msg ≡ message b slave t (length msg - 6) function (body ++ back b msg)
unfolding build_response_basis
send_msg_pre-response rtu slave t function body hs hf =
    let ms : slave % 256 ≡ slave = omega arith in
    let mf : function % 256 ≡ function = omega arith in
    rw (ms, mf) (send_msg_pre-front rtu slave t function body)
send_msg_pre-response tcp slave t function body hs hf =
    let ms : slave % 256 ≡ slave = omega arith in
    let mf : function % 256 ≡ function = omega arith in
    rw (ms, mf) (send_msg_pre-front tcp slave t function body)

-- The receiver that a message is addressed to accepts it.
pub check_integrity-message :
    (b : Backend) (ctx : Modbus) (slave : ℕ) (msg : List ℕ)
    → ctx.slave ≡ pos slave
    → 0 < length msg
    → byte_at msg (header_length b - 1) ≡ slave
    → check_integrity (over b ctx) (send_msg_pre b msg) (length (send_msg_pre b msg))
      ≡ ([], ok (length (send_msg_pre b msg)))
unfolding check_integrity
check_integrity-message tcp ctx slave msg e h own = refl
check_integrity-message rtu ctx slave msg e h own =
    check_integrity-send_msg_pre (over rtu ctx) msg refl h
    ∙ rw (own, e, (==_iff slave slave).1 refl) refl

pub length-back : (b : Backend) (msg : List ℕ) → length (back b msg) ≡ checksum_length b
length-back rtu msg = refl
length-back tcp msg = refl

-- What the server copies from the request is what stands behind its front.
pub drop-message :
    (b : Backend) (s : Sft) (slave t n function : ℕ) (rest : List ℕ)
    → drop (length (build_response_basis b s)) (message b slave t n function rest) ≡ rest
unfolding build_response_basis
drop-message rtu s slave t n function rest = refl
drop-message tcp s slave t n function rest = refl

-- The request as the client builds it, before its data is appended.
pub built :
    (b : Backend) (client : Modbus) (slave function addr nb : ℕ) (data_part : List ℕ)
    → client.slave ≡ pos slave
    → slave < 256
    → function < 256
    → let (ctx, basis) = build_request_basis (over b client) function addr nb in
      (ctx ≡ asked b client)
      × (basis ++ data_part
          ≡ message b slave
              (next_tid client.t_id)
              0
              function
              (word_bytes addr ++ (word_bytes nb ++ data_part)))
built b client slave function addr nb data_part own hs hf =
    let ms : slave % 256 ≡ slave = omega arith in
    let mf : function % 256 ≡ function = omega arith in
    rw (build_request_basis-front b client function addr nb, own, ms, mf)
      (
        refl,
        append_assoc (front b slave (next_tid client.t_id) 0 function)
            (word_bytes addr ++ word_bytes nb) data_part,
      )

-- The request of a call that appends nothing.
pub built_plain :
    (b : Backend) (client : Modbus) (slave function addr nb : ℕ)
    → client.slave ≡ pos slave
    → slave < 256
    → function < 256
    → build_request_basis (over b client) function addr nb ≡ (
      asked b client,
      message b slave (next_tid client.t_id) 0 function (word_bytes addr ++ word_bytes nb),
    )
built_plain b client slave function addr nb own hs hf =
    let ms : slave % 256 ≡ slave = omega arith in
    let mf : function % 256 ≡ function = omega arith in
    build_request_basis-front b client function addr nb ∙ rw (own, ms, mf) refl
