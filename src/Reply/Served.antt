-- ===== src/Reply/Served.antt =====
-- The server on a request that is made of its fields: which case of the switch it reaches.
use libmodbus.Base.{
  ℕ, zero, suc, ◌+◌, ◌≤◌, ◌<◌, ◌≡◌, refl, sym, ap, ◌∙◌, arith, Bool, true, false, List, [], ◌∷◌,
  ◌++◌, byte_at, length, some, none, Option, ==_iff, ltb, ◌&&◌, ◌==◌, append-nil,
}
use mathlib.Core.List.{append_assoc}
use libmodbus.Context.{Backend, rtu, tcp, Sft, Modbus, transmit, ok}
use libmodbus.Backend.{header_length, send_msg_pre}
use libmodbus.Send.{sends, send_msg, send_loop}
use libmodbus.Mapping.{Mapping}
use libmodbus.Client.{word_bytes, words_bytes}
use libmodbus.Client.Messages.{
  carried, message, length-message, slave-message, function-message, word_at-message, over,
  tid-message, word_at-word_bytes,
}
use libmodbus.Reply.{
  Answer, register_bytes, dispatch, respond, reply, is_suppressed, required_length, request_sft,
  request_address, request_slave, request_function,
}

-- The bytes of registers, appended.
pub register_bytes-words_bytes :
    (n i : ℕ) (tab rsp : List ℕ) → register_bytes n i tab rsp ≡ rsp ++ words_bytes n tab i
unfolding register_bytes words_bytes
register_bytes-words_bytes zero i tab rsp = sym (append-nil rsp)
register_bytes-words_bytes (suc n) i tab rsp =
    register_bytes-words_bytes n (i + 1) tab (rsp ++ word_bytes (byte_at tab i))
    ∙ append_assoc rsp (word_bytes (byte_at tab i)) (words_bytes n tab (i + 1))

-- A request that is as long as it asks for reaches the switch.
pub respond-dispatch :
    (version : List ℕ) (b : Backend) (req : List ℕ) (req_length : ℕ) (m : Mapping)
    → required_length b req req_length ≤ req_length
    → respond version b req req_length m
      ≡ some (
          dispatch b
            (request_sft b req)
            req
            req_length
            (request_address b req req_length)
            m
            version
            (request_function b req))
unfolding respond required_length
respond-dispatch version b req req_length m h =
    let long : ltb req_length (header_length b + 1) ≡ false = ground arith in
    let whole : ltb req_length (required_length b req req_length) ≡ false = ground arith in
    rw (long, whole) refl

module _ (b : Backend) (slave t n function addr quantity : ℕ) (tail : List ℕ) (m : Mapping)
    (version : List ℕ) where
  abbrev pub fields : List ℕ
  fields = word_bytes addr ++ (word_bytes quantity ++ tail)

  abbrev pub sft : Sft
  sft = record { slave = slave; function = function; t_id = carried b t }

  -- A request of its fields, long enough for its function, is dispatched with those fields.
  pub respond-message :
      addr < 65536
      → t < 65536
      → let req = message b slave t n function fields in
        required_length b req (length req) ≤ length req
        → respond version b req (length req) m
          ≡ some (dispatch b sft req (length req) addr m version function)
  respond-message ha ht h =
      respond-dispatch version b req (length req) m h
      ∙ rw
          (
            slave-message slave t n function fields b,
            function-message slave t n function fields b,
            tid-message slave t n function fields b ht,
            address,
          )
          refl
    where
      req : List ℕ
      req = message b slave t n function fields

      address : request_address b req (length req) ≡ addr
      address = ground (
        arith,
        length-message slave t n function fields b,
        word_at-message slave t n function fields b 0 (header_length b + 1) (omega arith),
        word_at-word_bytes addr (word_bytes quantity ++ tail) ha,
      )

pub and_false : (x : Bool) → (x && false) ≡ false
and_false true = refl
and_false false = refl

-- No request to one slave goes without a response.
not_suppressed :
    (b : Backend) (ctx : Modbus) (req : List ℕ)
    → 1 ≤ request_slave b req
    → is_suppressed (over b ctx) req ≡ false
unfolding is_suppressed
not_suppressed tcp ctx req h = refl
not_suppressed rtu ctx req h =
    let e : (request_slave rtu req == 0) ≡ false = ground arith in rw e refl

-- A reply that is sent: the mapping after it, and the frame.
module _ (version : List ℕ) (b : Backend) (ctx : Modbus) (req : List ℕ) (n : ℕ) (m : Mapping)
    (answer : Answer) where
  answered :
      {A : Type 0} (o : Option Answer) (x : A) (f : Answer → A)
      → o ≡ some answer
      → (elim o as (λ o. A) [ none ↦ x | some a ↦ f a ]) ≡ f answer
  answered none x f e = absurd cc
  answered (some a) x f e = let q : a ≡ answer = cc in ap f q

  pub reply-some :
      respond version b req n m ≡ some answer
      → 1 ≤ request_slave b req
      → answer.actions ≡ []
      → let frame = send_msg_pre b answer.rsp in
        reply version (over b ctx) req n m (sends (length frame) ∷ [])
        ≡ (answer.mapping, (transmit frame ∷ [], ok (length frame)))
  unfolding reply is_suppressed send_msg send_loop
  reply-some e own quiet =
      answered (respond version b req n m) _ _ e
      ∙ rw
          (
            not_suppressed b ctx req own,
            quiet,
            (==_iff (length frame) (length frame)).1 refl,
            and_false (ltb 0 (length frame)),
          )
          refl
    where
      frame : List ℕ
      frame = send_msg_pre b answer.rsp
