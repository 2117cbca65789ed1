-- ===== src/Client/Answered.antt =====
-- A request and its response in the frames of one backend: what the client makes of the pair.
use libmodbus.Base.{ℕ, ◌-◌, ◌%◌, ◌≤◌, ◌<◌, ◌≡◌, sym, arith, pos, List, [], ◌∷◌, ◌++◌, length}
use libmodbus.Context.{Backend, Modbus, Sft, Errno, transmit, ok, confirmation}
use libmodbus.Backend.{max_adu_length, build_response_basis, send_msg_pre, check_integrity}
use libmodbus.Send.{sends}
use libmodbus.Receive.{bytes}
use libmodbus.Receive.Framing.{frame_length}
use libmodbus.Confirm.{check_confirmation}
use libmodbus.Client.{exchange}
use libmodbus.Client.Messages.{
  back, carried, over, message, length-message, slave-message, send_msg_pre-front,
  send_msg_pre-response, check_integrity-message, build_response_basis-front,
}
use libmodbus.Client.Exchange.{exchange-ok}

module _ (b : Backend) (slave t function : ℕ) (rest body : List ℕ) where
  abbrev pub request : List ℕ
  request = message b slave t 0 function rest

  abbrev pub sent : List ℕ
  sent = message b slave t (length request - 6) function (rest ++ back b request)

  abbrev pub sft : Sft
  sft = record { slave = slave; function = function; t_id = carried b t }

  abbrev pub answer : List ℕ
  answer = build_response_basis b sft ++ body

  abbrev pub response : List ℕ
  response = message b slave t (length answer - 6) function (body ++ back b answer)

  pub sent_is : send_msg_pre b request ≡ sent
  sent_is = send_msg_pre-front b slave t function rest

  module _ (hs : slave < 256) (hf : function < 256) where
    pub response_is : send_msg_pre b answer ≡ response
    response_is = send_msg_pre-response b slave t function body hs hf

    pub intact :
        (client : Modbus)
        → client.slave ≡ pos slave
        → check_integrity (over b client) response (length response) ≡ ([], ok (length response))
    intact client own =
        let basis = build_response_basis-front b sft in
        let f = function % 256 in
        rw (sym response_is) (
          check_integrity-message b client slave answer own
            (rw basis (omega (arith, length-message (slave % 256) (carried b t) 0 f body b)))
            (rw basis (omega (arith, slave-message (slave % 256) (carried b t) 0 f body b))))

    pub exchange-message :
        (client : Modbus) (errno : Errno) (k n : ℕ) (use_rsp : List ℕ → ℕ → List ℕ)
        → client.slave ≡ pos slave
        → client.s ≡ pos k
        → k < 1024
        → frame_length b confirmation response ≡ length response
        → length response ≤ max_adu_length b
        → check_confirmation (over b client) request response (length response) ≡ ([], ok n)
        → exchange
            (over b client)
            errno
            request
            (sends (length sent) ∷ [])
            (bytes response ∷ [])
            use_rsp
          ≡ (transmit sent ∷ [], ok (n, use_rsp response n))
    exchange-message client errno k n use_rsp own e h framed short accepted = rw (sym sent_is) (
        exchange-ok (over b client) errno k e h request response use_rsp
          (rw sent_is (
            omega (
              arith,
              length-message slave t (length request - 6) function (rest ++ back b request) b,
            )))
          (omega
            (arith, length-message slave t (length answer - 6) function (body ++ back b answer) b))
          framed short (intact client own) n accepted)
