-- ===== src/Tests/Gateway.antt =====
-- Runs of a write against a server, and of a proxy from TCP to RTU.
use libmodbus.Base.{ℕ, ◌≡◌, refl, pos, arith, List, [], ◌∷◌, length}
use libmodbus.Context.{
  Modbus, einval, etimedout, rtu, tcp, sleep, flush, transmit, ok, err, confirmation,
}
use libmodbus.Backend.{build_response_basis, send_msg_pre}
use libmodbus.Lengths.{compute_meta_length_after_function, compute_data_length_after_meta}
use libmodbus.Send.{sends}
use libmodbus.Receive.{Event, bytes, select_fails, receive_msg, receive_loop}
use libmodbus.Receive.Framing.{frame_length}
use libmodbus.Reply.{reply}
use libmodbus.Client.{write_registers}
use libmodbus.Client.Stored.{IsStored}
use libmodbus.Client.EndToEnd.{write_registers-reply}
use libmodbus.Proxy.{Outcome, proxy}
use libmodbus.Proxy.Forward.{proxy-answered}
use libmodbus.Proxy.Unanswered.{proxy-unanswered}
use libmodbus.Tests.{context, mapping, mapping-IsValid, ready, read_request}

write_registers-reply_example :
    (frame : List ℕ) × (rsp : List ℕ) × (tab : List ℕ) × ((write_registers
        (context rtu)
        einval
        (sends (length frame) ∷ [])
        (bytes rsp ∷ [])
        108
        2
        (7 ∷ 8 ∷ [])).1
      ≡ (transmit frame ∷ [], ok (2, [])))
    × (reply [] (context rtu) frame (length frame) mapping (sends (length rsp) ∷ [])
        ≡ (record mapping { tab_registers = tab }, (transmit rsp ∷ [], ok (length rsp))))
    × IsStored (7 ∷ 8 ∷ []) 0 1 2 (555 ∷ 0 ∷ 100 ∷ []) tab
write_registers-reply_example =
    write_registers-reply [] (context rtu) (context rtu) einval 17 108 2 (7 ∷ 8 ∷ []) mapping
      (ready rtu) refl mapping-IsValid (omega arith) (omega arith) (omega arith) (omega arith)
      (omega arith) (omega arith, (omega arith, tt))

-- The device's answer to the request for three registers.
abbrev words_read : List ℕ
words_read = 6 ∷ 2 ∷ 43 ∷ 0 ∷ 0 ∷ 0 ∷ 100 ∷ []

abbrev from_device : List ℕ
from_device = send_msg_pre rtu (17 ∷ 3 ∷ words_read)

abbrev to_device : List ℕ
to_device = send_msg_pre rtu (17 ∷ 3 ∷ 0 ∷ 107 ∷ 0 ∷ 3 ∷ [])

abbrev to_frontend : List ℕ
to_frontend = send_msg_pre tcp (0 ∷ 1 ∷ 0 ∷ 0 ∷ 0 ∷ 0 ∷ 17 ∷ 3 ∷ words_read)

abbrev relayed : Outcome
relayed = record {
  frontend = transmit to_frontend ∷ [];
  backend = transmit to_device ∷ [];
  result = ok (length to_frontend);
}

proxy-answered_example :
    proxy
      (context tcp)
      read_request
      12
      (sends (length to_frontend) ∷ [])
      (context rtu)
      einval
      (sends (length to_device) ∷ [])
      (bytes from_device ∷ [])
    ≡ (context rtu, relayed)
unfolding frame_length compute_meta_length_after_function compute_data_length_after_meta
    build_response_basis send_msg_pre
proxy-answered_example =
    proxy-answered tcp rtu (context tcp) (context rtu) einval 17 1 6 3 (0 ∷ 107 ∷ 0 ∷ 3 ∷ []) [] 3
      words_read 3 (omega arith) (omega arith) (omega arith) (omega arith) refl (omega arith) refl
      (omega arith) refl (omega arith)

-- A device that is silent.
abbrev silence : List Event
silence = select_fails etimedout ∷ []

abbrev asked_device : Modbus
asked_device = record (context rtu) { slave = pos 17 }

silent_device :
    (receive_msg asked_device confirmation einval silence).1 ≡ (sleep ∷ flush ∷ [], err etimedout)
unfolding receive_msg receive_loop
silent_device = refl

abbrev refusal : List ℕ
refusal = send_msg_pre tcp (0 ∷ 1 ∷ 0 ∷ 0 ∷ 0 ∷ 0 ∷ 17 ∷ 131 ∷ 11 ∷ [])

abbrev unanswered : Outcome
unanswered = record {
  frontend = transmit refusal ∷ [];
  backend = transmit to_device ∷ sleep ∷ flush ∷ [];
  result = err etimedout;
}

proxy-unanswered_example :
    proxy
      (context tcp)
      read_request
      12
      (sends (length refusal) ∷ [])
      (context rtu)
      einval
      (sends (length to_device) ∷ [])
      silence
    ≡ (context rtu, unanswered)
unfolding build_response_basis send_msg_pre
proxy-unanswered_example =
    proxy-unanswered tcp rtu (context tcp) (context rtu) 17 1 6 3 (0 ∷ 107 ∷ 0 ∷ 3 ∷ []) []
      (omega arith) refl (omega arith) (omega arith) einval silence (sleep ∷ flush ∷ []) etimedout
      silent_device
