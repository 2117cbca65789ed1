-- ===== src/Tests/EndToEnd.antt =====
-- Runs of a client against a server, and of a mapping's allocation.
use libmodbus.Base.{ℕ, ◌≡◌, refl, arith, Bool, true, false, List, [], ◌∷◌, ◌++◌, length}
use libmodbus.Context.{
  einval, epipe, rtu, tcp, transmit, ok, fc_read_holding_registers, fc_read_input_registers,
  recovery_link, has_flag,
}
use libmodbus.Backend.{build_request_basis, send_msg_pre}
use libmodbus.Mapping.{Block, registers, mapping_new_start_address}
use libmodbus.Mapping.Allocation.{Balanced, mapping_new_start_address-Balanced}
use libmodbus.Send.{sends, send_msg}
use libmodbus.Send.Retries.{retries, failed, verdict, first_of, send_msg-retries}
use libmodbus.Receive.{bytes}
use libmodbus.Reply.{reply}
use libmodbus.Client.{read_registers, read_input_registers}
use libmodbus.Client.EndToEnd.{read_registers-reply, read_input_registers-reply}
use libmodbus.Tests.{context, mapping, mapping-IsValid, ready}

read_registers-reply_example :
    let frame =
      send_msg_pre tcp (build_request_basis (context tcp) fc_read_holding_registers 108 2).1 in
    (rsp : List ℕ) × (reply [] (context tcp) frame (length frame) mapping (sends (length rsp) ∷ [])
      ≡ (mapping, (transmit rsp ∷ [], ok (length rsp))))
    × ((read_registers (context tcp) einval (sends (length frame) ∷ []) (bytes rsp ∷ []) 108 2).1
        ≡ (transmit frame ∷ [], ok (2, 0 ∷ 100 ∷ [])))
read_registers-reply_example =
    read_registers-reply [] (context tcp) (context tcp) einval 17 108 2 mapping (ready tcp) refl
      mapping-IsValid (omega arith) (omega arith) (omega arith) (omega arith) (omega arith)

read_input_registers-reply_example :
    let frame =
      send_msg_pre rtu (build_request_basis (context rtu) fc_read_input_registers 8 1).1 in
    (rsp : List ℕ) × (reply [] (context rtu) frame (length frame) mapping (sends (length rsp) ∷ [])
      ≡ (mapping, (transmit rsp ∷ [], ok (length rsp))))
    × ((read_input_registers
          (context rtu)
          einval
          (sends (length frame) ∷ [])
          (bytes rsp ∷ [])
          8
          1).1
        ≡ (transmit frame ∷ [], ok (1, 10 ∷ [])))
read_input_registers-reply_example =
    read_input_registers-reply [] (context rtu) (context rtu) einval 17 8 1 mapping (ready rtu) refl
      mapping-IsValid (omega arith) (omega arith) (omega arith) (omega arith) (omega arith)

-- The allocation of the registers fails.
abbrev no_registers : Block → Bool
no_registers registers = false
no_registers _ = true

mapping_new_start_address-Balanced_example :
    Balanced (mapping_new_start_address no_registers 0 3 0 0 0 5 0 1)
mapping_new_start_address-Balanced_example =
    mapping_new_start_address-Balanced no_registers 0 3 0 0 0 5 0 1

send_msg-retries_example :
    let frame = send_msg_pre tcp (17 ∷ 3 ∷ []) in
    let run = send_msg (context tcp) (17 ∷ 3 ∷ []) (failed (epipe ∷ []) ++ sends 2 ∷ []) in
    (has_flag 6 recovery_link ≡ true
      → run ≡ (retries frame (epipe ∷ []) ++ transmit frame ∷ [], verdict frame 2))
    × (has_flag 6 recovery_link ≡ false
        → run ≡ (transmit frame ∷ [], first_of (epipe ∷ []) (verdict frame 2)))
send_msg-retries_example = send_msg-retries (context tcp) (17 ∷ 3 ∷ []) (epipe ∷ []) 2 []
