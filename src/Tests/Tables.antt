-- ===== src/Tests/Tables.antt =====
-- Runs of a client against a server for the tables of bits.
use libmodbus.Base.{ℕ, ◌≡◌, refl, arith, inr, List, [], ◌∷◌, length}
use libmodbus.Context.{
  einval, rtu, tcp, transmit, ok, err, emb, illegal_data_address, fc_read_coils,
}
use libmodbus.Backend.{build_request_basis, send_msg_pre}
use libmodbus.Send.{sends}
use libmodbus.Receive.{bytes}
use libmodbus.Reply.{reply}
use libmodbus.Data.BitTables.{IsUnpacked}
use libmodbus.Client.{read_bits, write_bits}
use libmodbus.Client.Packing.{flag}
use libmodbus.Client.ReadBits.{IsPacked}
use libmodbus.Client.EndToEnd.{read_bits-reply, write_bits-reply}
use libmodbus.Client.Calls.{issue, coils_written}
use libmodbus.Client.Refusals.{issue-missing}
use libmodbus.Tests.{context, mapping, mapping-IsValid, ready}

read_bits-reply_example :
    let frame = send_msg_pre rtu (build_request_basis (context rtu) fc_read_coils 20 2).1 in
    (rsp : List ℕ) × (reply [] (context rtu) frame (length frame) mapping (sends (length rsp) ∷ [])
      ≡ (mapping, (transmit rsp ∷ [], ok (length rsp))))
    × IsPacked 2 1 2 mapping.tab_bits rsp
    × ((read_bits (context rtu) einval (sends (length frame) ∷ []) (bytes rsp ∷ []) 20 2).1
        ≡ (transmit frame ∷ [], ok (2, 0 ∷ 1 ∷ [])))
read_bits-reply_example =
    read_bits-reply [] (context rtu) (context rtu) einval 17 20 2 mapping (ready rtu) refl
      mapping-IsValid (omega arith) (omega arith) (omega arith)
      (omega arith, (omega arith, (omega arith, tt))) (omega arith) (omega arith)

write_bits-reply_example :
    (frame : List ℕ) × (rsp : List ℕ) × (tab : List ℕ) × ((write_bits
        (context rtu)
        einval
        (sends (length frame) ∷ [])
        (bytes rsp ∷ [])
        20
        2
        (5 ∷ 0 ∷ [])).1
      ≡ (transmit frame ∷ [], ok (2, [])))
    × (reply [] (context rtu) frame (length frame) mapping (sends (length rsp) ∷ [])
        ≡ (record mapping { tab_bits = tab }, (transmit rsp ∷ [], ok (length rsp))))
    × IsUnpacked (flag (5 ∷ 0 ∷ [])) 1 0 2 mapping.tab_bits tab
write_bits-reply_example =
    write_bits-reply [] (context rtu) (context rtu) einval 17 20 2 (5 ∷ 0 ∷ []) mapping (ready rtu)
      refl mapping-IsValid (omega arith) (omega arith) (omega arith) (omega arith) (omega arith)

-- Coil 22 is not there.
issue-missing_example :
    (frame : List ℕ) × (rsp : List ℕ) × ((issue
        (coils_written 2 (5 ∷ 0 ∷ []))
        (context tcp)
        einval
        (sends (length frame) ∷ [])
        (bytes rsp ∷ [])
        21).1
      ≡ (transmit frame ∷ [], err (emb illegal_data_address)))
    × (reply [] (context tcp) frame (length frame) mapping (sends (length rsp) ∷ [])
        ≡ (mapping, (transmit rsp ∷ [], ok (length rsp))))
issue-missing_example =
    issue-missing [] (context tcp) (context tcp) einval 17 21 (coils_written 2 (5 ∷ 0 ∷ [])) mapping
      (ready tcp) refl (omega arith) (omega arith, omega arith) (inr (omega arith))
