-- ===== src/Confirm.antt =====
-- `check_confirmation` of src/modbus.c: whether a response answers the request.
pub mod Accepts
pub mod Answers
pub mod Kinds
pub mod Sound
use libmodbus.Base.{
  ℕ, ◌+◌, ◌-◌, ◌/◌, Bool, true, ◌&&◌, ◌||◌, ltb, leb, ◌==◌, not, if◌then◌else◌, Option, none, some,
  List, [], ◌∷◌, byte_at,
}
use libmodbus.Context.{
  Modbus, Action, sleep, flush, ok, err, pending, Run, emb, embbaddata, embbadexc, has_flag,
  recovery_protocol, exception_max, fc_read_coils, fc_read_discrete_inputs,
  fc_read_holding_registers, fc_read_input_registers, fc_write_single_coil,
  fc_write_single_register, fc_write_multiple_coils, fc_write_multiple_registers,
  fc_report_slave_id, fc_write_and_read_registers,
}
use libmodbus.Backend.{header_length, checksum_length, pre_check_confirmation}
use libmodbus.Lengths.{word_at, word_or_at, byte_count, compute_response_length_from_request}

-- The counts that request and response name, and whether the fields that must agree do.
pub record Echo : Type 0 where
  pub req_nb_value : ℕ
  pub rsp_nb_value : ℕ
  pub fields_ok : Bool

-- `x[offset + k]` is the same in request and response.
abbrev pub same_at : List ℕ → List ℕ → ℕ → Bool
same_at req rsp i = byte_at req i == byte_at rsp i

-- The switch on the function code.
unfoldable pub expected_echo : ℕ → ℕ → List ℕ → List ℕ → Echo
expected_echo offset function req rsp =
    if function == fc_read_coils || function == fc_read_discrete_inputs
    then record {
      req_nb_value = byte_count (word_at req (offset + 3));
      rsp_nb_value = byte_at rsp (offset + 1);
      fields_ok = true;
    }
    else if function == fc_write_and_read_registers
        || (function == fc_read_holding_registers || function == fc_read_input_registers)
    then record {
      req_nb_value = word_at req (offset + 3);
      rsp_nb_value = byte_at rsp (offset + 1) / 2;
      fields_ok = true;
    }
    else if function == fc_write_multiple_coils || function == fc_write_multiple_registers
    then record {
      req_nb_value = word_at req (offset + 3);
      rsp_nb_value = word_or_at rsp (offset + 3);
      fields_ok = same_at req rsp (offset + 1) && same_at req rsp (offset + 2);
    }
    else if function == fc_report_slave_id
    then record {
      req_nb_value = byte_at rsp (offset + 1);
      rsp_nb_value = byte_at rsp (offset + 1);
      fields_ok = true;
    }
    else if function == fc_write_single_coil || function == fc_write_single_register
    then record {
      req_nb_value = 1;
      rsp_nb_value = 1;
      fields_ok =
          same_at req rsp (offset + 1)
          && same_at req rsp (offset + 2)
          && (same_at req rsp (offset + 3) && same_at req rsp (offset + 4));
    }
    else record { req_nb_value = 1; rsp_nb_value = 1; fields_ok = true }

-- What protocol recovery does before an error is returned.
abbrev pub recovery : Modbus → List Action
recovery ctx = if has_flag ctx.error_recovery recovery_protocol then sleep ∷ flush ∷ [] else []

-- The test of the length; an undefined length fits any response.
abbrev pub length_fits : Option ℕ → ℕ → Bool
length_fits none rsp_length = true
length_fits (some n) rsp_length = rsp_length == n

-- The part behind the pre-check of the header.
unfoldable pub check_body : Modbus → List ℕ → List ℕ → ℕ → Run ℕ
check_body ctx req rsp rsp_length =
    let offset = header_length ctx.backend in
    let function = byte_at rsp offset in
    let computed = compute_response_length_from_request ctx.backend req in
    let echo = expected_echo offset function req rsp in
    if leb 0x80 function
    then if rsp_length == offset + 2 + checksum_length ctx.backend
        && byte_at req offset == function - 0x80
      then if ltb (byte_at rsp (offset + 1)) exception_max
        then ([], err (emb (byte_at rsp (offset + 1))))
        else ([], err embbadexc)
      else ([], err embbadexc)
    else if not (length_fits computed rsp_length)
    then (recovery ctx, err embbaddata)
    else if not (function == byte_at req offset)
    then (recovery ctx, err embbaddata)
    else if echo.req_nb_value == echo.rsp_nb_value && echo.fields_ok
    then ([], ok echo.rsp_nb_value)
    else (recovery ctx, err embbaddata)

unfoldable pub check_confirmation : Modbus → List ℕ → List ℕ → ℕ → Run ℕ
check_confirmation ctx req rsp rsp_length = elim (pre_check_confirmation ctx.backend req rsp) [
  | ok rc ↦ check_body ctx req rsp rsp_length
  | err e ↦ (recovery ctx, err e)
  | pending ↦ ([], pending)
]
