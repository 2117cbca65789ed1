-- ===== src/Tests/Server.antt =====
-- Runs of `modbus_reply`, and of the check of its response.
use libmodbus.Base.{ℕ, ◌≡◌, arith, some, List, [], ◌∷◌, ◌++◌, take, refl}
use libmodbus.Context.{ok, tcp}
use libmodbus.Lengths.{
  compute_meta_length_after_function, compute_data_length_after_meta,
  compute_response_length_from_request,
}
use libmodbus.Backend.{build_response_basis, get_response_tid, pre_check_confirmation}
use libmodbus.Reply.{
  Answer, respond, required_length, dispatch, reply_read_registers, reply_write_register,
  register_bytes, response_exception,
}
use libmodbus.Reply.Bounds.{Fits, respond-Fits}
use libmodbus.Reply.Kept.{IsSound}
use libmodbus.Reply.Effects.{respond-IsSound}
use libmodbus.Reply.Verdict.{IsHeaded}
use libmodbus.Reply.Header.{respond-IsHeaded}
use libmodbus.Confirm.{check_confirmation, check_body, expected_echo}
use libmodbus.Confirm.Sound.{IsAccepted, check_confirmation-IsAccepted}
use libmodbus.Reply.Prefix.{respond-take}
use libmodbus.Tests.{context, mapping, mapping-IsValid, read_request, write_request}

abbrev version : List ℕ
version = 51 ∷ 46 ∷ 49 ∷ []

abbrev read_answer : Answer
read_answer = record {
  rsp = 0 ∷ 1 ∷ 0 ∷ 0 ∷ 0 ∷ 0 ∷ 17 ∷ 3 ∷ 6 ∷ 2 ∷ 43 ∷ 0 ∷ 0 ∷ 0 ∷ 100 ∷ [];
  actions = [];
  mapping = mapping;
}

read_answered : respond version tcp read_request 12 mapping ≡ some read_answer
unfolding respond required_length compute_meta_length_after_function compute_data_length_after_meta
    dispatch reply_read_registers reply_write_register register_bytes build_response_basis
    get_response_tid compute_response_length_from_request response_exception
read_answered = refl

abbrev write_answer : Answer
write_answer = record {
  rsp = write_request;
  actions = [];
  mapping = record mapping { tab_registers = 555 ∷ 7 ∷ 100 ∷ [] };
}

write_answered : respond version tcp write_request 12 mapping ≡ some write_answer
unfolding respond required_length compute_meta_length_after_function compute_data_length_after_meta
    dispatch reply_read_registers reply_write_register register_bytes build_response_basis
    get_response_tid compute_response_length_from_request response_exception
write_answered = refl

respond-Fits_example : Fits tcp read_answer
respond-Fits_example =
    respond-Fits version tcp read_request 12 mapping read_answer (omega arith) read_answered

respond-IsSound_example : IsSound tcp mapping write_answer
respond-IsSound_example =
    respond-IsSound version tcp write_request 12 mapping write_answer mapping-IsValid write_answered

respond-take_example :
    respond version tcp (take 12 (write_request ++ read_request)) 12 mapping
    ≡ respond version tcp (write_request ++ read_request) 12 mapping
respond-take_example = respond-take version tcp (write_request ++ read_request) 12 mapping

respond-IsHeaded_example : IsHeaded tcp write_request 12 mapping write_answer
respond-IsHeaded_example =
    respond-IsHeaded version tcp write_request 12 mapping write_answer
      (
        omega arith,
        (
          omega arith,
          (
            omega arith,
            (
              omega arith,
              (
                omega arith,
                (
                  omega arith,
                  (
                    omega arith,
                    (omega arith, (omega arith, (omega arith, (omega arith, (omega arith, tt))))),
                  ),
                ),
              ),
            ),
          ),
        ),
      )
      write_answered

accepted : check_confirmation (context tcp) read_request read_answer.rsp 15 ≡ ([], ok 3)
unfolding check_confirmation check_body expected_echo pre_check_confirmation
    compute_response_length_from_request
accepted = refl

check_confirmation-IsAccepted_example : IsAccepted tcp read_request read_answer.rsp 15 3
check_confirmation-IsAccepted_example =
    check_confirmation-IsAccepted (context tcp) read_request read_answer.rsp 15 3 []
      (
        omega arith,
        (
          omega arith,
          (
            omega arith,
            (
              omega arith,
              (
                omega arith,
                (
                  omega arith,
                  (
                    omega arith,
                    (omega arith, (omega arith, (omega arith, (omega arith, (omega arith, tt))))),
                  ),
                ),
              ),
            ),
          ),
        ),
      )
      (
        omega arith,
        (
          omega arith,
          (
            omega arith,
            (
              omega arith,
              (
                omega arith,
                (
                  omega arith,
                  (
                    omega arith,
                    (
                      omega arith,
                      (
                        omega arith,
                        (
                          omega arith,
                          (
                            omega arith,
                            (omega arith, (omega arith, (omega arith, (omega arith, tt)))),
                          ),
                        ),
                      ),
                    ),
                  ),
                ),
              ),
            ),
          ),
        ),
      )
      accepted
