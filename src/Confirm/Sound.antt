-- ===== src/Confirm/Sound.antt =====
-- What a client may rely on when `check_confirmation` has accepted a response.
use libmodbus.Base.{
  ℕ, ◌+◌, ◌-◌, ◌<◌, ◌≡◌, arith, refl, ◌∙◌, Bool, true, false, ◌&&◌, leb, ltb, ◌==◌, not, ==_iff,
  if◌then◌else◌, List, [], byte_at, IsBytes,
}
use mathlib.Core.Path.{subst}
use libmodbus.Context.{
  Backend, Modbus, Action, Result, ok, err, pending, Run, exception_max, emb, embbadexc, embbaddata,
}
use libmodbus.Backend.{header_length, checksum_length, pre_check_confirmation}
use libmodbus.Lengths.{compute_response_length_from_request}
use libmodbus.Confirm.{expected_echo, length_fits, recovery, check_body, check_confirmation}
use libmodbus.Confirm.Kinds.{Agrees, kind_of, by_kind}
use libmodbus.Confirm.Answers.{IsReplyHeader, IsAnswer, and_true, check-IsReplyHeader}

-- A response that a client may accept as one to its request, with the count that it reports.
pub record IsAccepted (b : Backend) (req rsp : List ℕ) (n count : ℕ) : Type 0 where
  pub header : IsReplyHeader b req rsp
  pub no_exception : byte_at rsp (header_length b) < 128
  pub same_function : byte_at rsp (header_length b) ≡ byte_at req (header_length b)
  pub answer : IsAnswer b req rsp n (byte_at req (header_length b)) count

-- The branches of the check, of which one returns a count.
only_ok :
    (exceptional valid known fits same agree : Bool) (rec : List Action) (code c count : ℕ)
    (acts : List Action)
    → ◌≡◌ {A = Run ℕ}
        (if exceptional
          then if valid
            then if known then ([], err (emb code)) else ([], err embbadexc)
            else ([], err embbadexc)
          else if not fits
          then (rec, err embbaddata)
          else if not same
          then (rec, err embbaddata)
          else if agree
          then ([], ok c)
          else (rec, err embbaddata))
        (acts, ok count)
    → (exceptional ≡ false) × (fits ≡ true) × (same ≡ true) × (agree ≡ true) × (c ≡ count)
only_ok true true true fits same agree rec code c count acts e = absurd cc
only_ok true true false fits same agree rec code c count acts e = absurd cc
only_ok true false known fits same agree rec code c count acts e = absurd cc
only_ok false valid known false same agree rec code c count acts e = absurd cc
only_ok false valid known true false agree rec code c count acts e = absurd cc
only_ok false valid known true true false rec code c count acts e = absurd cc
only_ok false valid known true true true rec code c count acts e = (refl, refl, refl, refl, cc)

module _ (ctx : Modbus) (req rsp : List ℕ) (n count : ℕ) (acts : List Action) (asks : IsBytes req)
    (answers : IsBytes rsp) where
  check_body-IsAccepted :
      (rc : ℕ)
      → pre_check_confirmation ctx.backend req rsp ≡ ok rc
      → check_body ctx req rsp n ≡ (acts, ok count)
      → IsAccepted ctx.backend req rsp n count
  unfolding check_body
  check_body-IsAccepted rc pre e =
      let offset = header_length ctx.backend in
      let echo = expected_echo offset (byte_at rsp offset) req rsp in
      let (plain, fits, same, agree, counted) =
        only_ok (leb 0x80 (byte_at rsp offset))
          (n == offset + 2 + checksum_length ctx.backend
            && byte_at req offset == byte_at rsp offset - 0x80)
          (ltb (byte_at rsp (offset + 1)) exception_max)
          (length_fits (compute_response_length_from_request ctx.backend req) n)
          (byte_at rsp offset == byte_at req offset)
          (echo.req_nb_value == echo.rsp_nb_value && echo.fields_ok) (recovery ctx)
          (byte_at rsp (offset + 1)) echo.rsp_nb_value count acts e in
      let (equal, fields) = and_true _ _ agree in
      let f = byte_at req offset in
      let alike : byte_at rsp offset ≡ f = (==_iff _ _).0 same in
      record {
        header = check-IsReplyHeader ctx.backend req rsp rc pre;
        no_exception = ground (arith, plain);
        same_function = alike;
        answer =
            by_kind ctx.backend req rsp asks answers n count f refl fits
              (subst
                (λ g.
                  Agrees ctx.backend req rsp asks answers (expected_echo offset g req rsp) count)
                alike ((==_iff _ _).0 equal ∙ counted, counted, fields))
              (kind_of f);
      }

  -- Where `check_confirmation` returns a count, the response answers the request. Over RTU its slave
  -- is the one that was asked, unless the request was to all; over TCP its transaction is the
  -- request's and its protocol is 0. Its function code is the request's, below 0x80. It has the
  -- length that the answer of its function has, which for bits and registers follows from the
  -- number that was asked for and for a slave ID is not checked; of a read of bits or registers, the
  -- byte count belongs to that number; of a write, but not of a mask, the address and the value or
  -- the number come back. And the count is the one of that function: the byte count of bits or of a
  -- slave ID, the number of registers read or of values written by a write of several, else 1.
  -- Request and response are lists of bytes.
  pub check_confirmation-IsAccepted :
      check_confirmation ctx req rsp n ≡ (acts, ok count) → IsAccepted ctx.backend req rsp n count
  unfolding check_confirmation
  check_confirmation-IsAccepted e = by_header (pre_check_confirmation ctx.backend req rsp) refl e
    where
      by_header :
          (r : Result ℕ)
          → pre_check_confirmation ctx.backend req rsp ≡ r
          → ◌≡◌ {A = Run ℕ}
              (elim r as (λ r. Run ℕ) [
                | ok rc ↦ check_body ctx req rsp n
                | err x ↦ (recovery ctx, err x)
                | pending ↦ ([], pending)
              ])
              (acts, ok count)
          → IsAccepted ctx.backend req rsp n count
      by_header (ok rc) p q = check_body-IsAccepted rc p q
      by_header (err x) p q = absurd cc
      by_header pending p q = absurd cc
