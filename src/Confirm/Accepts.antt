-- ===== src/Confirm/Accepts.antt =====
-- What `check_confirmation` accepts.
use libmodbus.Base.{
  ℕ, ◌+◌, ◌/◌, ◌<◌, ◌≡◌, refl, ◌∙◌, arith, true, false, leb, ==_iff, List, [], byte_at, ◌⊎◌, inl,
  inr,
}
use libmodbus.Context.{Modbus, ok, err, pending, Errno, Result, Run}
use libmodbus.Backend.{header_length, pre_check_confirmation}
use libmodbus.Lengths.{compute_response_length_from_request, byte_count, word_at, word_or_at}
use libmodbus.Confirm.{Echo, expected_echo, length_fits, check_body, check_confirmation}

pub pre_checked :
    (r : Result ℕ) (body : Run ℕ) (on_error : Errno → Run ℕ)
    → r ≡ ok 0
    → (elim r as (λ r. Run ℕ) [ ok rc ↦ body | err e ↦ on_error e | pending ↦ ([], pending) ])
      ≡ body
pre_checked (ok rc) body on_error e = refl
pre_checked (err x) body on_error e = absurd cc
pre_checked pending body on_error e = absurd cc

-- A response of the right function, length, counts and fields is accepted, with the count.
module _ (ctx : Modbus) (req rsp : List ℕ) (n count : ℕ) where
  abbrev offset : ℕ
  offset = header_length ctx.backend

  check_body-ok :
      byte_at rsp offset < 128
      → byte_at req offset ≡ byte_at rsp offset
      → length_fits (compute_response_length_from_request ctx.backend req) n ≡ true
      → expected_echo offset (byte_at rsp offset) req rsp
        ≡ record { req_nb_value = count; rsp_nb_value = count; fields_ok = true }
      → check_body ctx req rsp n ≡ ([], ok count)
  unfolding check_body
  check_body-ok small same fits echo =
      let plain : leb 0x80 (byte_at rsp offset) ≡ false = ground arith in
      rw
        (
          plain,
          fits,
          same,
          (==_iff _ (byte_at rsp offset)).1 refl,
          echo,
          (==_iff count count).1 refl,
        )
        refl

  pub check_confirmation-ok :
      pre_check_confirmation ctx.backend req rsp ≡ ok 0
      → byte_at rsp offset < 128
      → byte_at req offset ≡ byte_at rsp offset
      → length_fits (compute_response_length_from_request ctx.backend req) n ≡ true
      → expected_echo offset (byte_at rsp offset) req rsp
        ≡ record { req_nb_value = count; rsp_nb_value = count; fields_ok = true }
      → check_confirmation ctx req rsp n ≡ ([], ok count)
  unfolding check_confirmation
  check_confirmation-ok pre small same fits echo =
      pre_checked (pre_check_confirmation ctx.backend req rsp) (check_body ctx req rsp n) _ pre
      ∙ check_body-ok small same fits echo

-- The counts that must agree, for each kind of request.
module _ (offset : ℕ) (req rsp : List ℕ) (nb : ℕ) where
  abbrev pub agreed : Echo
  agreed = record { req_nb_value = nb; rsp_nb_value = nb; fields_ok = true }

  pub expected_echo-bits :
      (function : ℕ)
      → (function ≡ 1) ⊎ (function ≡ 2)
      → byte_count (word_at req (offset + 3)) ≡ nb
      → byte_at rsp (offset + 1) ≡ nb
      → expected_echo offset function req rsp ≡ agreed
  unfolding expected_echo
  expected_echo-bits function (inl e) h h' = rw (e, h, h') refl
  expected_echo-bits function (inr e) h h' = rw (e, h, h') refl

  pub expected_echo-words :
      (function : ℕ)
      → (function ≡ 3) ⊎ (function ≡ 4)
      → word_at req (offset + 3) ≡ nb
      → byte_at rsp (offset + 1) / 2 ≡ nb
      → expected_echo offset function req rsp ≡ agreed
  unfolding expected_echo
  expected_echo-words function (inl e) h h' = rw (e, h, h') refl
  expected_echo-words function (inr e) h h' = rw (e, h, h') refl

  pub expected_echo-writes :
      (function : ℕ)
      → (function ≡ 15) ⊎ (function ≡ 16)
      → word_at req (offset + 3) ≡ nb
      → word_or_at rsp (offset + 3) ≡ nb
      → byte_at req (offset + 1) ≡ byte_at rsp (offset + 1)
      → byte_at req (offset + 2) ≡ byte_at rsp (offset + 2)
      → expected_echo offset function req rsp ≡ agreed
  unfolding expected_echo
  expected_echo-writes function (inl e) h h' s s' =
      rw
        (
          e,
          h,
          h',
          s,
          s',
          (==_iff _ (byte_at rsp (offset + 1))).1 refl,
          (==_iff _ (byte_at rsp (offset + 2))).1 refl,
        )
        refl
  expected_echo-writes function (inr e) h h' s s' =
      rw
        (
          e,
          h,
          h',
          s,
          s',
          (==_iff _ (byte_at rsp (offset + 1))).1 refl,
          (==_iff _ (byte_at rsp (offset + 2))).1 refl,
        )
        refl
