-- ===== src/Reply/Header.antt =====
-- Each response of `modbus_reply` is one to its request: served, or refused with an exception.
use libmodbus.Base.{
  ℕ, ◌≢◌, ◌⊎◌, ◌||◌, ==_iff, Bool-cases, ◌+◌, ◌-◌, ◌≤◌, ◌≡◌, refl, arith, Bool, true, false, ltb,
  none, some, inl, inr, if◌then◌else◌, ◌==◌, List, take, IsBytes,
}
use libmodbus.Context.{Backend, Sft}
use libmodbus.Backend.{header_length, checksum_length}
use libmodbus.Lengths.{compute_data_length_after_meta}
use libmodbus.Mapping.{Mapping}
use libmodbus.Reply.{
  Answer, reply_read_bits, reply_read_registers, reply_write_bit, reply_write_register,
  reply_write_bits, reply_write_registers, reply_report_slave_id, reply_mask_write_register,
  reply_write_and_read_registers, dispatch, respond, required_length, request_sft, request_function,
}
use mathlib.Core.Path.{subst}
use libmodbus.Reply.Front.{IsFront, echo-IsFront}
use libmodbus.Reply.Verdict.{
  Within, IsServed, IsHeadedFrom, IsHeaded, field, coils_served, inputs_served, registers_served,
  input_registers_served, coil_stored, register_stored, coils_stored, registers_stored, named,
  register_masked, registers_exchanged,
}
use libmodbus.Reply.Guards.{
  tested_range, tested_entry, exception-IsHeaded, normal-IsFront, with_registers, with_status,
  guarded, checked, valid_only,
}

module _ (req : List ℕ) (bytes : IsBytes req) where
  module _ (b : Backend) (n address : ℕ) (m : Mapping) where
    abbrev sft : Sft
    sft = request_sft b req

    abbrev f : ℕ
    f = request_function b req

    abbrev Headed : Answer → Type 0
    Headed a = IsHeadedFrom address b req m a

    abbrev Served : Type 0
    Served = IsServed b req address m f

    reply_read_bits-IsHeaded :
        (start nb : ℕ) (tab : List ℕ)
        → (Within start nb 2000 address (field b req 3) → Served)
        → Headed (reply_read_bits b sft req n address m start nb tab)
    unfolding reply_read_bits
    reply_read_bits-IsHeaded start nb tab served =
        guarded req bytes b n address m _ _ _ (λ x y. served (tested_range start nb 2000 _ _ x y))
          (with_status req bytes b n address m _ _ _ tab _ refl)

    reply_read_registers-IsHeaded :
        (start nb : ℕ) (tab : List ℕ)
        → (Within start nb 125 address (field b req 3) → Served)
        → Headed (reply_read_registers b sft req n address m start nb tab)
    unfolding reply_read_registers
    reply_read_registers-IsHeaded start nb tab served =
        guarded req bytes b n address m _ _ _ (λ x y. served (tested_range start nb 125 _ _ x y))
          (with_registers req bytes b n address m _ _ _ tab _ refl)

    reply_write_bits-IsHeaded : f ≡ 15 → Headed (reply_write_bits b sft req n address m)
    unfolding reply_write_bits
    reply_write_bits-IsHeaded e =
        guarded req bytes b n address m _ _ _
          (λ x y.
            coils_stored e (tested_range m.start_bits m.nb_bits 1968 _ _ (ground arith) y)
              (ground arith))
          (normal-IsFront req bytes b n address m _ _ refl)

    reply_write_registers-IsHeaded : f ≡ 16 → Headed (reply_write_registers b sft req n address m)
    unfolding reply_write_registers
    reply_write_registers-IsHeaded e =
        guarded req bytes b n address m _ _ _
          (λ x y.
            registers_stored e
              (tested_range m.start_registers m.nb_registers 123 _ _ (ground arith) y)
              (ground arith))
          (normal-IsFront req bytes b n address m _ _ refl)

    reply_write_and_read_registers-IsHeaded :
        f ≡ 23 → Headed (reply_write_and_read_registers b sft req n address m)
    unfolding reply_write_and_read_registers
    reply_write_and_read_registers-IsHeaded e =
        guarded req bytes b n address m _ _ _
          (λ x y.
            registers_exchanged e
              (tested_range m.start_registers m.nb_registers 125 _ _ (ground arith) (ground arith))
              (tested_range m.start_registers m.nb_registers 121 _ _ (ground arith) (ground arith))
              (ground arith))
          (with_registers req bytes b n address m _ _ _ _ _ refl)

    reply_report_slave_id-IsHeaded :
        (version : List ℕ) → f ≡ 17 → Headed (reply_report_slave_id b sft req n address m version)
    unfolding reply_report_slave_id
    reply_report_slave_id-IsHeaded version e =
        inl (normal-IsFront req bytes b n address m _ _ refl, named e)

    module _ (long : header_length b + 1 + checksum_length b ≤ n) where
      echoed : (a : Answer) → a.rsp ≡ take (n - checksum_length b) req → IsFront b req f a
      echoed a e = echo-IsFront req bytes b (n - checksum_length b) a (omega arith) e

      reply_write_bit-IsHeaded : f ≡ 5 → Headed (reply_write_bit b sft req n address m)
      unfolding reply_write_bit
      reply_write_bit-IsHeaded e =
          valid_only req bytes b n address m _ _ _ _
            (λ x y. coil_stored e (tested_entry m.start_bits m.nb_bits address x) (on_or_off _ y))
            (echoed _ refl)
        where
          on_or_off : (w : ℕ) → (w == 0xff00 || w == 0) ≡ true → (w ≡ 0xff00) ⊎ (w ≡ 0)
          on_or_off w h = ground arith

      reply_write_register-IsHeaded : f ≡ 6 → Headed (reply_write_register b sft req n address m)
      unfolding reply_write_register
      reply_write_register-IsHeaded e =
          checked req bytes b n address m _ _ _
            (λ x. register_stored e (tested_entry m.start_registers m.nb_registers address x))
            (echoed _ refl)

      reply_mask_write_register-IsHeaded :
          f ≡ 22 → Headed (reply_mask_write_register b sft req n address m)
      unfolding reply_mask_write_register
      reply_mask_write_register-IsHeaded e =
          checked req bytes b n address m _ _ _
            (λ x. register_masked e (tested_entry m.start_registers m.nb_registers address x))
            (echoed _ refl)

      choose :
          (k : ℕ) (x y : Answer)
          → (f ≡ k → Headed x)
          → (f ≢ k → Headed y)
          → Headed (if f == k then x else y)
      choose k x y h h' = elim (Bool-cases (f == k)) [
        | inl e ↦ rw e (h ((==_iff f k).0 e))
        | inr e ↦ rw e (h' (λ same. differ (rw e at (==_iff f k).1 same)))
      ]
        where
          differ : false ≡ true → ⊥
          differ h = cc

      dispatch-IsHeaded : (version : List ℕ) → Headed (dispatch b sft req n address m version f)
      unfolding dispatch
      dispatch-IsHeaded version =
          choose 1 _ _ (λ e. reply_read_bits-IsHeaded _ _ _ (coils_served e))
            λ n1.
              choose 2 _ _ (λ e. reply_read_bits-IsHeaded _ _ _ (inputs_served e))
                λ n2.
                  choose 3 _ _ (λ e. reply_read_registers-IsHeaded _ _ _ (registers_served e))
                    λ n3.
                      choose 4 _ _
                        (λ e. reply_read_registers-IsHeaded _ _ _ (input_registers_served e))
                        λ n4. choose 5 _ _ reply_write_bit-IsHeaded λ n5.
                          choose 6 _ _ reply_write_register-IsHeaded λ n6.
                            choose 15 _ _ reply_write_bits-IsHeaded λ n15.
                              choose 16 _ _ reply_write_registers-IsHeaded λ n16.
                                choose 17 _ _ (reply_report_slave_id-IsHeaded version) λ n17.
                                  choose 7 _ _
                                    (λ e.
                                      exception-IsHeaded req bytes b n address m 1 true
                                        (inl (refl, ground arith)) (omega arith))
                                    λ n7. choose 22 _ _ reply_mask_write_register-IsHeaded λ n22.
                                      choose 23 _ _ reply_write_and_read_registers-IsHeaded λ n23.
                                        exception-IsHeaded req bytes b n address m 1 true
                                          (inl (
                                            refl,
                                            (n1, n2, n3, n4, n5, n6, n15, n16, n17, n22, n23),
                                          ))
                                          (omega arith)

long_enough :
    (b : Backend) (req : List ℕ) (n : ℕ)
    → required_length b req n ≤ n
    → header_length b + 1 + checksum_length b ≤ n
unfolding required_length compute_data_length_after_meta
long_enough b req n h = ground arith

-- Every response of `modbus_reply` to a request of bytes, whatever they are, has the request's slave
-- and, over TCP, its transaction, and is one of two. Either it has the request's function code:
-- then that is one that is served, and the entries that the request names are in the mapping's
-- tables, their number is from 1 to the limit of the function, the data has the bytes for it, and
-- a coil's value is on or off. Or it is an exception: its function code is the request's raised by
-- 0x80, a single byte follows, and the mapping is as it was; that byte is 1 only for a
-- function that is not served, and else 2 or 3.
pub respond-IsHeaded :
    (version : List ℕ) (b : Backend) (req : List ℕ) (n : ℕ) (m : Mapping) (answer : Answer)
    → IsBytes req
    → respond version b req n m ≡ some answer
    → IsHeaded b req n m answer
unfolding respond
respond-IsHeaded version b req n m answer bytes e =
    split_answer (ltb n (header_length b + 1)) (ltb n (required_length b req n)) _ _
      (exception-IsHeaded req bytes b n _ m 3 true (inr (inr refl)) (omega arith))
      (λ q. dispatch-IsHeaded req bytes b n _ m (long_enough b req n (ground arith)) version) e
  where
    split_answer :
        (short cut : Bool) (x y : Answer)
        → IsHeaded b req n m x
        → (cut ≡ false → IsHeaded b req n m y)
        → (if short then none else if cut then some x else some y) ≡ some answer
        → IsHeaded b req n m answer
    split_answer true cut x y h k p = absurd cc
    split_answer false true x y h k p = let q : x ≡ answer = cc in subst (IsHeaded b req n m) q h
    split_answer false false x y h k p =
        let q : y ≡ answer = cc in subst (IsHeaded b req n m) q (k refl)
