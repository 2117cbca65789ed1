-- ===== src/Reply/Front.antt =====
-- A response whose front answers that of its request.
use libmodbus.Base.{
  ℕ, ◌+◌, ◌-◌, ◌*◌, ◌%◌, ◌≤◌, ◌<◌, ◌≡◌, refl, ◌∙◌, arith, List, ◌++◌, byte_at, byte_at-lt, take,
  IsBytes, get_or-take, bit_and-255,
}
use libmodbus.Context.{Backend, rtu, tcp}
use libmodbus.Backend.{header_length, build_response_basis, get_response_tid}
use libmodbus.Reply.{Answer, request_sft, request_function, request_slave}

-- The slave and the transaction are those of the request, and the function code is as given.
pub record IsFront (b : Backend) (req : List ℕ) (function : ℕ) (a : Answer) : Type 0 where
  pub same_slave : byte_at a.rsp (header_length b - 1) ≡ request_slave b req
  pub same_tid : get_response_tid b a.rsp ≡ get_response_tid b req
  pub function_code : byte_at a.rsp (header_length b) ≡ function

-- Only the bytes up to the function code matter.
pub same_front :
    (b : Backend) (req : List ℕ) (function : ℕ) (x y : Answer)
    → ((k : ℕ) → k ≤ header_length b → byte_at y.rsp k ≡ byte_at x.rsp k)
    → IsFront b req function x
    → IsFront b req function y
unfolding get_response_tid
same_front rtu req function x y h p = record {
  same_slave = h 0 (omega arith) ∙ p.same_slave;
  same_tid = refl;
  function_code = h 1 (omega arith) ∙ p.function_code;
}
same_front tcp req function x y h p = record {
  same_slave = h 6 (omega arith) ∙ p.same_slave;
  same_tid = rw (h 0 (omega arith), h 1 (omega arith)) p.same_tid;
  function_code = h 7 (omega arith) ∙ p.function_code;
}

module _ (req : List ℕ) (bytes : IsBytes req) where
  -- A response that starts with the basis, for any function.
  pub basis-IsFront :
      (b : Backend) (function : ℕ) (body : List ℕ) (a : Answer)
      → a.rsp ≡ build_response_basis b (record (request_sft b req) { function = function }) ++ body
      → IsFront b req (function % 256) a
  unfolding build_response_basis get_response_tid
  basis-IsFront rtu function body a e = record {
    same_slave = rw e (omega (arith, byte_at-lt req 0 bytes));
    same_tid = refl;
    function_code = rw e refl;
  }
  basis-IsFront tcp function body a e = record {
    same_slave = rw e (omega (arith, byte_at-lt req 6 bytes));
    same_tid = rw e (
        omega (
          arith,
          byte_at-lt req 0 bytes,
          byte_at-lt req 1 bytes,
          bit_and-255 (byte_at req 0 * 256 + byte_at req 1),
        ));
    function_code = rw e refl;
  }

  pub echo-IsFront :
      (b : Backend) (k : ℕ) (a : Answer)
      → header_length b < k
      → a.rsp ≡ take k req
      → IsFront b req (request_function b req) a
  unfolding get_response_tid
  echo-IsFront rtu k a h e = record {
    same_slave = rw e (get_or-take k req 0 0 (omega arith));
    same_tid = refl;
    function_code = rw e (get_or-take k req 1 0 (omega arith));
  }
  echo-IsFront tcp k a h e = record {
    same_slave = rw e (get_or-take k req 6 0 (omega arith));
    same_tid =
        rw (e, get_or-take k req 0 0 (omega arith), get_or-take k req 1 0 (omega arith)) refl;
    function_code = rw e (get_or-take k req 7 0 (omega arith));
  }
