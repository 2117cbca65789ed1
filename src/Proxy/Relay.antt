-- ===== src/Proxy/Relay.antt =====
-- What `modbus_proxy` carries from one framing to the other.
use libmodbus.Base.{
  ℕ, suc, ◌+◌, ◌-◌, ◌<◌, ◌≡◌, refl, ap, ◌∙◌, arith, List, ◌∷◌, ◌++◌, length, take, drop,
  take-append, length-append, length-append,
}
use libmodbus.Context.{Backend, rtu, tcp, Modbus}
use libmodbus.Backend.{header_length, checksum_length, build_response_basis}
use libmodbus.Client.Messages.{carried, message, over, slave-message, function-message, tid-message}
use libmodbus.Proxy.{backend_request, relay}

module _ (slave t n function : ℕ) (body tail : List ℕ) where
  -- The slave, the function and the data of a frame.
  pub backend_request-message :
      (b : Backend) (ctx : Modbus)
      → length tail ≡ checksum_length b
      → let frame = message b slave t n function (body ++ tail) in
        backend_request (over b ctx) frame (length frame) ≡ slave ∷ function ∷ body
  backend_request-message rtu ctx h =
      ap (λ (k : ℕ). take k (slave ∷ function ∷ (body ++ tail)))
        (let e : length (message rtu slave t n function (body ++ tail)) - 1 - 2 + 1
              ≡ suc (suc (length body)) =
            omega (arith, length-append body tail) in
          e)
      ∙ ap (λ (l : List ℕ). slave ∷ function ∷ l) (take-append (length body) body tail refl)
  backend_request-message tcp ctx h =
      ap (λ (k : ℕ). take k (slave ∷ function ∷ (body ++ tail)))
        (let e : length (message tcp slave t n function (body ++ tail)) - 7 - 0 + 1
              ≡ suc (suc (length body)) =
            omega (arith, length-append body tail) in
          e)
      ∙ ap (λ (l : List ℕ). slave ∷ function ∷ l) (take-append (length body) body tail refl)

  -- The body of a frame, as the proxy takes it.
  taken :
      (b : Backend)
      → length tail ≡ checksum_length b
      → let frame = message b slave t n function (body ++ tail) in
        take
          (length frame - header_length b - checksum_length b - 1)
          (drop (header_length b + 1) frame)
        ≡ body
  taken rtu h =
      ap (λ (k : ℕ). take k (body ++ tail))
        (let e : length (message rtu slave t n function (body ++ tail)) - 1 - 2 - 1 ≡ length body =
            omega (arith, length-append body tail) in
          e)
      ∙ take-append (length body) body tail refl
  taken tcp h =
      ap (λ (k : ℕ). take k (body ++ tail))
        (let e : length (message tcp slave t n function (body ++ tail)) - 7 - 0 - 1 ≡ length body =
            omega (arith, length-append body tail) in
          e)
      ∙ take-append (length body) body tail refl

-- The frame that goes back is the device's response in the framing of the frontend, under the
-- transaction of the frontend's request.
module _ (fb bb : Backend) (fctx bctx : Modbus) (t : ℕ) (ht : t < 65536) (slave n function : ℕ)
    (rest : List ℕ) (slave' t' n' function' : ℕ) (hs : slave' < 256) (hf : function' < 256)
    (body' tail' : List ℕ) (whole : length tail' ≡ checksum_length bb) where
  abbrev req : List ℕ
  req = message fb slave t n function rest

  abbrev rsp : List ℕ
  rsp = message bb slave' t' n' function' (body' ++ tail')

  abbrev wrapped : List ℕ
  wrapped =
      build_response_basis fb (record { slave = slave'; function = function'; t_id = carried fb t })
      ++ body'

  pub relay-wrapped : relay (over fb fctx) (over bb bctx) req rsp (length rsp) ≡ wrapped
  unfolding relay
  relay-wrapped =
      rw
        (
          slave-message slave' t' n' function' (body' ++ tail') bb,
          function-message slave' t' n' function' (body' ++ tail') bb,
          tid-message slave t n function rest fb ht,
          taken slave' t' n' function' body' tail' bb whole,
        )
        refl
