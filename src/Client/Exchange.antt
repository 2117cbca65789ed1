-- ===== src/Client/Exchange.antt =====
-- One exchange of a client that is answered: the response comes in one piece, and nothing else.
use libmodbus.Base.{
  ℕ, ◌≤◌, ◌<◌, ◌≡◌, refl, ap, ◌∙◌, arith, ℤ, pos, negsuc, Bool, true, false, leb, ltb, ==_iff,
  if◌then◌else◌, List, [], ◌∷◌, ◌++◌, length, take-all, append-nil,
}
use libmodbus.Context.{
  Modbus, Errno, transmit, ok, err, Run, ◌>>=◌, confirmation, has_flag, recovery_link,
}
use libmodbus.Backend.{max_adu_length, send_msg_pre, check_integrity}
use libmodbus.Send.{sends, send_loop, send_msg}
use libmodbus.Receive.{Event, bytes, receive_loop, receive_fuel, initial, receive_msg}
use libmodbus.Receive.Framing.{frame_length, receive_loop_framed}
use libmodbus.Confirm.{check_confirmation}
use libmodbus.Client.{confirm, exchange}

opened {ℓ} :
    {A : Type ℓ} (s : ℤ) (k : ℕ) (x y z : A)
    → s ≡ pos k
    → k < 1024
    → (elim s as (λ s. A) [ negsuc n ↦ x | pos n ↦ if leb 1024 n then y else z ]) ≡ z
opened s k x y z e h = let low : leb 1024 k ≡ false = ground arith in rw (e, low) refl

module _ (ctx : Modbus) (errno : Errno) (k : ℕ) (e : ctx.s ≡ pos k) (h : k < 1024) where
  -- The response is received whole.
  pub receive_msg-ok :
      (rsp : List ℕ)
      → 0 < length rsp
      → frame_length ctx.backend confirmation rsp ≡ length rsp
      → length rsp ≤ max_adu_length ctx.backend
      → check_integrity ctx rsp (length rsp) ≡ ([], ok (length rsp))
      → (receive_msg ctx confirmation errno (bytes rsp ∷ [])).1 ≡ ([], ok (rsp, length rsp))
  unfolding receive_msg
  receive_msg-ok rsp some_rsp framed short intact =
      ap (λ (r : List Event × Run (List ℕ × ℕ)). r.1) (opened ctx.s k _ _ _ e h)
      ∙ ap (λ (run : Run (List ℕ)). run >>= checked) received
      ∙ rw intact refl
    where
      link : Bool
      link = has_flag ctx.error_recovery recovery_link

      checked : List ℕ → Run (List ℕ × ℕ)
      checked msg = check_integrity ctx msg (length msg) >>= λ rc. ([], ok (msg, rc))

      loop : List Event × Run (List ℕ)
      loop =
          receive_loop receive_fuel ctx.backend confirmation link (initial ctx.backend)
            (bytes rsp ∷ [])

      received : loop.1 ≡ ([], ok rsp)
      received =
          let whole : rsp ++ [] ≡ rsp = append-nil rsp in
          (receive_loop_framed ctx.backend confirmation link (rsp ∷ []) (some_rsp, tt)
            (rw (whole, framed) short) (rw (whole, framed) (omega arith))).0
          ∙ rw (whole, framed, take-all (length rsp) rsp (omega arith)) refl

  -- A request that is sent whole and answered: the call returns what the check makes of it.
  exchange-whole :
      (req rsp : List ℕ) (use_rsp : List ℕ → ℕ → List ℕ)
      → 0 < length (send_msg_pre ctx.backend req)
      → 0 < length rsp
      → frame_length ctx.backend confirmation rsp ≡ length rsp
      → length rsp ≤ max_adu_length ctx.backend
      → check_integrity ctx rsp (length rsp) ≡ ([], ok (length rsp))
      → let frame = send_msg_pre ctx.backend req in
        let sent : Run ℕ = (transmit frame ∷ [], ok (length frame)) in
        exchange ctx errno req (sends (length frame) ∷ []) (bytes rsp ∷ []) use_rsp ≡ (
          sent >>= λ n. check_confirmation ctx req rsp (length rsp) >>= λ count.
          ([], ok (count, use_rsp rsp count)))
  unfolding exchange confirm send_msg send_loop
  exchange-whole req rsp use_rsp some_req some_rsp framed short intact =
      let n : ℕ = length (send_msg_pre ctx.backend req) in
      let positive : ltb 0 n ≡ true = ground arith in
      rw (positive, (==_iff n n).1 refl, receive_msg-ok rsp some_rsp framed short intact, positive)
        refl

  module _ (req rsp : List ℕ) (use_rsp : List ℕ → ℕ → List ℕ)
      (some_req : 0 < length (send_msg_pre ctx.backend req)) (some_rsp : 0 < length rsp)
      (framed : frame_length ctx.backend confirmation rsp ≡ length rsp)
      (short : length rsp ≤ max_adu_length ctx.backend)
      (intact : check_integrity ctx rsp (length rsp) ≡ ([], ok (length rsp))) where
    -- The client accepts the response.
    pub exchange-ok :
        (count : ℕ)
        → check_confirmation ctx req rsp (length rsp) ≡ ([], ok count)
        → let frame = send_msg_pre ctx.backend req in
          exchange ctx errno req (sends (length frame) ∷ []) (bytes rsp ∷ []) use_rsp
          ≡ (transmit frame ∷ [], ok (count, use_rsp rsp count))
    exchange-ok count accepted =
        exchange-whole req rsp use_rsp some_req some_rsp framed short intact ∙ rw accepted refl

    -- The client finds an error in it.
    pub exchange-err :
        (e : Errno)
        → check_confirmation ctx req rsp (length rsp) ≡ ([], err e)
        → let frame = send_msg_pre ctx.backend req in
          exchange ctx errno req (sends (length frame) ∷ []) (bytes rsp ∷ []) use_rsp
          ≡ (transmit frame ∷ [], err e)
    exchange-err e refused =
        exchange-whole req rsp use_rsp some_req some_rsp framed short intact ∙ rw refused refl
