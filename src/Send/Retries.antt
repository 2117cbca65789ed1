-- ===== src/Send/Retries.antt =====
-- What `send_msg` does when the line fails.
use libmodbus.Base.{
  ℕ, ◌≡◌, refl, sym, ap, ◌∙◌, true, false, ◌&&◌, ltb, ◌==◌, not, if◌then◌else◌, List, [], ◌∷◌, ◌++◌,
  length, append_assoc,
}
use libmodbus.Context.{
  Errno, einval, econnreset, etimedout, ebadf, epipe, econnrefused, enomem, einprogress, eintr,
  eoverflow, emb, os, Action, sleep, flush, close, connect, transmit, Result, ok, err, Modbus,
  has_flag, recovery_link, embbaddata,
}
use libmodbus.Backend.{send_msg_pre}
use libmodbus.Send.{SendOutcome, sends, fails, recover_send, send_loop, send_msg}

-- What each failure calls for: a connection that is gone is made anew, after a wait; on any other
-- failure the line is left to settle and what it holds is thrown away.
abbrev pub remedy : Errno → List Action
remedy ebadf = close ∷ sleep ∷ connect ∷ []
remedy econnreset = close ∷ sleep ∷ connect ∷ []
remedy epipe = close ∷ sleep ∷ connect ∷ []
remedy _ = sleep ∷ flush ∷ []

recover_send-eq-remedy : (e : Errno) → recover_send e ≡ remedy e
recover_send-eq-remedy einval = refl
recover_send-eq-remedy econnreset = refl
recover_send-eq-remedy etimedout = refl
recover_send-eq-remedy ebadf = refl
recover_send-eq-remedy epipe = refl
recover_send-eq-remedy econnrefused = refl
recover_send-eq-remedy enomem = refl
recover_send-eq-remedy einprogress = refl
recover_send-eq-remedy eintr = refl
recover_send-eq-remedy eoverflow = refl
recover_send-eq-remedy (emb n) = refl
recover_send-eq-remedy (os n) = refl

-- The actions for failed calls of `send`, in turn.
abbrev pub retries : List ℕ → List Errno → List Action
retries frame [] = []
retries frame (e ∷ es) = transmit frame ∷ remedy e ++ retries frame es

abbrev pub failed : List Errno → List SendOutcome
failed [] = []
failed (e ∷ es) = fails e ∷ failed es

-- What is made of the count that `send` returns.
abbrev pub verdict : List ℕ → ℕ → Result ℕ
verdict frame rc = if ltb 0 rc && not (rc == length frame) then err embbaddata else ok rc

send_loop-retries :
    (frame : List ℕ) (es : List Errno) (rc : ℕ) (rest : List SendOutcome)
    → send_loop true frame (failed es ++ sends rc ∷ rest)
      ≡ (retries frame es ++ transmit frame ∷ [], verdict frame rc)
unfolding send_loop
send_loop-retries frame [] rc rest = refl
send_loop-retries frame (e ∷ es) rc rest =
    rw (send_loop, send_loop-retries frame es rc rest)
      (ap (λ (l : List Action). (transmit frame ∷ l, verdict frame rc))
        (ap (λ (l : List Action). l ++ (retries frame es ++ transmit frame ∷ []))
            (recover_send-eq-remedy e)
          ∙ sym (append_assoc (remedy e) (retries frame es) (transmit frame ∷ []))))

abbrev pub first_of : List Errno → Result ℕ → Result ℕ
first_of [] r = r
first_of (e ∷ es) r = err e

send_loop-first :
    (frame : List ℕ) (es : List Errno) (rc : ℕ) (rest : List SendOutcome)
    → send_loop false frame (failed es ++ sends rc ∷ rest)
      ≡ (transmit frame ∷ [], first_of es (verdict frame rc))
unfolding send_loop
send_loop-first frame [] rc rest = refl
send_loop-first frame (e ∷ es) rc rest = refl

-- In link recovery, `send_msg` sends the same frame again after each failure until a call of `send`
-- succeeds. Before it does so, it closes the connection, waits and connects anew where `errno` is
-- EBADF, ECONNRESET or EPIPE, and waits and flushes where it is another. A count other than the
-- frame's length, and not 0, is EMBBADDATA. Without link recovery, the first call decides, and a
-- failure is returned after nothing but that call.
pub send_msg-retries :
    (ctx : Modbus) (msg : List ℕ) (es : List Errno) (rc : ℕ) (rest : List SendOutcome)
    → let frame = send_msg_pre ctx.backend msg in
      let run = send_msg ctx msg (failed es ++ sends rc ∷ rest) in
      (has_flag ctx.error_recovery recovery_link ≡ true
        → run ≡ (retries frame es ++ transmit frame ∷ [], verdict frame rc))
      × (has_flag ctx.error_recovery recovery_link ≡ false
          → run ≡ (transmit frame ∷ [], first_of es (verdict frame rc)))
unfolding send_msg
send_msg-retries ctx msg es rc rest = (
  λ e. rw e (send_loop-retries (send_msg_pre ctx.backend msg) es rc rest),
  λ e. rw e (send_loop-first (send_msg_pre ctx.backend msg) es rc rest),
)
