-- ===== src/Main/Session/Turns.antt =====
-- The inputs of a session that change whether the state says that a password is being checked: a key that submits, and a reply
-- that says no.
use dewlock.Base.{
  ℕ, ◌≡◌, refl, ap, Bool, true, false, List, [], ◌∷◌, ◌++◌, arith, if_true, if_false, if_both, ◌==◌,
  get_or,
}
use dewlock.Result.{ok, is_ok}
use dewlock.Keysym.{Keysym, kp_enter, return, key_m, key_d, key_j}
use dewlock.Auth.{Reply, read_full, auth_read_reply, auth_write_request}
use dewlock.Auth.Complete.{NoFailure, Gets, read_full-Gets}
use dewlock.Auth.RoundTrip.{message, auth_write_request-message}
use dewlock.Render.{is_validating, validating, pristine}
use dewlock.State.{State, damage_state, add_timer, remove_if_set}
use dewlock.Password.{
  cancel_input_idle, cancel_password_clear, pwd_schedule_auth_idle, send_request, submit_password,
  submit_key, dispatch,
}
use dewlock.Password.Text.{text, Holds, Holds-cap}
use dewlock.Main.{reply_in}
use dewlock.Main.Session.{submits, step_state, denial}

-- What a turn leaves: the state says that a password is being checked or not, these requests were sent, and no call on the pipes
-- that follows fails.
pub record Turns (waits : Bool) (requests : List ℕ) (s t : State) : Type 0 where
  pub waiting : is_validating t.auth_state ≡ waits
  pub sent : t.os.requests ≡ requests
  pub writes : NoFailure t.os.writes
  pub reads : NoFailure t.os.reads
  pub control : t.xkb.control ≡ s.xkb.control

pub dispatch-submit_password :
    (k : Keysym) (s : State) (c : ℕ)
    → submits s.xkb.control k ≡ true
    → dispatch k s c ≡ submit_password s
unfolding dispatch submit_key
dispatch-submit_password kp_enter s c e = refl
dispatch-submit_password return s c e = refl
dispatch-submit_password key_m s c e = if_true (λ t. t ≡ submit_password s) s.xkb.control _ _ e refl
dispatch-submit_password key_d s c e = if_true (λ t. t ≡ submit_password s) s.xkb.control _ _ e refl
dispatch-submit_password key_j s c e = if_true (λ t. t ≡ submit_password s) s.xkb.control _ _ e refl
dispatch-submit_password other_key s c e = cc

-- A reply changes nothing of the password.
pub denial-password : (s : State) → (step_state denial s).password ≡ s.password
unfolding step_state reply_in pwd_schedule_auth_idle add_timer remove_if_set damage_state
denial-password s =
    if_both Same (is_ok reply.result) _ _ (if_both Same reply.success _ _ refl refl) refl
  where
    reply : Reply
    reply = auth_read_reply s.os.reads (0 ∷ [])

    Same : State → Type 0
    Same t = t.password ≡ s.password

module _ (s : State) {cs : List ℕ} (h : Holds s.password cs) (writes : NoFailure s.os.writes)
    (reads : NoFailure s.os.reads) where
  open h use {rest, contents, len, small}

  written :
      let r = auth_write_request s.os.writes s.password s.os.requests in
      (r.result ≡ ok) × (r.sent ≡ s.os.requests ++ message (text cs)) × NoFailure r.script
  written =
      auth_write_request-message s.os.writes s.password (text cs) rest s.os.requests writes contents
        len (omega (arith, Holds-cap h, small))

  -- The state behind the request, which could be written.
  abbrev pub behind_request : State
  behind_request =
      (send_request (
        cancel_input_idle
          (cancel_password_clear (record s { input_state = pristine; auth_state = validating })))).0

  module _ (ready : is_validating s.auth_state ≡ false) where
    pub submitted : (P : State → Type 0) → P (damage_state behind_request) → P (submit_password s)
    unfolding submit_password send_request cancel_input_idle cancel_password_clear remove_if_set
    submitted P p =
        if_false P (is_validating s.auth_state) _ _ ready
          (if_true (λ t. P (damage_state t)) _ behind_request _ (ap is_ok written.0) p)

    pub submit_password-Turns :
        Turns true (s.os.requests ++ message (text cs)) s (submit_password s)
    unfolding send_request cancel_input_idle cancel_password_clear remove_if_set damage_state
    submit_password-Turns = submitted (Turns true (s.os.requests ++ message (text cs)) s) (record {
      waiting = refl;
      sent = written.1;
      writes = written.2;
      reads = reads;
      control = refl;
    })

    pub submit_password-auth_idle_timer : (submit_password s).auth_idle_timer ≡ s.auth_idle_timer
    unfolding send_request cancel_input_idle cancel_password_clear remove_if_set damage_state
    submit_password-auth_idle_timer = submitted (λ t. t.auth_idle_timer ≡ s.auth_idle_timer) refl

  -- Whether or not the idle timer was set.
  pub denial-Turns : Turns false s.os.requests s (step_state denial s)
  unfolding step_state reply_in auth_read_reply pwd_schedule_auth_idle add_timer remove_if_set
      damage_state
  denial-Turns =
      if_true (λ (t : State). Turns false s.os.requests s t) (is_ok reply.result) _ _
        (ap is_ok answered.0)
        (if_false (λ (t : State). Turns false s.os.requests s t) reply.success _ _ answered.1
          (record {
            waiting = refl;
            sent = refl;
            writes = writes;
            reads = answered.2;
            control = refl;
          }))
    where
      gets : Gets 1 [] (0 ∷ []) (read_full s.os.reads [] 1 (0 ∷ []))
      gets = read_full-Gets s.os.reads [] 1 (0 ∷ []) reads (omega arith)

      reply : Reply
      reply = auth_read_reply s.os.reads (0 ∷ [])

      answered : (reply.result ≡ ok) × (reply.success ≡ false) × NoFailure reply.script
      answered =
          rw (gets.amount, auth_read_reply)
            (
              refl,
              if_true (λ b. b ≡ false) (get_or (read_full s.os.reads [] 1 (0 ∷ [])).got 0 0 == 0) _
                  _ (ap (λ g. get_or g 0 0 == 0) gets.all) refl,
              gets.script,
            )
