-- ===== src/Main/Session/Refinement.antt =====
-- The handlers of the program do what the form of a session does, and the child checks the texts that
-- the form has sent.
use dewlock.Base.{
  ℕ, ◌<◌, ◌≡◌, refl, sym, ap, subst, ◌∙◌, Bool, true, false, List, [], ◌∷◌, ◌++◌, All, All-append,
  arith, length, if_true, if_false, if_cases, some, ◌&&◌, if◌then◌else◌,
}
use dewlock.SafeBuf.{Sbuf}
use dewlock.Unicode.Utf8.{max_char}
use dewlock.Keysym.{Keysym}
use dewlock.Auth.{Answer}
use dewlock.Auth.Complete.{NoFailure}
use dewlock.Auth.RoundTrip.{message}
use dewlock.Auth.Messages.{messages, messages-append, IsShort, HasMemory}
use dewlock.Render.{is_validating}
use dewlock.State.{State, damage_state}
use dewlock.Password
use dewlock.Password.{submit_password, dispatch, pwd_handle_key, pwd_schedule_auth_idle}
use dewlock.Password.Text.{text, Holds, Holds-cap, sbuf_clear-Holds}
use dewlock.Password.Keys.{after_key, dispatch-Holds, submit_password-clears}
use dewlock.AuthPam.{World, pam_success, is_success, auth_run}
use dewlock.AuthPam.Serving.{check_all, auth_run-check_all}
use dewlock.Main.Steps.Capacity.{sbuf_clear-cap, Moves-cap}
use dewlock.Main.Steps.Handlers.{pwd_handle_key-Moves}
use dewlock.Main.Unlock.Keeps.{Any}
use dewlock.Main.Session.{
  Input, press, denial, idle_timer, clear_timer, Form, submits, step_form, steps_form, step_state,
  steps_state,
}
use dewlock.Main.Session.Frames.{frame_eq, dispatch-Frames}
use dewlock.Main.Session.Turns.{
  dispatch-submit_password, submit_password-Turns, denial-Turns, denial-password,
}

-- The state stands for the form: its buffer holds the characters, its requests are the texts that were
-- sent, and no call on the pipes that follows fails.
pub record Shows (control : Bool) (cap : ℕ) (f : Form) (s : State) : Type 0 where
  pub holds : Holds s.password f.stack
  pub waiting : is_validating s.auth_state ≡ f.closed
  pub requests : s.os.requests ≡ messages f.sent
  pub writes : NoFailure s.os.writes
  pub reads : NoFailure s.os.reads
  pub held : s.xkb.control ≡ control
  pub room : s.password.cap ≡ cap
  pub short : All IsShort f.sent

-- A key types a code point that UTF-8 can encode.
unfoldable pub IsTypable : Input → Type 0
IsTypable (press k c) = c < max_char
IsTypable _ = Unit

module _ {control : Bool} {cap : ℕ} (f : Form) (s : State) (h : Shows control cap f s) where
  open h use {holds, waiting, requests, writes, reads, held, room, short}

  -- A key while the form is open.
  module _ (k : Keysym) (c : ℕ) (small : c < max_char)
      (ready : is_validating s.auth_state ≡ false) where
    handled : pwd_handle_key s k c ≡ dispatch k s c
    unfolding pwd_handle_key
    handled = if_false (λ t. t ≡ dispatch k s c) (is_validating s.auth_state) _ _ ready refl

    dispatch-cap : (dispatch k s c).password.cap ≡ cap
    dispatch-cap =
        ap (λ (t : State). t.password.cap) (sym handled)
        ∙ (Moves-cap {Ok = Any} (pwd_handle_key-Moves s k c tt) ∙ room)

    typed-Shows :
        submits s.xkb.control k ≡ false
        → Shows control cap
            (record f { stack = after_key control cap k c f.stack })
            (dispatch k s c)
    typed-Shows e =
        let q = frame_eq (dispatch-Frames k s c e) in
        record {
          holds =
              subst (λ n. Holds (dispatch k s c).password (after_key control n k c f.stack)) room
                (subst
                  (λ b. Holds (dispatch k s c).password (after_key b s.password.cap k c f.stack))
                  held (dispatch-Holds s holds k c ready small));
          waiting = ap (λ t. t.0) q ∙ waiting;
          requests = ap (λ t. t.1) q ∙ requests;
          writes = subst NoFailure (sym (ap (λ t. t.3) q)) writes;
          reads = subst NoFailure (sym (ap (λ t. t.4) q)) reads;
          held = ap (λ t. t.5) q ∙ held;
          room = dispatch-cap;
          short = short;
        }

    abbrev sent : Form
    sent = record { stack = []; closed = true; sent = f.sent ++ text f.stack ∷ [] }

    submitted-Shows : Shows control cap sent (submit_password s)
    submitted-Shows =
        let t = submit_password-Turns s holds writes reads ready in
        let cleared = submit_password-clears s ready in
        record {
          holds = subst (λ pw. Holds pw []) (sym cleared) (sbuf_clear-Holds holds);
          waiting = t.waiting;
          requests =
              t.sent
              ∙ (ap (λ r. r ++ message (text f.stack)) requests
                  ∙ sym (messages-append f.sent (text f.stack)));
          writes = t.writes;
          reads = t.reads;
          held = t.control ∙ held;
          room = ap (λ (pw : Sbuf). pw.cap) cleared ∙ (sbuf_clear-cap s.password ∙ room);
          short =
              All-append IsShort f.sent (text f.stack ∷ []) short
                (omega (arith, Holds-cap holds, holds.small), tt);
        }

    is_open : f.closed ≡ false
    is_open = sym waiting ∙ ready

    ready-Shows : Shows control cap (step_form control cap (press k c) f) (dispatch k s c)
    unfolding step_form
    ready-Shows =
        if_false (λ g. Shows control cap g (dispatch k s c)) f.closed _ _ is_open
          (if_cases (λ g. Shows control cap g (dispatch k s c)) (submits control k) _ _
            (λ e.
              subst (Shows control cap sent)
                (sym (dispatch-submit_password k s c (ap (λ b. submits b k) held ∙ e)))
                submitted-Shows)
            λ e. typed-Shows (ap (λ b. submits b k) held ∙ e))

  press-Shows :
      (k : Keysym) (c : ℕ)
      → c < max_char
      → Shows control cap (step_form control cap (press k c) f) (step_state (press k c) s)
  unfolding step_form step_state pwd_handle_key
  press-Shows k c small =
      if_cases (λ t. Shows control cap (step_form control cap (press k c) f) t)
        (is_validating s.auth_state) _ _
        (λ busy. if_true (λ g. Shows control cap g s) f.closed _ _ (sym waiting ∙ busy) h)
        λ ready. ready-Shows k c small ready

  denial-Shows : Shows control cap (step_form control cap denial f) (step_state denial s)
  unfolding step_form
  denial-Shows =
      let t = denial-Turns s holds writes reads in
      record {
        holds = subst (λ pw. Holds pw f.stack) (sym (denial-password s)) holds;
        waiting = t.waiting;
        requests = t.sent ∙ requests;
        writes = t.writes;
        reads = t.reads;
        held = t.control ∙ held;
        room = ap (λ (pw : Sbuf). pw.cap) (denial-password s) ∙ room;
        short = short;
      }

  step-Shows :
      (i : Input) → IsTypable i → Shows control cap (step_form control cap i f) (step_state i s)
  unfolding step_form step_state Password.set_auth_idle Password.clear_password damage_state
      IsTypable
  step-Shows (press k c) small = press-Shows k c small
  step-Shows denial small = denial-Shows
  step-Shows idle_timer small = record {
    holds = holds;
    waiting = refl;
    requests = requests;
    writes = writes;
    reads = reads;
    held = held;
    room = room;
    short = short;
  }
  step-Shows clear_timer small = record {
    holds = sbuf_clear-Holds holds;
    waiting = waiting;
    requests = requests;
    writes = writes;
    reads = reads;
    held = held;
    room = sbuf_clear-cap s.password ∙ room;
    short = short;
  }

-- From a state that stands for a form, any keys with Control held or not, replies that say no, and turns
-- of the two timers, in any order, lead to a state that stands for the form after them, while no call on the
-- pipes fails and each key types a code point that UTF-8 can encode. The form is closed to keys from a
-- submission on until a reply that says no or a turn of the idle timer, even one that comes before the reply.
pub steps_state-Shows :
    {control : Bool} {cap : ℕ} (is : List Input) (f : Form) (s : State)
    → All IsTypable is
    → Shows control cap f s
    → Shows control cap (steps_form control cap is f) (steps_state is s)
unfolding steps_form steps_state
steps_state-Shows [] f s ok h = h
steps_state-Shows (i ∷ is) f s ok h = steps_state-Shows is _ _ ok.1 (step-Shows f s h i ok.0)

-- The process of src/auth-pam.c, given the requests of such a session, checks the texts that the form
-- has sent, in their order: it answers 0 to every one that is refused, up to the first that is
-- accepted, which it answers with 1 and ends. Its user is known, PAM starts, no call on its pipes
-- fails, and the memory can be had and locked.
pub auth_run-session :
    {control : Bool} {cap : ℕ} (is : List Input) (f : Form) (s : State) (fuel : ℕ) (w : World)
    (reads writes : List Answer)
    → All IsTypable is
    → Shows control cap f s
    → HasMemory w.memory
    → NoFailure reads
    → NoFailure writes
    → length (steps_form control cap is f).sent < fuel
    → auth_run true true fuel w reads writes (steps_state is s).os.requests
      ≡ some (
          let (status, replies) = check_all w 0 pam_success (steps_form control cap is f).sent in
          record { exit = if w.pam_ends && is_success status then 0 else 1; sent = replies })
auth_run-session {control} {cap} is f s fuel w reads writes ok h mem q q' enough =
    let t = steps_state-Shows is f s ok h in
    ap (auth_run true true fuel w reads writes) t.requests
    ∙ auth_run-check_all fuel w reads writes (steps_form control cap is f).sent mem q q' t.short
        enough
