-- ===== src/Main/Unlock/Rounds.antt =====
-- The main loop over rounds in which nothing fails, no SIGUSR1 arrives and every reply is 0.
use dewlock.Base.{
  ℕ, ◌+◌, ◌≡◌, refl, sym, ap, subst, true, false, some, List, [], ◌∷◌, arith, if◌then◌else◌, All,
  get_or, get_elem?, Option-cases, inl, inr, if_true, if_false, if_both,
}
use dewlock.Result.{Result, ok, is_ok}
use dewlock.Loop.{FdCallback, Mask, no_events, Pollfd, blank, Timer, Timespec}
use dewlock.State.{State}
use dewlock.Main.{
  Round, has_exited, call_fd, fires, dispatch_fds, find_timer, free_timer, visit_timer,
  visit_timers, dispatch_listed, dispatch_timers, put_revents, polled, loop_poll, Outcome, running,
  exits, unlocked, main_loop,
}
use dewlock.Main.Unlock.Keeps.{Keeps, keeps, same, trans, Keeps-if, call_timer-Keeps}
use dewlock.Main.Unlock.Replies.{
  IsLocked, IsLocked-if, Keeps-IsLocked, display_in-Keeps, reply_in-IsLocked,
}

-- One turn of the loop over the descriptors.
dispatch_step :
    {fds : List Pollfd} (r : Round) (c : FdCallback) (cs : List FdCallback) (i : ℕ) (s : State)
    → IsLocked fds (
        if fires (get_or s.eventloop.fds i blank)
        then call_fd r c (get_or s.eventloop.fds i blank).revents s
        else s)
    → ((t : State) → IsLocked fds t → IsLocked fds (dispatch_fds r cs (i + 1) t))
    → IsLocked fds (dispatch_fds r (c ∷ cs) i s)
unfolding dispatch_fds
dispatch_step r c cs i s l next = IsLocked-if _ l (next _ l)

dispatch_end :
    {fds : List Pollfd} (r : Round) (i : ℕ) (s : State)
    → IsLocked fds s
    → IsLocked fds (dispatch_fds r [] i s)
unfolding dispatch_fds
dispatch_end r i s l = l

-- Nothing reaches the end of the pipe that SIGUSR1 writes to.
abbrev NoSignal : List Pollfd → Type 0
NoSignal fds = fires (get_or fds 2 blank) ≡ false

dispatch_three-IsLocked :
    {fds : List Pollfd} (r : Round) (s : State)
    → r.dispatch_fails ≡ false
    → NoSignal fds
    → IsLocked fds s
    → IsLocked fds
        (dispatch_fds r (FdCallback.display_in ∷ FdCallback.reply_in ∷ FdCallback.term_in ∷ []) 0 s)
unfolding call_fd
dispatch_three-IsLocked {fds} r s works quiet l =
    dispatch_step r FdCallback.display_in _ 0 s
      (IsLocked-if _ (Keeps-IsLocked (display_in-Keeps r s works) l) l)
      λ t m.
        dispatch_step r FdCallback.reply_in _ 1 t (IsLocked-if _ (reply_in-IsLocked _ t m) m) λ u n.
          dispatch_step r FdCallback.term_in _ 2 u (rw (silent u n) n) λ v o. dispatch_end r 3 v o
  where
    silent : (u : State) → IsLocked fds u → fires (get_or u.eventloop.fds 2 blank) ≡ false
    silent u n = rw n.array quiet

free_timer-Keeps : (a : ℕ) (s : State) → Keeps s (free_timer a s)
unfolding free_timer
free_timer-Keeps a s = keeps refl

visit_timer-Keeps : (now : Timespec) (a : ℕ) (s : State) → Keeps s (visit_timer now a s)
unfolding visit_timer
visit_timer-Keeps now a s = elim (Option-cases (find_timer a s.eventloop.timers)) [
  | inl e ↦ rw (e, visit_timer) same
  | inr (t, e) ↦
      rw (e, visit_timer)
        (Keeps-if t.removed (free_timer-Keeps a s)
          (Keeps-if _ (trans (call_timer-Keeps t.callback s) (free_timer-Keeps a _)) same))
]

visit_timers-Keeps :
    (now : Timespec) (addrs : List ℕ) (s : State) → Keeps s (visit_timers now addrs s)
unfolding visit_timers
visit_timers-Keeps now [] s = same
visit_timers-Keeps now (a ∷ later) s =
    Keeps-if _ (visit_timer-Keeps now a s)
      (trans (visit_timer-Keeps now a s) (visit_timers-Keeps now later _))

dispatch_listed-Keeps : (s : State) (ts : List Timer) → Keeps s (dispatch_listed s ts)
unfolding dispatch_listed
dispatch_listed-Keeps s [] = same
dispatch_listed-Keeps s (t ∷ ts) = trans (keeps refl) (visit_timers-Keeps _ _ _)

pub dispatch_timers-Keeps : (s : State) → Keeps s (dispatch_timers s)
unfolding dispatch_timers
dispatch_timers-Keeps s = dispatch_listed-Keeps s s.eventloop.timers

-- A round in which the display and `poll` work, and nobody has sent SIGUSR1.
pub record IsQuiet (r : Round) : Type 0 where
  pub flushes : r.flush_fails ≡ false
  pub polls : r.poll_fails ≡ false
  pub dispatches : r.dispatch_fails ≡ false
  pub no_signal : get_elem? r.revents 2 ≡ some no_events

quiet-NoSignal :
    (fds : List Pollfd) (ms : List Mask)
    → get_elem? ms 2 ≡ some no_events
    → NoSignal (put_revents fds ms)
quiet-NoSignal fds [] h = cc
quiet-NoSignal fds (a ∷ []) h = cc
quiet-NoSignal fds (a ∷ b ∷ []) h = cc
quiet-NoSignal [] (a ∷ b ∷ c ∷ ms) h = refl
quiet-NoSignal (p ∷ []) (a ∷ b ∷ c ∷ ms) h = refl
quiet-NoSignal (p ∷ q ∷ []) (a ∷ b ∷ c ∷ ms) h = refl
quiet-NoSignal (p ∷ q ∷ x ∷ fds) (a ∷ b ∷ c ∷ ms) h = ground arith

pub loop_poll-IsLocked :
    {fds : List Pollfd} (r : Round) (s : State)
    → IsQuiet r
    → IsLocked fds s
    → IsLocked (put_revents fds r.revents) (loop_poll r s).0
unfolding loop_poll
loop_poll-IsLocked {fds} r s q l =
    if_false (λ (t : State × Result). IsLocked (put_revents fds r.revents) t.0) r.poll_fails _ _
      q.polls (IsLocked-if _ dispatched (Keeps-IsLocked (dispatch_timers-Keeps _) dispatched))
  where
    start : IsLocked (put_revents fds r.revents) (polled r s)
    start = record {
      array = ap (λ f. put_revents f r.revents) l.array;
      run = l.run;
      callbacks = l.callbacks;
      replies = l.replies;
    }

    dispatched :
        IsLocked (put_revents fds r.revents) (dispatch_fds r s.eventloop.fd_events 0 (polled r s))
    dispatched =
        subst (λ cs. IsLocked (put_revents fds r.revents) (dispatch_fds r cs 0 (polled r s)))
          (sym l.callbacks)
          (dispatch_three-IsLocked r (polled r s) q.dispatches
            (quiet-NoSignal fds r.revents q.no_signal) start)

pub loop_poll-ok : (r : Round) (s : State) → r.poll_fails ≡ false → (loop_poll r s).1 ≡ ok
unfolding loop_poll
loop_poll-ok r s h = if_false (λ (t : State × Result). t.1 ≡ ok) r.poll_fails _ _ h refl

-- The program did not reach the clean-up, which unlocks the session.
abbrev pub StaysLocked : Outcome → Type 0
StaysLocked (running s) = s.run_display ≡ true
StaysLocked (exits s) = Unit
StaysLocked (unlocked s r) = ⊥

-- From a state in which the main loop runs, whatever keys, events and timers there are, rounds in
-- which the display and `poll` work and no SIGUSR1 arrives never unlock the session, as long as every
-- byte that the authentication child sends is 0. The loop goes on, or the program exits with the
-- session locked.
pub main_loop-StaysLocked :
    (rs : List Round) {fds : List Pollfd} (s : State)
    → All IsQuiet rs
    → IsLocked fds s
    → StaysLocked (main_loop rs s)
unfolding main_loop
main_loop-StaysLocked [] s q l = if_true StaysLocked s.run_display _ _ l.run l.run
main_loop-StaysLocked (r ∷ rs) s q l = if_true StaysLocked s.run_display _ _ l.run (
    if_false StaysLocked r.flush_fails _ _ q.0.flushes (
      if_both StaysLocked (has_exited (loop_poll r s).0) _ _ tt (
        if_true StaysLocked (is_ok (loop_poll r s).1) _ _ (ap is_ok (loop_poll-ok r s q.0.polls))
          (main_loop-StaysLocked rs _ q.1 (loop_poll-IsLocked r s q.0 l)))))
