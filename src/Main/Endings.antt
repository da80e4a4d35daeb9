-- ===== src/Main/Endings.antt =====
-- How the main loop of main.c ends.
use dewlock.Base.{
  ◌≡◌, refl, ap, true, false, none, List, [], ◌∷◌, ◌++◌, arith, if_true, if_false, All, ◌⊎◌, inl,
  inr, Bool-cases,
}
use dewlock.Result.{Result, err_loop_poll, is_ok}
use dewlock.Loop.{Mask, Pollfd, FdCallback, no_events}
use dewlock.State.{State}
use dewlock.Clock.{clk_cancel_timer}
use dewlock.Main.{
  Round, Outcome, running, exits, unlocked, has_exited, loop_poll, polled, main_loop, cleanup,
  reply_in, term_in,
}
use dewlock.Main.Unlock.Replies.{IsLocked}
use dewlock.Main.Unlock.Rounds.{IsQuiet, loop_poll-IsLocked, loop_poll-ok}
use dewlock.Main.Startup.{pollin}

-- A round behind which the loop goes on.
main_loop-goes_on :
    (r : Round) (rs : List Round) (s : State)
    → s.run_display ≡ true
    → IsQuiet r
    → has_exited (loop_poll r s).0 ≡ false
    → main_loop (r ∷ rs) s ≡ main_loop rs (loop_poll r s).0
unfolding main_loop
main_loop-goes_on r rs s run q alive = if_true Same s.run_display _ _ run (
    if_false Same r.flush_fails _ _ q.flushes (
      if_false Same (has_exited (loop_poll r s).0) _ _ alive
        (if_true Same (is_ok (loop_poll r s).1) _ _ (ap is_ok (loop_poll-ok r s q.polls)) refl)))
  where
    Same : Outcome → Type 0
    Same o = o ≡ main_loop rs (loop_poll r s).0

-- And one in which the program exits.
main_loop-exits :
    (r : Round) (rs : List Round) (s : State)
    → s.run_display ≡ true
    → IsQuiet r
    → has_exited (loop_poll r s).0 ≡ true
    → main_loop (r ∷ rs) s ≡ exits (loop_poll r s).0
unfolding main_loop
main_loop-exits r rs s run q over = if_true Same s.run_display _ _ run (
    if_false Same r.flush_fails _ _ q.flushes
      (if_true Same (has_exited (loop_poll r s).0) _ _ over refl))
  where
    Same : Outcome → Type 0
    Same o = o ≡ exits (loop_poll r s).0

failed_poll :
    (r : Round) (later : List Round) (s : State)
    → s.run_display ≡ true
    → has_exited s ≡ false
    → r.flush_fails ≡ false
    → r.poll_fails ≡ true
    → main_loop (r ∷ later) s ≡ unlocked (clk_cancel_timer (polled r s)) err_loop_poll
unfolding main_loop loop_poll cleanup
failed_poll r later s run alive flush fails = ground arith

-- From a state in which nothing has exited, the main loop runs with its three descriptors and no reply says
-- yes: behind any quiet rounds either a handler has exited, with the session locked, or the loop goes on,
-- and then a failure of `poll` other than an interruption in the next round, in which the display is
-- flushed, ends it in the clean-up with ERR_LOOP_POLL: the session is unlocked though no password was
-- accepted.
pub main_loop-poll_failure :
    (rs : List Round) (r : Round) (later : List Round) {fds : List Pollfd} (s : State)
    → All IsQuiet rs
    → IsLocked fds s
    → has_exited s ≡ false
    → r.flush_fails ≡ false
    → r.poll_fails ≡ true
    → ((t : State) × (main_loop rs s ≡ exits t) × (main_loop (rs ++ r ∷ later) s ≡ exits t))
      ⊎ ((t : State) × (main_loop rs s ≡ running t)
          × (main_loop (rs ++ r ∷ later) s
              ≡ unlocked (clk_cancel_timer (polled r t)) err_loop_poll))
unfolding main_loop
main_loop-poll_failure [] r later s quiet l alive flush fails = inr (
  s,
  if_true (λ o. o ≡ running s) s.run_display _ _ l.run refl,
  failed_poll r later s l.run alive flush fails,
)
main_loop-poll_failure (q ∷ rs) r later s quiet l alive flush fails =
    elim (Bool-cases (has_exited (loop_poll q s).0)) [
      | inl over ↦ inl (
        (loop_poll q s).0,
        main_loop-exits q rs s l.run quiet.0 over,
        main_loop-exits q (rs ++ r ∷ later) s l.run quiet.0 over,
      )
      | inr goes_on ↦
          rw
            (
              main_loop-goes_on q rs s l.run quiet.0 goes_on,
              main_loop-goes_on q (rs ++ r ∷ later) s l.run quiet.0 goes_on,
            )
            (main_loop-poll_failure rs r later _ quiet.1 (loop_poll-IsLocked q s quiet.0 l) goes_on
              flush fails)
    ]

-- The loop has been told to stop, and nothing has exited.
abbrev Stops : State → Type 0
Stops s = (s.run_display ≡ false) × (s.exited ≡ none)

-- The main loop runs, and watches the pipe of the replies as the second of the descriptors that `main`
-- adds.
pub record Listens (s : State) : Type 0 where
  pub run : s.run_display ≡ true
  pub alive : s.exited ≡ none
  pub callbacks :
      s.eventloop.fd_events ≡ FdCallback.display_in ∷ FdCallback.reply_in ∷ FdCallback.term_in ∷ []
  pub display : Pollfd
  pub replies : Pollfd
  pub later : List Pollfd
  pub array : s.eventloop.fds ≡ display ∷ replies ∷ later
  pub watched : replies.events ≡ pollin

-- `poll` reports the pipe of the replies, and not the display.
pub record Reports (r : Round) : Type 0 where
  pub flushes : r.flush_fails ≡ false
  pub polls : r.poll_fails ≡ false
  pub others : List Mask
  pub revents : r.revents ≡ no_events ∷ pollin ∷ others
