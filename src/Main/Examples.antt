-- ===== src/Main/Examples.antt =====
-- The theorems on main.c at a small locker.
use dewlock.Base.{◌⊎◌, ◌≡◌, refl, true, false, some, [], ◌∷◌}
use dewlock.Base.Int.{pos}
use dewlock.Result.{err_loop_poll}
use dewlock.Auth.{interrupted}
use dewlock.Loop.{no_events, Timer, Timespec, Callback}
use dewlock.State.{State, remove_if_set}
use dewlock.Clock.{clk_cancel_timer}
use dewlock.Main.{
  Round, exits, running, unlocked, polled, main_loop, find_timer, free_timer, visit_timer,
}
use dewlock.Main.Unlock.Replies.{IsLocked}
use dewlock.Main.Unlock.Rounds.{IsQuiet}
use dewlock.Main.Endings.{main_loop-poll_failure}
use dewlock.Main.Timers.{visit_timer-remove_if_set}
use dewlock.Samples.{input, sample_loop, sample_state, sample_round}

abbrev armed_timer : Timer
armed_timer = record {
  addr = 7;
  callback = Callback.clear_password;
  expiry = record { tv_sec = pos 10; tv_nsec = pos 0 };
  removed = false;
}

abbrev armed_state : State
armed_state = record sample_state { eventloop = record sample_loop { timers = armed_timer ∷ [] } }

abbrev late : Timespec
late = record { tv_sec = pos 20; tv_nsec = pos 0 }

visit_timer-remove_if_set_example :
    visit_timer late 7 (remove_if_set armed_state (some 7))
    ≡ free_timer 7 (remove_if_set armed_state (some 7))
unfolding find_timer
visit_timer-remove_if_set_example = visit_timer-remove_if_set late 7 armed_state armed_timer refl

abbrev accepted_state : State
accepted_state = record sample_state {
  os = record (sample_state.os) { reads = interrupted ∷ []; replies = 1 ∷ [] };
  eventloop = record sample_loop { timers = armed_timer ∷ [] };
}

abbrev reply_round : Round
reply_round = record sample_round { revents = no_events ∷ input ∷ no_events ∷ [] }

sample_round-IsQuiet : IsQuiet sample_round
sample_round-IsQuiet = record { flushes = refl; polls = refl; dispatches = refl; no_signal = refl }

sample_state-IsLocked : IsLocked sample_loop.fds sample_state
sample_state-IsLocked = record {
  array = refl;
  run = refl;
  callbacks = refl;
  replies = (refl, (refl, tt));
}

abbrev failing_round : Round
failing_round = record sample_round { poll_fails = true }

-- A key, a configuration, a frame and a wrong attempt come first.
main_loop-poll_failure_example :
    ((t : State) × (main_loop (sample_round ∷ []) sample_state ≡ exits t)
      × (main_loop (sample_round ∷ failing_round ∷ []) sample_state ≡ exits t))
    ⊎ ((t : State) × (main_loop (sample_round ∷ []) sample_state ≡ running t)
        × (main_loop (sample_round ∷ failing_round ∷ []) sample_state
            ≡ unlocked (clk_cancel_timer (polled failing_round t)) err_loop_poll))
main_loop-poll_failure_example =
    main_loop-poll_failure (sample_round ∷ []) failing_round [] sample_state
      (sample_round-IsQuiet, tt) sample_state-IsLocked refl refl refl
