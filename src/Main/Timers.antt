-- ===== src/Main/Timers.antt =====
-- What becomes of a timer in `loop_poll` of src/loop.c once `loop_remove_timer` has marked it.
use dewlock.Base.{ℕ, ◌≡◌, refl, ap, ◌∙◌, true, Option, none, some, List, [], ◌∷◌, arith}
use dewlock.Loop.{Timespec, Timer, mark_removed, loop_remove_timer}
use dewlock.State.{State, remove_if_set, without}
use dewlock.Main.{find_timer, free_timer, visit_timer}

abbrev pub marked : Option Timer → Option Timer
marked none = none
marked (some t) = some (record t { removed = true })

pub find_timer-mark_removed :
    (a : ℕ) (ts : List Timer) → find_timer a (mark_removed a ts) ≡ marked (find_timer a ts)
unfolding find_timer mark_removed
find_timer-mark_removed a [] = refl
find_timer-mark_removed a (t ∷ ts) = ground (arith, find_timer-mark_removed a ts)

visit_timer-marked :
    (now : Timespec) (a : ℕ) (s : State) (t : Timer)
    → find_timer a s.eventloop.timers ≡ some t
    → t.removed ≡ true
    → visit_timer now a s ≡ free_timer a s
unfolding visit_timer free_timer
visit_timer-marked now a s t e r = rw (visit_timer, e, r) refl

-- A timer that was removed while it was listed is freed at its turn, whatever the time is, and its
-- callback does not run.
pub visit_timer-remove_if_set :
    (now : Timespec) (a : ℕ) (s : State) (t : Timer)
    → find_timer a s.eventloop.timers ≡ some t
    → visit_timer now a (remove_if_set s (some a)) ≡ free_timer a (remove_if_set s (some a))
unfolding remove_if_set without loop_remove_timer
visit_timer-remove_if_set now a s t e =
    visit_timer-marked now a (remove_if_set s (some a)) (record t { removed = true })
      (find_timer-mark_removed a s.eventloop.timers ∙ ap marked e) refl
