-- ===== src/Main/Pointers/Program.antt =====
-- The pointers and the timers through a run of the whole program.
use dewlock.Base.{
  ℕ, ◌≡◌, refl, ap, sym, subst, ◌∙◌, ◌<◌, Bool-cases, inl, inr, none, some, false, List, [], ◌∷◌,
  All,
}
use dewlock.Loop.{Loop, Timer, loop_create}
use dewlock.State.{State}
use dewlock.Main.{Round, find_timer}
use dewlock.Main.Steps.Core.{
  Slot, input_idle, auth_idle, clear, clock, repeat, slot_of, Slots, slots_of, pointer,
}
use dewlock.Main.Invariants.{KeysOk}
use dewlock.Main.Unlock.Keeps.{Any, Any-keys}
use dewlock.Main.Pointers.Lists.{Distinct}
use dewlock.Main.Pointers.Invariant.{
  IsTracked, Points, Tracked, is_removed, is_firing, is_held, none-some, not_both,
}
use dewlock.Main.Pointers.Moves.{TiesBut, ties, TiesBut-IsInvariant}
use dewlock.Main.Startup.{World, start}
use dewlock.Main.Startup.Program.{program}
use dewlock.Main.Startup.Keys.{Any-world}
use dewlock.Main.Startup.Traversal.{Begins}
use dewlock.Main.Startup.Invariants.{InProgram, InProgram-map, program-Inv}

-- Every pointer to a timer that the state has is to a timer of the event loop's list, which was not
-- removed and runs the callback that the pointer is for; every listed timer that was not removed has
-- its pointer; no two have the same address, nor will the next one.
pub record IsTied (s : State) : Type 0 where
  pub fresh : All (λ t. t.addr < s.os.next_addr) s.eventloop.timers
  pub distinct : Distinct s.eventloop.timers
  pub points : (k : Slot) (a : ℕ) → pointer k (slots_of s) ≡ some a → Points k a s.eventloop.timers
  pub held :
      (a : ℕ) (t : Timer)
      → find_timer a s.eventloop.timers ≡ some t
      → t.removed ≡ false
      → pointer (slot_of t.callback) (slots_of s) ≡ some a

pub TiesBut-IsTied : (s : State) → TiesBut none s → IsTied s
TiesBut-IsTied s (ties h) = record {
  fresh = h.fresh;
  distinct = h.distinct;
  points = h.points;
  held = λ a t f waits. go a t waits (h.tracked a t f);
}
  where
    go :
        (a : ℕ) (t : Timer)
        → t.removed ≡ false
        → Tracked none (λ k. pointer k (slots_of s)) a t
        → pointer (slot_of t.callback) (slots_of s) ≡ some a
    go a t waits (is_removed r) = absurd (not_both t.removed r waits)
    go a t waits (is_firing r) = absurd (none-some a r)
    go a t waits (is_held r) = r

pub IsTied-TiesBut : (s : State) → IsTied s → TiesBut none s
IsTied-TiesBut s h = ties (record {
  fresh = h.fresh;
  distinct = h.distinct;
  points = h.points;
  tracked = track;
  released = λ a e. absurd (none-some a e);
})
  where
    track :
        (a : ℕ) (t : Timer)
        → find_timer a s.eventloop.timers ≡ some t
        → Tracked none (λ k. pointer k (slots_of s)) a t
    track a t f = elim (Bool-cases t.removed) [
      | inl r ↦ is_removed r
      | inr waits ↦ is_held (h.held a t f waits)
    ]

-- The slots of a state that is all zero.
abbrev pub no_pointers : Slots
no_pointers = record {
  input_idle_timer = none;
  auth_idle_timer = none;
  clear_password_timer = none;
  clock_timer = none;
  seats = [];
}

pointer-none : (k : Slot) → pointer k no_pointers ≡ none
unfolding pointer
pointer-none input_idle = refl
pointer-none auth_idle = refl
pointer-none clear = refl
pointer-none clock = refl
pointer-none (repeat i) = refl

pub no_timers : (n : ℕ) → IsTracked none loop_create.timers n (λ k. pointer k no_pointers)
unfolding loop_create Distinct find_timer
no_timers n = record {
  fresh = tt;
  distinct = tt;
  points = λ k a e. absurd (none-some a (sym (pointer-none k) ∙ e));
  tracked = λ a t f. absurd (none-some t f);
  released = λ a e. absurd (none-some a e);
}

begin :
    (w : World) (replies : List ℕ) (s : State) → Begins w (no_pointers, replies) s → TiesBut none s
begin w replies s b = ties (
    subst (λ p. IsTracked none s.eventloop.timers s.os.next_addr (λ k. pointer k p))
      (sym (ap (λ (g : Slots × List ℕ). g.0) b.begun))
      (subst (λ (l : Loop). IsTracked none l.timers s.os.next_addr (λ k. pointer k no_pointers))
        (sym b.loop) (no_timers s.os.next_addr)))

Any-rounds : (rs : List Round) → All (KeysOk Any) rs
Any-rounds [] = tt
Any-rounds (r ∷ rs) = (Any-keys r.events, Any-rounds rs)

-- The program starts with no pointer to a timer. Whatever the command line, the configuration, the
-- answers of the system, the keys, the events, the replies and the failures are, the pointers and the
-- timers are tied when the program waits for the compositor, when its rounds are used up, when a
-- callback has called `exit`, and behind the clean-up.
pub program-IsTied :
    (rs : List Round) (w : World) (s : State)
    → slots_of s ≡ no_pointers
    → InProgram IsTied (program rs (start w s))
program-IsTied rs w s e = InProgram-map TiesBut-IsTied _ (
    program-Inv TiesBut-IsInvariant rs (Any-rounds rs) w (Any-world w) (no_pointers, s.os.replies)
      (begin w s.os.replies) s (ap (λ (p : Slots). (p, s.os.replies)) e))
