-- ===== src/Main/Pointers/Moves.antt =====
-- The steps of the handlers keep the invariant of the pointers.
use dewlock.Base.{ℕ, ◌≡◌, sym, ap, subst, ◌∙◌, Option, none, some, Bool, true, false, List}
use dewlock.Loop.{Timer, Pollfd, FdCallback}
use dewlock.State.{State}
use dewlock.Main.{find_timer, free_timer}
use dewlock.Main.Steps.Core.{
  core, Slot, slot_of, Slots, slots_of, Core, pointer, put, Moves, stays, drops, arms, wipes,
  erases, types, tunes, adds,
}
use dewlock.Main.Steps.Callbacks.{Releases, empties, marks}
use dewlock.Main.Invariants.{IsInvariant}
use dewlock.Main.Unlock.Keeps.{Any, Any-seats}
use dewlock.Main.Pointers.Slots.{pointer-put_other, pointer-put-none, pointer-set, pointer-append}
use dewlock.Main.Pointers.Invariant.{IsTracked, Empties, alike-IsTracked}
use dewlock.Main.Pointers.Changes.{dropped-IsTracked}
use dewlock.Main.Pointers.Arming.{armed-IsTracked}
use dewlock.Main.Pointers.Firing.{
  fired-IsTracked, marked_fired-IsTracked, removed-IsTracked, freed-IsTracked,
}

abbrev InCore : Option ℕ → Core → Type 0
InCore ex c = IsTracked ex c.timers c.next_addr (λ k. pointer k c.slots)

-- In this state the pointers and the timers are tied, but for the timer whose callback is running.
pub data TiesBut (ex : Option ℕ) (s : State) : Type 0 where
  ties : InCore ex (core s) → TiesBut ex s

put-Empties : (k : Slot) (p : Slots) → Empties k (λ j. pointer j p) (λ j. pointer j (put k none p))
put-Empties k p = record {
  here = pointer-put-none k p;
  others = λ j ne. pointer-put_other j k none p ne;
}

in_core : {ex : Option ℕ} {s : State} {c : Core} → core s ≡ c → InCore ex c → TiesBut ex s
in_core {ex} e h = ties (subst (InCore ex) (sym e) h)

Moves-TiesBut :
    {Ok : ℕ → Type 0} {ex : Option ℕ} {s t : State} → Moves Ok s t → TiesBut ex s → TiesBut ex t
Moves-TiesBut (stays e) (ties h) = in_core e h
Moves-TiesBut {ex} {s} (drops k e) (ties h) =
    in_core e (dropped-IsTracked (put-Empties k (slots_of s)) h)
Moves-TiesBut {ex} {s} (arms cb o new before now e) (ties h) = in_core e (
    armed-IsTracked cb o new
      (record {
        before = before;
        now = ap (λ c. pointer (slot_of cb) c.slots) (sym e) ∙ now;
        others = λ j ne. pointer-put_other j (slot_of cb) _ (slots_of s) ne;
      })
      h)
Moves-TiesBut (wipes e) (ties h) = in_core e h
Moves-TiesBut (erases e) (ties h) = in_core e h
Moves-TiesBut (types c n ok e) (ties h) = in_core e h
Moves-TiesBut {ex} {s} (tunes i old seat g r ok e) (ties h) =
    in_core e (alike-IsTracked (λ k. pointer-set k (slots_of s) i old seat g r) h)
Moves-TiesBut {ex} {s} (adds e) (ties h) =
    in_core e (alike-IsTracked (λ k. pointer-append k (slots_of s)) h)
Moves-TiesBut (Moves.trans p q) h = Moves-TiesBut q (Moves-TiesBut p h)

Releases-TiesBut :
    {s u : State} (a : ℕ) (t : Timer)
    → find_timer a s.eventloop.timers ≡ some t
    → t.removed ≡ false
    → Releases (slot_of t.callback) s u
    → TiesBut none s
    → TiesBut (some a) u
Releases-TiesBut {s} a t f waits (empties e) (ties h) =
    in_core e (fired-IsTracked h a t f waits (put-Empties (slot_of t.callback) (slots_of s)))
Releases-TiesBut {s} a t f waits (marks e) (ties h) =
    in_core e (marked_fired-IsTracked h a t f waits (put-Empties (slot_of t.callback) (slots_of s)))

loops-TiesBut :
    {ex : Option ℕ} {s t : State} (k : Bool × List Pollfd × List FdCallback × List ℕ)
    → core t ≡ record (core s) { kept = k }
    → TiesBut ex s
    → TiesBut ex t
loops-TiesBut k e (ties h) = in_core e h

passes-TiesBut :
    {s : State} (a : ℕ) (t : Timer)
    → find_timer a s.eventloop.timers ≡ some t
    → t.removed ≡ true
    → TiesBut none s
    → TiesBut (some a) s
passes-TiesBut a t f r (ties h) = ties (removed-IsTracked h a t f r)

frees-TiesBut : {s : State} (a : ℕ) → TiesBut (some a) s → TiesBut none (free_timer a s)
unfolding free_timer
frees-TiesBut a (ties h) = ties (freed-IsTracked a h)

pub TiesBut-IsInvariant : IsInvariant Any TiesBut
TiesBut-IsInvariant = record {
  moves = Moves-TiesBut;
  loops = loops-TiesBut;
  codes = λ {ex} {s} h. Any-seats s.seats;
  releases = Releases-TiesBut;
  passes = passes-TiesBut;
  frees = frees-TiesBut;
}
