-- ===== src/Main/Unlock/Keeps.antt =====
-- The part of the state that decides whether the main loop goes on: `run_display`, the watched file
-- descriptors, and the replies to come. The steps of the handlers keep it.
use dewlock.Base.{ℕ, ◌≡◌, refl, ◌∙◌, ap, Bool, true, false, List, [], ◌∷◌, if◌then◌else◌, All}
use dewlock.Loop.{Callback, FdCallback, Pollfd}
use dewlock.State.{State, Seat, damage_state}
use dewlock.Password.{pwd_schedule_auth_idle}
use dewlock.Clock.{clk_schedule_timer}
use dewlock.Main.{Event, key, handle_events, call_timer}
use dewlock.Main.Steps.Core.{
  core, Slot, Core, Moves, stays, drops, arms, wipes, erases, types, tunes, adds, AreOk,
}
use dewlock.Main.Steps.Scheduling.{damage_state-Moves}
use dewlock.Main.Steps.Handlers.{pwd_schedule_auth_idle-Moves, clk_schedule_timer-Moves}
use dewlock.Main.Steps.Callbacks.{call_timer-Runs, Runs, Releases, empties, marks}
use dewlock.Main.Steps.Events.{KeyOk, handle_events-Moves}

abbrev pub kept : State → Bool × List Pollfd × List FdCallback × List ℕ
kept s = (core s).kept

pub data Keeps (s t : State) : Type 0 where
  keeps : kept t ≡ kept s → Keeps s t

pub same : {s : State} → Keeps s s
same = keeps refl

pub trans : {s t u : State} → Keeps s t → Keeps t u → Keeps s u
trans (keeps p) (keeps q) = keeps (q ∙ p)

pub kept_eq : {s t : State} → Keeps s t → kept t ≡ kept s
kept_eq (keeps p) = p

pub Keeps-if : (b : Bool) {s t u : State} → Keeps s t → Keeps s u → Keeps s (if b then t else u)
Keeps-if true p q = p
Keeps-if false p q = q

as_kept : {s t : State} {c : Core} → core t ≡ c → c.kept ≡ kept s → Keeps s t
as_kept p q = keeps (ap (λ c. c.kept) p ∙ q)

pub Moves-Keeps : {Ok : ℕ → Type 0} {s t : State} → Moves Ok s t → Keeps s t
Moves-Keeps (stays e) = as_kept e refl
Moves-Keeps (drops k e) = as_kept e refl
Moves-Keeps (arms cb o n u v e) = as_kept e refl
Moves-Keeps (wipes e) = as_kept e refl
Moves-Keeps (erases e) = as_kept e refl
Moves-Keeps (types c n ok e) = as_kept e refl
Moves-Keeps (tunes i a b g r ok e) = as_kept e refl
Moves-Keeps (adds e) = as_kept e refl
Moves-Keeps (Moves.trans p q) = trans (Moves-Keeps p) (Moves-Keeps q)

-- Any code point will do.
abbrev pub Any : ℕ → Type 0
Any c = Unit

pub Any-seats : (seats : List Seat) → AreOk Any seats
Any-seats [] = tt
Any-seats (x ∷ xs) = (tt, Any-seats xs)

pub Any-key : (e : Event) → KeyOk Any e
unfolding KeyOk
Any-key (key i press k c) = tt
Any-key _ = tt

pub Any-keys : (es : List Event) → All (KeyOk Any) es
Any-keys [] = tt
Any-keys (e ∷ es) = (Any-key e, Any-keys es)

pub damage_state-Keeps : (s : State) → Keeps s (damage_state s)
damage_state-Keeps s = Moves-Keeps {Ok = Any} (damage_state-Moves s)

pub pwd_schedule_auth_idle-Keeps : (s : State) → Keeps s (pwd_schedule_auth_idle s)
pwd_schedule_auth_idle-Keeps s = Moves-Keeps {Ok = Any} (pwd_schedule_auth_idle-Moves s)

pub clk_schedule_timer-Keeps : (s : State) → Keeps s (clk_schedule_timer s)
clk_schedule_timer-Keeps s = Moves-Keeps {Ok = Any} (clk_schedule_timer-Moves s)

pub handle_events-Keeps : (es : List Event) (s : State) → Keeps s (handle_events s es)
handle_events-Keeps es s = Moves-Keeps (handle_events-Moves es s (Any-keys es))

Releases-Keeps : {k : Slot} {s t : State} → Releases k s t → Keeps s t
Releases-Keeps (empties e) = as_kept e refl
Releases-Keeps (marks e) = as_kept e refl

pub call_timer-Keeps : (c : Callback) (s : State) → Keeps s (call_timer c s)
call_timer-Keeps c s =
    let r : Runs Any c s (call_timer c s) = call_timer-Runs c s (Any-seats s.seats) in
    trans (Releases-Keeps r.releases) (Moves-Keeps r.moves)
