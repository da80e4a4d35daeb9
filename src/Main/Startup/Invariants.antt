-- ===== src/Main/Startup/Invariants.antt =====
-- Invariants of the state from the start of the program on.
use dewlock.Base.{ℕ, ◌≡◌, refl, Option, none, List, All, if_both}
use dewlock.Result.{is_ok}
use dewlock.Loop.{loop_add_fd}
use dewlock.State.{State}
use dewlock.Main.{running, exits, unlocked, Round, cleanup}
use dewlock.Main.Daemonize.{returns, quits, Daemonized, daemonize}
use dewlock.Main.Steps.Core.{Slots}
use dewlock.Main.Steps.Handlers.{clk_schedule_timer-Moves}
use dewlock.Main.Invariants.{IsInvariant, KeysOk, InOutcome, main_loop-Inv, clk_cancel_timer-Inv}
use dewlock.Main.Startup.{
  World, Started, ended, stuck, waiting, failed, entered, add_fds, enter_loop, on_daemonized, start,
}
use dewlock.Main.Startup.Keys.{WorldOk}
use dewlock.Main.Startup.Traversal.{given, Begins, Carries, start-Good}
use dewlock.Main.Startup.Program.{Program, no_loop, in_loop, program}

-- Every state in which the program stops here, waits, or has its rounds used up.
abbrev pub InProgram : (State → Type 0) → Program → Type 0
InProgram P (no_loop (waiting s)) = P s
InProgram P (no_loop _) = Unit
InProgram P (in_loop o) = InOutcome P o

pub InProgram-map :
    {P Q : State → Type 0}
    → ((s : State) → P s → Q s)
    → (o : Program) → InProgram P o
    → InProgram Q o
InProgram-map f (no_loop (waiting s)) i = f s i
InProgram-map f (no_loop (ended status)) i = tt
InProgram-map f (no_loop stuck) i = tt
InProgram-map f (no_loop (failed s res)) i = tt
InProgram-map f (no_loop (entered s)) i = tt
InProgram-map f (in_loop (running s)) i = f s i
InProgram-map f (in_loop (exits s)) i = f s i
InProgram-map f (in_loop (unlocked s res)) i = f s i

module _ {Ok : ℕ → Type 0} {Inv : Option ℕ → State → Type 0} (h : IsInvariant Ok Inv)
    (rs : List Round) (keys : All (KeysOk Ok) rs) (w : World) (pressed : WorldOk Ok w)
    (g : Slots × List ℕ) (begin : (s : State) → Begins w g s → Inv none s) where
  open h use {moves, loops}

  -- The invariant in all that the program comes to.
  Good : Started → Type 0
  Good st = InProgram (Inv none) (program rs st)

  enter_loop-Good : (s : State) → Inv none s → Good (entered (enter_loop w s))
  unfolding Good program enter_loop loop_add_fd
  enter_loop-Good s i =
      main_loop-Inv h rs (enter_loop w s) keys
        (loops _ refl (moves (clk_schedule_timer-Moves (add_fds w s)) (loops _ refl i)))

  on_daemonized-Good : (d : Daemonized) (s : State) → Inv none s → Good (on_daemonized w s d)
  unfolding on_daemonized Good program cleanup
  on_daemonized-Good (quits status) s i = tt
  on_daemonized-Good (returns res) s i =
      if_both Good (is_ok res) _ _ (enter_loop-Good s i) (clk_cancel_timer-Inv h s i)

  invariant-Carries : Carries Ok w g (Inv none) Good
  unfolding Good program
  invariant-Carries = record {
    begins = begin;
    moves = moves;
    ends = λ status. tt;
    sticks = tt;
    waits = λ s i. i;
    enters = enter_loop-Good;
    daemonizes = on_daemonized-Good (daemonize w.side);
  }

  pub program-Inv : (s : State) → given s ≡ g → InProgram (Inv none) (program rs (start w s))
  unfolding Good
  program-Inv s e = start-Good invariant-Carries pressed s e
