-- ===== src/Main/Startup/Program.antt =====
-- The whole program of main.c: its start, and the main loop behind it.
use dewlock.Base.{ℕ, ◌≡◌, refl, sym, subst, ap, ◌∙◌, List, [], ◌∷◌, ◌++◌, All, if_true}
use dewlock.Result.{is_ok}
use dewlock.Loop.{Loop, FdCallback, loop_create, loop_add_fd}
use dewlock.State.{State}
use dewlock.Main.{Round, Outcome, main_loop, cleanup}
use dewlock.Main.Daemonize.{returns, quits, Daemonized, Detaches, daemonize}
use dewlock.Main.Steps.Core.{Slots}
use dewlock.Main.Unlock.Keeps.{Any, Keeps, kept_eq, Moves-Keeps, clk_schedule_timer-Keeps}
use dewlock.Main.Unlock.Replies.{AllZero}
use dewlock.Main.Unlock.Rounds.{IsQuiet, StaysLocked, main_loop-StaysLocked}
use dewlock.Main.Startup.{
  World, Started, ended, stuck, waiting, failed, entered, add_fds, enter_loop, on_daemonized, start,
}
use dewlock.Main.Startup.Keys.{Any-world}
use dewlock.Main.Startup.Traversal.{given, Begins, Carries, start-Good}

-- How the program ends: before its main loop, or in it.
pub data Program : Type 0 where
  no_loop : Started → Program
  in_loop : Outcome → Program

-- `main`, over the rounds of its loop to come.
unfoldable pub program : List Round → Started → Program
unfolding cleanup
program rs (ended status) = no_loop (ended status)
program rs stuck = no_loop stuck
program rs (waiting s) = no_loop (waiting s)
program rs (failed s res) = in_loop (cleanup s res)
program rs (entered s) = in_loop (main_loop rs s)

-- The program has not unlocked the session.
abbrev pub NeverUnlocks : Program → Type 0
NeverUnlocks (no_loop st) = Unit
NeverUnlocks (in_loop o) = StaysLocked o

-- No descriptor is registered, and no reply will say yes.
record IsFresh (s : State) : Type 0 where
  callbacks : s.eventloop.fd_events ≡ []
  replies : AllZero s.os.replies

Safe : List Round → Started → Type 0
Safe rs st = NeverUnlocks (program rs st)

module _ (rs : List Round) (w : World) (s : State) (quiet : All IsQuiet rs)
    (detaches : Detaches (daemonize w.side)) (unused : AllZero s.os.replies) where
  Begins-IsFresh : (t : State) → Begins w (given s) t → IsFresh t
  unfolding loop_create
  Begins-IsFresh t b = record {
    callbacks = ap (λ (l : Loop). l.fd_events) b.loop;
    replies = subst (λ (g : Slots × List ℕ). AllZero g.1) (sym b.begun) unused;
  }

  Keeps-IsFresh : {t u : State} → Keeps t u → IsFresh t → IsFresh u
  Keeps-IsFresh k f = record {
    callbacks = ap (λ q. q.2) (kept_eq k) ∙ f.callbacks;
    replies = rw (ap (λ q. q.3) (kept_eq k)) f.replies;
  }

  enter_loop-Safe : (t : State) → IsFresh t → Safe rs (entered (enter_loop w t))
  unfolding Safe program enter_loop loop_add_fd
  enter_loop-Safe t f =
      let k = clk_schedule_timer-Keeps (add_fds w t) in
      main_loop-StaysLocked rs {fds = (enter_loop w t).eventloop.fds} (enter_loop w t) quiet
        (record {
          array = refl;
          run = refl;
          callbacks =
              ap (λ q. q.2) (kept_eq k)
              ∙ ap
                  (λ t.
                    ((t ++ FdCallback.display_in ∷ []) ++ FdCallback.reply_in ∷ [])
                    ++ FdCallback.term_in ∷ [])
                  f.callbacks;
          replies = rw (ap (λ q. q.3) (kept_eq k)) f.replies;
        })

  on_daemonized-Safe :
      (d : Daemonized) (t : State) → Detaches d → IsFresh t → Safe rs (on_daemonized w t d)
  unfolding on_daemonized Safe program
  on_daemonized-Safe (quits status) t h f = tt
  on_daemonized-Safe (returns res) t h f = if_true (Safe rs) (is_ok res) _ _ h (enter_loop-Safe t f)

  Safe-Carries : Carries Any w (given s) IsFresh (Safe rs)
  unfolding Safe program
  Safe-Carries = record {
    begins = Begins-IsFresh;
    moves = λ m. Keeps-IsFresh (Moves-Keeps m);
    ends = λ status. tt;
    sticks = tt;
    waits = λ t f. tt;
    enters = enter_loop-Safe;
    daemonizes = λ t. on_daemonized-Safe (daemonize w.side) t detaches;
  }

-- From the first line of `main` on, whatever the command line, the configuration and the answers of the
-- system are, and whatever keys, events and timers there are, the program never unlocks the session, if
-- every byte that the authentication child sends is 0, the process detaches without a failure, and
-- in the rounds of the main loop the display and `poll` work and no SIGUSR1 arrives.
pub program-NeverUnlocks :
    (rs : List Round) (w : World) (s : State)
    → All IsQuiet rs
    → Detaches (daemonize w.side)
    → AllZero s.os.replies
    → NeverUnlocks (program rs (start w s))
unfolding Safe
program-NeverUnlocks rs w s quiet detaches z =
    start-Good (Safe-Carries rs w s quiet detaches z) (Any-world w) s refl
