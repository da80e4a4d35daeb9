-- ===== src/Main/Globals.antt =====
-- `handle_global` of main.c: what the compositor announces when the program connects.
use dewlock.Base.{ℕ, Bool, true, false, ◌&&◌}
use dewlock.State.{State}
use dewlock.Seat.{add_seat}
use dewlock.Outputs.{add_output}

-- A global by its interface; an output with its name.
pub data Global : Type 0 where
  compositor subcompositor shm seat lock_manager unknown_global : Global
  output : ℕ → Global

-- The globals that are bound once: those of `state` that are not NULL.
pub record Bound : Type 0 where
  pub has_compositor : Bool
  pub has_subcompositor : Bool
  pub has_shm : Bool
  pub has_lock_manager : Bool

abbrev pub nothing_bound : Bound
nothing_bound = record {
  has_compositor = false;
  has_subcompositor = false;
  has_shm = false;
  has_lock_manager = false;
}

abbrev pub all_bound : Bound → Bool
all_bound b = b.has_compositor && (b.has_subcompositor && (b.has_shm && b.has_lock_manager))

unfoldable pub handle_global : State → Bound → Global → State × Bound
handle_global s b compositor = (s, record b { has_compositor = true })
handle_global s b subcompositor = (s, record b { has_subcompositor = true })
handle_global s b shm = (s, record b { has_shm = true })
handle_global s b seat = (add_seat s, b)
handle_global s b (output name) = (add_output s name, b)
handle_global s b lock_manager = (s, record b { has_lock_manager = true })
handle_global s b unknown_global = (s, b)
