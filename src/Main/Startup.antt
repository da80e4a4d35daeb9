-- ===== src/Main/Startup.antt =====
-- `main` of main.c up to its loop. What the calls answer is a `World`; the events that arrive while it
-- waits for the compositor go through the listeners.
pub mod Keys
pub mod Traversal
pub mod Program
pub mod Refusal
pub mod Invariants
mod Examples
use dewlock.Base.{
  ℕ, suc, ◌+◌, Bool, true, false, ◌&&◌, not, Option, none, some, List, [], ◌∷◌, map, if◌then◌else◌,
}
use dewlock.Base.Int.{ℤ, pos, negsuc}
use dewlock.Result.{Result, ok, is_ok}
use dewlock.SafeBuf.{Mlock, sbuf_create}
use dewlock.Loop.{Loop, Mask, FdCallback, loop_create, loop_add_fd}
use dewlock.State.{State, Image}
use dewlock.Outputs.{create_surface}
use dewlock.Clock.{clk_set_time, clk_schedule_timer}
use dewlock.Cli
use dewlock.Cli.{CliOpts, cli_opts, cli_parse}
use dewlock.Config.{Cfg}
use dewlock.Config.Load.{
  Outside, Loading, endless, loads, Found, nowhere, crashes, at, cfg_read, cfg_path,
}
use dewlock.Main.{Event, handle_events}
use dewlock.Main.Globals.{Global, Bound, nothing_bound, all_bound, handle_global}
use dewlock.Main.Daemonize.{Side, Daemonized, returns, quits, daemonize}

-- What the first roundtrip brings: globals, and events of what they are bound to.
pub data Announced : Type 0 where
  global : Global → Announced
  event : Event → Announced

-- The answers that the start meets. `surfaces_made` says that none of the three objects of a surface of the
-- outputs that are there at the start was NULL.
pub record World : Type 0 where
  pub options : List Cli.Answer
  pub pam_file : Cli.File
  pub auth_ready : Bool
  pub outside : Outside
  pub content : List ℕ → Option (List ℕ)
  pub cfg : Cfg
  pub allocated : Bool
  pub found : List ℕ
  pub locks : List Mlock
  pub lock_supported : Bool
  pub pipe_made : Bool
  pub nonblocking : Bool
  pub connects : Bool
  pub registry : Option (List Announced)
  pub configured : Option (List Event)
  pub surfaces_made : Bool
  pub dispatches : List (Option (List Event))
  pub notified : Bool
  pub side : Side
  pub display_fd : ℕ
  pub reply_fd : ℕ
  pub signal_fd : ℕ

-- How the start ends: in an exit with this status, in a call that does not return or crashes, in a wait
-- for the compositor, at the label `cleanup`, or in the main loop.
pub data Started : Type 0 where
  ended : (status : ℕ) → Started
  stuck : Started
  waiting : State → Started
  failed : State → Result → Started
  entered : State → Started

-- The listeners on some events; one of them may exit.
on_events : State → List Event → (State → Started) → Started
on_events s es go =
    let s' = handle_events s es in elim s'.exited [ none ↦ go s' | some status ↦ ended status ]

on_registry : State → Bound → List Announced → (State → Bound → Started) → Started
on_registry s b [] go = go s b
on_registry s b (global g ∷ later) go =
    let (s', b') = handle_global s b g in on_registry s' b' later go
on_registry s b (event e ∷ later) go = on_events s (e ∷ []) λ s'. on_registry s' b later go

on_first_roundtrip : State → Option (List Announced) → (State → Bound → Started) → Started
on_first_roundtrip s none go = ended 1
on_first_roundtrip s (some announced) go = on_registry s nothing_bound announced go

on_roundtrip : State → Option (List Event) → (State → Started) → Started
on_roundtrip s none go = ended 1
on_roundtrip s (some es) go = on_events s es go

-- `while (!state.locked)`
wait_locked : List (Option (List Event)) → State → (State → Started) → Started
wait_locked [] s go = if s.locked then go s else waiting s
wait_locked (none ∷ later) s go = if s.locked then go s else ended 2
wait_locked (some es ∷ later) s go =
    let further = on_events s es (λ s'. wait_locked later s' go) in
    if s.locked then go s else further

abbrev pub pollin : Mask
pollin = record { pollin = true; hup = false }

-- The descriptors of the main loop. Every `calloc` and `realloc` for them is taken to succeed; a failure
-- would leave a descriptor out.
abbrev pub add_fds : World → State → State
add_fds w s =
    let l₁ = loop_add_fd s.eventloop true w.display_fd pollin FdCallback.display_in in
    let l₂ = loop_add_fd l₁ true w.reply_fd pollin FdCallback.reply_in in
    record s { eventloop = loop_add_fd l₂ true w.signal_fd pollin FdCallback.term_in }

pub enter_loop : World → State → State
enter_loop w s = record (clk_schedule_timer (add_fds w s)) { run_display = true }

pub on_daemonized : World → State → Daemonized → Started
on_daemonized w s (returns res) =
    let start = entered (enter_loop w s) in if is_ok res then start else failed s res
on_daemonized w s (quits status) = ended status

-- `opts->daemonize && (result = daemonize()) != OK`
detach : World → CliOpts → State → Started
detach w opts s =
    let detached = on_daemonized w s (daemonize w.side) in
    if opts.daemonize then detached else entered (enter_loop w s)

-- `opts->ready_fd >= 0`
abbrev pub is_descriptor : ℤ → Bool
is_descriptor (pos n) = true
is_descriptor (negsuc n) = false

-- The readiness notification, which is sent once the session is locked.
notify : World → CliOpts → State → Started
notify w opts s = if is_descriptor opts.ready_fd && not w.notified then ended 2 else detach w opts s

abbrev pub create_surfaces : State → State
create_surfaces s = record s {
  screen = record (s.screen) { surfaces = map (create_surface s.images) s.screen.surfaces };
}

-- From the connection to the compositor on.
lock_session : World → CliOpts → State → Started
lock_session w opts s =
    on_first_roundtrip (record s { eventloop = loop_create }) w.registry
      λ s₁ bound.
        if all_bound bound
        then on_roundtrip s₁ w.configured (λ s₂.
          let waits = wait_locked w.dispatches (create_surfaces s₂) (notify w opts) in
          if w.surfaces_made then waits else ended 1)
        else ended 1

-- The configuration is read, the password has its buffer, the pipe of the signal is there.
prepare : World → CliOpts → State → Started
prepare w opts s =
    let made = sbuf_create s.password 1024 w.allocated w.found w.locks w.lock_supported in
    let locking = lock_session w opts (clk_set_time (record s { password = made.sbuf })) in
    if is_ok made.result
    then (if w.pipe_made && (w.nonblocking && w.connects) then locking else ended 1)
    else ended 1

-- Behind `cfg_read`, of which only the images are kept in the state.
on_loading : World → CliOpts → State → Loading → Started
on_loading w opts s endless = stuck
on_loading w opts s (loads cfg images) = prepare w opts (record s { images = images })

on_found : World → CliOpts → State → Found → Started
on_found w opts s nowhere = on_loading w opts s (cfg_read w.outside w.cfg none [])
on_found w opts s crashes = stuck
on_found w opts s (at path) = on_loading w opts s (cfg_read w.outside w.cfg (w.content path) [])

-- The configuration at the path of the options, or where it is found.
find_config : World → CliOpts → Option (List ℕ) → State → Started
find_config w opts none s = on_found w opts s (cfg_path w.outside)
find_config w opts (some path) s = on_found w opts s (at path)

-- Behind `cli_parse`.
on_parsed : World → State → Cli.Parsed → Started
on_parsed w s (Cli.exits status file) = ended status
on_parsed w s (Cli.returned res complaint opts) =
    let begun = find_config w opts opts.config (record s { failed_attempts = 0 }) in
    if is_ok res then (if w.auth_ready then begun else ended 1) else ended 1

-- `main` from its first line to the loop.
pub start : World → State → Started
unfolding on_parsed
start w s = on_parsed w s (cli_parse w.pam_file w.options cli_opts)
