-- ===== src/Main.antt =====
-- main.c from the point where the session is locked: the callbacks of the event loop, `loop_poll`
-- of src/loop.c with them, and the main loop with its clean-up. What a call meets outside comes as
-- an argument: what `poll` and `wl_display_flush` answer and the Wayland events that arrive.
mod Listeners
pub mod Unlock
pub mod Steps
pub mod Invariants
pub mod Contents
pub mod Session
pub mod Pointers
pub mod Timers
mod Exits
pub mod Endings
pub mod Startup
pub mod Daemonize
pub mod Globals
mod Examples
unfoldable pub use Listeners.*
use dewlock.Base.{
  ℕ, zero, suc, ◌+◌, Bool, true, false, ◌&&◌, ◌||◌, not, Option, none, some, List, [], ◌∷◌, ◌==◌,
  if◌then◌else◌, get_or,
}
use dewlock.Base.Int.{ℤ}
use dewlock.Result.{Result, ok, err_loop_poll, is_ok}
use dewlock.Auth.{auth_read_reply}
use dewlock.Keysym.{Keysym}
use dewlock.Loop.{
  Loop, Timespec, Callback, set_auth_idle, clear_password, set_time, keyboard_repeat, FdCallback,
  Timer, Mask, Pollfd, blank, is_expired,
}
use dewlock.Render.{invalid}
use dewlock.State.{State, Os, damage_state}
use dewlock.Password
use dewlock.Password.{pwd_schedule_auth_idle}
use dewlock.Clock
use dewlock.Clock.{clk_cancel_timer}
use dewlock.Seat
use dewlock.Seat.{
  Keymap, keyboard_keymap, keyboard_leave, keyboard_key, keyboard_modifiers, keyboard_repeat_info,
  seat_handle_capabilities,
}
use dewlock.Outputs.{
  Entry, ext_session_lock_surface_v1_handle_configure, handle_wl_output_geometry,
  handle_wl_output_scale, handle_wl_output_done, handle_wl_output_name, add_output,
  handle_global_remove, release_buffer, frame_done,
}

-- What one round of the main loop meets.
pub record Round : Type 0 where
  pub flush_fails : Bool
  pub poll_fails : Bool
  pub revents : List Mask
  pub events : List Event
  pub dispatch_fails : Bool

unfoldable pub display_in : Round → State → State
display_in r s =
    let s' = handle_events s r.events in
    if r.dispatch_fails then record s' { run_display = false } else s'

-- A reply is read from the pipe.
unfoldable pub reply_in : Mask → State → State
reply_in mask s =
    let r = auth_read_reply s.os.reads s.os.replies in
    let s' = record s { os = record (s.os) { reads = r.script; replies = r.stream } } in
    let wrong = pwd_schedule_auth_idle (record s' { auth_state = invalid }) in
    if mask.pollin
    then (if is_ok r.result
        then (if r.success
            then record s' { run_display = false }
            else damage_state (record wrong { failed_attempts = wrong.failed_attempts + 1 }))
        else record s' { exited = some 1 })
    else (if mask.hup then record s { exited = some 1 } else s)

unfoldable pub term_in : State → State
term_in s = record s { run_display = false }

unfoldable pub call_fd : Round → FdCallback → Mask → State → State
call_fd r FdCallback.display_in mask s = display_in r s
call_fd r FdCallback.reply_in mask s = reply_in mask s
call_fd r FdCallback.term_in mask s = term_in s

unfoldable pub call_timer : Callback → State → State
call_timer set_auth_idle s = Password.set_auth_idle s
call_timer clear_password s = Password.clear_password s
call_timer set_time s = Clock.set_time s
call_timer (keyboard_repeat i) s = Seat.keyboard_repeat s i

-- `pfd.revents & (pfd.events | POLLHUP | POLLERR)`
abbrev pub fires : Pollfd → Bool
fires p = p.revents.pollin && p.events.pollin || p.revents.hup

-- The loop over `fd_events`, with `fd_index`.
unfoldable pub dispatch_fds : Round → List FdCallback → ℕ → State → State
dispatch_fds r [] fd_index s = s
dispatch_fds r (c ∷ cs) fd_index s =
    let pfd = get_or s.eventloop.fds fd_index blank in
    let s' = if fires pfd then call_fd r c pfd.revents s else s in
    let rest = dispatch_fds r cs (fd_index + 1) s' in if has_exited s' then s' else rest

unfoldable pub find_timer : ℕ → List Timer → Option Timer
find_timer a [] = none
find_timer a (t ∷ ts) = let rest = find_timer a ts in if t.addr == a then some t else rest

-- `wl_list_remove` and `free`
unfoldable pub unlink_timer : ℕ → List Timer → List Timer
unlink_timer a [] = []
unlink_timer a (t ∷ ts) = let rest = t ∷ unlink_timer a ts in if t.addr == a then ts else rest

unfoldable pub free_timer : ℕ → State → State
unfolding unlink_timer
free_timer a s = record s {
  eventloop = record (s.eventloop) { timers = unlink_timer a s.eventloop.timers };
}

-- One timer's turn.
unfoldable pub visit_timer : Timespec → ℕ → State → State
visit_timer now a s = elim (find_timer a s.eventloop.timers) [
  | none ↦ s
  | some t ↦
      if t.removed
      then free_timer a s
      else (if is_expired now t then free_timer a (call_timer t.callback s) else s)
]

-- The loop over the timers. A callback puts new timers at the head and takes none out, so the loop
-- meets those that were listed at its start, in order, each as it is when its turn comes.
unfoldable pub visit_timers : Timespec → List ℕ → State → State
visit_timers now [] s = s
visit_timers now (a ∷ later) s =
    let s' = visit_timer now a s in
    let rest = visit_timers now later s' in if has_exited s' then s' else rest

abbrev pub addresses : List Timer → List ℕ
addresses [] = []
addresses (t ∷ ts) = t.addr ∷ addresses ts

-- The clock is read if a timer is listed.
dispatch_listed : State → List Timer → State
dispatch_listed s [] = s
dispatch_listed s (t ∷ ts) =
    visit_timers (s.os.clock s.os.readings) (t.addr ∷ addresses ts)
      (record s { os = record (s.os) { readings = suc (s.os.readings) } })

unfoldable pub dispatch_timers : State → State
unfolding dispatch_listed
dispatch_timers s = dispatch_listed s s.eventloop.timers

-- `poll` writes the `revents`.
abbrev pub put_revents : List Pollfd → List Mask → List Pollfd
put_revents [] ms = []
put_revents (p ∷ ps) [] = p ∷ ps
put_revents (p ∷ ps) (m ∷ ms) = record p { revents = m } ∷ put_revents ps ms

-- The first reading of the clock, for the timeout, is made if there is a timer.
abbrev pub polled : Round → State → State
polled r s = record s {
  eventloop = record (s.eventloop) { fds = put_revents s.eventloop.fds r.revents };
  os = record (s.os) {
    readings = elim s.eventloop.timers [ [] ↦ s.os.readings | t ∷ ts ↦ suc (s.os.readings) ];
  };
}

-- An interrupted `poll` counts as one with no failure.
unfoldable pub loop_poll : Round → State → State × Result
loop_poll r s =
    let s₁ = dispatch_fds r s.eventloop.fd_events 0 (polled r s) in
    let s₂ = if has_exited s₁ then s₁ else dispatch_timers s₁ in
    if r.poll_fails then (polled r s, err_loop_poll) else (s₂, ok)

-- How a run of the program goes on or ends: by `exit`, with the session still locked, or through
-- the clean-up, which unlocks it.
pub data Outcome : Type 0 where
  running : State → Outcome
  exits : State → Outcome
  unlocked : State → Result → Outcome

-- The label `cleanup`: `ext_session_lock_v1_unlock_and_destroy` behind the timer's removal.
cleanup : State → Result → Outcome
cleanup s result = unlocked (clk_cancel_timer s) result

-- `while (state.run_display)`, over the rounds to come; `result` is OK at its start.
unfoldable pub main_loop : List Round → State → Outcome
unfolding cleanup
main_loop [] s = if s.run_display then running s else cleanup s ok
main_loop (r ∷ rs) s =
    let (s', result) = loop_poll r s in
    let rest = main_loop rs s' in
    if s.run_display
    then (if r.flush_fails
        then cleanup s ok
        else (if has_exited s'
            then exits s'
            else (if is_ok result then rest else cleanup s' result)))
    else cleanup s ok
