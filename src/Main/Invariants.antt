-- ===== src/Main/Invariants.antt =====
-- Invariants of the state through the rounds of the main loop. An invariant may say something of the
-- timer whose callback is running, which is to be freed behind it.
use dewlock.Base.{
  ℕ, ◌+◌, ◌≡◌, refl, Bool, true, false, Option, none, some, List, [], ◌∷◌, inl, inr, All,
  Option-cases, if_both, if_cases, get_or,
}
use dewlock.Result.{Result, ok, is_ok}
use dewlock.Auth.{Reply, auth_read_reply}
use dewlock.Loop.{FdCallback, Mask, Pollfd, blank, Timer, Timespec, is_expired}
use dewlock.Render.{invalid}
use dewlock.State.{State}
use dewlock.Clock.{clk_cancel_timer}
use dewlock.Main.{
  Round, has_exited, display_in, reply_in, term_in, call_fd, call_timer, fires, dispatch_fds,
  find_timer, free_timer, visit_timer, visit_timers, addresses, dispatch_listed, dispatch_timers,
  polled, loop_poll, Outcome, running, exits, unlocked, cleanup, main_loop,
}
use dewlock.Main.Steps.Core.{core, slot_of, Moves, stays, trans, AreOk}
use dewlock.Main.Steps.Scheduling.{damage_state-Moves, clock-drops}
use dewlock.Main.Steps.Handlers.{pwd_schedule_auth_idle-Moves}
use dewlock.Main.Steps.Callbacks.{Releases, Runs, call_timer-Runs}
use dewlock.Main.Steps.Events.{KeyOk, handle_events-Moves}

-- What makes `Inv` an invariant. Its first argument is the address of the timer whose callback is
-- running.
pub record IsInvariant (Ok : ℕ → Type 0) (Inv : Option ℕ → State → Type 0) : Type 0 where
  pub moves : {ex : Option ℕ} {s t : State} → Moves Ok s t → Inv ex s → Inv ex t
  pub loops :
      {ex : Option ℕ} {s t : State} (k : Bool × List Pollfd × List FdCallback × List ℕ)
      → core t ≡ record (core s) { kept = k }
      → Inv ex s
      → Inv ex t
  pub codes : {ex : Option ℕ} {s : State} → Inv ex s → AreOk Ok s.seats
  pub releases :
      {s u : State} (a : ℕ) (t : Timer)
      → find_timer a s.eventloop.timers ≡ some t
      → t.removed ≡ false
      → Releases (slot_of t.callback) s u
      → Inv none s
      → Inv (some a) u
  pub passes :
      {s : State} (a : ℕ) (t : Timer)
      → find_timer a s.eventloop.timers ≡ some t
      → t.removed ≡ true
      → Inv none s
      → Inv (some a) s
  pub frees : {s : State} (a : ℕ) → Inv (some a) s → Inv none (free_timer a s)

-- The keys of a round type code points with the property.
abbrev pub KeysOk : (ℕ → Type 0) → Round → Type 0
KeysOk Ok r = All (KeyOk Ok) r.events

-- The invariant holds when the rounds are used up, and when the program ends.
abbrev pub InOutcome : (State → Type 0) → Outcome → Type 0
InOutcome P (running s) = P s
InOutcome P (exits s) = P s
InOutcome P (unlocked s res) = P s

module _ {Ok : ℕ → Type 0} {Inv : Option ℕ → State → Type 0} (h : IsInvariant Ok Inv) where
  open h use {moves, loops, codes, releases, passes, frees}

  display_in-Inv : (r : Round) (s : State) → KeysOk Ok r → Inv none s → Inv none (display_in r s)
  unfolding display_in
  display_in-Inv r s keys i =
      let j = moves (handle_events-Moves r.events s keys) i in
      if_both (Inv none) r.dispatch_fails _ _ (loops _ refl j) j

  reply_in-Inv : (mask : Mask) (s : State) → Inv none s → Inv none (reply_in mask s)
  unfolding reply_in
  reply_in-Inv mask s i =
      if_both (Inv none) mask.pollin _ _
        (if_both (Inv none) (is_ok reply.result) _ _
          (if_both (Inv none) reply.success _ _ (loops _ refl i) (
            moves
              (trans (stays refl) (
                trans (pwd_schedule_auth_idle-Moves _) (trans (stays refl) (damage_state-Moves _))))
              i'))
          (loops _ refl i))
        (if_both (Inv none) mask.hup _ _ (loops _ refl i) i)
    where
      reply : Reply
      reply = auth_read_reply s.os.reads s.os.replies

      s' : State
      s' = record s { os = record (s.os) { reads = reply.script; replies = reply.stream } }

      i' : Inv none (record s' { auth_state = invalid })
      i' = loops _ refl i

  call_fd-Inv :
      (r : Round) (c : FdCallback) (mask : Mask) (s : State)
      → KeysOk Ok r
      → Inv none s
      → Inv none (call_fd r c mask s)
  unfolding call_fd term_in
  call_fd-Inv r FdCallback.display_in mask s keys i = display_in-Inv r s keys i
  call_fd-Inv r FdCallback.reply_in mask s keys i = reply_in-Inv mask s i
  call_fd-Inv r FdCallback.term_in mask s keys i = loops _ refl i

  dispatch_fds-Inv :
      (r : Round) (cs : List FdCallback) (n : ℕ) (s : State)
      → KeysOk Ok r
      → Inv none s
      → Inv none (dispatch_fds r cs n s)
  unfolding dispatch_fds
  dispatch_fds-Inv r [] n s keys i = i
  dispatch_fds-Inv r (c ∷ cs) n s keys i =
      let p : Pollfd = get_or s.eventloop.fds n blank in
      let j = if_both (Inv none) (fires p) _ s (call_fd-Inv r c p.revents s keys i) i in
      if_both (Inv none) _ _ _ j (dispatch_fds-Inv r cs (n + 1) _ keys j)

  call_timer-Inv :
      (a : ℕ) (s : State) (t : Timer)
      → find_timer a s.eventloop.timers ≡ some t
      → t.removed ≡ false
      → Inv none s
      → Inv (some a) (call_timer t.callback s)
  call_timer-Inv a s t e waits i =
      let r : Runs Ok t.callback s (call_timer t.callback s) =
        call_timer-Runs t.callback s (codes i) in
      moves r.moves (releases a t e waits r.releases i)

  -- One turn of a timer, whether it was removed, is due, or neither.
  visit_timer-Inv :
      (now : Timespec) (a : ℕ) (s : State) → Inv none s → Inv none (visit_timer now a s)
  unfolding visit_timer
  visit_timer-Inv now a s i = elim (Option-cases (find_timer a s.eventloop.timers)) [
    | inl e ↦ rw (e, visit_timer) i
    | inr (t, e) ↦
        rw (e, visit_timer)
          (if_cases (Inv none) t.removed _ _ (λ r. frees a (passes a t e r i))
            λ waits.
              if_both (Inv none) (is_expired now t) _ _ (frees a (call_timer-Inv a s t e waits i))
                i)
  ]

  visit_timers-Inv :
      (now : Timespec) (addrs : List ℕ) (s : State)
      → Inv none s
      → Inv none (visit_timers now addrs s)
  unfolding visit_timers
  visit_timers-Inv now [] s i = i
  visit_timers-Inv now (a ∷ later) s i =
      let j = visit_timer-Inv now a s i in
      if_both (Inv none) _ _ _ j (visit_timers-Inv now later _ j)

  dispatch_timers-Inv : (s : State) → Inv none s → Inv none (dispatch_timers s)
  unfolding dispatch_timers
  dispatch_timers-Inv s i = go s.eventloop.timers
    where
      go : (ts : List Timer) → Inv none (dispatch_listed s ts)
      go [] = i
      go (t ∷ ts) = visit_timers-Inv _ (t.addr ∷ addresses ts) _ (loops _ refl i)

  loop_poll-Inv : (r : Round) (s : State) → KeysOk Ok r → Inv none s → Inv none (loop_poll r s).0
  unfolding loop_poll
  loop_poll-Inv r s keys i =
      let begun : Inv none (polled r s) = loops _ refl i in
      let j = dispatch_fds-Inv r s.eventloop.fd_events 0 (polled r s) keys begun in
      if_both (λ (t : State × Result). Inv none t.0) r.poll_fails _ _ begun
        (if_both (Inv none) (has_exited (dispatch_fds r s.eventloop.fd_events 0 (polled r s))) _ _ j
          (dispatch_timers-Inv _ j))

  pub clk_cancel_timer-Inv : (s : State) → Inv none s → Inv none (clk_cancel_timer s)
  unfolding clk_cancel_timer
  clk_cancel_timer-Inv s i = moves (clock-drops s) i

  cleanup-Inv : (s : State) (res : Result) → Inv none s → InOutcome (Inv none) (cleanup s res)
  unfolding cleanup
  cleanup-Inv s res i = clk_cancel_timer-Inv s i

  -- Whatever the rounds meet, failures included.
  pub main_loop-Inv :
      (rs : List Round) (s : State)
      → All (KeysOk Ok) rs
      → Inv none s
      → InOutcome (Inv none) (main_loop rs s)
  unfolding main_loop
  main_loop-Inv [] s keys i =
      if_both (InOutcome (Inv none)) s.run_display _ _ i (cleanup-Inv s ok i)
  main_loop-Inv (r ∷ rs) s keys i =
      let j = loop_poll-Inv r s keys.0 i in
      if_both (InOutcome (Inv none)) s.run_display _ _
        (if_both (InOutcome (Inv none)) r.flush_fails _ _ (cleanup-Inv s ok i) (
          if_both (InOutcome (Inv none)) (has_exited (loop_poll r s).0) _ _ j (
            if_both (InOutcome (Inv none)) (is_ok (loop_poll r s).1) _ _
              (main_loop-Inv rs _ keys.1 j) (cleanup-Inv _ (loop_poll r s).1 j))))
        (cleanup-Inv s ok i)
