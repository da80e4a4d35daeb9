-- ===== src/Main/Steps/Callbacks.antt =====
-- What the callbacks of timers do: first the slot of the timer is emptied, and then other steps
-- follow.
use dewlock.Base.{
  ℕ, zero, suc, ◌≡◌, refl, sym, ap, subst, Option, none, some, List, [], ◌∷◌, get_elem?,
  Option-cases, inl, inr,
}
use dewlock.Loop.{Callback}
use dewlock.State.{State, Seat, damage_state, add_timer, remove_if_set}
use dewlock.Password
use dewlock.Clock
use dewlock.Clock.{clk_set_time, clk_schedule_timer}
use dewlock.Seat
use dewlock.Seat.{put_seat, with_seat, arm_repeat}
use dewlock.Main.{call_timer}
use dewlock.Main.Steps.Core.{
  Slot, slot_of, core, slots_of, put, put_repeat, dropped, Moves, wipes, trans, same, AreOk,
}
use dewlock.Main.Steps.Scheduling.{
  damage_state-Moves, clock_dropped, clock-arms, repeat-arms, arm_repeat-put, get_elem?-set,
}
use dewlock.Main.Steps.Handlers.{pwd_handle_key-Moves}

-- The slot is emptied, and perhaps the timer it pointed to is marked before.
pub data Releases (k : Slot) (s t : State) : Type 0 where
  empties : core t ≡ record (core s) { slots = put k none (slots_of s) } → Releases k s t
  marks : core t ≡ dropped k (core s) → Releases k s t

pub record Runs (Ok : ℕ → Type 0) (cb : Callback) (s t : State) : Type 0 where
  pub after : State
  pub releases : Releases (slot_of cb) s after
  pub moves : Moves Ok after t

abbrev OkAt : (ℕ → Type 0) → Option Seat → Type 0
OkAt Ok none = Unit
OkAt Ok (some seat) = Ok seat.repeat_codepoint

pub All-get :
    (Ok : ℕ → Type 0) (seats : List Seat) (i : ℕ) (seat : Seat)
    → get_elem? seats i ≡ some seat
    → AreOk Ok seats
    → Ok seat.repeat_codepoint
All-get Ok [] i seat e ok = cc
All-get Ok (x ∷ xs) zero seat e ok = subst (OkAt Ok) e ok.0
All-get Ok (x ∷ xs) (suc i) seat e ok = All-get Ok xs i seat e ok.1

module _ {Ok : ℕ → Type 0} where
  set_time-Runs : (s : State) → Runs Ok Callback.set_time s (Clock.set_time s)
  unfolding Clock.set_time clk_set_time clk_schedule_timer damage_state add_timer remove_if_set
  set_time-Runs s =
      let s₁ = damage_state (clk_set_time s) in
      let u = record (remove_if_set s₁ s₁.clock_timer) { clock_timer = none } in
      record { after = u; releases = marks (clock_dropped s₁); moves = clock-arms u _ refl }

  keyboard_repeat-Runs :
      (s : State) (i : ℕ)
      → AreOk Ok s.seats
      → Runs Ok (Callback.keyboard_repeat i) s (Seat.keyboard_repeat s i)
  unfolding Seat.keyboard_repeat put arm_repeat
  keyboard_repeat-Runs s i ok = elim (Option-cases (get_elem? s.seats i)) [
    | inl e ↦
        rw (e, with_seat)
          (record {
            after = s;
            releases = empties (
                ap
                  (λ o. record (core s) {
                    slots = record (slots_of s) { seats = put_repeat o i none s.seats };
                  })
                  (sym e));
            moves = same;
          })
    | inr (seat, e) ↦ rw (e, with_seat) (found seat e)
  ]
    where
      found :
          (seat : Seat)
          → get_elem? s.seats i ≡ some seat
          → Runs Ok (Callback.keyboard_repeat i) s (
              Password.pwd_handle_key
                (arm_repeat s i seat seat.repeat_period_ms)
                seat.repeat_sym
                seat.repeat_codepoint)
      found seat e =
          let unset : Seat = record seat { repeat_timer = none } in
          let u : State = put_seat s i unset in
          record {
            after = u;
            releases = empties (
                ap
                  (λ o. record (core s) {
                    slots = record (slots_of s) { seats = put_repeat o i none s.seats };
                  })
                  (sym e));
            moves =
                trans
                  (subst (Moves Ok u) (arm_repeat-put s i unset unset seat.repeat_period_ms) (
                    repeat-arms u i unset seat.repeat_period_ms
                      (get_elem?-set s.seats i seat unset e) refl))
                  (pwd_handle_key-Moves _ _ _ (All-get Ok s.seats i seat e ok));
          }

  pub call_timer-Runs :
      (cb : Callback) (s : State) → AreOk Ok s.seats → Runs Ok cb s (call_timer cb s)
  unfolding call_timer Password.set_auth_idle Password.clear_password put
  call_timer-Runs Callback.set_auth_idle s ok = record {
    after = _;
    releases = empties refl;
    moves = damage_state-Moves _;
  }
  call_timer-Runs Callback.clear_password s ok = record {
    after = record s { clear_password_timer = none };
    releases = empties refl;
    moves = trans (wipes refl) (damage_state-Moves _);
  }
  call_timer-Runs Callback.set_time s ok = set_time-Runs s
  call_timer-Runs (Callback.keyboard_repeat i) s ok = keyboard_repeat-Runs s i ok
