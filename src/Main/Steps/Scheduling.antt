-- ===== src/Main/Steps/Scheduling.antt =====
-- The steps in which a handler sets up or removes a timer, or writes a field of a seat.
use dewlock.Base.{
  ℕ, zero, suc, ◌≡◌, refl, sym, ap, ◌∙◌, Bool, true, false, Option, none, some, List, [], ◌∷◌,
  get_elem?, set, Option-cases, inl, inr,
}
use dewlock.Base.Int.{ℤ}
use dewlock.Loop.{Loop, Timespec, Callback, Timer, expiry_after, loop_add_timer, loop_remove_timer}
use dewlock.State.{State, Seat, damage_state, add_timer, remove_if_set, without, next_timer}
use dewlock.Seat.{put_seat, with_seat, arm_repeat, stop_repeat_of}
use dewlock.Main.Steps.Core.{
  input_idle, auth_idle, clear, clock, repeat, core, slots_of, pointer, put, put_repeat, marked,
  listed, addr_of, repeat_of, IsNew, dropped, Moves, stays, drops, arms, same,
}

without-marked : (l : Loop) (p : Option ℕ) → without l p ≡ record l { timers = marked p l.timers }
unfolding without loop_remove_timer
without-marked l none = refl
without-marked l (some a) = refl

new_timer : Option ℕ → Timespec → ℤ → Callback → Option Timer
new_timer none now ms cb = none
new_timer (some a) now ms cb =
    some (record { addr = a; callback = cb; expiry = expiry_after now ms; removed = false })

loop_add_timer-new :
    (l : Loop) (a : Option ℕ) (now : Timespec) (ms : ℤ) (cb : Callback)
    → loop_add_timer l a now ms cb ≡ (
      record l { timers = listed (new_timer a now ms cb) l.timers },
      addr_of (new_timer a now ms cb),
    )
unfolding loop_add_timer new_timer
loop_add_timer-new l none now ms cb = refl
loop_add_timer-new l (some a) now ms cb = refl

-- The timer that `add_timer` makes.
unfoldable made : State → ℤ → Callback → Option Timer
unfolding new_timer
made s ms cb = new_timer (next_timer s.os) (s.os.clock s.os.readings) ms cb

made-IsNew : (s : State) (ms : ℤ) (cb : Callback) → IsNew cb s.os.next_addr (made s ms cb)
unfolding made new_timer
made-IsNew s ms cb = go s.os.allocations refl
  where
    go : (bs : List Bool) → s.os.allocations ≡ bs → IsNew cb s.os.next_addr (made s ms cb)
    go [] e = rw e (refl, refl, refl)
    go (true ∷ bs) e = rw e (refl, refl, refl)
    go (false ∷ bs) e = rw e tt

pub clock_dropped :
    (s : State)
    → core (record (remove_if_set s s.clock_timer) { clock_timer = none }) ≡ dropped clock (core s)
unfolding remove_if_set put pointer
clock_dropped s = λ i.
    core (record s { eventloop = without-marked s.eventloop s.clock_timer i; clock_timer = none })

-- What `add_timer` returns.
added-addr : (s : State) (ms : ℤ) (cb : Callback) → (add_timer s ms cb).1 ≡ addr_of (made s ms cb)
unfolding add_timer made
added-addr s ms cb =
    ap (λ r. r.1)
      (loop_add_timer-new s.eventloop (next_timer s.os) (s.os.clock s.os.readings) ms cb)

module _ {ℓ} {A : Type ℓ} where
  pub get_elem?-set :
      (xs : List A) (i : ℕ) (a b : A) → get_elem? xs i ≡ some a → get_elem? (set xs i b) i ≡ some b
  get_elem?-set [] i a b e = cc
  get_elem?-set (x ∷ xs) zero a b e = refl
  get_elem?-set (x ∷ xs) (suc i) a b e = get_elem?-set xs i a b e

  pub set-set : (xs : List A) (i : ℕ) (a b : A) → set (set xs i a) i b ≡ set xs i b
  set-set [] i a b = refl
  set-set (x ∷ xs) zero a b = refl
  set-set (x ∷ xs) (suc i) a b = ap (◌∷◌ x) (set-set xs i a b)

module _ {Ok : ℕ → Type 0} where
  pub damage_state-Moves : (s : State) → Moves Ok s (damage_state s)
  unfolding damage_state
  damage_state-Moves s = stays refl

  pub input_idle-drops :
      (s : State)
      → Moves Ok s (record (remove_if_set s s.input_idle_timer) { input_idle_timer = none })
  unfolding remove_if_set put pointer
  input_idle-drops s = drops input_idle λ i. core (record s {
    eventloop = without-marked s.eventloop s.input_idle_timer i;
    input_idle_timer = none;
  })

  pub auth_idle-drops :
      (s : State)
      → Moves Ok s (record (remove_if_set s s.auth_idle_timer) { auth_idle_timer = none })
  unfolding remove_if_set put pointer
  auth_idle-drops s = drops auth_idle λ i. core (record s {
    eventloop = without-marked s.eventloop s.auth_idle_timer i;
    auth_idle_timer = none;
  })

  pub clear-drops :
      (s : State)
      → Moves Ok s (record (remove_if_set s s.clear_password_timer) { clear_password_timer = none })
  unfolding remove_if_set put pointer
  clear-drops s = drops clear λ i. core (record s {
    eventloop = without-marked s.eventloop s.clear_password_timer i;
    clear_password_timer = none;
  })

  pub clock-drops :
      (s : State) → Moves Ok s (record (remove_if_set s s.clock_timer) { clock_timer = none })
  clock-drops s = drops clock (clock_dropped s)

  -- `loop_add_timer` into a slot that is empty.
  pub auth_idle-arms :
      (s : State) (ms : ℤ)
      → s.auth_idle_timer ≡ none
      → Moves Ok s (record ((add_timer s ms Callback.set_auth_idle).0) {
        auth_idle_timer = (add_timer s ms Callback.set_auth_idle).1;
      })
  unfolding add_timer put pointer made
  auth_idle-arms s ms e =
      arms Callback.set_auth_idle (made s ms Callback.set_auth_idle) (made-IsNew s ms _) e
        (added-addr s ms _)
        λ i.
          let p =
            loop_add_timer-new s.eventloop (next_timer s.os) (s.os.clock s.os.readings) ms
              Callback.set_auth_idle i in
          core (record s {
            eventloop = p.0;
            auth_idle_timer = p.1;
            os = record (s.os) { next_addr = suc (s.os.next_addr) };
          })

  pub clear-arms :
      (s : State) (ms : ℤ)
      → s.clear_password_timer ≡ none
      → Moves Ok s (record ((add_timer s ms Callback.clear_password).0) {
        clear_password_timer = (add_timer s ms Callback.clear_password).1;
      })
  unfolding add_timer put pointer made
  clear-arms s ms e =
      arms Callback.clear_password (made s ms Callback.clear_password) (made-IsNew s ms _) e
        (added-addr s ms _)
        λ i.
          let p =
            loop_add_timer-new s.eventloop (next_timer s.os) (s.os.clock s.os.readings) ms
              Callback.clear_password i in
          core (record s {
            eventloop = p.0;
            clear_password_timer = p.1;
            os = record (s.os) { next_addr = suc (s.os.next_addr) };
          })

  pub clock-arms :
      (s : State) (ms : ℤ)
      → s.clock_timer ≡ none
      → Moves Ok s (record ((add_timer s ms Callback.set_time).0) {
        clock_timer = (add_timer s ms Callback.set_time).1;
      })
  unfolding add_timer put pointer made
  clock-arms s ms e =
      arms Callback.set_time (made s ms Callback.set_time) (made-IsNew s ms _) e (added-addr s ms _)
        λ i.
          let p =
            loop_add_timer-new s.eventloop (next_timer s.os) (s.os.clock s.os.readings) ms
              Callback.set_time i in
          core (record s {
            eventloop = p.0;
            clock_timer = p.1;
            os = record (s.os) { next_addr = suc (s.os.next_addr) };
          })

  -- The same of a seat, which is the one at its index.
  pub repeat-drops :
      (s : State) (i : ℕ) (seat : Seat)
      → get_elem? s.seats i ≡ some seat
      → Moves Ok s (stop_repeat_of s i seat)
  unfolding remove_if_set put pointer stop_repeat_of
  repeat-drops s i seat e = drops (repeat i) (
      (λ j. core (
        put_seat (record s { eventloop = without-marked s.eventloop seat.repeat_timer j }) i
          (record seat { repeat_timer = none })))
      ∙ ap
          (λ o. record (core s) {
            timers = marked (repeat_of o) s.eventloop.timers;
            slots = record (slots_of s) { seats = put_repeat o i none s.seats };
          })
          (sym e))

  pub repeat-arms :
      (s : State) (i : ℕ) (seat : Seat) (ms : ℤ)
      → get_elem? s.seats i ≡ some seat
      → seat.repeat_timer ≡ none
      → Moves Ok s (arm_repeat s i seat ms)
  unfolding add_timer put pointer made arm_repeat
  repeat-arms s i seat ms e unset =
      arms (Callback.keyboard_repeat i) (made s ms (Callback.keyboard_repeat i)) (made-IsNew s ms _)
        (ap repeat_of e ∙ unset)
        (ap repeat_of (get_elem?-set s.seats i seat _ e) ∙ added-addr s ms _)
        ((λ j.
            let p =
              loop_add_timer-new s.eventloop (next_timer s.os) (s.os.clock s.os.readings) ms
                (Callback.keyboard_repeat i) j in
            core (
              put_seat
                (record s {
                  eventloop = p.0;
                  os = record (s.os) { next_addr = suc (s.os.next_addr) };
                })
                i (record seat { repeat_timer = p.1 })))
          ∙ ap
              (λ o. record (core s) {
                timers = listed (made s ms (Callback.keyboard_repeat i)) s.eventloop.timers;
                next_addr = suc s.os.next_addr;
                slots = record (slots_of s) {
                  seats = put_repeat o i (addr_of (made s ms (Callback.keyboard_repeat i))) s.seats;
                };
              })
              (sym e))

  pub with_seat-Moves :
      (s : State) (i : ℕ) (f : Seat → State)
      → ((seat : Seat) → get_elem? s.seats i ≡ some seat → Moves Ok s (f seat))
      → Moves Ok s (with_seat s i f)
  with_seat-Moves s i f h = elim (Option-cases (get_elem? s.seats i)) [
    | inl e ↦ rw (e, with_seat) same
    | inr (seat, e) ↦ rw (e, with_seat) (h seat e)
  ]

-- Arming writes the whole seat, so what was written there before is gone.
pub arm_repeat-put :
    (s : State) (i : ℕ) (a b : Seat) (ms : ℤ)
    → arm_repeat (put_seat s i a) i b ms ≡ arm_repeat s i b ms
unfolding arm_repeat add_timer
arm_repeat-put s i a b ms =
    let (t, timer) = add_timer s ms (Callback.keyboard_repeat i) in
    ap (λ seats. record t { seats = seats })
      (set-set s.seats i a (record b { repeat_timer = timer }))
