-- ===== src/Seat/Repeat.antt =====
-- Key repeat of src/seat.c.
use dewlock.Base.{
  ℕ, zero, suc, ◌≡◌, refl, ap, ◌∙◌, Bool, false, ◌&&◌, Option, none, some, List, [], ◌∷◌, arith,
  get_elem?, set, if_false,
}
use dewlock.Base.Int.{ℤ, pos, ltb_ℤ}
use dewlock.Loop.{loop_remove_timer}
use dewlock.Keysym.{Keysym}
use dewlock.State.{State, Seat, remove_if_set, without}
use dewlock.Seat.{
  with_seat, stop_repeat, stop_repeat_of, keyboard_leave, start_repeat, keyboard_repeat_info,
}

get_elem?-set :
    {A : Type 0} (xs : List A) (i : ℕ) (x y : A)
    → get_elem? xs i ≡ some x
    → get_elem? (set xs i y) i ≡ some y
get_elem?-set [] i x y e = ground arith
get_elem?-set (z ∷ xs) zero x y e = refl
get_elem?-set (z ∷ xs) (suc i) x y e = get_elem?-set xs i x y e

with_seat-at :
    (s : State) (i : ℕ) (seat : Seat) (f : Seat → State)
    → get_elem? s.seats i ≡ some seat
    → with_seat s i f ≡ f seat
with_seat-at s i seat f e =
    ap (λ (o : Option Seat). elim o as (λ x. State) [ none ↦ s | some t ↦ f t ]) e

start_repeat-off :
    (t : State) (i : ℕ) (seat : Seat) (press : Bool) (sym : Keysym) (c : ℕ)
    → get_elem? t.seats i ≡ some seat
    → ltb_ℤ (pos 0) seat.repeat_period_ms ≡ false
    → start_repeat t i press sym c ≡ t
unfolding start_repeat
start_repeat-off t i seat press sym c e off =
    with_seat-at t i seat _ e
    ∙ if_false (λ (u : State). u ≡ t) (press && ltb_ℤ (pos 0) seat.repeat_period_ms) _ _
        (ground (arith, off)) refl

-- After the compositor has disabled key repeat for a seat, the end of the handler of a key arms no
-- timer for it and leaves the state as it is.
start_repeat-disabled :
    (s : State) (i : ℕ) (seat : Seat) (rate delay : ℤ) (press : Bool) (sym : Keysym) (c : ℕ)
    → get_elem? s.seats i ≡ some seat
    → ltb_ℤ (pos 0) rate ≡ false
    → start_repeat (keyboard_repeat_info s i rate delay) i press sym c
      ≡ keyboard_repeat_info s i rate delay
unfolding keyboard_repeat_info
start_repeat-disabled s i seat rate delay press sym c e off =
    start_repeat-off _ i _ press sym c
      (ap (λ (u : State). get_elem? u.seats i) (with_seat-at s i seat _ e)
        ∙ get_elem?-set s.seats i seat _ e)
      (if_false (λ (p : ℤ). ltb_ℤ (pos 0) p ≡ false) (ltb_ℤ (pos 0) rate) _ _ off refl)

-- When the keyboard leaves, the seat forgets its repeat timer, and that timer is marked as removed
-- in the event loop.
keyboard_leave-stops :
    (s : State) (i : ℕ) (seat : Seat) (a : ℕ)
    → get_elem? s.seats i ≡ some seat
    → seat.repeat_timer ≡ some a
    → (get_elem? (keyboard_leave s i).seats i ≡ some (record seat { repeat_timer = none }))
      × ((keyboard_leave s i).eventloop ≡ (loop_remove_timer s.eventloop a).0)
unfolding keyboard_leave stop_repeat stop_repeat_of remove_if_set without
keyboard_leave-stops s i seat a e armed = (
  ap (λ (u : State). get_elem? u.seats i) (with_seat-at s i seat _ e)
      ∙ get_elem?-set s.seats i seat _ e,
  ap (λ (u : State). u.eventloop) (with_seat-at s i seat _ e) ∙ ap (without s.eventloop) armed,
)
