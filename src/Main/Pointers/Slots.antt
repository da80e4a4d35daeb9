-- ===== src/Main/Pointers/Slots.antt =====
-- Reading a slot behind a write.
use dewlock.Base.{
  ℕ, zero, suc, ◌≡◌, ◌≢◌, refl, sym, ap, ◌∙◌, Option, none, some, List, [], ◌∷◌, ◌++◌, ◌⊎◌, inl,
  inr, get_elem?, set, ℕ_discrete,
}
use dewlock.State.{Seat}
use dewlock.Seat.{new_seat}
use dewlock.Main.Steps.Core.{
  Slot, input_idle, auth_idle, clear, clock, repeat, Slots, repeat_of, put_repeat, pointer, put,
}
use dewlock.Main.Steps.Scheduling.{get_elem?-set}

index : Slot → ℕ
index input_idle = 0
index auth_idle = 1
index clear = 2
index clock = 3
index (repeat i) = suc (suc (suc (suc i)))

slot_at : ℕ → Slot
slot_at zero = input_idle
slot_at (suc zero) = auth_idle
slot_at (suc (suc zero)) = clear
slot_at (suc (suc (suc zero))) = clock
slot_at (suc (suc (suc (suc i)))) = repeat i

slot_at-index : (k : Slot) → slot_at (index k) ≡ k
unfolding slot_at index
slot_at-index input_idle = refl
slot_at-index auth_idle = refl
slot_at-index clear = refl
slot_at-index clock = refl
slot_at-index (repeat i) = refl

pub same_slot : (j k : Slot) → (j ≡ k) ⊎ (j ≢ k)
same_slot j k = elim (ℕ_discrete (index j) (index k)) [
  | yes e ↦ inl (sym (slot_at-index j) ∙ (ap slot_at e ∙ slot_at-index k))
  | no ne ↦ inr (λ e. ne (ap index e))
]

repeat-set_other :
    (seats : List Seat) (i j : ℕ) (seat : Seat)
    → i ≢ j
    → get_elem? (set seats i seat) j ≡ get_elem? seats j
repeat-set_other [] i j seat ne = refl
repeat-set_other (x ∷ xs) zero zero seat ne = absurd (ne refl)
repeat-set_other (x ∷ xs) zero (suc j) seat ne = refl
repeat-set_other (x ∷ xs) (suc i) zero seat ne = refl
repeat-set_other (x ∷ xs) (suc i) (suc j) seat ne =
    repeat-set_other xs i j seat (λ e. ne (ap suc e))

repeat-set :
    (seats : List Seat) (i : ℕ) (old seat : Seat) (j : ℕ)
    → get_elem? seats i ≡ some old
    → seat.repeat_timer ≡ old.repeat_timer
    → repeat_of (get_elem? (set seats i seat) j) ≡ repeat_of (get_elem? seats j)
repeat-set [] i old seat j e same = refl
repeat-set (x ∷ xs) zero old seat zero e same = same ∙ sym (ap repeat_of e)
repeat-set (x ∷ xs) zero old seat (suc j) e same = refl
repeat-set (x ∷ xs) (suc i) old seat zero e same = refl
repeat-set (x ∷ xs) (suc i) old seat (suc j) e same = repeat-set xs i old seat j e same

-- A change of a seat that keeps its pointer.
pub pointer-set :
    (k : Slot) (p : Slots) (i : ℕ) (old seat : Seat)
    → get_elem? p.seats i ≡ some old
    → seat.repeat_timer ≡ old.repeat_timer
    → pointer k (record p { seats = set p.seats i seat }) ≡ pointer k p
unfolding pointer
pointer-set input_idle p i old seat e same = refl
pointer-set auth_idle p i old seat e same = refl
pointer-set clear p i old seat e same = refl
pointer-set clock p i old seat e same = refl
pointer-set (repeat j) p i old seat e same = repeat-set p.seats i old seat j e same

put_repeat-other :
    (o : Option Seat) (i j : ℕ) (v : Option ℕ) (seats : List Seat)
    → i ≢ j
    → repeat_of (get_elem? (put_repeat o i v seats) j) ≡ repeat_of (get_elem? seats j)
put_repeat-other none i j v seats ne = refl
put_repeat-other (some seat) i j v seats ne =
    ap repeat_of (repeat-set_other seats i j (record seat { repeat_timer = v }) ne)

pub pointer-put_other :
    (j k : Slot) (v : Option ℕ) (p : Slots) → j ≢ k → pointer j (put k v p) ≡ pointer j p
unfolding pointer put
pointer-put_other (repeat j) (repeat k) v p ne =
    put_repeat-other (get_elem? p.seats k) k j v p.seats (λ e. ne (ap repeat (sym e)))
pointer-put_other input_idle input_idle v p ne = absurd (ne refl)
pointer-put_other auth_idle auth_idle v p ne = absurd (ne refl)
pointer-put_other clear clear v p ne = absurd (ne refl)
pointer-put_other clock clock v p ne = absurd (ne refl)
pointer-put_other j k v p ne = refl

unset_repeat :
    (o : Option Seat) (seats : List Seat) (i : ℕ)
    → get_elem? seats i ≡ o
    → repeat_of (get_elem? (put_repeat o i none seats) i) ≡ none
unset_repeat none seats i e = ap repeat_of e
unset_repeat (some seat) seats i e =
    ap repeat_of (get_elem?-set seats i seat (record seat { repeat_timer = none }) e)

pub pointer-put-none : (k : Slot) (p : Slots) → pointer k (put k none p) ≡ none
unfolding pointer put
pointer-put-none input_idle p = refl
pointer-put-none auth_idle p = refl
pointer-put-none clear p = refl
pointer-put-none clock p = refl
pointer-put-none (repeat i) p = unset_repeat (get_elem? p.seats i) p.seats i refl

repeat-append :
    (seats : List Seat) (i : ℕ)
    → repeat_of (get_elem? (seats ++ new_seat ∷ []) i) ≡ repeat_of (get_elem? seats i)
repeat-append [] zero = refl
repeat-append [] (suc i) = refl
repeat-append (x ∷ xs) zero = refl
repeat-append (x ∷ xs) (suc i) = repeat-append xs i

-- A new seat repeats nothing.
pub pointer-append :
    (k : Slot) (p : Slots) → pointer k (record p { seats = p.seats ++ new_seat ∷ [] }) ≡ pointer k p
unfolding pointer
pointer-append (repeat i) p = repeat-append p.seats i
pointer-append k p = refl
