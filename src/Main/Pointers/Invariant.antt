-- ===== src/Main/Pointers/Invariant.antt =====
-- The invariant that ties the pointers to the timers, and the changes that keep it.
use dewlock.Base.{
  ℕ, ◌<◌, ◌≡◌, ◌≢◌, sym, ap, ◌∙◌, Bool, true, false, Option, none, some, List, inl, inr, All,
}
use dewlock.Loop.{Timer}
use dewlock.Main.{find_timer}
use dewlock.Main.Steps.Core.{Slot, slot_of}
use dewlock.Main.Pointers.Slots.{same_slot}
use dewlock.Main.Pointers.Lists.{Distinct}

-- The address in a slot is that of a listed timer, which waits and runs the slot's callback.
pub record Points (k : Slot) (a : ℕ) (ts : List Timer) : Type 0 where
  pub timer : Timer
  pub found : find_timer a ts ≡ some timer
  pub slot : slot_of timer.callback ≡ k
  pub waits : timer.removed ≡ false

-- What may be said of a listed timer: it was removed, its callback is running, or its slot has its
-- address.
pub data Tracked (ex : Option ℕ) (p : Slot → Option ℕ) (a : ℕ) (t : Timer) : Type 0 where
  is_removed : t.removed ≡ true → Tracked ex p a t
  is_firing : ex ≡ some a → Tracked ex p a t
  is_held : p (slot_of t.callback) ≡ some a → Tracked ex p a t

-- `ex` is the address of the timer whose callback is running, `n` an address above those handed out.
pub record IsTracked (ex : Option ℕ) (ts : List Timer) (n : ℕ) (p : Slot → Option ℕ) : Type 0 where
  pub fresh : All (λ t. t.addr < n) ts
  pub distinct : Distinct ts
  pub points : (k : Slot) (a : ℕ) → p k ≡ some a → Points k a ts
  pub tracked : (a : ℕ) (t : Timer) → find_timer a ts ≡ some t → Tracked ex p a t
  pub released : (a : ℕ) → ex ≡ some a → (a < n) × ((k : Slot) → p k ≢ some a)

-- One slot is emptied.
pub record Empties (k : Slot) (p q : Slot → Option ℕ) : Type 0 where
  pub here : q k ≡ none
  pub others : (j : Slot) → j ≢ k → q j ≡ p j

pub some_inj : (a b : ℕ) → some a ≡ some b → a ≡ b
some_inj a b e = cc

pub none-some : {A : Type 0} (a : A) → none ≢ some a
none-some a e = cc

pub not_both : (b : Bool) → b ≡ true → b ≢ false
not_both b e f = cc

pub timer_inj : (t u : Timer) → some t ≡ some u → t ≡ u
timer_inj t u e = cc

-- Two slots with one address are the same slot.
pub Points-slot : {ts : List Timer} {j k : Slot} {a : ℕ} → Points j a ts → Points k a ts → j ≡ k
Points-slot x y =
    sym x.slot
    ∙ (ap (λ (t : Timer). slot_of t.callback) (timer_inj _ _ (sym x.found ∙ y.found)) ∙ y.slot)

pub Points-same :
    {ts us : List Timer} {k : Slot} {b : ℕ}
    → find_timer b us ≡ find_timer b ts
    → Points k b ts
    → Points k b us
Points-same e x = record { timer = x.timer; found = e ∙ x.found; slot = x.slot; waits = x.waits }

module _ {ts : List Timer} {n : ℕ} {p : Slot → Option ℕ} where
  pub alike-IsTracked :
      {ex : Option ℕ} {q : Slot → Option ℕ}
      → ((k : Slot) → q k ≡ p k)
      → IsTracked ex ts n p
      → IsTracked ex ts n q
  alike-IsTracked {ex} {q} same h = record {
    fresh = h.fresh;
    distinct = h.distinct;
    points = λ k a e. h.points k a (sym (same k) ∙ e);
    tracked = λ a t e. go a t (h.tracked a t e);
    released = λ a e. ((h.released a e).0, λ k r. (h.released a e).1 k (sym (same k) ∙ r));
  }
    where
      go : (a : ℕ) (t : Timer) → Tracked ex p a t → Tracked ex q a t
      go a t (is_removed r) = is_removed r
      go a t (is_firing r) = is_firing r
      go a t (is_held r) = is_held (same _ ∙ r)

module _ {p q : Slot → Option ℕ} {k : Slot} (m : Empties k p q) where
  -- What is in a slot now was there before, and it is another slot.
  pub emptied : (j : Slot) (a : ℕ) → q j ≡ some a → (j ≢ k) × (p j ≡ some a)
  emptied j a e = elim (same_slot j k) [
    | inl same ↦ absurd (none-some a (sym m.here ∙ (ap q (sym same) ∙ e)))
    | inr ne ↦ (ne, sym (m.others j ne) ∙ e)
  ]
