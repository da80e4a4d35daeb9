-- ===== src/Main/Pointers/Changes.antt =====
-- The changes of the timers and of the pointers that keep the invariant.
use dewlock.Base.{ℕ, ◌<◌, ◌≡◌, ◌≢◌, refl, sym, ap, ◌∙◌, true, Option, none, some, List, ℕ_discrete}
use dewlock.Loop.{Timer, mark_removed}
use dewlock.Main.{find_timer}
use dewlock.Main.Timers
use dewlock.Main.Timers.{find_timer-mark_removed}
use dewlock.Main.Steps.Core.{Slot, marked}
use dewlock.Main.Pointers.Lists.{find-mark_other, All-mark, Distinct-mark}
use dewlock.Main.Pointers.Invariant.{
  Points, Tracked, is_removed, is_firing, is_held, IsTracked, Empties, some_inj, none-some,
  timer_inj, Points-slot, Points-same, emptied,
}

module _ {ex : Option ℕ} {ts : List Timer} {n : ℕ} {p q : Slot → Option ℕ} {k : Slot}
    (m : Empties k p q) (h : IsTracked ex ts n p) where
  open h use {fresh, distinct, points, tracked, released}

  still_released : (a : ℕ) → ex ≡ some a → (a < n) × ((j : Slot) → q j ≢ some a)
  still_released a e = ((released a e).0, λ j r. (released a e).1 j (emptied m j a r).1)

  -- The slot was empty.
  unset-IsTracked : p k ≡ none → IsTracked ex ts n q
  unset-IsTracked e = record {
    fresh = fresh;
    distinct = distinct;
    points = λ j b r. points j b (emptied m j b r).1;
    tracked = λ b t f. go b t (tracked b t f);
    released = still_released;
  }
    where
      go : (b : ℕ) (t : Timer) → Tracked ex p b t → Tracked ex q b t
      go b t (is_removed r) = is_removed r
      go b t (is_firing r) = is_firing r
      go b t (is_held r) =
          is_held (m.others _ (λ same. none-some b (sym e ∙ (ap p (sym same) ∙ r))) ∙ r)

  -- The slot had the address of a timer, which is marked.
  marked-IsTracked : (a : ℕ) → p k ≡ some a → IsTracked ex (mark_removed a ts) n q
  marked-IsTracked a e = record {
    fresh = All-mark (λ t. t.addr < n) a ts (λ t lt. lt) fresh;
    distinct = Distinct-mark a ts distinct;
    points = λ j b r.
        Points-same (find-mark_other a b ts (other j b r)) (points j b (emptied m j b r).1);
    tracked = follow;
    released = still_released;
  }
    where
      x : Points k a ts
      x = points k a e

      other : (j : Slot) (b : ℕ) → q j ≡ some b → b ≢ a
      other j b r same =
          (emptied m j b r).0
            (Points-slot (points j b (emptied m j b r).1) (points k b (e ∙ ap some (sym same))))

      go : (b : ℕ) (t : Timer) → b ≢ a → Tracked ex p b t → Tracked ex q b t
      go b t ne (is_removed r) = is_removed r
      go b t ne (is_firing r) = is_firing r
      go b t ne (is_held r) =
          is_held (m.others _ (λ same. ne (some_inj b a (sym r ∙ (ap p same ∙ e)))) ∙ r)

      follow : (b : ℕ) (t : Timer) → find_timer b (mark_removed a ts) ≡ some t → Tracked ex q b t
      follow b t f = elim (ℕ_discrete b a) [
        | yes same ↦ is_removed (
            ap (λ (u : Timer). u.removed)
              (timer_inj t (record (x.timer) { removed = true })
                (sym f
                  ∙ (ap (λ c. find_timer c (mark_removed a ts)) same
                      ∙ (find_timer-mark_removed a ts ∙ ap Timers.marked x.found)))))
        | no ne ↦ go b t ne (tracked b t (sym (find-mark_other a b ts ne) ∙ f))
      ]

  -- The removal of the timer in a slot.
  pub dropped-IsTracked : IsTracked ex (marked (p k) ts) n q
  dropped-IsTracked = go (p k) refl
    where
      go : (o : Option ℕ) → p k ≡ o → IsTracked ex (marked o ts) n q
      go none e = unset-IsTracked e
      go (some a) e = marked-IsTracked a e
