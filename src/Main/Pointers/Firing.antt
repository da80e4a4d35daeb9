-- ===== src/Main/Pointers/Firing.antt =====
-- The turn of a timer keeps the invariant: its callback empties its slot, and it is freed.
use dewlock.Base.{
  ℕ, ◌<◌, ◌≡◌, ◌≢◌, refl, sym, ap, ◌∙◌, subst, true, false, Option, none, some, List, inl, inr,
  arith, ℕ_discrete,
}
use dewlock.Loop.{Timer}
use dewlock.Main.{find_timer, unlink_timer}
use dewlock.Main.Steps.Core.{Slot, slot_of, marked}
use dewlock.Main.Pointers.Slots.{same_slot}
use dewlock.Main.Pointers.Lists.{
  find-unlink_other, find-All, All-unlink, Distinct-unlink, find-unlink,
}
use dewlock.Main.Pointers.Changes.{dropped-IsTracked}
use dewlock.Main.Pointers.Invariant.{
  Tracked, is_removed, is_firing, is_held, IsTracked, Empties, some_inj, none-some, not_both,
  timer_inj, Points-slot, Points-same, emptied,
}

-- No slot has the address of the timer that is taken as running.
pub excused-IsTracked :
    {ts : List Timer} {n : ℕ} {p : Slot → Option ℕ} (a : ℕ)
    → a < n
    → ((k : Slot) → p k ≢ some a)
    → IsTracked none ts n p
    → IsTracked (some a) ts n p
excused-IsTracked {ts} {n} {p} a lt lost h = record {
  fresh = h.fresh;
  distinct = h.distinct;
  points = h.points;
  tracked = λ b t f. go b t (h.tracked b t f);
  released = λ b e. subst (λ c. (c < n) × ((k : Slot) → p k ≢ some c)) (some_inj a b e) (lt, lost);
}
  where
    go : (b : ℕ) (t : Timer) → Tracked none p b t → Tracked (some a) p b t
    go b t (is_removed r) = is_removed r
    go b t (is_firing r) = absurd (none-some b r)
    go b t (is_held r) = is_held r

module _ {ts : List Timer} {n : ℕ} {p : Slot → Option ℕ} (h : IsTracked none ts n p) (a : ℕ)
    (t : Timer) (f : find_timer a ts ≡ some t) where
  below : a < n
  below = let y = find-All (λ u. u.addr < n) a ts t f h.fresh in omega (arith, y.0, y.1)

  module _ (waits : t.removed ≡ false) where
    held : p (slot_of t.callback) ≡ some a
    held = go (h.tracked a t f)
      where
        go : Tracked none p a t → p (slot_of t.callback) ≡ some a
        go (is_removed r) = absurd (not_both t.removed r waits)
        go (is_firing r) = absurd (none-some a r)
        go (is_held r) = r

    module _ {q : Slot → Option ℕ} (m : Empties (slot_of t.callback) p q) where
      lost : (j : Slot) → q j ≢ some a
      lost j r =
          (emptied m j a r).0
            (Points-slot (h.points j a (emptied m j a r).1) (h.points (slot_of t.callback) a held))

      -- The slot is emptied.
      pub fired-IsTracked : IsTracked (some a) ts n q
      fired-IsTracked = record {
        fresh = h.fresh;
        distinct = h.distinct;
        points = λ j b r. h.points j b (emptied m j b r).1;
        tracked = λ b u g. go b u (h.tracked b u g);
        released = λ b e.
            subst (λ c. (c < n) × ((j : Slot) → q j ≢ some c)) (some_inj a b e) (below, lost);
      }
        where
          go : (b : ℕ) (u : Timer) → Tracked none p b u → Tracked (some a) q b u
          go b u (is_removed r) = is_removed r
          go b u (is_firing r) = absurd (none-some b r)
          go b u (is_held r) = elim (same_slot (slot_of u.callback) (slot_of t.callback)) [
            | inl e ↦ is_firing (sym held ∙ (ap p (sym e) ∙ r))
            | inr ne ↦ is_held (m.others _ ne ∙ r)
          ]

      -- The timer is marked, and the slot is emptied.
      pub marked_fired-IsTracked : IsTracked (some a) (marked (p (slot_of t.callback)) ts) n q
      marked_fired-IsTracked = excused-IsTracked a below lost (dropped-IsTracked m h)

  -- A timer that was removed is in no slot.
  pub removed-IsTracked : t.removed ≡ true → IsTracked (some a) ts n p
  removed-IsTracked r =
      excused-IsTracked a below
        (λ k e.
          let x = h.points k a e in
          absurd (
            not_both t.removed r
              (sym (ap (λ (u : Timer). u.removed) (timer_inj _ _ (sym x.found ∙ f))) ∙ x.waits)))
        h

-- A timer is freed when no slot has its address.
pub freed-IsTracked :
    {ts : List Timer} {n : ℕ} {p : Slot → Option ℕ} (a : ℕ)
    → IsTracked (some a) ts n p
    → IsTracked none (unlink_timer a ts) n p
freed-IsTracked {ts} {n} {p} a h = record {
  fresh = All-unlink (λ t. t.addr < n) a ts h.fresh;
  distinct = Distinct-unlink a ts h.distinct;
  points = λ k b e. Points-same (find-unlink_other a b ts (other k b e)) (h.points k b e);
  tracked = follow;
  released = λ b e. absurd (none-some b e);
}
  where
    other : (k : Slot) (b : ℕ) → p k ≡ some b → b ≢ a
    other k b e same = (h.released a refl).1 k (e ∙ ap some same)

    go : (b : ℕ) (t : Timer) → b ≢ a → Tracked (some a) p b t → Tracked none p b t
    go b t ne (is_removed r) = is_removed r
    go b t ne (is_firing r) = absurd (ne (sym (some_inj a b r)))
    go b t ne (is_held r) = is_held r

    follow : (b : ℕ) (t : Timer) → find_timer b (unlink_timer a ts) ≡ some t → Tracked none p b t
    follow b t f = elim (ℕ_discrete b a) [
      | yes same ↦ absurd (
          none-some t (
            sym (find-unlink a ts h.distinct)
            ∙ (ap (λ c. find_timer c (unlink_timer a ts)) (sym same) ∙ f)))
      | no ne ↦ go b t ne (h.tracked b t (sym (find-unlink_other a b ts ne) ∙ f))
    ]
