-- ===== src/Main/Pointers/Arming.antt =====
-- A new timer, and the turn of a timer whose callback ran, keep the invariant.
use dewlock.Base.{
  ℕ, suc, ◌<◌, ◌≡◌, ◌≢◌, sym, ap, ◌∙◌, subst, Option, none, some, List, [], ◌∷◌, inl, inr, arith,
  All, ℕ_discrete,
}
use dewlock.Loop.{Callback, Timer}
use dewlock.Main.{find_timer}
use dewlock.Main.Steps.Core.{Slot, slot_of, listed, addr_of, IsNew}
use dewlock.Main.Pointers.Slots.{same_slot}
use dewlock.Main.Pointers.Lists.{Distinct, find-All}
use dewlock.Main.Pointers.Invariant.{
  Points, Tracked, is_removed, is_firing, is_held, IsTracked, some_inj, none-some, timer_inj,
  Points-same, alike-IsTracked,
}

-- One slot, which was empty, gets a value.
pub record Fills (k : Slot) (v : Option ℕ) (p q : Slot → Option ℕ) : Type 0 where
  pub before : p k ≡ none
  pub now : q k ≡ v
  pub others : (j : Slot) → j ≢ k → q j ≡ p j

All-later : (ts : List Timer) (n : ℕ) → All (λ t. t.addr < n) ts → All (λ t. t.addr < suc n) ts
All-later [] n all = tt
All-later (t ∷ ts) n all = (omega (arith, all.0), All-later ts n all.1)

All-apart : (ts : List Timer) (n : ℕ) → All (λ t. t.addr < n) ts → All (λ t. t.addr ≢ n) ts
All-apart [] n all = tt
All-apart (t ∷ ts) n all = (λ e. omega (arith, all.0, e), All-apart ts n all.1)

later-IsTracked :
    {ex : Option ℕ} {ts : List Timer} {n : ℕ} {p : Slot → Option ℕ}
    → IsTracked ex ts n p
    → IsTracked ex ts (suc n) p
later-IsTracked {ex} {ts} {n} h = record {
  fresh = All-later ts n h.fresh;
  distinct = h.distinct;
  points = h.points;
  tracked = h.tracked;
  released = λ a e. (omega (arith, (h.released a e).0), (h.released a e).1);
}

find-head : (n : ℕ) (t : Timer) (ts : List Timer) → t.addr ≡ n → find_timer n (t ∷ ts) ≡ some t
unfolding find_timer
find-head n t ts e = ground (arith, e)

find-tail :
    (b : ℕ) (t : Timer) (ts : List Timer) → t.addr ≢ b → find_timer b (t ∷ ts) ≡ find_timer b ts
unfolding find_timer
find-tail b t ts ne = ground (arith, ne)

module _ {ex : Option ℕ} {ts : List Timer} {n : ℕ} {p q : Slot → Option ℕ} (cb : Callback)
    (h : IsTracked ex ts n p) where
  open h use {fresh, distinct, points, tracked, released}

  failed-IsTracked : Fills (slot_of cb) none p q → IsTracked ex ts (suc n) q
  failed-IsTracked m = alike-IsTracked same (later-IsTracked h)
    where
      same : (j : Slot) → q j ≡ p j
      same j = elim (same_slot j (slot_of cb)) [
        | inl e ↦ ap q e ∙ (m.now ∙ (sym m.before ∙ ap p (sym e)))
        | inr ne ↦ m.others j ne
      ]

  added-IsTracked :
      (t : Timer)
      → IsNew cb n (some t)
      → Fills (slot_of cb) (some t.addr) p q
      → IsTracked ex (t ∷ ts) (suc n) q
  unfolding Distinct
  added-IsTracked t new m = record {
    fresh = (omega (arith, new.0), All-later ts n fresh);
    distinct = (subst (λ a. All (λ u. u.addr ≢ a) ts) (sym new.0) (All-apart ts n fresh), distinct);
    points = point;
    tracked = follow;
    released = λ a e. (omega (arith, (released a e).0), lost a e);
  }
    where
      -- An address that was handed out before.
      old : (j : Slot) (b : ℕ) → p j ≡ some b → t.addr ≢ b
      old j b r e =
          let x = points j b r in
          let y = find-All (λ u. u.addr < n) b ts x.timer x.found fresh in
          omega (arith, new.0, e, y.0, y.1)

      point : (j : Slot) (b : ℕ) → q j ≡ some b → Points j b (t ∷ ts)
      point j b r = elim (same_slot j (slot_of cb)) [
        | inl e ↦
            let at : t.addr ≡ b = some_inj t.addr b (sym m.now ∙ (ap q (sym e) ∙ r)) in
            record {
              timer = t;
              found = find-head b t ts at;
              slot = ap slot_of new.1 ∙ sym e;
              waits = new.2;
            }
        | inr ne ↦
            let r' : p j ≡ some b = sym (m.others j ne) ∙ r in
            Points-same (find-tail b t ts (old j b r')) (points j b r')
      ]

      go : (b : ℕ) (u : Timer) → Tracked ex p b u → Tracked ex q b u
      go b u (is_removed r) = is_removed r
      go b u (is_firing r) = is_firing r
      go b u (is_held r) =
          is_held (m.others _ (λ same. none-some b (sym m.before ∙ (ap p (sym same) ∙ r))) ∙ r)

      follow : (b : ℕ) (u : Timer) → find_timer b (t ∷ ts) ≡ some u → Tracked ex q b u
      follow b u f = elim (ℕ_discrete t.addr b) [
        | yes e ↦
            let same : t ≡ u = timer_inj t u (sym (find-head b t ts e) ∙ f) in
            is_held (
              ap (λ (v : Timer). q (slot_of v.callback)) (sym same)
              ∙ (ap (λ c. q (slot_of c)) new.1 ∙ (m.now ∙ ap some e)))
        | no ne ↦ go b u (tracked b u (sym (find-tail b t ts ne) ∙ f))
      ]

      lost : (a : ℕ) → ex ≡ some a → (j : Slot) → q j ≢ some a
      lost a e j r = elim (same_slot j (slot_of cb)) [
        | inl same ↦
            let at : t.addr ≡ a = some_inj t.addr a (sym m.now ∙ (ap q (sym same) ∙ r)) in
            omega (arith, new.0, at, (released a e).0)
        | inr ne ↦ (released a e).1 j (sym (m.others j ne) ∙ r)
      ]

pub armed-IsTracked :
    {ex : Option ℕ} {ts : List Timer} {n : ℕ} {p q : Slot → Option ℕ} (cb : Callback)
    (o : Option Timer)
    → IsNew cb n o
    → Fills (slot_of cb) (addr_of o) p q
    → IsTracked ex ts n p
    → IsTracked ex (listed o ts) (suc n) q
armed-IsTracked cb none new m h = failed-IsTracked cb h m
armed-IsTracked cb (some t) new m h = added-IsTracked cb h t new m
