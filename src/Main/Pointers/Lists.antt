-- ===== src/Main/Pointers/Lists.antt =====
-- Finding timers in the list of the event loop by their addresses.
use dewlock.Base.{
  ℕ, ◌≡◌, ◌≢◌, refl, subst, true, Option, none, some, List, [], ◌∷◌, arith, All, ◌==◌, if_both,
  if_cases, if_false,
}
use dewlock.Loop.{Timer, mark_removed}
use dewlock.Main.{find_timer, unlink_timer}

-- No two timers have the same address.
unfoldable pub Distinct : List Timer → Type 0
Distinct [] = Unit
Distinct (t ∷ ts) = All (λ u. u.addr ≢ t.addr) ts × Distinct ts

pub find-mark_other :
    (a b : ℕ) (ts : List Timer) → b ≢ a → find_timer b (mark_removed a ts) ≡ find_timer b ts
unfolding find_timer mark_removed
find-mark_other a b [] ne = refl
find-mark_other a b (t ∷ ts) ne = ground (arith, find-mark_other a b ts ne)

pub find-unlink_other :
    (a b : ℕ) (ts : List Timer) → b ≢ a → find_timer b (unlink_timer a ts) ≡ find_timer b ts
unfolding find_timer unlink_timer
find-unlink_other a b [] ne = refl
find-unlink_other a b (t ∷ ts) ne = ground (arith, find-unlink_other a b ts ne)

-- What is found is a timer of the list, and has the address.
abbrev Has : (Timer → Type 0) → ℕ → Option Timer → Type 0
Has P a none = Unit
Has P a (some t) = P t × (t.addr ≡ a)

find-Has : (P : Timer → Type 0) (a : ℕ) (ts : List Timer) → All P ts → Has P a (find_timer a ts)
unfolding find_timer
find-Has P a [] all = tt
find-Has P a (t ∷ ts) all =
    if_cases (Has P a) (t.addr == a) _ _ (λ e. (all.0, ground (arith, e)))
      (λ e. find-Has P a ts all.1)

pub find-All :
    (P : Timer → Type 0) (a : ℕ) (ts : List Timer) (t : Timer)
    → find_timer a ts ≡ some t
    → All P ts
    → P t × (t.addr ≡ a)
find-All P a ts t e all = subst (Has P a) e (find-Has P a ts all)

pub find-none : (a : ℕ) (ts : List Timer) → All (λ u. u.addr ≢ a) ts → find_timer a ts ≡ none
unfolding find_timer
find-none a [] all = refl
find-none a (t ∷ ts) all = ground (arith, find-none a ts all.1, all.0)

pub All-mark :
    (P : Timer → Type 0) (a : ℕ) (ts : List Timer)
    → ((t : Timer) → P t → P (record t { removed = true }))
    → All P ts
    → All P (mark_removed a ts)
unfolding mark_removed
All-mark P a [] f all = tt
All-mark P a (t ∷ ts) f all =
    if_both (All P) (t.addr == a) _ _ (f t all.0, all.1) (all.0, All-mark P a ts f all.1)

pub All-unlink :
    (P : Timer → Type 0) (a : ℕ) (ts : List Timer) → All P ts → All P (unlink_timer a ts)
unfolding unlink_timer
All-unlink P a [] all = tt
All-unlink P a (t ∷ ts) all =
    if_both (All P) (t.addr == a) _ _ all.1 (all.0, All-unlink P a ts all.1)

unfoldable pub Distinct-mark :
    (a : ℕ) (ts : List Timer) → Distinct ts → Distinct (mark_removed a ts)
unfolding Distinct mark_removed
Distinct-mark a [] d = tt
Distinct-mark a (t ∷ ts) d =
    if_both Distinct (t.addr == a) _ _ d
      (All-mark (λ u. u.addr ≢ t.addr) a ts (λ u ne. ne) d.0, Distinct-mark a ts d.1)

unfoldable pub Distinct-unlink :
    (a : ℕ) (ts : List Timer) → Distinct ts → Distinct (unlink_timer a ts)
unfolding Distinct unlink_timer
Distinct-unlink a [] d = tt
Distinct-unlink a (t ∷ ts) d =
    if_both Distinct (t.addr == a) _ _ d.1
      (All-unlink (λ u. u.addr ≢ t.addr) a ts d.0, Distinct-unlink a ts d.1)

-- Once freed, an address is not found any more.
pub find-unlink : (a : ℕ) (ts : List Timer) → Distinct ts → find_timer a (unlink_timer a ts) ≡ none
unfolding Distinct find_timer unlink_timer
find-unlink a [] d = refl
find-unlink a (t ∷ ts) d =
    if_cases (λ us. find_timer a us ≡ none) (t.addr == a) _ _
      (λ e. find-none a ts (subst (λ b. All (λ u. u.addr ≢ b) ts) (ground (arith, e)) d.0))
      λ e. if_false (λ o. o ≡ none) (t.addr == a) _ _ e (find-unlink a ts d.1)
