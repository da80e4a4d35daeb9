-- ===== src/Config/Escaping.antt =====
-- The loop of `load_image` that escapes spaces ends, and does what one pass from the front would do.
use dewlock.Base.{
  ℕ, zero, suc, ◌≤◌, ◌<◌, ◌≡◌, refl, sym, ap, ◌∙◌, true, false, ◌&&◌, Option, none, some, List, [],
  ◌∷◌, arith, ◌==◌, if◌then◌else◌, length, if_true, if_false, if_both, Bool-cases, inl, inr,
}
use dewlock.Config.Load.{escape_pair, escape_loop, onto_path}

-- A backslash between each two spaces in a row.
unfoldable pub spaced : List ℕ → List ℕ
spaced [] = []
spaced (b ∷ []) = b ∷ []
spaced (b ∷ c ∷ bs) =
    let rest = spaced (c ∷ bs) in if b == b' ' && c == b' ' then b ∷ b'\\' ∷ rest else b ∷ rest

-- How many there are.
unfoldable pub space_pairs : List ℕ → ℕ
space_pairs [] = 0
space_pairs (b ∷ []) = 0
space_pairs (b ∷ c ∷ bs) =
    let rest = space_pairs (c ∷ bs) in if b == b' ' && c == b' ' then suc rest else rest

pub space_pairs-length : (path : List ℕ) → space_pairs path ≤ length path
unfolding space_pairs
space_pairs-length [] = omega arith
space_pairs-length (b ∷ []) = omega arith
space_pairs-length (b ∷ c ∷ bs) = ground (arith, space_pairs-length (c ∷ bs))

-- What a round does: nothing is left to escape, or one pair fewer is, with the same first byte.
abbrev Round : List ℕ → Option (List ℕ) → Type 0
Round path none = (spaced path ≡ path) × (space_pairs path ≡ 0)
Round path (some longer) =
    (spaced longer ≡ spaced path) × (suc (space_pairs longer) ≡ space_pairs path)

abbrev Heads : ℕ → Option (List ℕ) → Type 0
Heads b none = Unit
Heads b (some []) = ⊥
Heads b (some (c ∷ cs)) = c ≡ b

onto_path-Heads : (b : ℕ) (r : Option (List ℕ)) → Heads b (onto_path b r)
onto_path-Heads b none = tt
onto_path-Heads b (some path) = refl

escape_pair-Heads : (b : ℕ) (bs : List ℕ) → Heads b (escape_pair (b ∷ bs))
unfolding escape_pair
escape_pair-Heads b [] = tt
escape_pair-Heads b (c ∷ bs) =
    if_both (Heads b) (b == b' ' && c == b' ') _ _ refl (onto_path-Heads b (escape_pair (c ∷ bs)))

Round-hit :
    (b c : ℕ) (bs : List ℕ)
    → (b == b' ' && c == b' ') ≡ true
    → Round (b ∷ c ∷ bs) (some (b ∷ b'\\' ∷ c ∷ bs))
unfolding spaced space_pairs
Round-hit b c bs h = ground arith

Round-miss :
    (b c : ℕ) (bs : List ℕ) (r : Option (List ℕ))
    → (b == b' ' && c == b' ') ≡ false
    → Heads c r
    → Round (c ∷ bs) r
    → Round (b ∷ c ∷ bs) (onto_path b r)
unfolding spaced space_pairs
Round-miss b c bs none h head e = rw h (ap (◌∷◌ b) e.0, e.1)
Round-miss b c bs (some []) h head e = absurd head
Round-miss b c bs (some (d ∷ ds)) h head e = rw (head, h) (ap (◌∷◌ b) e.0, e.1)

escape_pair-Round : (path : List ℕ) → Round path (escape_pair path)
unfolding escape_pair spaced space_pairs
escape_pair-Round [] = (refl, refl)
escape_pair-Round (b ∷ []) = (refl, refl)
escape_pair-Round (b ∷ c ∷ bs) = elim (Bool-cases (b == b' ' && c == b' ')) [
  | inl h ↦ if_true (Round (b ∷ c ∷ bs)) _ _ _ h (Round-hit b c bs h)
  | inr m ↦
      if_false (Round (b ∷ c ∷ bs)) _ _ _ m
        (Round-miss b c bs _ m (escape_pair-Heads c bs) (escape_pair-Round (c ∷ bs)))
]

loop_step :
    (fuel : ℕ) (path : List ℕ) (r : Option (List ℕ))
    → escape_pair path ≡ r
    → Round path r
    → space_pairs path < suc fuel
    → ((longer : List ℕ)
        → space_pairs longer < fuel
        → escape_loop fuel longer ≡ some (spaced longer))
    → escape_loop (suc fuel) path ≡ some (spaced path)
unfolding escape_loop
loop_step fuel path none e s h later = rw (e, escape_loop) (ap some (sym s.0))
loop_step fuel path (some longer) e s h later =
    rw (e, escape_loop) (later longer (omega (arith, s.1, h)) ∙ ap some s.0)

-- More rounds than pairs are enough.
escape_loop-spaced :
    (fuel : ℕ) (path : List ℕ)
    → space_pairs path < fuel
    → escape_loop fuel path ≡ some (spaced path)
unfolding escape_loop
escape_loop-spaced zero path h = absurd (omega arith)
escape_loop-spaced (suc fuel) path h =
    loop_step fuel path (escape_pair path) refl (escape_pair-Round path) h (escape_loop-spaced fuel)

-- The loop ends within one round more than the path has bytes, and the path that it leaves has a
-- backslash between each two spaces in a row and is the same otherwise.
pub escape_loop-ends : (path : List ℕ) → escape_loop (suc (length path)) path ≡ some (spaced path)
escape_loop-ends path =
    escape_loop-spaced (suc (length path)) path (omega (arith, space_pairs-length path))
