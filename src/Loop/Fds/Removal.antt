-- ===== src/Loop/Fds/Removal.antt =====
-- `loop_remove_fd` of src/loop.c against the list of pairs.
use native.Mathlib.Nat.{zero-add, suc-add}
use dewlock.Base.{
  ℕ, suc, ◌+◌, ◌-◌, ◌≤◌, ◌≡◌, refl, sym, ap, subst, ◌∙◌, Bool, true, false, List, [], ◌∷◌, ◌++◌,
  append_assoc, arith, ◌==◌, length, length-append, length-take, length-drop, get_or, take, drop,
  if_true, if_false, Bool-cases, inl, inr,
}
use dewlock.Loop.{FdCallback, Pollfd, Loop, blank, loop_remove_fd, remove_fd_loop, move_down}
use dewlock.Loop.Fds.{pairs, registered, IsArray, without_fd, has_fd}

pairs-prefix :
    (pre ps : List Pollfd) (seen cs : List FdCallback)
    → length pre ≡ length seen
    → pairs (pre ++ ps) (seen ++ cs) ≡ pairs pre seen ++ pairs ps cs
unfolding pairs
pairs-prefix [] ps [] cs e = refl
pairs-prefix [] ps (c ∷ seen) cs e = absurd (omega (arith, e))
pairs-prefix (p ∷ pre) ps [] cs e = absurd (omega (arith, e))
pairs-prefix (p ∷ pre) ps (c ∷ seen) cs e =
    ap (λ t. (p.fd, c) ∷ t) (pairs-prefix pre ps seen cs (omega (arith, e)))

pairs-take :
    (ps more : List Pollfd) (cs : List FdCallback)
    → length cs ≤ length ps
    → pairs (take (length cs) ps ++ more) cs ≡ pairs ps cs
unfolding pairs
pairs-take [] [] [] h = refl
pairs-take [] (q ∷ more) [] h = refl
pairs-take [] more (c ∷ cs) h = absurd (omega arith)
pairs-take (p ∷ ps) [] [] h = refl
pairs-take (p ∷ ps) (q ∷ more) [] h = refl
pairs-take (p ∷ ps) more (c ∷ cs) h = ap (λ t. (p.fd, c) ∷ t) (pairs-take ps more cs (omega arith))

get_or-prefix : (pre ps : List Pollfd) (p : Pollfd) → get_or (pre ++ p ∷ ps) (length pre) blank ≡ p
get_or-prefix [] ps p = refl
get_or-prefix (q ∷ pre) ps p = get_or-prefix pre ps p

move_down-prefix :
    (pre ps : List Pollfd) (p : Pollfd) (n : ℕ)
    → move_down (pre ++ p ∷ ps) (length pre) n ≡ pre ++ (take n ps ++ drop n (p ∷ ps))
move_down-prefix [] ps p n = rw (zero-add n) refl
move_down-prefix (q ∷ pre) ps p n =
    rw (suc-add (length pre) n, suc-add (length pre) 1) (ap (◌∷◌ q) (move_down-prefix pre ps p n))

-- What the loop leaves, with the pairs behind it already and those to come.
abbrev Leaves : ℕ → List (ℕ × FdCallback) → List (ℕ × FdCallback) → Loop × Bool → Type 0
Leaves fd done todo r =
    (registered r.0 ≡ done ++ without_fd fd todo) × (r.1 ≡ has_fd fd todo) × IsArray r.0

module _ (l : Loop) (a : IsArray l) (pre ps : List Pollfd) (seen rest : List FdCallback)
    (p : Pollfd) (c : FdCallback) (array : l.fds ≡ pre ++ p ∷ ps)
    (events : l.fd_events ≡ seen ++ c ∷ rest) (same : length pre ≡ length seen) where
  length_array : length pre + suc (length ps) ≡ l.fd_capacity
  length_array = sym (length-append pre (p ∷ ps)) ∙ (sym (ap length array) ∙ a.capacity)

  length_events : length pre + suc (length rest) ≡ l.fd_length
  length_events =
      ap (λ n. n + suc (length rest)) same
      ∙ (sym (length-append seen (c ∷ rest)) ∙ (sym (ap length events) ∙ a.events))

  -- The entry is taken out of the array.
  abbrev shifted : List Pollfd
  shifted = move_down l.fds (length pre) (l.fd_length - 1 - length pre)

  shifted-eq : shifted ≡ pre ++ (take (length rest) ps ++ drop (length rest) (p ∷ ps))
  shifted-eq =
      ap (λ f. move_down f (length pre) (l.fd_length - 1 - length pre)) array
      ∙ (ap (λ n. move_down (pre ++ p ∷ ps) (length pre) n) (omega (arith, length_events))
          ∙ move_down-prefix pre ps p (length rest))

  shifted-length : length shifted ≡ l.fd_capacity
  shifted-length =
      ap length shifted-eq
      ∙ (length-append pre (take (length rest) ps ++ drop (length rest) (p ∷ ps))
          ∙ omega (
            arith,
            length-append (take (length rest) ps) (drop (length rest) (p ∷ ps)),
            length-take (length rest) ps,
            length-drop (length rest) (p ∷ ps),
            length_array,
            length_events,
            a.below,
          ))

  shifted-pairs : pairs shifted (seen ++ rest) ≡ pairs pre seen ++ pairs ps rest
  shifted-pairs =
      ap (λ f. pairs f (seen ++ rest)) shifted-eq
      ∙ (pairs-prefix pre _ seen rest same
          ∙ ap (λ t. pairs pre seen ++ t)
              (pairs-take ps (drop (length rest) (p ∷ ps)) rest
                (omega (arith, length_array, length_events, a.below))))

  hit-Leaves :
      (fd : ℕ)
      → (p.fd == fd) ≡ true
      → Leaves fd
          (pairs pre seen)
          ((p.fd, c) ∷ pairs ps rest)
          (record l { fds = shifted; fd_length = l.fd_length - 1; fd_events = seen ++ rest }, true)
  unfolding without_fd has_fd
  hit-Leaves fd h = rw h (
    shifted-pairs,
    refl,
    record {
      events = length-append seen rest ∙ omega (arith, length_events, same);
      below = omega (arith, a.below);
      capacity = shifted-length;
    },
  )

missed-Leaves :
    (fd : ℕ) (done todo : List (ℕ × FdCallback)) (e : ℕ × FdCallback) (r : Loop × Bool)
    → (e.0 == fd) ≡ false
    → Leaves fd (done ++ e ∷ []) todo r
    → Leaves fd done (e ∷ todo) r
unfolding without_fd has_fd
missed-Leaves fd done todo e r m h =
    rw m (h.0 ∙ append_assoc done (e ∷ []) (without_fd fd todo), h.1, h.2)

loop-Leaves :
    (l : Loop) (fd : ℕ) (pre ps : List Pollfd) (seen es : List FdCallback)
    → IsArray l
    → l.fds ≡ pre ++ ps
    → l.fd_events ≡ seen ++ es
    → length pre ≡ length seen
    → Leaves fd (pairs pre seen) (pairs ps es) (remove_fd_loop l fd seen es (length pre))
unfolding remove_fd_loop pairs without_fd has_fd
loop-Leaves l fd pre ps seen [] a array events same = (
  nothing_left ∙ (pairs-prefix pre ps seen [] same ∙ ap (λ t. pairs pre seen ++ t) (nil_pairs ps)),
  sym (ap (has_fd fd) (pairs-nil ps)),
  a,
)
  where
    nothing_left : registered l ≡ pairs (pre ++ ps) (seen ++ [])
    nothing_left = ap (λ f. pairs f l.fd_events) array ∙ ap (pairs (pre ++ ps)) events

    nil_pairs : (xs : List Pollfd) → pairs xs [] ≡ without_fd fd (pairs xs [])
    nil_pairs [] = refl
    nil_pairs (x ∷ xs) = refl

    pairs-nil : (xs : List Pollfd) → pairs xs [] ≡ []
    pairs-nil [] = refl
    pairs-nil (x ∷ xs) = refl
loop-Leaves l fd pre [] seen (c ∷ rest) a array events same = absurd (
    omega (
      arith,
      length-append pre [],
      length-append seen (c ∷ rest),
      ap length array,
      ap length events,
      same,
      a.events,
      a.below,
      a.capacity,
    ))
loop-Leaves l fd pre (p ∷ ps) seen (c ∷ rest) a array events same = elim (Bool-cases (p.fd == fd)) [
  | inl h ↦
      if_true (Leaves fd (pairs pre seen) ((p.fd, c) ∷ pairs ps rest)) _ _ _ (test ∙ h)
        (hit-Leaves l a pre ps seen rest p c array events same fd h)
  | inr m ↦ if_false (Leaves fd (pairs pre seen) ((p.fd, c) ∷ pairs ps rest)) _ _ _ (test ∙ m) (
      missed-Leaves fd (pairs pre seen) (pairs ps rest) (p.fd, c) _ m
        (subst
          (λ d.
            Leaves fd d (pairs ps rest)
              (remove_fd_loop l fd (seen ++ c ∷ []) rest (length pre + 1)))
          (pairs-prefix pre (p ∷ []) seen (c ∷ []) same)
          (subst
            (λ k.
              Leaves fd (pairs (pre ++ p ∷ []) (seen ++ c ∷ [])) (pairs ps rest)
                (remove_fd_loop l fd (seen ++ c ∷ []) rest k))
            (length-append pre (p ∷ []))
            (loop-Leaves l fd (pre ++ p ∷ []) ps (seen ++ c ∷ []) rest a
              (array ∙ sym (append_assoc pre (p ∷ []) ps))
              (events ∙ sym (append_assoc seen (c ∷ []) rest))
              (length-append pre (p ∷ [])
                ∙ (ap (λ n. n + 1) same ∙ sym (length-append seen (c ∷ []))))))))
]
  where
    test : ((get_or l.fds (length pre) blank).fd == fd) ≡ (p.fd == fd)
    test =
        ap (λ f. (get_or f (length pre) blank).fd == fd) array
        ∙ ap (λ (q : Pollfd). q.fd == fd) (get_or-prefix pre ps p)

-- Removing a descriptor takes out the first pair that has it, answers whether there was one, and
-- keeps array and list in step.
pub loop_remove_fd-registered :
    (l : Loop) (fd : ℕ)
    → IsArray l
    → (registered (loop_remove_fd l fd).0 ≡ without_fd fd (registered l))
      × ((loop_remove_fd l fd).1 ≡ has_fd fd (registered l))
      × IsArray (loop_remove_fd l fd).0
unfolding loop_remove_fd pairs
loop_remove_fd-registered l fd a = loop-Leaves l fd [] l.fds [] l.fd_events a refl refl refl
