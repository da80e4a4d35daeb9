-- ===== src/Loop/Fds.antt =====
-- The registered file descriptors: `loop_add_fd` and `loop_remove_fd` of src/loop.c on the array and
-- the list of callbacks against one list of pairs.
pub mod Removal
use native.Mathlib.Nat.{add-zero}
use mathlib.Core.List.{append-nil}
use dewlock.Base.{
  ℕ, zero, suc, ◌+◌, ◌-◌, ◌≤◌, ◌<◌, ◌≡◌, refl, sym, ap, subst, ◌∙◌, Bool, true, false, List, [],
  ◌∷◌, ◌++◌, append_assoc, arith, ◌==◌, if◌then◌else◌, length, length-append, length-take,
  length-drop, length-set, length-replicate, get_or, set, take, drop, replicate, if_true, if_false,
  Bool-cases, inl, inr, drop_prefix, take_prefix,
}
use dewlock.Loop.{
  FdCallback, Mask, no_events, Pollfd, Loop, blank, loop_add_fd, loop_remove_fd, remove_fd_loop,
  move_down,
}

-- The descriptor and the callback of each entry in use.
unfoldable pub pairs : List Pollfd → List FdCallback → List (ℕ × FdCallback)
pairs [] cs = []
pairs (p ∷ ps) [] = []
pairs (p ∷ ps) (c ∷ cs) = (p.fd, c) ∷ pairs ps cs

abbrev pub registered : Loop → List (ℕ × FdCallback)
registered l = pairs l.fds l.fd_events

-- Array and list have as many entries in use, and the array its capacity.
pub record IsArray (l : Loop) : Type 0 where
  pub events : length l.fd_events ≡ l.fd_length
  pub below : l.fd_length ≤ l.fd_capacity
  pub capacity : length l.fds ≡ l.fd_capacity

-- The list of pairs without the first one of a descriptor.
unfoldable pub without_fd : ℕ → List (ℕ × FdCallback) → List (ℕ × FdCallback)
without_fd fd [] = []
without_fd fd (e ∷ es) = let rest = e ∷ without_fd fd es in if e.0 == fd then es else rest

unfoldable pub has_fd : ℕ → List (ℕ × FdCallback) → Bool
has_fd fd [] = false
has_fd fd (e ∷ es) = let rest = has_fd fd es in if e.0 == fd then true else rest

-- The next free entry.
pairs-set :
    (ps : List Pollfd) (cs : List FdCallback) (p : Pollfd) (c : FdCallback)
    → length cs < length ps
    → pairs (set ps (length cs) p) (cs ++ c ∷ []) ≡ pairs ps cs ++ (p.fd, c) ∷ []
unfolding pairs
pairs-set [] cs p c h = absurd (omega arith)
pairs-set (q ∷ ps) [] p c h = ap (λ t. (p.fd, c) ∷ t) (pairs-nil ps)
  where
    pairs-nil : (xs : List Pollfd) → pairs xs [] ≡ []
    pairs-nil [] = refl
    pairs-nil (x ∷ xs) = refl
pairs-set (q ∷ ps) (e ∷ cs) p c h = ap (λ t. (q.fd, e) ∷ t) (pairs-set ps cs p c (omega arith))

-- More room behind the entries in use does not matter.
pairs-append :
    (ps more : List Pollfd) (cs : List FdCallback)
    → length cs ≤ length ps
    → pairs (ps ++ more) cs ≡ pairs ps cs
unfolding pairs
pairs-append [] [] [] h = refl
pairs-append [] (q ∷ more) [] h = refl
pairs-append [] more (c ∷ cs) h = absurd (omega arith)
pairs-append (p ∷ ps) more [] h = refl
pairs-append (p ∷ ps) more (c ∷ cs) h =
    ap (λ t. (p.fd, c) ∷ t) (pairs-append ps more cs (omega arith))

pairs-set_at :
    (ps : List Pollfd) (cs : List FdCallback) (n : ℕ) (p : Pollfd) (c : FdCallback)
    → length cs ≡ n
    → n < length ps
    → pairs (set ps n p) (cs ++ c ∷ []) ≡ pairs ps cs ++ (p.fd, c) ∷ []
pairs-set_at ps cs n p c e h =
    subst (λ k. pairs (set ps k p) (cs ++ c ∷ []) ≡ pairs ps cs ++ (p.fd, c) ∷ []) e
      (pairs-set ps cs p c (omega (arith, e)))

-- The array that the entry is written to, by whether the old one is full.
room :
    (l : Loop) (b : Bool)
    → IsArray l
    → (l.fd_length == l.fd_capacity) ≡ b
    → let fds = if b then l.fds ++ replicate 10 blank else l.fds in
      (length fds ≡ (if b then l.fd_capacity + 10 else l.fd_capacity))
      × (l.fd_length < length fds)
      × (pairs fds l.fd_events ≡ registered l)
room l true a e = (
  omega (arith, length-append l.fds (replicate 10 blank), a.capacity),
  omega (arith, length-append l.fds (replicate 10 blank), a.capacity, a.below),
  pairs-append l.fds (replicate 10 blank) l.fd_events
      (omega (arith, a.events, a.below, a.capacity)),
)
room l false a e = (a.capacity, ground (arith, a.below, a.capacity), refl)

-- If the memory for the event can be had, adding a descriptor puts it with its callback behind those
-- registered, whether or not the array has to grow; else those registered stay as they are. Either way
-- array and list are kept in step.
pub loop_add_fd-registered :
    (l : Loop) (allocated : Bool) (fd : ℕ) (mask : Mask) (c : FdCallback)
    → IsArray l
    → IsArray (loop_add_fd l allocated fd mask c)
      × (registered (loop_add_fd l allocated fd mask c)
          ≡ registered l ++ (if allocated then (fd, c) ∷ [] else []))
unfolding loop_add_fd
loop_add_fd-registered l false fd mask c a = (a, sym (append-nil (registered l)))
loop_add_fd-registered l true fd mask c a = (
  record {
    events = length-append l.fd_events (c ∷ []) ∙ ap (λ n. n + 1) a.events;
    below = omega (arith, r.0, r.1);
    capacity = length-set _ l.fd_length _ ∙ r.0;
  },
  pairs-set_at _ l.fd_events l.fd_length _ c a.events r.1 ∙ ap (λ t. t ++ (fd, c) ∷ []) r.2,
)
  where
    r :
        (length (if l.fd_length == l.fd_capacity then l.fds ++ replicate 10 blank else l.fds)
          ≡ (if l.fd_length == l.fd_capacity then l.fd_capacity + 10 else l.fd_capacity))
        × (l.fd_length
            < length (if l.fd_length == l.fd_capacity then l.fds ++ replicate 10 blank else l.fds))
        × (pairs
              (if l.fd_length == l.fd_capacity then l.fds ++ replicate 10 blank else l.fds)
              l.fd_events
            ≡ registered l)
    r = room l (l.fd_length == l.fd_capacity) a refl
