-- ===== src/Auth/Transfer.antt =====
-- `write_full` and `read_full` of src/auth.c, whatever the system calls answer.
use dewlock.Base.{
  ℕ, zero, suc, ◌-◌, min, List, [], ◌∷◌, ◌++◌, leb, All, All-append, All-take, All-drop, length,
  take, drop, Bool-cases, inl, inr,
}
use dewlock.Auth.{Answer, some_bytes, no_bytes, interrupted, failed, at_end, read_full}

at_end-All :
    (P : ℕ → Type 0) (got : List ℕ) (script : List Answer)
    → All P got
    → All P (at_end got script).got × All P (at_end got script).pending
at_end-All P [] script g = (tt, tt)
at_end-All P (x ∷ got) script g = (g, tt)

-- What was read and what is left come from what there was.
pub read_full-All :
    (P : ℕ → Type 0) (script : List Answer) (got : List ℕ) (need : ℕ) (stream : List ℕ)
    → All P got
    → All P stream
    → All P (read_full script got need stream).got
      × All P (read_full script got need stream).pending
unfolding read_full
read_full-All P [] got zero stream g s = (g, s)
read_full-All P [] got (suc need) [] g s = at_end-All P got [] g
read_full-All P [] got (suc need) (p ∷ ps) g s =
    elim (Bool-cases (leb (suc need) (length (p ∷ ps)))) [
      | inl enough ↦ rw enough (
        All-append P got (p ∷ take need ps) g (s.0, All-take P need ps s.1),
        All-drop P need ps s.1,
      )
      | inr short ↦ rw short (All-append P got (p ∷ ps) g s, tt)
    ]
read_full-All P (failed ∷ script) got zero stream g s = (g, s)
read_full-All P (failed ∷ script) got (suc need) stream g s = (g, s)
read_full-All P (some_bytes k ∷ script) got zero stream g s = (g, s)
read_full-All P (some_bytes k ∷ script) got (suc need) [] g s = at_end-All P got script g
read_full-All P (some_bytes k ∷ script) got (suc need) (p ∷ ps) g s =
    read_full-All P script (got ++ (p ∷ take (min k need) ps)) (need - min (min k need) (length ps))
      (drop (min k need) ps)
      (All-append P got (p ∷ take (min k need) ps) g (s.0, All-take P (min k need) ps s.1))
      (All-drop P (min k need) ps s.1)
read_full-All P (interrupted ∷ script) got zero stream g s = (g, s)
read_full-All P (interrupted ∷ script) got (suc need) stream g s =
    read_full-All P script got (suc need) stream g s
read_full-All P (no_bytes ∷ script) got zero stream g s = (g, s)
read_full-All P (no_bytes ∷ script) got (suc need) stream g s =
    read_full-All P script got (suc need) stream g s
