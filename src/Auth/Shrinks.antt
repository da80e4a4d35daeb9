-- ===== src/Auth/Shrinks.antt =====
-- A request that `auth_read_request` of src/auth.c accepts has taken bytes out of the pipe.
use dewlock.Base.{
  ℕ, zero, suc, ◌+◌, ◌-◌, ◌≤◌, ◌<◌, ◌≡◌, true, refl, min, List, [], ◌∷◌, ◌++◌, arith, leb, length,
  length-drop, take, drop, Bool-cases, inl, inr, ◌==◌, if_both, sym, subst, ◌⊎◌,
}
use dewlock.Result.{is_ok}
use dewlock.SafeBuf.{Sbuf, sbuf_create}
use dewlock.Auth.{
  Answer, some_bytes, no_bytes, interrupted, failed, Amount, full, eof, broken, Received, at_end,
  read_rest, read_full, Memory, Read, read_into, read_body, auth_read_request, size_of, sizeof_size,
}

-- What `read_full` leaves in the pipe, by what it returned.
abbrev LeavesAtMost : ℕ → List ℕ → Received → Type 0
LeavesAtMost need stream r =
    (length r.pending ≤ length stream) × (r.amount ≡ full → length r.pending + need ≤ length stream)

at_end-LeavesAtMost :
    (got : List ℕ) (script : List Answer) (need : ℕ) → LeavesAtMost need [] (at_end got script)
at_end-LeavesAtMost [] script need = (omega arith, λ e. cc)
at_end-LeavesAtMost (g ∷ gs) script need = (omega arith, λ e. cc)

read_rest-LeavesAtMost :
    (got : List ℕ) (need : ℕ) (stream : List ℕ)
    → LeavesAtMost need stream (read_rest got need stream)
read_rest-LeavesAtMost got need [] = at_end-LeavesAtMost got [] need
read_rest-LeavesAtMost got need (p ∷ ps) = elim (Bool-cases (leb need (length (p ∷ ps)))) [
  | inl enough ↦
      rw enough
        (omega (arith, length-drop need (p ∷ ps)), λ e. ground (arith, length-drop need (p ∷ ps)))
  | inr short ↦ rw short (omega arith, λ e. cc)
]

read_full-LeavesAtMost :
    (script : List Answer) (got : List ℕ) (need : ℕ) (stream : List ℕ)
    → LeavesAtMost need stream (read_full script got need stream)
unfolding read_full
read_full-LeavesAtMost [] got zero stream = (omega arith, λ e. omega arith)
read_full-LeavesAtMost (a ∷ script) got zero stream = (omega arith, λ e. omega arith)
read_full-LeavesAtMost [] got (suc need) stream = read_rest-LeavesAtMost got (suc need) stream
read_full-LeavesAtMost (failed ∷ script) got (suc need) stream = (omega arith, λ e. cc)
read_full-LeavesAtMost (some_bytes k ∷ script) got (suc need) [] =
    at_end-LeavesAtMost got script (suc need)
read_full-LeavesAtMost (some_bytes k ∷ script) got (suc need) (p ∷ ps) =
    let rest =
      read_full-LeavesAtMost script (got ++ (p ∷ take (min k need) ps))
        (need - min (min k need) (length ps)) (drop (min k need) ps) in
    (
      omega (arith, rest.0, length-drop (min k need) ps),
      λ e. omega (arith, rest.1 e, length-drop (min k need) ps),
    )
read_full-LeavesAtMost (interrupted ∷ script) got (suc need) stream =
    read_full-LeavesAtMost script got (suc need) stream
read_full-LeavesAtMost (no_bytes ∷ script) got (suc need) stream =
    read_full-LeavesAtMost script got (suc need) stream

read_into-stream : (pw : Sbuf) (size : ℕ) (r : Received) → (read_into pw size r).stream ≡ r.pending
read_into-stream pw size r = ground arith

read_body-stream :
    (m : Memory) (script : List Answer) (pw : Sbuf) (size : ℕ) (stream : List ℕ)
    → length (read_body m script pw size stream).stream ≤ length stream
unfolding read_body
read_body-stream m script pw size stream =
    let made = sbuf_create pw size m.allocated (m.found size) m.answers m.supported in
    let body = read_full script [] size stream in
    let AtMost : Read → Type 0 = λ r. length r.stream ≤ length stream in
    if_both AtMost (size == 0) _ _ (omega arith) (
      if_both AtMost (is_ok made.result) _ _
        (subst (λ t. length t ≤ length stream) (sym (read_into-stream made.sbuf size body))
          ((read_full-LeavesAtMost script [] size stream).0))
        (omega arith))

Amount-cases : (a : Amount) → (a ≡ full) ⊎ ((a ≡ eof) ⊎ (a ≡ broken))
Amount-cases full = inl refl
Amount-cases eof = inr (inl refl)
Amount-cases broken = inr (inr refl)

-- A request that is accepted leaves less in the pipe, whatever the calls of the system answer.
pub auth_read_request-stream :
    (m : Memory) (script : List Answer) (pw : Sbuf) (stream : List ℕ)
    → is_ok (auth_read_request m script pw stream).result ≡ true
    → length (auth_read_request m script pw stream).stream < length stream
unfolding auth_read_request
auth_read_request-stream m script pw stream =
    let head = read_full script [] sizeof_size stream in
    elim (Amount-cases head.amount) [
      | inl whole ↦
          rw (whole, auth_read_request)
            (λ e. omega (
              arith,
              (read_full-LeavesAtMost script [] sizeof_size stream).1 whole,
              read_body-stream m head.script pw (size_of head.got) head.pending,
            ))
      | inr (inl end) ↦ rw (end, auth_read_request) (λ e. cc)
      | inr (inr bad) ↦ rw (bad, auth_read_request) (λ e. cc)
    ]
