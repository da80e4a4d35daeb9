-- ===== src/SafeBuf/Lock.antt =====
-- `lock_buffer` of src/safebuf.c by the answers of `mlock`.
use dewlock.Base.{
  ℕ, zero, suc, ◌<◌, ◌≡◌, ◌≢◌, refl, Bool, false, List, ◌∷◌, ◌++◌, arith, ltb, if◌then◌else◌,
  replicate,
}
use dewlock.Result.{Result, ok, err_sbuf_lock}
use dewlock.SafeBuf.{Mlock, locked, eagain, eperm, other_error, lock_buffer, lock_loop}

-- The result for the first answer that is no EAGAIN.
abbrev pub settles : Mlock → Bool → Result × Bool
settles locked s = (ok, s)
settles eagain s = (err_sbuf_lock, s)
settles eperm s = (ok, false)
settles other_error s = (err_sbuf_lock, s)

lock_loop-answers :
    (r n : ℕ) (o : Mlock) (rest : List Mlock) (s : Bool)
    → o ≢ eagain
    → 0 < r
    → lock_loop r (replicate n eagain ++ o ∷ rest) s
      ≡ (if ltb n r then settles o s else (err_sbuf_lock, s))
unfolding lock_loop
lock_loop-answers zero n o rest s ne p = absurd (omega arith)
lock_loop-answers (suc r) zero locked rest s ne p = ground arith
lock_loop-answers (suc r) zero eagain rest s ne p = absurd (ne refl)
lock_loop-answers (suc r) zero eperm rest s ne p = ground arith
lock_loop-answers (suc r) zero other_error rest s ne p = ground arith
lock_loop-answers (suc r) (suc n) o rest s ne p = ground (arith, lock_loop-answers r n o rest s ne)

-- After `n` answers EAGAIN and then another one, `lock_buffer` has the result that answer stands
-- for, if `n` is below 5; from 5 on it gives up. Locking is marked unsupported for EPERM alone.
lock_buffer-answers :
    (n : ℕ) (o : Mlock) (rest : List Mlock) (s : Bool)
    → o ≢ eagain
    → lock_buffer (replicate n eagain ++ o ∷ rest) s
      ≡ (if ltb n 5 then settles o s else (err_sbuf_lock, s))
unfolding lock_buffer
lock_buffer-answers n o rest s ne = lock_loop-answers 5 n o rest s ne (omega arith)
