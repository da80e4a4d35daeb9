-- ===== src/SafeBuf/Contents.antt =====
-- What the operations of src/safebuf.c leave in memory.
use dewlock.Base.{
  ℕ, ◌≡◌, refl, ap, Bool, true, false, if◌then◌else◌, List, [], ◌∷◌, append-nil, length, drop,
  replicate,
}
use dewlock.Result.{is_ok}
use dewlock.SafeBuf.{
  Sbuf, Mlock, Created, zero_fill, lock_buffer, sbuf_create, sbuf_destroy, sbuf_clear,
}

-- The memory is as large as the buffer's capacity.
abbrev pub IsSized : Sbuf → Type 0
IsSized s = length s.buf ≡ s.cap

drop-length {ℓ} : {A : Type ℓ} (xs : List A) → drop (length xs) xs ≡ []
drop-length [] = refl
drop-length (x ∷ xs) = drop-length xs

pub zero_fill-length :
    (n : ℕ) (bytes : List ℕ) → length bytes ≡ n → zero_fill n bytes ≡ replicate n 0
zero_fill-length n bytes e = rw (← e, drop-length bytes) (append-nil (replicate (length bytes) 0))

-- Clearing zeroes every byte of the buffer, not only those in use, and keeps the memory.
pub sbuf_clear-zeroes : (s : Sbuf) → IsSized s → (sbuf_clear s).buf ≡ replicate s.cap 0
unfolding sbuf_clear
sbuf_clear-zeroes s e = zero_fill-length s.cap s.buf e

created_or_old :
    (b : Bool) (x y : Created) (new old : Sbuf)
    → is_ok x.result ≡ true
    → x.sbuf ≡ new
    → (b ≡ false → is_ok y.result ≡ false)
    → y.sbuf ≡ old
    → (if b then x else y).sbuf ≡ (if is_ok (if b then x else y).result then new else old)
created_or_old true x y new old good e bad e' = rw good e
created_or_old false x y new old good e bad e' = rw (bad refl) e'

-- A buffer that was created has its capacity in zero bytes and none of them in use; on a failure the
-- old buffer is left as it was, and the result is no success.
pub sbuf_create-zeroes :
    (old : Sbuf) (cap : ℕ) (allocated : Bool) (found : List ℕ) (answers : List Mlock)
    (supported : Bool)
    → length found ≡ cap
    → (sbuf_create old cap allocated found answers supported).sbuf ≡ (
        if is_ok (sbuf_create old cap allocated found answers supported).result
        then record { buf = replicate cap 0; cap = cap; len = 0 }
        else old)
unfolding sbuf_create
sbuf_create-zeroes old cap false found answers supported e = refl
sbuf_create-zeroes old cap true found answers supported e =
    created_or_old (is_ok (lock_buffer answers supported).0) _ _ _ old refl
      (ap (λ m. record { buf = m; cap = cap; len = 0 }) (zero_fill-length cap found e)) (λ h. h)
      refl

-- The memory of a buffer is all zero when it is freed, and nothing of the buffer is left.
sbuf_destroy-zeroes :
    (s : Sbuf)
    → IsSized s
    → sbuf_destroy s ≡ (record { buf = []; cap = 0; len = 0 }, replicate s.cap 0)
unfolding sbuf_destroy
sbuf_destroy-zeroes s e = rw (zero_fill-length s.cap s.buf e) refl
