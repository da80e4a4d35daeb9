-- ===== src/SafeBuf.antt =====
-- src/safebuf.c: the locked buffer that holds a password. The memory behind `buf` is the list of
-- its bytes, empty for NULL. What `posix_memalign` and the calls of `mlock` answer is an argument;
-- a list of `mlock` answers that runs out goes on with success.
pub mod Lock
pub mod Contents
use dewlock.Base.{
  ℕ, zero, suc, ◌+◌, Bool, true, false, List, [], ◌∷◌, ◌++◌, ◌==◌, if◌then◌else◌, drop, replicate,
}
use dewlock.Result.{Result, ok, err_sbuf_alloc, err_sbuf_lock, is_ok}

pub record Sbuf : Type 0 where
  pub buf : List ℕ
  pub cap : ℕ
  pub len : ℕ

-- An answer of `mlock`: success, or its `errno`.
pub data Mlock : Type 0 where
  locked eagain eperm other_error : Mlock

-- The loop of `lock_buffer`, by the retries left, with the static `mlock_supported`. The source
-- enters a round only with retries left, so `zero` is its exit by the loop's guard.
lock_loop : ℕ → List Mlock → Bool → Result × Bool
lock_loop zero answers supported = (ok, supported)
lock_loop (suc r) [] supported = (ok, supported)
lock_loop (suc r) (locked ∷ answers) supported = (ok, supported)
lock_loop (suc r) (eagain ∷ answers) supported =
    let again = lock_loop r answers supported in
    if r == 0 then (err_sbuf_lock, supported) else again
lock_loop (suc r) (eperm ∷ answers) supported = (ok, false)
lock_loop (suc r) (other_error ∷ answers) supported = (err_sbuf_lock, supported)

unfoldable pub lock_buffer : List Mlock → Bool → Result × Bool
unfolding lock_loop
lock_buffer = lock_loop 5

-- `memset(buf, 0, n)`
abbrev pub zero_fill : ℕ → List ℕ → List ℕ
zero_fill n bytes = replicate n 0 ++ drop n bytes

pub record Created : Type 0 where
  pub result : Result
  pub sbuf : Sbuf
  pub supported : Bool

-- `found` is the memory that `posix_memalign` hands out, `cap` bytes of any content, or none.
unfoldable pub sbuf_create :
    Sbuf → ℕ → (allocated : Bool) → (found : List ℕ) → List Mlock → Bool → Created
unfolding lock_buffer
sbuf_create old cap false found answers supported = record {
  result = err_sbuf_alloc;
  sbuf = old;
  supported = supported;
}
sbuf_create old cap true found answers supported =
    let (res, supported') = lock_buffer answers supported in
    if is_ok res
    then record {
      result = ok;
      sbuf = record { buf = zero_fill cap found; cap = cap; len = 0 };
      supported = supported';
    }
    else record { result = res; sbuf = old; supported = supported' }

-- The buffer afterwards, and the bytes that the memory held when it was freed. `munlock` changes no
-- byte, and its failure is only logged.
pub sbuf_destroy : Sbuf → Sbuf × List ℕ
sbuf_destroy s = (record { buf = []; cap = 0; len = 0 }, zero_fill s.cap s.buf)

unfoldable pub sbuf_clear : Sbuf → Sbuf
sbuf_clear s = record s { buf = zero_fill s.cap s.buf; len = 0 }
