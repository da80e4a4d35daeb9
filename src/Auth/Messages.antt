-- ===== src/Auth/Messages.antt =====
-- A pipe of src/auth.c that carries the requests of several passwords, one behind the other.
use dewlock.Base.{
  ℕ, suc, ◌+◌, ◌^◌, ◌<◌, ◌≡◌, refl, sym, ap, ◌∙◌, append_assoc, append-nil, Bool, true, List, [],
  ◌∷◌, ◌++◌, arith, length,
}
use dewlock.Result.{Result, is_ok, is_eof}
use dewlock.SafeBuf.{Sbuf, lock_buffer}
use dewlock.Strings.{c_string}
use dewlock.Auth.{
  Answer, some_bytes, no_bytes, interrupted, failed, eof, Memory, read_full, bool_byte,
  auth_read_request, auth_write_reply,
}
use dewlock.Auth.Complete.{NoFailure, write_full-Sends}
use dewlock.Auth.RoundTrip.{message}

abbrev pub messages : List (List ℕ) → List ℕ
messages [] = []
messages (s ∷ later) = message s ++ messages later

pub messages-append :
    (ss : List (List ℕ)) (s : List ℕ) → messages (ss ++ s ∷ []) ≡ messages ss ++ message s
messages-append [] s = append-nil (message s)
messages-append (t ∷ ss) s =
    ap (◌++◌ (message t)) (messages-append ss s)
    ∙ sym (append_assoc (message t) (messages ss) (message s))

-- In every round the memory for the password can be had and locked.
abbrev pub HasMemory : (ℕ → Memory) → Type 0
HasMemory memory =
    (round : ℕ)
    → ((memory round).allocated ≡ true)
      × (is_ok (lock_buffer (memory round).answers (memory round).supported).0 ≡ true)

-- With its NUL, its size is a `size_t`.
abbrev pub IsShort : List ℕ → Type 0
IsShort s = length s + 1 < 2 ^ 64

pub c_string-ends : (s : List ℕ) → c_string (s ++ 0 ∷ []) ≡ c_string s
unfolding c_string
c_string-ends [] = refl
c_string-ends (b ∷ bs) = ground (arith, c_string-ends bs)

read_full-eof :
    (script : List Answer) (need : ℕ)
    → NoFailure script
    → (read_full script [] (suc need) []).amount ≡ eof
unfolding read_full
read_full-eof [] need q = refl
read_full-eof (some_bytes k ∷ script) need q = refl
read_full-eof (interrupted ∷ script) need q = read_full-eof script need q.1
read_full-eof (no_bytes ∷ script) need q = cc
read_full-eof (failed ∷ script) need q = cc

pub auth_read_request-eof :
    (m : Memory) (script : List Answer) (pw : Sbuf)
    → NoFailure script
    → is_eof (auth_read_request m script pw []).result ≡ true
unfolding auth_read_request
auth_read_request-eof m script pw q = rw (read_full-eof script 7 q, auth_read_request) refl

-- The reply is in the pipe, and no call that follows fails.
abbrev pub Replies : Bool → List ℕ → Result × List ℕ × List Answer → Type 0
Replies success sent w = (is_ok w.0 ≡ true) × (w.1 ≡ sent ++ bool_byte success ∷ []) × NoFailure w.2

pub auth_write_reply-Replies :
    (script : List Answer) (success : Bool) (sent : List ℕ)
    → NoFailure script
    → Replies success sent (auth_write_reply script success sent)
unfolding auth_write_reply
auth_write_reply-Replies script success sent q =
    let w = write_full-Sends script (bool_byte success ∷ []) sent q in
    (rw w.success refl, w.all, w.script)
