-- ===== src/Auth/RoundTrip.antt =====
-- A request of src/auth.c from one side to the other.
use dewlock.Base.{
  ℕ, ◌+◌, ◌-◌, ◌%◌, ◌^◌, ◌<◌, ◌≡◌, refl, sym, ap, subst, ◌∙◌, Bool, true, false, List, [], ◌∷◌,
  ◌++◌, append_assoc, arith, ◌==◌, length, length-append, take, drop, get_or, if_true, if_false,
  drop_prefix, take_prefix,
}
use dewlock.Result.{ok, is_ok}
use dewlock.SafeBuf.{Sbuf, Mlock, Created, sbuf_create, lock_buffer}
use dewlock.Auth.{
  Answer, full, Received, Written, Requested, write_full, read_full, size_bytes, size_of,
  auth_write_request, Memory, Read, read_into, read_body, auth_read_request,
}
use dewlock.Auth.Complete.{
  NoFailure, Sends, Gets, write_full-Sends, read_full-Gets, size_of-size_bytes, length-size_bytes,
}
use dewlock.Unicode.LastSize.{get_or-append}

-- What goes over the pipe for a password: the number of its bytes with the NUL, and these bytes.
abbrev pub message : List ℕ → List ℕ
message s = size_bytes 8 (length s + 1) ++ (s ++ 0 ∷ [])

-- If no call fails, the whole request is written, and no call that follows fails.
pub auth_write_request-message :
    (script : List Answer) (pw : Sbuf) (s rest sent : List ℕ)
    → NoFailure script
    → pw.buf ≡ s ++ 0 ∷ rest
    → pw.len ≡ length s
    → length s + 1 < 2 ^ 64
    → ((auth_write_request script pw sent).result ≡ ok)
      × ((auth_write_request script pw sent).sent ≡ sent ++ message s)
      × NoFailure (auth_write_request script pw sent).script
unfolding auth_write_request
auth_write_request-message script pw s rest sent q buf len small =
    if_true Whole head.success _ _ head_sends.success
      (if_true Whole body.success _ _ body_sends.success (refl, body_all, body_sends.script))
  where
    size : ℕ
    size = (pw.len + 1) % 2 ^ 64

    head : Written
    head = write_full script (size_bytes 8 size) sent

    body : Written
    body = write_full head.script (take size pw.buf) head.sent

    head_sends : Sends (size_bytes 8 size) sent head
    head_sends = write_full-Sends script (size_bytes 8 size) sent q

    body_sends : Sends (take size pw.buf) head.sent body
    body_sends = write_full-Sends head.script (take size pw.buf) head.sent head_sends.script

    size_eq : size ≡ length s + 1
    size_eq = omega (arith, len, small)

    body_eq : take size pw.buf ≡ s ++ 0 ∷ []
    body_eq =
        ap (take size) (buf ∙ sym (append_assoc s (0 ∷ []) rest))
        ∙ take_prefix (s ++ 0 ∷ []) rest size (omega (arith, size_eq, length-append s (0 ∷ [])))

    body_all : body.sent ≡ sent ++ message s
    body_all =
        body_sends.all
        ∙ (ap (λ t. t ++ take size pw.buf) head_sends.all
            ∙ (append_assoc sent (size_bytes 8 size) (take size pw.buf)
                ∙ (ap (λ n. sent ++ (size_bytes 8 n ++ take size pw.buf)) size_eq
                    ∙ ap (λ t. sent ++ (size_bytes 8 (length s + 1) ++ t)) body_eq)))

    Whole : Requested → Type 0
    Whole r = (r.result ≡ ok) × (r.sent ≡ sent ++ message s) × NoFailure r.script

-- The child has the password with its NUL, the pipe what stands behind the request, and no call
-- that follows fails.
abbrev pub Arrives : List ℕ → List ℕ → Read → Type 0
Arrives s later r =
    (r.result ≡ ok)
    × (r.pw.buf ≡ s ++ 0 ∷ [])
    × (r.pw.len ≡ length s)
    × (r.stream ≡ later)
    × NoFailure r.script

read_into-Arrives :
    (pw : Sbuf) (size : ℕ) (r : Received) (s later : List ℕ)
    → r.amount ≡ full
    → r.got ≡ s ++ 0 ∷ []
    → r.pending ≡ later
    → size ≡ length s + 1
    → NoFailure r.script
    → Arrives s later (read_into pw size r)
read_into-Arrives pw size r s later amount got pending e q = rw amount (
    if_true (Arrives s later) (get_or r.got (size - 1) 0 == 0) _ _ ends
      (refl, got, omega (arith, e), pending, q))
  where
    last : get_or r.got (size - 1) 0 ≡ 0
    last =
        ap (λ g. get_or g (size - 1) 0) got
        ∙ (ap (λ n. get_or (s ++ 0 ∷ []) n 0) (omega (arith, e)) ∙ get_or-append s (0 ∷ []) 0 0)

    ends : (get_or r.got (size - 1) 0 == 0) ≡ true
    ends = ap (λ n. n == 0) last

created :
    (old : Sbuf) (cap : ℕ) (b : Bool) (found : List ℕ) (answers : List Mlock) (supported : Bool)
    → b ≡ true
    → is_ok (lock_buffer answers supported).0 ≡ true
    → is_ok (sbuf_create old cap b found answers supported).result ≡ true
unfolding sbuf_create
created old cap true found answers supported e locked =
    if_true (λ (c : Created). is_ok c.result ≡ true) (is_ok (lock_buffer answers supported).0) _ _
      locked refl
created old cap false found answers supported e locked = ground (arith, e)

read_body-Arrives :
    (m : Memory) (script : List Answer) (pw : Sbuf) (size : ℕ) (stream s later : List ℕ)
    → NoFailure script
    → m.allocated ≡ true
    → is_ok (lock_buffer m.answers m.supported).0 ≡ true
    → size ≡ length s + 1
    → stream ≡ (s ++ 0 ∷ []) ++ later
    → Arrives s later (read_body m script pw size stream)
unfolding read_body
read_body-Arrives m script pw size stream s later q mem lock e at =
    if_false (Arrives s later) (size == 0) _ _ (ground (arith, e)) (
      if_true (Arrives s later) _ _ _
        (created pw size m.allocated (m.found size) m.answers m.supported mem lock)
        (read_into-Arrives _ size _ s later gets.amount
          (gets.all ∙ (ap (take size) at ∙ take_prefix (s ++ 0 ∷ []) later size whole))
          (gets.left ∙ (ap (drop size) at ∙ drop_prefix (s ++ 0 ∷ []) later size whole)) e
          gets.script))
  where
    whole : size ≡ length (s ++ 0 ∷ [])
    whole = omega (arith, e, length-append s (0 ∷ []))

    gets : Gets size [] stream (read_full script [] size stream)
    gets =
        read_full-Gets script [] size stream q
          (omega (arith, ap length at, length-append (s ++ 0 ∷ []) later, whole))

-- A request that was sent arrives: in pieces of any size, if no call fails and the memory can be had
-- and locked, the child gets the password with its NUL, and what stands behind it in the pipe is
-- left for the next request.
pub auth_read_request-message :
    (m : Memory) (script : List Answer) (pw : Sbuf) (s later : List ℕ)
    → NoFailure script
    → m.allocated ≡ true
    → is_ok (lock_buffer m.answers m.supported).0 ≡ true
    → length s + 1 < 2 ^ 64
    → Arrives s later (auth_read_request m script pw (message s ++ later))
unfolding auth_read_request
auth_read_request-message m script pw s later q mem lock small =
    rw (head.amount, auth_read_request)
      (read_body-Arrives m _ pw _ _ s later head.script mem lock size_eq behind)
  where
    stream : List ℕ
    stream = message s ++ later

    split : stream ≡ size_bytes 8 (length s + 1) ++ ((s ++ 0 ∷ []) ++ later)
    split = append_assoc (size_bytes 8 (length s + 1)) (s ++ 0 ∷ []) later

    eight : 8 ≡ length (size_bytes 8 (length s + 1))
    eight = sym (length-size_bytes 8 (length s + 1))

    head : Gets 8 [] stream (read_full script [] 8 stream)
    head = read_full-Gets script [] 8 stream q (
        omega (
          arith,
          ap length split,
          length-append (size_bytes 8 (length s + 1)) ((s ++ 0 ∷ []) ++ later),
          eight,
        ))

    size_eq : size_of (read_full script [] 8 stream).got ≡ length s + 1
    size_eq =
        ap size_of (
          head.all
          ∙ (ap (take 8) split
              ∙ take_prefix (size_bytes 8 (length s + 1)) ((s ++ 0 ∷ []) ++ later) 8 eight))
        ∙ size_of-size_bytes 8 (length s + 1) (omega (arith, small))

    behind : (read_full script [] 8 stream).pending ≡ (s ++ 0 ∷ []) ++ later
    behind =
        head.left
        ∙ (ap (drop 8) split
            ∙ drop_prefix (size_bytes 8 (length s + 1)) ((s ++ 0 ∷ []) ++ later) 8 eight)

-- What the locker sends of a password, the child receives: if no call fails on either side, in
-- pieces of any size, the child has the same text with its NUL.
pub auth_request-round_trip :
    (m : Memory) (writes reads : List Answer) (pw child : Sbuf) (s rest later : List ℕ)
    → NoFailure writes
    → NoFailure reads
    → pw.buf ≡ s ++ 0 ∷ rest
    → pw.len ≡ length s
    → length s + 1 < 2 ^ 64
    → m.allocated ≡ true
    → is_ok (lock_buffer m.answers m.supported).0 ≡ true
    → Arrives s later
        (auth_read_request m reads child ((auth_write_request writes pw []).sent ++ later))
auth_request-round_trip m writes reads pw child s rest later q r buf len small mem lock =
    subst (λ t. Arrives s later (auth_read_request m reads child (t ++ later)))
      (sym ((auth_write_request-message writes pw s rest [] q buf len small).1))
      (auth_read_request-message m reads child s later r mem lock small)
