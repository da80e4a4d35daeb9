-- ===== src/AuthShadow/Serving.antt =====
-- The loop of `auth_run` of src/auth-shadow.c against the requests that the pipe carries.
use dewlock.Base.{
  ℕ, zero, suc, ◌<◌, ◌≡◌, refl, ap, ◌∙◌, Bool, not, ◌||◌, Option, none, some, List, [], ◌∷◌, ◌++◌,
  append_assoc, append-nil, arith, All, length, if_true, if_false, ◌==◌, if◌then◌else◌,
}
use dewlock.Result.{is_ok, is_eof}
use dewlock.SafeBuf.{Sbuf}
use dewlock.Strings.{c_string}
use dewlock.Strings.Equality.{same_text, strcmp-zero}
use dewlock.Auth.{Answer, bool_byte, auth_read_request, auth_write_reply}
use dewlock.Auth.Complete.{NoFailure}
use dewlock.Auth.RoundTrip.{Arrives, message, auth_read_request-message}
use dewlock.Auth.Messages.{
  messages, HasMemory, IsShort, c_string-ends, auth_read_request-eof, auth_write_reply-Replies,
}
use dewlock.AuthShadow.{World, Ended, is_star, compare_hash, reply_check, serve, auth_run}

-- What a hash says of the password: nothing if it is an error text or not as long as the one that is
-- stored, else whether the two are the same text.
unfoldable pub verdict : List ℕ → Option (List ℕ) → Option Bool
verdict hash none = none
verdict hash (some c) =
    if is_star c || not (length c == length hash) then none else some (same_text c hash)

abbrev then_reply : Option Bool → Ended → Ended
then_reply none rest = record { exit = 1; sent = [] }
then_reply (some success) rest = record rest { sent = bool_byte success ∷ rest.sent }

-- What the passwords come to: the exit status, and a byte for each, up to the first without a verdict.
unfoldable pub verdicts : World → List ℕ → List (List ℕ) → Ended
verdicts w hash [] = record { exit = 0; sent = [] }
verdicts w hash (s ∷ later) =
    then_reply (verdict hash (w.crypt (c_string s) hash)) (verdicts w hash later)

pub compare_hash-verdict :
    (hash : List ℕ) (c : Option (List ℕ)) → compare_hash hash c ≡ verdict hash c
unfolding compare_hash verdict
compare_hash-verdict hash none = refl
compare_hash-verdict hash (some c) = rw (strcmp-zero c hash) refl

reply_check-then_reply :
    (v : Option Bool) (sent : List ℕ) (next : Bool → Option Ended) (rest : Ended)
    → ((success : Bool)
        → next success
          ≡ some (record rest { sent = (sent ++ bool_byte success ∷ []) ++ rest.sent }))
    → reply_check v sent next
      ≡ some (record (then_reply v rest) { sent = sent ++ (then_reply v rest).sent })
reply_check-then_reply none sent next rest h = rw (append-nil sent) refl
reply_check-then_reply (some success) sent next rest h =
    h success
    ∙ ap (λ t. some (record rest { sent = t }))
        (append_assoc sent (bool_byte success ∷ []) rest.sent)

serve-verdicts :
    (fuel : ℕ) (w : World) (hash : List ℕ) (round : ℕ) (reads writes : List Answer)
    (passwords : List (List ℕ)) (sent : List ℕ)
    → HasMemory w.memory
    → NoFailure reads
    → NoFailure writes
    → All IsShort passwords
    → length passwords < fuel
    → serve fuel w hash round reads writes (messages passwords) sent
      ≡ some
          (record (verdicts w hash passwords) { sent = sent ++ (verdicts w hash passwords).sent })
unfolding serve verdicts
serve-verdicts zero w hash round reads writes passwords sent mem q q' small h = absurd (omega arith)
serve-verdicts (suc fuel) w hash round reads writes [] sent mem q q' small h =
    if_true (λ o. o ≡ some (record { exit = 0; sent = sent ++ [] })) _ _ _
      (auth_read_request-eof (w.memory round) reads _ q) (rw (append-nil sent) refl)
serve-verdicts (suc fuel) w hash round reads writes (s ∷ later) sent mem q q' small h =
    let pw : Sbuf = record { buf = []; cap = 0; len = 0 } in
    let r = auth_read_request (w.memory round) reads pw (message s ++ messages later) in
    let arrives : Arrives s (messages later) r =
      auth_read_request-message (w.memory round) reads pw s (messages later) q ((mem round).0)
        ((mem round).1) (small.0) in
    let rest = verdicts w hash later in
    let whole = then_reply (verdict hash (w.crypt (c_string s) hash)) rest in
    let Same : Option Ended → Type 0 = λ o. o ≡ some (record whole { sent = sent ++ whole.sent }) in
    let text : c_string r.pw.buf ≡ c_string s = ap c_string arrives.1 ∙ c_string-ends s in
    let next : Bool → Option Ended = λ success.
      let (written, sent', writes') = auth_write_reply writes success sent in
      if is_ok written
      then serve fuel w hash (suc round) r.script writes' r.stream sent'
      else some (record { exit = 1; sent = sent' }) in
    if_false Same (is_eof r.result) _ _ (ap is_eof arrives.0) (
      if_true Same (is_ok r.result) _ (some (record { exit = 1; sent = sent })) (ap is_ok arrives.0)
        (ap (λ v. reply_check v sent next)
            (compare_hash-verdict hash (w.crypt (c_string r.pw.buf) hash)
              ∙ ap (λ t. verdict hash (w.crypt t hash)) text)
          ∙ reply_check-then_reply (verdict hash (w.crypt (c_string s) hash)) sent next rest
              λ success.
                let w' = auth_write_reply-Replies writes success sent q' in
                if_true
                  (λ o.
                    o ≡ some (record rest { sent = (sent ++ bool_byte success ∷ []) ++ rest.sent }))
                  _ _ _ w'.0
                  (ap
                      (λ t.
                        serve fuel w hash (suc round) r.script
                          ((auth_write_reply writes success sent).2) r.stream t)
                      w'.1
                    ∙ (ap
                          (λ t.
                            serve fuel w hash (suc round) r.script
                              ((auth_write_reply writes success sent).2) t
                              (sent ++ bool_byte success ∷ []))
                          arrives.3
                        ∙ serve-verdicts fuel w hash (suc round) r.script _ later
                            (sent ++ bool_byte success ∷ []) mem arrives.4 w'.2 small.1
                            (omega arith)))))

-- If no call on the pipes fails and the memory can be had and locked, the requests of the locker, each
-- of a password of less than 2 ^ 64 - 1 bytes, are answered in their order: a 1 if `crypt` gives the
-- stored hash, a 0 if it gives another text. The first hash that is an error text or has another
-- length ends the process with status 1 and no reply. Else it goes on after a success too, and ends
-- with status 0 when the requests are used up.
pub auth_run-verdicts :
    (fuel : ℕ) (w : World) (hash : List ℕ) (reads writes : List Answer) (passwords : List (List ℕ))
    → HasMemory w.memory
    → NoFailure reads
    → NoFailure writes
    → All IsShort passwords
    → length passwords < fuel
    → auth_run fuel w hash reads writes (messages passwords) ≡ some (verdicts w hash passwords)
unfolding auth_run
auth_run-verdicts fuel w hash reads writes passwords mem q q' small h =
    serve-verdicts fuel w hash 0 reads writes passwords [] mem q q' small h
