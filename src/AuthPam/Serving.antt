-- ===== src/AuthPam/Serving.antt =====
-- The loop of `auth_run` of src/auth-pam.c against the requests that the pipe carries.
use dewlock.Base.{
  ℕ, zero, suc, ◌<◌, ◌≡◌, refl, sym, ap, ◌∙◌, true, Option, some, List, [], ◌∷◌, ◌++◌, append_assoc,
  append-nil, arith, All, length, if_true, if_false, Bool-cases, inl, inr, ◌&&◌, if◌then◌else◌,
}
use dewlock.Result.{Result, is_ok, is_eof}
use dewlock.SafeBuf.{Sbuf, sbuf_destroy}
use dewlock.Strings.{c_string}
use dewlock.Auth.{Answer, Read, bool_byte, auth_read_request, auth_write_reply}
use dewlock.Auth.Complete.{NoFailure}
use dewlock.Auth.RoundTrip.{Arrives, message, auth_read_request-message}
use dewlock.Auth.Messages.{
  messages, HasMemory, IsShort, c_string-ends, auth_read_request-eof, Replies,
  auth_write_reply-Replies,
}
use dewlock.AuthPam.{
  pam_success, PamStatus, World, Ended, authenticate, is_success, serve, end_pam, auth_run,
}

-- What the passwords come to: the last status, and a byte for each check, up to the first success.
unfoldable pub check_all : World → ℕ → PamStatus → List (List ℕ) → PamStatus × List ℕ
check_all w round status [] = (status, [])
check_all w round status (s ∷ later) =
    let checked = (authenticate (w.modules round) (some (c_string s))).status in
    let rest = check_all w (suc round) checked later in
    if is_success checked then (checked, 1 ∷ []) else (rest.0, 0 ∷ rest.1)

-- The end of a round, by the status of its check.
abbrev after_check :
    ℕ
    → World
    → ℕ
    → Sbuf
    → (reads writes : List Answer) → PamStatus
    → (stream sent : List ℕ) → Option Ended
after_check fuel w round pw reads writes checked stream sent =
    let rest = serve fuel w (suc round) pw checked reads writes stream sent in
    if is_success checked then some (end_pam w.pam_ends checked sent) else rest

-- A round that takes a whole request, with what the next round starts from.
record Round (fuel : ℕ) (w : World) (round : ℕ) (s later sent : List ℕ) (o : Option Ended)
    : Type 0 where
  pw : Sbuf
  reads : List Answer
  writes : List Answer
  reads_on : NoFailure reads
  writes_on : NoFailure writes
  same :
      let checked = (authenticate (w.modules round) (some (c_string s))).status in
      o
      ≡ after_check fuel w round pw reads writes checked later
          (sent ++ bool_byte (is_success checked) ∷ [])

serve-Round :
    (fuel : ℕ) (w : World) (round : ℕ) (pw : Sbuf) (status : PamStatus) (reads writes : List Answer)
    (s later sent : List ℕ)
    → HasMemory w.memory
    → NoFailure reads
    → NoFailure writes
    → IsShort s
    → Round fuel w round s later sent
        (serve (suc fuel) w round pw status reads writes (message s ++ later) sent)
unfolding serve
serve-Round fuel w round pw status reads writes s later sent mem q q' small = record {
  pw = (sbuf_destroy r.pw).0;
  reads = r.script;
  writes = put.2;
  reads_on = arrives.4;
  writes_on = puts.2;
  same = if_false Same (is_eof r.result) _ _ (ap is_eof arrives.0) (
      if_true Same (is_ok r.result) _ _ (ap is_ok arrives.0)
        (if_true Same (is_ok put.0) _ _ puts.0 body));
}
  where
    r : Read
    r = auth_read_request (w.memory round) reads pw (message s ++ later)

    arrives : Arrives s later r
    arrives =
        auth_read_request-message (w.memory round) reads pw s later q ((mem round).0)
          ((mem round).1) small

    checked : PamStatus
    checked = (authenticate (w.modules round) (some (c_string s))).status

    found : PamStatus
    found = (authenticate (w.modules round) (some (c_string r.pw.buf))).status

    found_eq : found ≡ checked
    found_eq =
        ap (λ t. (authenticate (w.modules round) (some t)).status)
          (ap c_string arrives.1 ∙ c_string-ends s)

    put : Result × List ℕ × List Answer
    put = auth_write_reply writes (is_success found) sent

    puts : Replies (is_success found) sent put
    puts = auth_write_reply-Replies writes (is_success found) sent q'

    After : PamStatus → List ℕ → List ℕ → Option Ended
    After st stream sent' =
        after_check fuel w round ((sbuf_destroy r.pw).0) r.script put.2 st stream sent'

    Same : Option Ended → Type 0
    Same o = o ≡ After checked later (sent ++ bool_byte (is_success checked) ∷ [])

    body : Same (After found r.stream put.1)
    body =
        ap (λ t. After found t put.1) arrives.3
        ∙ (ap (λ t. After found later t) puts.1
            ∙ ap (λ st. After st later (sent ++ bool_byte (is_success st) ∷ [])) found_eq)

serve-nil :
    (fuel : ℕ) (w : World) (round : ℕ) (pw : Sbuf) (status : PamStatus) (reads writes : List Answer)
    (sent : List ℕ)
    → NoFailure reads
    → serve (suc fuel) w round pw status reads writes [] sent
      ≡ some (end_pam w.pam_ends status sent)
unfolding serve
serve-nil fuel w round pw status reads writes sent q =
    if_true (λ o. o ≡ some (end_pam w.pam_ends status sent)) _ _ _
      (auth_read_request-eof (w.memory round) reads pw q) refl

serve-check_all :
    (fuel : ℕ) (w : World) (round : ℕ) (pw : Sbuf) (status : PamStatus) (reads writes : List Answer)
    (passwords : List (List ℕ)) (sent : List ℕ)
    → HasMemory w.memory
    → NoFailure reads
    → NoFailure writes
    → All IsShort passwords
    → length passwords < fuel
    → serve fuel w round pw status reads writes (messages passwords) sent
      ≡ some (
          end_pam w.pam_ends
            ((check_all w round status passwords).0)
            (sent ++ (check_all w round status passwords).1))
unfolding check_all
serve-check_all zero w round pw status reads writes passwords sent mem q q' small h =
    absurd (omega arith)
serve-check_all (suc fuel) w round pw status reads writes [] sent mem q q' small h =
    serve-nil fuel w round pw status reads writes sent q
    ∙ ap (λ t. some (end_pam w.pam_ends status t)) (sym (append-nil sent))
serve-check_all (suc fuel) w round pw status reads writes (s ∷ later) sent mem q q' small h =
    let one =
      serve-Round fuel w round pw status reads writes s (messages later) sent mem q q' (small.0) in
    let checked = (authenticate (w.modules round) (some (c_string s))).status in
    one.same ∙ elim (Bool-cases (is_success checked)) [
      | inl right ↦ rw right (rw right refl)
      | inr wrong ↦ rw wrong (
          serve-check_all fuel w (suc round) one.pw checked one.reads one.writes later
            (sent ++ 0 ∷ []) mem one.reads_on one.writes_on (small.1) (omega arith)
          ∙ ap (λ t. some (end_pam w.pam_ends ((check_all w (suc round) checked later).0) t))
              (append_assoc sent (0 ∷ []) ((check_all w (suc round) checked later).1)))
    ]

-- If the user is known, PAM starts, no call on the pipes fails and the memory can be had and locked,
-- the requests of the locker, each of a password of less than 2 ^ 64 - 1 bytes, are answered in their order: a 0 for every check that fails, up to the first that
-- succeeds, which is answered by a 1 and ends the process. The exit status is 0 if the last check
-- succeeded, or there was none, and `pam_end` did.
pub auth_run-check_all :
    (fuel : ℕ) (w : World) (reads writes : List Answer) (passwords : List (List ℕ))
    → HasMemory w.memory
    → NoFailure reads
    → NoFailure writes
    → All IsShort passwords
    → length passwords < fuel
    → auth_run true true fuel w reads writes (messages passwords)
      ≡ some (
          let (status, replies) = check_all w 0 pam_success passwords in
          record { exit = if w.pam_ends && is_success status then 0 else 1; sent = replies })
unfolding auth_run
auth_run-check_all fuel w reads writes passwords mem q q' small h =
    serve-check_all fuel w 0 _ pam_success reads writes passwords [] mem q q' small h
