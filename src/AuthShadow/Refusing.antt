-- ===== src/AuthShadow/Refusing.antt =====
-- What the process of src/auth-shadow.c sends if no password has the stored hash.
use dewlock.Base.{
  ℕ, zero, suc, ◌≡◌, ◌≢◌, refl, Bool, true, false, Option, none, some, List, [], All, if_both, sym,
  ap, ◌∙◌, arith,
}
use dewlock.Result.{is_ok, is_eof}
use dewlock.SafeBuf.{Sbuf}
use dewlock.Strings.{c_string}
use dewlock.Auth.{Answer, auth_read_request}
use dewlock.AuthPam.Refusing.{auth_write_reply-AllZero}
use dewlock.Strings.Equality.{same_text-eq}
use dewlock.AuthShadow.Serving.{verdict, compare_hash-verdict}
use dewlock.AuthShadow.{World, Ended, compare_hash, reply_check, serve, auth_run}

-- `crypt` makes the stored hash of no text.
abbrev pub Refuses : World → List ℕ → Type 0
Refuses w hash = (password : List ℕ) → w.crypt password hash ≢ some hash

-- Only the stored hash itself compares as equal, whatever `crypt` made it of.
compare_hash-stored :
    (hash : List ℕ) (c : Option (List ℕ)) → compare_hash hash c ≡ some true → c ≡ some hash
unfolding verdict
compare_hash-stored hash c e = go c (sym (compare_hash-verdict hash c) ∙ e)
  where
    go : (c : Option (List ℕ)) → verdict hash c ≡ some true → c ≡ some hash
    go none h = cc
    go (some made) h = ap some (same_text-eq made hash (ground (arith, h)))

-- The replies that the process has sent when it ends.
abbrev pub replies_of : Option Ended → List ℕ
replies_of none = []
replies_of (some e) = e.sent

abbrev AllZero : List ℕ → Type 0
AllZero = All λ b. b ≡ 0

SendsZero : Option Ended → Type 0
SendsZero o = AllZero (replies_of o)

ended_SendsZero :
    (exit : ℕ) (sent : List ℕ)
    → AllZero sent
    → SendsZero (some (record { exit = exit; sent = sent }))
unfolding SendsZero
ended_SendsZero exit sent z = z

unended_SendsZero : SendsZero none
unfolding SendsZero
unended_SendsZero = tt

reply_check-SendsZero :
    (v : Option Bool) (sent : List ℕ) (next : Bool → Option Ended)
    → v ≢ some true
    → AllZero sent
    → SendsZero (next false)
    → SendsZero (reply_check v sent next)
reply_check-SendsZero none sent next refused z n = ended_SendsZero 1 sent z
reply_check-SendsZero (some true) sent next refused z n = absurd (refused refl)
reply_check-SendsZero (some false) sent next refused z n = n

serve-SendsZero :
    (fuel : ℕ) (w : World) (hash : List ℕ) (round : ℕ) (reads writes : List Answer)
    (stream sent : List ℕ)
    → Refuses w hash
    → AllZero sent
    → SendsZero (serve fuel w hash round reads writes stream sent)
unfolding serve
serve-SendsZero zero w hash round reads writes stream sent refuses z = unended_SendsZero
serve-SendsZero (suc fuel) w hash round reads writes stream sent refuses z =
    let pw : Sbuf = record { buf = []; cap = 0; len = 0 } in
    let r = auth_read_request (w.memory round) reads pw stream in
    let zeros = auth_write_reply-AllZero writes false sent refl z in
    if_both SendsZero (is_eof r.result) _ _ (ended_SendsZero _ sent z) (
      if_both SendsZero (is_ok r.result) _ _
        (reply_check-SendsZero _ sent _
          (λ e. refuses (c_string r.pw.buf) (compare_hash-stored hash _ e)) z
          (if_both SendsZero _ _ _
            (serve-SendsZero fuel w hash (suc round) _ _ r.stream _ refuses zeros)
            (ended_SendsZero 1 _ zeros)))
        (ended_SendsZero 1 sent z))

pub auth_run-AllZero :
    (fuel : ℕ) (w : World) (hash : List ℕ) (reads writes : List Answer) (stream : List ℕ)
    → Refuses w hash
    → All (λ b. b ≡ 0) (replies_of (auth_run fuel w hash reads writes stream))
unfolding auth_run SendsZero
auth_run-AllZero fuel w hash reads writes stream refuses =
    serve-SendsZero fuel w hash 0 reads writes stream [] refuses tt
