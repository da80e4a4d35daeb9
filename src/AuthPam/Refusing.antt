-- ===== src/AuthPam/Refusing.antt =====
-- What the process of src/auth-pam.c sends if PAM refuses every password.
use dewlock.Base.{
  ℕ, zero, suc, ◌≡◌, refl, Bool, true, false, Option, none, some, List, [], ◌∷◌, ◌++◌, All,
  All-append, All-take, All-drop, take, drop, if_both,
}
use dewlock.Result.{is_ok, is_eof}
use dewlock.SafeBuf.{Sbuf}
use dewlock.Strings.{c_string}
use dewlock.Auth.{
  Answer, some_bytes, no_bytes, interrupted, failed, write_full, auth_read_request,
  auth_write_reply,
}
use dewlock.AuthPam.{PamStatus, is_success, authenticate, World, Ended, serve, auth_run}

-- No check of PAM succeeds, whatever the password is.
abbrev pub Refuses : World → Type 0
Refuses w =
    (round : ℕ) (password : Option (List ℕ))
    → is_success (authenticate (w.modules round) password).status ≡ false

-- The replies that the process has sent when it ends.
abbrev pub replies_of : Option Ended → List ℕ
replies_of none = []
replies_of (some e) = e.sent

abbrev pub IsZero : ℕ → Type 0
IsZero b = b ≡ 0

abbrev pub AllZero : List ℕ → Type 0
AllZero = All IsZero

write_full-All :
    (P : ℕ → Type 0) (script : List Answer) (bs sent : List ℕ)
    → All P bs
    → All P sent
    → All P (write_full script bs sent).sent
unfolding write_full
write_full-All P script [] sent b s = s
write_full-All P [] (x ∷ bs) sent b s = All-append P sent (x ∷ bs) s b
write_full-All P (some_bytes k ∷ script) (x ∷ bs) sent b s =
    write_full-All P script (drop k bs) (sent ++ (x ∷ take k bs)) (All-drop P k bs b.1)
      (All-append P sent (x ∷ take k bs) s (b.0, All-take P k bs b.1))
write_full-All P (no_bytes ∷ script) (x ∷ bs) sent b s = s
write_full-All P (interrupted ∷ script) (x ∷ bs) sent b s =
    write_full-All P script (x ∷ bs) sent b s
write_full-All P (failed ∷ script) (x ∷ bs) sent b s = s

pub auth_write_reply-AllZero :
    (script : List Answer) (success : Bool) (sent : List ℕ)
    → success ≡ false
    → AllZero sent
    → AllZero ((auth_write_reply script success sent).1)
unfolding auth_write_reply
auth_write_reply-AllZero script true sent e z = cc
auth_write_reply-AllZero script false sent e z =
    write_full-All IsZero script (0 ∷ []) sent (refl, tt) z

SendsZero : Option Ended → Type 0
SendsZero o = AllZero (replies_of o)

ended_SendsZero :
    (exit : ℕ) (sent : List ℕ)
    → AllZero sent
    → SendsZero (some (record { exit = exit; sent = sent }))
unfolding SendsZero
ended_SendsZero exit sent z = z

unended_SendsZero : SendsZero none
unfolding SendsZero
unended_SendsZero = tt

serve-SendsZero :
    (fuel : ℕ) (w : World) (round : ℕ) (pw : Sbuf) (status : PamStatus) (reads writes : List Answer)
    (stream sent : List ℕ)
    → Refuses w
    → AllZero sent
    → SendsZero (serve fuel w round pw status reads writes stream sent)
unfolding serve
serve-SendsZero zero w round pw status reads writes stream sent refuses z = unended_SendsZero
serve-SendsZero (suc fuel) w round pw status reads writes stream sent refuses z =
    let r = auth_read_request (w.memory round) reads pw stream in
    let refused = refuses round (some (c_string r.pw.buf)) in
    let zeros = auth_write_reply-AllZero writes _ sent refused z in
    if_both SendsZero (is_eof r.result) _ _ (ended_SendsZero _ sent z) (
      if_both SendsZero (is_ok r.result) _ _
        (if_both SendsZero _ _ _
          (if_both SendsZero _ _ _ (ended_SendsZero _ _ zeros)
            (serve-SendsZero fuel w (suc round) _ _ _ _ r.stream _ refuses zeros))
          (ended_SendsZero 1 _ zeros))
        (ended_SendsZero 1 sent z))

pub auth_run-AllZero :
    (user_found pam_starts : Bool) (fuel : ℕ) (w : World) (reads writes : List Answer)
    (stream : List ℕ)
    → Refuses w
    → All (λ b. b ≡ 0) (replies_of (auth_run user_found pam_starts fuel w reads writes stream))
unfolding auth_run SendsZero
auth_run-AllZero false pam_starts fuel w reads writes stream refuses = tt
auth_run-AllZero true false fuel w reads writes stream refuses = tt
auth_run-AllZero true true fuel w reads writes stream refuses =
    serve-SendsZero fuel w 0 _ _ reads writes stream [] refuses tt
