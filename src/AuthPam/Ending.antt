-- ===== src/AuthPam/Ending.antt =====
-- The loop of `auth_run` of src/auth-pam.c ends.
use dewlock.Base.{
  ℕ, zero, suc, ◌<◌, ◌≡◌, refl, Bool, true, false, Option, some, List, [], arith, length, if_both,
  if_cases,
}
use dewlock.Result.{is_ok, is_eof}
use dewlock.SafeBuf.{Sbuf}
use dewlock.Auth.{Answer, auth_read_request}
use dewlock.Auth.Shrinks.{auth_read_request-stream}
use dewlock.AuthPam.{PamStatus, World, Ended, serve, auth_run}

abbrev pub Ends : Option Ended → Type 0
Ends o = (e : Ended) × (o ≡ some e)

serve-Ends :
    (fuel : ℕ) (w : World) (round : ℕ) (pw : Sbuf) (status : PamStatus) (reads writes : List Answer)
    (stream sent : List ℕ)
    → length stream < fuel
    → Ends (serve fuel w round pw status reads writes stream sent)
unfolding serve
serve-Ends zero w round pw status reads writes stream sent h = absurd (omega arith)
serve-Ends (suc fuel) w round pw status reads writes stream sent h =
    let r = auth_read_request (w.memory round) reads pw stream in
    if_cases Ends (is_eof r.result) _ _ (λ e. (_, refl))
      λ e.
        if_cases Ends (is_ok r.result) _ _
          (λ accepted.
            if_both Ends _ _ _
              (if_both Ends _ _ _ (_, refl)
                (serve-Ends fuel w (suc round) _ _ _ _ r.stream _ (
                  omega (
                    arith,
                    h,
                    auth_read_request-stream (w.memory round) reads pw stream accepted,
                  ))))
              (_, refl))
          (λ refused. (_, refl))

-- Whatever the system and PAM answer, the process ends: it makes at most as many rounds as the pipe
-- carries bytes, and one more.
pub auth_run-Ends :
    (user_found pam_starts : Bool) (fuel : ℕ) (w : World) (reads writes : List Answer)
    (stream : List ℕ)
    → length stream < fuel
    → Ends (auth_run user_found pam_starts fuel w reads writes stream)
unfolding auth_run
auth_run-Ends false pam_starts fuel w reads writes stream h = (_, refl)
auth_run-Ends true false fuel w reads writes stream h = (_, refl)
auth_run-Ends true true fuel w reads writes stream h =
    serve-Ends fuel w 0 _ _ reads writes stream [] h
