-- ===== src/AuthPam/Examples.antt =====
-- The theorems on src/auth-pam.c at concrete PAM modules.
use dewlock.Base.{◌≡◌, refl, ◌≤◌, true, some, [], ◌∷◌, arith}
use dewlock.Strings.{c_string}
use dewlock.Auth.{interrupted, some_bytes, failed}
use dewlock.AuthPam.{handle_conversation, authenticate, auth_run}
use dewlock.AuthPam.Conversation.{handed, authenticate-once}
use dewlock.AuthPam.Ending.{Ends, auth_run-Ends}
use dewlock.Auth.Messages.{messages}
use dewlock.AuthPam.Serving.{check_all, auth_run-check_all}
use dewlock.AuthPam.Samples.{small_module, small_world, small_world-HasMemory}

authenticate-once_example : handed (authenticate small_module (some (97 ∷ 99 ∷ []))).given ≤ 1
authenticate-once_example = authenticate-once small_module (some (97 ∷ 99 ∷ []))

-- The first password is wrong, the second right, and the third is never looked at.
auth_run-check_all_example :
    auth_run true true 4 small_world
      (some_bytes 2 ∷ interrupted ∷ [])
      (interrupted ∷ [])
      (messages ((97 ∷ 99 ∷ []) ∷ (97 ∷ 98 ∷ []) ∷ [] ∷ []))
    ≡ some (record { exit = 0; sent = 0 ∷ 1 ∷ [] })
unfolding check_all authenticate handle_conversation c_string
auth_run-check_all_example =
    auth_run-check_all 4 small_world (some_bytes 2 ∷ interrupted ∷ []) (interrupted ∷ [])
      ((97 ∷ 99 ∷ []) ∷ (97 ∷ 98 ∷ []) ∷ [] ∷ []) small_world-HasMemory (refl, (refl, tt))
      (refl, tt) (omega arith, (omega arith, (omega arith, tt))) (omega arith)

auth_run-Ends_example : Ends (auth_run true true 4 small_world (failed ∷ []) [] (3 ∷ 0 ∷ 0 ∷ []))
auth_run-Ends_example =
    auth_run-Ends true true 4 small_world (failed ∷ []) [] (3 ∷ 0 ∷ 0 ∷ []) (omega arith)
