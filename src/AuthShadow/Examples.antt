-- ===== src/AuthShadow/Examples.antt =====
-- The theorems on src/auth-shadow.c at a concrete `crypt`.
use dewlock.Base.{ℕ, ◌≡◌, refl, true, Option, some, none, List, [], ◌∷◌, arith, replicate}
use dewlock.SafeBuf.{locked, lock_buffer}
use dewlock.Strings.{c_string}
use dewlock.Strings.Equality.{same_text}
use dewlock.Auth.{interrupted, some_bytes}
use dewlock.Auth.Messages.{HasMemory, messages}
use dewlock.AuthShadow.{World, auth_run}
use dewlock.AuthShadow.Serving.{verdict, verdicts, auth_run-verdicts}

-- A hash that is the password behind the first two bytes of the stored one.
abbrev salted : List ℕ → List ℕ → Option (List ℕ)
salted password (a ∷ b ∷ hash) = some (a ∷ b ∷ password)
salted password hash = none

abbrev shadow_world : World
shadow_world = record {
  memory = λ round. record {
    allocated = true;
    found = λ n. replicate n 7;
    answers = locked ∷ [];
    supported = true;
  };
  crypt = salted;
}

shadow_world-HasMemory : HasMemory shadow_world.memory
unfolding lock_buffer
shadow_world-HasMemory round = (refl, refl)

-- A wrong password, the right one, a wrong one again, and one that is too long.
auth_run-verdicts_example :
    auth_run 5 shadow_world
      (36 ∷ 49 ∷ 97 ∷ 98 ∷ [])
      (some_bytes 2 ∷ interrupted ∷ [])
      (interrupted ∷ [])
      (messages ((97 ∷ 99 ∷ []) ∷ (97 ∷ 98 ∷ []) ∷ (97 ∷ 97 ∷ []) ∷ (97 ∷ 98 ∷ 99 ∷ []) ∷ []))
    ≡ some (record { exit = 1; sent = 0 ∷ 1 ∷ 0 ∷ [] })
unfolding verdicts verdict c_string same_text
auth_run-verdicts_example =
    auth_run-verdicts 5 shadow_world (36 ∷ 49 ∷ 97 ∷ 98 ∷ []) (some_bytes 2 ∷ interrupted ∷ [])
      (interrupted ∷ [])
      ((97 ∷ 99 ∷ []) ∷ (97 ∷ 98 ∷ []) ∷ (97 ∷ 97 ∷ []) ∷ (97 ∷ 98 ∷ 99 ∷ []) ∷ [])
      shadow_world-HasMemory (refl, (refl, tt)) (refl, tt)
      (omega arith, (omega arith, (omega arith, (omega arith, tt)))) (omega arith)
