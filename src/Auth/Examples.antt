-- ===== src/Auth/Examples.antt =====
-- The theorems on src/auth.c at concrete answers of the system.
use dewlock.Base.{refl, true, [], ◌∷◌, ◌++◌, arith, replicate}
use dewlock.SafeBuf.{Sbuf, locked, eagain, lock_buffer}
use dewlock.Auth.{Memory, interrupted, some_bytes, auth_write_request, auth_read_request}
use dewlock.Auth.RoundTrip.{Arrives, auth_request-round_trip}

abbrev short_password : Sbuf
short_password = record { buf = 97 ∷ 98 ∷ 0 ∷ []; cap = 3; len = 2 }

abbrev child_memory : Memory
child_memory = record {
  allocated = true;
  found = λ n. replicate n 7;
  answers = eagain ∷ locked ∷ [];
  supported = true;
}

auth_request-round_trip_example : Arrives (97 ∷ 98 ∷ []) (5 ∷ []) (
    auth_read_request child_memory
      (some_bytes 6 ∷ interrupted ∷ some_bytes 1 ∷ [])
      (record { buf = []; cap = 0; len = 0 })
      ((auth_write_request (some_bytes 2 ∷ interrupted ∷ []) short_password []).sent ++ 5 ∷ []))
unfolding lock_buffer
auth_request-round_trip_example =
    auth_request-round_trip child_memory (some_bytes 2 ∷ interrupted ∷ [])
      (some_bytes 6 ∷ interrupted ∷ some_bytes 1 ∷ []) short_password
      (record { buf = []; cap = 0; len = 0 }) (97 ∷ 98 ∷ []) [] (5 ∷ []) (refl, (refl, tt))
      (refl, (refl, (refl, tt))) refl refl (omega arith) refl refl
