-- ===== src/AuthShadow.antt =====
-- src/auth-shadow.c: the process that checks passwords by the hash of the shadow file. `crypt` of
-- the C library is a parameter: the text it makes of a password and a hash, or none for NULL.
pub mod Serving
pub mod Refusing
pub mod Init
mod Examples
use dewlock.Base.{
  ℕ, zero, suc, Bool, true, false, ◌&&◌, ◌||◌, Option, none, some, List, [], ◌∷◌, ◌==◌,
  if◌then◌else◌, length, not,
}
use dewlock.Base.Int.{ℤ, pos, negsuc}
use dewlock.Result.{is_ok, is_eof}
use dewlock.SafeBuf.{Sbuf, sbuf_destroy}
use dewlock.Strings.{c_string, strcmp, is_zero}
use dewlock.Auth.{Answer, Memory, Read, auth_read_request, auth_write_reply}
use dewlock.Auth.Spawn.{Spawned, spawn_result}

-- What `setgid(getgid())`, `setuid(getuid())`, `setuid(0)` and `setgid(0)` return.
pub record Drop : Type 0 where
  pub setgid : ℤ
  pub setuid : ℤ
  pub setuid_root : ℤ
  pub setgid_root : ℤ

abbrev pub is_minus_one : ℤ → Bool
is_minus_one (pos n) = false
is_minus_one (negsuc n) = n == 0

-- The text in the password file, or for an `x` there the one in the shadow file; none if the process
-- exits.
unfoldable pub stored_hash : (passwd shadow : Option (List ℕ)) → Option (List ℕ)
stored_hash none shadow = none
stored_hash (some pw_passwd) shadow =
    if is_zero (strcmp pw_passwd (b'x' ∷ [])) then shadow else some pw_passwd

-- The hash that the child has, or none if `auth_init` ends the process. In the locker itself the hash
-- is cleared.
unfoldable pub auth_init : (passwd shadow : Option (List ℕ)) → Drop → Spawned → Option (List ℕ)
auth_init passwd shadow d spawned = elim (stored_hash passwd shadow) [
  | none ↦ none
  | some hash ↦
      if not (is_zero d.setgid)
        || (not (is_zero d.setuid)
            || (not (is_minus_one d.setuid_root) || not (is_minus_one d.setgid_root)))
      then none
      else (if is_ok (spawn_result spawned) then some hash else none)
]

-- `c[0] == '*'`
abbrev pub is_star : List ℕ → Bool
is_star [] = false
is_star (c ∷ cs) = c == b'*'

-- What a text of `crypt` says of the password; none if the format is not supported.
unfoldable pub compare_hash : List ℕ → Option (List ℕ) → Option Bool
compare_hash hash none = none
compare_hash hash (some c) =
    if is_star c || not (length c == length hash) then none else some (is_zero (strcmp c hash))

-- The process ended: its exit status, and the replies that went into the pipe.
pub record Ended : Type 0 where
  pub exit : ℕ
  pub sent : List ℕ

pub record World : Type 0 where
  pub memory : ℕ → Memory
  pub crypt : List ℕ → List ℕ → Option (List ℕ)

-- A reply to a check, and what follows if it goes through.
abbrev reply_check : Option Bool → List ℕ → (Bool → Option Ended) → Option Ended
reply_check none sent next = some (record { exit = 1; sent = sent })
reply_check (some success) sent next = next success

-- The loop of `auth_run`, on fuel: none when that runs out. The delay of two seconds after a reply
-- is not modelled.
unfoldable pub serve :
    ℕ → World → List ℕ → ℕ → (reads writes : List Answer) → (stream sent : List ℕ) → Option Ended
serve zero w hash round reads writes stream sent = none
serve (suc fuel) w hash round reads writes stream sent =
    let r =
      auth_read_request (w.memory round) reads (record { buf = []; cap = 0; len = 0 }) stream in
    let next : Bool → Option Ended = λ success.
      let (written, sent', writes') = auth_write_reply writes success sent in
      let rest = serve fuel w hash (suc round) r.script writes' r.stream sent' in
      if is_ok written then rest else some (record { exit = 1; sent = sent' }) in
    if is_eof r.result
    then some (record { exit = 0; sent = sent })
    else (if is_ok r.result
        then reply_check (compare_hash hash (w.crypt (c_string r.pw.buf) hash)) sent next
        else some (record { exit = 1; sent = sent }))

unfoldable pub auth_run : ℕ → World → List ℕ → (reads writes : List Answer) → List ℕ → Option Ended
unfolding serve
auth_run fuel w hash reads writes stream = serve fuel w hash 0 reads writes stream []
