-- ===== src/Main/Daemonize.antt =====
-- `daemonize` of main.c: the handshake of the two processes behind the fork.
use dewlock.Base.{
  ℕ, ◌≡◌, refl, ◌⊎◌, inl, inr, Bool, true, false, Option, none, some, ◌==◌, if◌then◌else◌,
}
use dewlock.Result.{Result, ok, err_daemon_pipe, err_daemon_handshake, is_ok}

-- How `daemonize` ends in a process: it returns, or the process exits.
pub data Daemonized : Type 0 where
  returns : Result → Daemonized
  quits : (status : ℕ) → Daemonized

-- What a process meets in `daemonize`: no pipe, the child's `chdir` and `write`, or the byte that the
-- parent reads, none for a `read` that gets none. A `fork` that fails goes the parent's way.
pub data Side : Type 0 where
  no_pipe : Side
  child : (changes_dir writes : Bool) → Side
  parent : (success : Option ℕ) → Side

unfoldable pub daemonize : Side → Daemonized
daemonize no_pipe = returns err_daemon_pipe
daemonize (child false writes) = quits 1
daemonize (child true writes) = if writes then returns ok else quits 1
daemonize (parent none) = returns err_daemon_handshake
daemonize (parent (some success)) = if success == 0 then returns err_daemon_handshake else quits 0

-- The byte that the child leaves in the pipe.
unfoldable pub handshake : (changes_dir writes : Bool) → Option ℕ
handshake changes_dir false = none
handshake false true = some 0
handshake true true = some 1

-- The program does not go on to unlock the session from here.
abbrev pub Detaches : Daemonized → Type 0
Detaches (returns res) = is_ok res ≡ true
Detaches (quits status) = Unit

-- Whatever the child meets, if the parent reads what the child wrote, then either the child goes on
-- with OK and the parent exits with status 0, or the child exits with status 1 and the parent reports
-- the failed handshake.
daemonize-handshake :
    (changes_dir writes : Bool)
    → ((daemonize (child changes_dir writes) ≡ returns ok)
        × (daemonize (parent (handshake changes_dir writes)) ≡ quits 0))
      ⊎ ((daemonize (child changes_dir writes) ≡ quits 1)
          × (daemonize (parent (handshake changes_dir writes)) ≡ returns err_daemon_handshake))
unfolding daemonize handshake
daemonize-handshake false false = inr (refl, refl)
daemonize-handshake false true = inr (refl, refl)
daemonize-handshake true false = inr (refl, refl)
daemonize-handshake true true = inl (refl, refl)
