-- ===== src/Main/Startup/Refusal.antt =====
-- The program of main.c together with the process of src/auth-pam.c or of src/auth-shadow.c, which
-- writes the replies that the main loop reads.
use dewlock.Base.{ℕ, ◌≡◌, Bool, List, All, subst, sym}
use dewlock.Auth.{Answer}
use dewlock.State.{State}
use dewlock.Main.{Round}
use dewlock.Main.Daemonize.{Detaches, daemonize}
use dewlock.Main.Unlock.Rounds.{IsQuiet}
use dewlock.Main.Startup.{World, start}
use dewlock.Main.Startup.Program.{program, NeverUnlocks, program-NeverUnlocks}
use dewlock.AuthPam
use dewlock.AuthPam.{auth_run}
use dewlock.AuthShadow
use dewlock.AuthShadow.Refusing
use dewlock.AuthPam.Refusing.{Refuses, replies_of, auth_run-AllZero}

-- If PAM refuses every password, and the replies are those that its process sends, whatever
-- requests or other bytes it reads and whatever calls fail there, the program never unlocks the session
-- while the process detaches without a failure, the display and `poll` work, and no SIGUSR1
-- arrives.
pub program-auth_run-NeverUnlocks :
    (rs : List Round) (w : World) (s : State) (user_found pam_starts : Bool) (fuel : ℕ)
    (pam : AuthPam.World) (reads writes : List Answer) (requests : List ℕ)
    → All IsQuiet rs
    → Detaches (daemonize w.side)
    → Refuses pam
    → s.os.replies ≡ replies_of (auth_run user_found pam_starts fuel pam reads writes requests)
    → NeverUnlocks (program rs (start w s))
program-auth_run-NeverUnlocks rs w s user_found pam_starts fuel pam reads writes requests quiet
      detaches refuses e =
    program-NeverUnlocks rs w s quiet detaches (
      subst (All λ b. b ≡ 0) (sym e)
        (auth_run-AllZero user_found pam_starts fuel pam reads writes requests refuses))

-- The same with the process that checks passwords by a hash: if `crypt` makes the stored hash of no text,
-- and the replies are those that the process sends, whatever requests or other bytes it reads and whatever calls
-- fail there, the program never unlocks the session while the process detaches without a failure, the
-- display and `poll` work, and no SIGUSR1 arrives.
pub program-shadow-NeverUnlocks :
    (rs : List Round) (w : World) (s : State) (fuel : ℕ) (shadow : AuthShadow.World) (hash : List ℕ)
    (reads writes : List Answer) (requests : List ℕ)
    → All IsQuiet rs
    → Detaches (daemonize w.side)
    → Refusing.Refuses shadow hash
    → s.os.replies
      ≡ Refusing.replies_of (AuthShadow.auth_run fuel shadow hash reads writes requests)
    → NeverUnlocks (program rs (start w s))
program-shadow-NeverUnlocks rs w s fuel shadow hash reads writes requests quiet detaches refuses e =
    program-NeverUnlocks rs w s quiet detaches (
      subst (All λ b. b ≡ 0) (sym e)
        (Refusing.auth_run-AllZero fuel shadow hash reads writes requests refuses))
