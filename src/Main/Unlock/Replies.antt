-- ===== src/Main/Unlock/Replies.antt =====
-- A reply of the authentication child, by `reply_in` of main.c, and the state in which it says no.
use dewlock.Base.{
  ℕ, ◌≡◌, refl, ap, ◌∙◌, Bool, true, false, List, [], ◌∷◌, if◌then◌else◌, All, get_or,
}
use dewlock.Result.{is_ok}
use dewlock.Auth.{Answer, Reply, Amount, full, eof, broken, read_full, auth_read_reply}
use dewlock.Auth.Transfer.{read_full-All}
use dewlock.Loop.{FdCallback, Mask, Pollfd}
use dewlock.State.{State}
use dewlock.Render.{invalid}
use dewlock.Main.{Round, display_in, reply_in}
use dewlock.Main.Unlock.Keeps.{
  Keeps, keeps, trans, kept_eq, damage_state-Keeps, handle_events-Keeps,
  pwd_schedule_auth_idle-Keeps,
}

-- The replies say no.
abbrev pub AllZero : List ℕ → Type 0
AllZero = All λ b. b ≡ 0

-- The main loop goes on, with the three descriptors that `main` adds, and no reply will say yes.
pub record IsLocked (fds : List Pollfd) (s : State) : Type 0 where
  pub array : s.eventloop.fds ≡ fds
  pub run : s.run_display ≡ true
  pub callbacks :
      s.eventloop.fd_events ≡ FdCallback.display_in ∷ FdCallback.reply_in ∷ FdCallback.term_in ∷ []
  pub replies : AllZero s.os.replies

pub Keeps-IsLocked : {fds : List Pollfd} {s t : State} → Keeps s t → IsLocked fds s → IsLocked fds t
Keeps-IsLocked k l = record {
  array = ap (λ q. q.1) (kept_eq k) ∙ l.array;
  run = ap (λ q. q.0) (kept_eq k) ∙ l.run;
  callbacks = ap (λ q. q.2) (kept_eq k) ∙ l.callbacks;
  replies = rw (ap (λ q. q.3) (kept_eq k)) l.replies;
}

pub display_in-Keeps : (r : Round) (s : State) → r.dispatch_fails ≡ false → Keeps s (display_in r s)
unfolding display_in
display_in-Keeps r s h = rw h (handle_events-Keeps r.events s)

get_or-zero : (xs : List ℕ) → AllZero xs → get_or xs 0 0 ≡ 0
get_or-zero [] z = refl
get_or-zero (x ∷ xs) z = z.0

-- A reply that is 0 says no, and the ones behind it are still 0.
reply_zero :
    (script : List Answer) (stream : List ℕ)
    → AllZero stream
    → ((auth_read_reply script stream).success ≡ false)
      × AllZero (auth_read_reply script stream).stream
unfolding auth_read_reply
reply_zero script stream z = go (read_full script [] 1 stream).amount refl
  where
    all :
        AllZero (read_full script [] 1 stream).got × AllZero (read_full script [] 1 stream).pending
    all = read_full-All (λ b. b ≡ 0) script [] 1 stream tt z

    go :
        (a : Amount)
        → (read_full script [] 1 stream).amount ≡ a
        → ((auth_read_reply script stream).success ≡ false)
          × AllZero (auth_read_reply script stream).stream
    go full e = rw (e, auth_read_reply) (rw (get_or-zero _ all.0) (refl, all.1))
    go eof e = rw (e, auth_read_reply) (refl, all.1)
    go broken e = rw (e, auth_read_reply) (refl, all.1)

pub IsLocked-if :
    (b : Bool) {fds : List Pollfd} {s t : State}
    → IsLocked fds s
    → IsLocked fds t
    → IsLocked fds (if b then s else t)
IsLocked-if true l m = l
IsLocked-if false l m = m

pub reply_in-IsLocked :
    {fds : List Pollfd} (mask : Mask) (s : State) → IsLocked fds s → IsLocked fds (reply_in mask s)
unfolding reply_in
reply_in-IsLocked {fds} mask s l =
    IsLocked-if mask.pollin
      (IsLocked-if (is_ok reply.result)
        (rw zero.0 (
          Keeps-IsLocked
            (trans {t = record s' { auth_state = invalid }} (keeps refl)
              (trans (pwd_schedule_auth_idle-Keeps _) (trans (keeps refl) (damage_state-Keeps _))))
            l'))
        (Keeps-IsLocked (keeps refl) l'))
      (IsLocked-if mask.hup (Keeps-IsLocked (keeps refl) l) l)
  where
    reply : Reply
    reply = auth_read_reply s.os.reads s.os.replies

    zero : (reply.success ≡ false) × AllZero reply.stream
    zero = reply_zero s.os.reads s.os.replies l.replies

    s' : State
    s' = record s { os = record (s.os) { reads = reply.script; replies = reply.stream } }

    l' : IsLocked fds s'
    l' = record { array = l.array; run = l.run; callbacks = l.callbacks; replies = zero.1 }
