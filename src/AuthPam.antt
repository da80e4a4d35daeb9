-- ===== src/AuthPam.antt =====
-- src/auth-pam.c: the process that checks passwords by PAM. The PAM library is not part of the
-- program: what it does for one `pam_authenticate` is a `Module`, which ends with a status or calls
-- the conversation and goes on with what that answers.
pub mod Conversation
pub mod Serving
pub mod Ending
pub mod Refusing
pub mod Samples
mod Examples
use dewlock.Base.{
  ℕ, zero, suc, ◌+◌, Bool, true, false, ◌&&◌, Option, none, some, List, [], ◌∷◌, ◌++◌, ◌==◌,
  if◌then◌else◌,
}
use dewlock.Result.{is_ok, is_eof}
use dewlock.SafeBuf.{Sbuf, sbuf_destroy}
use dewlock.Strings.{c_string}
use dewlock.Auth.{Answer, Memory, Read, auth_read_request, auth_write_reply}
use dewlock.Auth.Spawn.{Spawned, spawn_result}

pub data PamStatus : Type 0 where
  pam_success pam_abort : PamStatus
  other_status : ℕ → PamStatus

-- `pam_status == PAM_SUCCESS`
abbrev pub is_success : PamStatus → Bool
is_success pam_success = true
is_success pam_abort = false
is_success (other_status n) = false

pub data Style : Type 0 where
  prompt_echo_off prompt_echo_on error_msg text_info : Style
  other_style : ℕ → Style

abbrev pub is_prompt : Style → Bool
is_prompt prompt_echo_off = true
is_prompt prompt_echo_on = true
is_prompt error_msg = false
is_prompt text_info = false
is_prompt (other_style n) = false

-- A message of PAM, with whether the `strdup` for its answer gets its memory.
pub record Message : Type 0 where
  pub msg_style : Style
  pub copies : Bool

-- What the conversation leaves: its status, the responses (NULL is none, as `calloc` makes them) and
-- `state->password`.
pub record Replied : Type 0 where
  pub status : PamStatus
  pub resp : List (Option (List ℕ))
  pub password : Option (List ℕ)

abbrev behind_response : Option (List ℕ) → Replied → Replied
behind_response resp r = record r { resp = resp ∷ r.resp }

abbrev blank : List Message → List (Option (List ℕ))
blank [] = []
blank (m ∷ ms) = none ∷ blank ms

-- The loop over the messages.
reply_loop : List Message → Option (List ℕ) → Replied
reply_loop [] password = record { status = pam_success; resp = []; password = password }
reply_loop (m ∷ ms) none =
    let further = behind_response none (reply_loop ms none) in
    if is_prompt m.msg_style
    then record { status = pam_abort; resp = blank (m ∷ ms); password = none }
    else further
reply_loop (m ∷ ms) (some text) =
    let further = behind_response none (reply_loop ms (some text)) in
    let answered = behind_response (some text) (reply_loop ms none) in
    if is_prompt m.msg_style
    then (if m.copies
        then answered
        else record { status = pam_abort; resp = blank (m ∷ ms); password = some text })
    else further

-- `allocated`: whether the `calloc` gets its memory. Without it `*resp` is not set.
unfoldable pub handle_conversation : (allocated : Bool) → List Message → Option (List ℕ) → Replied
unfolding reply_loop
handle_conversation false msg password = record {
  status = pam_abort;
  resp = [];
  password = password;
}
handle_conversation true msg password = reply_loop msg password

pub data Module : Type 0 where
  finish : PamStatus → Module
  converse :
      (allocated : Bool) → List Message → (PamStatus → List (Option (List ℕ)) → Module) → Module

-- `pam_authenticate` with the conversation of the program: its status, and every response that the
-- module was given.
pub record Authenticated : Type 0 where
  pub status : PamStatus
  pub given : List (Option (List ℕ))

unfoldable pub authenticate : Module → Option (List ℕ) → Authenticated
unfolding handle_conversation
authenticate (finish status) password = record { status = status; given = [] }
authenticate (converse allocated msg next) password =
    let r = handle_conversation allocated msg password in
    let rest = authenticate (next r.status r.resp) r.password in
    record rest { given = r.resp ++ rest.given }

-- The process ended: its exit status, and the replies that went into the pipe.
pub record Ended : Type 0 where
  pub exit : ℕ
  pub sent : List ℕ

-- What the system and PAM answer in the rounds of the loop.
pub record World : Type 0 where
  pub memory : ℕ → Memory
  pub modules : ℕ → Module
  pub pam_ends : Bool

-- Behind the loop: `pam_end`, and the exit with the last status.
abbrev pub end_pam : Bool → PamStatus → List ℕ → Ended
end_pam pam_ends status sent = record {
  exit = if pam_ends && is_success status then 0 else 1;
  sent = sent;
}

-- The loop of `auth_run`, on fuel: none when that runs out. `stream` is what the pipe will carry
-- until its other side is closed.
unfoldable pub serve :
    ℕ
    → World
    → ℕ
    → Sbuf
    → PamStatus
    → (reads writes : List Answer) → (stream sent : List ℕ) → Option Ended
serve zero w round pw status reads writes stream sent = none
serve (suc fuel) w round pw status reads writes stream sent =
    let r = auth_read_request (w.memory round) reads pw stream in
    let checked = (authenticate (w.modules round) (some (c_string r.pw.buf))).status in
    let (written, sent', writes') = auth_write_reply writes (is_success checked) sent in
    let rest =
      serve fuel w (suc round) ((sbuf_destroy r.pw).0) checked r.script writes' r.stream sent' in
    if is_eof r.result
    then some (end_pam w.pam_ends status sent)
    else (if is_ok r.result
        then (if is_ok written
            then (if is_success checked then some (end_pam w.pam_ends checked sent') else rest)
            else some (record { exit = 1; sent = sent' }))
        else some (record { exit = 1; sent = sent }))

-- `auth_run`, with what `getpwuid` and `pam_start` answer.
unfoldable pub auth_run :
    (user_found pam_starts : Bool)
    → ℕ
    → World
    → (reads writes : List Answer) → List ℕ
    → Option Ended
unfolding serve
auth_run false pam_starts fuel w reads writes stream = some (record { exit = 1; sent = [] })
auth_run true false fuel w reads writes stream = some (record { exit = 1; sent = [] })
auth_run true true fuel w reads writes stream =
    serve fuel w 0 (record { buf = []; cap = 0; len = 0 }) pam_success reads writes stream []

-- Whether the process goes on after `auth_init`, by its ids and what the spawning gave. A setuid
-- program is refused before it spawns anything.
pub auth_init : (uid euid gid egid : ℕ) → Spawned → Bool
unfolding spawn_result
auth_init uid euid gid egid spawned = uid == euid && (gid == egid && is_ok (spawn_result spawned))
