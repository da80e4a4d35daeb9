-- ===== src/Main/Startup/Examples.antt =====
-- The theorem on the whole program of main.c at a concrete start.
use dewlock.Base.{
  ap, sym, arith, ℕ, List, Bool, ◌≡◌, refl, true, false, none, some, [], ◌∷◌, replicate, get_or,
  length-replicate, get_or,
}
use dewlock.SafeBuf.{lock_buffer, locked}
use dewlock.Config.{Cfg}
use dewlock.Config.Load.{Outside}
use dewlock.Background.{fill}
use dewlock.Main
use dewlock.Main.{configure}
use dewlock.Main.Globals.{compositor, subcompositor, shm, seat, output, lock_manager, handle_global}
use dewlock.Main.Daemonize.{child, daemonize}
use dewlock.Main.Unlock.Rounds.{IsQuiet}
use dewlock.Main.Startup.{
  World, Started, entered, start, on_parsed, find_config, on_found, on_loading, prepare,
  lock_session, global, on_registry, on_first_roundtrip, on_roundtrip, on_events, wait_locked,
  notify, detach, on_daemonized,
}
use dewlock.Main.Startup.Program.{program, NeverUnlocks, program-NeverUnlocks}
use dewlock.Main.Startup.Refusal.{program-auth_run-NeverUnlocks, program-shadow-NeverUnlocks}
use dewlock.Auth.Messages.{messages}
use dewlock.AuthPam
use dewlock.AuthPam.{authenticate, auth_run}
use dewlock.AuthPam.Serving.{check_all, auth_run-check_all}
use dewlock.AuthPam.Refusing.{Refuses, replies_of}
use dewlock.AuthShadow
use dewlock.AuthShadow.Refusing
use dewlock.AuthShadow.Serving.{verdict, verdicts, auth_run-verdicts}
use dewlock.State.{State}
use dewlock.Main.{Round}
use dewlock.Main.Steps.Events.{KeyOk}
use dewlock.Main.Invariants.{KeysOk}
use dewlock.Main.Startup.Invariants.{InProgram}
use dewlock.Main.Startup.Keys.{WorldOk}
use dewlock.Main.Pointers.Program.{IsTied, program-IsTied}
use dewlock.Main.Contents.{IsChar, HasText, program-HasText}
use dewlock.Samples.{sample_state, sample_round}

-- No file and no image is there.
abbrev empty_outside : Outside
empty_outside = record {
  wordexp = λ text. none;
  bg_load_image = λ path. none;
  readable = λ path. false;
  unwritten = [];
}

abbrev zero_cfg : Cfg
zero_cfg = record {
  colors = record { background = 0; overlay = 0; text = 0; warning = 0; error = 0 };
  path = none;
  mode = fill;
  family = [];
  size = 0;
}

-- `dewlock -f`, one output, and the lock is granted at the second dispatch.
abbrev small_start : World
small_start = record {
  options = record { opt = b'f'; optarg = []; optopt = 0; previous = [] } ∷ [];
  pam_file = record { opens = true; secured = true; written = 1 };
  auth_ready = true;
  outside = empty_outside;
  content = λ path. none;
  cfg = zero_cfg;
  allocated = true;
  found = replicate 1024 7;
  locks = locked ∷ [];
  lock_supported = true;
  pipe_made = true;
  nonblocking = true;
  connects = true;
  registry = some (
      global compositor
      ∷ global shm
      ∷ global subcompositor
      ∷ global (output 4)
      ∷ global seat
      ∷ global lock_manager
      ∷ []);
  configured = some [];
  surfaces_made = true;
  dispatches = some (configure 4 40 30 ∷ []) ∷ some (Main.locked ∷ []) ∷ [];
  notified = true;
  side = child true true;
  display_fd = 3;
  reply_fd = 4;
  signal_fd = 5;
}

sample_round-IsQuiet : IsQuiet sample_round
sample_round-IsQuiet = record { flushes = refl; polls = refl; dispatches = refl; no_signal = refl }

program-NeverUnlocks_example :
    NeverUnlocks (program (sample_round ∷ sample_round ∷ []) (start small_start sample_state))
unfolding daemonize
program-NeverUnlocks_example =
    program-NeverUnlocks (sample_round ∷ sample_round ∷ []) small_start sample_state
      (sample_round-IsQuiet, (sample_round-IsQuiet, tt)) refl (refl, (refl, tt))

abbrev has_entered : Started → Bool
has_entered (entered s) = true
has_entered _ = false

-- This start gets to the main loop.
small_start-enters : has_entered (start small_start sample_state) ≡ true
unfolding start on_parsed find_config on_found on_loading prepare lock_session on_registry
    on_first_roundtrip handle_global on_roundtrip on_events wait_locked notify detach on_daemonized
    daemonize dewlock.Cli.cli_parse dewlock.Config.Load.cfg_path dewlock.Config.Load.find_path
    dewlock.Config.Load.cfg_read dewlock.Config.read_options dewlock.Config.init
    dewlock.Config.Load.load_image dewlock.SafeBuf.sbuf_create dewlock.SafeBuf.lock_buffer
    dewlock.Main.handle_events dewlock.Main.handle_event dewlock.Seat.add_seat
    dewlock.Outputs.add_output Main.Clock.clk_set_time
small_start-enters = refl

-- PAM denies every password, after it has asked for it.
abbrev denying : AuthPam.World
denying = record {
  memory = λ round. record {
    allocated = true;
    found = λ n. replicate n 7;
    answers = [];
    supported = true;
  };
  modules = λ round.
      AuthPam.converse true (record { msg_style = AuthPam.prompt_echo_off; copies = true } ∷ [])
        λ status resp. AuthPam.finish (AuthPam.other_status 7);
  pam_ends = true;
}

denying-Refuses : Refuses denying
unfolding authenticate
denying-Refuses round password = refl

-- Every text gets the hash `--`, and `$1` is stored.
abbrev other_hash : AuthShadow.World
other_hash = record { memory = denying.memory; crypt = λ password hash. some (45 ∷ 45 ∷ []) }

abbrev stored : List ℕ
stored = 36 ∷ 49 ∷ []

other_hash-Refuses : Refusing.Refuses other_hash stored
other_hash-Refuses password e =
    absurd (omega (arith, ap {B = ℕ} (λ o. elim o [ none ↦ 0 | some c ↦ get_or c 0 0 ]) e))

-- The requests of two passwords; the two replies are in the pipe of the sample.
abbrev two_requests : List ℕ
two_requests = messages ((97 ∷ 98 ∷ []) ∷ (99 ∷ []) ∷ [])

denied : sample_state.os.replies ≡ replies_of (auth_run true true 3 denying [] [] two_requests)
unfolding check_all authenticate lock_buffer
denied = ap replies_of (
    sym (
      auth_run-check_all 3 denying [] [] ((97 ∷ 98 ∷ []) ∷ (99 ∷ []) ∷ []) (λ round. (refl, refl))
        tt tt (omega arith, (omega arith, tt)) (omega arith)))

program-auth_run-NeverUnlocks_example :
    NeverUnlocks (program (sample_round ∷ sample_round ∷ []) (start small_start sample_state))
unfolding daemonize
program-auth_run-NeverUnlocks_example =
    program-auth_run-NeverUnlocks (sample_round ∷ sample_round ∷ []) small_start sample_state true
      true 3 denying [] [] two_requests (sample_round-IsQuiet, (sample_round-IsQuiet, tt)) refl
      denying-Refuses denied

mismatched :
    sample_state.os.replies
    ≡ Refusing.replies_of (AuthShadow.auth_run 3 other_hash stored [] [] two_requests)
unfolding verdicts verdict lock_buffer dewlock.Strings.Equality.same_text
mismatched = ap Refusing.replies_of (
    sym (
      auth_run-verdicts 3 other_hash stored [] [] ((97 ∷ 98 ∷ []) ∷ (99 ∷ []) ∷ [])
        (λ round. (refl, refl)) tt tt (omega arith, (omega arith, tt)) (omega arith)))

program-shadow-NeverUnlocks_example :
    NeverUnlocks (program (sample_round ∷ sample_round ∷ []) (start small_start sample_state))
unfolding daemonize
program-shadow-NeverUnlocks_example =
    program-shadow-NeverUnlocks (sample_round ∷ sample_round ∷ []) small_start sample_state 3
      other_hash stored [] [] two_requests (sample_round-IsQuiet, (sample_round-IsQuiet, tt)) refl
      other_hash-Refuses mismatched

-- The sample has a seat already; a program starts with none.
abbrev first_state : State
first_state = record sample_state { seats = [] }

abbrev failing : Round
failing = record sample_round { poll_fails = true }

program-IsTied_example :
    InProgram IsTied (program (sample_round ∷ failing ∷ []) (start small_start first_state))
program-IsTied_example = program-IsTied (sample_round ∷ failing ∷ []) small_start first_state refl

sample_keys : KeysOk IsChar sample_round
unfolding KeyOk
sample_keys = (omega arith, (tt, (tt, tt)))

small_start-keys : WorldOk IsChar small_start
unfolding KeyOk
small_start-keys = record {
  registry_keys = (tt, (tt, (tt, (tt, (tt, (tt, tt))))));
  configured_keys = tt;
  dispatches_keys = ((tt, tt), ((tt, tt), tt));
}

program-HasText_example :
    InProgram
      (λ t. HasText t.password)
      (program (sample_round ∷ failing ∷ []) (start small_start first_state))
program-HasText_example =
    program-HasText (sample_round ∷ failing ∷ []) small_start first_state
      (sample_keys, (sample_keys, tt)) small_start-keys tt (length-replicate {A = ℕ} 1024 7)
