-- ===== src/Main/Startup/Traversal.antt =====
-- The start of the program step by step: what holds of the state from the event loop's creation on, and
-- of what the start comes to, once and for any two such properties.
use dewlock.Base.{
  ℕ, ◌≡◌, refl, Option, none, some, List, [], ◌∷◌, All, if_both, if_cases, true, Option-cases, inl,
  inr,
}
use dewlock.Result.{is_ok}
use dewlock.SafeBuf.{Sbuf, Created, sbuf_create}
use dewlock.Loop.{loop_create}
use dewlock.State.{State}
use dewlock.Clock.{clk_set_time}
use dewlock.Cli
use dewlock.Cli.{CliOpts, cli_opts, cli_parse}
use dewlock.Config.Load.{endless, loads, nowhere, crashes, at, Found, Loading}
use dewlock.Main.{Event, handle_events}
use dewlock.Seat.{add_seat}
use dewlock.Outputs.{add_output}
use dewlock.Main.Globals.{
  Global, compositor, subcompositor, shm, seat, output, lock_manager, unknown_global, Bound,
  nothing_bound, all_bound, handle_global,
}
use dewlock.Main.Daemonize.{daemonize}
use dewlock.Main.Steps.Core.{Moves, stays, adds, slots_of, Slots}
use dewlock.Main.Steps.Events.{KeyOk, handle_events-Moves}
use dewlock.Main.Startup.Keys.{AnnouncedOk, AnswerOk, RegistryOk, WorldOk}
use dewlock.Main.Startup.{
  World, Started, ended, stuck, waiting, entered, on_events, Announced, global, event, on_registry,
  on_first_roundtrip, on_roundtrip, wait_locked, enter_loop, on_daemonized, detach, notify,
  create_surfaces, lock_session, prepare, on_loading, on_found, find_config, on_parsed, start,
}

-- What `sbuf_create` makes for the password.
abbrev pub made : World → Sbuf → Created
made w old = sbuf_create old 1024 w.allocated w.found w.locks w.lock_supported

-- The slots, and the replies to come.
abbrev pub given : State → Slots × List ℕ
given s = (slots_of s, s.os.replies)

-- What the start gives the loop: empty timers, the slots and the replies as they were, and a new
-- password buffer.
pub record Begins (w : World) (g : Slots × List ℕ) (s : State) : Type 0 where
  pub loop : s.eventloop ≡ loop_create
  pub begun : given s ≡ g
  pub old : Sbuf
  pub created : is_ok (made w old).result ≡ true
  pub password : s.password ≡ (made w old).sbuf

-- `Inv` holds of the state while the program starts, `Good` of what the start comes to.
pub record Carries (Ok : ℕ → Type 0) (w : World) (g : Slots × List ℕ) (Inv : State → Type 0)
    (Good : Started → Type 0) : Type 0 where
  pub begins : (s : State) → Begins w g s → Inv s
  pub moves : {s t : State} → Moves Ok s t → Inv s → Inv t
  pub ends : (status : ℕ) → Good (ended status)
  pub sticks : Good stuck
  pub waits : (s : State) → Inv s → Good (waiting s)
  pub enters : (s : State) → Inv s → Good (entered (enter_loop w s))
  pub daemonizes : (s : State) → Inv s → Good (on_daemonized w s (daemonize w.side))

module _ {Ok : ℕ → Type 0} {w : World} {g : Slots × List ℕ} {Inv : State → Type 0}
    {Good : Started → Type 0} (h : Carries Ok w g Inv Good) (pressed : WorldOk Ok w) where
  open h use {begins, moves, ends, sticks, waits, enters, daemonizes}

  on_events-Good :
      (s : State) (es : List Event) (go : State → Started)
      → All (KeyOk Ok) es
      → Inv s
      → ((t : State) → Inv t → Good (go t))
      → Good (on_events s es go)
  unfolding on_events
  on_events-Good s es go ok i f = elim (Option-cases (handle_events s es).exited) [
    | inl goes_on ↦
        rw (goes_on, on_events) (f (handle_events s es) (moves (handle_events-Moves es s ok) i))
    | inr (status, is_over) ↦ rw (is_over, on_events) (ends status)
  ]

  handle_global-Inv : (s : State) (b : Bound) (g : Global) → Inv s → Inv ((handle_global s b g).0)
  unfolding handle_global add_seat add_output
  handle_global-Inv s b compositor i = i
  handle_global-Inv s b subcompositor i = i
  handle_global-Inv s b shm i = i
  handle_global-Inv s b seat i = moves (adds refl) i
  handle_global-Inv s b (output name) i = moves (stays refl) i
  handle_global-Inv s b lock_manager i = i
  handle_global-Inv s b unknown_global i = i

  on_registry-Good :
      (s : State) (b : Bound) (announced : List Announced) (go : State → Bound → Started)
      → All (AnnouncedOk Ok) announced
      → Inv s
      → ((t : State) (c : Bound) → Inv t → Good (go t c))
      → Good (on_registry s b announced go)
  unfolding on_registry
  on_registry-Good s b [] go ok i f = f s b i
  on_registry-Good s b (global g ∷ later) go ok i f =
      on_registry-Good _ _ later go ok.1 (handle_global-Inv s b g i) f
  on_registry-Good s b (event e ∷ later) go ok i f =
      on_events-Good s (e ∷ []) _ (ok.0, tt) i λ t j. on_registry-Good t b later go ok.1 j f

  on_first_roundtrip-Good :
      (s : State) (answer : Option (List Announced)) (go : State → Bound → Started)
      → RegistryOk Ok answer
      → Inv s
      → ((t : State) (c : Bound) → Inv t → Good (go t c))
      → Good (on_first_roundtrip s answer go)
  unfolding on_first_roundtrip
  on_first_roundtrip-Good s none go ok i f = ends 1
  on_first_roundtrip-Good s (some announced) go ok i f =
      on_registry-Good s nothing_bound announced go ok i f

  on_roundtrip-Good :
      (s : State) (answer : Option (List Event)) (go : State → Started)
      → AnswerOk Ok answer
      → Inv s
      → ((t : State) → Inv t → Good (go t))
      → Good (on_roundtrip s answer go)
  unfolding on_roundtrip
  on_roundtrip-Good s none go ok i f = ends 1
  on_roundtrip-Good s (some es) go ok i f = on_events-Good s es go ok i f

  wait_locked-Good :
      (dispatches : List (Option (List Event))) (s : State) (go : State → Started)
      → All (AnswerOk Ok) dispatches
      → Inv s
      → ((t : State) → Inv t → Good (go t))
      → Good (wait_locked dispatches s go)
  unfolding wait_locked
  wait_locked-Good [] s go ok i f = if_both Good s.locked _ _ (f s i) (waits s i)
  wait_locked-Good (none ∷ later) s go ok i f = if_both Good s.locked _ _ (f s i) (ends 2)
  wait_locked-Good (some es ∷ later) s go ok i f =
      if_both Good s.locked _ _ (f s i)
        (on_events-Good s es _ ok.0 i λ t j. wait_locked-Good later t go ok.1 j f)

  detach-Good : (opts : CliOpts) (s : State) → Inv s → Good (detach w opts s)
  unfolding detach
  detach-Good opts s i = if_both Good opts.daemonize _ _ (daemonizes s i) (enters s i)

  notify-Good : (opts : CliOpts) (s : State) → Inv s → Good (notify w opts s)
  unfolding notify
  notify-Good opts s i = if_both Good _ _ _ (ends 2) (detach-Good opts s i)

  lock_session-Good :
      (opts : CliOpts) (s : State)
      → Begins w g (record s { eventloop = loop_create })
      → Good (lock_session w opts s)
  unfolding lock_session
  lock_session-Good opts s b =
      on_first_roundtrip-Good _ w.registry _ pressed.registry_keys (begins _ b) λ t bound i.
        if_both Good (all_bound bound) _ _
          (on_roundtrip-Good t w.configured _ pressed.configured_keys i λ u j.
            if_both Good w.surfaces_made _ _
              (wait_locked-Good w.dispatches (create_surfaces u) _ pressed.dispatches_keys
                (moves (stays refl) j) (notify-Good opts))
              (ends 1))
          (ends 1)

  prepare-Good : (opts : CliOpts) (s : State) → given s ≡ g → Good (prepare w opts s)
  unfolding prepare clk_set_time
  prepare-Good opts s e =
      if_cases Good (is_ok (made w s.password).result) _ _
        (λ made_ok.
          if_both Good _ _ _
            (lock_session-Good opts _ (record {
              loop = refl;
              begun = e;
              old = s.password;
              created = made_ok;
              password = refl;
            }))
            (ends 1))
        λ failed. ends 1

  on_loading-Good :
      (opts : CliOpts) (s : State) (l : Loading) → given s ≡ g → Good (on_loading w opts s l)
  unfolding on_loading
  on_loading-Good opts s endless e = sticks
  on_loading-Good opts s (loads cfg images) e = prepare-Good opts _ e

  on_found-Good :
      (opts : CliOpts) (s : State) (found : Found) → given s ≡ g → Good (on_found w opts s found)
  unfolding on_found
  on_found-Good opts s nowhere e = on_loading-Good opts s _ e
  on_found-Good opts s crashes e = sticks
  on_found-Good opts s (at path) e = on_loading-Good opts s _ e

  find_config-Good :
      (opts : CliOpts) (path : Option (List ℕ)) (s : State)
      → given s ≡ g
      → Good (find_config w opts path s)
  unfolding find_config
  find_config-Good opts none s e = on_found-Good opts s _ e
  find_config-Good opts (some path) s e = on_found-Good opts s (at path) e

  on_parsed-Good : (s : State) (parsed : Cli.Parsed) → given s ≡ g → Good (on_parsed w s parsed)
  unfolding on_parsed
  on_parsed-Good s (Cli.exits status file) e = ends status
  on_parsed-Good s (Cli.returned res complaint opts) e =
      if_both Good (is_ok res) _ _
        (if_both Good w.auth_ready _ _ (find_config-Good opts opts.config _ e) (ends 1)) (ends 1)

  pub start-Good : (s : State) → given s ≡ g → Good (start w s)
  unfolding start
  start-Good s e = on_parsed-Good s _ e
