-- ===== src/Cli/Last.antt =====
-- `cli_parse` of src/cli.c on options that only set something.
use dewlock.Base.{
  ℕ, ◌≡◌, refl, ◌⊎◌, inl, inr, Bool, true, false, ◌||◌, Option, none, some, List, [], ◌∷◌, ◌==◌,
  if◌then◌else◌, All, subst, sym, ◌∙◌,
}
use dewlock.Base.Int.{ℤ}
use dewlock.Result.{ok}
use dewlock.Strings.{strtol}
use dewlock.Loop.{to_int}
use dewlock.Cli.{CliOpts, Answer, File, returned, cli_parse}

-- An option that only sets something.
abbrev pub IsSetting : Answer → Type 0
IsSetting a = (a.opt ≡ b'c') ⊎ ((a.opt ≡ b'd') ⊎ ((a.opt ≡ b'f') ⊎ (a.opt ≡ b'r')))

abbrev pub or_kept : Option (List ℕ) → Option (List ℕ) → Option (List ℕ)
or_kept none kept = kept
or_kept (some arg) kept = some arg

-- The argument of the last option with a letter, or none.
unfoldable pub last_of : ℕ → List Answer → Option (List ℕ)
last_of letter [] = none
last_of letter (a ∷ answers) =
    or_kept (last_of letter answers) (if a.opt == letter then some a.optarg else none)

unfoldable pub is_given : ℕ → List Answer → Bool
is_given letter [] = false
is_given letter (a ∷ answers) = a.opt == letter || is_given letter answers

abbrev pub fd_or : Option (List ℕ) → ℤ → ℤ
fd_or none kept = kept
fd_or (some arg) kept = to_int (strtol arg)

-- The options that a command line asks for, in whatever order it gives them: the last argument wins.
abbrev pub asked_for : List Answer → CliOpts → CliOpts
asked_for answers opts = record {
  config = or_kept (last_of b'c' answers) opts.config;
  debug = is_given b'd' answers || opts.debug;
  daemonize = is_given b'f' answers || opts.daemonize;
  ready_fd = fd_or (last_of b'r' answers) opts.ready_fd;
}

or_kept-none : (o : Option (List ℕ)) → or_kept o none ≡ o
or_kept-none none = refl
or_kept-none (some arg) = refl

or_kept-or_kept :
    (o kept : Option (List ℕ)) (arg : List ℕ)
    → or_kept (or_kept o (some arg)) kept ≡ or_kept o (some arg)
or_kept-or_kept none kept arg = refl
or_kept-or_kept (some other) kept arg = refl

fd_or-or_kept :
    (o : Option (List ℕ)) (kept : ℤ) (arg : List ℕ)
    → fd_or (or_kept o (some arg)) kept ≡ fd_or o (to_int (strtol arg))
fd_or-or_kept none kept arg = refl
fd_or-or_kept (some other) kept arg = refl

or_true : (b : Bool) → (b || true) ≡ true
or_true true = refl
or_true false = refl

ruleset kept = (or_kept-none, or_kept-or_kept, fd_or-or_kept, or_true)

-- On options that only set something `cli_parse` answers OK, and the options are those that the last
-- `-c` and `-r` give, the number of `-r` as an `int`, and the flags that are there at all.
pub cli_parse-asked_for :
    (f : File) (answers : List Answer) (opts : CliOpts)
    → All IsSetting answers
    → cli_parse f answers opts ≡ returned ok none (asked_for answers opts)
unfolding cli_parse last_of is_given
cli_parse-asked_for f [] opts h = refl
cli_parse-asked_for f (a ∷ answers) opts h =
    let Parses : ℕ → Type 0 = λ n.
      let b : Answer = record a { opt = n } in
      cli_parse f (b ∷ answers) opts ≡ returned ok none (asked_for (b ∷ answers) opts) in
    let further : (opts' : CliOpts)
        → cli_parse f answers opts' ≡ returned ok none (asked_for answers opts') =
      λ opts'. cli_parse-asked_for f answers opts' h.1 in
    elim h.0 [
      | inl c ↦ subst Parses (sym c) (simp kept (further (record opts { config = some a.optarg })))
      | inr (inl d) ↦ subst Parses (sym d) (further (record opts { debug = true }) ∙ simp kept refl)
      | inr (inr (inl e)) ↦
          subst Parses (sym e) (further (record opts { daemonize = true }) ∙ simp kept refl)
      | inr (inr (inr r)) ↦
          subst Parses (sym r)
            (simp kept (further (record opts { ready_fd = to_int (strtol a.optarg) })))
    ]
