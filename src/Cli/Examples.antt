-- ===== src/Cli/Examples.antt =====
-- The theorem on src/cli.c at a concrete command line.
use dewlock.Base.{ℕ, ◌≡◌, refl, inl, inr, true, some, none, List, [], ◌∷◌}
use dewlock.Base.Int.{pos}
use dewlock.Result.{ok}
use dewlock.Cli.{Answer, File, returned, cli_opts, cli_parse}
use dewlock.Cli.Last.{cli_parse-asked_for, last_of, is_given}
use dewlock.Strings.{strtol}

abbrev option : ℕ → List ℕ → Answer
option opt optarg = record { opt = opt; optarg = optarg; optopt = 0; previous = [] }

abbrev no_file : File
no_file = record { opens = true; secured = true; written = 1 }

-- `-r 3 -d -c ab -r 4 -f`
abbrev small_line : List Answer
small_line =
    option b'r' (b'3' ∷ [])
    ∷ option b'd' []
    ∷ option b'c' (b'a' ∷ b'b' ∷ [])
    ∷ option b'r' (b'4' ∷ [])
    ∷ option b'f' []
    ∷ []

cli_parse-asked_for_example :
    cli_parse no_file small_line cli_opts
    ≡ returned ok none (record {
      config = some (b'a' ∷ b'b' ∷ []);
      debug = true;
      daemonize = true;
      ready_fd = pos 4;
    })
unfolding last_of is_given strtol
cli_parse-asked_for_example = cli_parse-asked_for no_file small_line cli_opts (
  inr (inr (inr refl)),
  (inr (inl refl), (inl refl, (inr (inr (inr refl)), (inr (inr (inl refl)), tt)))),
)
