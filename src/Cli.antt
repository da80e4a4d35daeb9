-- ===== src/Cli.antt =====
-- src/cli.c: the command line. `getopt_long` is not part of the program: its answers are a list, and
-- the end of the list is its -1. The texts of the help and of the version are left out.
pub mod Last
mod Examples
use dewlock.Base.{
  ℕ, Bool, true, false, not, Option, none, some, List, [], ◌∷◌, ◌++◌, ◌==◌, if◌then◌else◌, codes,
}
use dewlock.Base.Int.{ℤ, negsuc}
use dewlock.Result.{Result, ok, err_cli_invalid_option}
use dewlock.Strings.{strtol}
use dewlock.Loop.{to_int}

pub record CliOpts : Type 0 where
  pub config : Option (List ℕ)
  pub debug : Bool
  pub daemonize : Bool
  pub ready_fd : ℤ

-- The static `cli_opts`.
abbrev pub cli_opts : CliOpts
cli_opts = record { config = none; debug = false; daemonize = false; ready_fd = negsuc 0 }

-- An answer of `getopt_long`, with `optarg`, `optopt` and `argv[optind - 1]`.
pub record Answer : Type 0 where
  pub opt : ℕ
  pub optarg : List ℕ
  pub optopt : ℕ
  pub previous : List ℕ

-- What `print_error` says.
pub data Complaint : Type 0 where
  invalid_letter : ℕ → Complaint
  invalid_word : List ℕ → Complaint
  requires_argument : List ℕ → Complaint

unfoldable pub print_error : Answer → Complaint
print_error a =
    if a.opt == b'?'
    then (if not (a.optopt == 0) then invalid_letter a.optopt else invalid_word a.previous)
    else requires_argument a.previous

-- What `fopen`, `fchmod` and `fwrite` answer.
pub record File : Type 0 where
  pub opens : Bool
  pub secured : Bool
  pub written : ℕ

abbrev pub config_string : List ℕ
config_string = codes "auth include login" ++ 10 ∷ []

-- The status that the process exits with, and what is in the file: the array with its NUL.
unfoldable pub create_pam_configuration : File → ℕ × List ℕ
create_pam_configuration f =
    if f.opens
    then (if f.secured
        then (if f.written == 1 then (0, config_string ++ 0 ∷ []) else (1, []))
        else (1, []))
    else (1, [])

pub data Parsed : Type 0 where
  returned : Result → Option Complaint → CliOpts → Parsed
  exits : (status : ℕ) → (pam_file : List ℕ) → Parsed

abbrev exit_pam : ℕ × List ℕ → Parsed
exit_pam (status, file) = exits status file

-- The loop of `cli_parse`, with the options so far.
unfoldable pub cli_parse : File → List Answer → CliOpts → Parsed
cli_parse f [] opts = returned ok none opts
cli_parse f (a ∷ answers) opts =
    let with_config = cli_parse f answers (record opts { config = some a.optarg }) in
    let with_debug = cli_parse f answers (record opts { debug = true }) in
    let with_daemonize = cli_parse f answers (record opts { daemonize = true }) in
    let with_fd = cli_parse f answers (record opts { ready_fd = to_int (strtol a.optarg) }) in
    if a.opt == b'c'
    then with_config
    else (if a.opt == b'd'
        then with_debug
        else (if a.opt == b'f'
            then with_daemonize
            else (if a.opt == b'r'
                then with_fd
                else (if a.opt == b'h'
                    then exits 0 []
                    else (if a.opt == b'v'
                        then exits 0 []
                        else (if a.opt == b'p'
                            then exit_pam (create_pam_configuration f)
                            else returned err_cli_invalid_option (some (print_error a)) opts))))))
