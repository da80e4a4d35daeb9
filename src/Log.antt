-- ===== src/Log.antt =====
-- src/log.c: messages up to a level go to stderr, with their place in front. What `vfprintf` makes of a
-- format and its arguments comes as the text of the message.
mod Filter
use dewlock.Base.{ℕ, Bool, true, false, List, [], ◌∷◌, ◌++◌, ltb, if◌then◌else◌, codes}
use dewlock.Clock.{decimal}

-- `log_level_t`
pub data LogLevel : Type 0 where
  level_none level_error level_warn level_info level_debug : LogLevel

-- Its value as a number.
abbrev pub rank : LogLevel → ℕ
rank level_none = 0
rank level_error = 1
rank level_warn = 2
rank level_info = 3
rank level_debug = 4

-- The static `LOG_LEVEL`.
abbrev pub level_name : LogLevel → List ℕ
level_name level_none = codes "NONE"
level_name level_error = codes "ERROR"
level_name level_warn = codes "WARN"
level_name level_info = codes "INFO"
level_name level_debug = codes "DEBUG"

-- The static level, and what was written to stderr.
pub record Log : Type 0 where
  pub current_level : LogLevel
  pub stderr : List ℕ

unfoldable pub log_init : LogLevel → Log → Log
log_init level log = record log { current_level = level }

-- A call of one of the macros, with `__FILE__` and `__LINE__`.
pub record LogCall : Type 0 where
  pub level : LogLevel
  pub file : List ℕ
  pub line : ℕ
  pub text : List ℕ

-- `[file:line] LEVEL - text`
abbrev pub log_line : LogCall → List ℕ
log_line e =
    b'['
    ∷ (e.file
        ++ (b':'
            ∷ (decimal e.line
                ++ (b']'
                    ∷ b' '
                    ∷ (level_name e.level ++ (b' ' ∷ b'-' ∷ b' ' ∷ (e.text ++ 10 ∷ [])))))))

unfoldable pub log_put : LogCall → Log → Log
log_put e log =
    if ltb (rank log.current_level) (rank e.level)
    then log
    else record log { stderr = log.stderr ++ log_line e }

-- The level that `main` sets by the option `-d`.
abbrev pub chosen_level : Bool → LogLevel
chosen_level debug = if debug then level_debug else level_error
