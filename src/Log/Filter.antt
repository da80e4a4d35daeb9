-- ===== src/Log/Filter.antt =====
-- What a run of messages leaves on stderr, by src/log.c.
use dewlock.Base.{
  ℕ, ◌≡◌, refl, sym, ◌∙◌, ap, List, [], ◌∷◌, ◌++◌, append_assoc, append-nil, ltb, leb, arith,
  if◌then◌else◌, if_cases, codes, if_true, if_false,
}
use dewlock.Clock.{decimal, decimal_loop}
use dewlock.Log.{level_warn, LogLevel, rank, Log, LogCall, log_line, log_init, log_put}

-- The messages in order.
log_puts : List LogCall → Log → Log
log_puts [] log = log
log_puts (e ∷ es) log = log_puts es (log_put e log)

-- The lines of those that are not above the level.
lines_up_to : LogLevel → List LogCall → List ℕ
lines_up_to level [] = []
lines_up_to level (e ∷ es) =
    if leb (rank e.level) (rank level)
    then log_line e ++ lines_up_to level es
    else lines_up_to level es

module _ (level : LogLevel) where
  -- Behind `log_init` exactly the messages up to the level are written, in their order, and the level
  -- stays.
  log_puts-init :
      (es : List LogCall) (log : Log)
      → log_puts es (log_init level log)
        ≡ record { current_level = level; stderr = log.stderr ++ lines_up_to level es }
  unfolding log_puts lines_up_to log_init log_put
  log_puts-init [] log =
      ap (λ t. record { current_level = level; stderr = t }) (sym (append-nil log.stderr))
  log_puts-init (e ∷ es) log =
      if_cases
        (λ t.
          log_puts es t
          ≡ record { current_level = level; stderr = log.stderr ++ lines_up_to level (e ∷ es) })
        (ltb (rank level) (rank e.level)) _ _
        (λ above.
          log_puts-init es log
          ∙ ap (λ t. record { current_level = level; stderr = log.stderr ++ t })
              (if_false (λ t. lines_up_to level es ≡ t) (leb (rank e.level) (rank level)) _ _
                (ground (arith, above)) refl))
        λ below.
          log_puts-init es (record log { stderr = log.stderr ++ log_line e })
          ∙ ap (λ t. record { current_level = level; stderr = t })
              (append_assoc log.stderr (log_line e) (lines_up_to level es)
                ∙ if_true
                    (λ t. log.stderr ++ (log_line e ++ lines_up_to level es) ≡ log.stderr ++ t)
                    (leb (rank e.level) (rank level)) _ _ (ground (arith, below)) refl)

a_warning :
    log_line (record { level = level_warn; file = codes "a.c"; line = 12; text = codes "hi" })
    ≡ codes "[a.c:12] WARN - hi" ++ 10 ∷ []
unfolding decimal decimal_loop
a_warning = refl
