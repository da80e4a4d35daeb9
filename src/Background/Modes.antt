-- ===== src/Background/Modes.antt =====
-- `bg_parse_mode` of src/background.c against the names of the modes.
use dewlock.Base.{
  ℕ, ◌≡◌, ◌≢◌, refl, sym, ◌∙◌, List, [], codes, if◌then◌else◌, if_true, if_false, Bool-cases, inl,
  inr,
}
use dewlock.Strings.{strcmp, is_zero}
use dewlock.Strings.Equality.{strcmp-zero, same_text-eq}
use dewlock.Background.{
  BackgroundMode, stretch, fill, fit, center, tile, solid_color, invalid_mode, bg_parse_mode,
}

-- The name of a mode in the configuration; the invalid one has none.
abbrev pub mode_name : BackgroundMode → List ℕ
mode_name stretch = codes "stretch"
mode_name fill = codes "fill"
mode_name fit = codes "fit"
mode_name center = codes "center"
mode_name tile = codes "tile"
mode_name solid_color = codes "solid_color"
mode_name invalid_mode = []

-- A mode is the invalid one, or the text is its name.
abbrev Named : List ℕ → BackgroundMode → Type 0
Named s m = m ≢ invalid_mode → s ≡ mode_name m

Named-step :
    (s : List ℕ) (m other : BackgroundMode)
    → Named s other
    → Named s (if is_zero (strcmp s (mode_name m)) then m else other)
Named-step s m other h = elim (Bool-cases (is_zero (strcmp s (mode_name m)))) [
  | inl e ↦
      if_true (Named s) _ _ _ e
        (λ ne. same_text-eq s (mode_name m) (sym (strcmp-zero s (mode_name m)) ∙ e))
  | inr e ↦ if_false (Named s) _ _ _ e h
]

-- A text that is not rejected is the name of the mode that it is parsed to.
mode_name-bg_parse_mode :
    (s : List ℕ) → bg_parse_mode s ≢ invalid_mode → s ≡ mode_name (bg_parse_mode s)
unfolding bg_parse_mode
mode_name-bg_parse_mode s = Named-step s stretch _ (
    Named-step s fill _ (
      Named-step s fit _ (
        Named-step s center _
          (Named-step s tile _ (Named-step s solid_color _ (λ n. absurd (n refl)))))))

-- The name of every mode but the invalid one is parsed to that mode.
pub bg_parse_mode-mode_name :
    (m : BackgroundMode) → m ≢ invalid_mode → bg_parse_mode (mode_name m) ≡ m
unfolding bg_parse_mode strcmp
bg_parse_mode-mode_name stretch n = refl
bg_parse_mode-mode_name fill n = refl
bg_parse_mode-mode_name fit n = refl
bg_parse_mode-mode_name center n = refl
bg_parse_mode-mode_name tile n = refl
bg_parse_mode-mode_name solid_color n = refl
bg_parse_mode-mode_name invalid_mode n = absurd (n refl)
