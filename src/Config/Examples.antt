-- ===== src/Config/Examples.antt =====
-- The theorems on src/config.c at concrete files.
use dewlock.Base.{◌≡◌, refl, true, suc, ℕ, none, some, List, [], ◌∷◌, arith, codes, length}
use dewlock.Strings.Splitting.{free_of}
use dewlock.Strings.Equality.{same_text}
use dewlock.State.{Image}
use dewlock.Background.{fit}
use dewlock.Config.{Cfg, read_options}
use dewlock.Config.Load.{Outside, escape_loop, load_image}
use dewlock.Config.Lines.{unlines}
use dewlock.Config.Printing.{IsPrintable, option_lines}
use dewlock.Config.RoundTrip.{read_options-option_lines}
use dewlock.Config.Escaping.{spaced, escape_loop-ends}
use dewlock.Config.Images.{EndsDistinct, load_image-EndsDistinct}

abbrev sample_cfg : Cfg
sample_cfg = record {
  colors = record { background = 0xa3a3a3ff; overlay = 0x55; text = 1; warning = 2; error = 3 };
  path = some (codes "~/lock.png");
  mode = fit;
  family = codes "monospace";
  size = 24;
}

abbrev no_cfg : Cfg
no_cfg = record sample_cfg { path = none }

sample_cfg-IsPrintable : IsPrintable sample_cfg
unfolding free_of
sample_cfg-IsPrintable = record {
  path = (refl, refl);
  family = (refl, refl);
  mode = ground arith;
  size = omega arith;
  background = omega arith;
  overlay = omega arith;
  text = omega arith;
  warning = omega arith;
  error = omega arith;
}

read_options-option_lines_example :
    read_options no_cfg (some (unlines (option_lines sample_cfg))) ≡ sample_cfg
read_options-option_lines_example =
    read_options-option_lines no_cfg sample_cfg refl sample_cfg-IsPrintable

escape_loop-ends_example :
    escape_loop (suc (length (codes "a  b   c"))) (codes "a  b   c")
    ≡ some (spaced (codes "a  b   c"))
escape_loop-ends_example = escape_loop-ends (codes "a  b   c")

-- A shell that expands a text to itself, and an empty one to no words.
abbrev words_of : List ℕ → List (List ℕ)
words_of [] = []
words_of (b ∷ bs) = (b ∷ bs) ∷ []

abbrev plain_shell : Outside
plain_shell = record {
  wordexp = λ s. some (words_of s);
  bg_load_image = λ path. some (length path);
  readable = λ path. true;
  unwritten = [];
}

abbrev old_images : List Image
old_images =
    record { path = codes "a.png"; output_name = none; cairo_surface = 1 }
    ∷ record { path = codes "b.png"; output_name = some (codes "DP-1"); cairo_surface = 2 }
    ∷ []

abbrev one_output : Cfg
one_output = record sample_cfg { path = some (codes "DP-1:c.png") }

load_image-EndsDistinct_example : EndsDistinct (load_image plain_shell one_output old_images)
unfolding same_text
load_image-EndsDistinct_example =
    load_image-EndsDistinct plain_shell one_output old_images ((refl, tt), (tt, tt))
