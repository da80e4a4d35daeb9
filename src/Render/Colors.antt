-- ===== src/Render/Colors.antt =====
-- The colours of the configuration file as `set_source_u32` of src/render.c hands them to cairo.
use dewlock.Base.{ℕ, ◌<◌, ◌≡◌, ap, ◌∙◌, [], arith}
use dewlock.Config.{color_from_string}
use dewlock.Config.Channels.{hex_byte, rgba, color_from_string-rgba, color_from_string-rgb}
use dewlock.Render.{set_source_u32}

set_source_u32-rgba :
    (r g b a : ℕ)
    → r < 256
    → g < 256
    → b < 256
    → a < 256
    → set_source_u32 (rgba r g b a) ≡ record { red = r; green = g; blue = b; alpha = a }
unfolding set_source_u32
set_source_u32-rgba r g b a hr hg hb ha = ground arith

-- A colour of eight hexadecimal digits, with A to F in upper case, is painted with the four channels that the digits name. Of six
-- such digits, red, green and blue are painted as green, blue and alpha, with no red.
pub set_source_u32-color_from_string :
    (r g b a fallback : ℕ)
    → r < 256
    → g < 256
    → b < 256
    → a < 256
    → (set_source_u32
          (color_from_string (hex_byte r (hex_byte g (hex_byte b (hex_byte a [])))) fallback)
        ≡ record { red = r; green = g; blue = b; alpha = a })
      × (set_source_u32 (color_from_string (hex_byte r (hex_byte g (hex_byte b []))) fallback)
          ≡ record { red = 0; green = r; blue = g; alpha = b })
set_source_u32-color_from_string r g b a fallback hr hg hb ha = (
  ap set_source_u32 (color_from_string-rgba r g b a fallback hr hg hb ha)
      ∙ set_source_u32-rgba r g b a hr hg hb ha,
  ap set_source_u32 (color_from_string-rgb r g b fallback hr hg hb)
      ∙ set_source_u32-rgba 0 r g b (omega arith) hr hg hb,
)
