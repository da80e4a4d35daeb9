-- ===== src/Background/Scaling.antt =====
-- `bg_render_image` of src/background.c: how an image is laid over a buffer. The widths and heights
-- are whole numbers, and the arithmetic of `double` on them is taken without its rounding.
pub mod Layout
use dewlock.Base.{ℕ, ◌+◌, ◌*◌, Bool, if◌then◌else◌, ltb}
use dewlock.Base.Int.{ℤ, sub_ℕ, quot}
use dewlock.Background.{BackgroundMode, stretch, fill, fit, center, tile, solid_color, invalid_mode}

-- `num / den`, and `(plus - minus) / den`.
pub record Ratio : Type 0 where
  pub num : ℕ
  pub den : ℕ

pub record Offset : Type 0 where
  pub plus : ℕ
  pub minus : ℕ
  pub den : ℕ

abbrev pub ratio : ℕ → ℕ → Ratio
ratio num den = record { num = num; den = den }

abbrev pub no_offset : Offset
no_offset = record { plus = 0; minus = 0; den = 1 }

-- `a > b` for ratios of positive numbers.
abbrev pub is_greater : Ratio → Ratio → Bool
is_greater a b = ltb (b.num * a.den) (a.num * b.den)

-- `buffer / 2 / scale - image / 2`
abbrev pub centered : ℕ → Ratio → ℕ → Offset
centered buffer scale image = record {
  plus = buffer * scale.den * 2;
  minus = image * (2 * scale.num);
  den = 2 * scale.num * 2;
}

-- What is painted: the scales of the axes and the place of the image in the scaled space, the place
-- in whole pixels, the image as a pattern, or the source that cairo has at that time and no image. The
-- last is what the default build does, in which the assertion behind it is compiled out.
pub data Painted : Type 0 where
  scaled : (horizontal vertical : Ratio) → (x y : Offset) → Painted
  placed : (x y : ℤ) → Painted
  tiled current_source : Painted

-- One scale for both axes: that of the width, or that of the height.
abbrev by_width : (width height buffer_width buffer_height : ℕ) → Painted
by_width width height buffer_width buffer_height =
    let scale = ratio buffer_width width in
    scaled scale scale no_offset (centered buffer_height scale height)

abbrev by_height : (width height buffer_width buffer_height : ℕ) → Painted
by_height width height buffer_width buffer_height =
    let scale = ratio buffer_height height in
    scaled scale scale (centered buffer_width scale width) no_offset

unfoldable pub bg_render_image :
    (width height : ℕ) → BackgroundMode → (buffer_width buffer_height : ℕ) → Painted
bg_render_image width height stretch buffer_width buffer_height =
    scaled (ratio buffer_width width) (ratio buffer_height height) no_offset no_offset
bg_render_image width height fill buffer_width buffer_height =
    if is_greater (ratio buffer_width buffer_height) (ratio width height)
    then by_width width height buffer_width buffer_height
    else by_height width height buffer_width buffer_height
bg_render_image width height fit buffer_width buffer_height =
    if is_greater (ratio buffer_width buffer_height) (ratio width height)
    then by_height width height buffer_width buffer_height
    else by_width width height buffer_width buffer_height
bg_render_image width height center buffer_width buffer_height =
    placed (quot (sub_ℕ buffer_width width) 2) (quot (sub_ℕ buffer_height height) 2)
bg_render_image width height tile buffer_width buffer_height = tiled
bg_render_image width height solid_color buffer_width buffer_height = current_source
bg_render_image width height invalid_mode buffer_width buffer_height = current_source
