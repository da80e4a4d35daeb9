-- ===== src/Background/Scaling/Layout.antt =====
-- Where the image of `bg_render_image` lies on the buffer.
use dewlock.Base.{ℕ, ◌+◌, ◌*◌, ◌≤◌, ◌≡◌, refl, Bool, false, arith, ltb→lt, if_cases}
use dewlock.Background.{fill, fit}
use dewlock.Background.Scaling.{
  Ratio, Offset, Painted, scaled, placed, tiled, current_source, ratio, is_greater, bg_render_image,
}

-- On one axis: the scaled image has its middle at the middle of the buffer, 2 s x + s w = b for the
-- scale s, the place x, the image's size w and the buffer's size b.
abbrev pub IsCentered : Ratio → Offset → (image buffer : ℕ) → Type 0
IsCentered s o image buffer =
    2 * s.num * o.plus + s.num * image * o.den ≡ buffer * s.den * o.den + 2 * s.num * o.minus

-- The scaled image is at least as long as the buffer, or at most.
abbrev pub Covers : Ratio → (image buffer : ℕ) → Type 0
Covers s image buffer = buffer * s.den ≤ s.num * image

abbrev pub Fits : Ratio → (image buffer : ℕ) → Type 0
Fits s image buffer = s.num * image ≤ buffer * s.den

-- The image keeps its proportions, its middle is at the middle of the buffer, and it has the extent on
-- both axes.
abbrev pub Lies :
    (Extent : Ratio → ℕ → ℕ → Type 0)
    → (width height buffer_width buffer_height : ℕ) → Painted
    → Type 0
Lies Extent w h bw bh (scaled sx sy x y) =
    (sx ≡ sy) × IsCentered sx x w bw × IsCentered sy y h bh × Extent sx w bw × Extent sy h bh
Lies Extent w h bw bh (placed x y) = ⊥
Lies Extent w h bw bh tiled = ⊥
Lies Extent w h bw bh current_source = ⊥

-- In arithmetic without rounding, the mode fill scales an image evenly and centered so that it covers
-- the whole buffer, and the mode fit so that it lies within the buffer.
pub bg_render_image-Lies :
    (width height buffer_width buffer_height : ℕ)
    → Lies Covers width height buffer_width buffer_height
        (bg_render_image width height fill buffer_width buffer_height)
      × Lies Fits width height buffer_width buffer_height
          (bg_render_image width height fit buffer_width buffer_height)
unfolding bg_render_image
bg_render_image-Lies w h bw bh = (
  if_cases (Lies Covers w h bw bh) wider _ _
      (λ e.
        let lt = ltb→lt (w * bh) (bw * h) e in
        (refl, omega arith, omega arith, omega arith, omega (arith, lt)))
      (λ e.
        let le = not_wider e in (refl, omega arith, omega arith, omega (arith, le), omega arith)),
  if_cases (Lies Fits w h bw bh) wider _ _
      (λ e.
        let lt = ltb→lt (w * bh) (bw * h) e in
        (refl, omega arith, omega arith, omega (arith, lt), omega arith))
      (λ e.
        let le = not_wider e in (refl, omega arith, omega arith, omega arith, omega (arith, le))),
)
  where
    wider : Bool
    wider = is_greater (ratio bw bh) (ratio w h)

    not_wider : wider ≡ false → bw * h ≤ w * bh
    not_wider e = ground arith
