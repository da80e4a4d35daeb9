-- ===== src/Outputs/Opaque.antt =====
-- When `create_surface` of main.c tells the compositor that a surface is opaque. Whether the content of
-- an image is CAIRO_CONTENT_COLOR is an argument.
use dewlock.Base.{
  ℕ, ◌%◌, if◌then◌else◌, ◌≡◌, ap, ◌∙◌, Bool, true, false, Option, none, some, ◌⊎◌, ◌==◌,
}
use dewlock.Background.{BackgroundMode, fit, center, solid_color, invalid_mode}
use dewlock.Render.{Surface, set_source_u32}

unfoldable pub surface_is_opaque : (is_color : ℕ → Bool) → (background : ℕ) → Surface → Bool
surface_is_opaque is_color background surface = elim surface.image [
  | none ↦ background % 256 == 0xff
  | some image ↦ is_color image
]

abbrev pub leaves_margins : BackgroundMode → Bool
leaves_margins center = true
leaves_margins fit = true
leaves_margins _ = false

-- `wl_surface_set_opaque_region` is called, with all of the surface.
unfoldable pub sets_opaque_region :
    (is_color : ℕ → Bool) → (background : ℕ) → BackgroundMode → Surface → Bool
sets_opaque_region is_color background mode surface =
    if leaves_margins mode then false else surface_is_opaque is_color background surface

-- The image that `rnd_handle_render` and `bg_render_image` paint over the colour of the background.
abbrev pub painted_image : BackgroundMode → Surface → Option ℕ
painted_image solid_color surface = none
painted_image invalid_mode surface = none
painted_image mode surface = surface.image

-- Every pixel is opaque: the colour is, or an image is painted that is opaque and covers the surface.
abbrev pub IsOpaque : (is_color : ℕ → Bool) → (background : ℕ) → BackgroundMode → Surface → Type 0
IsOpaque is_color background mode surface =
    ((set_source_u32 background).alpha ≡ 255)
    ⊎ ((image : ℕ) × (painted_image mode surface ≡ some image)
        × (is_color image ≡ true)
        × (leaves_margins mode ≡ false))

-- With a single colour as the mode, a surface that has an opaque image is said to be opaque, whatever
-- the colour is.
sets_opaque_region-solid_color :
    (is_color : ℕ → Bool) (background image : ℕ) (surface : Surface)
    → surface.image ≡ some image
    → is_color image ≡ true
    → sets_opaque_region is_color background solid_color surface ≡ true
unfolding sets_opaque_region surface_is_opaque
sets_opaque_region-solid_color is_color background image surface at color =
    ap (λ o. elim o [ none ↦ background % 256 == 0xff | some i ↦ is_color i ]) at ∙ color
