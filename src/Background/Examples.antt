-- ===== src/Background/Examples.antt =====
-- The theorem on src/background.c at a small image and a buffer.
use dewlock.Background.{fill, fit}
use dewlock.Background.Scaling.{bg_render_image}
use dewlock.Background.Scaling.Layout.{Lies, Covers, Fits, bg_render_image-Lies}

-- An image of 30 by 20 on a buffer of 1920 by 1080.
bg_render_image-Lies_example :
    Lies Covers 30 20 1920 1080 (bg_render_image 30 20 fill 1920 1080)
    × Lies Fits 30 20 1920 1080 (bg_render_image 30 20 fit 1920 1080)
bg_render_image-Lies_example = bg_render_image-Lies 30 20 1920 1080
