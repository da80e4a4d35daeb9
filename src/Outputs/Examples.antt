-- ===== src/Outputs/Examples.antt =====
-- The theorems on the surfaces of main.c at concrete outputs.
use dewlock.Base.{◌≡◌, none, some, List, [], ◌∷◌, codes}
use dewlock.State.{Image}
use dewlock.Outputs.{new_surface, select_image}
use dewlock.Render.{Surface}
use dewlock.Outputs.Select.{first_named, last_unnamed, or_else, select_image-specified}

abbrev two_images : List Image
two_images =
    record { path = codes "a.png"; output_name = none; cairo_surface = 1 }
    ∷ record { path = codes "b.png"; output_name = some (codes "DP-1"); cairo_surface = 2 }
    ∷ []

select_image-specified_example :
    select_image two_images (record (new_surface 1) { output_name = some (codes "DP-1") })
    ≡ or_else
        (first_named (some (codes "DP-1")) two_images)
        (or_else (last_unnamed two_images) none)
select_image-specified_example =
    select_image-specified two_images (record (new_surface 1) { output_name = some (codes "DP-1") })

-- An image over a colour that is half transparent.
abbrev pictured : Surface
pictured = record (new_surface 1) { image = some 2 }
