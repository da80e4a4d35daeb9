-- ===== src/Outputs/Select.antt =====
-- The image that `select_image` of main.c finds for an output.
use dewlock.Base.{ℕ, ◌≡◌, refl, Bool, true, false, Option, none, some, List, [], ◌∷◌, if◌then◌else◌}
use dewlock.State.{Image}
use dewlock.Render.{Surface}
use dewlock.Strings.Equality.{same_name, lenient_strcmp-zero}
use dewlock.Outputs.{select_image, select_loop}

-- The first image of the given name.
unfoldable pub first_named : Option (List ℕ) → List Image → Option ℕ
first_named name [] = none
first_named name (i ∷ images) =
    let rest = first_named name images in
    if same_name i.output_name name then some i.cairo_surface else rest

abbrev pub or_else : Option ℕ → Option ℕ → Option ℕ
or_else none d = d
or_else (some c) d = some c

-- The last image with no name.
unfoldable pub last_unnamed : List Image → Option ℕ
last_unnamed [] = none
last_unnamed (i ∷ images) =
    or_else (last_unnamed images)
      (elim i.output_name [ none ↦ some i.cairo_surface | some n ↦ none ])

abbrev own_default : Option (List ℕ) → ℕ → Option ℕ → Option ℕ
own_default n c d = elim n [ none ↦ some c | some t ↦ d ]

-- One round of the loop, by whether the image's name is the output's.
select_step :
    (n : Option (List ℕ)) (hit : Bool) (c : ℕ) (first last d further : Option ℕ)
    → further ≡ or_else first (or_else last (own_default n c d))
    → (if hit then some c else further)
      ≡ or_else (if hit then some c else first) (or_else (or_else last (own_default n c none)) d)
select_step n true c first last d further e = refl
select_step none false c first none d further e = e
select_step none false c first (some l) d further e = e
select_step (some t) false c first none d further e = e
select_step (some t) false c first (some l) d further e = e

select_loop-specified :
    (name : Option (List ℕ)) (images : List Image) (d : Option ℕ)
    → select_loop name images d
      ≡ or_else (first_named name images) (or_else (last_unnamed images) d)
unfolding select_loop first_named last_unnamed
select_loop-specified name [] d = refl
select_loop-specified name (i ∷ images) d = rw (lenient_strcmp-zero i.output_name name) (
    select_step i.output_name (same_name i.output_name name) i.cairo_surface _ _ d _
      (select_loop-specified name images _))

-- The output gets the first image that carries its name; if there is none, the last image that
-- carries no name; and none if there is none of these either.
pub select_image-specified :
    (images : List Image) (surface : Surface)
    → select_image images surface
      ≡ or_else (first_named surface.output_name images) (or_else (last_unnamed images) none)
unfolding select_image
select_image-specified images surface = select_loop-specified surface.output_name images none
