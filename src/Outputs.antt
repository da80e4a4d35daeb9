-- ===== src/Outputs.antt =====
-- The surfaces of main.c: one for each output, from the registry to the lock surface, and the image
-- that each shows (src/strcmp.h). The data pointer of a surface's listeners is given by the global
-- name of its output. Calls that only send a request to the compositor are left out.
pub mod Select
pub mod Opaque
mod Examples
use dewlock.Base.{
  ℕ, Bool, true, false, ◌&&◌, ◌||◌, not, Option, none, some, List, [], ◌∷◌, ltb, ◌==◌,
  if◌then◌else◌,
}
use dewlock.Strings.{lenient_strcmp, is_zero}
use dewlock.Ctx.{Pool, Creation, no_ctx, buffer_release}
use dewlock.Render.{View, Surface, Screen, Drawn, surface_frame_handle_done, damage_surface}
use dewlock.State.{State, Image, view}

-- The loop of `select_image`, with `default_image`.
select_loop : Option (List ℕ) → List Image → Option ℕ → Option ℕ
select_loop name [] default_image = default_image
select_loop name (i ∷ images) default_image =
    let further =
      select_loop name images
        (elim i.output_name [ none ↦ some i.cairo_surface | some n ↦ default_image ]) in
    if is_zero (lenient_strcmp i.output_name name) then some i.cairo_surface else further

unfoldable pub select_image : List Image → Surface → Option ℕ
unfolding select_loop
select_image images surface = select_loop surface.output_name images none

-- What `create_surface` leaves if it returns. Its exits, where an object is NULL, are those of its callers
-- here: `handle_wl_output_done`, and the loop of `main` over the outputs.
unfoldable pub create_surface : List Image → Surface → Surface
create_surface images surface = record surface {
  image = select_image images surface;
  created = true;
}

-- A handler at the surface of an output: the first one in the list with that name.
unfoldable pub at_surface :
    (View → Surface → List Creation → ℕ → Drawn)
    → View
    → ℕ
    → List Surface
    → List Creation
    → ℕ
    → Screen
at_surface f v name [] creations last_len = record {
  surfaces = [];
  creations = creations;
  last_len = last_len;
}
at_surface f v name (s ∷ ss) creations last_len =
    let d = f v s creations last_len in
    let rest = at_surface f v name ss creations last_len in
    if s.output_global_name == name
    then record { surfaces = d.surface ∷ ss; creations = d.creations; last_len = d.last_len }
    else record rest { surfaces = s ∷ rest.surfaces }

unfoldable pub on_surface : (View → Surface → List Creation → ℕ → Drawn) → State → ℕ → State
unfolding at_surface
on_surface f s name = record s {
  screen = at_surface f (view s) name s.screen.surfaces s.screen.creations s.screen.last_len;
}

-- A change that draws nothing.
abbrev pub quietly : (Surface → Surface) → View → Surface → List Creation → ℕ → Drawn
quietly f v s creations last_len = record {
  surface = f s;
  creations = creations;
  last_len = last_len;
}

unfoldable pub ext_session_lock_surface_v1_handle_configure : State → ℕ → (width height : ℕ) → State
ext_session_lock_surface_v1_handle_configure s name width height =
    on_surface (λ v surface. damage_surface v (record surface { width = width; height = height })) s
      name

-- Drawing waits until the main loop runs.
abbrev pub damage_if : Bool → View → Surface → List Creation → ℕ → Drawn
damage_if b v s creations last_len =
    if b
    then damage_surface v s creations last_len
    else record { surface = s; creations = creations; last_len = last_len }

unfoldable pub handle_wl_output_geometry : State → ℕ → (subpixel : ℕ) → State
handle_wl_output_geometry s name subpixel =
    on_surface (λ v surface. damage_if s.run_display v (record surface { subpixel = subpixel })) s
      name

unfoldable pub handle_wl_output_scale : State → ℕ → (factor : ℕ) → State
handle_wl_output_scale s name factor =
    on_surface (λ v surface. damage_if s.run_display v (record surface { scale = factor })) s name

-- `!surface->created`, at the surface of an output.
abbrev is_uncreated : ℕ → List Surface → Bool
is_uncreated name [] = false
is_uncreated name (s ∷ ss) =
    let rest = is_uncreated name ss in if s.output_global_name == name then not s.created else rest

-- `objects_made` says that `create_surface`, if it is called, gets the three objects that it asks for: it
-- calls `exit` if one is NULL.
unfoldable pub handle_wl_output_done : State → ℕ → (objects_made : Bool) → State
handle_wl_output_done s name objects_made =
    let s' =
      on_surface
        (quietly (λ surface.
          if not surface.created && s.run_display
          then create_surface s.images surface
          else surface))
        s name in
    if is_uncreated name s.screen.surfaces && s.run_display && not objects_made
    then record s' { exited = some 1 }
    else s'

unfoldable pub handle_wl_output_name : State → ℕ → List ℕ → State
handle_wl_output_name s name text =
    on_surface (quietly (λ surface. record surface { output_name = some text })) s name

-- The mode and the description of an output are not used.
unfoldable pub handle_wl_output_mode : State → State
handle_wl_output_mode s = s

unfoldable pub handle_wl_output_description : State → State
handle_wl_output_description s = s

-- `calloc` of a surface: all zero but its output.
abbrev pub new_surface : ℕ → Surface
new_surface name = record {
  output_global_name = name;
  image = none;
  buffers = record { background = no_ctx; front = no_ctx; back = no_ctx };
  created = false;
  dirty = false;
  width = 0;
  height = 0;
  scale = 0;
  subpixel = 0;
  output_name = none;
  frame = false;
  last_buffer_width = 0;
  last_buffer_height = 0;
  shown = none;
}

-- `handle_global` for an output: `wl_list_insert` at the head.
unfoldable pub add_output : State → ℕ → State
add_output s name = record s {
  screen = record (s.screen) { surfaces = new_surface name ∷ s.screen.surfaces };
}

-- `destroy_surface` of the first surface with the name, by the loop of `handle_global_remove`.
unfoldable pub remove_surface : ℕ → List Surface → List Surface
remove_surface name [] = []
remove_surface name (s ∷ ss) =
    let rest = s ∷ remove_surface name ss in if s.output_global_name == name then ss else rest

unfoldable pub handle_global_remove : State → ℕ → State
unfolding remove_surface
handle_global_remove s name = record s {
  screen = record (s.screen) { surfaces = remove_surface name s.screen.surfaces };
}

-- Which of the three entries of the pool a buffer belongs to.
pub data Entry : Type 0 where
  background_entry front_entry back_entry : Entry

abbrev pub release_entry : Entry → Pool → Pool
release_entry background_entry p = record p { background = buffer_release p.background }
release_entry front_entry p = record p { front = buffer_release p.front }
release_entry back_entry p = record p { back = buffer_release p.back }

unfoldable pub release_buffer : State → ℕ → Entry → State
release_buffer s name entry =
    on_surface
      (quietly (λ surface. record surface { buffers = release_entry entry surface.buffers })) s name

unfoldable pub frame_done : State → ℕ → State
frame_done s name = on_surface surface_frame_handle_done s name
