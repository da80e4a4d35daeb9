-- ===== src/Render.antt =====
-- src/render.c and the surface of src/dewlock.h: when a surface is drawn, into which buffers, and
-- what the indicator shows. Drawing itself is cairo's and is not modelled; a `Picture` has the
-- choices that the code makes on the way. The font's metrics enter as `max_stars`.
pub mod Frames
pub mod Pictures
pub mod Colors
mod Examples
use dewlock.Base.{
  ℕ, zero, suc, ◌+◌, ◌-◌, ◌*◌, ◌/◌, ◌%◌, ◌^◌, Bool, true, false, ◌&&◌, ◌||◌, not, Option, none,
  some, List, [], ◌∷◌, ltb, ◌==◌, if◌then◌else◌,
}
use dewlock.Result.{Result, is_ok}
use dewlock.Ctx.{Pool, Creation, Slot, no_slot, ctx_get_background, ctx_get_indicator}

-- What `cairo_set_source_rgba` is given, each channel in parts of 255.
pub record Source : Type 0 where
  pub red : ℕ
  pub green : ℕ
  pub blue : ℕ
  pub alpha : ℕ

-- `& 0xFF` is `% 256`.
unfoldable pub set_source_u32 : ℕ → Source
set_source_u32 color = record {
  red = color / 2 ^ 24 % 256;
  green = color / 2 ^ 16 % 256;
  blue = color / 2 ^ 8 % 256;
  alpha = color % 256;
}

-- `auth_state_t` and `input_state_t`
pub data AuthState : Type 0 where
  idle validating invalid : AuthState

pub data InputState : Type 0 where
  pristine dirtied : InputState

abbrev pub is_idle : AuthState → Bool
is_idle idle = true
is_idle _ = false

abbrev pub is_validating : AuthState → Bool
is_validating validating = true
is_validating _ = false

abbrev pub is_invalid : AuthState → Bool
is_invalid invalid = true
is_invalid _ = false

abbrev pub is_pristine : InputState → Bool
is_pristine pristine = true
is_pristine dirtied = false

-- What a frame reads of the program's state.
pub record View : Type 0 where
  pub auth_state : AuthState
  pub input_state : InputState
  pub password_len : ℕ
  pub caps_lock : Bool
  pub max_stars : ℕ

pub data Message : Type 0 where
  press_enter verifying invalid_credentials : Message

-- `draw_idle`; or `draw_form` with its message, its asterisks, whether its colour is that of an
-- error, and whether it warns of caps lock.
pub data Picture : Type 0 where
  clock_face : Picture
  form : Message → ℕ → Bool → Bool → Picture

abbrev pub min3u : ℕ → ℕ → ℕ → ℕ
min3u a b c = if ltb a b then (if ltb a c then a else c) else (if ltb b c then b else c)

abbrev pub nchars : ℕ
nchars = 128

-- The number of asterisks, the new value of the static `last_len`.
pub set_password : View → ℕ → ℕ
set_password v last_len =
    if is_validating v.auth_state then last_len else min3u v.password_len v.max_stars (nchars - 1)

abbrev pub message : AuthState → Message
message idle = press_enter
message validating = verifying
message invalid = invalid_credentials

pub draw_form : View → ℕ → Picture
unfolding set_password
draw_form v last_len =
    form (message v.auth_state) (set_password v last_len) (is_invalid v.auth_state)
      (is_idle v.auth_state && v.caps_lock)

-- The screen that `render_frame` draws.
abbrev pub shows_clock : View → Bool
shows_clock v = is_pristine v.input_state && is_idle v.auth_state

-- `dewlock_surface_t`, with its `wl_` objects given by `created` and `frame`. `shown` is the picture
-- last committed to the indicator's surface. The scale, an int32_t that the compositor sends, is taken to
-- be 0, as in new memory, or more.
pub record Surface : Type 0 where
  pub output_global_name : ℕ
  pub image : Option ℕ
  pub buffers : Pool
  pub created : Bool
  pub dirty : Bool
  pub width : ℕ
  pub height : ℕ
  pub scale : ℕ
  pub subpixel : ℕ
  pub output_name : Option (List ℕ)
  pub frame : Bool
  pub last_buffer_width : ℕ
  pub last_buffer_height : ℕ
  pub shown : Option Picture

-- The surfaces, what the creations of buffers to come will meet, and the static `last_len`.
pub record Screen : Type 0 where
  pub surfaces : List Surface
  pub creations : List Creation
  pub last_len : ℕ

-- A creation that meets no obstacle; it stands for those past the end of the list.
abbrev pub smooth : Creation
smooth = record { opens = []; truncated = true; cairo_success = true }

abbrev pub next_creation : List Creation → Creation
next_creation [] = smooth
next_creation (c ∷ cs) = c

abbrev pub used_if : Bool → List Creation → List Creation
used_if false cs = cs
used_if true [] = []
used_if true (c ∷ cs) = cs

pub record Drawn : Type 0 where
  pub surface : Surface
  pub creations : List Creation
  pub last_len : ℕ

-- A side of the indicator's buffer, a multiple of the scale.
abbrev pub pad : ℕ → ℕ → ℕ
pad side scale = (side + (scale - side % scale)) % 2 ^ 32

-- On success the picture is committed; otherwise nothing is. (The result is not used.)
pub render_frame : View → Surface → List Creation → ℕ → Drawn
unfolding draw_form set_password
render_frame v s creations last_len =
    let got =
      ctx_get_indicator (next_creation creations) (pad s.width s.scale) (pad s.height s.scale)
        s.buffers in
    let left = used_if got.creating creations in
    if is_ok got.result
    then (if shows_clock v
        then record {
          surface = record s { buffers = got.pool; shown = some clock_face };
          creations = left;
          last_len = last_len;
        }
        else record {
          surface = record s { buffers = got.pool; shown = some (draw_form v last_len) };
          creations = left;
          last_len = set_password v last_len;
        })
    else record { surface = record s { buffers = got.pool }; creations = left; last_len = last_len }

-- The part of `rnd_handle_render` behind the background: the frame is drawn and asked for again.
finish_render : View → Surface → List Creation → ℕ → Drawn
unfolding render_frame
finish_render v s creations last_len =
    let d = render_frame v s creations last_len in
    record d { surface = record (d.surface) { dirty = false; frame = true } }

-- The product of an `int` and a scale, by its bits.
abbrev pub buffer_side : ℕ → ℕ → ℕ
buffer_side side scale = side * scale % 2 ^ 32

pub rnd_handle_render : View → Surface → List Creation → ℕ → Drawn
unfolding finish_render
rnd_handle_render v s creations last_len =
    let w = buffer_side s.width s.scale in
    let h = buffer_side s.height s.scale in
    let same : Drawn = record { surface = s; creations = creations; last_len = last_len } in
    let got = ctx_get_background (next_creation creations) w h s.buffers in
    let left = used_if got.2 creations in
    let painted : Surface = record s {
      buffers = got.1;
      last_buffer_width = w;
      last_buffer_height = h;
    } in
    if w == 0 || h == 0
    then same
    else (if not s.dirty || s.frame
        then same
        else (if not (w == s.last_buffer_width) || not (h == s.last_buffer_height)
            then (if is_ok got.0 then finish_render v painted left last_len else record {
              surface = record s { buffers = got.1 };
              creations = left;
              last_len = last_len;
            })
            else finish_render v s creations last_len))

-- `surface_frame_handle_done`: the compositor's answer to the frame callback.
pub surface_frame_handle_done : View → Surface → List Creation → ℕ → Drawn
unfolding rnd_handle_render
surface_frame_handle_done v s creations last_len =
    rnd_handle_render v (record s { frame = false }) creations last_len

-- `surface->dirty = true; rnd_handle_render(surface);`
abbrev pub damage_surface : View → Surface → List Creation → ℕ → Drawn
damage_surface v s creations last_len =
    rnd_handle_render v (record s { dirty = true }) creations last_len

-- The loop of `damage_state` of main.c.
unfoldable pub damage_loop : View → List Surface → List Creation → ℕ → Screen
unfolding rnd_handle_render
damage_loop v [] creations last_len = record {
  surfaces = [];
  creations = creations;
  last_len = last_len;
}
damage_loop v (s ∷ ss) creations last_len =
    let d = damage_surface v s creations last_len in
    let rest = damage_loop v ss d.creations d.last_len in
    record rest { surfaces = d.surface ∷ rest.surfaces }
