-- ===== src/Render/Examples.antt =====
-- The theorems on src/render.c at concrete surfaces.
use dewlock.Base.{arith, min, ◌<◌, if◌then◌else◌, ◌≡◌, refl, true, false, none, []}
use dewlock.Ctx.{no_ctx}
use dewlock.Render.{
  View, Surface, set_source_u32, idle, dirtied, damage_surface, is_validating, set_password,
}
use dewlock.Config.{color_from_string}
use dewlock.Config.Channels.{hex_byte}
use dewlock.Render.Colors.{set_source_u32-color_from_string}
use dewlock.Render.Pictures.{set_password-min}
use dewlock.Render.Frames.{damage_surface-drops}

abbrev sample_view : View
sample_view = record {
  auth_state = idle;
  input_state = dirtied;
  password_len = 3;
  caps_lock = false;
  max_stars = 20;
}

abbrev pending_surface : Surface
pending_surface = record {
  output_global_name = 1;
  image = none;
  buffers = record {
    background = no_ctx;
    front = record no_ctx { busy = true };
    back = record no_ctx { busy = true };
  };
  created = true;
  dirty = false;
  width = 40;
  height = 30;
  scale = 2;
  subpixel = 0;
  output_name = none;
  frame = true;
  last_buffer_width = 80;
  last_buffer_height = 60;
  shown = none;
}

damage_surface-drops_example :
    (damage_surface sample_view (record pending_surface { frame = false }) [] 0).surface
    ≡ record pending_surface { dirty = false }
damage_surface-drops_example =
    damage_surface-drops sample_view (record pending_surface { frame = false }) [] 0 refl refl refl
      refl refl refl refl

set_password-min_example :
    (set_password sample_view 7
      ≡ (if is_validating sample_view.auth_state then 7 else min 3 (min 20 127)))
    × (set_password sample_view 7 < 128)
set_password-min_example = set_password-min sample_view 7 (omega arith)

set_source_u32-color_from_string_example :
    (set_source_u32
        (color_from_string (hex_byte 0xff (hex_byte 0x80 (hex_byte 0x40 (hex_byte 0x20 [])))) 7)
      ≡ record { red = 0xff; green = 0x80; blue = 0x40; alpha = 0x20 })
    × (set_source_u32 (color_from_string (hex_byte 0xff (hex_byte 0x80 (hex_byte 0x40 []))) 7)
        ≡ record { red = 0; green = 0xff; blue = 0x80; alpha = 0x40 })
set_source_u32-color_from_string_example =
    set_source_u32-color_from_string 0xff 0x80 0x40 0x20 7 (omega arith) (omega arith) (omega arith)
      (omega arith)
