-- ===== src/Render/Frames.antt =====
-- When a surface is drawn, by `rnd_handle_render` of src/render.c and `damage_state` of main.c.
use dewlock.Base.{ℕ, ◌≡◌, ap, if_false, true, false, List, [], ◌∷◌, arith, ◌==◌, not, ◌||◌}
use dewlock.Result.{err_ctx_no_buffers, is_ok}
use dewlock.Ctx.{Creation, Indicator, ctx_get_indicator}
use dewlock.Ctx.Pools.{ctx_get_indicator-both_busy}
use dewlock.Render.{
  View, Surface, Drawn, render_frame, finish_render, buffer_side, rnd_handle_render, damage_surface,
  pad, next_creation,
}

-- Any number of damages to a surface, one after the other.
abbrev pub damages : List View → Drawn → Drawn
damages [] d = d
damages (v ∷ vs) d = damages vs (damage_surface v d.surface d.creations d.last_len)

render_frame-no_buffer :
    (v : View) (s : Surface) (cs : List Creation) (n : ℕ)
    → s.buffers.front.busy ≡ true
    → s.buffers.back.busy ≡ true
    → (render_frame v s cs n).surface ≡ s
unfolding render_frame
render_frame-no_buffer v s cs n b₁ b₂ =
    if_false Old (is_ok got.result) _ _ (ap is_ok none_free.0)
      (ap (λ p. record s { buffers = p }) none_free.1)
  where
    got : Indicator
    got =
        ctx_get_indicator (next_creation cs) (pad s.width s.scale) (pad s.height s.scale) s.buffers

    none_free : (got.result ≡ err_ctx_no_buffers) × (got.pool ≡ s.buffers)
    none_free = ctx_get_indicator-both_busy (next_creation cs) _ _ s.buffers b₁ b₂

    Old : Drawn → Type 0
    Old d = d.surface ≡ s

-- While both buffers of the indicator are in use, a surface whose background is up to date counts as
-- drawn, with a frame pending, though the picture that it shows is the old one.
pub damage_surface-drops :
    (v : View) (s : Surface) (cs : List Creation) (n : ℕ)
    → s.frame ≡ false
    → s.buffers.front.busy ≡ true
    → s.buffers.back.busy ≡ true
    → (buffer_side s.width s.scale == 0) ≡ false
    → (buffer_side s.height s.scale == 0) ≡ false
    → s.last_buffer_width ≡ buffer_side s.width s.scale
    → s.last_buffer_height ≡ buffer_side s.height s.scale
    → (damage_surface v s cs n).surface ≡ record s { dirty = false; frame = true }
unfolding rnd_handle_render finish_render
damage_surface-drops v s cs n f b₁ b₂ w h lw lh =
    if_false Stale (buffer_side s.width s.scale == 0 || buffer_side s.height s.scale == 0) _ _
      (ground arith)
      (if_false Stale s.frame _ _ f (
        if_false Stale
          (not (buffer_side s.width s.scale == s.last_buffer_width)
            || not (buffer_side s.height s.scale == s.last_buffer_height))
          _ _ (ground arith)
          (ap {A = Surface} (λ t. record t { dirty = false; frame = true })
            (render_frame-no_buffer v (record s { dirty = true }) cs n b₁ b₂))))
  where
    Stale : Drawn → Type 0
    Stale d = d.surface ≡ record s { dirty = false; frame = true }
