-- ===== src/Ctx/Examples.antt =====
-- The theorems on src/ctx.c at concrete pools.
use dewlock.Base.{true, false, [], ◌∷◌}
use dewlock.Ctx.{Pool, Creation, exists, no_ctx, ctx_get_indicator}
use dewlock.Ctx.Pools.{Chosen, ctx_get_indicator-Chosen}

abbrev front_in_use : Pool
front_in_use = record { background = no_ctx; front = record no_ctx { busy = true }; back = no_ctx }

abbrev one_name_taken : Creation
one_name_taken = record { opens = exists ∷ []; truncated = true; cairo_success = true }

abbrev no_cairo : Creation
no_cairo = record { opens = []; truncated = true; cairo_success = false }

ctx_get_indicator-Chosen_example :
    Chosen 40 30 front_in_use
      (ctx_get_indicator one_name_taken 40 30 front_in_use).slot
      (ctx_get_indicator one_name_taken 40 30 front_in_use).pool
ctx_get_indicator-Chosen_example = ctx_get_indicator-Chosen one_name_taken 40 30 front_in_use
