-- ===== src/Ctx.antt =====
-- src/ctx.c: the pool of drawing buffers of a surface. Objects of Wayland and cairo are given by
-- whether they exist. What creating one meets (the names tried for the shared memory, `ftruncate`,
-- cairo's status) is an argument.
pub mod Pools
mod Examples
use dewlock.Base.{
  ℕ, zero, suc, ◌*◌, ◌%◌, ◌^◌, Bool, true, false, ◌||◌, not, List, [], ◌∷◌, ltb, ◌==◌,
  if◌then◌else◌,
}
use dewlock.Result.{Result, ok, err_ctx_allocation, err_ctx_cairo, err_ctx_no_buffers, is_ok}

pub record Ctx : Type 0 where
  pub buffer : Bool
  pub surface : Bool
  pub cairo : Bool
  pub width : ℕ
  pub height : ℕ
  pub mapped : Bool
  pub size : ℕ
  pub busy : Bool

-- All bytes zero, as `calloc` and `memset` leave it.
abbrev pub no_ctx : Ctx
no_ctx = record {
  buffer = false;
  surface = false;
  cairo = false;
  width = 0;
  height = 0;
  mapped = false;
  size = 0;
  busy = false;
}

-- The three entries of the array `pool`.
pub record Pool : Type 0 where
  pub background : Ctx
  pub front : Ctx
  pub back : Ctx

-- An answer of `shm_open`.
pub data Opened : Type 0 where
  fd exists refused : Opened

pub record Creation : Type 0 where
  pub opens : List Opened
  pub truncated : Bool
  pub cairo_success : Bool

-- The do-while loop, by the retries left before the call; the answers that run out go on with `fd`.
shm_loop : ℕ → List Opened → Bool
shm_loop zero answers = false
shm_loop (suc r) [] = true
shm_loop (suc r) (fd ∷ answers) = true
shm_loop (suc r) (exists ∷ answers) = shm_loop r answers
shm_loop (suc r) (refused ∷ answers) = false

pub anonymous_shm_open : List Opened → Bool
unfolding shm_loop
anonymous_shm_open = shm_loop 100

-- Destroys what there is and zeroes the entry.
unfoldable pub ctx_destroy : Ctx → Ctx
ctx_destroy ctx = no_ctx

-- The arithmetic is that of `uint32_t`. The listener's data is the entry itself.
unfoldable pub ctx_create : Creation → ℕ → ℕ → Ctx → Result × Ctx
ctx_create c width height ctx =
    let stride = width * 4 % 2 ^ 32 in
    let size = stride * height % 2 ^ 32 in
    let some_size = ltb 0 size in
    let filled : Ctx = record ctx {
      buffer = ctx.buffer || some_size;
      surface = true;
      width = width;
      height = height;
      mapped = some_size;
      size = size;
    } in
    if some_size
    then (if anonymous_shm_open c.opens
        then (if c.truncated
            then (if c.cairo_success
                then (ok, record filled { cairo = true })
                else (err_ctx_cairo, filled))
            else (err_ctx_allocation, ctx))
        else (err_ctx_allocation, ctx))
    else (if c.cairo_success then (ok, record filled { cairo = true }) else (err_ctx_cairo, filled))

-- `width != ctx->width || height != ctx->height`
abbrev pub has_other_size : Ctx → ℕ → ℕ → Bool
has_other_size ctx width height = not (ctx.width == width) || not (ctx.height == height)

-- On success `*ctx` is the pool's first entry, else NULL. The flag says whether `ctx_create` ran.
unfoldable pub ctx_get_background : Creation → ℕ → ℕ → Pool → Result × Pool × Bool
unfolding ctx_create ctx_destroy
ctx_get_background c width height pool =
    let created = ctx_create c width height (ctx_destroy pool.background) in
    if has_other_size pool.background width height
    then (created.0, record pool { background = created.1 }, true)
    else (ok, pool, false)

-- What `*ctx` points to.
pub data Slot : Type 0 where
  no_slot front_slot back_slot : Slot

-- The steps on the entry selected.
renew : Creation → ℕ → ℕ → Ctx → Result × Ctx × Bool
unfolding ctx_create ctx_destroy
renew c width height ctx =
    let kept = if has_other_size ctx width height then ctx_destroy ctx else ctx in
    let created = ctx_create c width height kept in
    if kept.buffer
    then (ok, record kept { busy = true }, false)
    else (if is_ok created.0
        then (ok, record (created.1) { busy = true }, true)
        else (created.0, created.1, true))

pub record Indicator : Type 0 where
  pub result : Result
  pub slot : Slot
  pub pool : Pool
  pub creating : Bool

abbrev slot_if_ok : Result → Slot → Slot
slot_if_ok r s = if is_ok r then s else no_slot

pub ctx_get_indicator : Creation → ℕ → ℕ → Pool → Indicator
unfolding renew
ctx_get_indicator c width height pool =
    let (front_res, front', front_creating) = renew c width height pool.front in
    let (back_res, back', back_creating) = renew c width height pool.back in
    if pool.front.busy
    then (if pool.back.busy
        then record { result = err_ctx_no_buffers; slot = no_slot; pool = pool; creating = false }
        else record {
          result = back_res;
          slot = slot_if_ok back_res back_slot;
          pool = record pool { back = back' };
          creating = back_creating;
        })
    else record {
      result = front_res;
      slot = slot_if_ok front_res front_slot;
      pool = record pool { front = front' };
      creating = front_creating;
    }

-- The listener of an entry's `wl_buffer`.
pub buffer_release : Ctx → Ctx
buffer_release ctx = record ctx { busy = false }

pub ctx_deinit : Pool → Pool
unfolding ctx_destroy
ctx_deinit pool = record {
  background = ctx_destroy pool.background;
  front = ctx_destroy pool.front;
  back = ctx_destroy pool.back;
}
