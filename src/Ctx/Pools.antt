-- ===== src/Ctx/Pools.antt =====
-- The choice of a buffer for the indicator, and a background that could not be made, by
-- `ctx_get_indicator` and `ctx_get_background` of src/ctx.c.
use dewlock.Base.{
  ℕ, ◌≡◌, refl, Bool, true, false, arith, if◌then◌else◌, if_true, if_false, Bool-cases, inl, inr,
}
use dewlock.Result.{err_ctx_no_buffers, is_ok}
use dewlock.Ctx.{
  Ctx, Pool, Creation, Slot, no_slot, front_slot, back_slot, Indicator, ctx_create, ctx_destroy,
  renew, ctx_get_indicator, no_ctx,
}

-- The entry of a slot.
abbrev pub entry : Slot → Pool → Ctx
entry no_slot p = no_ctx
entry front_slot p = p.front
entry back_slot p = p.back

-- What a selected entry is after the call.
pub record IsReady (width height : ℕ) (ctx : Ctx) : Type 0 where
  pub busy : ctx.busy ≡ true
  pub width_fits : ctx.width ≡ width
  pub height_fits : ctx.height ≡ height

-- What the call says of the slot it answers with.
abbrev pub Chosen : ℕ → ℕ → Pool → Slot → Pool → Type 0
Chosen width height before no_slot after = Unit
Chosen width height before front_slot after =
    (before.front.busy ≡ false) × (after.back ≡ before.back) × IsReady width height after.front
Chosen width height before back_slot after =
    (before.back.busy ≡ false) × (after.front ≡ before.front) × IsReady width height after.back

renew-IsReady :
    (c : Creation) (width height : ℕ) (ctx : Ctx)
    → is_ok (renew c width height ctx).0 ≡ true
    → IsReady width height (renew c width height ctx).1
unfolding renew ctx_create ctx_destroy
renew-IsReady c width height ctx h = record {
  busy = ground arith;
  width_fits = ground arith;
  height_fits = ground arith;
}

-- What the call says when it answers with the front entry, or with the back one.
Chosen-front :
    (w h : ℕ) (c : Creation) (p : Pool) (b : Bool)
    → p.front.busy ≡ false
    → is_ok (renew c w h p.front).0 ≡ b
    → Chosen w h p
        (if b then front_slot else no_slot)
        (record p { front = (renew c w h p.front).1 })
Chosen-front w h c p true free e = (free, refl, renew-IsReady c w h p.front e)
Chosen-front w h c p false free e = tt

Chosen-back :
    (w h : ℕ) (c : Creation) (p : Pool) (b : Bool)
    → p.back.busy ≡ false
    → is_ok (renew c w h p.back).0 ≡ b
    → Chosen w h p (if b then back_slot else no_slot) (record p { back = (renew c w h p.back).1 })
Chosen-back w h c p true free e = (free, refl, renew-IsReady c w h p.back e)
Chosen-back w h c p false free e = tt

-- An entry that the call selects was not busy, has the size asked for, and is busy from now on; the
-- other entry of the indicator is left as it was.
pub ctx_get_indicator-Chosen :
    (c : Creation) (width height : ℕ) (p : Pool)
    → Chosen width height p
        (ctx_get_indicator c width height p).slot
        (ctx_get_indicator c width height p).pool
unfolding ctx_get_indicator
ctx_get_indicator-Chosen c w h p = elim (Bool-cases p.front.busy) [
  | inl f ↦ if_true Kept p.front.busy _ _ f (elim (Bool-cases p.back.busy) [
    | inl b ↦ if_true Kept p.back.busy _ _ b tt
    | inr b ↦ if_false Kept p.back.busy _ _ b (Chosen-back w h c p _ b refl)
  ])
  | inr f ↦ if_false Kept p.front.busy _ _ f (Chosen-front w h c p _ f refl)
]
  where
    Kept : Indicator → Type 0
    Kept i = Chosen w h p i.slot i.pool

-- The call answers with no entry, and leaves the pool alone, for want of a free one just when both
-- are busy; otherwise the answer is that of creating the entry's buffer.
pub ctx_get_indicator-both_busy :
    (c : Creation) (width height : ℕ) (p : Pool)
    → p.front.busy ≡ true
    → p.back.busy ≡ true
    → ((ctx_get_indicator c width height p).result ≡ err_ctx_no_buffers)
      × ((ctx_get_indicator c width height p).pool ≡ p)
unfolding ctx_get_indicator
ctx_get_indicator-both_busy c w h p f b = ground arith
