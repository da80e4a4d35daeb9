-- ===== src/Main/Steps/Capacity.antt =====
-- The steps of the handlers never change the size of the password buffer.
use dewlock.Base.{ℕ, ◌+◌, ◌%◌, ◌^◌, ◌≡◌, refl, ap, ◌∙◌, Bool, leb, ◌==◌, if_both}
use dewlock.SafeBuf.{Sbuf, sbuf_clear}
use dewlock.Unicode.{utf8_chsize}
use dewlock.State.{State}
use dewlock.Password.{backspace, append_ch}
use dewlock.Main.Steps.Core.{Core, Moves, stays, drops, arms, wipes, erases, types, tunes, adds}

pub sbuf_clear-cap : (pw : Sbuf) → (sbuf_clear pw).cap ≡ pw.cap
unfolding sbuf_clear
sbuf_clear-cap pw = refl

pub backspace-cap : (pw : Sbuf) → (backspace pw).0.cap ≡ pw.cap
unfolding backspace
backspace-cap pw = if_both (λ (r : Sbuf × Bool). r.0.cap ≡ pw.cap) (pw.len == 0) _ _ refl refl

pub append_ch-cap : (pw : Sbuf) (c : ℕ) → (append_ch pw c).cap ≡ pw.cap
unfolding append_ch
append_ch-cap pw c =
    if_both (λ (r : Sbuf). r.cap ≡ pw.cap) (leb pw.cap ((pw.len + utf8_chsize c + 1) % 2 ^ 64)) _ _
      refl refl

abbrev size : Core → ℕ
size c = c.password.cap

pub Moves-cap : {Ok : ℕ → Type 0} {s t : State} → Moves Ok s t → t.password.cap ≡ s.password.cap
Moves-cap (stays e) = ap size e
Moves-cap (drops k e) = ap size e
Moves-cap (arms cb o new before now e) = ap size e
Moves-cap {Ok} {s} (wipes e) = ap size e ∙ sbuf_clear-cap s.password
Moves-cap {Ok} {s} (erases e) = ap size e ∙ backspace-cap s.password
Moves-cap {Ok} {s} (types c n ok e) = ap size e ∙ append_ch-cap s.password c
Moves-cap (tunes i old seat g r ok e) = ap size e
Moves-cap (adds e) = ap size e
Moves-cap (Moves.trans p q) = Moves-cap q ∙ Moves-cap p
