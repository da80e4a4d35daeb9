-- ===== src/Base/Bytes.antt =====
-- Memory as bytes: facts about all values of a small range are checked by evaluation.
use Prim.Native.Nat.{ℕ, zero, suc, ◌<◌}
use mathlib.Core.Path.{◌≡◌}
use mathlib.Core.Bool.{Bool, true, false}
use dewlock.Base.Tests.{if◌then◌else◌}
use mathlib.Core.List.{List, [], ◌∷◌}
use native.Mathlib.Omega.{arith}
use Prim.Native.Char.{code}
use Prim.Native.String.{String}

-- The bytes of an ASCII literal.
abbrev pub codes : String → List ℕ
codes String.[] = []
codes (String.◌∷◌ c s) = code c ∷ codes s

-- The test holds at the numbers under the bound.
unfoldable pub holds_under : (ℕ → Bool) → ℕ → Bool
holds_under test zero = true
holds_under test (suc k) = let lower = holds_under test k in if test k then lower else false

pub holds_under-at : (test : ℕ → Bool) (k x : ℕ) → holds_under test k ≡ true → x < k → test x ≡ true
unfolding holds_under
holds_under-at test zero x h below = absurd (omega arith)
holds_under-at test (suc k) x h below = ground (arith, holds_under-at test k x)
