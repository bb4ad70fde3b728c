-- ===== src/Common/Sets.antt =====
-- Sets of numbers (`HashSet<u32>`), as lists read by `contains`.
use Prim.Native.Nat.{ℕ}
use mathlib.Core.Path.{◌≡◌, refl}
use mathlib.Core.Bool.{Bool, false, not, ◌&&◌, ◌||◌}
use mathlib.Core.List.{List, [], ◌∷◌}
use native.Mathlib.Omega.{arith}
use nimbusdns.Common.Tests.{◌==◌, if◌then◌else◌}

unfoldable pub contains : ℕ → List ℕ → Bool
contains k [] = false
contains k (j ∷ s) = (j == k) || contains k s

unfoldable pub add : ℕ → List ℕ → List ℕ
add k s = k ∷ s

unfoldable pub discard : ℕ → List ℕ → List ℕ
discard k [] = []
discard k (j ∷ s) = let rest = discard k s in if j == k then rest else j ∷ rest

pub contains-add : (j k : ℕ) (s : List ℕ) → contains j (add k s) ≡ ((k == j) || contains j s)
unfolding contains add
contains-add j k s = refl

pub contains-discard :
    (j k : ℕ) (s : List ℕ) → contains j (discard k s) ≡ (not (k == j) && contains j s)
unfolding contains discard
contains-discard j k [] = ground arith
contains-discard j k (i ∷ s) = ground (arith, contains-discard j k s)
