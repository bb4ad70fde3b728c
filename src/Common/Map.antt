-- ===== src/Common/Map.antt =====
-- Finite maps (`HashMap`, `DashMap`) as association lists over keys with a decided equality.
use Prim.Native.Nat.{◌≤◌, ◌<◌}
use mathlib.Core.Path.{◌≡◌, refl}
use mathlib.Core.Logic.{◌≢◌, ite, ◌⊎◌, inl, inr}
use mathlib.Core.Bool.{Bool, true, false}
use mathlib.Core.Option.{Option, none, some}
use mathlib.Core.List.{List, [], ◌∷◌}
use native.Mathlib.Omega.{arith}
use nimbusdns.Common.Tests.{if◌then◌else◌}
use nimbusdns.Common.Lists.{length, keep, any, find}

module _ {ℓ} {K V : Type ℓ} (dec : Discrete K) where
  unfoldable pub get : K → List (K × V) → Option V
  get k [] = none
  get k ((j, v) ∷ m) = ite (dec j k) (some v) (get k m)

  unfoldable pub remove : K → List (K × V) → List (K × V)
  remove k [] = []
  remove k ((j, v) ∷ m) = let rest = remove k m in ite (dec j k) rest ((j, v) ∷ rest)

  unfoldable pub insert : K → V → List (K × V) → List (K × V)
  unfolding remove
  insert k v m = (k, v) ∷ remove k m

  -- No key stands twice.
  abbrev pub Unique : List (K × V) → Type ℓ
  Unique [] = Unit
  Unique ((k, v) ∷ m) = (get k m ≡ none) × Unique m

  pub get-remove : (j k : K) (m : List (K × V)) → get j (remove k m) ≡ ite (dec k j) none (get j m)
  unfolding get remove
  get-remove j k [] = ground arith
  get-remove j k ((i, v) ∷ m) = ground (arith, get-remove j k m)

  pub get-insert :
      (j k : K) (v : V) (m : List (K × V)) → get j (insert k v m) ≡ ite (dec k j) (some v) (get j m)
  unfolding get insert
  get-insert j k v m = ground (arith, get-remove j k m)

  pub remove-Unique : (k : K) (m : List (K × V)) → Unique m → Unique (remove k m)
  unfolding get remove
  remove-Unique k [] u = tt
  remove-Unique k ((i, v) ∷ m) u = ground (arith, remove-Unique k m u.1, get-remove i k m)

  pub insert-Unique : (k : K) (v : V) (m : List (K × V)) → Unique m → Unique (insert k v m)
  unfolding get insert
  insert-Unique k v m u = ground (arith, get-remove k k m, remove-Unique k m u)

  -- `retain`: an entry of the result is an entry of the map that passes the test, and the other
  -- way round.
  pub get-keep :
      (p : K × V → Bool) (j : K) (m : List (K × V))
      → Unique m
      → get j (keep p m)
        ≡ elim (get j m) [ none ↦ none | some v ↦ if p (j, v) then some v else none ]
  unfolding get
  get-keep p j [] u = refl
  get-keep p j ((i, v) ∷ m) u = ground (arith, get-keep p j m u.1)

  pub keep-Unique : (p : K × V → Bool) (m : List (K × V)) → Unique m → Unique (keep p m)
  unfolding get
  keep-Unique p [] u = tt
  keep-Unique p ((i, v) ∷ m) u = ground (arith, keep-Unique p m u.1, get-keep p i m u.1)

  -- What an entry passes, some entry passes.
  pub any-get :
      (p : K × V → Bool) (j : K) (v : V) (m : List (K × V))
      → get j m ≡ some v
      → any p m ≡ false
      → p (j, v) ≡ false
  unfolding get
  any-get p j v [] h n = cc
  any-get p j v ((i, w) ∷ m) h n = ground (arith, any-get p j v m)

  pub find-get :
      (p : K × V → Bool) (k : K) (v : V) (m : List (K × V))
      → Unique m
      → find p m ≡ some (k, v)
      → (get k m ≡ some v) × (p (k, v) ≡ true)
  unfolding get
  find-get p k v [] u h = cc
  find-get p k v ((i, w) ∷ m) u h = ground (arith, find-get p k v m u.1)

  pub length-remove-le : (k : K) (m : List (K × V)) → length (remove k m) ≤ length m
  unfolding remove
  length-remove-le k [] = omega arith
  length-remove-le k ((i, w) ∷ m) = ground (arith, length-remove-le k m)

  pub length-remove-lt :
      (k : K) (m : List (K × V)) {v : V} → get k m ≡ some v → length (remove k m) < length m
  unfolding get remove
  length-remove-lt k [] h = cc
  length-remove-lt k ((i, w) ∷ m) {v} h =
      ground (arith, length-remove-lt k m {v = v}, length-remove-le k m)

  -- An entry after an insertion is the new one, or one of another key.
  pub insert-cases :
      (k : K) (v : V) (m : List (K × V)) (j : K) (w : V)
      → get j (insert k v m) ≡ some w
      → ((k ≡ j) × (v ≡ w)) ⊎ ((k ≢ j) × (get j m ≡ some w))
  insert-cases k v m j w h = elim (dec k j) [
    | yes p ↦ inl (p, ground (arith, get-insert j k v m))
    | no n ↦ inr (n, ground (arith, get-insert j k v m))
  ]

  -- Every entry of one map is an entry of the other.
  abbrev pub Within : List (K × V) → List (K × V) → Type ℓ
  Within m' m = (k : K) (v : V) → get k m' ≡ some v → get k m ≡ some v

  pub remove-ne :
      (k : K) (m : List (K × V)) (j : K) (w : V)
      → get j (remove k m) ≡ some w
      → (k ≢ j) × (get j m ≡ some w)
  remove-ne k m j w h = elim (dec k j) [
    | yes p ↦ absurd (ground (arith, get-remove j k m))
    | no n ↦ (n, ground (arith, get-remove j k m))
  ]

  pub remove-Within : (k : K) (m : List (K × V)) → Within (remove k m) m
  remove-Within k m j w h = (remove-ne k m j w h).1

  pub keep-get :
      (p : K × V → Bool) (m : List (K × V)) (j : K) (w : V)
      → Unique m
      → get j (keep p m) ≡ some w
      → (get j m ≡ some w) × (p (j, w) ≡ true)
  keep-get p m j w u h = ground (arith, get-keep p j m u)

  pub keep-Within : (p : K × V → Bool) (m : List (K × V)) → Unique m → Within (keep p m) m
  keep-Within p m u j w h = (keep-get p m j w u h).0

  pub any-true :
      (p : K × V → Bool) (j : K) (v : V) (m : List (K × V))
      → get j m ≡ some v
      → p (j, v) ≡ true
      → any p m ≡ true
  unfolding get
  any-true p j v [] h t = cc
  any-true p j v ((i, w) ∷ m) h t = ground (arith, any-true p j v m)

  pub get-insert_self : (k : K) (v : V) (m : List (K × V)) → get k (insert k v m) ≡ some v
  get-insert_self k v m = ground (arith, get-insert k k v m)
