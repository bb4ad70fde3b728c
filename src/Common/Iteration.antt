-- ===== src/Common/Iteration.antt =====
-- The order in which a `HashMap` or a `DashMap` is walked is the library's choice: a walk visits the
-- entries of the map, as many as there are.
use mathlib.Core.Path.{◌≡◌, refl, ◌∙◌}
use mathlib.Core.Logic.{◌≢◌, if_pos, if_neg}
use mathlib.Core.Option.{none, some}
use mathlib.Core.List.{List, [], ◌∷◌}
use native.Mathlib.Omega.{arith}
use nimbusdns.Common.Lists.{length, All, All-imp}
use nimbusdns.Common.Map.{get, Unique}

pub record Iteration {ℓ} {K : Type ℓ} (dec : Discrete K) (V : Type ℓ) : Type ℓ where
  pub iter : List (K × V) → List (K × V)
  pub visits : (m : List (K × V)) → Unique dec m → All (λ e. get dec e.0 m ≡ some e.1) (iter m)
  pub covers : (m : List (K × V)) (k : K) → All (λ e. e.0 ≢ k) (iter m) → get dec k m ≡ none
  pub length-iter : (m : List (K × V)) → length (iter m) ≡ length m

module _ {ℓ} {K V : Type ℓ} (dec : Discrete K) where
  get-tail :
      (k : K) (v : V) (m : List (K × V)) (e : K × V)
      → Unique dec ((k, v) ∷ m)
      → get dec e.0 m ≡ some e.1
      → get dec e.0 ((k, v) ∷ m) ≡ some e.1
  unfolding get
  get-tail k v m e u h = ground arith

  pub list_visits : (m : List (K × V)) → Unique dec m → All (λ e. get dec e.0 m ≡ some e.1) m
  unfolding get
  list_visits [] u = tt
  list_visits ((k, v) ∷ m) u =
      (if_pos (dec k k) refl _ _, All-imp _ (λ e h. get-tail k v m e u h) m (list_visits m u.1))

  pub list_covers : (m : List (K × V)) (k : K) → All (λ e. e.0 ≢ k) m → get dec k m ≡ none
  unfolding get
  list_covers [] k h = refl
  list_covers ((j, v) ∷ m) k h = if_neg (dec j k) h.0 _ _ ∙ list_covers m k h.1

  -- A walk in the order of the list.
  abbrev pub in_order : Iteration dec V
  in_order = record {
    iter = λ m. m;
    visits = list_visits;
    covers = list_covers;
    length-iter = λ m. refl;
  }
