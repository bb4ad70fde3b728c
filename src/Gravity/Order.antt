-- ===== src/Gravity/Order.antt =====
-- `ORDER BY` on a column of text (code point by code point), `SELECT DISTINCT`, `LIMIT` and `OFFSET`.
use nimbusdns.Common.{
  ℕ, zero, suc, refl, ap, ◌∙◌, subst, ◌≡◌, Bool, true, false, ◌&&◌, ◌||◌, List, [], ◌∷◌, any, All,
  All-imp, ltb, ◌==◌, arith, Bool-cases, if◌then◌else◌, inl, inr, length,
}
use nimbusdns.Common.Text.{Text, same, text_discrete}

unfoldable pub text_le : Text → Text → Bool
text_le [] y = true
text_le (a ∷ x) [] = false
text_le (a ∷ x) (b ∷ y) = let rest = text_le x y in ltb a b || ((a == b) && rest)

module _ {A : Type 0} (key : A → Text) where
  unfoldable pub insert_row : A → List A → List A
  unfolding text_le
  insert_row r [] = r ∷ []
  insert_row r (q ∷ rows) =
      let rest = insert_row r rows in if text_le (key r) (key q) then r ∷ q ∷ rows else q ∷ rest

  unfoldable pub order_by : List A → List A
  unfolding insert_row
  order_by [] = []
  order_by (r ∷ rows) = insert_row r (order_by rows)

  -- Every row is at most the rows after it.
  abbrev pub IsOrdered : List A → Type 0
  IsOrdered [] = Unit
  IsOrdered (r ∷ rows) = All (λ q. text_le (key r) (key q) ≡ true) rows × IsOrdered rows

unfoldable pub distinct : List Text → List Text
unfolding same
distinct [] = []
distinct (d ∷ ds) = let rest = distinct ds in if any (same d) ds then rest else d ∷ rest

unfoldable pub drop : {A : Type 0} → ℕ → List A → List A
drop zero xs = xs
drop (suc n) [] = []
drop (suc n) (x ∷ xs) = drop n xs

text_le_total : (x y : Text) → text_le x y ≡ false → text_le y x ≡ true
unfolding text_le
text_le_total [] y h = cc
text_le_total (a ∷ x) [] h = ground arith
text_le_total (a ∷ x) (b ∷ y) h = ground (arith, text_le_total x y)

text_le_trans : (x y z : Text) → text_le x y ≡ true → text_le y z ≡ true → text_le x z ≡ true
unfolding text_le
text_le_trans [] y z h k = ground arith
text_le_trans (a ∷ x) [] z h k = cc
text_le_trans (a ∷ x) (b ∷ y) [] h k = cc
text_le_trans (a ∷ x) (b ∷ y) (c ∷ z) h k = ground (arith, text_le_trans x y z)

module _ {A : Type 0} (key : A → Text) where
  insert_row-le :
      (d : Text) (r : A) (rows : List A)
      → text_le d (key r) ≡ true
      → All (λ q. text_le d (key q) ≡ true) rows
      → All (λ q. text_le d (key q) ≡ true) (insert_row key r rows)
  unfolding insert_row
  insert_row-le d r [] h k = (h, tt)
  insert_row-le d r (q ∷ rows) h k = elim (Bool-cases (text_le (key r) (key q))) [
    | inl t ↦ rw t (h, k)
    | inr f ↦ rw f (k.0, insert_row-le d r rows h k.1)
  ]

  All-text_le :
      (x y : Text) (rows : List A)
      → text_le x y ≡ true
      → All (λ q. text_le y (key q) ≡ true) rows
      → All (λ q. text_le x (key q) ≡ true) rows
  All-text_le x y rows h k = All-imp _ (λ q l. text_le_trans x y (key q) h l) rows k

  insert_row-IsOrdered :
      (r : A) (rows : List A) → IsOrdered key rows → IsOrdered key (insert_row key r rows)
  unfolding insert_row
  insert_row-IsOrdered r [] o = (tt, tt)
  insert_row-IsOrdered r (q ∷ rows) o = elim (Bool-cases (text_le (key r) (key q))) [
    | inl t ↦ rw t ((t, All-text_le (key r) (key q) rows t o.0), o)
    | inr f ↦ rw f (
      insert_row-le (key q) r rows (text_le_total (key r) (key q) f) o.0,
      insert_row-IsOrdered r rows o.1,
    )
  ]

  pub order_by-IsOrdered : (rows : List A) → IsOrdered key (order_by key rows)
  unfolding order_by
  order_by-IsOrdered [] = tt
  order_by-IsOrdered (r ∷ rows) =
      insert_row-IsOrdered r (order_by key rows) (order_by-IsOrdered rows)

  any-insert_row :
      (p : A → Bool) (r : A) (rows : List A) → any p (insert_row key r rows) ≡ (p r || any p rows)
  unfolding insert_row
  any-insert_row p r [] = refl
  any-insert_row p r (q ∷ rows) = ground (arith, any-insert_row p r rows)

  pub any-order_by : (p : A → Bool) (rows : List A) → any p (order_by key rows) ≡ any p rows
  unfolding order_by
  any-order_by p [] = refl
  any-order_by p (r ∷ rows) =
      ground (arith, any-insert_row p r (order_by key rows), any-order_by p rows)

  length-insert_row : (r : A) (rows : List A) → length (insert_row key r rows) ≡ suc (length rows)
  unfolding insert_row
  length-insert_row r [] = refl
  length-insert_row r (q ∷ rows) = ground (arith, length-insert_row r rows)

  pub length-order_by : (rows : List A) → length (order_by key rows) ≡ length rows
  unfolding order_by
  length-order_by [] = refl
  length-order_by (r ∷ rows) =
      ground (arith, length-insert_row r (order_by key rows), length-order_by rows)

module _ {κ} {A : Type 0} (P : A → Type κ) (key : A → Text) where
  All-insert_row : (r : A) (rows : List A) → P r → All P rows → All P (insert_row key r rows)
  unfolding insert_row
  All-insert_row r [] h k = (h, tt)
  All-insert_row r (q ∷ rows) h k = elim (Bool-cases (text_le (key r) (key q))) [
    | inl t ↦ rw t (h, k)
    | inr f ↦ rw f (k.0, All-insert_row r rows h k.1)
  ]

  pub All-order_by : (rows : List A) → All P rows → All P (order_by key rows)
  unfolding order_by
  All-order_by [] h = tt
  All-order_by (r ∷ rows) h = All-insert_row r (order_by key rows) h.0 (All-order_by rows h.1)

absorb :
    (p : Text → Bool) (e : Text) (ds : List Text)
    → any (same e) ds ≡ true
    → any p ds ≡ (p e || any p ds)
unfolding same
absorb p e [] h = cc
absorb p e (d ∷ ds) h = elim (text_discrete e d) [
  | yes q ↦ subst (λ x. any p (x ∷ ds) ≡ (p e || any p (x ∷ ds))) q (ground arith)
  | no n ↦ ground (arith, absorb p e ds)
]

pub any-distinct : (p : Text → Bool) (ds : List Text) → any p (distinct ds) ≡ any p ds
unfolding distinct
any-distinct p [] = refl
any-distinct p (e ∷ ds) = elim (Bool-cases (any (same e) ds)) [
  | inl t ↦ rw t (any-distinct p ds ∙ absorb p e ds t)
  | inr f ↦ rw f (ap (λ b. p e || b) (any-distinct p ds))
]
