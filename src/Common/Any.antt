-- ===== src/Common/Any.antt =====
-- Lemmas on `any`, `All`, `keep` and `find` over lists, which the tables of rows use.
use nimbusdns.Common.{
  ◌≡◌, refl, ap, inl, inr, Bool, true, false, ◌&&◌, ◌||◌, none, List, [], ◌∷◌, ◌++◌, map, any, find,
  keep, All, arith, Bool-cases,
}

module _ {ℓ} {A : Type ℓ} where
  pub any-append : (p : A → Bool) (xs ys : List A) → any p (xs ++ ys) ≡ (any p xs || any p ys)
  any-append p [] ys = refl
  any-append p (x ∷ xs) ys = ground (arith, any-append p xs ys)

  pub any-map :
      {B : Type ℓ} (p : B → Bool) (f : A → B) (xs : List A)
      → any p (map f xs) ≡ any (λ x. p (f x)) xs
  any-map p f [] = refl
  any-map p f (x ∷ xs) = ap (λ b. p (f x) || b) (any-map p f xs)

  pub any-const :
      {B : Type ℓ} (q : B → Bool) (e : B) (r : A → Bool) (xs : List A)
      → any q (map (λ _. e) (keep r xs)) ≡ (q e && any r xs)
  any-const q e r [] = ground arith
  any-const q e r (x ∷ xs) = ground (arith, any-const q e r xs)

  pub any-imp :
      (p q : A → Bool) (xs : List A)
      → ((x : A) → p x ≡ true → q x ≡ true)
      → any p xs ≡ true
      → any q xs ≡ true
  any-imp p q [] f h = cc
  any-imp p q (x ∷ xs) f h = ground (arith, f x, any-imp p q xs f)

  pub any-eq : (p q : A → Bool) (xs : List A) → All (λ x. p x ≡ q x) xs → any p xs ≡ any q xs
  any-eq p q [] h = refl
  any-eq p q (x ∷ xs) h = ground (arith, h.0, any-eq p q xs h.1)

pub All-all {ℓ κ} : {A : Type ℓ} (P : A → Type κ) → ((a : A) → P a) → (xs : List A) → All P xs
All-all P f [] = tt
All-all P f (x ∷ xs) = (f x, All-all P f xs)

module _ {ℓ} {A : Type ℓ} where
  pub any-keep : (p q : A → Bool) (xs : List A) → any p (keep q xs) ≡ any (λ x. q x && p x) xs
  any-keep p q [] = refl
  any-keep p q (x ∷ xs) = ground (arith, any-keep p q xs)

  pub keep-true : (q : A → Bool) (xs : List A) → All (λ x. q x ≡ true) (keep q xs)
  keep-true q [] = tt
  keep-true q (x ∷ xs) = elim (Bool-cases (q x)) [
    | inl t ↦ rw t (t, keep-true q xs)
    | inr f ↦ rw f (keep-true q xs)
  ]

  pub find-none : (p : A → Bool) (xs : List A) → find p xs ≡ none → any p xs ≡ false
  find-none p [] h = refl
  find-none p (x ∷ xs) h = ground (arith, h, find-none p xs)

pub any-ext {ℓ} :
    {A : Type ℓ} (p q : A → Bool) → ((a : A) → p a ≡ q a) → (xs : List A) → any p xs ≡ any q xs
any-ext p q f xs = any-eq p q xs (All-all (λ a. p a ≡ q a) f xs)

pub any-false :
    {A : Type 0} (p : A → Bool) (xs : List A) → any p xs ≡ false → All (λ x. p x ≡ false) xs
any-false p [] h = tt
any-false p (x ∷ xs) h = (ground (arith, h), any-false p xs (ground (arith, h)))

module _ {A : Type 0} (P Q R : A → Type 0) (f : (a : A) → P a → Q a → R a) where
  pub All-both : (xs : List A) → All P xs → All Q xs → All R xs
  All-both [] h k = tt
  All-both (x ∷ xs) h k = (f x h.0 k.0, All-both xs h.1 k.1)
