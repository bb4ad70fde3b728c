-- ===== src/Blocking/Wildcard/Labels.antt =====
-- Splitting a name at its dots, and joining labels without dots, undo each other.
use nimbusdns.Common.{
  ℕ, ◌≡◌, ◌≢◌, refl, ◌∙◌, ap, inl, inr, false, List, [], ◌∷◌, ◌++◌, ◌==◌, arith, All, Bool-cases,
}
use nimbusdns.Blocking.Wildcard.{Text, dot, cons_head, split, join}

abbrev pub NoDot : Text → Type 0
NoDot = All (λ ch. ch ≢ dot)

cons_head-NoDot : (ch : ℕ) (ls : List Text) → ch ≢ dot → All NoDot ls → All NoDot (cons_head ch ls)
unfolding cons_head
cons_head-NoDot ch [] ne h = ((ne, tt), tt)
cons_head-NoDot ch (l ∷ ls) ne h = ((ne, h.0), h.1)

pub split-NoDot : (t : Text) → All NoDot (split t)
unfolding split
split-NoDot [] = (tt, tt)
split-NoDot (ch ∷ t) = elim (Bool-cases (ch == dot)) [
  | inl b ↦ rw b (tt, split-NoDot t)
  | inr b ↦ rw b (cons_head-NoDot ch (split t) (ground arith) (split-NoDot t))
]

-- A label, then a dot, then the rest.
split-label : (l t : Text) → NoDot l → split (l ++ dot ∷ t) ≡ l ∷ split t
unfolding split cons_head
split-label [] t h = refl
split-label (ch ∷ l) t h =
    let b : (ch == dot) ≡ false = ground (arith, h.0) in rw (b, split-label l t h.1) refl

split_one : (l : Text) → NoDot l → split l ≡ l ∷ []
unfolding split cons_head
split_one [] h = refl
split_one (ch ∷ l) h =
    let b : (ch == dot) ≡ false = ground (arith, h.0) in rw (b, split_one l h.1) refl

pub split-join : (l : Text) (ls : List Text) → All NoDot (l ∷ ls) → split (join (l ∷ ls)) ≡ l ∷ ls
unfolding join
split-join l [] h = split_one l h.0
split-join l (m ∷ ls) h = split-label l (join (m ∷ ls)) h.0 ∙ ap (λ x. l ∷ x) (split-join m ls h.1)

cons_head-ne : (ch : ℕ) (ls : List Text) → cons_head ch ls ≢ []
unfolding cons_head
cons_head-ne ch [] e = cc
cons_head-ne ch (l ∷ ls) e = cc

pub split-ne : (t : Text) → split t ≢ []
unfolding split
split-ne [] e = cc
split-ne (ch ∷ t) e = ground (arith, cons_head-ne ch (split t))
