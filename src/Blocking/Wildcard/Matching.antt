-- ===== src/Blocking/Wildcard/Matching.antt =====
-- The matcher agrees with its reading: a name matches a pattern whose labels end the name's labels.
use mathlib.Core.List.{reverse, reverse-append, reverse-reverse, append_assoc}
use nimbusdns.Common.{
  suc, ◌+◌, ◌≡◌, ◌≢◌, ◌↔◌, ◌⊎◌, refl, sym, ◌∙◌, ap, subst, inl, inr, true, List, [], ◌∷◌, ◌++◌, map,
  ltb, arith, All, All-append_left, All-reverse, Bool-cases, if◌then◌else◌, length,
}
use nimbusdns.Blocking.Wildcard.{
  Text, dot, text_discrete, same, has, strip_wildcard, split, join, match_labels, is_match,
  suffix_labels, insert_pattern,
}
use nimbusdns.Blocking.Wildcard.Labels.{NoDot, split-NoDot, split-join, split-ne}

-- Joining one label more.
join-extend :
    (a : Text) (pre : List Text) (l : Text)
    → (join (a ∷ pre) ++ dot ∷ []) ++ l ≡ join (a ∷ (pre ++ l ∷ []))
unfolding join
join-extend a [] l = append_assoc a (dot ∷ []) l
join-extend a (b ∷ pre) l =
    ap (λ t. t ++ l) (append_assoc a (dot ∷ join (b ∷ pre)) (dot ∷ []))
    ∙ append_assoc a ((dot ∷ join (b ∷ pre)) ++ dot ∷ []) l
    ∙ ap (λ t. a ++ dot ∷ t) (join-extend b pre l)

join-snoc :
    (pre : List Text) (l : Text)
    → (if ltb 0 (length pre) then join pre ++ dot ∷ [] else join pre) ++ l ≡ join (pre ++ l ∷ [])
unfolding join
join-snoc [] l = refl
join-snoc (a ∷ pre) l =
    let some : ltb 0 (suc (length pre)) ≡ true = ground arith in rw some (join-extend a pre l)

length-snoc : (pre : List Text) (l : Text) → length (pre ++ l ∷ []) ≡ length pre + 1
length-snoc [] l = refl
length-snoc (a ∷ pre) l = omega (arith, length-snoc pre l)

-- The names that the loop tries are those of the first labels.
Prefix : List Text → List Text → List Text → Type 0
Prefix suffixes pre labels =
    (x : Text) × (q : List Text) × (r : List Text) × (labels ≡ (x ∷ q) ++ r)
    × (has (join (pre ++ x ∷ q)) suffixes ≡ true)

module _ (suffixes : List Text) where
  step :
      (pre : List Text) (l : Text) (ls : List Text)
      → match_labels suffixes (length pre) (join pre) (l ∷ ls) ≡ (
          if has (join (pre ++ l ∷ [])) suffixes
          then true
          else match_labels suffixes (length (pre ++ l ∷ [])) (join (pre ++ l ∷ [])) ls)
  unfolding match_labels
  step pre l ls = rw (join-snoc pre l, length-snoc pre l) refl

  match_labels-Prefix :
      (pre labels : List Text)
      → match_labels suffixes (length pre) (join pre) labels ≡ true
      → Prefix suffixes pre labels
  unfolding match_labels Prefix
  match_labels-Prefix pre [] h = cc
  match_labels-Prefix pre (l ∷ ls) h = elim (Bool-cases (has (join (pre ++ l ∷ [])) suffixes)) [
    | inl t ↦ (l, [], ls, refl, t)
    | inr f ↦
        let (x, q, r, e, s) =
          match_labels-Prefix (pre ++ l ∷ []) ls (ground (arith, step pre l ls)) in
        (
          l,
          x ∷ q,
          r,
          ap (λ t. l ∷ t) e,
          subst (λ t. has (join t) suffixes ≡ true) (append_assoc pre (l ∷ []) (x ∷ q)) s,
        )
  ]

  Prefix-match_labels :
      (q : List Text) (pre : List Text) (x : Text) (r : List Text)
      → has (join (pre ++ x ∷ q)) suffixes ≡ true
      → match_labels suffixes (length pre) (join pre) ((x ∷ q) ++ r) ≡ true
  Prefix-match_labels [] pre x r h = step pre x r ∙ rw h refl
  Prefix-match_labels (y ∷ q) pre x r h = elim (Bool-cases (has (join (pre ++ x ∷ [])) suffixes)) [
    | inl t ↦ step pre x ((y ∷ q) ++ r) ∙ rw t refl
    | inr f ↦
        step pre x ((y ∷ q) ++ r)
        ∙ rw f (
            Prefix-match_labels q (pre ++ x ∷ []) y r (
              subst (λ t. has (join t) suffixes ≡ true) (sym (append_assoc pre (x ∷ []) (y ∷ q)))
                h))
  ]

  is_match-Prefix :
      (name : Text) → (is_match suffixes name ≡ true) ↔ Prefix suffixes [] (reverse (split name))
  unfolding is_match Prefix join
  is_match-Prefix name = (
    match_labels-Prefix [] (reverse (split name)),
    λ (x, q, r, e, s). rw e (Prefix-match_labels q [] x r s),
  )

join-injective :
    (a b : List Text) → a ≢ [] → b ≢ [] → All NoDot a → All NoDot b → join a ≡ join b → a ≡ b
join-injective [] b ne ne' h h' e = absurd (ne refl)
join-injective (x ∷ a) [] ne ne' h h' e = absurd (ne' refl)
join-injective (x ∷ a) (y ∷ b) ne ne' h h' e =
    sym (split-join x a h) ∙ ap split e ∙ split-join y b h'

same-eq : (a b : Text) → same a b ≡ true → a ≡ b
unfolding same
same-eq a b h = ground (arith, text_discrete a b)

same_refl : (a : Text) → same a a ≡ true
unfolding same
same_refl a = ground (arith, text_discrete a a)

module _ (trim lower : Text → Text) (lower-NoDot : (t : Text) → NoDot t → NoDot (lower t)) where
  -- The labels of the pattern, in lower case, end those of the name.
  abbrev pub Matches : Text → Text → Type 0
  Matches pattern name =
      (front : List Text) × (split name ≡ front ++ suffix_labels trim lower pattern)

  map-NoDot : (ls : List Text) → All NoDot ls → All NoDot (map lower ls)
  map-NoDot [] h = tt
  map-NoDot (l ∷ ls) h = (lower-NoDot l h.0, map-NoDot ls h.1)

  suffix_NoDot : (pattern : Text) → All NoDot (reverse (suffix_labels trim lower pattern))
  unfolding suffix_labels
  suffix_NoDot pattern = All-reverse NoDot _ (map-NoDot _ (split-NoDot _))

  map-ne : (ls : List Text) → ls ≢ [] → map lower ls ≢ []
  map-ne [] ne e = ne refl
  map-ne (l ∷ ls) ne e = cc

  suffix_ne : (pattern : Text) → reverse (suffix_labels trim lower pattern) ≢ []
  unfolding suffix_labels
  suffix_ne pattern e =
      map-ne (split (strip_wildcard (trim pattern))) (split-ne _)
        (sym (reverse-reverse (suffix_labels trim lower pattern)) ∙ ap reverse e)

  module _ (pattern name : Text) (suffixes : List Text) where
    to_match :
        Prefix
          (join (reverse (suffix_labels trim lower pattern)) ∷ suffixes)
          []
          (reverse (split name))
        → Prefix suffixes [] (reverse (split name)) ⊎ Matches pattern name
    unfolding Prefix has
    to_match (x, q, r, e, h) =
        elim (Bool-cases
          (same (join (x ∷ q)) (join (reverse (suffix_labels trim lower pattern))))) [
            | inl t ↦
                let labels : All NoDot (x ∷ q) =
                  All-append_left NoDot (x ∷ q) r
                    (subst (All NoDot) e (All-reverse NoDot (split name) (split-NoDot name))) in
                let eq =
                  join-injective (x ∷ q) (reverse (suffix_labels trim lower pattern)) (λ n. cc)
                    (suffix_ne pattern) labels (suffix_NoDot pattern) (same-eq _ _ t) in
                inr (
                  reverse r,
                  sym (reverse-reverse (split name))
                      ∙ ap reverse e
                      ∙ reverse-append (x ∷ q) r
                      ∙ ap (λ t. reverse r ++ t)
                          (ap reverse eq ∙ reverse-reverse (suffix_labels trim lower pattern)),
                )
            | inr f ↦ inl (x, q, r, e, ground arith)
          ]

    widen :
        (y : Text)
        → Prefix suffixes [] (reverse (split name))
        → Prefix (y ∷ suffixes) [] (reverse (split name))
    unfolding Prefix has
    widen y (x, q, r, e, h) = (x, q, r, e, ground (arith, h))

    from_match :
        (ls : List Text)
        → ls ≢ []
        → (r : List Text) → reverse (split name) ≡ ls ++ r
        → Prefix (join ls ∷ suffixes) [] (reverse (split name))
    unfolding Prefix has
    from_match [] ne r e = absurd (ne refl)
    from_match (x ∷ q) ne r e = (x, q, r, e, ground (arith, same_refl (join (x ∷ q))))

    -- A name matches after an insertion when it matched before, or when the labels of the pattern, in
    -- lower case, end its labels: the name is the suffix of the pattern, or lies below it.
    pub is_match-insert_pattern :
        (is_match (insert_pattern trim lower pattern suffixes) name ≡ true)
        ↔ ((is_match suffixes name ≡ true) ⊎ Matches pattern name)
    unfolding insert_pattern
    is_match-insert_pattern = (
      λ h. elim (to_match ((is_match-Prefix _ name).0 h)) [
        | inl p ↦ inl ((is_match-Prefix suffixes name).1 p)
        | inr m ↦ inr m
      ],
      λ h. (is_match-Prefix _ name).1 (elim h [
        | inl m ↦ widen _ ((is_match-Prefix suffixes name).0 m)
        | inr (front, e) ↦
            from_match (reverse (suffix_labels trim lower pattern)) (suffix_ne pattern)
              (reverse front)
              (ap reverse e ∙ reverse-append front (suffix_labels trim lower pattern))
      ]),
    )
