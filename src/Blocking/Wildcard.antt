-- ===== src/Blocking/Wildcard.antt =====
-- `WildcardMatcher` of nimbus-core/src/blocking/mod.rs. A string is the list of its characters, a set
-- of strings a list. `str::trim` and `str::to_lowercase` are the arguments `trim` and `lower`.
pub mod Labels
pub mod Matching
pub use nimbusdns.Common.Text.{Text}
unfoldable pub use nimbusdns.Common.Text.{text_discrete, same}
use mathlib.Core.List.{reverse}
use nimbusdns.Common.{
  ℕ, ◌+◌, Bool, true, false, not, ◌&&◌, Option, none, some, List, [], ◌∷◌, ◌++◌, map, any, ltb,
  ◌==◌, if◌then◌else◌,
}

abbrev pub dot : ℕ
dot = 46

abbrev pub star : ℕ
star = 42

unfoldable pub has : Text → List Text → Bool
has x set = any (same x) set

-- `split('.')`
unfoldable pub cons_head : ℕ → List Text → List Text
cons_head ch [] = (ch ∷ []) ∷ []
cons_head ch (label ∷ labels) = (ch ∷ label) ∷ labels

unfoldable pub split : Text → List Text
unfolding cons_head
split [] = [] ∷ []
split (ch ∷ text) = if ch == dot then [] ∷ split text else cons_head ch (split text)

-- `join(".")`
unfoldable pub join : List Text → Text
join [] = []
join (label ∷ []) = label
join (label ∷ next ∷ labels) = label ++ dot ∷ join (next ∷ labels)

-- What is left of a pattern without `*.`, or else without `*`.
unfoldable pub strip_wildcard : Text → Text
strip_wildcard [] = []
strip_wildcard (a ∷ []) = if a == star then [] else a ∷ []
strip_wildcard (a ∷ b ∷ text) =
    if a == star then if b == dot then text else b ∷ text else a ∷ b ∷ text

-- The loop over the labels of the reversed name, with the number of labels that are done.
unfoldable pub match_labels : List Text → ℕ → Text → List Text → Bool
match_labels suffixes i current [] = false
match_labels suffixes i current (label ∷ labels) =
    let next = (if ltb 0 i then current ++ dot ∷ [] else current) ++ label in
    let rest = match_labels suffixes (i + 1) next labels in if has next suffixes then true else rest

unfoldable pub is_match : List Text → Text → Bool
is_match suffixes name = match_labels suffixes 0 [] (reverse (split name))

module _ (trim lower : Text → Text) where
  -- The labels of a pattern without its star, in lower case.
  unfoldable pub suffix_labels : Text → List Text
  suffix_labels pattern = map lower (split (strip_wildcard (trim pattern)))

  unfoldable pub insert_pattern : Text → List Text → List Text
  insert_pattern pattern suffixes = join (reverse (suffix_labels pattern)) ∷ suffixes
