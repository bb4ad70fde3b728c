-- ===== src/Common/Text.antt =====
-- Text as the list of its code points: literals, equality, `str::split`, `strip_prefix`,
-- `strip_suffix`, `trim`, `to_ascii_lowercase`, and decimal numerals (`str::parse` of `u16`, `u32`
-- and `u64`).
pub mod Numerals
pub mod Affixes
use Prim.Native.Char.{code}
use Prim.Native.String.{String}
use mathlib.Core.Logic.{◌≢◌}
use mathlib.Core.List.{List, [], ◌∷◌, ◌++◌, reverse, map}
use mathlib.Core.Path.{◌≡◌, refl}
use mathlib.Core.Bool.{Bool, true, ◌&&◌, ◌||◌}
use mathlib.Core.Option.{Option, none, some}
use mathlib.Core.Option
use Prim.Native.Nat.{ℕ, zero, suc, ◌+◌, ◌-◌, ◌*◌, ◌/◌, ◌%◌}
use native.Mathlib.Decide.{ℕ_discrete}
use nimbusdns.Common.Tests.{ltb, leb, ◌==◌, test, if◌then◌else◌}
use nimbusdns.Common.Lists.{any}

abbrev pub Text : Type 0
Text = List ℕ

abbrev pub codes : String → Text
codes String.[] = []
codes (String.◌∷◌ c s) = code c ∷ codes s

-- By clauses, so that it computes.
unfoldable pub text_discrete : Discrete Text
unfolding ℕ_discrete
text_discrete [] [] = yes refl
text_discrete [] (b ∷ y) = no (λ e. cc)
text_discrete (a ∷ x) [] = no (λ e. cc)
text_discrete (a ∷ x) (b ∷ y) = elim (ℕ_discrete a b) [
  | yes p ↦ elim (text_discrete x y) [ yes q ↦ yes cc | no n ↦ no (λ e. n cc) ]
  | no n ↦ no (λ e. n cc)
]

-- The texts are the same (`==`).
unfoldable pub same : Text → Text → Bool
unfolding text_discrete
same a b = test (text_discrete a b)

-- The text is one of the literals.
unfoldable pub one_of : List String → Text → Bool
unfolding same
one_of [] t = Bool.false
one_of (s ∷ ss) t = same t (codes s) || one_of ss t

unfoldable pub cons_head : ℕ → List Text → List Text
cons_head ch [] = (ch ∷ []) ∷ []
cons_head ch (part ∷ parts) = (ch ∷ part) ∷ parts

-- `split(sep)`
unfoldable pub split_on : ℕ → Text → List Text
unfolding cons_head
split_on sep [] = [] ∷ []
split_on sep (ch ∷ t) =
    let rest = split_on sep t in if ch == sep then [] ∷ rest else cons_head ch rest

-- `strip_prefix`
unfoldable pub strip_prefix : Text → Text → Option Text
strip_prefix [] t = some t
strip_prefix (p ∷ ps) [] = none
strip_prefix (p ∷ ps) (ch ∷ t) = let rest = strip_prefix ps t in if p == ch then rest else none

-- `strip_suffix`
unfoldable pub strip_suffix : Text → Text → Option Text
unfolding strip_prefix
strip_suffix suffix t = Option.map reverse (strip_prefix (reverse suffix) (reverse t))

-- The characters with the Unicode property White_Space (`char::is_whitespace`).
unfoldable pub is_whitespace : ℕ → Bool
is_whitespace ch =
    (leb 9 ch && leb ch 13)
    || (ch == 32)
    || (ch == 133)
    || (ch == 160)
    || (ch == 5760)
    || (leb 8192 ch && leb ch 8202)
    || (ch == 8232)
    || (ch == 8233)
    || (ch == 8239)
    || (ch == 8287)
    || (ch == 12288)

unfoldable pub trim_start : Text → Text
unfolding is_whitespace
trim_start [] = []
trim_start (ch ∷ t) = let rest = trim_start t in if is_whitespace ch then rest else ch ∷ t

unfoldable pub trim : Text → Text
unfolding trim_start
trim t = reverse (trim_start (reverse (trim_start t)))

unfoldable pub ascii_lower : ℕ → ℕ
ascii_lower ch = if leb 65 ch && leb ch 90 then ch + 32 else ch

unfoldable pub to_ascii_lowercase : Text → Text
unfolding ascii_lower
to_ascii_lowercase t = map ascii_lower t

unfoldable pub is_digit : ℕ → Bool
is_digit ch = leb 48 ch && leb ch 57

-- The digits after a value that is read already, as long as it stays below the limit of the type.
unfoldable pub parse_digits : ℕ → ℕ → Text → Option ℕ
unfolding is_digit
parse_digits limit v [] = some v
parse_digits limit v (ch ∷ t) =
    let w = v * 10 + (ch - 48) in
    let rest = parse_digits limit w t in
    if is_digit ch then if ltb w limit then rest else none else none

-- `str::parse` of an unsigned number below `limit`: a sign `+` and at least one digit.
unfoldable pub parse_unsigned : ℕ → Text → Option ℕ
unfolding parse_digits
parse_unsigned limit [] = none
parse_unsigned limit (ch ∷ []) = parse_digits limit 0 (ch ∷ [])
parse_unsigned limit (ch ∷ next ∷ t) =
    if ch == 43 then parse_digits limit 0 (next ∷ t) else parse_digits limit 0 (ch ∷ next ∷ t)

-- The decimal numeral of a number that has at most `n` digits (`Display`).
unfoldable pub to_digits : ℕ → ℕ → Text
to_digits zero v = []
to_digits (suc n) v =
    let rest = to_digits n (v / 10) in
    if ltb v 10 then (48 + v) ∷ [] else rest ++ (48 + v % 10) ∷ []
