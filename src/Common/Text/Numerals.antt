-- ===== src/Common/Text/Numerals.antt =====
-- A decimal numeral reads as the number that it is written from.
use Prim.Native.Nat.{ℕ, zero, suc, ◌+◌, ◌-◌, ◌*◌, ◌/◌, ◌%◌, ◌^◌, ◌<◌}
use mathlib.Core.Path.{◌≡◌, refl, ap, ◌∙◌}
use mathlib.Core.Logic.{inl, inr}
use mathlib.Core.Bool.{true}
use mathlib.Core.Option.{some}
use mathlib.Core.List.{[], ◌∷◌, ◌++◌}
use native.Mathlib.Omega.{arith}
use nimbusdns.Common.Tests.{ltb, Bool-cases}
use nimbusdns.Common.Lists.{All, All-append, length, length-append}
use nimbusdns.Common.Text.{Text, parse_digits, parse_unsigned, to_digits, is_digit}

parse_digits_append :
    (limit v w : ℕ) (xs ys : Text)
    → parse_digits limit v xs ≡ some w
    → parse_digits limit v (xs ++ ys) ≡ parse_digits limit w ys
unfolding parse_digits
parse_digits_append limit v w [] ys h = ground (arith, h)
parse_digits_append limit v w (ch ∷ xs) ys h =
    ground (arith, parse_digits_append limit (v * 10 + (ch - 48)) w xs ys)

parse_digit :
    (limit v d : ℕ)
    → d < 10
    → v * 10 + d < limit
    → parse_digits limit v ((48 + d) ∷ []) ≡ some (v * 10 + d)
unfolding parse_digits is_digit
parse_digit limit v d h k = ground arith

pub parse_digits-to_digits :
    (limit n v : ℕ) → v < limit → v < 10 ^ n → parse_digits limit 0 (to_digits n v) ≡ some v
unfolding to_digits parse_digits
parse_digits-to_digits limit zero v h k = ground arith
parse_digits-to_digits limit (suc n) v h k = elim (Bool-cases (ltb v 10)) [
  | inl t ↦ rw t (ground (arith, parse_digit limit 0 v))
  | inr f ↦
      let rest = parse_digits-to_digits limit n (v / 10) (omega arith) (omega (arith, k)) in
      let last = parse_digit limit (v / 10) (v % 10) (omega arith) (omega arith) in
      rw f (
        parse_digits_append limit 0 (v / 10) (to_digits n (v / 10)) _ rest
        ∙ last
        ∙ ap some (omega arith))
]

-- The first character of a numeral is a digit, and there is one.
pub to_digits-digits : (n v : ℕ) → All (λ ch. is_digit ch ≡ true) (to_digits n v)
unfolding to_digits is_digit
to_digits-digits zero v = tt
to_digits-digits (suc n) v = elim (Bool-cases (ltb v 10)) [
  | inl t ↦ rw t (ground arith, tt)
  | inr f ↦
      rw f (All-append _ (to_digits n (v / 10)) _ (to_digits-digits n (v / 10)) (ground arith, tt))
]

to_digits_nonempty : (n v : ℕ) → 0 < length (to_digits (suc n) v)
unfolding to_digits
to_digits_nonempty n v = ground (arith, length-append (to_digits n (v / 10)) ((48 + v % 10) ∷ []))

parse_unsigned_digits :
    (limit : ℕ) (t : Text)
    → 0 < length t
    → All (λ ch. is_digit ch ≡ true) t
    → parse_unsigned limit t ≡ parse_digits limit 0 t
unfolding parse_unsigned is_digit
parse_unsigned_digits limit [] h d = absurd (omega (arith, h))
parse_unsigned_digits limit (ch ∷ []) h d = refl
parse_unsigned_digits limit (ch ∷ next ∷ t) h d = ground (arith, d.0)

pub parse_unsigned-to_digits :
    (limit n v : ℕ)
    → v < limit
    → v < 10 ^ suc n
    → parse_unsigned limit (to_digits (suc n) v) ≡ some v
parse_unsigned-to_digits limit n v h k =
    parse_unsigned_digits limit (to_digits (suc n) v) (to_digits_nonempty n v)
      (to_digits-digits (suc n) v)
    ∙ parse_digits-to_digits limit (suc n) v h k

parse_digits-lt :
    (limit v w : ℕ) (t : Text) → v < limit → parse_digits limit v t ≡ some w → w < limit
unfolding parse_digits
parse_digits-lt limit v w [] h e = ground (arith, e)
parse_digits-lt limit v w (ch ∷ t) h e =
    ground (arith, parse_digits-lt limit (v * 10 + (ch - 48)) w t)

-- What is read is below the limit.
pub parse_unsigned-lt :
    (limit w : ℕ) (t : Text) → 0 < limit → parse_unsigned limit t ≡ some w → w < limit
unfolding parse_unsigned
parse_unsigned-lt limit w [] h e = cc
parse_unsigned-lt limit w (ch ∷ []) h e = parse_digits-lt limit 0 w (ch ∷ []) h e
parse_unsigned-lt limit w (ch ∷ next ∷ t) h e =
    ground (arith, parse_digits-lt limit 0 w (next ∷ t), parse_digits-lt limit 0 w (ch ∷ next ∷ t))
