-- ===== src/Common/Text/Affixes.antt =====
-- Prefixes, suffixes, blanks and separators of texts.
use Prim.Native.Nat.{ℕ}
use mathlib.Core.Path.{◌≡◌, refl, ap, ◌∙◌}
use mathlib.Core.Bool.{true, false}
use mathlib.Core.Option.{none, some}
use mathlib.Core.Logic.{◌≢◌}
use mathlib.Core.List.{[], ◌∷◌, ◌++◌, reverse, reverse-reverse, reverse-append}
use native.Mathlib.Omega.{arith}
use nimbusdns.Common.Tests.{◌==◌}
use nimbusdns.Common.Lists.{All, All-reverse}
use nimbusdns.Common.Text.{
  Text, strip_prefix, strip_suffix, trim, trim_start, is_whitespace, split_on, cons_head,
}

pub strip_prefix_append : (p t : Text) → strip_prefix p (p ++ t) ≡ some t
unfolding strip_prefix
strip_prefix_append [] t = refl
strip_prefix_append (ch ∷ p) t = ground (arith, strip_prefix_append p t)

pub strip_suffix_append : (s t : Text) → strip_suffix s (t ++ s) ≡ some t
unfolding strip_suffix
strip_suffix_append s t =
    rw (reverse-append t s, strip_prefix_append (reverse s) (reverse t), reverse-reverse t) refl

-- A suffix that is no suffix of what stands at the end.
pub strip_suffix-none :
    (s u t : Text)
    → ((r : Text) → strip_prefix (reverse s) (reverse u ++ r) ≡ none)
    → strip_suffix s (t ++ u) ≡ none
unfolding strip_suffix
strip_suffix-none s u t h = rw (reverse-append t u, h (reverse t)) refl

pub append_nonempty : (t : Text) (ch : ℕ) (u : Text) → t ++ ch ∷ u ≢ []
append_nonempty [] ch u e = cc
append_nonempty (x ∷ t) ch u e = cc

-- Blanks, and texts without them.
abbrev pub IsBlank : Text → Type 0
IsBlank t = All (λ ch. is_whitespace ch ≡ true) t

abbrev pub NoBlank : Text → Type 0
NoBlank t = All (λ ch. is_whitespace ch ≡ false) t

trim_start_blank : (a t : Text) → IsBlank a → trim_start (a ++ t) ≡ trim_start t
unfolding trim_start
trim_start_blank [] t h = refl
trim_start_blank (ch ∷ a) t h = ground (arith, h.0, trim_start_blank a t h.1)

trim_start_solid : (t b : Text) → t ≢ [] → NoBlank t → trim_start (t ++ b) ≡ t ++ b
unfolding trim_start
trim_start_solid [] b n h = absurd (n refl)
trim_start_solid (ch ∷ t) b n h = ground (arith, h.0)

trim_start_id : (t : Text) → NoBlank t → trim_start t ≡ t
unfolding trim_start
trim_start_id [] h = refl
trim_start_id (ch ∷ t) h = ground (arith, h.0)

-- `trim` takes the blanks on both sides away.
pub trim_blanks :
    (a t b : Text) → IsBlank a → IsBlank b → t ≢ [] → NoBlank t → trim (a ++ (t ++ b)) ≡ t
unfolding trim
trim_blanks a t b ha hb n h =
    let front = trim_start_blank a (t ++ b) ha ∙ trim_start_solid t b n h in
    let back = trim_start_blank (reverse b) (reverse t) (All-reverse _ b hb) in
    ap (λ x. reverse (trim_start (reverse x))) front
    ∙ ap (λ x. reverse (trim_start x)) (reverse-append t b)
    ∙ ap reverse (back ∙ trim_start_id (reverse t) (All-reverse _ t h))
    ∙ reverse-reverse t

pub trim_id : (t : Text) → NoBlank t → trim t ≡ t
unfolding trim
trim_id t h =
    ap (λ x. reverse (trim_start (reverse x))) (trim_start_id t h)
    ∙ ap reverse (trim_start_id (reverse t) (All-reverse _ t h))
    ∙ reverse-reverse t

pub split_on_append :
    (sep : ℕ) (a t : Text)
    → All (λ ch. (ch == sep) ≡ false) a
    → split_on sep (a ++ sep ∷ t) ≡ a ∷ split_on sep t
unfolding split_on cons_head
split_on_append sep [] t h = ground arith
split_on_append sep (ch ∷ a) t h = ground (arith, h.0, split_on_append sep a t h.1)

pub split_on_none :
    (sep : ℕ) (a : Text) → All (λ ch. (ch == sep) ≡ false) a → split_on sep a ≡ a ∷ []
unfolding split_on cons_head
split_on_none sep [] h = refl
split_on_none sep (ch ∷ a) h = ground (arith, h.0, split_on_none sep a h.1)
