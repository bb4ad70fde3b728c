-- ===== src/Gravity/Pattern.antt =====
-- `domain_matches_pattern` and `GravityDb::check_blocked` of nimbus-core/src/database/gravity.rs. The
-- regular expressions are arguments. `none` is a panic.
use Prim.Native.String.{String}
use mathlib.Core.List.{reverse}
use mathlib.Core.Option
use nimbusdns.Common.{
  ℕ, Bool, true, false, ◌&&◌, ◌||◌, Option, none, some, List, [], ◌∷◌, is_some, ◌==◌, if◌then◌else◌,
}
use nimbusdns.Common.Text.{Text, same, trim, codes, strip_prefix, strip_suffix}
use nimbusdns.Gravity.{GravityDb, DomainListEntry}
use nimbusdns.Gravity.Select.{view, is_allowlisted, is_exact_denied, in_gravity}

pub data BlockingDecision : Type 0 where
  not_blocked allowlisted : BlockingDecision
  blocked : String → BlockingDecision
  blocked_by_regex : ℕ → BlockingDecision

unfoldable pub is_blocked : BlockingDecision → Bool
is_blocked (blocked list) = true
is_blocked (blocked_by_regex id) = true
is_blocked _ = false

unfoldable pub ends_with : Text → Text → Bool
unfolding strip_suffix
ends_with suffix t = is_some (strip_suffix suffix t)

unfoldable pub without_last : Text → Text
without_last t = elim (reverse t) [ [] ↦ [] | _ ∷ rest ↦ reverse rest ]

-- The patterns that are not between slashes: `*.suffix`, `*suffix` or a name.
unfoldable pub matches_bare : Text → Option Text → Text → Bool
unfolding same ends_with
matches_bare domain (some suffix) pattern = same domain suffix || ends_with (46 ∷ suffix) domain
matches_bare domain none [] = same domain []
matches_bare domain none (ch ∷ suffix) =
    if ch == 42 then same domain suffix || ends_with suffix domain else same domain (ch ∷ suffix)

module _ {Regex : Type 0} (regex_new : Text → Option Regex) (re_match : Regex → Text → Bool) where
  -- What follows the first slash: nothing, where the bounds of the slice cross.
  unfoldable pub matches_slashed : Text → Text → Option Bool
  unfolding without_last
  matches_slashed domain [] = none
  matches_slashed domain (ch ∷ rest) =
      some (elim (regex_new (without_last (ch ∷ rest))) [
        | none ↦ false
        | some re ↦ re_match re domain
      ])

  unfoldable pub matches_trimmed : Text → Text → Option Bool
  unfolding matches_slashed matches_bare ends_with
  matches_trimmed domain [] = some false
  matches_trimmed domain (ch ∷ rest) =
      if (ch == 47) && ends_with (47 ∷ []) (ch ∷ rest)
      then matches_slashed domain rest
      else some (matches_bare domain (strip_prefix (codes "*.") (ch ∷ rest)) (ch ∷ rest))

  unfoldable pub domain_matches_pattern : Text → Text → Option Bool
  unfolding matches_trimmed
  domain_matches_pattern domain pattern = matches_trimmed domain (trim pattern)

  -- The first row whose pattern matches.
  unfoldable pub find_match : Text → List DomainListEntry → Option (Option ℕ)
  unfolding domain_matches_pattern
  find_match domain [] = some none
  find_match domain (e ∷ es) =
      let rest = find_match domain es in
      elim (domain_matches_pattern domain e.domain) [
        | none ↦ none
        | some b ↦ if b then some (some e.id) else rest
      ]

  unfoldable pub matches_regex_allowlist : Text → GravityDb → Option Bool
  unfolding find_match view
  matches_regex_allowlist domain db = Option.map is_some (find_match domain (view 2 db))

  unfoldable pub matches_regex_denylist : Text → GravityDb → Option (Option ℕ)
  unfolding find_match view
  matches_regex_denylist domain db = find_match domain (view 3 db)

  unfoldable pub after_regex_deny : Text → GravityDb → Option ℕ → BlockingDecision
  unfolding in_gravity
  after_regex_deny domain db (some id) = blocked_by_regex id
  after_regex_deny domain db none = if in_gravity domain db then blocked "gravity" else not_blocked

  unfoldable pub after_regex_allow : Text → GravityDb → Bool → Option BlockingDecision
  unfolding after_regex_deny matches_regex_denylist
  after_regex_allow domain db true = some allowlisted
  after_regex_allow domain db false =
      Option.map (after_regex_deny domain db) (matches_regex_denylist domain db)

  unfoldable pub check_blocked : Text → GravityDb → Option BlockingDecision
  unfolding is_allowlisted is_exact_denied matches_regex_allowlist after_regex_allow
  check_blocked domain db =
      if is_allowlisted domain db
      then some allowlisted
      else if is_exact_denied domain db
      then some (blocked "exact")
      else elim (matches_regex_allowlist domain db) [
        | none ↦ none
        | some b ↦ after_regex_allow domain db b
      ]
