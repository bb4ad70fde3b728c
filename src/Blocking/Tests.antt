-- ===== src/Blocking/Tests.antt =====
-- Patterns and lists at concrete inputs, with characters as their ASCII codes.
use nimbusdns.Common.{
  ℕ, ◌+◌, ◌≡◌, ◌↔◌, ◌⊎◌, ◌&&◌, not, refl, Bool, true, [], ◌∷◌, map, leb, arith, if◌then◌else◌,
}
use nimbusdns.Blocking.Wildcard.{Text, is_match, insert_pattern, same, has}
use nimbusdns.Blocking.Wildcard.Labels.{NoDot}
use nimbusdns.Blocking.Wildcard.Matching.{Matches, is_match-insert_pattern}
use nimbusdns.Blocking.Lists.{
  BlockingLists, is_blocked, check_blocked, trim_dots, add_deny_domain, remove_deny_domain,
  add_gravity_domain, remove_gravity_domain,
}
use nimbusdns.Blocking.Lists.Decision.{allows, denies, is_blocked-check_blocked}
use nimbusdns.Blocking.Lists.Updates.{Counted, updates-Counted, remove_deny_domain-add_deny_domain}

-- ASCII letters in lower case; names without blanks around them.
abbrev lower_letter : ℕ → ℕ
lower_letter ch = if leb 65 ch && leb ch 90 then ch + 32 else ch

abbrev lower : Text → Text
lower t = map lower_letter t

abbrev trim : Text → Text
trim t = t

lower-NoDot : (t : Text) → NoDot t → NoDot (lower t)
lower-NoDot [] h = tt
lower-NoDot (ch ∷ t) h = (ground (arith, h.0), lower-NoDot t h.1)

-- `*.A.b` and `c.a.b`
abbrev pattern : Text
pattern = 42 ∷ 46 ∷ 65 ∷ 46 ∷ 98 ∷ []

abbrev name : Text
name = 99 ∷ 46 ∷ 97 ∷ 46 ∷ 98 ∷ []

is_match-insert_pattern_example :
    (is_match (insert_pattern trim lower pattern []) name ≡ true)
    ↔ ((is_match [] name ≡ true) ⊎ Matches trim lower lower-NoDot pattern name)
is_match-insert_pattern_example = is_match-insert_pattern trim lower lower-NoDot pattern name []

-- A regular expression is a name that it matches alone.
abbrev re_match : Text → Text → Bool
re_match = same

abbrev lists : BlockingLists Text
lists = record {
  allowlist_exact = [];
  denylist_exact = name ∷ [];
  allowlist_regex = [];
  denylist_regex = [];
  gravity_exact = [];
  wildcard_deny = [];
  total_blocked = 1;
  adlist_count = 0;
}

is_blocked-check_blocked_example : is_blocked (check_blocked re_match trim lower lists name) ≡ (
    not (allows re_match trim lower lists (lower (trim_dots name)))
    && denies re_match trim lower lists (lower (trim_dots name)))
is_blocked-check_blocked_example = is_blocked-check_blocked re_match trim lower lists name

lists-Counted : Counted 0 lists
unfolding has
lists-Counted = record { deny_distinct = (refl, tt); gravity_distinct = tt; total = refl }

updates-Counted_example :
    Counted 0 (add_deny_domain re_match trim lower pattern lists)
    × Counted 0 (remove_deny_domain re_match trim lower pattern lists)
    × Counted 0 (add_gravity_domain re_match trim lower pattern lists)
    × Counted 0 (remove_gravity_domain re_match trim lower pattern lists)
updates-Counted_example = updates-Counted trim lower re_match 0 pattern lists lists-Counted

remove_deny_domain-add_deny_domain_example :
    has
      (lower (trim pattern))
      (remove_deny_domain re_match trim lower pattern
        (add_deny_domain re_match trim lower pattern lists)).denylist_exact
    ≡ not (same (trim pattern) (lower (trim pattern)))
remove_deny_domain-add_deny_domain_example =
    remove_deny_domain-add_deny_domain trim lower re_match pattern lists
