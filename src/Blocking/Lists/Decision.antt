-- ===== src/Blocking/Lists/Decision.antt =====
-- The decision on a name: the allowlists come first, then any list that denies.
use nimbusdns.Common.{◌≡◌, Bool, not, ◌&&◌, ◌||◌, any, arith}
use nimbusdns.Blocking.Wildcard.{Text, has, is_match}
use nimbusdns.Blocking.Lists.{BlockingLists, is_blocked, trim_dots, check_blocked}

module _ {Regex : Type 0} (re_match : Regex → Text → Bool) (trim lower : Text → Text) where
  abbrev pub allows : BlockingLists Regex → Text → Bool
  allows l name = has name l.allowlist_exact || any (λ re. re_match re name) l.allowlist_regex

  abbrev pub denies : BlockingLists Regex → Text → Bool
  denies l name =
      has name l.denylist_exact
      || has name l.gravity_exact
      || is_match l.wildcard_deny name
      || any (λ re. re_match re name) l.denylist_regex

  -- A domain is blocked exactly when its name, in lower case and without the dots at its end, is
  -- denied by some list and allowed by none.
  pub is_blocked-check_blocked :
      (l : BlockingLists Regex) (domain : Text)
      → is_blocked (check_blocked re_match trim lower l domain)
        ≡ (not (allows l (lower (trim_dots domain))) && denies l (lower (trim_dots domain)))
  unfolding check_blocked is_blocked
  is_blocked-check_blocked l domain = ground arith
