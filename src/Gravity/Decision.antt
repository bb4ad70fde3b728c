-- ===== src/Gravity/Decision.antt =====
-- What `GravityDb::check_blocked` of nimbus-core/src/database/gravity.rs decides, and when it panics.
use mathlib.Core.Option
use nimbusdns.Common.{
  ℕ, ◌≡◌, ◌≢◌, ◌↔◌, ◌⊎◌, refl, ap, ◌∙◌, Bool, true, false, Option, none, some, List, [], ◌∷◌, All,
  arith,
}
use nimbusdns.Common.Text.{Text, trim, codes, strip_suffix}
use nimbusdns.Gravity.{GravityDb, DomainListEntry}
use nimbusdns.Gravity.Pattern.{
  domain_matches_pattern, matches_trimmed, matches_slashed, ends_with, BlockingDecision,
  not_blocked, allowlisted, blocked, blocked_by_regex,
}
use nimbusdns.Gravity.InForce.{rows_of, has_name, has_block}
use nimbusdns.Gravity.Select.{view}

module _ {Regex : Type 0} (regex_new : Text → Option Regex) (re_match : Regex → Text → Bool) where
  panics : (domain t : Text) → matches_trimmed regex_new re_match domain t ≡ none → t ≡ codes "/"
  unfolding matches_trimmed matches_slashed
  panics domain [] h = cc
  panics domain (ch ∷ []) h = ground (arith, h)
  panics domain (ch ∷ next ∷ t) h = ground (arith, h)

  slash_panics : (domain : Text) → matches_trimmed regex_new re_match domain (codes "/") ≡ none
  unfolding matches_trimmed matches_slashed ends_with strip_suffix
  slash_panics domain = refl

  -- A pattern makes the match panic exactly if it is one slash between blanks.
  pub domain_matches_pattern_panics :
      (domain pattern : Text)
      → (domain_matches_pattern regex_new re_match domain pattern ≡ none)
        ↔ (trim pattern ≡ codes "/")
  unfolding domain_matches_pattern
  domain_matches_pattern_panics domain pattern = (
    panics domain (trim pattern),
    λ h. ap (matches_trimmed regex_new re_match domain) h ∙ slash_panics domain,
  )

  -- No pattern of the type is one slash between blanks.
  abbrev pub NoSlash : ℕ → GravityDb → Type 0
  NoSlash dtype db = All (λ e. trim e.domain ≢ codes "/") (view dtype db)

  -- The name matches the pattern of a row.
  abbrev pub MatchesRow : Text → DomainListEntry → Type 0
  MatchesRow domain e = domain_matches_pattern regex_new re_match domain e.domain ≡ some true

  abbrev pub NoneMatches : Text → List DomainListEntry → Type 0
  NoneMatches domain rows =
      All (λ e. domain_matches_pattern regex_new re_match domain e.domain ≡ some false) rows

  -- The first row that matches has the number.
  abbrev pub FirstMatches : Text → ℕ → List DomainListEntry → Type 0
  FirstMatches domain id [] = ⊥
  FirstMatches domain id (e ∷ rows) =
      (MatchesRow domain e × (e.id ≡ id))
      ⊎ ((domain_matches_pattern regex_new re_match domain e.domain ≡ some false)
          × FirstMatches domain id rows)

  abbrev pub AnyMatches : Text → List DomainListEntry → Type 0
  AnyMatches domain rows = (id : ℕ) × FirstMatches domain id rows

  -- What a decision says of the lists: it follows their order, exact before patterns and allowed
  -- before denied, but for the exact denylist, which comes before the allowed patterns.
  abbrev pub Explains : Text → GravityDb → BlockingDecision → Type 0
  Explains domain db not_blocked =
      (has_name domain (rows_of 0 db) ≡ false)
      × ((has_name domain (rows_of 1 db) ≡ false)
          × (NoneMatches domain (rows_of 2 db)
              × (NoneMatches domain (rows_of 3 db) × (has_block domain db ≡ false))))
  Explains domain db allowlisted =
      (has_name domain (rows_of 0 db) ≡ true)
      ⊎ ((has_name domain (rows_of 1 db) ≡ false) × AnyMatches domain (rows_of 2 db))
  Explains domain db (blocked list) =
      (has_name domain (rows_of 0 db) ≡ false)
      × (((list ≡ "exact") × (has_name domain (rows_of 1 db) ≡ true))
          ⊎ ((list ≡ "gravity")
              × ((has_name domain (rows_of 1 db) ≡ false)
                  × (NoneMatches domain (rows_of 2 db)
                      × (NoneMatches domain (rows_of 3 db) × (has_block domain db ≡ true))))))
  Explains domain db (blocked_by_regex id) =
      (has_name domain (rows_of 0 db) ≡ false)
      × ((has_name domain (rows_of 1 db) ≡ false)
          × (NoneMatches domain (rows_of 2 db) × FirstMatches domain id (rows_of 3 db)))

  -- What the loop over the patterns finds.
  abbrev Found : Text → List DomainListEntry → Option ℕ → Type 0
  Found domain rows none = NoneMatches domain rows
  Found domain rows (some id) = FirstMatches domain id rows
