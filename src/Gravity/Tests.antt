-- ===== src/Gravity/Tests.antt =====
-- The gravity database at concrete tables. A regular expression is a name that it matches alone.
use nimbusdns.Common.{◌≡◌, ◌↔◌, refl, Option, none, some}
use nimbusdns.Common.Text.{Text, codes, trim, same}
use nimbusdns.Gravity.{GravityDb, empty_tables, create_schema, add_domainlist, add_gravity_domain}
use nimbusdns.Gravity.Pattern.{domain_matches_pattern}
use nimbusdns.Gravity.Decision.{domain_matches_pattern_panics}

abbrev regex_new : Text → Option Text
regex_new t = some t

-- A denied pattern, and one blocked name.
abbrev tables : GravityDb
tables =
    (add_domainlist 3 (codes "*.ads.com") none 7
      (add_gravity_domain (codes "b.org") (create_schema 5 empty_tables))).0

domain_matches_pattern_panics_example :
    (domain_matches_pattern regex_new same (codes "a.com") (codes " / ") ≡ none)
    ↔ (trim (codes " / ") ≡ codes "/")
domain_matches_pattern_panics_example =
    domain_matches_pattern_panics regex_new same (codes "a.com") (codes " / ")

slash_trims : trim (codes " / ") ≡ codes "/"
unfolding trim
slash_trims = refl
