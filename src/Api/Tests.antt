-- ===== src/Api/Tests.antt =====
-- Requests to a database with one blocked name. A regular expression is a name that it matches alone.
use nimbusdns.Common.{ℕ, refl, none, some, List, [], ◌∷◌}
use nimbusdns.Common.Text.{Text, codes, same}
use nimbusdns.Blocking.Loading.{RegexCrate, load, is_wildcard}
use nimbusdns.Gravity.{GravityDb, empty_tables, create_schema, add_gravity_domain}
use nimbusdns.Api.{Request, post_blocklist_add, deny, delete_deny, block, handle, serve_all}
use nimbusdns.Api.Agreement.Domains.{IsSound}
use nimbusdns.Api.Agreement.Runs.{SameNames, AreProper, serve_all-load}

-- Names in lower case, without blanks around them.
abbrev id : Text → Text
id t = t

abbrev crate : RegexCrate Text
crate = record { new = λ t. some t; escape = id; as_str = id; re_match = same }

abbrev tables : GravityDb
tables = add_gravity_domain (codes "b.org") (create_schema 5 empty_tables)

abbrev requests : List (Request × ℕ)
requests = (deny (codes "a.b") none, 7) ∷ (block (codes "c.d"), 8) ∷ (delete_deny 1, 9) ∷ []

tables-IsSound : IsSound id id tables
unfolding create_schema add_gravity_domain empty_tables
tables-IsSound = record {
  ok = record { default_group = refl; linked = tt; unique = tt };
  rows = tt;
  gravity = ((refl, refl), tt);
}

requests-AreProper : AreProper id id tables requests
unfolding handle post_blocklist_add create_schema add_gravity_domain empty_tables is_wildcard
requests-AreProper = ((refl, refl), (((refl, refl), refl), (((λ h. refl), tt), tt)))

serve_all-load_example :
    SameNames id id
      (codes "a.b")
      (serve_all same id id requests tables (load crate id id tables)).1
      (load crate id id (serve_all same id id requests tables (load crate id id tables)).0)
serve_all-load_example =
    serve_all-load id id crate requests tables (codes "a.b") requests-AreProper tables-IsSound
