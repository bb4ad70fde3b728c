-- ===== src/Api/Agreement/Domains.antt =====
-- When the lists in memory agree with the gravity database, and that `load` makes them agree.
use nimbusdns.Common.{ℕ, ◌≡◌, refl, ◌∙◌, true, ◌&&◌, List, map, any, ltb, All, All-imp, ◌==◌, arith}
use nimbusdns.Common.Text.{Text, same}
use nimbusdns.Blocking.Wildcard.{has}
use nimbusdns.Blocking.Lists.{BlockingLists}
use nimbusdns.Blocking.Loading.{RegexCrate, load}
use nimbusdns.Gravity.{GravityDb, DomainListEntry, is_entry}
use nimbusdns.Gravity.Order.{any-distinct}
use nimbusdns.Common.Any.{any-map, any-eq}
use nimbusdns.Gravity.Rows.{IsOk, is_active, any-get_domainlist_by_type}
use nimbusdns.Gravity.Select.{get_all_gravity_domains}
use nimbusdns.Api.Agreement.Loaded.{IsCanonical, is_exact, load-allow, load-deny, load-gravity}

module _ (trim lower : Text → Text) where
  -- A row that allows or denies one name has it in canonical form.
  abbrev pub IsCanonicalRow : DomainListEntry → Type 0
  IsCanonicalRow e = ltb e.domain_type 2 ≡ true → IsCanonical trim lower e.domain

  pub record IsSound (db : GravityDb) : Type 0 where
    pub ok : IsOk db
    pub rows : All IsCanonicalRow db.domainlist
    pub gravity : All (λ r. IsCanonical trim lower r.0) db.gravity

  pub record Agrees {Regex : Type 0} (l : BlockingLists Regex) (db : GravityDb) : Type 0 where
    pub allow : (name : Text) → has name l.allowlist_exact ≡ any (is_active 0 name) db.domainlist
    pub deny : (name : Text) → has name l.denylist_exact ≡ any (is_active 1 name) db.domainlist
    pub gravity :
        (name : Text)
        → has name l.gravity_exact ≡ any (λ r. is_exact trim lower name r.0) db.gravity

  active_rows :
      (dtype : ℕ) (name : Text) (rows : List DomainListEntry)
      → ltb dtype 2 ≡ true
      → All IsCanonicalRow rows
      → any (λ e. ((e.domain_type == dtype) && e.enabled) && same name (lower e.domain)) rows
        ≡ any (is_active dtype name) rows
  unfolding is_active is_entry
  active_rows dtype name rows t h =
      any-eq (λ e. ((e.domain_type == dtype) && e.enabled) && same name (lower e.domain))
        (is_active dtype name) rows (All-imp _ (λ e c. ground (arith, c, t)) rows h)

  module _ {Regex : Type 0} (re : RegexCrate Regex) where
    pub load-Agrees : (db : GravityDb) → IsSound db → Agrees (load re trim lower db) db
    unfolding get_all_gravity_domains
    load-Agrees db s = record {
      allow = λ name.
          load-allow trim lower re db name
          ∙ any-get_domainlist_by_type db 0 (λ d. same name (lower d)) s.ok
          ∙ active_rows 0 name db.domainlist refl s.rows;
      deny = λ name.
          load-deny trim lower re db name
          ∙ any-get_domainlist_by_type db 1 (λ d. same name (lower d)) s.ok
          ∙ active_rows 1 name db.domainlist refl s.rows;
      gravity = λ name.
          load-gravity trim lower re db name
          ∙ any-distinct (is_exact trim lower name) (map (λ r. r.0) db.gravity)
          ∙ any-map (is_exact trim lower name) (λ r. r.0) db.gravity;
    }
