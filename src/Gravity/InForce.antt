-- ===== src/Gravity/InForce.antt =====
-- The rows of the domain list that count: those of enabled groups, which the views of
-- nimbus-core/src/database/schema.rs join, each once.
use nimbusdns.Common.{
  ℕ, ◌≡◌, refl, ◌∙◌, inl, inr, Bool, ◌&&◌, List, [], ◌∷◌, map, any, keep, ◌==◌, arith, Bool-cases,
}
use nimbusdns.Common.Any.{any-append, any-const}
use nimbusdns.Common.Text.{Text, same}
use nimbusdns.Gravity.{GravityDb, DomainListEntry}
use nimbusdns.Gravity.Select.{
  in_enabled_group, joined, view, is_allowlisted, is_exact_denied, in_gravity,
}

-- The row is linked to a group that is enabled.
abbrev pub has_enabled_group : GravityDb → DomainListEntry → Bool
has_enabled_group db e =
    any (λ l. (l.0 == e.id) && any (λ g. (g.id == l.1) && g.enabled) db.group_table)
      db.domainlist_by_group

-- The rows of a type in enabled groups, in the order of the table.
abbrev pub rows_of : ℕ → GravityDb → List DomainListEntry
rows_of dtype db = keep (λ e. (e.domain_type == dtype) && has_enabled_group db e) db.domainlist

abbrev pub has_name : Text → List DomainListEntry → Bool
has_name domain rows = any (λ e. same domain e.domain) rows

abbrev pub has_block : Text → GravityDb → Bool
has_block domain db = any (λ r. same domain r.0) db.gravity

any-joined :
    (db : GravityDb) (p q : DomainListEntry → Bool) (es : List DomainListEntry)
    → any q (joined db p es) ≡ any q (keep (λ e. p e && has_enabled_group db e) es)
unfolding joined in_enabled_group
any-joined db p q [] = refl
any-joined db p q (e ∷ es) = elim (Bool-cases (p e)) [
  | inl t ↦ rw t (
      any-append q (map (λ _. e) (keep (in_enabled_group db e.id) db.domainlist_by_group)) _
      ∙ ground (
        arith,
        any-const q e (in_enabled_group db e.id) db.domainlist_by_group,
        any-joined db p q es,
      ))
  | inr f ↦ rw f (any-joined db p q es)
]

pub is_allowlisted-has_name :
    (domain : Text) (db : GravityDb) → is_allowlisted domain db ≡ has_name domain (rows_of 0 db)
unfolding is_allowlisted view
is_allowlisted-has_name domain db = any-joined db _ _ db.domainlist

pub is_exact_denied-has_name :
    (domain : Text) (db : GravityDb) → is_exact_denied domain db ≡ has_name domain (rows_of 1 db)
unfolding is_exact_denied view
is_exact_denied-has_name domain db = any-joined db _ _ db.domainlist

pub in_gravity-has_block :
    (domain : Text) (db : GravityDb) → in_gravity domain db ≡ has_block domain db
unfolding in_gravity
in_gravity-has_block domain db = refl
