-- ===== src/Gravity/Rows.antt =====
-- The rows of the domain list that the queries of nimbus-core/src/database/gravity.rs return.
use nimbusdns.Common.{
  ℕ, ◌+◌, ◌%◌, ◌^◌, Option, ◌≤◌, ◌≡◌, refl, sym, ◌∙◌, inl, inr, Bool, true, false, not, ◌&&◌, ◌||◌,
  List, [], ◌∷◌, ◌++◌, map, any, keep, All, All-imp, All-keep, All-append, ◌==◌, arith, Bool-cases,
}
use nimbusdns.Common.Any.{any-append, any-map, any-const, any-imp, any-false, All-both}
use nimbusdns.Common.Text.{Text, same, text_discrete}
use nimbusdns.Gravity.{
  GravityDb, DomainListEntry, done, failed, constraint, is_entry, is_link, add_link, new_entry,
  add_domainlist, link_entry, insert_entry, remove_domainlist,
}
use nimbusdns.Gravity.Order.{any-distinct}
use nimbusdns.Gravity.Select.{in_enabled_group, joined, get_domainlist_by_type}

-- The row is linked to group 0, and its identifier was given before.
abbrev pub IsLinked : GravityDb → DomainListEntry → Type 0
IsLinked db e = (any (is_link e.id 0) db.domainlist_by_group ≡ true) × (e.id ≤ db.last_domain)

-- A row has the identifier of another exactly if it has its type and domain.
abbrev pub IsUnique : List DomainListEntry → DomainListEntry → Type 0
IsUnique rows e = All (λ o. (o.id == e.id) ≡ is_entry e.domain_type e.domain o) rows

pub record IsOk (db : GravityDb) : Type 0 where
  pub default_group : any (λ g. (g.id == 0) && g.enabled) db.group_table ≡ true
  pub linked : All (IsLinked db) db.domainlist
  pub unique : All (IsUnique db.domainlist) db.domainlist

-- The row blocks or allows the name: it has the type, the name, and is enabled.
unfoldable pub is_active : ℕ → Text → DomainListEntry → Bool
unfolding is_entry
is_active dtype name e = is_entry dtype name e && e.enabled

is_link-in_enabled_group :
    (db : GravityDb) (id : ℕ)
    → IsOk db
    → any (is_link id 0) db.domainlist_by_group ≡ true
    → any (in_enabled_group db id) db.domainlist_by_group ≡ true
unfolding is_link in_enabled_group
is_link-in_enabled_group db id ok h =
    any-imp (is_link id 0) (in_enabled_group db id) db.domainlist_by_group
      (λ l k. ground (arith, k, ok.default_group)) h

any-joined :
    (db : GravityDb) (p q : DomainListEntry → Bool) (es : List DomainListEntry)
    → IsOk db
    → All (IsLinked db) es
    → any q (joined db p es) ≡ any (λ e. p e && q e) es
unfolding joined
any-joined db p q [] ok h = refl
any-joined db p q (e ∷ es) ok h = elim (Bool-cases (p e)) [
  | inl t ↦
      let linked = is_link-in_enabled_group db e.id ok h.0.0 in
      rw t (
        any-append q (map (λ _. e) (keep (in_enabled_group db e.id) db.domainlist_by_group))
          (joined db p es)
        ∙ ground (
          arith,
          any-const q e (in_enabled_group db e.id) db.domainlist_by_group,
          linked,
          any-joined db p q es ok h.1,
        ))
  | inr f ↦ rw f (any-joined db p q es ok h.1)
]

-- What is selected comes from the enabled rows of the type.
pub any-get_domainlist_by_type :
    (db : GravityDb) (dtype : ℕ) (p : Text → Bool)
    → IsOk db
    → any p (get_domainlist_by_type dtype db)
      ≡ any (λ e. ((e.domain_type == dtype) && e.enabled) && p e.domain) db.domainlist
unfolding get_domainlist_by_type
any-get_domainlist_by_type db dtype p ok =
    let rows = joined db (λ e. (e.domain_type == dtype) && e.enabled) db.domainlist in
    any-distinct p (map (λ e. e.domain) rows)
    ∙ any-map p (λ e. e.domain) rows
    ∙ any-joined db (λ e. (e.domain_type == dtype) && e.enabled) (λ e. p e.domain) db.domainlist ok
        ok.linked

-- A removal.
keep-linked :
    (id k : ℕ) (links : List (ℕ × ℕ))
    → (k == id) ≡ false
    → any (is_link k 0) links ≡ true
    → any (is_link k 0) (keep (λ l. not (l.0 == id)) links) ≡ true
unfolding is_link
keep-linked id k [] h e = cc
keep-linked id k (l ∷ links) h e = ground (arith, keep-linked id k links h)

kept-IsLinked :
    (id : ℕ) (db : GravityDb) (rows : List DomainListEntry)
    → All (IsLinked db) rows
    → All (IsLinked (remove_domainlist id db)) (keep (λ e. not (e.id == id)) rows)
unfolding remove_domainlist
kept-IsLinked id db [] h = tt
kept-IsLinked id db (e ∷ rows) h = elim (Bool-cases (e.id == id)) [
  | inl t ↦ rw t (kept-IsLinked id db rows h.1)
  | inr f ↦
      rw f
        ((keep-linked id e.id db.domainlist_by_group f h.0.0, h.0.1), kept-IsLinked id db rows h.1)
]

pub remove_domainlist-IsOk : (id : ℕ) (db : GravityDb) → IsOk db → IsOk (remove_domainlist id db)
unfolding remove_domainlist
remove_domainlist-IsOk id db ok = record {
  default_group = ok.default_group;
  linked = kept-IsLinked id db db.domainlist ok.linked;
  unique = All-imp _ (λ e u. All-keep _ _ db.domainlist u) _ (All-keep _ _ db.domainlist ok.unique);
}

-- The row that goes takes its own name along, and no other.
pub any-remove_row :
    (dtype : ℕ) (name : Text) (e : DomainListEntry) (rows : List DomainListEntry)
    → IsUnique rows e
    → any (is_active dtype name) (keep (λ o. not (o.id == e.id)) rows)
      ≡ (not (is_entry dtype name e) && any (is_active dtype name) rows)
unfolding is_active is_entry same
any-remove_row dtype name e [] u = ground arith
any-remove_row dtype name e (o ∷ rows) u = ground (
  arith,
  u.0,
  any-remove_row dtype name e rows u.1,
  text_discrete name e.domain,
  text_discrete name o.domain,
  text_discrete e.domain o.domain,
)

-- An insertion.
add_link-any :
    (id k : ℕ) (links : List (ℕ × ℕ))
    → any (is_link k 0) links ≡ true
    → any (is_link k 0) (add_link id 0 links) ≡ true
unfolding add_link
add_link-any id k links h = ground (arith, h, any-append (is_link k 0) links ((id, 0) ∷ []))

add_link_new : (id : ℕ) (links : List (ℕ × ℕ)) → any (is_link id 0) (add_link id 0 links) ≡ true
unfolding add_link is_link
add_link_new id links = ground (arith, any-append (is_link id 0) links ((id, 0) ∷ []))

any-default : (db : GravityDb) → IsOk db → any (λ g. g.id == 0) db.group_table ≡ true
any-default db ok =
    any-imp (λ g. (g.id == 0) && g.enabled) (λ g. g.id == 0) db.group_table
      (λ g k. ground (arith, k)) ok.default_group

-- The tables after the new row and its link.
unfoldable pub inserted : ℕ → Text → Option Text → ℕ → GravityDb → GravityDb
unfolding insert_entry new_entry add_link
inserted dtype domain comment now db =
    let db1 = insert_entry (new_entry (db.last_domain + 1) dtype domain comment now) db in
    record db1 { domainlist_by_group = add_link (db.last_domain + 1) 0 db.domainlist_by_group }

pub add_domainlist_new :
    (dtype : ℕ) (domain : Text) (comment : Option Text) (now : ℕ) (db : GravityDb)
    → any (is_entry dtype domain) db.domainlist ≡ false
    → IsOk db
    → add_domainlist dtype domain comment now db
      ≡ (inserted dtype domain comment now db, done ((db.last_domain + 1) % 2 ^ 32))
unfolding add_domainlist link_entry inserted insert_entry
add_domainlist_new dtype domain comment now db h ok = rw (h, any-default db ok) refl

pub add_domainlist_taken :
    (dtype : ℕ) (domain : Text) (comment : Option Text) (now : ℕ) (db : GravityDb)
    → any (is_entry dtype domain) db.domainlist ≡ true
    → add_domainlist dtype domain comment now db ≡ (db, failed constraint)
unfolding add_domainlist
add_domainlist_taken dtype domain comment now db h = rw h refl

-- A row with a new identifier, type and domain.
abbrev IsNew : DomainListEntry → DomainListEntry → Type 0
IsNew new e = ((e.id == new.id) ≡ false) × (is_entry new.domain_type new.domain e ≡ false)

is_entry_self : (e : DomainListEntry) → is_entry e.domain_type e.domain e ≡ true
unfolding is_entry same
is_entry_self e = ground (arith, text_discrete e.domain e.domain)

IsNew-flip :
    (new e : DomainListEntry) → IsNew new e → (new.id == e.id) ≡ is_entry e.domain_type e.domain new
unfolding is_entry same
IsNew-flip new e f =
    ground (arith, f.0, f.1, text_discrete new.domain e.domain, text_discrete e.domain new.domain)

append-IsUnique :
    (new : DomainListEntry) (rows : List DomainListEntry)
    → All (IsNew new) rows
    → All (IsUnique rows) rows
    → All (IsUnique (rows ++ new ∷ [])) (rows ++ new ∷ [])
append-IsUnique new rows n u =
    let old =
      All-both (IsNew new) (IsUnique rows) (IsUnique (rows ++ new ∷ []))
        (λ e f v. All-append _ rows (new ∷ []) v (IsNew-flip new e f, tt)) rows n u in
    All-append _ rows (new ∷ []) old (
      All-append _ rows (new ∷ []) (All-imp _ (λ o f. f.0 ∙ sym f.1) rows n)
          (ground (arith, is_entry_self new), tt),
      tt,
    )

pub inserted-IsOk :
    (dtype : ℕ) (domain : Text) (comment : Option Text) (now : ℕ) (db : GravityDb)
    → any (is_entry dtype domain) db.domainlist ≡ false
    → IsOk db
    → IsOk (inserted dtype domain comment now db)
unfolding inserted insert_entry new_entry
inserted-IsOk dtype domain comment now db h ok =
    let id = db.last_domain + 1 in
    let fresh : All (IsNew (new_entry id dtype domain comment now)) db.domainlist =
      All-both (IsLinked db) (λ e. is_entry dtype domain e ≡ false)
        (IsNew (new_entry id dtype domain comment now)) (λ e l k. (ground (arith, l.1), k))
        db.domainlist ok.linked (any-false (is_entry dtype domain) db.domainlist h) in
    let old : All (IsLinked (inserted dtype domain comment now db)) db.domainlist =
      All-imp _ (λ e l. (add_link-any id e.id db.domainlist_by_group l.0, omega (arith, l.1)))
        db.domainlist ok.linked in
    record {
      default_group = ok.default_group;
      linked =
          All-append _ db.domainlist _ old
            ((add_link_new id db.domainlist_by_group, omega arith), tt);
      unique =
          append-IsUnique (new_entry id dtype domain comment now) db.domainlist fresh ok.unique;
    }

-- The new row adds its own name, and no other.
pub any-inserted :
    (dtype : ℕ) (domain : Text) (comment : Option Text) (now : ℕ) (db : GravityDb) (t : ℕ)
    (name : Text)
    → any (is_active t name) (inserted dtype domain comment now db).domainlist
      ≡ (any (is_active t name) db.domainlist || ((dtype == t) && same name domain))
unfolding inserted insert_entry new_entry is_active is_entry
any-inserted dtype domain comment now db t name = ground (
  arith,
  any-append (is_active t name) db.domainlist
      (new_entry (db.last_domain + 1) dtype domain comment now ∷ []),
)
