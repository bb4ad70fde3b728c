-- ===== src/Api/Agreement/Rows.antt =====
-- The rows of the domain list before and after a handler adds or removes one.
use nimbusdns.Common.{
  ℕ, ◌≡◌, sym, ◌∙◌, subst, true, false, not, ◌&&◌, Option, none, any, find, keep, All, All-keep,
  All-append, ◌==◌, ==_iff, arith,
}
use nimbusdns.Common.Text.{Text}
use nimbusdns.Gravity.{GravityDb, DomainListEntry, is_entry, add_domainlist, remove_domainlist}
use nimbusdns.Gravity
use nimbusdns.Gravity.Order.{All-order_by, any-order_by}
use nimbusdns.Common.Any.{any-eq, any-keep, any-false, All-both, keep-true, find-none}
use nimbusdns.Gravity.Rows.{
  IsUnique, is_active, inserted, inserted-IsOk, any-remove_row, remove_domainlist-IsOk,
}
use nimbusdns.Gravity.Select.{get_domainlist}
use nimbusdns.Api.Agreement.Domains.{IsSound, IsCanonicalRow}
use nimbusdns.Api.Agreement.Loaded.{IsCanonical}

module _ (trim lower : Text → Text) where
  pub inserted-IsSound :
      (dtype : ℕ) (domain : Text) (comment : Option Text) (now : ℕ) (db : GravityDb)
      → IsCanonical trim lower domain
      → any (is_entry dtype domain) db.domainlist ≡ false
      → IsSound trim lower db
      → IsSound trim lower (inserted dtype domain comment now db)
  unfolding inserted Gravity.insert_entry Gravity.new_entry
  inserted-IsSound dtype domain comment now db c h s = record {
    ok = inserted-IsOk dtype domain comment now db h s.ok;
    rows = All-append _ db.domainlist _ s.rows ((λ _. c), tt);
    gravity = s.gravity;
  }

  pub removed-IsSound :
      (id : ℕ) (db : GravityDb)
      → IsSound trim lower db
      → IsSound trim lower (remove_domainlist id db)
  unfolding remove_domainlist
  removed-IsSound id db s = record {
    ok = remove_domainlist-IsOk id db s.ok;
    rows = All-keep _ _ db.domainlist s.rows;
    gravity = s.gravity;
  }

  -- What is known of the row that `remove_from` finds.
  abbrev pub FoundRow : ℕ → GravityDb → DomainListEntry → Type 0
  FoundRow dtype db e =
      ((e.domain_type == dtype) ≡ true) × (IsUnique db.domainlist e × IsCanonicalRow trim lower e)

  pub rows-Found :
      (dtype : ℕ) (db : GravityDb)
      → IsSound trim lower db
      → All (FoundRow dtype db) (get_domainlist dtype db)
  unfolding get_domainlist
  rows-Found dtype db s =
      let kept =
        All-keep _ (λ e. e.domain_type == dtype) db.domainlist
          (All-both (IsUnique db.domainlist) (IsCanonicalRow trim lower)
            (λ e. IsUnique db.domainlist e × IsCanonicalRow trim lower e) (λ e u c. (u, c))
            db.domainlist s.ok.unique s.rows) in
      All-order_by (FoundRow dtype db) (λ e. e.domain)
        (keep (λ e. e.domain_type == dtype) db.domainlist)
        (All-both (λ e. (e.domain_type == dtype) ≡ true)
          (λ e. IsUnique db.domainlist e × IsCanonicalRow trim lower e) (FoundRow dtype db)
          (λ e t u. (t, u)) (keep (λ e. e.domain_type == dtype) db.domainlist)
          (keep-true (λ e. e.domain_type == dtype) db.domainlist) kept)

  -- Only rows of the type have the identifier.
  abbrev pub IsOfType : ℕ → ℕ → GravityDb → Type 0
  IsOfType dtype id db =
      All (λ e. (e.id == id) ≡ true → (e.domain_type == dtype) ≡ true) db.domainlist

  pub removed_row :
      (id u : ℕ) (name : Text) (e : DomainListEntry) (db : GravityDb)
      → (e.id == id) ≡ true
      → IsUnique db.domainlist e
      → any (is_active u name) (remove_domainlist id db).domainlist
        ≡ (not (is_entry u name e) && any (is_active u name) db.domainlist)
  unfolding remove_domainlist
  removed_row id u name e db h v =
      let q : e.id ≡ id = (==_iff e.id id).0 h in
      subst
        (λ k.
          any (is_active u name) (keep (λ o. not (o.id == k)) db.domainlist)
          ≡ (not (is_entry u name e) && any (is_active u name) db.domainlist))
        q (any-remove_row u name e db.domainlist v)

  pub no_row :
      (dtype id u : ℕ) (name : Text) (db : GravityDb)
      → find (λ e. e.id == id) (get_domainlist dtype db) ≡ none
      → IsOfType dtype id db
      → any (is_active u name) (remove_domainlist id db).domainlist
        ≡ any (is_active u name) db.domainlist
  unfolding remove_domainlist get_domainlist
  no_row dtype id u name db h t =
      let absent =
        any-false (λ e. (e.domain_type == dtype) && (e.id == id)) db.domainlist
          (sym (any-keep (λ e. e.id == id) (λ e. e.domain_type == dtype) db.domainlist)
            ∙ sym (
                any-order_by (λ e. e.domain) (λ e. e.id == id)
                  (keep (λ e. e.domain_type == dtype) db.domainlist))
            ∙ find-none (λ e. e.id == id) (get_domainlist dtype db) h) in
      any-keep (is_active u name) (λ o. not (o.id == id)) db.domainlist
      ∙ any-eq (λ o. not (o.id == id) && is_active u name o) (is_active u name) db.domainlist
          (All-both (λ e. ((e.domain_type == dtype) && (e.id == id)) ≡ false)
            (λ e. (e.id == id) ≡ true → (e.domain_type == dtype) ≡ true)
            (λ o. (not (o.id == id) && is_active u name o) ≡ is_active u name o)
            (λ e a b. ground (arith, a, b)) db.domainlist absent t)
