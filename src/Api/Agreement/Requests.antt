-- ===== src/Api/Agreement/Requests.antt =====
-- Each handler of nimbus-api/src/lib.rs that changes a list keeps memory and database in agreement.
use nimbusdns.Common.{
  ℕ, ◌≡◌, sym, ap, ◌∙◌, inl, inr, Bool, not, ◌&&◌, ◌||◌, Option, List, any, find, All-find, ◌==◌,
  arith, Bool-cases, Option-cases, find-true,
}
use nimbusdns.Common.Text.{Text, same}
use nimbusdns.Blocking.Wildcard.{has}
use nimbusdns.Blocking.Lists.{
  BlockingLists, add_text, remove_text, add_allow_domain, remove_allow_domain, add_deny_domain,
  remove_deny_domain,
}
use nimbusdns.Blocking.Lists.Updates.{has-add_text, has-remove_text}
use nimbusdns.Gravity.{GravityDb, DomainListEntry, is_entry, add_domainlist, remove_domainlist}
use nimbusdns.Gravity
use nimbusdns.Gravity.Rows.{inserted, any-inserted, add_domainlist_new, add_domainlist_taken}
use nimbusdns.Gravity.Select.{get_domainlist}
use nimbusdns.Api.{
  Outcome, add_to, remove_from, run_tasks, apply_blocking_delta, delta_of, delta_of_found,
  add_to_allowlist, add_to_denylist, remove_from_allowlist, remove_from_denylist,
}
use nimbusdns.Api.Agreement.Domains.{IsSound, Agrees}
use nimbusdns.Api.Agreement.Loaded.{IsCanonical, is_exact, same_sym}
use nimbusdns.Api.Agreement.Rows.{
  inserted-IsSound, removed-IsSound, FoundRow, rows-Found, IsOfType, removed_row, no_row,
}

module _ (trim lower : Text → Text) where
  module _ {Regex : Type 0} (re_match : Regex → Text → Bool) where
    -- The state after an outcome whose tasks have run is sound and agrees.
    abbrev pub Good : Outcome → BlockingLists Regex → Type 0
    Good o l =
        IsSound trim lower o.db × Agrees trim lower (run_tasks re_match trim lower o.tasks l) o.db

    pub has_added :
        (domain : Text) (set : List Text) (name : Text) (b : Bool)
        → IsCanonical trim lower domain
        → has name set ≡ b
        → has name (add_text (lower (trim domain)) set) ≡ (b || same name domain)
    has_added domain set name b c h =
        let d : lower (trim domain) ≡ domain = ap lower c.0 ∙ c.1 in
        rw d (ground (arith, h, has-add_text domain name set, same_sym domain name))

    pub has_removed :
        (domain : Text) (set : List Text) (name : Text) (b : Bool)
        → IsCanonical trim lower domain
        → has name set ≡ b
        → has name (remove_text (trim domain) set) ≡ (not (same name domain) && b)
    has_removed domain set name b c h =
        rw c.0 (ground (arith, h, has-remove_text domain name set, same_sym domain name))

    inserted_gravity :
        (dtype : ℕ) (domain : Text) (comment : Option Text) (now : ℕ) (db : GravityDb) (name : Text)
        (l : BlockingLists Regex)
        → Agrees trim lower l db
        → has name l.gravity_exact
          ≡ any (λ r. is_exact trim lower name r.0) (inserted dtype domain comment now db).gravity
    unfolding inserted Gravity.insert_entry
    inserted_gravity dtype domain comment now db name l a = a.gravity name

    -- A new row of type 0 or 1.
    pub allow-Good :
        (domain : Text) (comment : Option Text) (now : ℕ) (db : GravityDb) (l : BlockingLists Regex)
        → IsCanonical trim lower domain
        → IsSound trim lower db
        → Agrees trim lower l db
        → Good (add_to_allowlist domain comment now db) l
    unfolding add_to_allowlist add_to run_tasks apply_blocking_delta delta_of add_allow_domain
    allow-Good domain comment now db l c s a =
        elim (Bool-cases (any (is_entry 0 domain) db.domainlist)) [
          | inl t ↦ rw (add_domainlist_taken 0 domain comment now db t) (s, a)
          | inr f ↦ rw (add_domainlist_new 0 domain comment now db f s.ok) (
            inserted-IsSound trim lower 0 domain comment now db c f s,
            record {
              allow = λ name.
                  has_added domain l.allowlist_exact name _ c (a.allow name)
                  ∙ sym (any-inserted 0 domain comment now db 0 name);
              deny =
                  λ name. ground (arith, a.deny name, any-inserted 0 domain comment now db 1 name);
              gravity = λ name. inserted_gravity 0 domain comment now db name l a;
            },
          )
        ]

    pub deny-Good :
        (domain : Text) (comment : Option Text) (now : ℕ) (db : GravityDb) (l : BlockingLists Regex)
        → IsCanonical trim lower domain
        → IsSound trim lower db
        → Agrees trim lower l db
        → Good (add_to_denylist domain comment now db) l
    unfolding add_to_denylist add_to run_tasks apply_blocking_delta delta_of add_deny_domain
    deny-Good domain comment now db l c s a =
        elim (Bool-cases (any (is_entry 1 domain) db.domainlist)) [
          | inl t ↦ rw (add_domainlist_taken 1 domain comment now db t) (s, a)
          | inr f ↦ rw (add_domainlist_new 1 domain comment now db f s.ok) (
            inserted-IsSound trim lower 1 domain comment now db c f s,
            record {
              allow =
                  λ name. ground (arith, a.allow name, any-inserted 1 domain comment now db 0 name);
              deny = λ name.
                  has_added domain l.denylist_exact name _ c (a.deny name)
                  ∙ sym (any-inserted 1 domain comment now db 1 name);
              gravity = λ name. inserted_gravity 1 domain comment now db name l a;
            },
          )
        ]

    removed_gravity :
        (id : ℕ) (db : GravityDb) (name : Text) (l : BlockingLists Regex)
        → Agrees trim lower l db
        → has name l.gravity_exact
          ≡ any (λ r. is_exact trim lower name r.0) (remove_domainlist id db).gravity
    unfolding remove_domainlist
    removed_gravity id db name l a = a.gravity name

    -- The removal of a row whose identifier no row of another type has.
    pub delete_allow-Good :
        (id : ℕ) (db : GravityDb) (l : BlockingLists Regex)
        → IsOfType trim lower 0 id db
        → IsSound trim lower db
        → Agrees trim lower l db
        → Good (remove_from_allowlist id db) l
    unfolding remove_from_allowlist remove_from run_tasks apply_blocking_delta delta_of_found
        remove_allow_domain is_entry
    delete_allow-Good id db l t s a =
        elim (Option-cases (find (λ e. e.id == id) (get_domainlist 0 db))) [
          | inl n ↦ rw n (
            removed-IsSound trim lower id db s,
            record {
              allow = λ name. a.allow name ∙ sym (no_row trim lower 0 id 0 name db n t);
              deny = λ name. a.deny name ∙ sym (no_row trim lower 0 id 1 name db n t);
              gravity = λ name. removed_gravity id db name l a;
            },
          )
          | inr f ↦
              let e = f.0 in
              let w : FoundRow trim lower 0 db e =
                All-find (FoundRow trim lower 0 db) (λ e. e.id == id) (get_domainlist 0 db) e
                  (rows-Found trim lower 0 db s) f.1 in
              let i = find-true (λ e. e.id == id) (get_domainlist 0 db) e f.1 in
              let c : IsCanonical trim lower e.domain = w.1.1 (ground (arith, w.0)) in
              rw f.1 (
                removed-IsSound trim lower id db s,
                record {
                  allow = λ name.
                      has_removed e.domain l.allowlist_exact name _ c (a.allow name)
                      ∙ ground (arith, removed_row trim lower id 0 name e db i w.1.0, w.0);
                  deny = λ name.
                      ground
                        (arith, a.deny name, removed_row trim lower id 1 name e db i w.1.0, w.0);
                  gravity = λ name. removed_gravity id db name l a;
                },
              )
        ]

    pub delete_deny-Good :
        (id : ℕ) (db : GravityDb) (l : BlockingLists Regex)
        → IsOfType trim lower 1 id db
        → IsSound trim lower db
        → Agrees trim lower l db
        → Good (remove_from_denylist id db) l
    unfolding remove_from_denylist remove_from run_tasks apply_blocking_delta delta_of_found
        remove_deny_domain is_entry
    delete_deny-Good id db l t s a =
        elim (Option-cases (find (λ e. e.id == id) (get_domainlist 1 db))) [
          | inl n ↦ rw n (
            removed-IsSound trim lower id db s,
            record {
              allow = λ name. a.allow name ∙ sym (no_row trim lower 1 id 0 name db n t);
              deny = λ name. a.deny name ∙ sym (no_row trim lower 1 id 1 name db n t);
              gravity = λ name. removed_gravity id db name l a;
            },
          )
          | inr f ↦
              let e = f.0 in
              let w : FoundRow trim lower 1 db e =
                All-find (FoundRow trim lower 1 db) (λ e. e.id == id) (get_domainlist 1 db) e
                  (rows-Found trim lower 1 db s) f.1 in
              let i = find-true (λ e. e.id == id) (get_domainlist 1 db) e f.1 in
              let c : IsCanonical trim lower e.domain = w.1.1 (ground (arith, w.0)) in
              rw f.1 (
                removed-IsSound trim lower id db s,
                record {
                  allow = λ name.
                      ground
                        (arith, a.allow name, removed_row trim lower id 0 name e db i w.1.0, w.0);
                  deny = λ name.
                      has_removed e.domain l.denylist_exact name _ c (a.deny name)
                      ∙ ground (arith, removed_row trim lower id 1 name e db i w.1.0, w.0);
                  gravity = λ name. removed_gravity id db name l a;
                },
              )
        ]
