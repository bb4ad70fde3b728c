-- ===== src/Api/Agreement/Blocks.antt =====
-- The handlers of the blocklist, `POST /api/blocklist` and `DELETE /api/blocklist/{domain}`, keep memory and
-- database in agreement for a name that is no wildcard.
use nimbusdns.Common.{
  ℕ, subst, All-imp, ◌≡◌, refl, sym, ap, ◌∙◌, inl, inr, Bool, true, false, not, ◌&&◌, ◌||◌, List,
  [], ◌∷◌, any, All-keep, All-append, arith, Bool-cases,
}
use nimbusdns.Common.Text.{Text, same, text_discrete}
use nimbusdns.Blocking.Lists
use nimbusdns.Blocking.Lists.{BlockingLists}
use nimbusdns.Blocking.Loading.{is_wildcard}
use nimbusdns.Gravity.{
  GravityDb, DomainListEntry, is_gravity_row, add_gravity_domain, remove_gravity_domain,
}
use nimbusdns.Common.Any.{any-append, any-keep, any-eq}
use nimbusdns.Gravity.Rows.{is_active}
use nimbusdns.Api.{post_blocklist_add, delete_blocklist_entry, run_tasks, apply_blocking_delta}
use nimbusdns.Api.Agreement.Domains.{IsSound, Agrees}
use nimbusdns.Api.Agreement.Loaded.{IsCanonical, is_exact}
use nimbusdns.Api.Agreement.Requests.{Good, has_added, has_removed}

module _ (trim lower : Text → Text) where
  exact_same :
      (name d : Text)
      → IsCanonical trim lower d
      → is_exact trim lower name d ≡ (not (is_wildcard d) && same name d)
  unfolding is_exact
  exact_same name d c =
      ap (λ x. not (is_wildcard x) && same name (lower x)) c.0
      ∙ ap (λ x. not (is_wildcard d) && same name x) c.1

  add_gravity-IsSound :
      (d : Text) (db : GravityDb)
      → IsCanonical trim lower d
      → IsSound trim lower db
      → IsSound trim lower (add_gravity_domain d db)
  unfolding add_gravity_domain
  add_gravity-IsSound d db c s = elim (Bool-cases (any (is_gravity_row d) db.gravity)) [
    | inl t ↦ rw t s
    | inr f ↦ rw f (record {
      ok = record {
        default_group = s.ok.default_group;
        linked = s.ok.linked;
        unique = s.ok.unique;
      };
      rows = s.rows;
      gravity = All-append _ db.gravity _ s.gravity (c, tt);
    })
  ]

  present_row :
      (p : Text → Bool) (d : Text) (rows : List (Text × ℕ))
      → any (is_gravity_row d) rows ≡ true
      → any (λ r. p r.0) rows ≡ (any (λ r. p r.0) rows || p d)
  unfolding is_gravity_row same
  present_row p d [] h = cc
  present_row p d (r ∷ rows) h = elim (text_discrete d r.0) [
    | yes q ↦
        subst (λ x. any (λ r. p r.0) (r ∷ rows) ≡ (any (λ r. p r.0) (r ∷ rows) || p x)) (sym q)
          (ground arith)
    | no n ↦ ground (arith, present_row p d rows)
  ]

  any-add_gravity :
      (p : Text → Bool) (d : Text) (db : GravityDb)
      → any (λ r. p r.0) (add_gravity_domain d db).gravity ≡ (any (λ r. p r.0) db.gravity || p d)
  unfolding add_gravity_domain
  any-add_gravity p d db = elim (Bool-cases (any (is_gravity_row d) db.gravity)) [
    | inl t ↦ rw t (present_row p d db.gravity t)
    | inr f ↦ rw f (ground (arith, any-append (λ r. p r.0) db.gravity ((d, 0) ∷ [])))
  ]

  any-and :
      (b : Bool) (p : Text × ℕ → Bool) (rows : List (Text × ℕ))
      → any (λ r. b && p r) rows ≡ (b && any p rows)
  any-and b p [] = ground arith
  any-and b p (r ∷ rows) = ground (arith, any-and b p rows)

  kept_row :
      (name d x : Text)
      → IsCanonical trim lower x
      → (not (same d x) && is_exact trim lower name x)
        ≡ (not (same name d) && is_exact trim lower name x)
  unfolding same
  kept_row name d x c =
      ground
        (arith, exact_same name x c, text_discrete d x, text_discrete name d, text_discrete name x)

  any-remove_gravity :
      (name d : Text) (db : GravityDb)
      → IsSound trim lower db
      → any (λ r. is_exact trim lower name r.0) (remove_gravity_domain d db).gravity
        ≡ (not (same name d) && any (λ r. is_exact trim lower name r.0) db.gravity)
  unfolding remove_gravity_domain
  any-remove_gravity name d db s =
      any-keep (λ r. is_exact trim lower name r.0) (λ r. not (same d r.0)) db.gravity
      ∙ any-eq (λ r. not (same d r.0) && is_exact trim lower name r.0)
          (λ r. not (same name d) && is_exact trim lower name r.0) db.gravity
          (All-imp _ (λ r c. kept_row name d r.0 c) db.gravity s.gravity)
      ∙ any-and (not (same name d)) (λ r. is_exact trim lower name r.0) db.gravity

  same_rows :
      (p : DomainListEntry → Bool) (d : Text) (db : GravityDb)
      → any p (add_gravity_domain d db).domainlist ≡ any p db.domainlist
  unfolding add_gravity_domain
  same_rows p d db = elim (Bool-cases (any (is_gravity_row d) db.gravity)) [
    | inl t ↦ rw t refl
    | inr f ↦ rw f refl
  ]

  kept_domains :
      (p : DomainListEntry → Bool) (d : Text) (db : GravityDb) {b : Bool}
      → b ≡ any p db.domainlist
      → b ≡ any p (remove_gravity_domain d db).domainlist
  unfolding remove_gravity_domain
  kept_domains p d db h = h

  remove_gravity-IsSound :
      (d : Text) (db : GravityDb)
      → IsSound trim lower db
      → IsSound trim lower (remove_gravity_domain d db)
  unfolding remove_gravity_domain
  remove_gravity-IsSound d db s = record {
    ok = record { default_group = s.ok.default_group; linked = s.ok.linked; unique = s.ok.unique };
    rows = s.rows;
    gravity = All-keep _ _ db.gravity s.gravity;
  }

  module _ {Regex : Type 0} (re_match : Regex → Text → Bool) where
    pub block-Good :
        (d : Text) (db : GravityDb) (l : BlockingLists Regex)
        → IsCanonical trim lower d
        → is_wildcard d ≡ false
        → IsSound trim lower db
        → Agrees trim lower l db
        → Good trim lower re_match (post_blocklist_add d db) l
    unfolding post_blocklist_add run_tasks apply_blocking_delta Lists.add_gravity_domain
    block-Good [] db l c w s a = (s, a)
    block-Good (ch ∷ t) db l c w s a =
        let d = ch ∷ t in
        (
          add_gravity-IsSound d db c s,
          record {
            allow = λ name. a.allow name ∙ sym (same_rows _ d db);
            deny = λ name. a.deny name ∙ sym (same_rows _ d db);
            gravity = λ name.
                has_added trim lower re_match d l.gravity_exact name _ c (a.gravity name)
                ∙ ground (
                  arith,
                  any-add_gravity (is_exact trim lower name) d db,
                  exact_same name d c,
                  w,
                );
          },
        )

    pub unblock-Good :
        (d : Text) (db : GravityDb) (l : BlockingLists Regex)
        → IsCanonical trim lower d
        → IsSound trim lower db
        → Agrees trim lower l db
        → Good trim lower re_match (delete_blocklist_entry d db) l
    unfolding delete_blocklist_entry run_tasks apply_blocking_delta Lists.remove_gravity_domain
    unblock-Good d db l c s a = (
      remove_gravity-IsSound d db s,
      record {
        allow = λ name. kept_domains (is_active 0 name) d db (a.allow name);
        deny = λ name. kept_domains (is_active 1 name) d db (a.deny name);
        gravity = λ name.
            has_removed trim lower re_match d l.gravity_exact name _ c (a.gravity name)
            ∙ sym (any-remove_gravity name d db s);
      },
    )
