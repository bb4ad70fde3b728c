-- ===== src/Api/Agreement/Runs.antt =====
-- Runs of the handlers of nimbus-api/src/lib.rs that change a list.
use nimbusdns.Common.{ℕ, ◌≡◌, sym, ◌∙◌, Bool, false, List, [], ◌∷◌}
use nimbusdns.Common.Text.{Text}
use nimbusdns.Blocking.Wildcard.{has}
use nimbusdns.Blocking.Lists.{BlockingLists}
use nimbusdns.Blocking.Loading.{RegexCrate, load, is_wildcard}
use nimbusdns.Gravity.{GravityDb}
use nimbusdns.Api.{
  Request, allow, deny, delete_allow, delete_deny, block, unblock, handle, serve_all,
}
use nimbusdns.Api.Agreement.Domains.{IsSound, Agrees, load-Agrees}
use nimbusdns.Api.Agreement.Loaded.{IsCanonical}
use nimbusdns.Api.Agreement.Requests.{
  Good, allow-Good, deny-Good, delete_allow-Good, delete_deny-Good,
}
use nimbusdns.Api.Agreement.Rows.{IsOfType}
use nimbusdns.Api.Agreement.Blocks.{block-Good, unblock-Good}

module _ (trim lower : Text → Text) where
  -- A request names a domain in canonical form, and no wildcard for the blocklist; the identifier of
  -- a removal is no row's of another list.
  abbrev pub IsProper : GravityDb → Request → Type 0
  IsProper db (allow domain comment) = IsCanonical trim lower domain
  IsProper db (deny domain comment) = IsCanonical trim lower domain
  IsProper db (delete_allow id) = IsOfType trim lower 0 id db
  IsProper db (delete_deny id) = IsOfType trim lower 1 id db
  IsProper db (block domain) = IsCanonical trim lower domain × (is_wildcard domain ≡ false)
  IsProper db (unblock domain) = IsCanonical trim lower domain

  -- Each request is proper when its turn comes.
  abbrev pub AreProper : GravityDb → List (Request × ℕ) → Type 0
  AreProper db [] = Unit
  AreProper db ((r, now) ∷ rs) = IsProper db r × AreProper (handle r now db).db rs

  module _ {Regex : Type 0} (re_match : Regex → Text → Bool) where
    handle-Good :
        (r : Request) (now : ℕ) (db : GravityDb) (l : BlockingLists Regex)
        → IsProper db r
        → IsSound trim lower db
        → Agrees trim lower l db
        → Good trim lower re_match (handle r now db) l
    unfolding handle
    handle-Good (allow d c) now db l p s a = allow-Good trim lower re_match d c now db l p s a
    handle-Good (deny d c) now db l p s a = deny-Good trim lower re_match d c now db l p s a
    handle-Good (delete_allow id) now db l p s a =
        delete_allow-Good trim lower re_match id db l p s a
    handle-Good (delete_deny id) now db l p s a = delete_deny-Good trim lower re_match id db l p s a
    handle-Good (block d) now db l p s a = block-Good trim lower re_match d db l p.0 p.1 s a
    handle-Good (unblock d) now db l p s a = unblock-Good trim lower re_match d db l p s a

    run-Good :
        (rs : List (Request × ℕ)) (db : GravityDb) (l : BlockingLists Regex)
        → AreProper db rs
        → IsSound trim lower db
        → Agrees trim lower l db
        → IsSound trim lower (serve_all re_match trim lower rs db l).0
          × Agrees trim lower
              (serve_all re_match trim lower rs db l).1
              (serve_all re_match trim lower rs db l).0
    unfolding serve_all
    run-Good [] db l p s a = (s, a)
    run-Good ((r, now) ∷ rs) db l p s a =
        let g = handle-Good r now db l p.0 s a in run-Good rs (handle r now db).db _ p.1 g.0 g.1

  -- The exact lists hold the name alike.
  abbrev pub SameNames :
      {Regex : Type 0} → Text → BlockingLists Regex → BlockingLists Regex → Type 0
  SameNames name l k =
      (has name l.allowlist_exact ≡ has name k.allowlist_exact)
      × ((has name l.denylist_exact ≡ has name k.denylist_exact)
          × (has name l.gravity_exact ≡ has name k.gravity_exact))

  -- After any run of proper requests from a sound database and the lists loaded from it, where the
  -- task of each request is done before the next, the exact lists in memory hold the same names as
  -- the lists that `load` would read from the database.
  pub serve_all-load :
      {Regex : Type 0} (re : RegexCrate Regex) (rs : List (Request × ℕ)) (db : GravityDb)
      (name : Text)
      → AreProper db rs
      → IsSound trim lower db
      → SameNames name
          (serve_all re.re_match trim lower rs db (load re trim lower db)).1
          (load re trim lower (serve_all re.re_match trim lower rs db (load re trim lower db)).0)
  serve_all-load re rs db name p s =
      let g =
        run-Good re.re_match rs db (load re trim lower db) p s (load-Agrees trim lower re db s) in
      let fresh = load-Agrees trim lower re _ g.0 in
      (
        g.1.allow name ∙ sym (fresh.allow name),
        (g.1.deny name ∙ sym (fresh.deny name), g.1.gravity name ∙ sym (fresh.gravity name)),
      )
