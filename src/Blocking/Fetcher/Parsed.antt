-- ===== src/Blocking/Fetcher/Parsed.antt =====
-- What `parse_hosts_file` and `fetch_and_import` of nimbus-core/src/blocking/fetcher.rs return.
use nimbusdns.Common.{
  ◌≡◌, refl, ap, ◌∙◌, Bool, true, false, ◌||◌, Option, none, some, List, [], ◌∷◌, ◌++◌, map, any,
  length, ltb, arith, inl, inr, Bool-cases, if◌then◌else◌, if_elim,
}
use nimbusdns.Common.Text.{Text, same, text_discrete}
use nimbusdns.Blocking.Wildcard.{has}
use nimbusdns.Blocking.Lists.Updates.{Distinct}
use nimbusdns.Blocking.Fetcher.{
  domain_of_line, push_domain, parse_lines, parse_hosts_file, lines, body, fetch_and_import,
  import_domains, is_done, min_domains,
}
use nimbusdns.Gravity.{GravityDb, replace_all_gravity, all_distinct}

module _ (lower : Text → Text) where
  -- The line gives the name.
  unfoldable pub gives : Text → Option Text → Bool
  gives name none = false
  gives name (some d) = same name (lower d)

  has-append :
      (name d : Text) (ds : List Text) → has name (ds ++ d ∷ []) ≡ (has name ds || same name d)
  unfolding has
  has-append name d [] = ground arith
  has-append name d (e ∷ ds) = ground (arith, has-append name d ds)

  other :
      (name d : Text) (ds : List Text)
      → ((name ≡ d) → ⊥)
      → has name ds ≡ (has name ds || same name d)
  unfolding same
  other name d ds n = ground (arith, n, text_discrete name d)

  has-push :
      (name : Text) (o : Option Text) (ds : List Text)
      → has name (push_domain lower o ds) ≡ (has name ds || gives name o)
  unfolding push_domain gives
  has-push name none ds = ground arith
  has-push name (some d) ds = elim (Bool-cases (has (lower d) ds)) [
    | inl t ↦ elim (text_discrete name (lower d)) [
      | yes p ↦ rw t (ground (arith, ap (λ x. has x ds) p, t))
      | no n ↦ rw t (other name (lower d) ds n)
    ]
    | inr f ↦ rw f (has-append name (lower d) ds)
  ]

  pub has-parse_lines :
      (name : Text) (ls ds : List Text)
      → has name (parse_lines lower ls ds)
        ≡ (has name ds || any (λ line. gives name (domain_of_line line)) ls)
  unfolding parse_lines
  has-parse_lines name [] ds = ground arith
  has-parse_lines name (l ∷ ls) ds =
      has-parse_lines name ls (push_domain lower (domain_of_line l) ds)
      ∙ ground (arith, has-push name (domain_of_line l) ds)

  fresh :
      (d e : Text) (ds : List Text)
      → (same d e || has d ds) ≡ false
      → has e ds ≡ false
      → has e (ds ++ d ∷ []) ≡ false
  unfolding same
  fresh d e ds h k = ground (arith, h, k, has-append e d ds, text_discrete d e, text_discrete e d)

  append-Distinct :
      (d : Text) (ds : List Text) → has d ds ≡ false → Distinct ds → Distinct (ds ++ d ∷ [])
  unfolding has
  append-Distinct d [] h k = (refl, tt)
  append-Distinct d (e ∷ ds) h k =
      (fresh d e ds h k.0, append-Distinct d ds (ground (arith, h)) k.1)

  push-Distinct :
      (o : Option Text) (ds : List Text) → Distinct ds → Distinct (push_domain lower o ds)
  unfolding push_domain
  push-Distinct none ds k = k
  push-Distinct (some d) ds k =
      if_elim Distinct (has (lower d) ds) (λ t. k) (λ f. append-Distinct (lower d) ds f k)

  parse_lines-Distinct : (ls ds : List Text) → Distinct ds → Distinct (parse_lines lower ls ds)
  unfolding parse_lines
  parse_lines-Distinct [] ds k = k
  parse_lines-Distinct (l ∷ ls) ds k =
      parse_lines-Distinct ls (push_domain lower (domain_of_line l) ds)
        (push-Distinct (domain_of_line l) ds k)

  -- The list has no name twice, and has exactly the names, in lower case, that some line gives.
  pub parse_hosts_file-Distinct :
      (content name : Text)
      → Distinct (parse_hosts_file lower content)
        × (has name (parse_hosts_file lower content)
            ≡ any (λ line. gives name (domain_of_line line)) (lines content))
  unfolding parse_hosts_file has
  parse_hosts_file-Distinct content name = (
    parse_lines-Distinct (lines content) [] tt,
    ground (arith, has-parse_lines name (lines content) []),
  )

Distinct-all_distinct : (ds : List Text) → Distinct ds → all_distinct ds ≡ true
unfolding all_distinct has
Distinct-all_distinct [] k = refl
Distinct-all_distinct (d ∷ ds) k = ground (arith, k.0, Distinct-all_distinct ds k.1)

-- A body is imported exactly if at least 1000 domains are read from it, whatever the table held: then
-- the gravity table has those domains and no others, and else the database is as it was.
pub fetch_and_import_all :
    (lower : Text → Text) (content : Text) (db : GravityDb)
    → fetch_and_import lower (body content) db ≡ (
        if ltb (length (parse_hosts_file lower content)) min_domains
        then (db, false)
        else (record db { gravity = map (λ d. (d, 0)) (parse_hosts_file lower content) }, true))
unfolding fetch_and_import import_domains replace_all_gravity is_done
fetch_and_import_all lower content db =
    let k = parse_hosts_file-Distinct lower content [] in
    rw (Distinct-all_distinct (parse_hosts_file lower content) k.0) refl
