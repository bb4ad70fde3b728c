-- ===== src/Api/Agreement/Loaded.antt =====
-- The names that `BlockingLists::load` of nimbus-core/src/blocking/mod.rs puts into memory.
use nimbusdns.Common.{
  ℕ, ◌+◌, ◌≡◌, refl, ◌∙◌, inl, inr, Bool, not, ◌&&◌, ◌||◌, List, [], ◌∷◌, any, arith, Bool-cases,
}
use nimbusdns.Common.Text.{Text, same, text_discrete}
use nimbusdns.Blocking.Wildcard.{has}
use nimbusdns.Blocking.Lists.{add_text}
use nimbusdns.Blocking.Lists.Updates.{has-add_text}
use nimbusdns.Blocking.Loading.{RegexCrate, load, insert_lower, load_gravity, is_wildcard}
use nimbusdns.Gravity.{GravityDb}
use nimbusdns.Gravity.Select.{get_domainlist_by_type, get_all_gravity_domains}

pub same_sym : (x y : Text) → same x y ≡ same y x
unfolding same
same_sym x y = ground (arith, text_discrete x y, text_discrete y x)

module _ (trim lower : Text → Text) where
  -- Trimmed and in lower case.
  abbrev pub IsCanonical : Text → Type 0
  IsCanonical d = (trim d ≡ d) × (lower d ≡ d)

module _ (lower : Text → Text) where
  has-insert_lower :
      (name : Text) (ds set : List Text)
      → has name (insert_lower lower ds set) ≡ (any (λ d. same name (lower d)) ds || has name set)
  unfolding insert_lower
  has-insert_lower name [] set = refl
  has-insert_lower name (d ∷ ds) set =
      has-insert_lower name ds (add_text (lower d) set)
      ∙ ground (arith, has-add_text (lower d) name set, same_sym (lower d) name)

module _ (trim lower : Text → Text) where
  -- A gravity domain that is in memory under the name.
  unfoldable pub is_exact : Text → Text → Bool
  is_exact name d = not (is_wildcard (trim d)) && same name (lower (trim d))

  has-load_gravity :
      (name : Text) (ds exact wild : List Text) (count : ℕ)
      → has name (load_gravity trim lower ds exact wild count).0
        ≡ (any (is_exact name) ds || has name exact)
  unfolding load_gravity is_exact
  has-load_gravity name [] exact wild count = refl
  has-load_gravity name (d ∷ ds) exact wild count = elim (Bool-cases (is_wildcard (trim d))) [
    | inl t ↦ rw t (has-load_gravity name ds exact _ (count + 1))
    | inr f ↦ rw f (
        has-load_gravity name ds (add_text (lower (trim d)) exact) wild count
        ∙ ground (arith, has-add_text (lower (trim d)) name exact, same_sym (lower (trim d)) name))
  ]

module _ (trim lower : Text → Text) {Regex : Type 0} (re : RegexCrate Regex) where
  -- The exact lists in memory hold the names of the active rows, in lower case.
  pub load-deny :
      (db : GravityDb) (name : Text)
      → has name (load re trim lower db).denylist_exact
        ≡ any (λ d. same name (lower d)) (get_domainlist_by_type 1 db)
  unfolding load has
  load-deny db name = ground (arith, has-insert_lower lower name (get_domainlist_by_type 1 db) [])

  pub load-allow :
      (db : GravityDb) (name : Text)
      → has name (load re trim lower db).allowlist_exact
        ≡ any (λ d. same name (lower d)) (get_domainlist_by_type 0 db)
  unfolding load has
  load-allow db name = ground (arith, has-insert_lower lower name (get_domainlist_by_type 0 db) [])

  pub load-gravity :
      (db : GravityDb) (name : Text)
      → has name (load re trim lower db).gravity_exact
        ≡ any (is_exact trim lower name) (get_all_gravity_domains db)
  unfolding load has
  load-gravity db name =
      ground (arith, has-load_gravity trim lower name (get_all_gravity_domains db) [] [] 0)
