-- ===== src/Gravity/Select.antt =====
-- The queries of `GravityDb` in nimbus-core/src/database/gravity.rs. Where a statement has no
-- ORDER BY, rows come in the order of the table.
use nimbusdns.Common.{
  ℕ, Bool, true, false, ◌&&◌, List, [], ◌∷◌, ◌++◌, map, any, keep, length, take, ◌==◌,
}
use nimbusdns.Common.Text.{Text, same}
use nimbusdns.Gravity.{DomainListEntry, GroupEntry, ClientEntry, AdlistEntry, GravityDb}
use nimbusdns.Gravity.Order.{order_by, distinct, drop}

-- The join of the domain list with its links and the groups, at the rows of enabled groups.
unfoldable pub in_enabled_group : GravityDb → ℕ → ℕ × ℕ → Bool
in_enabled_group db id l = (l.0 == id) && any (λ g. (g.id == l.1) && g.enabled) db.group_table

unfoldable pub joined :
    GravityDb → (DomainListEntry → Bool) → List DomainListEntry → List DomainListEntry
unfolding in_enabled_group
joined db p [] = []
joined db p (e ∷ es) =
    (elim (p e) [
      | true ↦ map (λ _. e) (keep (in_enabled_group db e.id) db.domainlist_by_group)
      | false ↦ []
    ])
    ++ joined db p es

-- `vw_allowlist`, `vw_denylist`, `vw_regex_allowlist` and `vw_regex_denylist`.
unfoldable pub view : ℕ → GravityDb → List DomainListEntry
unfolding joined
view dtype db = joined db (λ e. e.domain_type == dtype) db.domainlist

unfoldable pub is_allowlisted : Text → GravityDb → Bool
unfolding view
is_allowlisted domain db = any (λ e. same domain e.domain) (view 0 db)

unfoldable pub is_exact_denied : Text → GravityDb → Bool
unfolding view
is_exact_denied domain db = any (λ e. same domain e.domain) (view 1 db)

unfoldable pub in_gravity : Text → GravityDb → Bool
unfolding same
in_gravity domain db = any (λ r. same domain r.0) db.gravity

unfoldable pub total_blocked : GravityDb → ℕ
total_blocked db = length db.gravity

unfoldable pub adlist_count : GravityDb → ℕ
adlist_count db = length (keep (λ a. a.enabled) db.adlist)

unfoldable pub get_domainlist_by_type : ℕ → GravityDb → List Text
unfolding joined distinct
get_domainlist_by_type dtype db =
    distinct
      (map (λ e. e.domain) (joined db (λ e. (e.domain_type == dtype) && e.enabled) db.domainlist))

unfoldable pub get_all_gravity_domains : GravityDb → List Text
unfolding distinct
get_all_gravity_domains db = distinct (map (λ r. r.0) db.gravity)

-- The page, and the number of all rows.
unfoldable pub get_gravity_entries : ℕ → ℕ → GravityDb → List Text × ℕ
unfolding order_by drop
get_gravity_entries offset limit db =
    (take limit (drop offset (order_by (λ d. d) (map (λ r. r.0) db.gravity))), length db.gravity)

unfoldable pub get_domainlist : ℕ → GravityDb → List DomainListEntry
unfolding order_by
get_domainlist dtype db =
    order_by (λ e. e.domain) (keep (λ e. e.domain_type == dtype) db.domainlist)

unfoldable pub get_groups : GravityDb → List GroupEntry
unfolding order_by
get_groups db = order_by (λ g. g.name) db.group_table

unfoldable pub get_clients : GravityDb → List ClientEntry
unfolding order_by
get_clients db = order_by (λ c. c.ip) db.client

unfoldable pub get_adlists : GravityDb → List AdlistEntry
unfolding order_by
get_adlists db = order_by (λ a. a.address) db.adlist
