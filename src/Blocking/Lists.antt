-- ===== src/Blocking/Lists.antt =====
-- `BlockingLists` of nimbus-core/src/blocking/mod.rs: the decision on a name, and the updates of one
-- domain. `Regex` and its `is_match` are arguments, as are `str::trim` and `str::to_lowercase`.
pub mod Decision
pub mod Updates
use Prim.Native.String.{String}
use nimbusdns.Common.{
  ℕ, ◌+◌, ◌-◌, Bool, true, false, not, List, [], ◌∷◌, any, keep, ◌==◌, if◌then◌else◌,
}
use nimbusdns.Blocking.Wildcard.{Text, dot, same, has, is_match}

-- `DashSet::insert` and `DashSet::remove`.
unfoldable pub add_text : Text → List Text → List Text
add_text x set = if has x set then set else x ∷ set

unfoldable pub remove_text : Text → List Text → List Text
remove_text x set = keep (λ y. not (same x y)) set

pub record BlockingLists (Regex : Type 0) : Type 0 where
  pub allowlist_exact : List Text
  pub denylist_exact : List Text
  pub allowlist_regex : List Regex
  pub denylist_regex : List Regex
  pub gravity_exact : List Text
  pub wildcard_deny : List Text
  pub total_blocked : ℕ
  pub adlist_count : ℕ

pub data BlockingDecision : Type 0 where
  not_blocked allowlisted blocked_by_regex : BlockingDecision
  blocked : String → BlockingDecision

unfoldable pub is_blocked : BlockingDecision → Bool
is_blocked not_blocked = false
is_blocked allowlisted = false
is_blocked _ = true

-- `trim_end_matches('.')`
unfoldable pub cons_unless_dot : ℕ → Text → Text
cons_unless_dot ch [] = if ch == dot then [] else ch ∷ []
cons_unless_dot ch (d ∷ ds) = ch ∷ d ∷ ds

unfoldable pub trim_dots : Text → Text
unfolding cons_unless_dot
trim_dots [] = []
trim_dots (ch ∷ text) = cons_unless_dot ch (trim_dots text)

module _ {Regex : Type 0} (re_match : Regex → Text → Bool) (trim lower : Text → Text) where
  unfoldable pub check_blocked : BlockingLists Regex → Text → BlockingDecision
  check_blocked l domain =
      let name = lower (trim_dots domain) in
      if has name l.allowlist_exact
      then allowlisted
      else if any (λ re. re_match re name) l.allowlist_regex
      then allowlisted
      else if has name l.denylist_exact
      then blocked "exact"
      else if has name l.gravity_exact
      then blocked "gravity"
      else if is_match l.wildcard_deny name
      then blocked "wildcard"
      else if any (λ re. re_match re name) l.denylist_regex
      then blocked_by_regex
      else not_blocked

  unfoldable pub add_allow_domain : Text → BlockingLists Regex → BlockingLists Regex
  add_allow_domain domain l = record l {
    allowlist_exact = add_text (lower (trim domain)) l.allowlist_exact;
  }

  unfoldable pub remove_allow_domain : Text → BlockingLists Regex → BlockingLists Regex
  remove_allow_domain domain l = record l {
    allowlist_exact = remove_text (trim domain) l.allowlist_exact;
  }

  unfoldable pub add_deny_domain : Text → BlockingLists Regex → BlockingLists Regex
  add_deny_domain domain l =
      let d = lower (trim domain) in
      record l {
        denylist_exact = add_text d l.denylist_exact;
        total_blocked = if has d l.denylist_exact then l.total_blocked else l.total_blocked + 1;
      }

  unfoldable pub remove_deny_domain : Text → BlockingLists Regex → BlockingLists Regex
  remove_deny_domain domain l =
      let d = trim domain in
      record l {
        denylist_exact = remove_text d l.denylist_exact;
        total_blocked = if has d l.denylist_exact then l.total_blocked - 1 else l.total_blocked;
      }

  unfoldable pub add_gravity_domain : Text → BlockingLists Regex → BlockingLists Regex
  add_gravity_domain domain l =
      let d = lower (trim domain) in
      record l {
        gravity_exact = add_text d l.gravity_exact;
        total_blocked = if has d l.gravity_exact then l.total_blocked else l.total_blocked + 1;
      }

  unfoldable pub remove_gravity_domain : Text → BlockingLists Regex → BlockingLists Regex
  remove_gravity_domain domain l =
      let d = trim domain in
      record l {
        gravity_exact = remove_text d l.gravity_exact;
        total_blocked = if has d l.gravity_exact then l.total_blocked - 1 else l.total_blocked;
      }
