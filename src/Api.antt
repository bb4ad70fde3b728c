-- ===== src/Api.antt =====
-- The handlers of nimbus-api/src/lib.rs: the lists of domains in this file, over the state that they
-- share. A failure of the database is the status 500. The change of the lists in memory is a task of
-- its own: a handler gives it back, and `apply_blocking_delta` runs it.
pub mod Agreement
pub mod Config
mod Tests
use nimbusdns.Common.{
  ℕ, ◌+◌, Bool, true, false, ◌||◌, Option, none, some, List, [], ◌∷◌, ◌++◌, find, leb, ltb, ◌==◌,
  min, max, if◌then◌else◌,
}
use nimbusdns.Common.Text.{Text}
use nimbusdns.Blocking.Lists.{
  BlockingLists, add_allow_domain, remove_allow_domain, add_deny_domain, remove_deny_domain,
}
use nimbusdns.Blocking.Lists
use nimbusdns.Gravity.{
  GravityDb, DomainListEntry, DbResult, done, failed, add_domainlist, remove_domainlist,
  create_group,
}
use nimbusdns.Gravity
use nimbusdns.Gravity.Select.{get_domainlist, get_gravity_entries}

pub data BlockingDelta : Type 0 where
  add_allow remove_allow add_deny remove_deny add_gravity remove_gravity : BlockingDelta

-- The status of a response, with the identifier of a row that was added.
pub data Response : Type 0 where
  ok removed bad_request internal_server_error : Response
  added : ℕ → Response

unfoldable pub of_result : DbResult ℕ → Response
of_result (done id) = added id
of_result (failed e) = internal_server_error

-- The task follows a success.
unfoldable pub delta_of : BlockingDelta → Text → DbResult ℕ → List (BlockingDelta × Text)
delta_of action domain (done id) = (action, domain) ∷ []
delta_of action domain (failed e) = []

unfoldable pub delta_of_found : BlockingDelta → Option DomainListEntry → List (BlockingDelta × Text)
delta_of_found action none = []
delta_of_found action (some e) = (action, e.domain) ∷ []

-- The database after a handler, the response, and the tasks that it starts.
pub record Outcome : Type 0 where
  pub db : GravityDb
  pub response : Response
  pub tasks : List (BlockingDelta × Text)

unfoldable pub add_to : ℕ → BlockingDelta → Text → Option Text → ℕ → GravityDb → Outcome
unfolding add_domainlist of_result delta_of
add_to dtype action domain comment now db =
    let added = add_domainlist dtype domain comment now db in
    record { db = added.0; response = of_result added.1; tasks = delta_of action domain added.1 }

unfoldable pub add_to_allowlist : Text → Option Text → ℕ → GravityDb → Outcome
unfolding add_to
add_to_allowlist domain comment now db = add_to 0 add_allow domain comment now db

unfoldable pub add_to_denylist : Text → Option Text → ℕ → GravityDb → Outcome
unfolding add_to
add_to_denylist domain comment now db = add_to 1 add_deny domain comment now db

unfoldable pub remove_from : ℕ → BlockingDelta → ℕ → GravityDb → Outcome
unfolding delta_of_found
remove_from dtype action id db = record {
  db = remove_domainlist id db;
  response = removed;
  tasks = delta_of_found action (find (λ e. e.id == id) (get_domainlist dtype db));
}

unfoldable pub remove_from_allowlist : ℕ → GravityDb → Outcome
unfolding remove_from
remove_from_allowlist id db = remove_from 0 remove_allow id db

unfoldable pub remove_from_denylist : ℕ → GravityDb → Outcome
unfolding remove_from
remove_from_denylist id db = remove_from 1 remove_deny id db

unfoldable pub post_blocklist_add : Text → GravityDb → Outcome
post_blocklist_add [] db = record { db = db; response = bad_request; tasks = [] }
post_blocklist_add (ch ∷ t) db = record {
  db = Gravity.add_gravity_domain (ch ∷ t) db;
  response = ok;
  tasks = (add_gravity, ch ∷ t) ∷ [];
}

unfoldable pub delete_blocklist_entry : Text → GravityDb → Outcome
delete_blocklist_entry domain db = record {
  db = Gravity.remove_gravity_domain domain db;
  response = removed;
  tasks = (remove_gravity, domain) ∷ [];
}

-- The routes that change the lists.
pub data Request : Type 0 where
  allow deny : Text → Option Text → Request
  delete_allow delete_deny : ℕ → Request
  block unblock : Text → Request

unfoldable pub handle : Request → ℕ → GravityDb → Outcome
unfolding add_to_allowlist add_to_denylist remove_from_allowlist remove_from_denylist
handle (allow domain comment) now db = add_to_allowlist domain comment now db
handle (deny domain comment) now db = add_to_denylist domain comment now db
handle (delete_allow id) now db = remove_from_allowlist id db
handle (delete_deny id) now db = remove_from_denylist id db
handle (block domain) now db = post_blocklist_add domain db
handle (unblock domain) now db = delete_blocklist_entry domain db

unfoldable pub get_domains : GravityDb → List DomainListEntry
get_domains db =
    get_domainlist 0 db ++ (get_domainlist 1 db ++ (get_domainlist 2 db ++ get_domainlist 3 db))

module _ {Regex : Type 0} (re_match : Regex → Text → Bool) (trim lower : Text → Text) where
  unfoldable pub apply_blocking_delta :
      BlockingDelta → Text → BlockingLists Regex → BlockingLists Regex
  apply_blocking_delta add_allow domain l = add_allow_domain re_match trim lower domain l
  apply_blocking_delta remove_allow domain l = remove_allow_domain re_match trim lower domain l
  apply_blocking_delta add_deny domain l = add_deny_domain re_match trim lower domain l
  apply_blocking_delta remove_deny domain l = remove_deny_domain re_match trim lower domain l
  apply_blocking_delta add_gravity domain l = Lists.add_gravity_domain re_match trim lower domain l
  apply_blocking_delta remove_gravity domain l =
      Lists.remove_gravity_domain re_match trim lower domain l

  -- Tasks run one after the other.
  unfoldable pub run_tasks : List (BlockingDelta × Text) → BlockingLists Regex → BlockingLists Regex
  unfolding apply_blocking_delta
  run_tasks [] l = l
  run_tasks ((action, domain) ∷ tasks) l = run_tasks tasks (apply_blocking_delta action domain l)

  -- Requests, each with the time of its handler, where the task of one is done before the next.
  unfoldable pub serve_all :
      List (Request × ℕ) → GravityDb → BlockingLists Regex → GravityDb × BlockingLists Regex
  unfolding handle run_tasks
  serve_all [] db l = (db, l)
  serve_all ((r, now) ∷ rs) db l =
      serve_all rs (handle r now db).db (run_tasks (handle r now db).tasks l)
