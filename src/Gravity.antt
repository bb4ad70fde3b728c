-- ===== src/Gravity.antt =====
-- The tables of the gravity database and the statements that change them, of
-- nimbus-core/src/database/gravity.rs and schema.rs. A table is the list of its rows, the oldest
-- first. An insertion that would break a UNIQUE or a foreign key is an error and leaves the tables
-- as they are; other failures of SQLite are not modelled. A time in seconds is an argument.
pub mod Order
pub mod Pattern
pub mod Select
pub mod Decision
pub mod Rows
pub mod InForce
mod Tests
use nimbusdns.Common.{
  ℕ, ◌+◌, ◌%◌, ◌^◌, Bool, true, false, not, ◌&&◌, ◌||◌, Option, none, some, List, [], ◌∷◌, ◌++◌,
  map, any, keep, length, ◌==◌, is_some, if◌then◌else◌,
}
use nimbusdns.Common.Text.{Text, same, codes}

pub record DomainListEntry : Type 0 where
  pub id : ℕ
  pub domain_type : ℕ
  pub domain : Text
  pub enabled : Bool
  pub date_added : ℕ
  pub date_modified : ℕ
  pub comment : Option Text

pub record GroupEntry : Type 0 where
  pub id : ℕ
  pub name : Text
  pub description : Option Text
  pub enabled : Bool
  pub date_added : ℕ
  pub date_modified : ℕ

pub record ClientEntry : Type 0 where
  pub id : ℕ
  pub ip : Text
  pub comment : Option Text
  pub date_added : ℕ
  pub date_modified : ℕ

pub record AdlistEntry : Type 0 where
  pub id : ℕ
  pub address : Text
  pub comment : Option Text
  pub enabled : Bool
  pub date_added : ℕ
  pub date_modified : ℕ

-- The tables, and the last identifiers that AUTOINCREMENT gave.
pub record GravityDb : Type 0 where
  pub group_table : List GroupEntry
  pub domainlist : List DomainListEntry
  pub domainlist_by_group : List (ℕ × ℕ)
  pub client : List ClientEntry
  pub adlist : List AdlistEntry
  pub gravity : List (Text × ℕ)
  pub last_domain : ℕ
  pub last_group : ℕ

pub data DatabaseError : Type 0 where
  constraint : DatabaseError

pub data DbResult {ℓ} (A : Type ℓ) : Type ℓ where
  done : A → DbResult A
  failed : DatabaseError → DbResult A

-- `INSERT OR IGNORE INTO group_table` and `INSERT OR IGNORE INTO domainlist_by_group` of the schema.
unfoldable pub default_group : ℕ → GroupEntry
default_group now = record {
  id = 0;
  name = codes "Default";
  description = some (codes "The default group");
  enabled = true;
  date_added = now;
  date_modified = now;
}

unfoldable pub add_default_group : ℕ → List GroupEntry → List GroupEntry
unfolding default_group
add_default_group now groups =
    if any (λ g. (g.id == 0) || same g.name (codes "Default")) groups
    then groups
    else default_group now ∷ groups

unfoldable pub is_link : ℕ → ℕ → ℕ × ℕ → Bool
is_link d g l = (l.0 == d) && (l.1 == g)

unfoldable pub add_link : ℕ → ℕ → List (ℕ × ℕ) → List (ℕ × ℕ)
unfolding is_link
add_link d g links = if any (is_link d g) links then links else links ++ (d, g) ∷ []

unfoldable pub link_all : List DomainListEntry → List (ℕ × ℕ) → List (ℕ × ℕ)
unfolding add_link
link_all [] links = links
link_all (e ∷ es) links = link_all es (add_link e.id 0 links)

unfoldable pub create_schema : ℕ → GravityDb → GravityDb
unfolding add_default_group link_all
create_schema now db = record db {
  group_table = add_default_group now db.group_table;
  domainlist_by_group = link_all db.domainlist db.domainlist_by_group;
}

unfoldable pub empty_tables : GravityDb
empty_tables = record {
  group_table = [];
  domainlist = [];
  domainlist_by_group = [];
  client = [];
  adlist = [];
  gravity = [];
  last_domain = 0;
  last_group = 0;
}

-- No text stands twice: PRIMARY KEY(domain, adlist_id), with one adlist.
unfoldable pub all_distinct : List Text → Bool
unfolding same
all_distinct [] = true
all_distinct (d ∷ ds) = not (any (same d) ds) && all_distinct ds

-- The gravity table. The new rows are unique by themselves, for the old ones are deleted first.
unfoldable pub replace_all_gravity : List Text → GravityDb → GravityDb × DbResult (Unit {0})
unfolding all_distinct
replace_all_gravity domains db =
    if all_distinct domains
    then (record db { gravity = map (λ d. (d, 0)) domains }, done tt)
    else (db, failed constraint)

unfoldable pub is_gravity_row : Text → Text × ℕ → Bool
unfolding same
is_gravity_row domain r = same domain r.0 && (r.1 == 0)

unfoldable pub add_gravity_domain : Text → GravityDb → GravityDb
unfolding is_gravity_row
add_gravity_domain domain db =
    if any (is_gravity_row domain) db.gravity
    then db
    else record db { gravity = db.gravity ++ (domain, 0) ∷ [] }

unfoldable pub remove_gravity_domain : Text → GravityDb → GravityDb
unfolding same
remove_gravity_domain domain db = record db {
  gravity = keep (λ r. not (same domain r.0)) db.gravity;
}

-- The domain list: a row is unique by its type and its domain.
unfoldable pub is_entry : ℕ → Text → DomainListEntry → Bool
unfolding same
is_entry dtype domain e = (e.domain_type == dtype) && same domain e.domain

unfoldable pub new_entry : ℕ → ℕ → Text → Option Text → ℕ → DomainListEntry
new_entry id dtype domain comment now = record {
  id = id;
  domain_type = dtype;
  domain = domain;
  enabled = true;
  date_added = now;
  date_modified = now;
  comment = comment;
}

-- Each statement commits by itself: where group 0 is missing, the link fails and the row stays.
unfoldable pub link_entry : ℕ → GravityDb → GravityDb × DbResult ℕ
unfolding add_link
link_entry id db =
    if any (λ g. g.id == 0) db.group_table
    then (
      record db { domainlist_by_group = add_link id 0 db.domainlist_by_group },
      done (id % 2 ^ 32),
    )
    else (db, failed constraint)

unfoldable pub insert_entry : DomainListEntry → GravityDb → GravityDb
insert_entry e db = record db { domainlist = db.domainlist ++ e ∷ []; last_domain = e.id }

unfoldable pub add_domainlist : ℕ → Text → Option Text → ℕ → GravityDb → GravityDb × DbResult ℕ
unfolding is_entry new_entry link_entry insert_entry
add_domainlist dtype domain comment now db =
    let id = db.last_domain + 1 in
    if any (is_entry dtype domain) db.domainlist
    then (db, failed constraint)
    else link_entry id (insert_entry (new_entry id dtype domain comment now) db)

-- With the rows of `domainlist_by_group` that refer to it (ON DELETE CASCADE).
unfoldable pub remove_domainlist : ℕ → GravityDb → GravityDb
remove_domainlist id db = record db {
  domainlist = keep (λ e. not (e.id == id)) db.domainlist;
  domainlist_by_group = keep (λ l. not (l.0 == id)) db.domainlist_by_group;
}

unfoldable pub or_old {ℓ} : {A : Type ℓ} → A → Option A → A
or_old old none = old
or_old old (some a) = a

unfoldable pub set_entry :
    Option Text → Option Bool → Option Text → ℕ → DomainListEntry → DomainListEntry
unfolding or_old
set_entry domain enabled comment now e = record e {
  domain = or_old e.domain domain;
  enabled = or_old e.enabled enabled;
  comment = elim comment [ none ↦ e.comment | some c ↦ some c ];
  date_modified = now;
}

-- Another row has the new domain, in the type of the row that is changed.
unfoldable pub collides : ℕ → Option Text → List DomainListEntry → Bool
unfolding is_entry
collides id none rows = false
collides id (some d) rows =
    any (λ e. (e.id == id) && any (λ o. not (o.id == id) && is_entry e.domain_type d o) rows) rows

unfoldable pub update_domainlist :
    ℕ → Option Text → Option Bool → Option Text → ℕ → GravityDb → GravityDb × DbResult (Unit {0})
unfolding set_entry collides
update_domainlist id domain enabled comment now db =
    if not (is_some domain || is_some enabled || is_some comment)
    then (db, done tt)
    else if collides id domain db.domainlist
    then (db, failed constraint)
    else (
      record db {
        domainlist =
            map (λ e. if e.id == id then set_entry domain enabled comment now e else e)
              db.domainlist;
      },
      done tt,
    )

unfoldable pub create_group : Text → Option Text → ℕ → GravityDb → GravityDb × DbResult ℕ
unfolding same
create_group name description now db =
    let id = db.last_group + 1 in
    if any (λ g. same name g.name) db.group_table then (db, failed constraint) else (
      record db {
        group_table =
            db.group_table
            ++ record {
              id = id;
              name = name;
              description = description;
              enabled = true;
              date_added = now;
              date_modified = now;
            }
              ∷ [];
        last_group = id;
      },
      done (id % 2 ^ 32),
    )
