-- ===== src/Api/Config.antt =====
-- The configuration routes of nimbus-api/src/lib.rs: `json_merge`, `strip_secrets_from_config`, `get_config`,
-- `get_config_element` and `update_config`. A JSON object is the list of its fields; what serde does
-- between a `Config`, JSON and TOML is an argument, and so is how the write of the file ends.
pub mod Secrets
mod Tests
use nimbusdns.Common.{ℕ, Bool, true, false, Option, none, some, is_some, if◌then◌else◌}
use nimbusdns.Common.Text.{Text, same, codes}
use nimbusdns.Config.{Config, DhcpConfig, Result}
use nimbusdns.Config
use nimbusdns.Config.Env.{validate}
use nimbusdns.Queries.{QueryDb, delete_old_queries}

mutual
  pub data Json : Type 0 where
    null : Json
    bool : Bool → Json
    number : ℕ → Json
    text : Text → Json
    array : Items → Json
    object : Fields → Json

  pub data Items : Type 0 where
    end : Items
    item : Json → Items → Items

  pub data Fields : Type 0 where
    no_fields : Fields
    field : Text → Json → Fields → Fields

unfoldable pub is_null : Json → Bool
is_null null = true
is_null _ = false

-- `Map::get`, `Map::remove`, and `Map::insert` at a key that may be there.
unfoldable pub get : Text → Fields → Option Json
unfolding same
get k no_fields = none
get k (field j v fs) = let rest = get k fs in if same k j then some v else rest

unfoldable pub remove : Text → Fields → Fields
unfolding same
remove k no_fields = no_fields
remove k (field j v fs) = let rest = remove k fs in if same k j then rest else field j v rest

unfoldable pub put : Text → Json → Fields → Fields
unfolding same
put k w no_fields = field k w no_fields
put k w (field j v fs) = let rest = put k w fs in if same k j then field j w fs else field j v rest

-- `*a.entry(k).or_insert(Null)`
unfoldable pub or_null : Option Json → Json
or_null none = null
or_null (some v) = v

unfoldable mutual
  unfolding get put remove or_null is_null

  pub json_merge : Json → Json → Json
  json_merge a null = null
  json_merge a (bool b) = bool b
  json_merge a (number n) = number n
  json_merge a (text t) = text t
  json_merge a (array items) = array items
  json_merge (object xs) (object ys) = object (merge_fields xs ys)
  json_merge _ (object ys) = object ys

  pub merge_fields : Fields → Fields → Fields
  merge_fields xs no_fields = xs
  merge_fields xs (field k v ys) =
      let merged = json_merge (or_null (get k xs)) v in
      let removed = merge_fields (remove k xs) ys in
      let kept = merge_fields (put k merged xs) ys in if is_null v then removed else kept

unfoldable pub strip_section : Option Json → Fields → Fields
unfolding put remove
strip_section (some (object ws)) fs =
    put (codes "webserver") (object (remove (codes "password-hash") ws)) fs
strip_section _ fs = fs

unfoldable pub strip_secrets_from_config : Json → Json
unfolding strip_section get
strip_secrets_from_config (object fs) = object (strip_section (get (codes "webserver") fs) fs)
strip_secrets_from_config json = json

-- Serde: a `Config` as JSON, JSON that is a `Config`, and a `Config` as TOML.
pub record Serde : Type 0 where
  pub to_value : Config → Json
  pub from_value : Json → Option Config
  pub to_string_pretty : Config → Option Text

unfoldable pub get_config : Serde → Config → Json
unfolding strip_secrets_from_config
get_config serde cfg = strip_secrets_from_config (serde.to_value cfg)

-- `Value::get`
unfoldable pub field_of : Text → Json → Option Json
unfolding get
field_of k (object fs) = get k fs
field_of k _ = none

unfoldable pub get_config_element : Serde → Text → Config → Option Json
unfolding get_config field_of
get_config_element serde element cfg = field_of element (get_config serde cfg)

pub record State : Type 0 where
  pub config : Config
  pub file : Text
  pub dhcp_config : Option DhcpConfig
  pub nimbus_db : QueryDb

pub data Response : Type 0 where
  updated bad_request internal_server_error : Response

unfoldable pub sync_dhcp : Bool → DhcpConfig → Option DhcpConfig → Option DhcpConfig
sync_dhcp true new (some old) = some new
sync_dhcp _ new old = old

-- How `std::fs::write` ends: all is written, or it fails, and the file then holds the given text. It
-- truncates the file first, so that may be less than there was.
pub data WriteOutcome : Type 0 where
  complete : WriteOutcome
  incomplete : Text → WriteOutcome

-- The file after the write, and whether there was no error.
unfoldable pub write_text : WriteOutcome → Option Text → Text → Text × Bool
write_text outcome none old = (old, false)
write_text complete (some toml_str) old = (toml_str, true)
write_text (incomplete left) (some toml_str) old = (left, false)

unfoldable pub write_config_file : Serde → Config → WriteOutcome → Text → Text × Bool
unfolding write_text
write_config_file serde new outcome old = write_text outcome (serde.to_string_pretty new) old

-- The purge of the query log runs as a task of its own; here it is done at once.
unfoldable pub store_config : Json → Config → ℕ → State → Text × Bool → State × Response
unfolding sync_dhcp field_of
store_config body new now s (file, true) = (
  record s {
    config = new;
    file = file;
    dhcp_config = sync_dhcp (is_some (field_of (codes "dhcp") body)) new.dhcp s.dhcp_config;
    nimbus_db = if new.dns.query_log then s.nimbus_db else (delete_old_queries now 0 s.nimbus_db).0;
  },
  updated,
)
store_config body new now s (file, false) = (record s { file = file }, internal_server_error)

unfoldable pub accept_config :
    Serde → Json → Config → WriteOutcome → ℕ → State → Result (Unit {0}) → State × Response
unfolding store_config write_config_file
accept_config serde body new outcome now s (Config.err e) = (s, bad_request)
accept_config serde body new outcome now s (Config.ok _) =
    store_config body new now s (write_config_file serde new outcome s.file)

unfoldable pub apply_config :
    Serde → Json → Option Config → WriteOutcome → ℕ → State → State × Response
unfolding accept_config
apply_config serde body none outcome now s = (s, bad_request)
apply_config serde body (some new) outcome now s =
    accept_config serde body new outcome now s (validate new)

unfoldable pub update_config : Serde → Json → WriteOutcome → ℕ → State → State × Response
unfolding apply_config strip_secrets_from_config
update_config serde request outcome now s =
    let body = strip_secrets_from_config request in
    apply_config serde body (serde.from_value (json_merge (serde.to_value s.config) body)) outcome
      now s
