-- ===== src/Api/Config/Tests.antt =====
-- Patches of a configuration.
use nimbusdns.Common.{◌≡◌, refl, inr, false, none, some, []}
use nimbusdns.Common.Text.{codes, same}
use nimbusdns.Config.Defaults.{Host, default_config}
use nimbusdns.Config.Validity.{IsValid, default_config-IsValid}
use nimbusdns.Queries.{empty_tables}
use nimbusdns.Api.Config.{
  null, text, number, object, Fields, no_fields, field, json_merge, strip_secrets_from_config,
  field_of, get, Serde, State, incomplete, update_config,
}
use nimbusdns.Api.Config.Secrets.{
  hash_of, IsUpdate, json_merge-strip_secrets_from_config, update_config-IsValid,
}

abbrev section : Fields
section = field (codes "password-hash") (text (codes "secret")) no_fields

abbrev current : Fields
current = field (codes "webserver") (object section) no_fields

-- A patch with another hash, and another time of sessions.
abbrev patch : Fields
patch =
    field (codes "webserver")
      (object (
        field (codes "password-hash") (text (codes "mine"))
          (field (codes "session-timeout") (number 60) no_fields)))
      no_fields

json_merge-strip_secrets_from_config_example :
    hash_of (
      field_of
        (codes "webserver")
        (json_merge (object current) (strip_secrets_from_config (object patch))))
    ≡ hash_of (field_of (codes "webserver") (object current))
unfolding get same
json_merge-strip_secrets_from_config_example =
    json_merge-strip_secrets_from_config current patch section (refl, tt) (inr (_, refl)) refl

-- A patch whose section is null takes the section away, and the hash with it.
null_section :
    hash_of (
      field_of (codes "webserver") (
        json_merge
          (object current)
          (strip_secrets_from_config (object (field (codes "webserver") null no_fields)))))
    ≡ none
unfolding hash_of field_of json_merge strip_secrets_from_config get same
null_section = refl

abbrev host : Host
host = record { var = λ name. none; parent_exists = λ path. false; temp_file = λ name. name }

-- Every JSON reads as the default configuration.
abbrev serde : Serde
serde = record {
  to_value = λ c. object current;
  from_value = λ j. some (default_config host);
  to_string_pretty = λ c. some (codes "[dns]");
}

abbrev state : State
state = record {
  config = default_config host;
  file = codes "";
  dhcp_config = none;
  nimbus_db = empty_tables;
}

-- A write that fails and leaves the file empty.
update_config-IsValid_example :
    IsValid (update_config serde (object patch) (incomplete []) 7 state).0.config
    × IsUpdate serde
        (serde.from_value
          (json_merge (serde.to_value state.config) (strip_secrets_from_config (object patch))))
        state
        (update_config serde (object patch) (incomplete []) 7 state)
update_config-IsValid_example =
    update_config-IsValid serde (object patch) (incomplete []) 7 state (default_config-IsValid host)
