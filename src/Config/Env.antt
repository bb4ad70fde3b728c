-- ===== src/Config/Env.antt =====
-- The overrides from `NIMBUS_*` variables, `validate` and `load` of `Config` in
-- nimbus-core/src/config/mod.rs. Reading the file and its TOML is an argument of `load`: the outcome.
use Prim.Native.String.{String}
use nimbusdns.Common.{
  ℕ, ◌^◌, ◌||◌, ◌&&◌, Bool, true, false, Option, none, some, List, [], ◌∷◌, map, ltb, ◌==◌,
  if◌then◌else◌,
}
use nimbusdns.Common.Text.{Text, codes, same, one_of, split_on, strip_prefix, trim, parse_unsigned}
use nimbusdns.Config.{
  ConfigError, validation, Result, ok, err, ◌>>=◌, map_ok, DnsConfig, DhcpConfig, BlockingConfig,
  WebServerConfig, DebugConfig, Config,
}
use nimbusdns.Config.Defaults.{Host, default_config}
use nimbusdns.Config.Upstreams.{
  Parsers, or_invalid, or_default, parse_upstreams, parse_bool_env, parse_blocking_mode,
}

-- A slice pattern of literals.
unfoldable pub is_key : List String → List Text → Bool
unfolding same
is_key [] [] = true
is_key (s ∷ ss) (t ∷ ts) = same t (codes s) && is_key ss ts
is_key _ _ = false

-- `if let Ok(ip) = value.parse() { field = Some(ip) }`
unfoldable pub or_keep {ℓ} : {A : Type ℓ} → Option A → Option A → Option A
or_keep old none = old
or_keep old (some a) = some a

module _ (std : Parsers) where
  -- The arms of `set_from_env` whose first word is `dns`, at the words after it.
  unfoldable pub set_dns : Text → List Text → DnsConfig → Result DnsConfig
  unfolding is_key or_invalid parse_upstreams parse_bool_env parse_blocking_mode
  set_dns value key d =
      if is_key ("upstreams" ∷ []) key
      then map_ok (λ us. record d { upstreams = us }) (parse_upstreams std value)
      else if is_key ("blocking" ∷ "mode" ∷ []) key || is_key ("blockingMode" ∷ []) key
      then map_ok (λ m. record d { blocking_mode = m }) (parse_blocking_mode std value)
      else if is_key ("rate" ∷ "limit" ∷ []) key || is_key ("rateLimit" ∷ []) key
      then map_ok (λ n. record d { rate_limit = n })
          (or_invalid "Invalid rate_limit: " value (parse_unsigned (2 ^ 32) value))
      else if is_key ("port" ∷ []) key
      then map_ok (λ n. record d { port = n; bind = record d.bind { port = n } })
          (or_invalid "Invalid port: " value (parse_unsigned (2 ^ 16) value))
      else if is_key ("bind" ∷ []) key
      then map_ok (λ a. record d { bind = a })
          (or_invalid "Invalid bind address: " value (std.socket_addr value))
      else if is_key ("query" ∷ "log" ∷ []) key || is_key ("queryLog" ∷ []) key
      then map_ok (λ b. record d { query_log = b }) (parse_bool_env value)
      else if is_key ("blocking" ∷ "ip" ∷ []) key || is_key ("blockingIp" ∷ []) key
      then map_ok (λ a. record d { blocking_ip = a })
          (or_invalid "Invalid blocking IP: " value (std.ip_addr value))
      else ok d

  -- Those whose first word is `dhcp`.
  unfoldable pub set_dhcp : Text → List Text → DhcpConfig → Result DhcpConfig
  unfolding is_key or_keep or_default parse_bool_env
  set_dhcp value key d =
      if is_key ("enabled" ∷ []) key
      then map_ok (λ b. record d { enabled = b }) (parse_bool_env value)
      else if is_key ("pool" ∷ "start" ∷ []) key || is_key ("poolStart" ∷ []) key
      then ok (record d { pool_start = or_keep d.pool_start (std.ipv4_addr value) })
      else if is_key ("pool" ∷ "end" ∷ []) key || is_key ("poolEnd" ∷ []) key
      then ok (record d { pool_end = or_keep d.pool_end (std.ipv4_addr value) })
      else if is_key ("router" ∷ []) key
      then ok (record d { router = or_keep d.router (std.ipv4_addr value) })
      else if is_key ("dns" ∷ "server" ∷ []) key || is_key ("dnsServer" ∷ []) key
      then ok (record d { dns_server = or_keep d.dns_server (std.ipv4_addr value) })
      else if is_key ("lease" ∷ "time" ∷ []) key || is_key ("leaseTime" ∷ []) key
      then ok (record d { lease_time = or_default d.lease_time (parse_unsigned (2 ^ 32) value) })
      else if is_key ("domain" ∷ []) key
      then ok (record d { domain = some value })
      else ok d

-- Those whose first word is `webserver`, `blocking` or `debug`.
unfoldable pub set_webserver : Text → List Text → WebServerConfig → WebServerConfig
unfolding is_key split_on trim
set_webserver value key w =
    if is_key ("port" ∷ []) key then record w { ports = map trim (split_on 44 value) } else w

unfoldable pub set_blocking : Text → List Text → BlockingConfig → BlockingConfig
unfolding is_key or_default
set_blocking value key b =
    if is_key ("source" ∷ "url" ∷ []) key || is_key ("sourceUrl" ∷ []) key
    then record b { source_url = value }
    else if is_key ("refresh" ∷ "interval" ∷ []) key || is_key ("refreshInterval" ∷ []) key
    then record b {
      refresh_interval = or_default b.refresh_interval (parse_unsigned (2 ^ 64) value);
    }
    else b

unfoldable pub set_flag : Text → DebugConfig → DebugConfig
unfolding one_of
set_flag flag d =
    if one_of ("all" ∷ "All" ∷ []) flag
    then record d { all = true }
    else if one_of ("resolver" ∷ []) flag
    then record d { resolver = true }
    else if one_of ("api" ∷ []) flag
    then record d { api = true }
    else if one_of ("database" ∷ "Database" ∷ []) flag
    then record d { database = true }
    else if one_of ("dns" ∷ "DNS" ∷ []) flag
    then record d { dns = true }
    else if one_of ("locking" ∷ []) flag
    then record d { locking = true }
    else if one_of ("edns0" ∷ "EDNS0" ∷ []) flag
    then record d { edns0 = true }
    else if one_of ("regex" ∷ []) flag
    then record d { regex = true }
    else if one_of ("config" ∷ []) flag
    then record d { config = true }
    else if one_of ("dot" ∷ "DoT" ∷ []) flag
    then record d { dot = true }
    else d

unfoldable pub set_debug : List Text → DebugConfig → DebugConfig
unfolding set_flag
set_debug (flag ∷ []) d = set_flag flag d
set_debug _ d = d

module _ (std : Parsers) where
  unfoldable pub set_section : Text → List Text → Config → Result Config
  unfolding same
  set_section value [] c = ok c
  set_section value (section ∷ key) c =
      if same section (codes "dns")
      then map_ok (λ d. record c { dns = d }) (set_dns std value key c.dns)
      else if same section (codes "webserver")
      then ok (record c { webserver = set_webserver value key c.webserver })
      else if same section (codes "dhcp")
      then map_ok (λ d. record c { dhcp = d }) (set_dhcp std value key c.dhcp)
      else if same section (codes "blocking")
      then ok (record c { blocking = set_blocking value key c.blocking })
      else if same section (codes "debug")
      then ok (record c { debug = set_debug key c.debug })
      else ok c

  unfoldable pub set_from_env : Text → Text → Config → Result Config
  unfolding set_section split_on
  set_from_env key value c = set_section value (split_on 95 key) c

  -- The outcome of `key.strip_prefix("NIMBUS_")`.
  unfoldable pub override : Option Text → Text → Config → Result Config
  unfolding set_from_env
  override none value c = ok c
  override (some inner) value c = set_from_env inner value c

  unfoldable pub apply_env_overrides : List (Text × Text) → Config → Result Config
  unfolding override strip_prefix
  apply_env_overrides [] c = ok c
  apply_env_overrides ((key, value) ∷ vars) c =
      override (strip_prefix (codes "NIMBUS_") key) value c >>= apply_env_overrides vars

-- `start > end`, when both are there.
unfoldable pub is_inverted : Option ℕ → Option ℕ → Bool
is_inverted (some start) (some end_) = ltb end_ start
is_inverted _ _ = false

unfoldable pub validate : Config → Result (Unit {0})
unfolding is_inverted
validate c =
    if elim c.dns.upstreams [ [] ↦ true | _ ∷ _ ↦ false ]
    then err (validation (codes "At least one DNS upstream must be configured"))
    else if c.dns.rate_limit == 0
    then err (validation (codes "Rate limit must be > 0"))
    else if c.dhcp.enabled
    then if is_inverted c.dhcp.pool_start c.dhcp.pool_end
      then err (validation (codes "DHCP pool_start must be <= pool_end"))
      else if c.dhcp.lease_time == 0
      then err (validation (codes "DHCP lease_time must be > 0"))
      else ok tt
    else ok tt

-- Whether the file is there, can be read, and is the TOML of a configuration.
pub data ConfigFile : Type 0 where
  missing unreadable malformed : ConfigFile
  parsed : Config → ConfigFile

unfoldable pub read_config : Host → ConfigFile → Result Config
read_config host missing = ok (default_config host)
read_config host unreadable = err ConfigError.file_read
read_config host malformed = err ConfigError.parse
read_config host (parsed c) = ok c

unfoldable pub load : Parsers → Host → List (Text × Text) → ConfigFile → Result Config
unfolding read_config apply_env_overrides validate
load std host vars file = read_config host file >>= λ c.
    apply_env_overrides std vars c >>= λ c2. validate c2 >>= λ _. ok c2
