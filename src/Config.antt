-- ===== src/Config.antt =====
-- The types of nimbus-core/src/config/mod.rs. A path and a string are texts; an `IpAddr` is a number
-- with its family; an `Ipv4Addr` is a number below 2 ^ 32, ordered as the code orders addresses.
pub mod Defaults
pub mod Ports
pub mod Upstreams
pub mod Env
pub mod RoundTrip
pub mod Validity
mod Tests
use nimbusdns.Common.{ℕ, Bool, ◌||◌, Option, List}
use nimbusdns.Common.Text.{Text}

pub data ConfigError : Type 0 where
  file_read parse env : ConfigError
  validation : Text → ConfigError

pub data Result {ℓ} (A : Type ℓ) : Type ℓ where
  ok : A → Result A
  err : ConfigError → Result A

infixl 5 ◌>>=◌
abbrev pub ◌>>=◌ {ℓ κ} : {A : Type ℓ} {B : Type κ} → Result A → (A → Result B) → Result B
ok a >>= f = f a
err e >>= f = err e

abbrev pub map_ok {ℓ κ} : {A : Type ℓ} {B : Type κ} → (A → B) → Result A → Result B
map_ok f (ok a) = ok (f a)
map_ok f (err e) = err e

pub data IpAddr : Type 0 where
  v4 v6 : ℕ → IpAddr

pub record SocketAddr : Type 0 where
  pub ip : IpAddr
  pub port : ℕ

pub data DnsUpstream : Type 0 where
  plain : (address : IpAddr) (port : ℕ) → DnsUpstream
  tls : (address : IpAddr) (port : ℕ) (hostname : Text) → DnsUpstream

pub data BlockingMode : Type 0 where
  null nxdomain ip refused nodata disabled : BlockingMode

pub record DnsConfig : Type 0 where
  pub upstreams : List DnsUpstream
  pub bind : SocketAddr
  pub blocking_mode : BlockingMode
  pub rate_limit : ℕ
  pub cache_size : ℕ
  pub query_log : Bool
  pub query_retention : ℕ
  pub blocking_ip : IpAddr
  pub interface : Option Text
  pub port : ℕ
  pub max_concurrent_queries : ℕ
  pub max_concurrent_per_client : ℕ

pub record DhcpConfig : Type 0 where
  pub enabled : Bool
  pub interface : Option Text
  pub router : Option ℕ
  pub netmask : ℕ
  pub dns_server : Option ℕ
  pub pool_start : Option ℕ
  pub pool_end : Option ℕ
  pub lease_time : ℕ
  pub domain : Option Text

pub record WebServerConfig : Type 0 where
  pub ports : List Text
  pub tls_cert : Option Text
  pub tls_key : Option Text
  pub password_hash : Option Text
  pub session_timeout : ℕ
  pub api_rate_limit : ℕ

pub record DatabaseConfig : Type 0 where
  pub gravity_db : Text
  pub nimbus_db : Text
  pub max_queries_stored : ℕ
  pub analyze_interval : ℕ
  pub delete_interval : ℕ
  pub query_retention : ℕ
  pub busy_timeout : ℕ

pub record DebugConfig : Type 0 where
  pub all : Bool
  pub resolver : Bool
  pub api : Bool
  pub database : Bool
  pub dns : Bool
  pub locking : Bool
  pub edns0 : Bool
  pub regex : Bool
  pub config : Bool
  pub dot : Bool

unfoldable pub any_debug : DebugConfig → Bool
any_debug d =
    d.all || d.resolver || d.api || d.database || d.dns || d.locking || d.edns0 || d.regex
    || d.config || d.dot

-- A nice value, -20 to 19, or -999.
pub data Nice : Type 0 where
  pos negated : ℕ → Nice

pub record MiscConfig : Type 0 where
  pub delay_startup : ℕ
  pub nice : Nice
  pub check_other_instance : Bool
  pub enable_ipv6 : Bool
  pub normalize_cpu : Bool

pub record BlockingConfig : Type 0 where
  pub source_url : Text
  pub refresh_interval : ℕ

pub record FileConfig : Type 0 where
  pub pid_file : Text
  pub log_file : Option Text
  pub socket : Option Text
  pub setup_vars : Option Text

pub record Config : Type 0 where
  pub dns : DnsConfig
  pub dhcp : DhcpConfig
  pub webserver : WebServerConfig
  pub database : DatabaseConfig
  pub debug : DebugConfig
  pub misc : MiscConfig
  pub blocking : BlockingConfig
  pub files : FileConfig
