-- ===== src/Config/Defaults.antt =====
-- The `Default` implementations of nimbus-core/src/config/mod.rs. What they read from the system is a
-- record: the environment, whether the parent directory of a path exists, and a name in the
-- directory of temporary files.
use nimbusdns.Common.{
  ℕ, ◌*◌, ◌+◌, Bool, true, false, Option, none, some, List, [], ◌∷◌, if◌then◌else◌,
}
use nimbusdns.Common.Text.{Text, codes}
use nimbusdns.Config.{
  IpAddr, v4, SocketAddr, DnsUpstream, BlockingMode, DnsConfig, DhcpConfig, WebServerConfig,
  DatabaseConfig, DebugConfig, Nice, MiscConfig, BlockingConfig, FileConfig, Config,
}

pub record Host : Type 0 where
  pub var : Text → Option Text
  pub parent_exists : Text → Bool
  pub temp_file : Text → Text

-- `a.b.c.d`
abbrev pub ipv4 : ℕ → ℕ → ℕ → ℕ → ℕ
ipv4 a b c d = ((a * 256 + b) * 256 + c) * 256 + d

unfoldable pub default_upstreams : List DnsUpstream
default_upstreams =
    DnsUpstream.tls (v4 (ipv4 8 8 8 8)) 853 (codes "dns.google")
    ∷ DnsUpstream.tls (v4 (ipv4 1 1 1 1)) 853 (codes "cloudflare-dns.com")
    ∷ []

unfoldable pub default_dns_bind : SocketAddr
default_dns_bind = record { ip = v4 0; port = 53 }

unfoldable pub default_rate_limit : ℕ
default_rate_limit = 1000

unfoldable pub default_cache_size : ℕ
default_cache_size = 10000

unfoldable pub default_blocking_ip : IpAddr
default_blocking_ip = v4 0

unfoldable pub default_max_queries : ℕ
default_max_queries = 1024

unfoldable pub default_max_queries_per_client : ℕ
default_max_queries_per_client = 64

unfoldable pub default_web_ports : List Text
default_web_ports = codes "80o" ∷ codes "443os" ∷ []

unfoldable pub default_session_timeout : ℕ
default_session_timeout = 86400

unfoldable pub default_api_rate_limit : ℕ
default_api_rate_limit = 100

unfoldable pub default_max_queries_stored : ℕ
default_max_queries_stored = 500000

unfoldable pub default_db_analyze_interval : ℕ
default_db_analyze_interval = 604800

unfoldable pub default_db_delete_interval : ℕ
default_db_delete_interval = 86400

unfoldable pub default_query_retention : ℕ
default_query_retention = 365 * 86400

unfoldable pub default_db_busy_timeout : ℕ
default_db_busy_timeout = 1000

unfoldable pub default_nice : Nice
default_nice = Nice.negated 999

unfoldable pub default_dhcp_mask : ℕ
default_dhcp_mask = ipv4 255 255 255 0

unfoldable pub default_dhcp_lease_time : ℕ
default_dhcp_lease_time = 86400

unfoldable pub default_blocklist_url : Text
default_blocklist_url = codes "https://raw.githubusercontent.com/StevenBlack/hosts/master/hosts"

unfoldable pub default_blocklist_refresh : ℕ
default_blocklist_refresh = 86400

unfoldable pub var_or : Option Text → Text → Text
var_or none other = other
var_or (some value) other = value

module _ (host : Host) where
  unfoldable pub default_gravity_db : Text
  unfolding var_or
  default_gravity_db =
      var_or (host.var (codes "NIMBUS_database_gravity_db")) (codes "/etc/nimbusdns/gravity.db")

  unfoldable pub default_nimbus_db : Text
  unfolding var_or
  default_nimbus_db =
      var_or (host.var (codes "NIMBUS_database_nimbus_db")) (codes "/var/lib/nimbusdns/nimbus.db")

  -- The path if its directory exists, else the name in the directory of temporary files.
  unfoldable pub or_temp : Text → Text → Text
  or_temp path name = if host.parent_exists path then path else host.temp_file name

  unfoldable pub default_pid_file : Text
  unfolding var_or
  default_pid_file =
      var_or (host.var (codes "NIMBUS_files_pid_file"))
        (or_temp (codes "/run/nimbusdns.pid") (codes "nimbusdns.pid"))

  unfoldable pub default_log_file : Option Text
  unfolding var_or
  default_log_file = some (
      var_or (host.var (codes "NIMBUS_files_log_file"))
        (or_temp (codes "/var/log/nimbusdns/nimbus.log") (codes "nimbusdns.log")))

  unfoldable pub default_socket : Option Text
  unfolding var_or
  default_socket = some (
      var_or (host.var (codes "NIMBUS_files_socket"))
        (or_temp (codes "/run/nimbusdns/nimbus.sock") (codes "nimbus.sock")))

unfoldable pub default_setup_vars : Option Text
default_setup_vars = some (codes "/etc/nimbusdns/nimbus.conf")

unfoldable pub default_dns : DnsConfig
unfolding default_upstreams default_rate_limit
default_dns = record {
  upstreams = default_upstreams;
  bind = default_dns_bind;
  blocking_mode = BlockingMode.null;
  rate_limit = default_rate_limit;
  cache_size = default_cache_size;
  query_log = true;
  query_retention = default_query_retention;
  blocking_ip = default_blocking_ip;
  interface = none;
  port = 53;
  max_concurrent_queries = default_max_queries;
  max_concurrent_per_client = default_max_queries_per_client;
}

unfoldable pub default_dhcp : DhcpConfig
default_dhcp = record {
  enabled = false;
  interface = none;
  router = none;
  netmask = default_dhcp_mask;
  dns_server = none;
  pool_start = none;
  pool_end = none;
  lease_time = default_dhcp_lease_time;
  domain = none;
}

unfoldable pub default_webserver : WebServerConfig
unfolding default_web_ports
default_webserver = record {
  ports = default_web_ports;
  tls_cert = none;
  tls_key = none;
  password_hash = none;
  session_timeout = default_session_timeout;
  api_rate_limit = default_api_rate_limit;
}

unfoldable pub default_database : Host → DatabaseConfig
default_database host = record {
  gravity_db = default_gravity_db host;
  nimbus_db = default_nimbus_db host;
  max_queries_stored = default_max_queries_stored;
  analyze_interval = default_db_analyze_interval;
  delete_interval = default_db_delete_interval;
  query_retention = default_query_retention;
  busy_timeout = default_db_busy_timeout;
}

unfoldable pub default_debug : DebugConfig
default_debug = record {
  all = false;
  resolver = false;
  api = false;
  database = false;
  dns = false;
  locking = false;
  edns0 = false;
  regex = false;
  config = false;
  dot = false;
}

unfoldable pub default_misc : MiscConfig
default_misc = record {
  delay_startup = 0;
  nice = default_nice;
  check_other_instance = true;
  enable_ipv6 = true;
  normalize_cpu = true;
}

unfoldable pub default_blocking : BlockingConfig
default_blocking = record {
  source_url = default_blocklist_url;
  refresh_interval = default_blocklist_refresh;
}

unfoldable pub default_files : Host → FileConfig
default_files host = record {
  pid_file = default_pid_file host;
  log_file = default_log_file host;
  socket = default_socket host;
  setup_vars = default_setup_vars;
}

unfoldable pub default_config : Host → Config
default_config host = record {
  dns = default_dns;
  dhcp = default_dhcp;
  webserver = default_webserver;
  database = default_database host;
  debug = default_debug;
  misc = default_misc;
  blocking = default_blocking;
  files = default_files host;
}
