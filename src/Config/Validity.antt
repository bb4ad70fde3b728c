-- ===== src/Config/Validity.antt =====
-- What `validate` accepts, and what `load` returns, in nimbus-core/src/config/mod.rs.
use nimbusdns.Common.{
  ℕ, ◌≤◌, ◌<◌, ◌≡◌, ◌≢◌, ◌↔◌, refl, true, false, Option, none, some, List, [], ◌∷◌, All, arith,
}
use nimbusdns.Common.Text.{Text, codes, strip_prefix}
use nimbusdns.Config.{Config, ok}
use nimbusdns.Config.Defaults.{
  Host, default_config, default_dns, default_dhcp, default_upstreams, default_rate_limit,
}
use nimbusdns.Config.Upstreams.{Parsers}
use nimbusdns.Config.Env.{
  ConfigFile, missing, validate, is_inverted, load, read_config, apply_env_overrides, override,
}

pub record IsValid (c : Config) : Type 0 where
  pub upstreams : c.dns.upstreams ≢ []
  pub rate_limit : 0 < c.dns.rate_limit
  pub pool :
      (s e : ℕ)
      → c.dhcp.enabled ≡ true
      → c.dhcp.pool_start ≡ some s
      → c.dhcp.pool_end ≡ some e
      → s ≤ e
  pub lease_time : c.dhcp.enabled ≡ true → 0 < c.dhcp.lease_time

is_inverted-le :
    (o p : Option ℕ) → is_inverted o p ≡ false → (s e : ℕ) → o ≡ some s → p ≡ some e → s ≤ e
unfolding is_inverted
is_inverted-le o p h s e q r = ground (arith, h, q, r)

le-is_inverted :
    (o p : Option ℕ) → ((s e : ℕ) → o ≡ some s → p ≡ some e → s ≤ e) → is_inverted o p ≡ false
unfolding is_inverted
le-is_inverted none p h = refl
le-is_inverted (some s) none h = refl
le-is_inverted (some s) (some e) h = ground (arith, h s e refl refl)

validate-IsValid : (c : Config) → validate c ≡ ok tt → IsValid c
unfolding validate
validate-IsValid c h = record {
  upstreams = λ e. ground (arith, h, e);
  rate_limit = ground (arith, h);
  pool = λ s e on p q. is_inverted-le _ _ (ground (arith, h, on)) s e p q;
  lease_time = λ on. ground (arith, h, on);
}

IsValid-validate : (c : Config) → IsValid c → validate c ≡ ok tt
unfolding validate
IsValid-validate c v =
    let i : c.dhcp.enabled ≡ true → is_inverted c.dhcp.pool_start c.dhcp.pool_end ≡ false =
      λ on. le-is_inverted _ _ (λ s e p q. v.pool s e on p q) in
    ground (arith, v.upstreams, v.rate_limit, v.lease_time, i)

-- `validate` accepts a configuration exactly when it has an upstream, a rate limit above zero and,
-- if DHCP is on, a pool that does not end before it starts and a lease time above zero.
pub validate_iff : (c : Config) → (validate c ≡ ok tt) ↔ IsValid c
validate_iff c = (validate-IsValid c, IsValid-validate c)

-- Whatever the file and the variables are, a configuration that `load` returns is valid.
pub load-IsValid :
    (std : Parsers) (host : Host) (vars : List (Text × Text)) (file : ConfigFile) (c : Config)
    → load std host vars file ≡ ok c
    → IsValid c
unfolding load
load-IsValid std host vars file c h = validate-IsValid c (ground (arith, h))

apply_env_overrides-none :
    (std : Parsers) (vars : List (Text × Text)) (c : Config)
    → All (λ v. strip_prefix (codes "NIMBUS_") v.0 ≡ none) vars
    → apply_env_overrides std vars c ≡ ok c
unfolding apply_env_overrides override
apply_env_overrides-none std [] c h = refl
apply_env_overrides-none std ((key, value) ∷ vars) c h =
    ground (arith, h.0, apply_env_overrides-none std vars c h.1)

pub default_config-IsValid : (host : Host) → IsValid (default_config host)
unfolding default_config default_dns default_dhcp default_upstreams default_rate_limit
default_config-IsValid host = record {
  upstreams = λ e. cc;
  rate_limit = ground arith;
  pool = λ s e on p q. cc;
  lease_time = λ on. cc;
}

-- Where there is no file and no variable's name starts with `NIMBUS_`, `load` returns the default
-- configuration, which passes `validate`.
pub load_default :
    (std : Parsers) (host : Host) (vars : List (Text × Text))
    → All (λ v. strip_prefix (codes "NIMBUS_") v.0 ≡ none) vars
    → load std host vars missing ≡ ok (default_config host)
unfolding load read_config
load_default std host vars h = ground (
  arith,
  apply_env_overrides-none std vars (default_config host) h,
  IsValid-validate (default_config host) (default_config-IsValid host),
)
