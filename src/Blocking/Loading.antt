-- ===== src/Blocking/Loading.antt =====
-- `BlockingLists::load`, `compile_regex` and `BlockingEngine` of nimbus-core/src/blocking/mod.rs. The
-- crate `regex` is a record of what is called; `str::trim` and `str::to_lowercase` are arguments.
use nimbusdns.Common.{
  ℕ, ◌+◌, Bool, ◌&&◌, ◌||◌, Option, none, some, List, [], ◌∷◌, ◌++◌, length, is_some, ltb,
  if◌then◌else◌,
}
use nimbusdns.Common.Text.{Text, same, codes, strip_prefix, strip_suffix}
use nimbusdns.Blocking.Wildcard.{insert_pattern}
use nimbusdns.Blocking.Lists.{BlockingLists, add_text, check_blocked, is_blocked}
use nimbusdns.Config.{Config, BlockingMode}
use nimbusdns.Gravity.{GravityDb}
use nimbusdns.Gravity.Select.{get_domainlist_by_type, get_all_gravity_domains, adlist_count}

pub record RegexCrate (Regex : Type 0) : Type 0 where
  pub new : Text → Option Regex
  pub escape : Text → Text
  pub as_str : Regex → Text
  pub re_match : Regex → Text → Bool

-- `str::len`: the bytes of the UTF-8 encoding.
unfoldable pub utf8_len : ℕ → ℕ
utf8_len ch = if ltb ch 128 then 1 else if ltb ch 2048 then 2 else if ltb ch 65536 then 3 else 4

unfoldable pub byte_len : Text → ℕ
unfolding utf8_len
byte_len [] = 0
byte_len (ch ∷ t) = utf8_len ch + byte_len t

unfoldable pub starts_with : Text → Text → Bool
unfolding strip_prefix
starts_with prefix t = is_some (strip_prefix prefix t)

unfoldable pub ends_with : Text → Text → Bool
unfolding strip_suffix
ends_with suffix t = is_some (strip_suffix suffix t)

unfoldable pub or_body : Text → Option Text → Text
or_body body none = body
or_body body (some inner) = inner

-- `strip_prefix('/').and_then(|s| s.strip_suffix('/')).unwrap_or(body)`
unfoldable pub between_slashes : Text → Text
unfolding or_body strip_prefix strip_suffix
between_slashes body =
    or_body body
      (elim (strip_prefix (codes "/") body) [ none ↦ none | some s ↦ strip_suffix (codes "/") s ])

module _ (lower : Text → Text) where
  unfoldable pub insert_lower : List Text → List Text → List Text
  unfolding add_text
  insert_lower [] set = set
  insert_lower (d ∷ ds) set = insert_lower ds (add_text (lower d) set)

unfoldable pub is_wildcard : Text → Bool
unfolding starts_with
is_wildcard trimmed = starts_with (codes "*.") trimmed || starts_with (codes "*") trimmed

module _ (trim lower : Text → Text) where
  -- The loop over the gravity domains: the exact names, the wildcard suffixes and their count.
  unfoldable pub load_gravity : List Text → List Text → List Text → ℕ → List Text × (List Text × ℕ)
  unfolding is_wildcard add_text insert_pattern
  load_gravity [] exact wild count = (exact, (wild, count))
  load_gravity (d ∷ ds) exact wild count =
      let wildcard = load_gravity ds exact (insert_pattern trim lower (trim d) wild) (count + 1) in
      let plain = load_gravity ds (add_text (lower (trim d)) exact) wild count in
      if is_wildcard (trim d) then wildcard else plain

module _ {Regex : Type 0} (re : RegexCrate Regex) (trim lower : Text → Text) where
  -- The outcomes of `strip_prefix("*.")` and `strip_prefix('*')`.
  unfoldable pub domain_pattern : Text → Option Text → Option Text → Text
  domain_pattern body (some suffix) _ = codes "(?i)(^|\\.)" ++ re.escape suffix ++ codes "$"
  domain_pattern body none (some suffix) = codes "(?i)(^|\\.)" ++ re.escape suffix ++ codes "$"
  domain_pattern body none none = codes "(?i)^" ++ re.escape body ++ codes "$"

  unfoldable pub checked : Regex → Option Regex
  unfolding same
  checked r = if same (re.as_str r) (codes "(?i)") then none else some r

  unfoldable pub compile_checked : Text → Option Regex
  unfolding checked
  compile_checked pattern = elim (re.new pattern) [ none ↦ none | some r ↦ checked r ]

  unfoldable pub compile_body : Text → Option Regex
  unfolding byte_len starts_with ends_with between_slashes domain_pattern compile_checked
      strip_prefix
  compile_body body =
      if ltb (byte_len body) 2
      then none
      else if starts_with (codes "/") body && ends_with (codes "/") body
      then elim (between_slashes body) [
        | [] ↦ none
        | ch ∷ inner ↦ compile_checked (codes "(?i)" ++ ch ∷ inner)
      ]
      else compile_checked
          (domain_pattern body (strip_prefix (codes "*.") body) (strip_prefix (codes "*") body))

  unfoldable pub compile_regex : Text → Option Regex
  unfolding compile_body
  compile_regex pattern = compile_body (trim pattern)

  unfoldable pub compile_all : List Text → List Regex
  unfolding compile_regex
  compile_all [] = []
  compile_all (p ∷ ps) = elim (compile_regex p) [
    | none ↦ compile_all ps
    | some r ↦ r ∷ compile_all ps
  ]

  unfoldable pub load : GravityDb → BlockingLists Regex
  unfolding insert_lower compile_all load_gravity
  load gravity =
      let allow = insert_lower lower (get_domainlist_by_type 0 gravity) [] in
      let deny = insert_lower lower (get_domainlist_by_type 1 gravity) [] in
      let allow_regex = compile_all (get_domainlist_by_type 2 gravity) in
      let deny_regex = compile_all (get_domainlist_by_type 3 gravity) in
      let loaded = load_gravity trim lower (get_all_gravity_domains gravity) [] [] 0 in
      record {
        allowlist_exact = allow;
        denylist_exact = deny;
        allowlist_regex = allow_regex;
        denylist_regex = deny_regex;
        gravity_exact = loaded.0;
        wildcard_deny = loaded.1.0;
        total_blocked = length loaded.0 + length deny + loaded.1.1 + length deny_regex;
        adlist_count = adlist_count gravity;
      }

pub record BlockingEngine (Regex : Type 0) : Type 0 where
  pub lists : BlockingLists Regex
  pub mode : BlockingMode

pub record BlockingStats : Type 0 where
  pub total_blocked : ℕ
  pub adlist_count : ℕ
  pub blocking_mode : BlockingMode

module _ {Regex : Type 0} (re : RegexCrate Regex) (trim lower : Text → Text) where
  unfoldable pub load_engine : GravityDb → Config → BlockingEngine Regex
  unfolding load
  load_engine gravity config = record {
    lists = load re trim lower gravity;
    mode = config.dns.blocking_mode;
  }

  unfoldable pub reload : GravityDb → BlockingEngine Regex → BlockingEngine Regex
  unfolding load
  reload gravity engine = record engine { lists = load re trim lower gravity }

  unfoldable pub engine_blocks : Text → BlockingEngine Regex → Bool
  unfolding check_blocked is_blocked
  engine_blocks domain engine =
      is_blocked (check_blocked re.re_match trim lower engine.lists domain)

unfoldable pub set_mode :
    {Regex : Type 0} → BlockingMode → BlockingEngine Regex → BlockingEngine Regex
set_mode mode engine = record engine { mode = mode }

unfoldable pub stats : {Regex : Type 0} → BlockingEngine Regex → BlockingStats
stats engine = record {
  total_blocked = engine.lists.total_blocked;
  adlist_count = engine.lists.adlist_count;
  blocking_mode = engine.mode;
}
