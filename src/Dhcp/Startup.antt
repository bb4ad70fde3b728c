-- ===== src/Dhcp/Startup.antt =====
-- What the DHCP server reads at its start, and its lists of leases: `choose_server_ip`,
-- `load_persisted_leases`, `get_leases` and `get_lease_count` of nimbus-core/src/dhcp/mod.rs. A row of
-- the database has its hardware address parsed, or none if that fails.
use Prim.Native.String.{String}
use mathlib.Core.Option
use nimbusdns.Common.{
  ℕ, ◌/◌, ◌≤◌, ◌<◌, ◌≡◌, ◌⊎◌, refl, sym, ◌∙◌, ap, inl, inr, Bool, true, false, not, ◌&&◌, ◌||◌,
  Option, none, some, List, [], ◌∷◌, map, find, keep, leb, ltb, ◌==◌, bit_and, ◌^◌, is_some, arith,
  subst, Bool-cases, if◌then◌else◌, All, All-find,
}
use nimbusdns.Common.Iteration.{Iteration}
use nimbusdns.Common.Map.{get, insert, insert-cases, Unique, insert-Unique}
use nimbusdns.Dhcp.Types.{Mac, mac_discrete, same_mac, Lease, DhcpServer}
use nimbusdns.Dhcp.Reclaim.{reclaim_expired_locked}

-- An address of the host: its interface, the address and the mask.
pub record HostAddr : Type 0 where
  pub name : List ℕ
  pub ip : ℕ
  pub mask : ℕ

-- 127.0.0.0/8, 0.0.0.0 and 169.254.0.0/16 are not usable.
unfoldable pub usable : ℕ → Bool
usable ip = not (ip / 2 ^ 24 == 127) && not (ip == 0) && not (ip / 2 ^ 16 == 43518)

unfoldable pub in_pool_subnet : ℕ → HostAddr → Bool
in_pool_subnet pool_start a = bit_and a.ip a.mask == bit_and pool_start a.mask

unfoldable pub first_of : List HostAddr → Option HostAddr
first_of [] = none
first_of (a ∷ rest) = some a

unfoldable pub candidate : (List ℕ → List ℕ → Bool) → Option (List ℕ) → HostAddr → Bool
candidate same_name none a = usable a.ip
candidate same_name (some want) a = usable a.ip && same_name a.name want

unfoldable pub address_or : Option HostAddr → ℕ → ℕ
address_or none fallback = fallback
address_or (some a) fallback = a.ip

unfoldable pub or_first : Option HostAddr → Bool → List HostAddr → Option HostAddr
or_first none named candidates = if named then first_of candidates else none
or_first (some a) named candidates = some a

unfoldable pub choose_server_ip :
    (List ℕ → List ℕ → Bool) → List HostAddr → Option (List ℕ) → ℕ → ℕ → ℕ
unfolding candidate or_first address_or
choose_server_ip same_name addrs interface pool_start fallback =
    let candidates = keep (candidate same_name interface) addrs in
    address_or
      (or_first (find (in_pool_subnet pool_start) candidates) (is_some interface) candidates)
      fallback

pub record Row : Type 0 where
  pub mac : Option Mac
  pub ip : ℕ
  pub hostname : String
  pub no_hostname : Bool
  pub expires_at : ℕ

abbrev pub zero_mac : Mac
zero_mac = record { b0 = 0; b1 = 0; b2 = 0; b3 = 0; b4 = 0; b5 = 0 }

unfoldable pub lease_of : Mac → Row → Lease
lease_of mac row = record {
  ip = row.ip;
  mac = mac;
  hostname = if row.no_hostname then none else some row.hostname;
  vendor = none;
  expires_at = row.expires_at;
}

unfoldable pub load_row : ℕ → ℕ → ℕ → Row → List (Mac × Lease) → List (Mac × Lease)
load_row now pool_start pool_end row leases =
    let mac = Option.get_or row.mac zero_mac in
    if leb row.expires_at now
    then leases
    else if ltb row.ip pool_start || ltb pool_end row.ip
    then leases
    else if same_mac mac zero_mac
    then leases
    else insert mac_discrete mac (lease_of mac row) leases

unfoldable pub load_rows : ℕ → ℕ → ℕ → List Row → List (Mac × Lease) → List (Mac × Lease)
load_rows now pool_start pool_end [] leases = leases
load_rows now pool_start pool_end (row ∷ rows) leases =
    load_rows now pool_start pool_end rows (load_row now pool_start pool_end row leases)

unfoldable pub load_persisted_leases : ℕ → ℕ → ℕ → List Row → List (Mac × Lease)
load_persisted_leases now pool_start pool_end rows = load_rows now pool_start pool_end rows []

module _ (walk : Iteration mac_discrete Lease) where
  unfoldable pub get_leases : ℕ → DhcpServer → DhcpServer × List Lease
  get_leases now s =
      let r = reclaim_expired_locked now s in (r, map (λ e. e.1) (walk.iter r.leases))

-- A lease that may be loaded: it is kept under its own address of hardware, which is not all zeroes, it
-- has not run out, and it lies in the pool.
abbrev pub Loadable : ℕ → ℕ → ℕ → Mac → Lease → Type 0
Loadable now pool_start pool_end mac l =
    (l.mac ≡ mac)
    × (same_mac mac zero_mac ≡ false)
    × (now < l.expires_at)
    × (pool_start ≤ l.ip)
    × (l.ip ≤ pool_end)

load_rows-Loadable :
    (now pool_start pool_end : ℕ) (rows : List Row) (leases : List (Mac × Lease))
    → Unique mac_discrete leases
    → ((m : Mac) (l : Lease)
        → get mac_discrete m leases ≡ some l
        → Loadable now pool_start pool_end m l)
    → Unique mac_discrete (load_rows now pool_start pool_end rows leases)
      × ((m : Mac) (l : Lease)
          → get mac_discrete m (load_rows now pool_start pool_end rows leases) ≡ some l
          → Loadable now pool_start pool_end m l)
unfolding load_rows load_row lease_of
load_rows-Loadable now ps pe [] leases u h = (u, h)
load_rows-Loadable now ps pe (row ∷ rows) leases u h = elim (Bool-cases (leb row.expires_at now)) [
  | inl t ↦ rw t (load_rows-Loadable now ps pe rows leases u h)
  | inr f ↦ elim (Bool-cases (ltb row.ip ps || ltb pe row.ip)) [
    | inl t ↦ rw (f, t) (load_rows-Loadable now ps pe rows leases u h)
    | inr g ↦ elim (Bool-cases (same_mac (Option.get_or row.mac zero_mac) zero_mac)) [
      | inl t ↦ rw (f, g, t) (load_rows-Loadable now ps pe rows leases u h)
      | inr z ↦
          let mac = Option.get_or row.mac zero_mac in
          rw (f, g, z)
            (load_rows-Loadable now ps pe rows (insert mac_discrete mac (lease_of mac row) leases)
              (insert-Unique mac_discrete mac _ leases u)
              (λ m l e. elim (insert-cases mac_discrete mac (lease_of mac row) leases m l e) [
                | inl (p, v) ↦ (
                  sym (ap (λ x. x.mac) v) ∙ p,
                  subst (λ x. same_mac x zero_mac ≡ false) p z,
                  subst (λ x. now < x.expires_at) v (ground arith),
                  subst (λ x. ps ≤ x.ip) v (ground arith),
                  subst (λ x. x.ip ≤ pe) v (ground arith),
                )
                | inr (_, old) ↦ h m l old
              ]))
    ]
  ]
]

-- What is loaded from the database: no client twice, and only leases that are kept under their own
-- hardware address, have not run out and lie in the pool.
pub load_persisted_leases-Loadable :
    (now pool_start pool_end : ℕ) (rows : List Row)
    → Unique mac_discrete (load_persisted_leases now pool_start pool_end rows)
      × ((m : Mac) (l : Lease)
          → get mac_discrete m (load_persisted_leases now pool_start pool_end rows) ≡ some l
          → Loadable now pool_start pool_end m l)
unfolding load_persisted_leases get
load_persisted_leases-Loadable now ps pe rows =
    load_rows-Loadable now ps pe rows [] tt (λ m l e. cc)

keep_passed : (p : HostAddr → Bool) (addrs : List HostAddr) → All (λ a. p a ≡ true) (keep p addrs)
keep_passed p [] = tt
keep_passed p (a ∷ addrs) = elim (Bool-cases (p a)) [
  | inl t ↦ rw t (t, keep_passed p addrs)
  | inr f ↦ rw f (keep_passed p addrs)
]

chosen :
    (p : HostAddr → Bool) (named : Bool) (fallback : ℕ) (addrs : List HostAddr)
    → All (λ a. p a ≡ true) addrs
    → (o : Option HostAddr) → ((a : HostAddr) → o ≡ some a → p a ≡ true)
    → (address_or (or_first o named addrs) fallback ≡ fallback)
      ⊎ ((a : HostAddr) × (p a ≡ true) × (address_or (or_first o named addrs) fallback ≡ a.ip))
unfolding address_or or_first first_of
chosen p named fallback addrs h (some a) f = inr (a, f a refl, refl)
chosen p false fallback addrs h none f = inl refl
chosen p true fallback [] h none f = inl refl
chosen p true fallback (a ∷ addrs) h none f = inr (a, h.0, refl)

-- The server identifies itself by an address of the host that is usable, and on the interface that was
-- named, or else by the fallback.
pub choose_server_ip_usable :
    (same_name : List ℕ → List ℕ → Bool) (addrs : List HostAddr) (interface : Option (List ℕ))
    (pool_start fallback : ℕ)
    → (choose_server_ip same_name addrs interface pool_start fallback ≡ fallback)
      ⊎ ((a : HostAddr) × (candidate same_name interface a ≡ true)
          × (choose_server_ip same_name addrs interface pool_start fallback ≡ a.ip))
unfolding choose_server_ip
choose_server_ip_usable same_name addrs interface ps fallback =
    let passed = keep_passed (candidate same_name interface) addrs in
    chosen (candidate same_name interface) (is_some interface) fallback _ passed _
      (λ a e. All-find _ (in_pool_subnet ps) _ a passed e)
