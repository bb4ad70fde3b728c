-- ===== src/Auth/Tests.antt =====
-- One client of the limiter, one session and one digest.
use nimbusdns.Common.{ℕ, ◌≤◌, ◌≡◌, ◌⊎◌, refl, Bool, true, some, List, [], ◌∷◌, arith}
use nimbusdns.Common.Map.{get}
use nimbusdns.Blocking.Wildcard.{Text, text_discrete, same}
use nimbusdns.Auth.{is_auth_enabled, is_empty}
use nimbusdns.Auth.Limiter as Limiter
use nimbusdns.Auth.Limiter.Sliding.{within, log, check_sliding}
use nimbusdns.Auth.Sessions.{
  Session, Fetched, fetched, ok, validate, validate_ok, accept, slow_path, look_up,
}

abbrev hash : Text
hash = 97 ∷ 98 ∷ []

-- A verifier that takes the hash itself for the password.
abbrev argon2_ok : Text → Text → Bool
argon2_ok password h = same password h

abbrev sha256_hex : Text → Text
sha256_hex password = password

enabled : is_auth_enabled (some hash) ≡ true
unfolding is_auth_enabled is_empty
enabled = refl

abbrev client : Text
client = 49 ∷ []

abbrev checks : List (Text × ℕ)
checks = (client, 10) ∷ (hash, 11) ∷ (client, 12) ∷ (client, 13) ∷ []

check_sliding_example : within 60 20 (log client checks (Limiter.new 2 60) []) ≤ 2
unfolding Limiter.new get
check_sliding_example =
    check_sliding client 20 checks (Limiter.new 2 60) refl
      (omega arith, (omega arith, (omega arith, (omega arith, omega arith))))

abbrev session : Session
session = record { sid = client; expires_at = 100 }

-- A database that holds that session under every name.
abbrev get_session : Unit {0} → Text → Fetched
get_session db sid = fetched (some session)

abbrev delete_session : Unit {0} → Text → Unit {0}
delete_session db sid = db

accepted : (validate get_session delete_session 50 client [] tt).2 ≡ ok session
unfolding validate look_up slow_path accept get
accepted = refl

validate_ok_example :
    (50 ≤ session.expires_at)
    × ((get text_discrete client [] ≡ some session)
        ⊎ (get_session tt client ≡ fetched (some session)))
    × (get text_discrete client (validate get_session delete_session 50 client [] tt).0
        ≡ some session)
validate_ok_example = validate_ok get_session delete_session 50 client [] tt session accepted
