-- ===== src/Auth.antt =====
-- Authentication in nimbus-api/src/auth.rs: passwords, sessions and the limit on attempts. A string is
-- the list of its characters, a time a number of seconds.
pub mod Limiter
pub mod Sessions
mod Tests
use nimbusdns.Common.{
  ℕ, ◌≡◌, refl, Bool, true, false, ◌&&◌, ◌||◌, Option, none, some, List, [], ◌∷◌, leb, ◌==◌, length,
  arith, if◌then◌else◌,
}
use nimbusdns.Blocking.Wildcard.{Text, same}

unfoldable pub is_empty : Text → Bool
is_empty [] = true
is_empty _ = false

unfoldable pub is_ascii_hexdigit : ℕ → Bool
is_ascii_hexdigit ch = leb 48 ch && leb ch 57 || leb 65 ch && leb ch 70 || leb 97 ch && leb ch 102

unfoldable pub all_hex : Text → Bool
all_hex [] = true
all_hex (ch ∷ text) = is_ascii_hexdigit ch && all_hex text

unfoldable pub is_auth_enabled : Option Text → Bool
is_auth_enabled none = false
is_auth_enabled (some h) = if is_empty h then false else true

-- `argon2_ok` is the parse of the hash and its check by Argon2, `sha256_hex` the digest of a password
-- in hexadecimal digits.
module _ (argon2_ok : Text → Text → Bool) (sha256_hex : Text → Text) where
  unfoldable pub verify_password : Text → Option Text → Bool
  verify_password password none = false
  verify_password password (some hash) =
      if is_empty hash
      then is_empty password
      else if argon2_ok password hash
      then true
      else if length hash == 64 && all_hex hash
      then same (sha256_hex password) hash
      else false

  -- Where authentication is enabled, a password is accepted exactly when Argon2 accepts it, or when
  -- the hash is a SHA-256 digest in 64 hexadecimal digits, and that of the password.
  pub verify_password_enabled :
      (password : Text) (stored : Option Text)
      → is_auth_enabled stored ≡ true
      → (hash : Text) × (stored ≡ some hash)
        × (verify_password password stored ≡ (
            argon2_ok password hash
            || (length hash == 64 && all_hex hash) && same (sha256_hex password) hash))
  unfolding verify_password is_auth_enabled
  verify_password_enabled password none h = cc
  verify_password_enabled password (some hash) h = (hash, refl, ground arith)
