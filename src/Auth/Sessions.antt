-- ===== src/Auth/Sessions.antt =====
-- `SessionCache`, over a database of sessions that is an argument, and the session that a request
-- names.
use nimbusdns.Common.{
  ℕ, ◌≤◌, ◌≡◌, ◌⊎◌, ◌∙◌, ap, subst, inl, inr, Option, none, some, List, keep, ltb, leb, arith,
  Bool-cases, Option-cases, if◌then◌else◌,
}
use nimbusdns.Common.Map.{get, insert, remove, get-insert_self}
use nimbusdns.Blocking.Wildcard.{Text, text_discrete}

-- What a session is besides its expiry is not looked at.
pub record Session : Type 0 where
  pub sid : Text
  pub expires_at : ℕ

pub data AuthError : Type 0 where
  invalid_credentials unauthorized rate_limited : AuthError
  internal : Text → AuthError

pub data Outcome : Type 0 where
  ok : Session → Outcome
  err : AuthError → Outcome

-- What `get_session` answers: an error of the database, or a session, if there is one.
pub data Fetched : Type 0 where
  failed : Text → Fetched
  fetched : Option Session → Fetched

abbrev pub SessionCache : Type 0
SessionCache = List (Text × Session)

module _ {Db : Type 0} (get_session : Db → Text → Fetched) (delete_session : Db → Text → Db) where
  -- After the database was asked.
  unfoldable pub accept : ℕ → Text → SessionCache → Db → Fetched → SessionCache × Db × Outcome
  accept now sid c db (failed e) = (c, db, err (internal e))
  accept now sid c db (fetched none) = (c, db, err unauthorized)
  accept now sid c db (fetched (some s)) =
      if ltb s.expires_at now
      then (remove text_discrete sid c, delete_session db sid, err unauthorized)
      else (insert text_discrete sid s c, db, ok s)

  unfoldable pub slow_path : ℕ → Text → SessionCache → Db → SessionCache × Db × Outcome
  unfolding accept
  slow_path now sid c db = accept now sid c db (get_session db sid)

  unfoldable pub look_up :
      ℕ → Text → SessionCache → Db → Option Session → SessionCache × Db × Outcome
  unfolding slow_path
  look_up now sid c db none = slow_path now sid c db
  look_up now sid c db (some s) =
      if leb now s.expires_at
      then (c, db, ok s)
      else slow_path now sid (remove text_discrete sid c) db

  unfoldable pub validate : ℕ → Text → SessionCache → Db → SessionCache × Db × Outcome
  unfolding look_up
  validate now sid c db = look_up now sid c db (get text_discrete sid c)

unfoldable pub remove_session : Text → SessionCache → SessionCache
remove_session sid c = remove text_discrete sid c

unfoldable pub remove_expired : ℕ → SessionCache → SessionCache
remove_expired now c = keep (λ e. leb now e.1.expires_at) c

abbrev result : {Db : Type 0} → SessionCache × Db × Outcome → Outcome
result r = r.2

session_of : Session → Outcome → Session
session_of d (ok s) = s
session_of d (err e) = d

ok-injective : (s t : Session) → ok s ≡ ok t → s ≡ t
unfolding session_of
ok-injective s t e = ap (session_of s) e

module _ {Db : Type 0} (get_session : Db → Text → Fetched) (delete_session : Db → Text → Db) where
  accept_ok :
      (now : ℕ) (sid : Text) (c : SessionCache) (db : Db) (s : Session) (f : Fetched)
      → (accept get_session delete_session now sid c db f).2 ≡ ok s
      → (now ≤ s.expires_at)
        × (f ≡ fetched (some s))
        × (get text_discrete sid (accept get_session delete_session now sid c db f).0 ≡ some s)
  unfolding accept
  accept_ok now sid c db s (failed e) h = cc
  accept_ok now sid c db s (fetched none) h = cc
  accept_ok now sid c db s (fetched (some t)) h = elim (Bool-cases (ltb t.expires_at now)) [
    | inl e ↦ absurd (ground arith)
    | inr e ↦
        let taken : ok t ≡ ok s =
          subst
            (λ b.
              result {Db = Db} (
                if b
                then (remove text_discrete sid c, delete_session db sid, err unauthorized)
                else (insert text_discrete sid t c, db, ok t))
              ≡ ok s)
            e h in
        let same : t ≡ s = ok-injective t s taken in
        let le : now ≤ t.expires_at = ground arith in
        rw e (
          subst (λ x. now ≤ x.expires_at) same le,
          ap (λ x. fetched (some x)) same,
          get-insert_self text_discrete sid t c ∙ ap some same,
        )
  ]

  -- A session is accepted only before it expires, and only if the cache or the database holds it under
  -- that name; then the cache holds it.
  pub validate_ok :
      (now : ℕ) (sid : Text) (c : SessionCache) (db : Db) (s : Session)
      → (validate get_session delete_session now sid c db).2 ≡ ok s
      → (now ≤ s.expires_at)
        × ((get text_discrete sid c ≡ some s) ⊎ (get_session db sid ≡ fetched (some s)))
        × (get text_discrete sid (validate get_session delete_session now sid c db).0 ≡ some s)
  unfolding validate look_up slow_path
  validate_ok now sid c db s h = elim (Option-cases (get text_discrete sid c)) [
    | inl n ↦
        let slow = subst (λ o. (look_up get_session delete_session now sid c db o).2 ≡ ok s) n h in
        let (le, from, held) = accept_ok now sid c db s (get_session db sid) slow in
        rw n (le, inr from, held)
    | inr (t, q) ↦
        let found = subst (λ o. (look_up get_session delete_session now sid c db o).2 ≡ ok s) q h in
        elim (Bool-cases (leb now t.expires_at)) [
          | inl e ↦
              let same : t ≡ s = ok-injective t s (
                subst
                  (λ b.
                    result {Db = Db} (
                      if b
                      then (c, db, ok t)
                      else slow_path get_session delete_session now sid (remove text_discrete sid c)
                          db)
                    ≡ ok s)
                  e found) in
              let le : now ≤ t.expires_at = ground arith in
              rw (q, e)
                (subst (λ x. now ≤ x.expires_at) same le, inl (ap some same), q ∙ ap some same)
          | inr e ↦
              let slow =
                subst
                  (λ b.
                    result {Db = Db} (
                      if b
                      then (c, db, ok t)
                      else slow_path get_session delete_session now sid (remove text_discrete sid c)
                          db)
                    ≡ ok s)
                  e found in
              let (le, from, held) =
                accept_ok now sid (remove text_discrete sid c) db s (get_session db sid) slow in
              rw (q, e) (le, inr from, held)
        ]
  ]
