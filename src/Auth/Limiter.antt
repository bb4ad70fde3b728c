-- ===== src/Auth/Limiter.antt =====
-- `AuthRateLimiter`: the attempts of each key within a sliding window.
pub mod Sliding
use nimbusdns.Common.{
  ℕ, ◌+◌, Bool, true, false, Option, none, some, List, [], ◌∷◌, ◌++◌, keep, length, ltb, leb,
  if◌then◌else◌,
}
use nimbusdns.Common.Map.{get, insert, remove}
use nimbusdns.Blocking.Wildcard.{Text, text_discrete}

pub record AuthRateLimiter : Type 0 where
  pub attempts : List (Text × List ℕ)
  pub max_attempts : ℕ
  pub window_secs : ℕ

unfoldable pub new : ℕ → ℕ → AuthRateLimiter
new max_attempts window_secs = record {
  attempts = [];
  max_attempts = max_attempts;
  window_secs = window_secs;
}

-- `or_default()`
unfoldable pub stamps : Option (List ℕ) → List ℕ
stamps none = []
stamps (some ts) = ts

-- `t > now - window` on integers.
unfoldable pub in_window : ℕ → ℕ → ℕ → Bool
in_window window now t = ltb now (t + window)

unfoldable pub attempt : ℕ → ℕ → List ℕ → List ℕ × Bool
attempt max now ts = if leb max (length ts) then (ts, false) else (ts ++ now ∷ [], true)

unfoldable pub check : Text → ℕ → AuthRateLimiter → AuthRateLimiter × Bool
check key now l =
    let r =
      attempt l.max_attempts now
        (keep (in_window l.window_secs now) (stamps (get text_discrete key l.attempts))) in
    (record l { attempts = insert text_discrete key (r.0) l.attempts }, r.1)

unfoldable pub record_success : Text → AuthRateLimiter → AuthRateLimiter
record_success key l = record l { attempts = remove text_discrete key l.attempts }
