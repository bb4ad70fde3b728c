-- ===== src/Auth/Limiter/Sliding.antt =====
-- The bound on the attempts within any window, over a run of checks of all keys.
use native.Mathlib.Nat.{le_trans}
use nimbusdns.Common.{
  ℕ, ◌+◌, ◌≤◌, ◌<◌, ◌≡◌, ◌≢◌, refl, sym, ◌∙◌, subst, inl, inr, Bool, true, false, none, List, [],
  ◌∷◌, ◌++◌, keep, length, length-append, leb, arith, Bool-cases, if◌then◌else◌, if_neg,
}
use nimbusdns.Common.Map.{get, get-insert, get-insert_self}
use nimbusdns.Blocking.Wildcard.{Text, text_discrete, same}
use nimbusdns.Auth.Limiter.{AuthRateLimiter, stamps, in_window, attempt, check}

-- The times in the window that ends at `now`.
unfoldable pub within : ℕ → ℕ → List ℕ → ℕ
within window now [] = 0
within window now (t ∷ ts) =
    let rest = within window now ts in if in_window window now t then rest + 1 else rest

-- The limiter after a run of checks, each with its key and time, and the times at which those of one
-- key were allowed.
unfoldable pub run : List (Text × ℕ) → AuthRateLimiter → AuthRateLimiter
run [] l = l
run ((k, now) ∷ checks) l = run checks (check k now l).0

unfoldable pub log : Text → List (Text × ℕ) → AuthRateLimiter → List ℕ → List ℕ
log key [] l done = done
log key ((k, now) ∷ checks) l done =
    log key checks (check k now l).0
      (if same k key then if (check k now l).1 then now ∷ done else done else done)

-- The times do not decrease, from one that is given, and end before another.
abbrev pub Ordered : ℕ → List (Text × ℕ) → ℕ → Type 0
Ordered last [] end = last ≤ end
Ordered last ((k, now) ∷ checks) end = (last ≤ now) × Ordered now checks end

-- The stamps that are kept account for every allowed time that a window from now on can hold.
abbrev pub Accounts : ℕ → ℕ → ℕ → List ℕ → List ℕ → Type 0
Accounts window max last ts done =
    (length ts ≤ max) × ((end : ℕ) → last ≤ end → within window end ts ≡ within window end done)

within-le : (window now : ℕ) (ts : List ℕ) → within window now ts ≤ length ts
unfolding within
within-le window now [] = omega arith
within-le window now (t ∷ ts) = ground (arith, within-le window now ts)

within-keep :
    (window now end : ℕ) (ts : List ℕ)
    → now ≤ end
    → within window end (keep (in_window window now) ts) ≡ within window end ts
unfolding within in_window
within-keep window now end [] le = refl
within-keep window now end (t ∷ ts) le = ground (arith, within-keep window now end ts le)

within-append :
    (window end now : ℕ) (ts : List ℕ)
    → within window end (ts ++ now ∷ []) ≡ within window end (now ∷ ts)
unfolding within
within-append window end now [] = refl
within-append window end now (t ∷ ts) = ground (arith, within-append window end now ts)

within-cons :
    (window end now : ℕ) (ts us : List ℕ)
    → within window end ts ≡ within window end us
    → within window end (now ∷ ts) ≡ within window end (now ∷ us)
unfolding within
within-cons window end now ts us e = ground arith

ltb_of : {a b : ℕ} → leb a b ≡ false → b < a
ltb_of h = ground arith

length-keep : (p : ℕ → Bool) (ts : List ℕ) → length (keep p ts) ≤ length ts
length-keep p [] = omega arith
length-keep p (t ∷ ts) = ground (arith, length-keep p ts)

-- One attempt keeps the account.
attempt-Accounts :
    (window max last now : ℕ) (ts done : List ℕ)
    → last ≤ now
    → Accounts window max last ts done
    → Accounts window max now
        (attempt max now (keep (in_window window now) ts)).0
        (if (attempt max now (keep (in_window window now) ts)).1 then now ∷ done else done)
unfolding attempt
attempt-Accounts window max last now ts done le a =
    elim (Bool-cases (leb max (length (keep (in_window window now) ts)))) [
      | inl t ↦ rw t (
        omega (arith, length-keep (in_window window now) ts, a.0),
        λ end h. within-keep window now end ts h ∙ a.1 end (omega arith),
      )
      | inr f ↦ rw f (
        omega (arith, ltb_of f, length-append (keep (in_window window now) ts) (now ∷ [])),
        λ end h.
            within-append window end now (keep (in_window window now) ts)
            ∙ within-cons window end now _ _
                (within-keep window now end ts h ∙ a.1 end (omega arith)),
      )
    ]

check-max :
    (k : Text) (now : ℕ) (l : AuthRateLimiter)
    → ((check k now l).0.max_attempts ≡ l.max_attempts)
      × ((check k now l).0.window_secs ≡ l.window_secs)
unfolding check
check-max k now l = (refl, refl)

later :
    (window max last now : ℕ) (ts done : List ℕ)
    → last ≤ now
    → Accounts window max last ts done
    → Accounts window max now ts done
later window max last now ts done le a = (a.0, λ end h. a.1 end (le_trans le h))

check_other :
    (key k : Text) (now : ℕ) (l : AuthRateLimiter)
    → k ≢ key
    → get text_discrete key (check k now l).0.attempts ≡ get text_discrete key l.attempts
unfolding check
check_other key k now l ne =
    get-insert text_discrete key k _ l.attempts ∙ if_neg (text_discrete k key) ne _ _

check_same :
    (key : Text) (now : ℕ) (l : AuthRateLimiter)
    → let r =
        attempt l.max_attempts now
          (keep (in_window l.window_secs now) (stamps (get text_discrete key l.attempts))) in
      (stamps (get text_discrete key (check key now l).0.attempts) ≡ r.0)
      × ((check key now l).1 ≡ r.1)
unfolding check stamps
check_same key now l = (rw (get-insert_self text_discrete key _ l.attempts) refl, refl)

same_refl : (a : Text) → same a a ≡ true
unfolding same
same_refl a = ground (arith, text_discrete a a)

same_ne : (a b : Text) → a ≢ b → same a b ≡ false
unfolding same
same_ne a b ne = ground (arith, text_discrete a b)

check-Accounts :
    (key : Text) (last now : ℕ) (l : AuthRateLimiter) (done : List ℕ)
    → last ≤ now
    → Accounts l.window_secs l.max_attempts last (stamps (get text_discrete key l.attempts)) done
    → Accounts l.window_secs l.max_attempts now
        (stamps (get text_discrete key (check key now l).0.attempts))
        (if (check key now l).1 then now ∷ done else done)
check-Accounts key last now l done le a =
    let c = check_same key now l in
    rw (c.0, c.1) (attempt-Accounts l.window_secs l.max_attempts last now _ done le a)

log-within :
    (key : Text) (window max end last : ℕ) (checks : List (Text × ℕ)) (l : AuthRateLimiter)
    (done : List ℕ)
    → l.max_attempts ≡ max
    → l.window_secs ≡ window
    → Accounts window max last (stamps (get text_discrete key l.attempts)) done
    → Ordered last checks end
    → within window end (log key checks l done) ≤ max
unfolding log
log-within key window max end last [] l done m w a o =
    subst (λ n. n ≤ max) (a.1 end o) (le_trans (within-le window end _) a.0)
log-within key window max end last ((k, now) ∷ checks) l done m w a o = elim (text_discrete k key) [
  | yes e ↦
      let a' =
        subst (λ x. Accounts l.window_secs x last (stamps (get text_discrete key l.attempts)) done)
          (sym m)
          (subst (λ x. Accounts x max last (stamps (get text_discrete key l.attempts)) done) (sym w)
            a) in
      let b = check-Accounts key last now l done o.0 a' in
      let b' =
        subst
          (λ x.
            Accounts x max now (stamps (get text_discrete key (check key now l).0.attempts))
              (if (check key now l).1 then now ∷ done else done))
          w
          (subst
            (λ x.
              Accounts l.window_secs x now
                (stamps (get text_discrete key (check key now l).0.attempts))
                (if (check key now l).1 then now ∷ done else done))
            m b) in
      subst (λ x. within window end (log key ((x, now) ∷ checks) l done) ≤ max) (sym e)
        (rw (same_refl key) (
          log-within key window max end now checks (check key now l).0 _
            ((check-max key now l).0 ∙ m) ((check-max key now l).1 ∙ w) b' o.1))
  | no ne ↦
      let apart : same k key ≡ false = same_ne k key ne in
      rw apart (
        log-within key window max end now checks (check k now l).0 done ((check-max k now l).0 ∙ m)
          ((check-max k now l).1 ∙ w)
          (rw (check_other key k now l ne) (later window max last now _ done o.0 a)) o.1)
]

-- Of the attempts of a key at times that do not decrease, interleaved with those of any other keys, at
-- most `max_attempts` are allowed within any window of `window_secs` seconds that ends no earlier than
-- the last of them, if none is on record at first.
pub check_sliding :
    (key : Text) (end : ℕ) (checks : List (Text × ℕ)) (l : AuthRateLimiter)
    → get text_discrete key l.attempts ≡ none
    → Ordered 0 checks end
    → within l.window_secs end (log key checks l []) ≤ l.max_attempts
unfolding stamps
check_sliding key end checks l g o =
    log-within key l.window_secs l.max_attempts end 0 checks l [] refl refl
      (rw g (omega arith, λ end h. refl)) o
