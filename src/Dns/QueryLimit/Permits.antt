-- ===== src/Dns/QueryLimit/Permits.antt =====
-- The limiter under any interleaving of its tasks: a task reserves, then claims, and drops its permit
-- later, each in one atomic step.
use nimbusdns.Common.{
  ℕ, ◌+◌, ◌-◌, ◌≤◌, max, ◌≡◌, refl, ap, inl, inr, true, false, List, [], ◌∷◌, ◌++◌, length,
  length-append, leb, ◌==◌, ℕ_discrete, arith, Option-cases, if◌then◌else◌,
}
use nimbusdns.Common.Map.{get, get-insert, get-remove}
use nimbusdns.Dns.QueryLimit.{
  QueryLimiter, new, or_zero, decrement, give_back, reserve, claim, drop_permit,
}

-- The limiter, the clients of the permits that are held, and those of the tasks between the halves of
-- `try_acquire`.
pub record World : Type 0 where
  pub limiter : QueryLimiter
  pub held : List ℕ
  pub pending : List ℕ

pub data Step : World → World → Type 0 where
  reserved :
      (ip : ℕ) (w : World)
      → (reserve ip w.limiter).1 ≡ true
      → Step w (record w { limiter = (reserve ip w.limiter).0; pending = ip ∷ w.pending })
  refused :
      (ip : ℕ) (w : World)
      → (reserve ip w.limiter).1 ≡ false
      → Step w (record w { limiter = (reserve ip w.limiter).0 })
  claimed :
      (ip : ℕ) (w : World) (xs ys : List ℕ)
      → w.pending ≡ xs ++ ip ∷ ys
      → (claim ip w.limiter).1 ≡ true
      → Step w
          (record w { limiter = (claim ip w.limiter).0; held = ip ∷ w.held; pending = xs ++ ys })
  turned_away :
      (ip : ℕ) (w : World) (xs ys : List ℕ)
      → w.pending ≡ xs ++ ip ∷ ys
      → (claim ip w.limiter).1 ≡ false
      → Step w (record w { limiter = (claim ip w.limiter).0; pending = xs ++ ys })
  dropped :
      (ip : ℕ) (w : World) (xs ys : List ℕ)
      → w.held ≡ xs ++ ip ∷ ys
      → Step w (record w { limiter = drop_permit ip w.limiter; held = xs ++ ys })

pub data Reachable (start : World) : World → Type 0 where
  at_start : Reachable start start
  then_step : {v w : World} → Reachable start v → Step v w → Reachable start w

-- How often a client stands in a list.
unfoldable pub count : ℕ → List ℕ → ℕ
count ip [] = 0
count ip (j ∷ js) = let rest = count ip js in if j == ip then rest + 1 else rest

abbrev pub flying : ℕ → QueryLimiter → ℕ
flying ip l = or_zero (get ℕ_discrete ip l.in_flight)

-- With `total` permits and `limit` queries per client in all.
pub record Balanced (total limit : ℕ) (w : World) : Type 0 where
  pub counts : (ip : ℕ) → flying ip w.limiter ≡ count ip w.held + count ip w.pending
  pub per_client : (ip : ℕ) → flying ip w.limiter ≤ limit
  pub permits : w.limiter.sem + length w.held ≡ total
  pub same_limit : w.limiter.per_client ≡ limit

count-append : (ip : ℕ) (xs ys : List ℕ) → count ip (xs ++ ys) ≡ count ip xs + count ip ys
unfolding count
count-append ip [] ys = omega arith
count-append ip (x ∷ xs) ys = ground (arith, count-append ip xs ys)

count-take_out :
    (j ip : ℕ) (xs ys : List ℕ)
    → count j (xs ++ ip ∷ ys) ≡ (if ip == j then count j (xs ++ ys) + 1 else count j (xs ++ ys))
unfolding count
count-take_out j ip xs ys = ground (arith, count-append j xs (ip ∷ ys), count-append j xs ys)

length-take_out : (ip : ℕ) (xs ys : List ℕ) → length (xs ++ ip ∷ ys) ≡ length (xs ++ ys) + 1
length-take_out ip xs ys = omega (arith, length-append xs (ip ∷ ys), length-append xs ys)

-- What the two changes of the counts do.
flying-give_back :
    (j ip : ℕ) (l : QueryLimiter)
    → flying j (give_back ip l) ≡ (if ip == j then flying j l - 1 else flying j l)
unfolding give_back decrement or_zero
flying-give_back j ip l = elim (Option-cases (get ℕ_discrete ip l.in_flight)) [
  | inl n ↦ rw n (ground arith)
  | inr (n, q) ↦ rw q (
      ground (
        arith,
        get-remove ℕ_discrete j ip l.in_flight,
        get-insert ℕ_discrete j ip (n - 1) l.in_flight,
      ))
]

flying-reserve :
    (j ip : ℕ) (l : QueryLimiter)
    → flying j (reserve ip l).0 ≡ (
        if ip == j
        then if leb l.per_client (flying ip l) then flying j l else flying j l + 1
        else flying j l)
unfolding reserve or_zero
flying-reserve j ip l = ground (
  arith,
  get-insert ℕ_discrete j ip (or_zero (get ℕ_discrete ip l.in_flight)) l.in_flight,
  get-insert ℕ_discrete j ip (or_zero (get ℕ_discrete ip l.in_flight) + 1) l.in_flight,
)

give_back-sem :
    (ip : ℕ) (l : QueryLimiter)
    → ((give_back ip l).sem ≡ l.sem) × ((give_back ip l).per_client ≡ l.per_client)
unfolding give_back
give_back-sem ip l = (refl, refl)

Step-Balanced :
    {total limit : ℕ} {v w : World} → Step v w → Balanced total limit v → Balanced total limit w
unfolding count reserve claim drop_permit
Step-Balanced (reserved ip v e) b = record {
  counts = λ j. ground (arith, b.counts j, flying-reserve j ip v.limiter);
  per_client = λ j. ground (arith, b.per_client j, b.same_limit, flying-reserve j ip v.limiter);
  permits = ground (arith, b.permits);
  same_limit = ground (arith, b.same_limit);
}
Step-Balanced (refused ip v e) b = record {
  counts = λ j. ground (arith, b.counts j, flying-reserve j ip v.limiter);
  per_client = λ j. ground (arith, b.per_client j, b.same_limit, flying-reserve j ip v.limiter);
  permits = ground (arith, b.permits);
  same_limit = ground (arith, b.same_limit);
}
Step-Balanced (claimed ip v xs ys p e) b = record {
  counts = λ j. ground (arith, b.counts j, ap (count j) p, count-take_out j ip xs ys);
  per_client = λ j. ground (arith, b.per_client j);
  permits = ground (arith, b.permits);
  same_limit = ground (arith, b.same_limit);
}
Step-Balanced (turned_away ip v xs ys p e) b = record {
  counts = λ j. ground (
    arith,
    b.counts j,
    ap (count j) p,
    count-take_out j ip xs ys,
    flying-give_back j ip v.limiter,
  );
  per_client = λ j. ground (arith, b.per_client j, flying-give_back j ip v.limiter);
  permits = ground (arith, b.permits, give_back-sem ip v.limiter);
  same_limit = ground (arith, b.same_limit, give_back-sem ip v.limiter);
}
Step-Balanced (dropped ip v xs ys p) b = record {
  counts = λ j. ground (
    arith,
    b.counts j,
    ap (count j) p,
    count-take_out j ip xs ys,
    flying-give_back j ip v.limiter,
  );
  per_client = λ j. ground (arith, b.per_client j, flying-give_back j ip v.limiter);
  permits =
      ground (arith, b.permits, give_back-sem ip v.limiter, ap length p, length-take_out ip xs ys);
  same_limit = ground (arith, b.same_limit, give_back-sem ip v.limiter);
}

abbrev pub initial : ℕ → ℕ → World
initial max_concurrent per_client = record {
  limiter = new max_concurrent per_client;
  held = [];
  pending = [];
}

start-Balanced : (m p : ℕ) → Balanced (max m 1) (max p 1) (initial m p)
unfolding new or_zero get count
start-Balanced m p = record {
  counts = λ ip. refl;
  per_client = λ ip. omega arith;
  permits = omega arith;
  same_limit = refl;
}

-- Whatever the order in which the tasks reserve, claim and drop: the count of each client is the
-- number of its permits and of its tasks that are about to claim one, and within the limit per client;
-- the free permits and those that are held make up the limit in all. So no count leaks.
pub Reachable-Balanced :
    (max_concurrent per_client : ℕ) (w : World)
    → Reachable (initial max_concurrent per_client) w
    → Balanced (max max_concurrent 1) (max per_client 1) w
Reachable-Balanced m p w r = go r
  where
    go : {w : World} → Reachable (initial m p) w → Balanced (max m 1) (max p 1) w
    go at_start = start-Balanced m p
    go (then_step r s) = Step-Balanced s (go r)
