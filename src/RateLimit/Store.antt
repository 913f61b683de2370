-- ===== src/RateLimit/Store.antt =====
-- What the limiter uses of Redis. Each call replies `none` where it raises a RedisError.
use saas_genai_starter.Common.{
  ℕ, ◌+◌, [], min, ◌≡◌, ◌&&◌, ◌==◌, if◌then◌else◌, Option, none, some, List, ◌∷◌, ltb, keep_if,
  length, or_else,
}

-- A score is kept while it is in the window of `w` milliseconds that ends at `now`.
abbrev pub fresh : ℕ → ℕ → List ℕ → List ℕ
fresh now w = keep_if (λ s. ltb now (s + w))

-- the smallest number of a list
abbrev pub least : List ℕ → Option ℕ
least [] = none
least (x ∷ xs) = elim (least xs) [ none ↦ some x | some m ↦ some (min x m) ]

pub record Redis (R : Type 0) : Type 0 where
  -- ZREMRANGEBYSCORE up to `now - w`, and ZCARD, in one transaction
  pub prune : ℕ → ℕ → ℕ → R → Option ℕ × R
  -- ZRANGE 0 0 WITHSCORES
  pub oldest : ℕ → R → Option (Option ℕ) × R
  -- ZADD of a new member, and EXPIRE, in one transaction
  pub push : ℕ → ℕ → R → Option (Unit {0}) × R
  -- GET of the counter of a tenant and a day
  pub used : ℕ → ℕ → R → Option (Option ℕ) × R
  -- INCRBY and EXPIRE, in one transaction
  pub incrby : ℕ → ℕ → ℕ → R → Option (Unit {0}) × R

-- The behaviour that is documented for a server that can be reached. `scores` are those of a
-- tenant's sorted set, and `counter` is 0 for a key that is not there. An expiry removes only what
-- is out of its window, or the counter of a day that is over.
pub record Reliable {R : Type 0} (redis : Redis R) : Type 0 where
  pub scores : R → ℕ → List ℕ
  pub counter : R → ℕ → ℕ → ℕ
  pub prune_up :
      (k now w : ℕ) (r : R) → (redis.prune k now w r).0 ≡ some (length (fresh now w (scores r k)))
  pub prune_scores :
      (k j now w : ℕ) (r : R)
      → scores ((redis.prune k now w r).1) j
        ≡ (if j == k then fresh now w (scores r j) else scores r j)
  pub prune_counter :
      (k now w j d : ℕ) (r : R) → counter ((redis.prune k now w r).1) j d ≡ counter r j d
  pub oldest_up : (k : ℕ) (r : R) → redis.oldest k r ≡ (some (least (scores r k)), r)
  pub push_up : (k now : ℕ) (r : R) → (redis.push k now r).0 ≡ some tt
  pub push_scores :
      (k j now : ℕ) (r : R)
      → scores ((redis.push k now r).1) j ≡ (if j == k then now ∷ scores r j else scores r j)
  pub push_counter : (k now j d : ℕ) (r : R) → counter ((redis.push k now r).1) j d ≡ counter r j d
  pub used_up :
      (k d : ℕ) (r : R)
      → (o : Option ℕ) × (redis.used k d r ≡ (some o, r)) × (or_else o 0 ≡ counter r k d)
  pub incrby_counter :
      (k d n j e : ℕ) (r : R)
      → counter ((redis.incrby k d n r).1) j e
        ≡ (if (j == k) && (e == d) then counter r j e + n else counter r j e)
  pub incrby_scores : (k d n j : ℕ) (r : R) → scores ((redis.incrby k d n r).1) j ≡ scores r j
