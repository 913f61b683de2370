-- ===== src/RateLimit/Refused.antt =====
-- When a check is refused, and how long the wait is.
use saas_genai_starter.Common.{
  ℕ, ◌+◌, ◌*◌, ◌≤◌, ◌<◌, ◌≡◌, refl, sym, ap, subst, ◌∙◌, ◌⊎◌, true, false, Option, none, some, List,
  [], ◌∷◌, arith, leb, min, length, inl, inr, Bool-cases, Option-cases,
}
use saas_genai_starter.RateLimit.Store.{Redis, Reliable, fresh, least}
use saas_genai_starter.RateLimit.{
  window_ms, day_of, retry_after_seconds, seconds_until_midnight, second_of_day, passed, exceeded,
  refuse, admit, counted, check_requests, over, check_tokens, then_tokens, answer, check,
}

-- The wait for the daily budget ends with the second in which the day does.
pub seconds_until_midnight_lem : (now : ℕ) → second_of_day now + seconds_until_midnight now ≡ 86400
unfolding seconds_until_midnight
seconds_until_midnight_lem now = omega arith

length-fresh : (t w : ℕ) (xs : List ℕ) → length (fresh t w xs) ≤ length xs
length-fresh t w [] = omega arith
length-fresh t w (x ∷ xs) = ground (arith, length-fresh t w xs)

-- An entry that is no longer fresh is dropped.
fresh_drops :
    (t w m : ℕ) (xs : List ℕ) → least xs ≡ some m → m + w ≤ t → length (fresh t w xs) < length xs
fresh_drops t w m [] e h = cc
fresh_drops t w m (x ∷ xs) e h = elim (Option-cases (least xs)) [
  | inl empty ↦ ground (arith, length-fresh t w xs)
  | inr (n, below) ↦ ground (arith, length-fresh t w xs, fresh_drops t w n xs below)
]

least-some : (xs : List ℕ) → 0 < length xs → (m : ℕ) × (least xs ≡ some m)
least-some [] h = elim h [ ]
least-some (x ∷ xs) h = elim (Option-cases (least xs)) [
  | inl empty ↦ (x, rw empty refl)
  | inr (m, e) ↦ (min x m, rw e refl)
]

retry_after_late : (m now : ℕ) → m + window_ms ≤ now + 1000 * retry_after_seconds (some m) now
unfolding retry_after_seconds
retry_after_late m now = omega arith

exceeded_inj : (a b : ℕ) → exceeded a ≡ exceeded b → a ≡ b
exceeded_inj a b e = cc

module _ {R : Type 0} (redis : Redis R) where
  -- the budgets that a refusal shows to be used up
  Spent : ℕ → ℕ → ℕ → ℕ → Option ℕ → Type 0
  Spent k rpm tpd now n =
      ((c : ℕ) × (n ≡ some c) × (rpm ≤ c))
      ⊎ ((u : ℕ) × (r : R) × ((redis.used k (day_of now) r).0 ≡ some (some u)) × (tpd ≤ u))

  over-refused :
      (tpd now s : ℕ) (p : Option (Option ℕ) × R)
      → answer redis (over redis tpd now p).0 ≡ some s
      → (u : ℕ) × (p.0 ≡ some (some u)) × (tpd ≤ u)
  unfolding over
  over-refused tpd now s (none, r) e = absurd (ground arith)
  over-refused tpd now s (some none, r) e = absurd (ground arith)
  over-refused tpd now s (some (some u), r) e = (u, refl, ground arith)

  admit-refused :
      (k rpm tpd now s : ℕ) (n : Option ℕ) (p : Option (Unit {0}) × R)
      → answer redis (then_tokens redis k tpd now (admit redis p)).0 ≡ some s
      → Spent k rpm tpd now n
  unfolding admit then_tokens check_tokens Spent
  admit-refused k rpm tpd now s n (none, r) e = absurd (ground arith)
  admit-refused k rpm tpd now s n (some done, r) e =
      let (u, f, le) = over-refused tpd now s (redis.used k (day_of now) r) e in inr (u, r, f, le)

  counted-refused :
      (k rpm tpd now s : ℕ) (p : Option ℕ × R)
      → answer redis (then_tokens redis k tpd now (counted redis k rpm now p)).0 ≡ some s
      → Spent k rpm tpd now p.0
  unfolding counted then_tokens
  counted-refused k rpm tpd now s (none, r) e = absurd (ground arith)
  counted-refused k rpm tpd now s (some n, r) e = elim (Bool-cases (leb rpm n)) [
    | inl full ↦ unfold Spent in inl (n, refl, ground arith)
    | inr room ↦ admit-refused k rpm tpd now s (some n) (redis.push k now r) (rw room at e)
  ]

  -- A request is refused only if Redis replied, and its reply tells that one of the two budgets is
  -- used up: whichever call of Redis fails, the request is allowed.
  pub check_refused :
      (k rpm tpd now s : ℕ) (r : R)
      → (check redis k (rpm, tpd) now r).0 ≡ some s
      → ((n : ℕ) × ((redis.prune k now window_ms r).0 ≡ some n) × (rpm ≤ n))
        ⊎ ((u : ℕ) × (r' : R) × ((redis.used k (day_of now) r').0 ≡ some (some u)) × (tpd ≤ u))
  unfolding check check_requests Spent
  check_refused k rpm tpd now s r e =
      counted-refused k rpm tpd now s (redis.prune k now window_ms r) e

  module _ (up : Reliable redis) where
    pub full_refused :
        (k rpm now : ℕ) (r : R)
        → rpm ≤ length (fresh now window_ms (up.scores r k))
        → let r' = (redis.prune k now window_ms r).1 in
          check_requests redis k rpm now r
          ≡ (exceeded (retry_after_seconds (least (up.scores r' k)) now), r')
    unfolding check_requests counted refuse
    full_refused k rpm now r h =
        let r' : R = (redis.prune k now window_ms r).1 in
        let full : leb rpm (length (fresh now window_ms (up.scores r k))) ≡ true = ground arith in
        rw (up.prune_up k now window_ms r, full, up.oldest_up k r') refl

    pub room_checked :
        (k rpm now : ℕ) (r : R)
        → length (fresh now window_ms (up.scores r k)) < rpm
        → check_requests redis k rpm now r
          ≡ (passed, (redis.push k now ((redis.prune k now window_ms r).1)).1)
    unfolding check_requests counted admit
    room_checked k rpm now r h =
        let room : leb rpm (length (fresh now window_ms (up.scores r k))) ≡ false = ground arith in
        rw
          (
            up.prune_up k now window_ms r,
            room,
            up.push_up k now ((redis.prune k now window_ms r).1),
          )
          refl

    room_passes :
        (k rpm now : ℕ) (r : R)
        → length (fresh now window_ms (up.scores r k)) < rpm
        → (check_requests redis k rpm now r).0 ≡ passed
    room_passes k rpm now r h = ap (λ x. x.0) (room_checked k rpm now r h)

    own_scores :
        (k now : ℕ) (r : R)
        → up.scores ((redis.prune k now window_ms r).1) k ≡ fresh now window_ms (up.scores r k)
    own_scores k now r = ground (arith, up.prune_scores k k now window_ms r)

    -- A request that is refused by the limit of the minute, with no more recorded than the limit, is
    -- admitted by that limit once the seconds of its `retry_after_seconds` are over, if nothing else was
    -- recorded in the meantime.
    pub retry_after_enough :
        (k rpm now s : ℕ) (r r' : R)
        → check_requests redis k rpm now r ≡ (exceeded s, r')
        → length (fresh now window_ms (up.scores r k)) ≤ rpm
        → 0 < rpm
        → (check_requests redis k rpm (now + 1000 * s) r').0 ≡ passed
    retry_after_enough k rpm now s r r' e le pos =
        elim (Bool-cases (leb rpm (length (fresh now window_ms (up.scores r k))))) [
          | inr room ↦
              let p = room_passes k rpm now r (ground arith) in absurd (cc (p, ap (λ x. x.0) e))
          | inl full ↦
              let f = full_refused k rpm now r (ground arith) in
              let (m, first) = least-some (fresh now window_ms (up.scores r k)) (ground arith) in
              let both = sym f ∙ e in
              let late = retry_after_late m now in
              let waits : retry_after_seconds (some m) now ≡ s = exceeded_inj _ _ (
                subst (λ o. exceeded (retry_after_seconds o now) ≡ exceeded s)
                  (ap least (own_scores k now r) ∙ first) (ap (λ x. x.0) both)) in
              subst (λ x. (check_requests redis k rpm (now + 1000 * s) x).0 ≡ passed)
                (ap (λ x. x.1) both)
                (room_passes k rpm (now + 1000 * s) ((redis.prune k now window_ms r).1) (
                  subst (λ ys. length (fresh (now + 1000 * s) window_ms ys) < rpm)
                    (sym (own_scores k now r))
                    (omega (
                      arith,
                      le,
                      fresh_drops (now + 1000 * s) window_ms m (fresh now window_ms (up.scores r k))
                          first (subst (λ x. m + window_ms ≤ now + 1000 * x) waits late),
                    ))))
        ]
