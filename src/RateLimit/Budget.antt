-- ===== src/RateLimit/Budget.antt =====
-- The daily budget of tokens.
use saas_genai_starter.Common.{
  ℕ, ◌+◌, ◌≤◌, ◌<◌, ◌≡◌, refl, ◌∙◌, ◌&&◌, Option, none, some, List, [], ◌∷◌, arith, leb, ◌==◌,
  if◌then◌else◌, length, inl, inr, Bool-cases, or_else,
}
use saas_genai_starter.RateLimit.Store.{Redis, Reliable, fresh, least}
use saas_genai_starter.RateLimit.Refused.{full_refused, room_checked}
use saas_genai_starter.RateLimit.{
  window_ms, day_of, retry_after_seconds, seconds_until_midnight, exceeded, over, check_tokens,
  then_tokens, check, tokens_used_today, used_or_zero, record_tokens,
}

-- A recorded call of a tenant, with its tokens, or a check under the tenant's limits, and the time.
pub data LimiterUse : Type 0 where
  a_record : ℕ → ℕ → ℕ → LimiterUse
  a_check : ℕ → ℕ × ℕ → ℕ → LimiterUse

module _ {R : Type 0} (redis : Redis R) (up : Reliable redis) where
  -- the tokens of a list of uses that one tenant's counter of one day counts
  abbrev pub spent : ℕ → ℕ → List LimiterUse → ℕ
  spent k d [] = 0
  spent k d (a_record j n now ∷ us) =
      (if (k == j) && (d == day_of now) then n else 0) + spent k d us
  spent k d (a_check j limits now ∷ us) = spent k d us

  -- the uses one after the other, each check with whatever it answers
  abbrev pub use_all : List LimiterUse → R → R
  use_all [] r = r
  use_all (a_record j n now ∷ us) r = use_all us (record_tokens redis j n now r)
  use_all (a_check j limits now ∷ us) r = use_all us (check redis j limits now r).1

  record_tokens-counter :
      (k d j n now : ℕ) (r : R)
      → up.counter (record_tokens redis j n now r) k d
        ≡ (if (k == j) && (d == day_of now) then n else 0) + up.counter r k d
  unfolding record_tokens
  record_tokens-counter k d j n now r = ground (arith, up.incrby_counter j (day_of now) n k d r)

  over_keeps : (limit now : ℕ) (o : Option (Option ℕ)) (r : R) → (over redis limit now (o, r)).1 ≡ r
  unfolding over
  over_keeps limit now none r = refl
  over_keeps limit now (some none) r = refl
  over_keeps limit now (some (some u)) r = ground arith

  -- A check, refused or not, changes no counter.
  check-counter :
      (k d j rpm tpd now : ℕ) (r : R)
      → up.counter (check redis j (rpm, tpd) now r).1 k d ≡ up.counter r k d
  unfolding check then_tokens check_tokens
  check-counter k d j rpm tpd now r =
      let r1 : R = (redis.prune j now window_ms r).1 in
      let r2 : R = (redis.push j now r1).1 in
      elim (Bool-cases (leb rpm (length (fresh now window_ms (up.scores r j))))) [
        | inl full ↦
            rw (full_refused redis up j rpm now r (ground arith))
              (up.prune_counter j now window_ms k d r)
        | inr room ↦
            let (o, e, c) = up.used_up j (day_of now) r2 in
            rw (room_checked redis up j rpm now r (ground arith), e, over_keeps tpd now (some o) r2)
              (up.push_counter j now k d r1 ∙ up.prune_counter j now window_ms k d r)
      ]

  use_all-counter :
      (k d : ℕ) (us : List LimiterUse) (r : R)
      → up.counter (use_all us r) k d ≡ spent k d us + up.counter r k d
  use_all-counter k d [] r = omega arith
  use_all-counter k d (a_record j n now ∷ us) r = omega (
    arith,
    record_tokens-counter k d j n now r,
    use_all-counter k d us (record_tokens redis j n now r),
  )
  use_all-counter k d (a_check j (rpm, tpd) now ∷ us) r = omega (
    arith,
    check-counter k d j rpm tpd now r,
    use_all-counter k d us (check redis j (rpm, tpd) now r).1,
  )

  used_or_zero_lem : (o : Option ℕ) → used_or_zero redis (some o) ≡ or_else o 0
  unfolding used_or_zero
  used_or_zero_lem none = refl
  used_or_zero_lem (some n) = refl

  over_refused :
      (tpd now : ℕ) (o : Option ℕ) (r : R)
      → 0 < tpd
      → tpd ≤ or_else o 0
      → (over redis tpd now (some o, r)).0 ≡ exceeded (seconds_until_midnight now)
  unfolding over
  over_refused tpd now none r pos h = absurd (omega arith)
  over_refused tpd now (some u) r pos h = ground arith

  budget_refused :
      (k rpm tpd now : ℕ) (r : R)
      → 0 < tpd
      → tpd ≤ up.counter r k (day_of now)
      → (s : ℕ) × ((check redis k (rpm, tpd) now r).0 ≡ some s)
  unfolding check then_tokens check_tokens
  budget_refused k rpm tpd now r pos h =
      let r1 : R = (redis.prune k now window_ms r).1 in
      let r2 : R = (redis.push k now r1).1 in
      elim (Bool-cases (leb rpm (length (fresh now window_ms (up.scores r k))))) [
        | inl full ↦ (
          retry_after_seconds (least (up.scores r1 k)) now,
          rw (full_refused redis up k rpm now r (ground arith)) refl,
        )
        | inr room ↦
            let (o, e, c) = up.used_up k (day_of now) r2 in
            (
              seconds_until_midnight now,
              rw (room_checked redis up k rpm now r (ground arith), e)
                  (rw
                    (over_refused tpd now o r2 pos (
                      omega (
                        arith,
                        h,
                        c,
                        up.push_counter k now k (day_of now) r1,
                        up.prune_counter k now window_ms k (day_of now) r,
                      )))
                    refl),
            )
      ]

  -- With a Redis that answers, and however the recorded calls and the checks of all tenants are mixed:
  -- once the tokens of a tenant's own calls of a day reach its positive budget, `tokens_used_today`
  -- tells them on that day, with what was counted before, and a check on that day is refused, whatever
  -- the limit of the minute and whatever checks were refused or passed in between.
  pub use_all-refused :
      (k rpm tpd now : ℕ) (us : List LimiterUse) (r : R)
      → 0 < tpd
      → tpd ≤ spent k (day_of now) us
      → ((tokens_used_today redis k now (use_all us r)).0
          ≡ spent k (day_of now) us + up.counter r k (day_of now))
        × (s : ℕ) × ((check redis k (rpm, tpd) now (use_all us r)).0 ≡ some s)
  unfolding tokens_used_today
  use_all-refused k rpm tpd now us r pos h =
      let c = use_all-counter k (day_of now) us r in
      let (s, e) = budget_refused k rpm tpd now (use_all us r) pos (omega arith) in
      let (o, f, u) = up.used_up k (day_of now) (use_all us r) in
      (rw f (used_or_zero_lem o ∙ u ∙ c), s, e)
