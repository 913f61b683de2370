-- ===== src/RateLimit/Window.antt =====
-- The sliding window: what is admitted in any minute.
use saas_genai_starter.Common.{
  ℕ, ◌≤◌, ◌<◌, ◌≡◌, refl, ◌⊎◌, sym, subst, false, Option, none, some, List, [], ◌∷◌, arith, leb,
  ◌==◌, if◌then◌else◌, length, inl, inr, Bool-cases,
}
use saas_genai_starter.RateLimit.Store.{Redis, Reliable, fresh, least}
use saas_genai_starter.RateLimit.{
  window_ms, day_of, retry_after_seconds, refuse, admit, counted, check_requests, over,
  check_tokens, then_tokens, check,
}

-- Later, fewer are fresh.
pub length-fresh_le :
    (s t w : ℕ) (xs : List ℕ) → s ≤ t → length (fresh t w xs) ≤ length (fresh s w xs)
length-fresh_le s t w [] h = omega arith
length-fresh_le s t w (x ∷ xs) h = ground (arith, length-fresh_le s t w xs h)

-- What is fresh later was fresh before.
pub fresh-fresh :
    (s t w : ℕ) (xs : List ℕ) → s ≤ t → length (fresh t w (fresh s w xs)) ≡ length (fresh t w xs)
fresh-fresh s t w [] h = refl
fresh-fresh s t w (x ∷ xs) h = ground (arith, fresh-fresh s t w xs h)

module _ {R : Type 0} (redis : Redis R) (up : Reliable redis) where
  -- The times in `xs` are covered: at any time from `from` on, no more of them are fresh than there are
  -- fresh scores of `k`.
  abbrev Covered : ℕ → ℕ → List ℕ → R → Type 0
  Covered k from xs r =
      (t : ℕ)
      → from ≤ t
      → length (fresh t window_ms xs) ≤ length (fresh t window_ms (up.scores r k))

  prune-Covered :
      (k j from now : ℕ) (xs : List ℕ) (r : R)
      → from ≤ now
      → Covered k from xs r
      → Covered k now xs ((redis.prune j now window_ms r).1)
  prune-Covered k j from now xs r le h t lt =
      ground (
        arith,
        up.prune_scores j k now window_ms r,
        h t,
        fresh-fresh now t window_ms (up.scores r k),
      )

  push-Covered :
      (k j now : ℕ) (xs : List ℕ) (r : R)
      → Covered k now xs r
      → Covered k now xs ((redis.push j now r).1)
  push-Covered k j now xs r h t lt = ground (arith, up.push_scores j k now r, h t)

  push-Covered_own :
      (k now : ℕ) (xs : List ℕ) (r : R)
      → Covered k now xs r
      → Covered k now (now ∷ xs) ((redis.push k now r).1)
  push-Covered_own k now xs r h t lt = ground (arith, up.push_scores k k now r, h t)

  over_state : (tpd now : ℕ) (o : Option ℕ) (r : R) → (over redis tpd now (some o, r)).1 ≡ r
  unfolding over
  over_state tpd now none r = refl
  over_state tpd now (some used) r = ground arith

  -- A check is refused with only old scores removed; or there was room, and the time is recorded.
  check_cases :
      (j rpm tpd now : ℕ) (r : R)
      → let r' = (redis.prune j now window_ms r).1 in
        (((s : ℕ) × ((check redis j (rpm, tpd) now r).0 ≡ some s))
          × ((check redis j (rpm, tpd) now r).1 ≡ r'))
        ⊎ ((length (fresh now window_ms (up.scores r j)) < rpm)
            × ((check redis j (rpm, tpd) now r).1 ≡ (redis.push j now r').1))
  unfolding check check_requests counted refuse admit then_tokens check_tokens over
  check_cases j rpm tpd now r =
      let r' : R = (redis.prune j now window_ms r).1 in
      let n = length (fresh now window_ms (up.scores r j)) in
      let pr = up.prune_up j now window_ms r in
      elim (Bool-cases (leb rpm n)) [
        | inl full ↦
            let o = least (up.scores r' j) in
            let e = up.oldest_up j r' in
            inl ((retry_after_seconds o now, rw (pr, full, e) refl), rw (pr, full, e) refl)
        | inr room ↦
            let (o, e, _) = up.used_up j (day_of now) ((redis.push j now r').1) in
            inr (ground arith, rw (pr, room, up.push_up j now r', e) (over_state tpd now o _))
      ]

  -- The requests that were allowed, the newest first, each with its tenant.
  abbrev pub Log : Type 0
  Log = List (ℕ × ℕ)

  abbrev pub times : ℕ → Log → List ℕ
  times k [] = []
  times k ((j, t) ∷ log) = if j == k then t ∷ times k log else times k log

  module _ (limits : ℕ → ℕ × ℕ) where
    -- the log after an answer
    unfoldable pub answered : ℕ → ℕ → Log → Option ℕ → R → Log × R
    answered j now log c r = elim c [ none ↦ ((j, now) ∷ log, r) | some s ↦ (log, r) ]

    -- one request of a tenant
    unfoldable pub request_at : ℕ → ℕ → Log × R → Log × R
    unfolding answered
    request_at j now (log, r) =
        let (c, r') = check redis j (limits j) now r in answered j now log c r'

    -- requests of any tenants, each with its time, in their order
    unfoldable pub requests : List (ℕ × ℕ) → Log × R → Log × R
    requests [] s = s
    requests ((j, now) ∷ es) s = requests es (request_at j now s)

    -- The times do not decrease, from `t` on, and end by `last`.
    abbrev pub Clocked : ℕ → ℕ → List (ℕ × ℕ) → Type 0
    Clocked t last [] = t ≤ last
    Clocked t last ((j, now) ∷ es) = (t ≤ now) × Clocked now last es

    Within : ℕ → ℕ → Log × R → Type 0
    Within k from s =
        Covered k from (times k s.0) s.1
        × ((t : ℕ) → from ≤ t → length (fresh t window_ms (times k s.0)) ≤ (limits k).0)

    own-Within :
        (k from now : ℕ) (log : Log) (r : R)
        → from ≤ now
        → Within k from (log, r)
        → length (fresh now window_ms (up.scores r k)) < (limits k).0
        → Within k now ((k, now) ∷ log, (redis.push k now ((redis.prune k now window_ms r).1)).1)
    unfolding Within
    own-Within k from now log r le (c, b) room =
        let own : times k ((k, now) ∷ log) ≡ now ∷ times k log = ground arith in
        rw own (
          push-Covered_own k now (times k log) _ (prune-Covered k k from now (times k log) r le c),
          λ t lt. ground (arith, c t, length-fresh_le now t window_ms (up.scores r k) lt),
        )

    other-Within :
        (k j from now : ℕ) (log : Log) (r : R)
        → from ≤ now
        → (j == k) ≡ false
        → Within k from (log, r)
        → Within k now ((j, now) ∷ log, (redis.push j now ((redis.prune j now window_ms r).1)).1)
    unfolding Within
    other-Within k j from now log r le ne (c, b) = rw ne (
      push-Covered k j now (times k log) _ (prune-Covered k j from now (times k log) r le c),
      λ t lt. b t (omega arith),
    )

    -- an answer with the scores pruned, or recorded, keeps what was allowed before within its bound
    pruned-Within :
        (k j from now : ℕ) (log : Log) (r : R)
        → from ≤ now
        → Within k from (log, r)
        → Within k now (log, (redis.prune j now window_ms r).1)
    unfolding Within
    pruned-Within k j from now log r le (c, b) =
        (prune-Covered k j from now (times k log) r le c, λ t lt. b t (omega arith))

    pushed-Within :
        (k j now : ℕ) (log : Log) (r : R)
        → Within k now (log, r)
        → Within k now (log, (redis.push j now r).1)
    unfolding Within
    pushed-Within k j now log r (c, b) = (push-Covered k j now (times k log) r c, b)

    room-Within :
        (k j from now : ℕ) (log : Log) (r : R)
        → from ≤ now
        → length (fresh now window_ms (up.scores r j)) < (limits j).0
        → Within k from (log, r)
        → Within k now ((j, now) ∷ log, (redis.push j now ((redis.prune j now window_ms r).1)).1)
    room-Within k j from now log r le room w = elim (Bool-cases (j == k)) [
      | inl same ↦
          let e : k ≡ j = ground arith in
          subst
            (λ i.
              Within i now
                ((j, now) ∷ log, (redis.push j now ((redis.prune j now window_ms r).1)).1))
            (sym e) (own-Within j from now log r le (subst (λ i. Within i from (log, r)) e w) room)
      | inr differ ↦ other-Within k j from now log r le differ w
    ]

    room_answered-Within :
        (k j from now : ℕ) (log : Log) (r : R) (c : Option ℕ)
        → from ≤ now
        → length (fresh now window_ms (up.scores r j)) < (limits j).0
        → Within k from (log, r)
        → Within k now
            (answered j now log c ((redis.push j now ((redis.prune j now window_ms r).1)).1))
    unfolding answered
    room_answered-Within k j from now log r none le room w =
        room-Within k j from now log r le room w
    room_answered-Within k j from now log r (some s) le room w =
        pushed-Within k j now log _ (pruned-Within k j from now log r le w)

    request_at-Within :
        (k from j now : ℕ) (log : Log) (r : R)
        → from ≤ now
        → Within k from (log, r)
        → Within k now (request_at j now (log, r))
    unfolding request_at
    request_at-Within k from j now log r le w =
        elim (check_cases j ((limits j).0) ((limits j).1) now r) [
          | inl ((s, refused), e) ↦
              subst (λ c. Within k now (answered j now log c ((check redis j (limits j) now r).1)))
                (sym refused)
                (subst (λ x. Within k now (answered j now log (some s) x)) (sym e)
                  (unfold answered in pruned-Within k j from now log r le w))
          | inr (room, e) ↦
              subst (λ x. Within k now (answered j now log ((check redis j (limits j) now r).0) x))
                (sym e)
                (room_answered-Within k j from now log r ((check redis j (limits j) now r).0) le
                  room w)
        ]

    requests-Within :
        (es : List (ℕ × ℕ)) (k from last : ℕ) (s : Log × R)
        → Clocked from last es
        → Within k from s
        → Within k last (requests es s)
    unfolding requests Within
    requests-Within [] k from last s le (c, b) =
        (λ t lt. c t (omega arith), λ t lt. b t (omega arith))
    requests-Within ((j, now) ∷ es) k from last (log, r) (le, more) w =
        requests-Within es k now last (request_at j now (log, r)) more
          (request_at-Within k from j now log r le w)

    -- With a Redis that can be reached and a clock that does not go back, whatever requests of
    -- whatever tenants are checked: of the requests of one tenant that were allowed, at most its limit
    -- lie in the minute that ends at the last of them, or at any later time.
    pub requests-le-limit :
        (es : List (ℕ × ℕ)) (k last : ℕ) (r : R)
        → Clocked 0 last es
        → length (fresh last window_ms (times k (requests es ([], r)).0)) ≤ (limits k).0
    unfolding Within
    requests-le-limit es k last r clocked =
        (requests-Within es k 0 last ([], r) clocked (λ t lt. omega arith, λ t lt. omega arith)).1
          last (omega arith)
