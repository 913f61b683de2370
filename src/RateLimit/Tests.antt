-- ===== src/RateLimit/Tests.antt =====
-- A Redis in memory, and the limiter on it.
use saas_genai_starter.Common.{
  ℕ, ◌+◌, ◌≤◌, ◌≡◌, refl, ◌&&◌, some, List, [], ◌∷◌, arith, ◌==◌, if◌then◌else◌, length,
}
use saas_genai_starter.RateLimit.Store.{Redis, Reliable, fresh, least}
use saas_genai_starter.RateLimit.{window_ms, check, tokens_used_today}
use saas_genai_starter.RateLimit.Window.{times, requests, request_at, answered, requests-le-limit}
use saas_genai_starter.RateLimit.Budget.{LimiterUse, a_record, a_check, use_all, use_all-refused}

-- the sorted sets and the counters
abbrev Memory : Type 0
Memory = (ℕ → List ℕ) × (ℕ → ℕ → ℕ)

abbrev memory : Redis Memory
memory = record {
  prune = λ k now w (s, c).
      (some (length (fresh now w (s k))), (λ j. if j == k then fresh now w (s j) else s j, c));
  oldest = λ k (s, c). (some (least (s k)), (s, c));
  push = λ k now (s, c). (some tt, (λ j. if j == k then now ∷ s j else s j, c));
  used = λ k d (s, c). (some (some (c k d)), (s, c));
  incrby = λ k d n (s, c). (some tt, (s, λ j e. if (j == k) && (e == d) then c j e + n else c j e));
}

abbrev memory_up : Reliable memory
memory_up = record {
  scores = λ r. r.0;
  counter = λ r. r.1;
  prune_up = λ k now w r. refl;
  prune_scores = λ k j now w r. refl;
  prune_counter = λ k now w j d r. refl;
  oldest_up = λ k r. refl;
  push_up = λ k now r. refl;
  push_scores = λ k j now r. refl;
  push_counter = λ k now j d r. refl;
  used_up = λ k d r. (some (r.1 k d), refl, refl);
  incrby_counter = λ k d n j e r. refl;
  incrby_scores = λ k d n j r. refl;
}

abbrev empty : Memory
empty = (λ k. [], λ k d. 0)

abbrev two_a_minute : ℕ → ℕ × ℕ
two_a_minute j = (2, 1000)

-- the third request of the minute is refused
abbrev some_requests : List (ℕ × ℕ)
some_requests = (7, 1000) ∷ (8, 1500) ∷ (7, 2000) ∷ (7, 3000) ∷ (7, 61500) ∷ []

requests_example :
    times memory memory_up 7 (requests memory memory_up two_a_minute some_requests ([], empty)).0
    ≡ 61500 ∷ 2000 ∷ 1000 ∷ []
unfolding requests request_at answered check
requests_example = refl

requests-le-limit_example :
    length (
      fresh 61500 window_ms (
        times memory memory_up 7
          (requests memory memory_up two_a_minute some_requests ([], empty)).0))
    ≤ 2
requests-le-limit_example =
    requests-le-limit memory memory_up two_a_minute some_requests 7 61500 empty
      (omega arith, (omega arith, (omega arith, (omega arith, (omega arith, omega arith)))))

abbrev one_request : Memory
one_request = (λ j. 1000 ∷ [], λ k d. 0)

-- The server after a check that finds the limit of the minute full.
abbrev full_checked : Memory
full_checked = (memory.prune 7 1000 window_ms one_request).1

abbrev some_uses : List LimiterUse
some_uses =
    a_record 7 600 1000
    ∷ a_check 7 (10, 1000) 1100
    ∷ a_record 8 50 1200
    ∷ a_record 7 400 2000
    ∷ a_check 7 (10, 1000) 2500
    ∷ []

use_all-refused_example :
    ((tokens_used_today memory 7 3000 (use_all memory memory_up some_uses empty)).0 ≡ 1000)
    × (s : ℕ) × ((check memory 7 (10, 1000) 3000 (use_all memory memory_up some_uses empty)).0
        ≡ some s)
use_all-refused_example =
    use_all-refused memory memory_up 7 10 1000 3000 some_uses empty (omega arith) (omega arith)
