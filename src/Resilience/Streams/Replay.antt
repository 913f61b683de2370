-- ===== src/Resilience/Streams/Replay.antt =====
-- No event is ever shown twice: what the caller sees comes from one stream of the provider.
use saas_genai_starter.Common.{
  ℕ, zero, suc, ◌+◌, ◌≤◌, ◌≡◌, refl, ◌⊎◌, inl, inr, Option, none, some, List, [], ◌∷◌, arith,
}
use saas_genai_starter.Llm.Errors.{LlmError, retry_after}
use saas_genai_starter.Llm.Types.{StreamEvent}
use saas_genai_starter.Resilience.Policy.{RetryPolicy, delay_for}
use saas_genai_starter.Resilience.Breaker.{CircuitBreaker, check}
use saas_genai_starter.Resilience.Retries.{World, called, count_failure, sleep}
use saas_genai_starter.Resilience.Streams.{
  Ending, stop, fails, crashes, Stream, Played, on_error, read, attempt_stream, stream_loop, stream,
}

module _ (opens : ℕ → Stream) (uniform : ℕ → ℕ → ℕ → ℕ) (policy : RetryPolicy) where
  -- Nothing was yielded, or just what the last stream that was opened yields, to its end.
  abbrev pub Once : ℕ → ℕ → Played → Type 0
  Once from bound p =
      (p.world.calls ≤ bound)
      × ((p.events ≡ [])
          ⊎ ((m : ℕ) × (from ≤ m)
              × (p.world.calls ≡ m + 1)
              × (p.events ≡ (opens m).events)
              × (p.ending ≡ (opens m).ending)))

  on_error-Once :
      (n i k : ℕ) (next : World → Played) (e : LlmError) (w : World)
      → w.calls ≤ i + 1 + k
      → ((v : World) → v.calls ≡ w.calls → Once i (i + 1 + k) (next v))
      → Once i (i + 1 + k) (on_error opens uniform policy n next e w)
  unfolding on_error count_failure sleep
  on_error-Once n i k next e w b h = ground (
    arith,
    h (sleep (delay_for policy (uniform w.calls) n (retry_after e)) (count_failure e w)) refl,
  )

  read-Once :
      (n k : ℕ) (next : World → Played) (i : ℕ) (es : List StreamEvent) (end : Ending) (w : World)
      → es ≡ (opens i).events
      → end ≡ (opens i).ending
      → w.calls ≡ i + 1
      → ((v : World) → v.calls ≡ w.calls → Once i (i + 1 + k) (next v))
      → Once i (i + 1 + k) (read opens uniform policy n next es end w)
  unfolding read
  read-Once n k next i [] stop w p q c h = (omega arith, inl refl)
  read-Once n k next i [] (fails e) w p q c h = on_error-Once n i k next e w (omega arith) h
  read-Once n k next i [] (crashes m) w p q c h = (omega arith, inl refl)
  read-Once n k next i (e ∷ es) end w p q c h = (omega arith, inr (i, omega arith, c, p, q))

  Once-weaken : (i j b c : ℕ) (p : Played) → j ≤ i → b ≤ c → Once i b p → Once j c p
  Once-weaken i j b c p le le' h = ground arith

  attempt_stream-Once :
      (n k : ℕ) (next : World → Played) (w : World) (c : Option LlmError × CircuitBreaker)
      → ((v : World) → v.calls ≡ w.calls + 1 → Once w.calls (w.calls + 1 + k) (next v))
      → Once w.calls (w.calls + 1 + k) (attempt_stream opens uniform policy n next w c)
  unfolding attempt_stream
  attempt_stream-Once n k next w (some e, b) h = (omega arith, inl refl)
  attempt_stream-Once n k next w (none, b) h =
      let s = opens w.calls in
      read-Once n k next w.calls s.events s.ending (called b s.took w) refl refl
        (unfold called in refl) h

  stream_loop-Once :
      (left n : ℕ) (w : World)
      → Once w.calls (w.calls + left) (stream_loop opens uniform policy left n w)
  unfolding stream_loop
  stream_loop-Once zero n w = (omega arith, inl refl)
  stream_loop-Once (suc left) n w =
      Once-weaken w.calls w.calls (w.calls + 1 + left) (w.calls + suc left)
        (stream_loop opens uniform policy (suc left) n w) (omega arith) (omega arith)
        (attempt_stream-Once n left (λ v. stream_loop opens uniform policy left (suc n) v) w
          (check w.now w.breaker)
          (λ v c.
            Once-weaken v.calls w.calls (v.calls + left) (w.calls + 1 + left)
              (stream_loop opens uniform policy left (suc n) v) (omega arith) (omega arith)
              (stream_loop-Once left (suc n) v)))

  -- Whatever the provider's streams do: the caller sees no event, or exactly the events and the
  -- ending of one stream, the last that was opened; and at most `max_attempts` are opened.
  pub stream-Once :
      (w : World) → Once w.calls (w.calls + policy.max_attempts) (stream opens uniform policy w)
  unfolding stream
  stream-Once w = stream_loop-Once policy.max_attempts 0 w
