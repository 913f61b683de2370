-- ===== src/Resilience/Streams.antt =====
-- `ResilientChatProvider.stream`: retried until the first event, and never after. The `n`-th stream
-- that the wrapped provider opens is given by the events that it yields and by how it then ends; the
-- caller reads it to its end.
use saas_genai_starter.Common.{
  ℕ, zero, suc, ◌+◌, Bool, true, false, not, ◌||◌, Option, none, some, List, [], ◌∷◌, String, ◌==◌,
  if◌then◌else◌,
}
use saas_genai_starter.Llm.Errors.{LlmError, retryable, retry_after}
use saas_genai_starter.Llm.Types.{StreamEvent}
use saas_genai_starter.Resilience.Policy.{RetryPolicy, delay_for}
use saas_genai_starter.Resilience.Breaker.{CircuitBreaker, check, record_success}
use saas_genai_starter.Resilience.Retries.{World, called, count_failure, sleep}
pub mod Replay

pub data Ending : Type 0 where
  stop : Ending
  fails : LlmError → Ending
  crashes : String → Ending

-- `took` is the time until the first event, or until the end if there is none.
pub record Stream : Type 0 where
  pub events : List StreamEvent
  pub ending : Ending
  pub took : ℕ

-- What the caller sees, and the world after it.
pub record Played : Type 0 where
  pub events : List StreamEvent
  pub ending : Ending
  pub world : World

abbrev played : List StreamEvent → Ending → World → Played
played es e w = record { events = es; ending = e; world = w }

module _ (opens : ℕ → Stream) (uniform : ℕ → ℕ → ℕ → ℕ) (policy : RetryPolicy) where
  -- the stream failed before its first event
  pub on_error : ℕ → (World → Played) → LlmError → World → Played
  unfolding count_failure sleep
  on_error attempt continue e w =
      let w' = count_failure e w in
      let again =
        continue (sleep (delay_for policy (uniform w.calls) attempt (retry_after e)) w') in
      if not (retryable e) || attempt + 1 == policy.max_attempts
      then played [] (fails e) w'
      else again

  -- `anext(iterator)`, and what follows from it
  pub read : ℕ → (World → Played) → List StreamEvent → Ending → World → Played
  unfolding on_error
  read attempt continue [] stop w = played [] stop (record w { breaker = record_success w.breaker })
  read attempt continue [] (fails e) w = on_error attempt continue e w
  read attempt continue [] (crashes m) w = played [] (crashes m) w
  read attempt continue (e ∷ es) ending w =
      played (e ∷ es) ending (record w { breaker = record_success w.breaker })

  pub attempt_stream : ℕ → (World → Played) → World → Option LlmError × CircuitBreaker → Played
  unfolding read called
  attempt_stream attempt continue w (some e, b) = played [] (fails e) (record w { breaker = b })
  attempt_stream attempt continue w (none, b) =
      let s = opens w.calls in read attempt continue s.events s.ending (called b s.took w)

  pub stream_loop : ℕ → ℕ → World → Played
  unfolding attempt_stream
  stream_loop zero attempt w = played [] stop w
  stream_loop (suc left) attempt w =
      attempt_stream attempt (λ w'. stream_loop left (suc attempt) w') w (check w.now w.breaker)

  pub stream : World → Played
  unfolding stream_loop
  stream w = stream_loop policy.max_attempts 0 w
