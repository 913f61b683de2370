-- ===== src/Usage/Service.antt =====
-- `UsageService`: every provider call leaves a row.
use saas_genai_starter.Common.{
  ℕ, ◌+◌, ◌/◌, Bool, true, false, List, [], ◌∷◌, String, if◌then◌else◌, length, codes,
}
use saas_genai_starter.Llm.Types.{Usage, no_usage, Completion, StreamEvent, text_delta, stream_end}
use saas_genai_starter.Pricing.{cost_for}
use saas_genai_starter.Usage.Session.{
  LlmUsage, Status, ok, error, disconnected, Session, add_row, commit,
}

-- Whose call it is: the tenant, the feature and `created_by`.
pub record Caller : Type 0 where
  pub tenant_id : ℕ
  pub feature : String
  pub created_by : ℕ

unfoldable pub usage_row : Caller → String → Usage → Status → ℕ → LlmUsage
usage_row who model usage status latency_ms = record {
  tenant_id = who.tenant_id;
  feature = who.feature;
  model = model;
  status = status;
  input_tokens = usage.input_tokens;
  output_tokens = usage.output_tokens;
  cache_read_tokens = usage.cache_read_tokens;
  cache_write_tokens = usage.cache_write_tokens;
  cost_usd = cost_for model usage;
  latency_ms = latency_ms;
  created_by = who.created_by;
}

-- `_record`
unfoldable pub record_call : Caller → String → Usage → Status → ℕ → Bool → Session → Session
unfolding usage_row
record_call who model usage status latency_ms committing s =
    let added = add_row (usage_row who model usage status latency_ms) s in
    if committing then commit added else added

unfoldable pub record_embedding : ℕ → ℕ → String → ℕ → ℕ → Session → Session
unfolding usage_row
record_embedding tenant created_by model input_tokens latency_ms = add_row (
    usage_row (record { tenant_id = tenant; feature = "ingestion"; created_by = created_by }) model
      (record no_usage { input_tokens = input_tokens }) ok latency_ms)

-- How `provider.complete` ends: with a completion, with an `Exception`, or with an exception that is
-- none, such as a cancellation. The caller is told the same.
pub data Awaited : Type 0 where
  returned : Completion → Awaited
  failed interrupted : Awaited

unfoldable pub tracked_complete : Caller → ℕ → Awaited → Session → Session
tracked_complete who latency (returned c) s = record_call who c.model c.usage ok latency false s
tracked_complete who latency failed s = record_call who "unknown" no_usage error latency true s
tracked_complete who latency interrupted s = s

abbrev pub chars_per_token : ℕ
chars_per_token = 4

-- `len(text)`
abbrev pub text_length : String → ℕ
text_length t = length (codes t)

-- `_record_partial`
unfoldable pub record_partial : Caller → ℕ → Status → ℕ → Session → Session
record_partial who streamed_chars status latency =
    record_call who "unknown" (record no_usage { output_tokens = streamed_chars / chars_per_token })
      status latency true

-- the local variables of `tracked_stream`, and the session
pub record Tracked : Type 0 where
  pub streamed_chars : ℕ
  pub recorded : Bool
  pub session : Session

unfoldable pub track_event : Caller → ℕ → StreamEvent → Tracked → Tracked
track_event who latency (stream_end c) t = record t {
  recorded = true;
  session = record_call who c.model c.usage ok latency false t.session;
}
track_event who latency (text_delta text) t = record t {
  streamed_chars = t.streamed_chars + text_length text;
}

unfoldable pub track_events : Caller → ℕ → List StreamEvent → Tracked → Tracked
track_events who latency [] t = t
track_events who latency (e ∷ es) t = track_events who latency es (track_event who latency e t)

-- How the generator is left: at the provider's end, by an `Exception`, closed by its reader, or by an
-- exception that is neither, such as a cancellation.
pub data Leaving : Type 0 where
  finished raised closed cancelled : Leaving

unfoldable pub track_leaving : Caller → ℕ → Leaving → Tracked → Session
track_leaving who latency finished t = t.session
track_leaving who latency raised t =
    if t.recorded then t.session else record_partial who t.streamed_chars error latency t.session
track_leaving who latency closed t =
    if t.recorded
    then t.session
    else record_partial who t.streamed_chars disconnected latency t.session
track_leaving who latency cancelled t = t.session

-- The session after a stream that yielded these events and was left so; one latency for all its rows.
unfoldable pub tracked_stream : Caller → ℕ → List StreamEvent → Leaving → Session → Session
tracked_stream who latency events leaving s =
    track_leaving who latency leaving (
      track_events who latency events
        (record { streamed_chars = 0; recorded = false; session = s }))
