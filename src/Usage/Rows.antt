-- ===== src/Usage/Rows.antt =====
-- Which rows the calls leave.
use saas_genai_starter.Common.{
  ℕ, ◌+◌, ◌/◌, ◌≡◌, refl, sym, ap, ◌∙◌, ◌⊎◌, inl, inr, true, false, List, [], ◌∷◌, ◌++◌, map, arith,
  String, append-nil,
}
use saas_genai_starter.Llm.Types.{no_usage, Completion, StreamEvent, text_delta, stream_end}
use saas_genai_starter.Usage.Session.{Status, ok, error, disconnected, Session, add_row, commit}
use saas_genai_starter.Usage.Service.{
  Caller, usage_row, record_call, record_partial, text_length, track_event, track_events, Leaving,
  finished, raised, closed, cancelled, track_leaving, tracked_stream,
}

abbrev pub total_length : List String → ℕ
total_length [] = 0
total_length (t ∷ ts) = text_length t + total_length ts

track_deltas :
    (who : Caller) (latency : ℕ) (ts : List String) (rest : List StreamEvent) (n : ℕ) (s : Session)
    → track_events who latency
        (map text_delta ts ++ rest)
        (record { streamed_chars = n; recorded = false; session = s })
      ≡ track_events who latency rest
          (record { streamed_chars = n + total_length ts; recorded = false; session = s })
unfolding track_events track_event
track_deltas who latency [] rest n s =
    let e : n ≡ n + 0 = omega arith in
    ap
      (λ k.
        track_events who latency rest
          (record { streamed_chars = k; recorded = false; session = s }))
      e
track_deltas who latency (t ∷ ts) rest n s =
    let e : n + text_length t + total_length ts ≡ n + (text_length t + total_length ts) =
      omega arith in
    track_deltas who latency ts rest (n + text_length t) s
    ∙ ap
        (λ k.
          track_events who latency rest
            (record { streamed_chars = k; recorded = false; session = s }))
        e

deltas_only :
    (who : Caller) (latency : ℕ) (ts : List String) (s : Session)
    → track_events who latency
        (map text_delta ts)
        (record { streamed_chars = 0; recorded = false; session = s })
      ≡ record { streamed_chars = total_length ts; recorded = false; session = s }
unfolding track_events
deltas_only who latency ts s =
    let e : 0 + total_length ts ≡ total_length ts = omega arith in
    ap
      (λ es.
        track_events who latency es (record { streamed_chars = 0; recorded = false; session = s }))
      (sym (append-nil (map text_delta ts)))
    ∙ track_deltas who latency ts [] 0 s
    ∙ ap (λ k. record { streamed_chars = k; recorded = false; session = s }) e

-- the status of a stream that is left early
abbrev pub left_status : Leaving → Status
left_status closed = disconnected
left_status l = error

left-partial :
    (who : Caller) (latency n : ℕ) (l : Leaving) (s : Session)
    → (l ≡ closed) ⊎ (l ≡ raised)
    → track_leaving who latency l (record { streamed_chars = n; recorded = false; session = s })
      ≡ record_partial who n (left_status l) latency s
unfolding track_leaving
left-partial who latency n l s (inl e) = rw e
left-partial who latency n l s (inr e) = rw e

left-recorded :
    (who : Caller) (latency n : ℕ) (l : Leaving) (s : Session)
    → track_leaving who latency l (record { streamed_chars = n; recorded = true; session = s }) ≡ s
unfolding track_leaving
left-recorded who latency n finished s = refl
left-recorded who latency n raised s = refl
left-recorded who latency n closed s = refl
left-recorded who latency n cancelled s = refl

left-lost :
    (who : Caller) (latency n : ℕ) (l : Leaving) (s : Session)
    → (l ≡ cancelled) ⊎ (l ≡ finished)
    → track_leaving who latency l (record { streamed_chars = n; recorded = false; session = s }) ≡ s
unfolding track_leaving
left-lost who latency n l s (inl e) = rw e
left-lost who latency n l s (inr e) = rw e

-- A stream of text that is closed by its reader, or fails, before its end leaves one row, with a quarter
-- of the characters that were streamed as its output tokens; and the row is committed, with all that
-- was pending.
pub tracked_stream-partial :
    (who : Caller) (latency : ℕ) (ts : List String) (l : Leaving) (s : Session)
    → (l ≡ closed) ⊎ (l ≡ raised)
    → tracked_stream who latency (map text_delta ts) l s ≡ record {
      saved =
          s.saved
          ++ (s.pending
              ++ usage_row who "unknown"
                  (record no_usage { output_tokens = total_length ts / 4 })
                  (left_status l)
                  latency
                ∷ []);
      pending = [];
    }
unfolding tracked_stream record_partial record_call add_row commit
tracked_stream-partial who latency ts l s h =
    ap (track_leaving who latency l) (deltas_only who latency ts s)
    ∙ left-partial who latency (total_length ts) l s h

-- A stream that reaches its end leaves one row with the usage that the provider reported, however its
-- reader leaves it afterwards, and commits nothing: the request's transaction does.
pub tracked_stream_complete :
    (who : Caller) (latency : ℕ) (ts : List String) (c : Completion) (l : Leaving) (s : Session)
    → tracked_stream who latency (map text_delta ts ++ stream_end c ∷ []) l s
      ≡ record s { pending = s.pending ++ usage_row who c.model c.usage ok latency ∷ [] }
unfolding tracked_stream track_events track_event record_call add_row
tracked_stream_complete who latency ts c l s =
    ap (track_leaving who latency l) (track_deltas who latency ts (stream_end c ∷ []) 0 s)
    ∙ left-recorded who latency _ l _
