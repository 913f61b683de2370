-- ===== src/Llm/Anthropic/Answers.antt =====
-- What the two calls of `AnthropicProvider` come to.
use saas_genai_starter.Common.{
  ◌≡◌, refl, ◌⊎◌, inl, inr, Bool, true, false, Bool-cases, none, some, List, [], ◌∷◌, ◌++◌, map,
  String, if◌then◌else◌,
}
use saas_genai_starter.Llm.Errors.{LlmError, retryable}
use saas_genai_starter.Llm.Types.{
  Completion, text_delta, stream_end, Failure, llm_error, value, raises,
}
use saas_genai_starter.Llm.OpenAi.{Texts, joined}
use saas_genai_starter.Llm.Anthropic.{
  SdkError, rate_limit_error, internal_server_error, connection_error, bad_request_error,
  other_api_error, texts_in, to_completion, SdkEnd, final_message, sdk_error, other_failure,
  map_error, complete, stream,
}

-- A limit of the rate, a server's error, and a connection's: what may pass.
abbrev pub is_transient : SdkError → Bool
is_transient (rate_limit_error h) = true
is_transient (internal_server_error m) = true
is_transient (connection_error m) = true
is_transient (bad_request_error m) = false
is_transient (other_api_error m) = false

-- `get_final_message` has the texts that `text_stream` yielded.
abbrev pub SameTexts : List String → SdkEnd → Type 0
SameTexts texts (final_message m) = joined (texts_in m.content) ≡ joined texts
SameTexts texts (sdk_error e) = Unit
SameTexts texts (other_failure f) = Unit

module _ (py : Texts) (lower : String → String) where
  pub map_error-retryable : (e : SdkError) → retryable (map_error py lower e) ≡ is_transient e
  unfolding map_error
  map_error-retryable (rate_limit_error h) = refl
  map_error-retryable (internal_server_error m) = refl
  map_error-retryable (connection_error m) = refl
  map_error-retryable (bad_request_error m) =
      elim (Bool-cases
        (if py.contains "prompt is too long" m then true else py.contains "context" (lower m))) [
          | inl e ↦ rw e refl
          | inr e ↦ rw e refl
        ]
  map_error-retryable (other_api_error m) = refl

  -- Every error of the SDK leaves both calls as an LLMError, which is to be retried exactly where it is a
  -- rate limit, a server's error or a connection's.
  pub complete-errors :
      (e : SdkError) (texts : List String)
      → (x : LlmError) × (complete py lower (sdk_error e) ≡ raises (llm_error x))
        × (stream py lower texts (sdk_error e) ≡ (map text_delta texts, some (llm_error x)))
        × (retryable x ≡ is_transient e)
  unfolding complete stream
  complete-errors e texts = (map_error py lower e, refl, refl, map_error-retryable e)

  -- The streamed call agrees with the whole one: where that returns a completion, the stream yields the
  -- texts and then one StreamEnd with this completion, whose text is the texts joined; where that raises,
  -- the stream yields the texts that came and raises the same. It stands on the SDK's final message
  -- having the texts that were streamed.
  pub stream_agrees :
      (texts : List String) (x : SdkEnd)
      → SameTexts texts x
      → ((c : Completion) × (complete py lower x ≡ value c)
          × (stream py lower texts x ≡ (map text_delta texts ++ stream_end c ∷ [], none))
          × (c.text ≡ joined texts))
        ⊎ ((f : Failure) × (complete py lower x ≡ raises f)
            × (stream py lower texts x ≡ (map text_delta texts, some f)))
  unfolding complete stream to_completion
  stream_agrees texts (final_message m) same = inl (to_completion m, refl, refl, same)
  stream_agrees texts (sdk_error e) same = inr (llm_error (map_error py lower e), refl, refl)
  stream_agrees texts (other_failure f) same = inr (f, refl, refl)
