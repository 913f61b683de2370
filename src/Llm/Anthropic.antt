-- ===== src/Llm/Anthropic.antt =====
-- `AnthropicProvider`: apps/api/src/llm/anthropic_provider.py. What the SDK returns or raises in a call is
-- an argument; `lower` is `str.lower`, and a time is in milliseconds.
pub mod Answers
use saas_genai_starter.Common.{
  ℕ, Bool, true, false, Option, none, some, List, [], ◌∷◌, ◌++◌, map, String, str_eq, ◌==◌,
  if◌then◌else◌, or_else,
}
use saas_genai_starter.Llm.Errors.{
  rate_limited, provider_unavailable, context_too_long, provider_bad_request, LlmError,
}
use saas_genai_starter.Llm.Types.{
  Usage, ToolCall, Completion, StreamEvent, text_delta, stream_end, Message, ToolDef, Failure,
  llm_error, Tried, value, raises,
}
use saas_genai_starter.Llm.OpenAi.{Texts, joined}

-- The classes of `anthropic.APIError` that are told apart, with `str` of the exception; a RateLimitError
-- has its header `retry-after`.
pub data SdkError : Type 0 where
  rate_limit_error : Option String → SdkError
  internal_server_error connection_error bad_request_error other_api_error : String → SdkError

-- The blocks, and the usage, of `anthropic.types.Message`.
pub data RawBlock : Type 0 where
  raw_text : String → RawBlock
  raw_tool_use : String → String → Option (List (String × String)) → RawBlock
  raw_other : String → RawBlock

pub record RawMessage : Type 0 where
  pub content : List RawBlock
  pub stop_reason : Option String
  pub input_tokens : ℕ
  pub output_tokens : ℕ
  pub cache_read_input_tokens : Option ℕ
  pub cache_creation_input_tokens : Option ℕ
  pub model : String

-- The parameters of a request; `none` for a key that is not set.
pub record Params : Type 0 where
  pub model : String
  pub max_tokens : ℕ
  pub messages : List Message
  pub system : Option String
  pub tools : Option (List ToolDef)
  pub json_schema : Option String

abbrev pub given_text : Option String → Option String
given_text none = none
given_text (some s) = if str_eq s "" then none else some s

abbrev pub given_tools : Option (List ToolDef) → Option (List ToolDef)
given_tools none = none
given_tools (some []) = none
given_tools (some (t ∷ ts)) = some (t ∷ ts)

-- `max_tokens or self._default_max_tokens`
abbrev pub limit_or : Option ℕ → ℕ → ℕ
limit_or none d = d
limit_or (some n) d = if n == 0 then d else n

unfoldable pub request_params :
    String
    → ℕ
    → List Message
    → Option String
    → Option (List ToolDef)
    → Option String
    → Option ℕ
    → Params
request_params model default messages system tools json_schema max_tokens = record {
  model = model;
  max_tokens = limit_or max_tokens default;
  messages = messages;
  system = given_text system;
  tools = given_tools tools;
  json_schema = given_text json_schema;
}

abbrev pub texts_in : List RawBlock → List String
texts_in [] = []
texts_in (raw_text t ∷ bs) = t ∷ texts_in bs
texts_in (raw_tool_use i n a ∷ bs) = texts_in bs
texts_in (raw_other t ∷ bs) = texts_in bs

abbrev pub calls_in : List RawBlock → List ToolCall
calls_in [] = []
calls_in (raw_text t ∷ bs) = calls_in bs
calls_in (raw_tool_use i n a ∷ bs) =
    record { id = i; name = n; arguments = or_else a [] } ∷ calls_in bs
calls_in (raw_other t ∷ bs) = calls_in bs

unfoldable pub to_completion : RawMessage → Completion
to_completion message = record {
  text = joined (texts_in message.content);
  stop_reason = or_else (given_text message.stop_reason) "end_turn";
  usage = record {
    input_tokens = message.input_tokens;
    output_tokens = message.output_tokens;
    cache_read_tokens = or_else message.cache_read_input_tokens 0;
    cache_write_tokens = or_else message.cache_creation_input_tokens 0;
  };
  model = message.model;
  tool_calls = calls_in message.content;
}

-- How a call of the SDK ends: with a message, with one of its errors, or with another exception.
pub data SdkEnd : Type 0 where
  final_message : RawMessage → SdkEnd
  sdk_error : SdkError → SdkEnd
  other_failure : Failure → SdkEnd

module _ (py : Texts) (lower : String → String) where
  unfoldable pub retry_after_seconds : Option String → Option ℕ
  retry_after_seconds none = none
  retry_after_seconds (some text) = py.parse_float text

  unfoldable pub map_error : SdkError → LlmError
  unfolding retry_after_seconds
  map_error (rate_limit_error header) =
      rate_limited "Provider rate limit hit" (retry_after_seconds header)
  map_error (internal_server_error m) = provider_unavailable m
  map_error (connection_error m) = provider_unavailable m
  map_error (bad_request_error m) =
      if if py.contains "prompt is too long" m then true else py.contains "context" (lower m)
      then context_too_long m
      else provider_bad_request m
  map_error (other_api_error m) = provider_bad_request m

  unfoldable pub complete : SdkEnd → Tried Completion
  unfolding to_completion map_error
  complete (final_message m) = value (to_completion m)
  complete (sdk_error e) = raises (llm_error (map_error e))
  complete (other_failure f) = raises f

  -- The events: the texts of `text_stream`, as far as they came, and how the stream ended.
  unfoldable pub stream : List String → SdkEnd → List StreamEvent × Option Failure
  unfolding to_completion map_error
  stream texts (final_message m) = (map text_delta texts ++ stream_end (to_completion m) ∷ [], none)
  stream texts (sdk_error e) = (map text_delta texts, some (llm_error (map_error e)))
  stream texts (other_failure f) = (map text_delta texts, some f)
