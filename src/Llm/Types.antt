-- ===== src/Llm/Types.antt =====
-- The normalized messages, completions and stream events of apps/api/src/llm/types.py.
use saas_genai_starter.Common.{ℕ, ◌≡◌, refl, ◌⊎◌, inl, inr, Option, List, String}
use saas_genai_starter.Llm.Errors.{LlmError}

pub record Usage : Type 0 where
  pub input_tokens : ℕ
  pub output_tokens : ℕ
  pub cache_read_tokens : ℕ
  pub cache_write_tokens : ℕ

abbrev pub no_usage : Usage
no_usage = record {
  input_tokens = 0;
  output_tokens = 0;
  cache_read_tokens = 0;
  cache_write_tokens = 0;
}

-- `arguments` is the dict of the call, each value as the text that `str` makes of it.
pub record ToolCall : Type 0 where
  pub id : String
  pub name : String
  pub arguments : List (String × String)

pub record Completion : Type 0 where
  pub text : String
  pub stop_reason : String
  pub usage : Usage
  pub model : String
  pub tool_calls : List ToolCall

pub data StreamEvent : Type 0 where
  text_delta : String → StreamEvent
  stream_end : Completion → StreamEvent

pub data Role : Type 0 where
  user assistant : Role

-- a content block, by its "type"
pub data Block : Type 0 where
  text_block : String → Block
  tool_use : String → String → List (String × String) → Block
  tool_result : String → String → Block

-- plain text, or blocks
pub data Content : Type 0 where
  plain : String → Content
  blocks : List Block → Content

pub record Message : Type 0 where
  pub role : Role
  pub content : Content

-- `required` and `properties` are those of the `input_schema`, an object.
pub record ToolDef : Type 0 where
  pub name : String
  pub description : String
  pub properties : List (String × String)
  pub required : List String

-- what a chat provider is given
pub record ChatRequest : Type 0 where
  pub messages : List Message
  pub system : String
  pub tools : Option (List ToolDef)

pub record EmbeddingResult (V : Type 0) : Type 0 where
  pub embeddings : List V
  pub model : String
  pub input_tokens : ℕ

-- An LLMError, another Exception, or an exception that is none.
pub data Failure : Type 0 where
  llm_error : LlmError → Failure
  exception : String → Failure
  cancellation : Failure

-- how a call ends
pub data Tried {ℓ} (A : Type ℓ) : Type ℓ where
  value : A → Tried A
  raises : Failure → Tried A

pub Tried-cases {ℓ} :
    {A : Type ℓ} (t : Tried A) → ((a : A) × (t ≡ value a)) ⊎ ((f : Failure) × (t ≡ raises f))
Tried-cases (value a) = inl (a, refl)
Tried-cases (raises f) = inr (f, refl)
