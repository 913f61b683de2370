-- ===== src/Catalog.antt =====
-- The catalog of apps/api/src/llm/catalog.py: the providers and models that an organization can pick.
pub mod Consistency
mod Tests
use saas_genai_starter.Common.{
  ℕ, Bool, true, false, Option, none, some, List, [], ◌∷◌, String, get, text_in, is_some,
}

pub record ChatProviderInfo : Type 0 where
  pub id : String
  pub label : String
  pub models : List String
  pub default_model : String
  pub key_field : String
  pub base_url : Option String

pub record EmbeddingProviderInfo : Type 0 where
  pub id : String
  pub label : String
  pub model : String
  pub key_field : String
  pub dimensions : ℕ
  pub base_url : Option String
  pub send_dimensions : Bool

unfoldable pub chat_providers : List (String × ChatProviderInfo)
chat_providers =
    (
      "anthropic",
      record {
        id = "anthropic";
        label = "Anthropic";
        models = "claude-sonnet-4-6" ∷ "claude-haiku-4-5" ∷ "claude-opus-4-8" ∷ [];
        default_model = "claude-sonnet-4-6";
        key_field = "anthropic_api_key";
        base_url = none;
      },
    )
    ∷ (
      "openai",
      record {
        id = "openai";
        label = "OpenAI";
        models = "gpt-5.1" ∷ "gpt-5.1-mini" ∷ [];
        default_model = "gpt-5.1-mini";
        key_field = "openai_api_key";
        base_url = none;
      },
    )
    ∷ (
      "gemini",
      record {
        id = "gemini";
        label = "Google Gemini";
        models = "gemini-3-pro-preview" ∷ "gemini-2.5-pro" ∷ "gemini-2.5-flash" ∷ [];
        default_model = "gemini-2.5-flash";
        key_field = "gemini_api_key";
        base_url = some "https://generativelanguage.googleapis.com/v1beta/openai";
      },
    )
    ∷ (
      "mistral",
      record {
        id = "mistral";
        label = "Mistral";
        models = "mistral-large-latest" ∷ "mistral-medium-latest" ∷ "mistral-small-latest" ∷ [];
        default_model = "mistral-small-latest";
        key_field = "mistral_api_key";
        base_url = some "https://api.mistral.ai/v1";
      },
    )
    ∷ (
      "xai",
      record {
        id = "xai";
        label = "xAI";
        models = "grok-4" ∷ "grok-4-fast" ∷ [];
        default_model = "grok-4-fast";
        key_field = "xai_api_key";
        base_url = some "https://api.x.ai/v1";
      },
    )
    ∷ (
      "deepseek",
      record {
        id = "deepseek";
        label = "DeepSeek";
        models = "deepseek-chat" ∷ "deepseek-reasoner" ∷ [];
        default_model = "deepseek-chat";
        key_field = "deepseek_api_key";
        base_url = some "https://api.deepseek.com/v1";
      },
    )
    ∷ (
      "groq",
      record {
        id = "groq";
        label = "Groq";
        models = "llama-3.3-70b-versatile" ∷ "llama-3.1-8b-instant" ∷ [];
        default_model = "llama-3.3-70b-versatile";
        key_field = "groq_api_key";
        base_url = some "https://api.groq.com/openai/v1";
      },
    )
    ∷ (
      "openrouter",
      record {
        id = "openrouter";
        label = "OpenRouter";
        models =
            "openrouter/auto" ∷ "meta-llama/llama-3.3-70b-instruct" ∷ "qwen/qwen3-235b-a22b" ∷ [];
        default_model = "openrouter/auto";
        key_field = "openrouter_api_key";
        base_url = some "https://openrouter.ai/api/v1";
      },
    )
    ∷ []

unfoldable pub embedding_providers : List (String × EmbeddingProviderInfo)
embedding_providers =
    (
      "voyage",
      record {
        id = "voyage";
        label = "Voyage AI";
        model = "voyage-3.5";
        key_field = "voyage_api_key";
        dimensions = 1024;
        base_url = none;
        send_dimensions = true;
      },
    )
    ∷ (
      "openai",
      record {
        id = "openai";
        label = "OpenAI";
        model = "text-embedding-3-small";
        key_field = "openai_api_key";
        dimensions = 1024;
        base_url = none;
        send_dimensions = true;
      },
    )
    ∷ (
      "gemini",
      record {
        id = "gemini";
        label = "Google Gemini";
        model = "gemini-embedding-001";
        key_field = "gemini_api_key";
        dimensions = 1024;
        base_url = some "https://generativelanguage.googleapis.com/v1beta/openai";
        send_dimensions = true;
      },
    )
    ∷ (
      "mistral",
      record {
        id = "mistral";
        label = "Mistral";
        model = "mistral-embed";
        key_field = "mistral_api_key";
        dimensions = 1024;
        base_url = some "https://api.mistral.ai/v1";
        send_dimensions = false;
      },
    )
    ∷ (
      "cohere",
      record {
        id = "cohere";
        label = "Cohere";
        model = "embed-v4.0";
        key_field = "cohere_api_key";
        dimensions = 1024;
        base_url = none;
        send_dimensions = true;
      },
    )
    ∷ []

abbrev pub key_fields : List String
key_fields =
    "anthropic_api_key" ∷ "openai_api_key" ∷ "voyage_api_key" ∷ "gemini_api_key" ∷ "mistral_api_key"
    ∷ "xai_api_key" ∷ "deepseek_api_key" ∷ "groq_api_key" ∷ "openrouter_api_key" ∷ "cohere_api_key"
    ∷ []

unfoldable pub check_model : String → Option ChatProviderInfo → Bool
check_model model none = false
check_model model (some info) = text_in model info.models

unfoldable pub validate_chat_choice : String → String → Bool
unfolding check_model
validate_chat_choice provider model = check_model model (get provider chat_providers)

unfoldable pub validate_embedding_choice : String → Bool
validate_embedding_choice provider = is_some (get provider embedding_providers)
