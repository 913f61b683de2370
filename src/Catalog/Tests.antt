-- ===== src/Catalog/Tests.antt =====
-- The theorems on the catalog, at entries of it.
use saas_genai_starter.Common.{true, none, [], ◌∷◌}
use saas_genai_starter.Catalog.{ChatProviderInfo, EmbeddingProviderInfo}

abbrev openai_chat : ChatProviderInfo
openai_chat = record {
  id = "openai";
  label = "OpenAI";
  models = "gpt-5.1" ∷ "gpt-5.1-mini" ∷ [];
  default_model = "gpt-5.1-mini";
  key_field = "openai_api_key";
  base_url = none;
}

abbrev voyage_embedding : EmbeddingProviderInfo
voyage_embedding = record {
  id = "voyage";
  label = "Voyage AI";
  model = "voyage-3.5";
  key_field = "voyage_api_key";
  dimensions = 1024;
  base_url = none;
  send_dimensions = true;
}
