-- ===== src/Catalog/Consistency.antt =====
-- The tables of the catalog and of the prices fit together.
use saas_genai_starter.Common.{
  Bool, true, ◌&&◌, ◌||◌, some, List, [], ◌∷◌, String, ◌≡◌, ◌≢◌, refl, arith, get, text_in, is_some,
  str_eq, str_eq_iff, ◌==◌,
}
use saas_genai_starter.Pricing.Table.{pricing}
use saas_genai_starter.Catalog.{
  ChatProviderInfo, EmbeddingProviderInfo, chat_providers, embedding_providers, key_fields,
}

module _ {ℓ} {V : Type ℓ} (p : String → V → Bool) where
  every : List (String × V) → Bool
  every [] = true
  every ((k, v) ∷ d) = p k v && every d

  every-get :
      (d : List (String × V)) (k : String) (v : V)
      → every d ≡ true
      → get k d ≡ some v
      → p k v ≡ true
  unfolding every
  every-get [] k v h e = cc
  every-get ((j, w) ∷ d) k v h e = ground (arith, str_eq_iff k j, every-get d k v)

all_in : (String → Bool) → List String → Bool
all_in p [] = true
all_in p (s ∷ ss) = p s && all_in p ss

all_in_sound :
    (p : String → Bool) (ss : List String) (s : String)
    → all_in p ss ≡ true
    → text_in s ss ≡ true
    → p s ≡ true
unfolding all_in
all_in_sound p [] s h m = cc
all_in_sound p (t ∷ ss) s h m = ground (arith, str_eq_iff s t, all_in_sound p ss s)

chat_entry : String → ChatProviderInfo → Bool
chat_entry k info =
    str_eq k info.id && text_in info.default_model info.models && text_in info.key_field key_fields

chat_entries : every chat_entry chat_providers ≡ true
unfolding every chat_entry chat_providers
chat_entries = refl

-- Every chat provider is listed under its own id, its default model is one of its models, and its
-- key is one of the key fields.
pub chat_providers_consistent :
    (k : String) (info : ChatProviderInfo)
    → get k chat_providers ≡ some info
    → (info.id ≡ k)
      × (text_in info.default_model info.models ≡ true)
      × (text_in info.key_field key_fields ≡ true)
unfolding chat_entry
chat_providers_consistent k info e =
    let h = every-get chat_entry chat_providers k info chat_entries e in
    ground (arith, h, str_eq_iff k info.id)

is_priced : String → Bool
is_priced model = is_some (get model pricing)

chat_priced : String → ChatProviderInfo → Bool
chat_priced k info = str_eq k "openrouter" || all_in is_priced info.models

chat_prices : every chat_priced chat_providers ≡ true
unfolding every chat_priced chat_providers all_in is_priced pricing
chat_prices = refl

-- Every model of every chat provider but OpenRouter has a price.
pub chat_models_priced :
    (k model : String) (info : ChatProviderInfo)
    → get k chat_providers ≡ some info
    → k ≢ "openrouter"
    → text_in model info.models ≡ true
    → is_some (get model pricing) ≡ true
unfolding chat_priced is_priced
chat_models_priced k model info e ne m =
    let h = every-get chat_priced chat_providers k info chat_prices e in
    ground (arith, h, str_eq_iff k "openrouter", all_in_sound is_priced info.models model)

embedding_entry : String → EmbeddingProviderInfo → Bool
embedding_entry k info =
    is_priced info.model && (info.dimensions == 1024) && text_in info.key_field key_fields

embedding_entries : every embedding_entry embedding_providers ≡ true
unfolding every embedding_entry embedding_providers is_priced pricing
embedding_entries = refl

-- Every embedding model has a price, the 1024 dimensions of the schema's vectors, and a key that is
-- one of the key fields.
pub embedding_providers_consistent :
    (k : String) (info : EmbeddingProviderInfo)
    → get k embedding_providers ≡ some info
    → (is_some (get info.model pricing) ≡ true)
      × (info.dimensions ≡ 1024)
      × (text_in info.key_field key_fields ≡ true)
unfolding embedding_entry is_priced
embedding_providers_consistent k info e =
    let h = every-get embedding_entry embedding_providers k info embedding_entries e in
    ground (arith, h)
