-- ===== src/Llm/Embedders.antt =====
-- The embedding calls of apps/api/src/llm/voyage_provider.py and cohere_provider.py, with the exchange over
-- HTTP as it went.
use saas_genai_starter.Common.{
  ℕ, List, [], ◌∷◌, map, String, ◌+s◌, leb, get, ◌==◌, if◌then◌else◌, or_else,
}
use saas_genai_starter.Core.Order.{order_by}
use saas_genai_starter.Llm.Errors.{provider_unavailable, provider_bad_request}
use saas_genai_starter.Llm.Types.{EmbeddingResult, Failure, llm_error, Tried, value, raises}
use saas_genai_starter.Llm.OpenAi.{Texts, Refusal, throttled}
use saas_genai_starter.Llm.OpenAi.Whole.{Answered, unanswered, rejected, body, Embedded}

-- _INPUT_TYPES
abbrev pub input_types : List (String × String)
input_types = ("document", "search_document") ∷ ("query", "search_query") ∷ []

-- `_INPUT_TYPES.get(input_type, "search_document")`
unfoldable pub cohere_input_type : String → String
cohere_input_type input_type = or_else (get input_type input_types) "search_document"

-- `embeddings.float`, and the billed tokens, 0 where a key is missing
pub record CohereBody (V : Type 0) : Type 0 where
  pub vectors : List V
  pub billed_input_tokens : ℕ

pub record VoyageBody (V : Type 0) : Type 0 where
  pub items : List (Embedded V)
  pub model : String
  pub total_tokens : ℕ

-- The status of an answer that is an error, at the API of the name; `shown` is the part of the body
-- that the message has.
unfoldable pub refusal_of : Texts → String → String → Refusal → Failure
refusal_of py name shown r =
    if r.status == 429
    then throttled py r.retry_after
    else if leb 500 r.status
    then llm_error (provider_unavailable (name +s " API returned " +s py.show r.status))
    else llm_error
        (provider_bad_request (name +s " API returned " +s py.show r.status +s ": " +s shown))

module _ {V : Type 0} (py : Texts) where
  unfoldable pub voyage_embed : Answered (VoyageBody V) → Tried (EmbeddingResult V)
  unfolding refusal_of
  voyage_embed (unanswered m) = raises (llm_error (provider_unavailable m))
  voyage_embed (rejected r) = raises (refusal_of py "Voyage" r.body r)
  voyage_embed (body b) = value (record {
    embeddings = map (λ i. i.embedding) (order_by (λ i. i.index) b.items);
    model = b.model;
    input_tokens = b.total_tokens;
  })

  unfoldable pub cohere_embed : String → Answered (CohereBody V) → Tried (EmbeddingResult V)
  unfolding refusal_of
  cohere_embed model (unanswered m) = raises (llm_error (provider_unavailable m))
  cohere_embed model (rejected r) = raises (refusal_of py "Cohere" (py.head_500 r.body) r)
  cohere_embed model (body b) =
      value (record { embeddings = b.vectors; model = model; input_tokens = b.billed_input_tokens })
