-- ===== src/Llm/OpenAi/Whole.antt =====
-- The calls that are answered at once: `OpenAIProvider.complete` and `OpenAIEmbeddingProvider.embed`,
-- apps/api/src/llm/openai_provider.py.
use saas_genai_starter.Common.{
  ℕ, ◌≡◌, Option, none, some, List, [], ◌∷◌, ◌++◌, ◌≢◌, map, String, get, or_else, arith, ap,
}
use saas_genai_starter.Core.Order.{order_by, place}
use saas_genai_starter.Llm.Errors.{provider_unavailable}
use saas_genai_starter.Llm.Types.{
  Usage, no_usage, ToolCall, Completion, EmbeddingResult, llm_error, exception, Tried, value,
  raises,
}
use saas_genai_starter.Llm.OpenAi.{
  Texts, Refusal, map_status, RawUsage, map_usage, finish_reasons, Slots, parse_calls,
}

-- How a call goes: no answer, an error, or a body.
pub data Answered (B : Type 0) : Type 0 where
  unanswered : String → Answered B
  rejected : Refusal → Answered B
  body : B → Answered B

-- What the body of a completion has; a text that is missing is empty, and each call has its id, its
-- name and its arguments.
pub record Body : Type 0 where
  pub content : String
  pub tool_calls : Slots
  pub finish_reason : String
  pub usage : Option RawUsage
  pub model : Option String

-- a vector with its `index`
pub record Embedded (V : Type 0) : Type 0 where
  pub index : ℕ
  pub embedding : V

pub record EmbeddingBody (V : Type 0) : Type 0 where
  pub items : List (Embedded V)
  pub model : Option String
  pub prompt_tokens : ℕ

abbrev pub usage_of : Option RawUsage → Usage
usage_of none = no_usage
usage_of (some u) = map_usage u

module _ (py : Texts) (loads : String → Option (List (String × String)))
    (provider model : String) where
  unfoldable pub completion_of : Body → Option (List ToolCall) → Tried Completion
  unfolding map_usage
  completion_of b none = raises (exception "JSONDecodeError")
  completion_of b (some calls) = value (record {
    text = b.content;
    stop_reason = or_else (get b.finish_reason finish_reasons) "end_turn";
    usage = usage_of b.usage;
    model = or_else b.model model;
    tool_calls = calls;
  })

  unfoldable pub complete : Answered Body → Tried Completion
  unfolding completion_of parse_calls map_status
  complete (unanswered m) = raises (llm_error (provider_unavailable m))
  complete (rejected r) = raises (map_status py provider r)
  complete (body b) = completion_of b (parse_calls py loads provider model b.tool_calls)

  unfoldable pub embed : {V : Type 0} → Answered (EmbeddingBody V) → Tried (EmbeddingResult V)
  unfolding map_status
  embed (unanswered m) = raises (llm_error (provider_unavailable m))
  embed (rejected r) = raises (map_status py provider r)
  embed (body b) = value (record {
    embeddings = map (λ i. i.embedding) (order_by (λ i. i.index) b.items);
    model = or_else b.model model;
    input_tokens = b.prompt_tokens;
  })

module _ {A : Type 0} (key : A → ℕ) where
  place-place :
      (x y : A) (zs : List A)
      → key x ≢ key y
      → place key x (place key y zs) ≡ place key y (place key x zs)
  place-place x y [] ne = ground arith
  place-place x y (z ∷ zs) ne = ground (arith, place-place x y zs ne)

  pub order_by_swap :
      (xs : List A) (x y : A) (zs : List A)
      → key x ≢ key y
      → order_by key (xs ++ x ∷ y ∷ zs) ≡ order_by key (xs ++ y ∷ x ∷ zs)
  order_by_swap [] x y zs ne = place-place x y (order_by key zs) ne
  order_by_swap (w ∷ xs) x y zs ne = ap (place key w) (order_by_swap xs x y zs ne)

module _ (py : Texts) (loads : String → Option (List (String × String))) (provider model : String)
    {V : Type 0} where
  -- The order in which the server lists the vectors does not matter: swapping any two neighbours of
  -- different indices, and so any reordering, gives the same result.
  pub embed_swap :
      (xs : List (Embedded V)) (x y : Embedded V) (zs : List (Embedded V)) (name : Option String)
      (n : ℕ)
      → x.index ≢ y.index
      → embed py loads provider model
          (body (record { items = xs ++ x ∷ y ∷ zs; model = name; prompt_tokens = n }))
        ≡ embed py loads provider model
            (body (record { items = xs ++ y ∷ x ∷ zs; model = name; prompt_tokens = n }))
  unfolding embed
  embed_swap xs x y zs name n ne =
      ap
        (λ os. value (record {
          embeddings = map (λ i. i.embedding) os;
          model = or_else name model;
          input_tokens = n;
        }))
        (order_by_swap (λ i. i.index) xs x y zs ne)
