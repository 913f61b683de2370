-- ===== src/Documents/Retrieval.antt =====
-- `RetrievalService`: apps/api/src/domains/documents/retrieval.py.
use saas_genai_starter.Common.{
  ℕ, ◌≡◌, ◌≤◌, refl, sym, ap, Bool, true, false, ◌&&◌, Bool-cases, inl, inr, Option, none, some,
  List, [], ◌∷◌, ◌++◌, map, String, ◌==◌, if◌then◌else◌, keep_if, take, first, is_some, length,
  length-take, arith,
}
use saas_genai_starter.Common.Int.{ℤ}
use saas_genai_starter.Core.Order.{order_by}
use saas_genai_starter.Chunking.Words.{Text}
use saas_genai_starter.Llm.Types.{EmbeddingResult, Tried, value, raises, exception}
use saas_genai_starter.Usage.Session.{Session}
use saas_genai_starter.Usage.Service.{record_embedding}
use saas_genai_starter.Documents.Models.{Document, DocumentChunk, DocumentStatus, ready}

-- A score is in ten-thousandths.
pub record Citation : Type 0 where
  pub document_id : ℕ
  pub document_name : String
  pub page : Option ℕ
  pub snippet : Text
  pub content : Text
  pub score : ℤ

abbrev pub default_top_k : ℕ
default_top_k = 5

abbrev pub snippet_max_chars : ℕ
snippet_max_chars = 400

abbrev pub is_ready : DocumentStatus → Bool
is_ready ready = true
is_ready s = false

unfoldable pub has_ready_documents : ℕ → List Document → Bool
has_ready_documents tenant docs =
    is_some (first (keep_if (λ d. d.tenant_id == tenant && is_ready d.status) docs))

-- A row of the statement: a chunk, the name of its document, and their distance.
pub record Row (V : Type 0) : Type 0 where
  pub chunk : DocumentChunk V
  pub name : String
  pub distance : ℕ

-- `cosine_distance` is the database's, each number that it gives as its place in their order, and
-- `score_of` is `round(1.0 - dist, 4)` of it.
module _ {V : Type 0} (cosine_distance : V → V → ℕ) (score_of : ℕ → ℤ) (tenant : ℕ) where
  -- the join of one chunk with the documents of its key, with the `where` clauses
  unfoldable pub matches : V → List Document → DocumentChunk V → List (Row V)
  matches q [] chunk = []
  matches q (d ∷ docs) chunk =
      if d.id == chunk.document_id && chunk.tenant_id == tenant && is_ready d.status
      then record { chunk = chunk; name = d.name; distance = cosine_distance chunk.embedding q }
        ∷ matches q docs chunk
      else matches q docs chunk

  unfoldable pub matching : V → List Document → List (DocumentChunk V) → List (Row V)
  unfolding matches
  matching q docs [] = []
  matching q docs (c ∷ cs) = matches q docs c ++ matching q docs cs

  unfoldable pub citation : Row V → Citation
  citation r = record {
    document_id = r.chunk.document_id;
    document_name = r.name;
    page = r.chunk.page;
    snippet = take snippet_max_chars r.chunk.content;
    content = r.chunk.content;
    score = score_of r.distance;
  }

  unfoldable pub nearest : V → ℕ → List Document → List (DocumentChunk V) → List Citation
  unfolding matching citation
  nearest q top_k docs cs =
      map citation (take top_k (order_by (λ r. r.distance) (matching q docs cs)))

  -- `result.embeddings[0]`
  unfoldable pub search_first :
      List Document → List (DocumentChunk V) → Option V → Tried (List Citation)
  unfolding nearest
  search_first docs cs none = raises (exception "IndexError")
  search_first docs cs (some q) = value (nearest q default_top_k docs cs)

  -- `embedded` is how the embedding of the query ends.
  unfoldable pub search :
      ℕ
      → ℕ
      → List Document
      → List (DocumentChunk V)
      → Tried (EmbeddingResult V)
      → Session
      → Tried (List Citation) × Session
  unfolding search_first
  search created_by latency docs cs (raises f) s = (raises f, s)
  search created_by latency docs cs (value e) s = (
    search_first docs cs (first e.embeddings),
    record_embedding tenant created_by e.model e.input_tokens latency s,
  )

  matches_ready :
      (q : V) (docs : List Document) (c : DocumentChunk V)
      → matches q docs c ≡ matches q (keep_if (λ d. is_ready d.status) docs) c
  unfolding matches
  matches_ready q [] c = refl
  matches_ready q (d ∷ docs) c = ground (arith, matches_ready q docs c)

  matches_foreign :
      (q : V) (docs : List Document) (c : DocumentChunk V)
      → (c.tenant_id == tenant) ≡ false
      → matches q docs c ≡ []
  unfolding matches
  matches_foreign q [] c e = refl
  matches_foreign q (d ∷ docs) c e = ground (arith, matches_foreign q docs c e)

  matching_own :
      (q : V) (docs : List Document) (cs : List (DocumentChunk V))
      → matching q docs cs
        ≡ matching q
            (keep_if (λ d. is_ready d.status) docs)
            (keep_if (λ c. c.tenant_id == tenant) cs)
  unfolding matching
  matching_own q docs [] = refl
  matching_own q docs (c ∷ cs) = elim (Bool-cases (c.tenant_id == tenant)) [
    | inl mine ↦
        rw (mine, sym (matches_ready q docs c))
          (ap (λ rs. matches q docs c ++ rs) (matching_own q docs cs))
    | inr foreign ↦ rw (foreign, matches_foreign q docs c foreign) (matching_own q docs cs)
  ]

  length-map : {A B : Type 0} (f : A → B) (xs : List A) → length (map f xs) ≡ length xs
  length-map f [] = refl
  length-map f (x ∷ xs) = ground (arith, length-map f xs)

  -- A search finds at most `top_k` citations, and what it finds depends on the chunks of its own tenant
  -- and on ready documents only: it finds the same where there are no others.
  pub nearest-own :
      (q : V) (top_k : ℕ) (docs : List Document) (cs : List (DocumentChunk V))
      → (length (nearest q top_k docs cs) ≤ top_k)
        × (nearest q top_k docs cs
            ≡ nearest q top_k
                (keep_if (λ d. is_ready d.status) docs)
                (keep_if (λ c. c.tenant_id == tenant) cs))
  unfolding nearest
  nearest-own q top_k docs cs =
      let rows = order_by (λ r. r.distance) (matching q docs cs) in
      (
        omega (arith, length-map citation (take top_k rows), length-take top_k rows),
        ap (λ m. map citation (take top_k (order_by (λ r. r.distance) m))) (matching_own q docs cs),
      )
