-- ===== src/Chat/Toolbox.antt =====
-- `AgentToolbox`: apps/api/src/domains/chat/agent.py.
use saas_genai_starter.Common.{
  ℕ, Bool, true, false, not, ◌&&◌, Option, none, some, List, [], ◌∷◌, ◌++◌, String, ◌+s◌, str_eq,
  get, or_else, ◌==◌, if◌then◌else◌, keep_if, any, length,
}
use saas_genai_starter.Common.Int.{ℤ, pos, ltb_ℤ}
use saas_genai_starter.Chunking.Words.{Text}
use saas_genai_starter.Llm.Types.{ToolCall, ToolDef, Tried, value, raises, ChatRequest}
use saas_genai_starter.Llm.Types.{StreamEvent, Failure, EmbeddingResult}
use saas_genai_starter.Usage.Session.{Session}
use saas_genai_starter.Tenants.Context.{TenantContext}
use saas_genai_starter.Documents.Models.{Document, DocumentChunk}
use saas_genai_starter.Documents.Retrieval.{Citation, is_ready, search}
use saas_genai_starter.Chat.Models.{Conversation}

abbrev pub max_tool_rounds : ℕ
max_tool_rounds = 4

-- in ten-thousandths
abbrev pub citation_min_score : ℤ
citation_min_score = pos 3000

abbrev pub search_tool : ToolDef
search_tool = record {
  name = "search_documents";
  description =
      "Search the workspace's uploaded documents. You MUST call this before answering any factual question — even when you believe you know the answer — so the answer can be grounded in and cited from the workspace's own documents.";
  properties = ("query", "What to search for") ∷ [];
  required = "query" ∷ [];
}

abbrev pub stats_tool : ToolDef
stats_tool = record {
  name = "get_workspace_stats";
  description =
      "Get counts of documents and conversations in this workspace. Call this when the user asks what is in their workspace.";
  properties = [];
  required = [];
}

-- A provider's stream that is read to its end: what it yields, in how long, and the exception it ends
-- with, if any.
pub record Streamed : Type 0 where
  pub events : List StreamEvent
  pub latency_ms : ℕ
  pub failure : Option Failure

-- What `RetrievalService` works with: the embedder's answer to a query and its latency, the two functions
-- of the database, and the rows of the chunks.
pub record Retriever (W : Type 0) : Type 1 where
  pub Vector : Type 0
  pub embed : String → W → (Tried (EmbeddingResult Vector) × ℕ) × W
  pub cosine_distance : Vector → Vector → ℕ
  pub score_of : ℕ → ℤ
  pub chunks : List (DocumentChunk Vector)

-- What a turn of the agent works with. `W` is the state of the providers. There is a `retrieval` where an
-- embedder is configured, `dump_results` and `dump_stats` are the `json.dumps` of the two answers, and
-- the rows are those that the turn reads.
pub record Agent (W : Type 0) : Type 1 where
  pub stream : ChatRequest → W → Streamed × W
  pub retrieval : Option (Retriever W)
  pub dump_results : List Citation → String
  pub dump_stats : ℕ → ℕ → String
  pub tenant : TenantContext
  pub documents : List Document
  pub conversations : List Conversation

-- the citations of the turn, the database session, and the state of the providers
pub record Toolbox (W : Type 0) : Type 0 where
  pub citations : List Citation
  pub session : Session
  pub world : W

abbrev pub text_eq : Text → Text → Bool
text_eq [] [] = true
text_eq [] (d ∷ ds) = false
text_eq (c ∷ cs) [] = false
text_eq (c ∷ cs) (d ∷ ds) = c == d && text_eq cs ds

abbrev pub page_eq : Option ℕ → Option ℕ → Bool
page_eq none none = true
page_eq none (some q) = false
page_eq (some p) none = false
page_eq (some p) (some q) = p == q

unfoldable pub same_source : Citation → Citation → Bool
same_source c d =
    d.document_id == c.document_id && page_eq d.page c.page && text_eq d.snippet c.snippet

unfoldable pub collect_one : Citation → List Citation → List Citation
unfolding same_source
collect_one c cs =
    if ltb_ℤ c.score citation_min_score
    then cs
    else if not (any (same_source c) cs)
    then cs ++ c ∷ []
    else cs

unfoldable pub collect : List Citation → List Citation → List Citation
unfolding collect_one
collect [] cs = cs
collect (c ∷ results) cs = collect results (collect_one c cs)

module _ {W : Type 0} (agent : Agent W) where
  unfoldable pub found :
      Toolbox W → Tried (List Citation) × (Session × W) → Tried String × Toolbox W
  unfolding collect
  found box (raises f, (s, w)) = (raises f, record box { session = s; world = w })
  found box (value [], (s, w)) =
      (value "No matching content found in the documents.", record box { session = s; world = w })
  found box (value (c ∷ cs), (s, w)) = (
    value (agent.dump_results (c ∷ cs)),
    record { citations = collect (c ∷ cs) box.citations; session = s; world = w },
  )

  -- `RetrievalService.search` for the user of the turn
  unfoldable pub retrieve :
      Retriever W → String → Session → W → Tried (List Citation) × (Session × W)
  unfolding search
  retrieve r query s w =
      let ((result, latency), w') = r.embed query w in
      let (cites, s') =
        search r.cosine_distance r.score_of agent.tenant.organization_id agent.tenant.user_id
          latency agent.documents r.chunks result s in
      (cites, (s', w'))

  -- `_search`
  unfoldable pub search_with : Option (Retriever W) → String → Toolbox W → Tried String × Toolbox W
  unfolding found retrieve
  search_with none query box = (value "Document search is not configured.", box)
  search_with (some r) query box =
      if str_eq query ""
      then (value "Empty query.", box)
      else found box (retrieve r query box.session box.world)

  -- `_stats`
  unfoldable pub stats : String
  stats =
      let org = agent.tenant.organization_id in
      agent.dump_stats
        (length (keep_if (λ d. d.tenant_id == org && is_ready d.status) agent.documents))
        (length (keep_if (λ c. c.tenant_id == org) agent.conversations))

  unfoldable pub execute : ToolCall → Toolbox W → Tried String × Toolbox W
  unfolding search_with stats
  execute call box =
      if str_eq call.name "search_documents"
      then search_with agent.retrieval (or_else (get "query" call.arguments) "") box
      else if str_eq call.name "get_workspace_stats"
      then (value stats, box)
      else (value ("Unknown tool: " +s call.name), box)
