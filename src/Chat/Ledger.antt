-- ===== src/Chat/Ledger.antt =====
-- The tokens that the agent reports, and the usage rows that a turn adds.
use saas_genai_starter.Common.{
  ℕ, ◌+◌, ◌≤◌, ◌≡◌, refl, sym, ap, ◌∙◌, inl, inr, Bool, true, false, Bool-cases, Option, none, some,
  List, [], ◌∷◌, ◌++◌, map, String, str_eq, str_eq_iff, if◌then◌else◌, arith, or_else, get,
}
use saas_genai_starter.Llm.Types.{
  ToolCall, Completion, EmbeddingResult, StreamEvent, text_delta, stream_end, Message, ChatRequest,
  Tried, value, raises,
}
use saas_genai_starter.Usage.Session.{LlmUsage, Session, ok, add_row}
use saas_genai_starter.Usage.Service.{Caller, finished, usage_row, record_embedding, tracked_stream}
use saas_genai_starter.Usage.Rows.{tracked_stream_complete}
use saas_genai_starter.Documents.Retrieval.{Citation, search}
use saas_genai_starter.Documents.Models.{Document, DocumentChunk}
use saas_genai_starter.Common.Int.{ℤ}
use saas_genai_starter.Chat.Models.{CitedSource}
use saas_genai_starter.Chat.Toolbox.{
  max_tool_rounds, Streamed, Retriever, Agent, Toolbox, found, retrieve, search_with, execute,
}
use saas_genai_starter.Chat.Agent.{
  Event, final, Run, last_completion, tokens_of, caller, request_of, tool_run, rounds, finish,
  start, run_agent,
}
use saas_genai_starter.Chat.Keeps.{rounds_kept, is_raised, asked, heard}

-- the tokens of the rows of one feature
abbrev pub row_tokens : String → List LlmUsage → ℕ
row_tokens feature [] = 0
row_tokens feature (r ∷ rs) =
    (if str_eq r.feature feature then r.input_tokens + r.output_tokens else 0)
    + row_tokens feature rs

-- the rows of a session, the pending ones with them
abbrev pub session_tokens : String → Session → ℕ
session_tokens feature s = row_tokens feature s.saved + row_tokens feature s.pending

row_tokens-append :
    (feature : String) (rs qs : List LlmUsage)
    → row_tokens feature (rs ++ qs) ≡ row_tokens feature rs + row_tokens feature qs
row_tokens-append feature [] qs = omega arith
row_tokens-append feature (r ∷ rs) qs = omega (arith, row_tokens-append feature rs qs)

last_completion-deltas :
    (c : Completion) (o : Option Completion) (ts : List String)
    → last_completion o (map text_delta ts ++ stream_end c ∷ []) ≡ some c
unfolding last_completion
last_completion-deltas c o [] = refl
last_completion-deltas c o (t ∷ ts) = last_completion-deltas c o ts

str_eq_refl : (s : String) → str_eq s s ≡ true
str_eq_refl s = (str_eq_iff s s).1 refl

-- the events of a stream as `StreamEnd` documents it: texts, and the completion last
abbrev pub IsStream : List StreamEvent → Type 0
IsStream es = (ts : List String) × (c : Completion) × (es ≡ map text_delta ts ++ stream_end c ∷ [])

row_apart :
    (feature : String) (row : LlmUsage) (qs : List LlmUsage)
    → str_eq row.feature feature ≡ false
    → row_tokens feature (qs ++ row ∷ []) ≡ row_tokens feature qs
row_apart feature row qs other = row_tokens-append feature qs (row ∷ []) ∙ (rw other (omega arith))

-- A search leaves a row of the feature "ingestion", or none.
search_tokens :
    {V : Type 0} (distance : V → V → ℕ) (score_of : ℕ → ℤ) (feature : String)
    (tenant created_by latency : ℕ) (docs : List Document) (cs : List (DocumentChunk V))
    (r : Tried (EmbeddingResult V)) (s : Session)
    → str_eq "ingestion" feature ≡ false
    → session_tokens feature (search distance score_of tenant created_by latency docs cs r s).1
      ≡ session_tokens feature s
unfolding search record_embedding usage_row add_row
search_tokens distance score_of feature tenant created_by latency docs cs (raises f) s other = refl
search_tokens distance score_of feature tenant created_by latency docs cs (value e) s other =
    ap (λ n. row_tokens feature s.saved + n) (row_apart feature _ s.pending other)

module _ {W : Type 0} (agent : Agent W) (feature : String)
    (other : str_eq "ingestion" feature ≡ false)
    (whole : (q : ChatRequest) (w : W)
      → (agent.stream q w).0.failure ≡ none
      → IsStream (agent.stream q w).0.events) where
  -- what a tool leaves as it was
  Untouched : Toolbox W → Toolbox W → Type 0
  Untouched box box' = session_tokens feature box'.session ≡ session_tokens feature box.session

  found_apart :
      (box : Toolbox W) (p : Tried (List Citation) × (Session × W))
      → (session_tokens feature p.1.0 ≡ session_tokens feature box.session)
      → Untouched box (found agent box p).1
  unfolding found Untouched
  found_apart box (raises f, (s, w)) t = t
  found_apart box (value [], (s, w)) t = t
  found_apart box (value (c ∷ cs), (s, w)) t = t

  search_apart :
      (o : Option (Retriever W)) (query : String) (box : Toolbox W)
      → Untouched box (search_with agent o query box).1
  unfolding search_with retrieve Untouched
  search_apart none query box = refl
  search_apart (some r) query box = elim (Bool-cases (str_eq query "")) [
    | inl blank ↦ rw blank refl
    | inr given ↦
        let ((result, latency), w) = r.embed query box.world in
        rw given (
          found_apart box (retrieve agent r query box.session box.world) (
            search_tokens r.cosine_distance r.score_of feature agent.tenant.organization_id
              agent.tenant.user_id latency agent.documents r.chunks result box.session other))
  ]

  execute_apart : (call : ToolCall) (box : Toolbox W) → Untouched box (execute agent call box).1
  unfolding execute Untouched
  execute_apart call box = elim (Bool-cases (str_eq call.name "search_documents")) [
    | inl e ↦ rw e (search_apart agent.retrieval (or_else (get "query" call.arguments) "") box)
    | inr e ↦ elim (Bool-cases (str_eq call.name "get_workspace_stats")) [
      | inl f ↦ rw (e, f) refl
      | inr f ↦ rw (e, f) refl
    ]
  ]

  module _ (use_rag : Bool) (own : (caller agent use_rag).feature ≡ feature)
      (tokens_before : ℕ) where
    Balanced : Bool → ℕ → Run W → Type 0
    Balanced b k run =
        b ≡ false → session_tokens feature run.toolbox.session ≡ run.total_tokens + tokens_before

    ended_tokens :
        (who : Caller) (latency : ℕ) (ts : List String) (c : Completion) (s : Session)
        → who.feature ≡ feature
        → session_tokens feature
            (tracked_stream who latency (map text_delta ts ++ stream_end c ∷ []) finished s)
          ≡ tokens_of c.usage + session_tokens feature s
    unfolding usage_row
    ended_tokens who latency ts c s e =
        let row = usage_row who c.model c.usage ok latency in
        let same : str_eq who.feature feature ≡ true =
          ap (λ f. str_eq f feature) e ∙ str_eq_refl feature in
        ap (session_tokens feature) (tracked_stream_complete who latency ts c finished s)
        ∙ ground (arith, row_tokens-append feature s.pending (row ∷ []), same)

    some_inj : (c d : Completion) → some c ≡ some d → c ≡ d
    some_inj c d e = cc

    heard_tokens :
        (run : Run W) (streamed : Streamed) (w : W) (c : Completion)
        → IsStream streamed.events
        → streamed.failure ≡ none
        → last_completion none streamed.events ≡ some c
        → session_tokens feature (heard agent use_rag run (streamed, w)).toolbox.session
          ≡ tokens_of c.usage + session_tokens feature run.toolbox.session
    heard_tokens run streamed w c (ts, d, e) fine l =
        let same : d ≡ c =
          some_inj d c
            (sym (last_completion-deltas d none ts) ∙ ap (last_completion none) (sym e) ∙ l) in
        rw (fine, e)
          (ended_tokens (caller agent use_rag) streamed.latency_ms ts d run.toolbox.session own
            ∙ ap (λ x. tokens_of x.usage + session_tokens feature run.toolbox.session) same)

    rounds-Balanced :
        (run : Run W)
        → Balanced false 0 run
        → (j : ℕ) × (j ≤ 4)
          × Balanced
              (is_raised (rounds agent use_rag max_tool_rounds none run).0)
              j
              (rounds agent use_rag max_tool_rounds none run).1
    unfolding Balanced tool_run Untouched
    rounds-Balanced run start_balanced =
        let (j, le, kept) =
          rounds_kept agent use_rag Balanced (λ k r h e. absurd (cc))
            (λ k r c h fine last e. omega (
              arith,
              h refl,
              heard_tokens r (asked agent use_rag r).0 (asked agent use_rag r).1 c
                  (whole (request_of agent use_rag r.messages) r.toolbox.world fine) fine last,
            ))
            (λ k r call h e. execute_apart call r.toolbox ∙ h refl) (λ k r c bs ids h. h)
            max_tool_rounds 0 none run start_balanced in
        (j, omega (arith, le), kept)

  finish_balanced :
      (use_rag : Bool) (n : ℕ) (p : Tried (Option Completion) × Run W)
      → (is_raised p.0 ≡ false → session_tokens feature p.1.toolbox.session ≡ p.1.total_tokens + n)
      → (finish agent use_rag p).0 ≡ none
      → (before : List Event) × (text : String) × (cites : List CitedSource) × (tokens : ℕ)
        × ((finish agent use_rag p).1.yielded ≡ before ++ final text cites tokens ∷ [])
        × (session_tokens feature (finish agent use_rag p).1.toolbox.session ≡ tokens + n)
  unfolding finish
  finish_balanced use_rag n (raises f, run) h e = absurd (cc)
  finish_balanced use_rag n (value c, run) h e = (run.yielded, _, _, run.total_tokens, refl, h refl)

  rounds_from :
      (use_rag : Bool) (messages : List Message) (box : Toolbox W)
      → (caller agent use_rag).feature ≡ feature
      → let ran = rounds agent use_rag max_tool_rounds none (start agent use_rag messages box) in
        is_raised ran.0 ≡ false
        → session_tokens feature ran.1.toolbox.session
          ≡ ran.1.total_tokens + session_tokens feature box.session
  unfolding Balanced
  rounds_from use_rag messages box own =
      let (j, le, t) =
        rounds-Balanced use_rag own (session_tokens feature box.session)
          (start agent use_rag messages box) (λ e. omega arith) in
      t

module _ {W : Type 0} (agent : Agent W) where
  -- a turn is counted apart from its searches
  caller_apart : (use_rag : Bool) → str_eq "ingestion" (caller agent use_rag).feature ≡ false
  caller_apart false = refl
  caller_apart true = refl

  -- A turn that no exception ends yields last the final event, and its tokens are those of the usage
  -- rows that the turn has added for its own feature, `chat` or `rag`, if every stream that ends well
  -- yields texts and last its `StreamEnd`.
  pub run_agent-balanced :
      ((q : ChatRequest) (w : W)
        → (agent.stream q w).0.failure ≡ none
        → IsStream (agent.stream q w).0.events)
      → (use_rag : Bool) (messages : List Message) (box : Toolbox W)
      → (run_agent agent use_rag messages box).0 ≡ none
      → (before : List Event) × (text : String) × (cites : List CitedSource) × (tokens : ℕ)
        × ((run_agent agent use_rag messages box).1.yielded
            ≡ before ++ final text cites tokens ∷ [])
        × (session_tokens
              (caller agent use_rag).feature
              (run_agent agent use_rag messages box).1.toolbox.session
            ≡ tokens + session_tokens (caller agent use_rag).feature box.session)
  unfolding run_agent
  run_agent-balanced whole use_rag messages box e =
      let feature = (caller agent use_rag).feature in
      finish_balanced agent feature (caller_apart use_rag) whole use_rag
        (session_tokens feature box.session)
        (rounds agent use_rag max_tool_rounds none (start agent use_rag messages box))
        (rounds_from agent feature (caller_apart use_rag) whole use_rag messages box refl) e
