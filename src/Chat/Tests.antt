-- ===== src/Chat/Tests.antt =====
-- The theorems on the agent and its conversations, at a turn that searches once.
use saas_genai_starter.Common.{
  ℕ, suc, ◌+◌, ◌≡◌, refl, true, none, some, List, [], ◌∷◌, ◌++◌, String, ◌==◌, ◌-◌, leb,
  if◌then◌else◌, codes,
}
use saas_genai_starter.Common.Int.{pos}
use saas_genai_starter.Llm.Types.{
  no_usage, ToolCall, Completion, text_delta, stream_end, user, plain, Message, ChatRequest, Tried,
  EmbeddingResult, value,
}
use saas_genai_starter.Usage.Session.{Session}
use saas_genai_starter.Tenants.Models.{member}
use saas_genai_starter.Tenants.Context.{TenantContext}
use saas_genai_starter.Documents.Models.{Document, DocumentChunk, ready}
use saas_genai_starter.Documents.Retrieval.{Citation}
use saas_genai_starter.RateLimit.Store.{Redis}
use saas_genai_starter.RateLimit.{Limits}
use saas_genai_starter.Chat.Models.{CitedSource, default_title, Conversation}
use saas_genai_starter.Chat.Toolbox.{Streamed, Retriever, Agent, Toolbox}
use saas_genai_starter.Chat.Agent.{Event, delta, tool_called, final, citations_payload, run_agent}
use saas_genai_starter.Chat.Citations.{Shown, run_agent-Shown}
use saas_genai_starter.Chat.Ledger.{IsStream, session_tokens, run_agent-balanced}
use saas_genai_starter.Llm.OpenAi.{translate_all}
use saas_genai_starter.Chat.Translated.{called_ids, answered_ids, run_agent-translated}
use saas_genai_starter.Chat.Service.{ChatTables}
use saas_genai_starter.Chat.Stream.{
  Sse, event, done, Reply, Stamps, Turn, with_conversation, checked, accepted, event_stream,
  send_message,
}
use saas_genai_starter.Chat.Survives.{Answered, asked_message, send_message-Answered}

abbrev bob : TenantContext
bob = record {
  organization_id = 1;
  user_id = 11;
  role = member;
  plan = "free";
  rpm_override = none;
  tpd_override = none;
}

abbrev handbook : Document
handbook = record {
  id = 4;
  tenant_id = 1;
  name = "handbook.md";
  mime_type = "text/markdown";
  size_bytes = 2;
  status = ready;
  error = none;
  storage_path = "1/4";
  title = none;
  language = none;
  summary = none;
  topics = none;
  created_by = 11;
}

abbrev chunk_of : ℕ → ℕ → DocumentChunk ℕ
chunk_of position vector = record {
  tenant_id = 1;
  document_id = 4;
  position = position;
  page = none;
  content = 104 ∷ 105 ∷ [];
  embedding = vector;
}

-- found twice, and once with a low score
abbrev chunks : List (DocumentChunk ℕ)
chunks = chunk_of 0 7 ∷ chunk_of 1 8 ∷ chunk_of 2 900 ∷ []

abbrev embed_query : String → ℕ → (Tried (EmbeddingResult ℕ) × ℕ) × ℕ
embed_query query w =
    ((value (record { embeddings = 7 ∷ []; input_tokens = 5; model = "voyage" }), 20), w)

abbrev retriever : Retriever ℕ
retriever = record {
  Vector = ℕ;
  embed = embed_query;
  cosine_distance = λ v q. v - q;
  score_of = λ n. if leb n 100 then pos (8100 - n) else pos 100;
  chunks = chunks;
}

abbrev found_source : Citation
found_source = record {
  document_id = 4;
  document_name = "handbook.md";
  page = none;
  snippet = 104 ∷ 105 ∷ [];
  content = 104 ∷ 105 ∷ [];
  score = pos 8100;
}

abbrev call : ToolCall
call = record { id = "t1"; name = "search_documents"; arguments = ("query", "holidays") ∷ [] }

-- The provider counts its calls, and calls the tool the first time.
abbrev reply : ℕ → Completion
reply w = record {
  text = "Hi";
  stop_reason = if w == 0 then "tool_use" else "end_turn";
  usage = record no_usage { input_tokens = 10; output_tokens = 3 };
  model = "claude";
  tool_calls = if w == 0 then call ∷ [] else [];
}

abbrev stream_reply : ChatRequest → ℕ → Streamed × ℕ
stream_reply q w = (
  record { events = text_delta "Hi" ∷ stream_end (reply w) ∷ []; latency_ms = 40; failure = none },
  suc w,
)

abbrev agent : Agent ℕ
agent = record {
  stream = stream_reply;
  retrieval = some retriever;
  dump_results = λ cs. "[...]";
  dump_stats = λ d c. "{...}";
  tenant = bob;
  documents = handbook ∷ [];
  conversations = [];
}

whole :
    (q : ChatRequest) (w : ℕ)
    → (agent.stream q w).0.failure ≡ none
    → IsStream (agent.stream q w).0.events
whole q w e = ("Hi" ∷ [], reply w, refl)

abbrev question : List Message
question = (record { role = user; content = plain "How many holidays?" }) ∷ []

abbrev no_rows : Session
no_rows = record { saved = []; pending = [] }

abbrev box : Toolbox ℕ
box = record { citations = []; session = no_rows; world = 0 }

turn_yields :
    (run_agent agent true question box).1.yielded
    ≡ delta "Hi"
      ∷ tool_called "search_documents" (("query", "holidays") ∷ [])
      ∷ delta "Hi"
      ∷ final "Hi" (citations_payload (found_source ∷ [])) 26
      ∷ []
unfolding run_agent
turn_yields = refl

run_agent-Shown_example : Shown (run_agent agent true question box).1.toolbox.citations
run_agent-Shown_example = run_agent-Shown agent true question no_rows 0

run_agent-balanced_example :
    (before : List Event) × (text : String) × (cites : List CitedSource) × (tokens : ℕ)
    × ((run_agent agent true question box).1.yielded ≡ before ++ final text cites tokens ∷ [])
    × (session_tokens "rag" (run_agent agent true question box).1.toolbox.session ≡ tokens + 0)
unfolding run_agent
run_agent-balanced_example = run_agent-balanced agent whole true question box refl

abbrev dumps : List (String × String) → String
dumps a = "{}"

run_agent-translated_example :
    (added : List Message) × ((run_agent agent true question box).1.messages ≡ question ++ added)
    × (called_ids (translate_all dumps added) ≡ answered_ids (translate_all dumps added))
run_agent-translated_example = run_agent-translated dumps agent true question box

-- a Redis that has counted nothing
abbrev quiet : Redis (Unit {0})
quiet = record {
  prune = λ k now w r. (some 0, r);
  oldest = λ k r. (some none, r);
  push = λ k now r. (some tt, r);
  used = λ k d r. (some none, r);
  incrby = λ k d n r. (some tt, r);
}

abbrev limits : Limits
limits = record { requests_per_minute = 5; tokens_per_day = 1000; plan_limits = [] }

abbrev stamps : Stamps
stamps = record { user_id = 50; user_at = 100; assistant_id = 51; assistant_at = 105 }

abbrev conversation : Conversation
conversation = record {
  id = 7;
  tenant_id = 1;
  title = default_title;
  created_by = 11;
  created_at = 90;
}

abbrev tables : ChatTables
tables = record { conversations = conversation ∷ []; messages = [] }

abbrev turn : Turn (Unit {0})
turn = record {
  db = record { saved = tables; tables = tables; usage = no_rows };
  redis = tt;
  now = 100;
}

-- The workspace has no ready document, so the agent answers without its tools.
abbrev sent : Reply × Turn (Unit {0})
sent = send_message agent quiet limits stamps 7 "How many holidays?" 1 turn

abbrev sent_events : List Sse
sent_events = event (delta "Hi") ∷ done 51 [] ∷ []

autotitled :
    sent.1.db.saved.conversations
    ≡ (record conversation { title = codes "How many holidays?" }) ∷ []
unfolding send_message with_conversation checked accepted event_stream run_agent
autotitled = refl

send_message-Answered_example :
    Answered agent quiet limits stamps 7
      ([] ++ asked_message agent quiet limits stamps 7 "How many holidays?" ∷ [])
      sent_events
      sent.1
unfolding send_message with_conversation checked accepted event_stream run_agent citations_payload
send_message-Answered_example =
    send_message-Answered agent quiet limits stamps 7 "How many holidays?" 1 turn sent.1 sent_events
      refl
