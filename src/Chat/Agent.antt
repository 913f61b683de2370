-- ===== src/Chat/Agent.antt =====
-- `run_agent`: apps/api/src/domains/chat/agent.py, read to its end.
use saas_genai_starter.Common.{
  ℕ, zero, suc, ◌+◌, Bool, true, false, not, ◌||◌, Option, none, some, List, [], ◌∷◌, ◌++◌, map,
  String, ◌+s◌, str_eq, if◌then◌else◌,
}
use saas_genai_starter.Llm.Types.{
  Usage, ToolCall, Completion, StreamEvent, text_delta, stream_end, user, assistant, Block,
  text_block, tool_use, tool_result, blocks, Message, ChatRequest, Failure, llm_error, exception,
  cancellation, Tried, value, raises,
}
use saas_genai_starter.Usage.Service.{Caller, Leaving, finished, raised, cancelled, tracked_stream}
use saas_genai_starter.Documents.Retrieval.{Citation}
use saas_genai_starter.Chat.Models.{CitedSource}
use saas_genai_starter.Chat.Toolbox.{
  max_tool_rounds, search_tool, stats_tool, Streamed, Agent, Toolbox, execute,
}

abbrev pub system_prompt : String
system_prompt =
    "You are a helpful, concise assistant. Answer in the language the user writes in. Use Markdown when it improves readability. If you do not know something, say so instead of guessing."

abbrev pub rag_system_prompt : String
rag_system_prompt =
    system_prompt
    +s "\n\nThis workspace has uploaded documents. For any factual question, call search_documents BEFORE answering — even if you already know the answer — and ground your reply in the retrieved content, naming the source document. If the documents do not contain the answer, say so plainly; do not fill the gap with outside knowledge."

-- what the agent yields
pub data Event : Type 0 where
  delta : String → Event
  tool_called : String → List (String × String) → Event
  final : String → List CitedSource → ℕ → Event

-- the local variables of the loop, with the events that were yielded
pub record Run (W : Type 0) : Type 0 where
  pub yielded : List Event
  pub messages : List Message
  pub total_tokens : ℕ
  pub toolbox : Toolbox W

-- How a round ends: with the `break`, with the next round, or with an exception.
pub data Turned : Type 0 where
  answered called : Completion → Turned
  broke : Failure → Turned

abbrev pub call_block : ToolCall → Block
call_block c = tool_use c.id c.name c.arguments

-- `_assistant_turn`
unfoldable pub assistant_turn : Completion → Message
assistant_turn c = record {
  role = assistant;
  content =
      blocks
        ((if str_eq c.text "" then [] else text_block c.text ∷ []) ++ map call_block c.tool_calls);
}

unfoldable pub deltas : List StreamEvent → List Event
deltas [] = []
deltas (text_delta t ∷ es) = delta t ∷ deltas es
deltas (stream_end c ∷ es) = deltas es

-- `completion`, after the events
unfoldable pub last_completion : Option Completion → List StreamEvent → Option Completion
last_completion c [] = c
last_completion c (text_delta t ∷ es) = last_completion c es
last_completion c (stream_end d ∷ es) = last_completion (some d) es

unfoldable pub citations_payload : List Citation → List CitedSource
citations_payload cs =
    map
      (λ c. record {
        document_id = c.document_id;
        document_name = c.document_name;
        page = c.page;
        snippet = c.snippet;
        score = c.score;
      })
      cs

abbrev pub leaving_of : Option Failure → Leaving
leaving_of none = finished
leaving_of (some (llm_error e)) = raised
leaving_of (some (exception m)) = raised
leaving_of (some cancellation) = cancelled

abbrev pub is_empty {ℓ} : {A : Type ℓ} → List A → Bool
is_empty [] = true
is_empty (x ∷ xs) = false

abbrev pub tokens_of : Usage → ℕ
tokens_of u = u.input_tokens + u.output_tokens

module _ {W : Type 0} (agent : Agent W) (use_rag : Bool) where
  abbrev pub caller : Caller
  caller = record {
    tenant_id = agent.tenant.organization_id;
    feature = if use_rag then "rag" else "chat";
    created_by = agent.tenant.user_id;
  }

  abbrev pub request_of : List Message → ChatRequest
  request_of messages = record {
    messages = messages;
    system = if use_rag then rag_system_prompt else system_prompt;
    tools = if use_rag then some (search_tool ∷ stats_tool ∷ []) else none;
  }

  -- the event of a call, what its tool left, and its block
  unfoldable pub tool_run : ToolCall → Toolbox W → Run W → Run W
  tool_run call box run = record run {
    yielded = run.yielded ++ tool_called call.name call.arguments ∷ [];
    toolbox = box;
  }

  unfoldable pub execute_all : List ToolCall → List Block → Run W → Tried (List Block) × Run W
  unfolding execute tool_run
  execute_all [] result_blocks run = (value result_blocks, run)
  execute_all (call ∷ calls) result_blocks run =
      let (output, box) = execute agent call run.toolbox in
      elim output [
        | value text ↦
            execute_all calls (result_blocks ++ tool_result call.id text ∷ [])
              (tool_run call box run)
        | raises f ↦ (raises f, tool_run call box run)
      ]

  unfoldable pub append_results : Completion → Tried (List Block) × Run W → Turned × Run W
  unfolding assistant_turn
  append_results c (raises f, run) = (broke f, run)
  append_results c (value result_blocks, run) = (
    called c,
    record run {
      messages =
          run.messages
          ++ assistant_turn c ∷ (record { role = user; content = blocks result_blocks }) ∷ [];
    },
  )

  unfoldable pub decide : Completion → Run W → Turned × Run W
  unfolding execute_all append_results
  decide c run =
      if not (str_eq c.stop_reason "tool_use") || is_empty c.tool_calls
      then (answered c, run)
      else append_results c (execute_all c.tool_calls [] run)

  -- The stream has ended, with the completion that it gave.
  unfoldable pub after_stream : Option Failure → Option Completion → Run W → Turned × Run W
  unfolding decide
  after_stream (some f) c run = (broke f, run)
  after_stream none none run = (broke (exception "AssertionError"), run)
  after_stream none (some c) run =
      decide c (record run { total_tokens = run.total_tokens + tokens_of c.usage })

  unfoldable pub read_stream : Run W → Streamed × W → Turned × Run W
  unfolding after_stream tracked_stream deltas last_completion
  read_stream run (streamed, w) =
      after_stream streamed.failure (last_completion none streamed.events) (record run {
        yielded = run.yielded ++ deltas streamed.events;
        toolbox = record run.toolbox {
          session =
              tracked_stream caller streamed.latency_ms streamed.events
                (leaving_of streamed.failure) run.toolbox.session;
          world = w;
        };
      })

  unfoldable pub round : Run W → Turned × Run W
  unfolding read_stream
  round run = read_stream run (agent.stream (request_of run.messages) run.toolbox.world)

  unfoldable pub rounds : ℕ → Option Completion → Run W → Tried (Option Completion) × Run W
  unfolding round
  rounds zero last run = (value last, run)
  rounds (suc n) last run =
      let (t, run') = round run in
      elim t [
        | answered c ↦ (value (some c), run')
        | called c ↦ rounds n (some c) run'
        | broke f ↦ (raises f, run')
      ]

  abbrev pub text_of : Option Completion → String
  text_of none = ""
  text_of (some c) = c.text

  unfoldable pub finish : Tried (Option Completion) × Run W → Option Failure × Run W
  finish (raises f, run) = (some f, run)
  finish (value c, run) = (
    none,
    record run {
      yielded =
          run.yielded
          ++ final (text_of c) (citations_payload run.toolbox.citations) run.total_tokens ∷ [];
    },
  )

  abbrev pub start : List Message → Toolbox W → Run W
  start llm_messages box = record {
    yielded = [];
    messages = llm_messages;
    total_tokens = 0;
    toolbox = box;
  }

  unfoldable pub run_agent : List Message → Toolbox W → Option Failure × Run W
  unfolding rounds finish
  run_agent llm_messages box = finish (rounds max_tool_rounds none (start llm_messages box))
