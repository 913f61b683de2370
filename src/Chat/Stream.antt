-- ===== src/Chat/Stream.antt =====
-- `send_message`: apps/api/src/domains/chat/router.py, with a client that reads to the end.
use saas_genai_starter.Common.{ℕ, ◌&&◌, Option, none, some, List, [], ◌∷◌, ◌++◌, String, is_some}
use saas_genai_starter.Core.Errors.{ApiError}
use saas_genai_starter.Core.Action.{Result, ok, err, crash}
use saas_genai_starter.Llm.Errors.{message}
use saas_genai_starter.Llm.Types.{
  user, assistant, plain, Failure, llm_error, exception, cancellation,
}
use saas_genai_starter.RateLimit.Store.{Redis}
use saas_genai_starter.RateLimit.{Limits, effective_limits, check, record_tokens}
use saas_genai_starter.Documents.Retrieval.{has_ready_documents}
use saas_genai_starter.Chat.Models.{CitedSource, Conversation}
use saas_genai_starter.Chat.Toolbox.{Agent}
use saas_genai_starter.Chat.Agent.{Event, delta, tool_called, final, Run, run_agent}
use saas_genai_starter.Chat.Service.{
  ChatDb, commit_db, close_db, get_conversation, list_for_conversation, add_message,
  maybe_autotitle, to_llm_messages,
}

-- what the client is sent
pub data Sse : Type 0 where
  event : Event → Sse
  done : ℕ → List CitedSource → Sse
  error_event : String → Sse

-- An error of the API, the refusal of the limiter with its `retry_after_seconds`, another exception, or
-- the response.
pub data Reply : Type 0 where
  refused : ApiError → Reply
  over_quota : ℕ → Reply
  broken : String → Reply
  streamed : List Sse → Reply

-- the ids and the times that the two messages get
pub record Stamps : Type 0 where
  pub user_id : ℕ
  pub user_at : ℕ
  pub assistant_id : ℕ
  pub assistant_at : ℕ

-- the database session, the server of the limiter, and the time of the request
pub record Turn (R : Type 0) : Type 0 where
  pub db : ChatDb
  pub redis : R
  pub now : ℕ

module _ {W R : Type 0} (agent : Agent W) (redis : Redis R) (limits : Limits) (stamps : Stamps)
    (conversation : ℕ) where
  abbrev pub org : ℕ
  org = agent.tenant.organization_id

  -- one event of the agent
  unfoldable pub serve_event : Event → Turn R → Sse × Turn R
  unfolding add_message commit_db record_tokens
  serve_event (delta t) s = (event (delta t), s)
  serve_event (tool_called n a) s = (event (tool_called n a), s)
  serve_event (final text citations tokens) s = (
    done stamps.assistant_id citations,
    record s {
      db = commit_db (record s.db {
        tables =
            add_message org stamps.assistant_id stamps.assistant_at conversation assistant text
              citations s.db.tables;
      });
      redis = record_tokens redis org tokens s.now s.redis;
    },
  )

  unfoldable pub serve_events : List Event → Turn R → List Sse × Turn R
  unfolding serve_event
  serve_events [] s = ([], s)
  serve_events (e ∷ es) s =
      let (x, s1) = serve_event e s in let (xs, s2) = serve_events es s1 in (x ∷ xs, s2)

  -- An LLMError becomes an event; any other exception breaks the response off.
  unfoldable pub caught : Option Failure → List Sse
  caught none = []
  caught (some (llm_error e)) = error_event (message e) ∷ []
  caught (some (exception m)) = []
  caught (some cancellation) = []

  -- `event_stream`. Between the commit of the message and the final event only usage rows change, so
  -- the commits of the usage service have none of these tables' rows to commit.
  unfoldable pub event_stream : Option Failure × Run W → Turn R → List Sse × Turn R
  unfolding serve_events caught close_db
  event_stream (failure, run) s =
      let (sent, s') =
        serve_events run.yielded (record s { db = record s.db { usage = run.toolbox.session } }) in
      (sent ++ caught failure, record s' { db = close_db s'.db })

  -- The user's message is stored, and the turn runs. `content` is that of the request.
  unfoldable pub accepted : Conversation → String → W → Turn R → List Sse × Turn R
  unfolding event_stream run_agent add_message maybe_autotitle list_for_conversation to_llm_messages
      has_ready_documents commit_db
  accepted c content w s =
      let history = list_for_conversation org conversation s.db.tables.messages in
      let added =
        add_message org stamps.user_id stamps.user_at conversation user content [] s.db.tables in
      let db = commit_db (record s.db { tables = maybe_autotitle org c content added }) in
      let use_rag = is_some agent.retrieval && has_ready_documents org agent.documents in
      event_stream
        (run_agent agent use_rag
          (to_llm_messages history ++ (record { role = user; content = plain content }) ∷ [])
          (record { citations = []; session = db.usage; world = w }))
        (record s { db = db })

  unfoldable pub checked : Conversation → String → W → Turn R → Option ℕ × R → Reply × Turn R
  unfolding accepted close_db
  checked c content w s (some seconds, r) =
      (over_quota seconds, record s { db = close_db s.db; redis = r })
  checked c content w s (none, r) =
      let (sent, s') = accepted c content w (record s { redis = r }) in (streamed sent, s')

  unfoldable pub with_conversation : Result Conversation → String → W → Turn R → Reply × Turn R
  unfolding checked check effective_limits close_db
  with_conversation (err e) content w s = (refused e, record s { db = close_db s.db })
  with_conversation (crash m) content w s = (broken m, record s { db = close_db s.db })
  with_conversation (ok c) content w s = checked c content w s (
      check redis org
        (effective_limits limits agent.tenant.rpm_override agent.tenant.tpd_override
          (some agent.tenant.plan))
        s.now s.redis)

  unfoldable pub send_message : String → W → Turn R → Reply × Turn R
  unfolding with_conversation get_conversation
  send_message content w s =
      with_conversation (get_conversation org conversation s.db.tables) content w s
