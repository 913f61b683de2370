-- ===== src/Chat/Survives.antt =====
-- What a sent message leaves: apps/api/src/domains/chat/router.py.
use saas_genai_starter.Common.{
  ℕ, ◌≡◌, refl, sym, ap, subst, ◌⊎◌, inl, inr, Bool, Option, none, some, List, [], ◌∷◌, ◌++◌,
  append-nil, String, Bool-cases, All, All-append,
}
use saas_genai_starter.Core.Action.{Result, ok, err, crash}
use saas_genai_starter.Llm.Types.{
  user, assistant, Message, StreamEvent, text_delta, stream_end, Completion, Failure, llm_error,
  exception, cancellation, Tried, value, raises,
}
use saas_genai_starter.RateLimit.Store.{Redis}
use saas_genai_starter.RateLimit.{Limits}
use saas_genai_starter.Chat.Models.{CitedSource, default_title, Conversation, ChatMessage}
use saas_genai_starter.Chat.Toolbox.{text_eq, max_tool_rounds, Agent, Toolbox}
use saas_genai_starter.Chat.Agent.{
  Event, delta, tool_called, final, Run, deltas, tool_run, rounds, finish, start, run_agent,
}
use saas_genai_starter.Chat.Keeps.{rounds_kept}
use saas_genai_starter.Chat.Service.{
  ChatTables, commit_db, close_db, get_conversation, new_message, add_message, maybe_autotitle,
}
use saas_genai_starter.Chat.Stream.{
  Sse, event, done, error_event, over_quota, streamed, Stamps, Turn, serve_event, serve_events,
  caught, event_stream, accepted, checked, with_conversation, send_message,
}

abbrev IsStep : Event → Type 0
IsStep (delta t) = Unit
IsStep (tool_called n a) = Unit
IsStep (final t c n) = ⊥

abbrev pub NotDone : Sse → Type 0
NotDone (event e) = Unit
NotDone (done id cites) = ⊥
NotDone (error_event m) = Unit

deltas-IsStep : (es : List StreamEvent) → All IsStep (deltas es)
unfolding deltas
deltas-IsStep [] = tt
deltas-IsStep (text_delta t ∷ es) = (tt, deltas-IsStep es)
deltas-IsStep (stream_end c ∷ es) = deltas-IsStep es

module _ {W : Type 0} (agent : Agent W) (use_rag : Bool) where
  rounds-IsStep :
      (messages : List Message) (box : Toolbox W)
      → All IsStep
          (rounds agent use_rag max_tool_rounds none (start agent use_rag messages box)).1.yielded
  unfolding tool_run
  rounds-IsStep messages box =
      let (j, le, kept) =
        rounds_kept agent use_rag (λ b k r. All IsStep r.yielded)
          (λ k r h. All-append IsStep r.yielded _ h (deltas-IsStep _))
          (λ k r c h whole e. All-append IsStep r.yielded _ h (deltas-IsStep _))
          (λ k r call h. All-append IsStep r.yielded _ h (tt, tt)) (λ k r c bs ids h. h)
          max_tool_rounds 0 none (start agent use_rag messages box) tt in
      kept

  -- The steps of a turn, then the final event where no exception ended it.
  Ended : Option Failure × Run W → Type 0
  Ended p =
      ((f : Failure) × (p.0 ≡ some f) × All IsStep p.1.yielded)
      ⊎ ((p.0 ≡ none)
          × (before : List Event) × (text : String) × (cites : List CitedSource) × (tokens : ℕ)
          × (p.1.yielded ≡ before ++ final text cites tokens ∷ [])
          × All IsStep before)

  finish-Ended :
      (p : Tried (Option Completion) × Run W)
      → All IsStep p.1.yielded
      → Ended (finish agent use_rag p)
  unfolding finish Ended
  finish-Ended (raises f, run) h = inl (f, refl, h)
  finish-Ended (value c, run) h = inr (refl, run.yielded, _, _, _, refl, h)

  run_agent-Ended :
      (messages : List Message) (box : Toolbox W) → Ended (run_agent agent use_rag messages box)
  unfolding run_agent
  run_agent-Ended messages box =
      finish-Ended (rounds agent use_rag max_tool_rounds none (start agent use_rag messages box))
        (rounds-IsStep messages box)

module _ {W R : Type 0} (agent : Agent W) (redis : Redis R) (limits : Limits) (stamps : Stamps)
    (conversation : ℕ) where
  serve_steps :
      (es : List Event) (s : Turn R)
      → All IsStep es
      → (sent : List Sse) × (serve_events agent redis limits stamps conversation es s ≡ (sent, s))
        × All NotDone sent
  unfolding serve_events serve_event
  serve_steps [] s h = ([], refl, tt)
  serve_steps (delta t ∷ es) s (h, hs) =
      let (sent, e, n) = serve_steps es s hs in (event (delta t) ∷ sent, rw e refl, (tt, n))
  serve_steps (tool_called m a ∷ es) s (h, hs) =
      let (sent, e, n) = serve_steps es s hs in (event (tool_called m a) ∷ sent, rw e refl, (tt, n))
  serve_steps (final t c m ∷ es) s (h, hs) = absurd h

  serve_final :
      (es : List Event) (text : String) (cites : List CitedSource) (tokens : ℕ) (s : Turn R)
      → All IsStep es
      → (sent : List Sse) × (serve_events agent redis limits stamps conversation
            (es ++ final text cites tokens ∷ [])
            s
          ≡ (
            sent ++ done stamps.assistant_id cites ∷ [],
            (serve_event agent redis limits stamps conversation (final text cites tokens) s).1,
          ))
  unfolding serve_events serve_event
  serve_final [] text cites tokens s h = ([], refl)
  serve_final (delta t ∷ es) text cites tokens s (h, hs) =
      let (sent, e) = serve_final es text cites tokens s hs in (event (delta t) ∷ sent, rw e refl)
  serve_final (tool_called m a ∷ es) text cites tokens s (h, hs) =
      let (sent, e) = serve_final es text cites tokens s hs in
      (event (tool_called m a) ∷ sent, rw e refl)
  serve_final (final t c m ∷ es) text cites tokens s (h, hs) = absurd h

  abbrev pub answer_message : String → List CitedSource → ChatMessage
  answer_message text cites =
      new_message agent.tenant.organization_id stamps.assistant_id stamps.assistant_at conversation
        assistant text cites

  -- Nothing was added to `messages`, and the client is not told that the answer is done; or the answer
  -- was added, and the client is told so last.
  abbrev pub Answered : List ChatMessage → List Sse → Turn R → Type 0
  Answered messages sent s =
      ((s.db.saved.messages ≡ messages) × All NotDone sent)
      ⊎ ((before : List Sse) × (text : String) × (cites : List CitedSource) × (sent
            ≡ before ++ done stamps.assistant_id cites ∷ [])
          × (s.db.saved.messages ≡ messages ++ answer_message text cites ∷ []))

  caught-NotDone :
      (f : Option Failure) → All NotDone (caught agent redis limits stamps conversation f)
  unfolding caught
  caught-NotDone none = tt
  caught-NotDone (some (llm_error e)) = (tt, tt)
  caught-NotDone (some (exception m)) = tt
  caught-NotDone (some cancellation) = tt

  event_stream-Answered :
      (use_rag : Bool) (p : Option Failure × Run W) (s : Turn R)
      → Ended agent use_rag p
      → s.db.saved.messages ≡ s.db.tables.messages
      → let r = event_stream agent redis limits stamps conversation p s in
        Answered s.db.tables.messages r.0 r.1
  unfolding event_stream Ended close_db
  event_stream-Answered use_rag (failure, run) s (inl (f, e, steps)) same =
      let (sent, served, n) =
        serve_steps run.yielded (record s { db = record s.db { usage = run.toolbox.session } })
          steps in
      rw served (inl (same, All-append NotDone sent _ n (caught-NotDone failure)))
  event_stream-Answered use_rag (failure, run) s (inr (e, before, text, cites, tokens, y, steps))
        same =
      let (sent, served) =
        serve_final before text cites tokens
          (record s { db = record s.db { usage = run.toolbox.session } }) steps in
      rw (y, served, e)
        (unfold serve_event caught add_message commit_db in
          inr (sent, text, cites, append-nil _, refl))

  maybe_autotitle_messages :
      (tenant : ℕ) (c : Conversation) (content : String) (t : ChatTables)
      → (maybe_autotitle tenant c content t).messages ≡ t.messages
  unfolding maybe_autotitle
  maybe_autotitle_messages tenant c content t = elim (Bool-cases (text_eq c.title default_title)) [
    | inl untitled ↦ rw untitled refl
    | inr titled ↦ rw titled refl
  ]

  abbrev pub asked_message : String → ChatMessage
  asked_message content =
      new_message agent.tenant.organization_id stamps.user_id stamps.user_at conversation user
        content []

  accepted-Answered :
      (c : Conversation) (content : String) (w : W) (s : Turn R)
      → let r = accepted agent redis limits stamps conversation c content w s in
        Answered (s.db.tables.messages ++ asked_message content ∷ []) r.0 r.1
  unfolding accepted commit_db add_message
  accepted-Answered c content w s =
      let tables =
        add_message agent.tenant.organization_id stamps.user_id stamps.user_at conversation user
          content [] s.db.tables in
      let titled = maybe_autotitle_messages agent.tenant.organization_id c content tables in
      subst
        (λ ms.
          let r = accepted agent redis limits stamps conversation c content w s in
          Answered ms r.0 r.1)
        titled
        (event_stream-Answered _ _
          (record s {
            db = commit_db (record s.db {
              tables = maybe_autotitle agent.tenant.organization_id c content tables;
            });
          })
          (run_agent-Ended agent _ _ _) refl)

  streamed_inj : (a b : List Sse) → streamed a ≡ streamed b → a ≡ b
  streamed_inj a b e = cc

  checked-Answered :
      (c : Conversation) (content : String) (w : W) (s s' : Turn R) (sent : List Sse)
      (p : Option ℕ × R)
      → checked agent redis limits stamps conversation c content w s p ≡ (streamed sent, s')
      → Answered (s.db.tables.messages ++ asked_message content ∷ []) sent s'
  unfolding checked
  checked-Answered c content w s s' sent (some seconds, r) e = absurd (cc (ap (λ x. x.0) e))
  checked-Answered c content w s s' sent (none, r) e =
      let a =
        accepted agent redis limits stamps conversation c content w (record s { redis = r }) in
      subst (λ x. Answered (s.db.tables.messages ++ asked_message content ∷ []) x s')
        (streamed_inj a.0 sent (ap (λ x. x.0) e))
        (subst (λ x. Answered (s.db.tables.messages ++ asked_message content ∷ []) a.0 x)
          (ap (λ x. x.1) e) (accepted-Answered c content w (record s { redis = r })))

  with_conversation-Answered :
      (o : Result Conversation) (content : String) (w : W) (s s' : Turn R) (sent : List Sse)
      → with_conversation agent redis limits stamps conversation o content w s ≡ (streamed sent, s')
      → Answered (s.db.tables.messages ++ asked_message content ∷ []) sent s'
  unfolding with_conversation
  with_conversation-Answered (ok c) content w s s' sent e =
      checked-Answered c content w s s' sent _ e
  with_conversation-Answered (err x) content w s s' sent e = absurd (cc (ap (λ x. x.0) e))
  with_conversation-Answered (crash m) content w s s' sent e = absurd (cc (ap (λ x. x.0) e))

  -- However the turn goes: once the response streams, the committed messages are those from before with
  -- the user's message added, and nothing more, and then no event tells that the answer is done; or with
  -- the user's message and the answer added, and then the last event tells that it is done.
  pub send_message-Answered :
      (content : String) (w : W) (s s' : Turn R) (sent : List Sse)
      → send_message agent redis limits stamps conversation content w s ≡ (streamed sent, s')
      → Answered (s.db.tables.messages ++ asked_message content ∷ []) sent s'
  unfolding send_message
  send_message-Answered content w s s' sent e =
      with_conversation-Answered
        (get_conversation agent.tenant.organization_id conversation s.db.tables) content w s s' sent
        e

  checked_unchanged :
      (c : Conversation) (content : String) (w : W) (s s' : Turn R) (seconds : ℕ) (p : Option ℕ × R)
      → checked agent redis limits stamps conversation c content w s p ≡ (over_quota seconds, s')
      → s'.db ≡ close_db s.db
  unfolding checked
  checked_unchanged c content w s s' seconds (some n, r) e = sym (ap (λ x. x.1.db) e)
  checked_unchanged c content w s s' seconds (none, r) e = absurd (cc (ap (λ x. x.0) e))

  -- A message that the limiter refuses leaves what is committed as it was: neither a message nor a title
  -- nor a usage row is added.
  pub send_message-over_quota :
      (content : String) (w : W) (s s' : Turn R) (seconds : ℕ)
      → send_message agent redis limits stamps conversation content w s ≡ (over_quota seconds, s')
      → (s'.db.saved ≡ s.db.saved) × (s'.db.usage.saved ≡ s.db.usage.saved)
  unfolding send_message close_db
  send_message-over_quota content w s s' seconds e =
      let d = over_db (get_conversation agent.tenant.organization_id conversation s.db.tables) e in
      (ap (λ x. x.saved) d, ap (λ x. x.usage.saved) d)
    where
      over_db :
          (o : Result Conversation)
          → with_conversation agent redis limits stamps conversation o content w s
            ≡ (over_quota seconds, s')
          → s'.db ≡ close_db s.db
      over_db (ok c) e =
          checked_unchanged c content w s s' seconds _ (unfold with_conversation in e)
      over_db (err x) e = absurd (cc (ap (λ x. x.0) (unfold with_conversation in e)))
      over_db (crash m) e = absurd (cc (ap (λ x. x.0) (unfold with_conversation in e)))
