-- ===== src/Chat/Keeps.antt =====
-- What every step of the agent keeps, its run keeps.
use saas_genai_starter.Common.{
  ℕ, zero, suc, ◌+◌, ◌≤◌, ◌≡◌, ◌∙◌, refl, sym, ap, ◌⊎◌, inl, inr, Bool, true, false, not, ◌||◌,
  Bool-cases, Option, none, some, List, [], ◌∷◌, ◌++◌, map, append-nil, append_assoc, String,
  str_eq, arith,
}
use saas_genai_starter.Llm.Types.{
  ToolCall, Completion, Block, text_block, tool_use, tool_result, user, blocks, Failure, Tried,
  value, raises, Tried-cases,
}
use saas_genai_starter.Usage.Service.{tracked_stream}
use saas_genai_starter.Chat.Toolbox.{Streamed, Agent, Toolbox, execute}
use saas_genai_starter.Chat.Agent.{
  Run, Turned, answered, called, broke, assistant_turn, deltas, last_completion, leaving_of,
  tokens_of, is_empty, caller, request_of, tool_run, execute_all, append_results, decide,
  after_stream, read_stream, round, rounds,
}

Turned-cases :
    (t : Turned)
    → ((c : Completion) × (t ≡ answered c))
      ⊎ (((c : Completion) × (t ≡ called c)) ⊎ ((f : Failure) × (t ≡ broke f)))
Turned-cases (answered c) = inl (c, refl)
Turned-cases (called c) = inr (inl (c, refl))
Turned-cases (broke f) = inr (inr (f, refl))

-- does it end with an exception?
abbrev pub is_raised {ℓ} : {A : Type ℓ} → Tried A → Bool
is_raised (value a) = false
is_raised (raises f) = true

abbrev is_broken : Turned → Bool
is_broken (answered c) = false
is_broken (called c) = false
is_broken (broke f) = true

-- the calls that the results of a turn are for
abbrev pub result_ids : List Block → List String
result_ids [] = []
result_ids (tool_result id content ∷ bs) = id ∷ result_ids bs
result_ids (text_block t ∷ bs) = result_ids bs
result_ids (tool_use id name arguments ∷ bs) = result_ids bs

abbrev pub call_ids : List ToolCall → List String
call_ids cs = map (λ c. c.id) cs

result_ids-append :
    (bs : List Block) (id text : String)
    → result_ids (bs ++ tool_result id text ∷ []) ≡ result_ids bs ++ id ∷ []
result_ids-append [] id text = refl
result_ids-append (tool_result i content ∷ bs) id text = ap (◌∷◌ i) (result_ids-append bs id text)
result_ids-append (text_block t ∷ bs) id text = result_ids-append bs id text
result_ids-append (tool_use i name arguments ∷ bs) id text = result_ids-append bs id text

module _ {W : Type 0} (agent : Agent W) (use_rag : Bool) where
  -- the run after the events of a stream
  abbrev pub heard : Run W → Streamed × W → Run W
  heard run (streamed, w) = record run {
    yielded = run.yielded ++ deltas streamed.events;
    toolbox = record run.toolbox {
      session =
          tracked_stream (caller agent use_rag) streamed.latency_ms streamed.events
            (leaving_of streamed.failure) run.toolbox.session;
      world = w;
    };
  }

  abbrev pub counted : Completion → Run W → Run W
  counted c run = record run { total_tokens = run.total_tokens + tokens_of c.usage }

  abbrev pub answered_with : Completion → List Block → Run W → Run W
  answered_with c bs run = record run {
    messages =
        run.messages ++ assistant_turn c ∷ (record { role = user; content = blocks bs }) ∷ [];
  }

  abbrev pub asked : Run W → Streamed × W
  asked run = agent.stream (request_of agent use_rag run.messages) run.toolbox.world

  value_inj : {A : Type 0} (a b : A) → value a ≡ value b → a ≡ b
  value_inj a b e = cc

  execute_all_ids :
      (calls : List ToolCall) (bs rs : List Block) (run : Run W)
      → (execute_all agent use_rag calls bs run).0 ≡ value rs
      → result_ids rs ≡ result_ids bs ++ call_ids calls
  unfolding execute_all
  execute_all_ids [] bs rs run e =
      ap result_ids (sym (value_inj bs rs e)) ∙ sym (append-nil (result_ids bs))
  execute_all_ids (call ∷ calls) bs rs run e =
      let box : Toolbox W = (execute agent call run.toolbox).1 in
      elim (Tried-cases (execute agent call run.toolbox).0) [
        | inl (text, f) ↦
            execute_all_ids calls (bs ++ tool_result call.id text ∷ []) rs
              (tool_run agent use_rag call box run) (rw (execute_all, f) at e)
            ∙ ap (λ is. is ++ call_ids calls) (result_ids-append bs call.id text)
            ∙ append_assoc (result_ids bs) (call.id ∷ []) (call_ids calls)
        | inr (g, f) ↦ absurd (cc (rw (execute_all, f) at e))
      ]

  -- `P b k run` is what holds after `k` streams; `b` tells that an exception has ended the run.
  module _ (P : Bool → ℕ → Run W → Type 0)
      (heard_broken : (k : ℕ) (run : Run W)
        → P false k run
        → P true (suc k) (heard run (asked run)))
      (heard_whole : (k : ℕ) (run : Run W) (c : Completion)
        → P false k run
        → (asked run).0.failure ≡ none
        → last_completion none (asked run).0.events ≡ some c
        → P false (suc k) (counted c (heard run (asked run))))
      (tool_kept : (k : ℕ) (run : Run W) (call : ToolCall)
        → P false k run
        → P
            (is_raised (execute agent call run.toolbox).0)
            k
            (tool_run agent use_rag call (execute agent call run.toolbox).1 run))
      (append_kept : (k : ℕ) (run : Run W) (c : Completion) (bs : List Block)
        → result_ids bs ≡ call_ids c.tool_calls
        → P false k run
        → P false k (answered_with c bs run)) where
    execute_all_kept :
        (k : ℕ) (calls : List ToolCall) (bs : List Block) (run : Run W)
        → P false k run
        → P
            (is_raised (execute_all agent use_rag calls bs run).0)
            k
            (execute_all agent use_rag calls bs run).1
    unfolding execute_all
    execute_all_kept k [] bs run h = h
    execute_all_kept k (call ∷ calls) bs run h =
        let box : Toolbox W = (execute agent call run.toolbox).1 in
        let kept = tool_kept k run call h in
        elim (Tried-cases (execute agent call run.toolbox).0) [
          | inl (text, e) ↦
              rw (execute_all, e)
                (execute_all_kept k calls (bs ++ tool_result call.id text ∷ [])
                  (tool_run agent use_rag call box run) (rw e at kept))
          | inr (f, e) ↦ rw (execute_all, e) (rw e at kept)
        ]

    append_results_kept :
        (k : ℕ) (c : Completion) (p : Tried (List Block) × Run W)
        → ((bs : List Block) → p.0 ≡ value bs → result_ids bs ≡ call_ids c.tool_calls)
        → P (is_raised p.0) k p.1
        → P (is_broken (append_results agent use_rag c p).0) k (append_results agent use_rag c p).1
    unfolding append_results
    append_results_kept k c (raises f, run) ids h = h
    append_results_kept k c (value bs, run) ids h = append_kept k run c bs (ids bs refl) h

    decide_kept :
        (k : ℕ) (c : Completion) (run : Run W)
        → P false k run
        → P (is_broken (decide agent use_rag c run).0) k (decide agent use_rag c run).1
    unfolding decide
    decide_kept k c run h =
        elim (Bool-cases (not (str_eq c.stop_reason "tool_use") || is_empty c.tool_calls)) [
          | inl done ↦ rw done h
          | inr more ↦ rw more (
              append_results_kept k c (execute_all agent use_rag c.tool_calls [] run)
                (λ bs e. execute_all_ids c.tool_calls [] bs run e)
                (execute_all_kept k c.tool_calls [] run h))
        ]

    after_stream_kept :
        (k : ℕ) (f : Option Failure) (last : Option Completion) (run : Run W)
        → P true k run
        → ((c : Completion) → f ≡ none → last ≡ some c → P false k (counted c run))
        → P
            (is_broken (after_stream agent use_rag f last run).0)
            k
            (after_stream agent use_rag f last run).1
    unfolding after_stream
    after_stream_kept k (some f) last run broken whole = broken
    after_stream_kept k none none run broken whole = broken
    after_stream_kept k none (some c) run broken whole =
        decide_kept k c (counted c run) (whole c refl refl)

    round_kept :
        (k : ℕ) (run : Run W)
        → P false k run
        → P (is_broken (round agent use_rag run).0) (suc k) (round agent use_rag run).1
    unfolding round read_stream
    round_kept k run h =
        after_stream_kept (suc k) (asked run).0.failure (last_completion none (asked run).0.events)
          (heard run (asked run)) (heard_broken k run h) (λ c. heard_whole k run c h)

    -- after the rounds, one of the numbers of streams that may have been read
    pub rounds_kept :
        (n k : ℕ) (last : Option Completion) (run : Run W)
        → P false k run
        → (j : ℕ) × (j ≤ n + k)
          × P (is_raised (rounds agent use_rag n last run).0) j (rounds agent use_rag n last run).1
    unfolding rounds
    rounds_kept zero k last run h = (k, omega arith, h)
    rounds_kept (suc n) k last run h =
        let kept = round_kept k run h in
        elim (Turned-cases (round agent use_rag run).0) [
          | inl (c, e) ↦ rw (rounds, e) (suc k, omega arith, (rw e at kept))
          | inr (inl (c, e)) ↦
              let (j, le, more) =
                rounds_kept n (suc k) (some c) (round agent use_rag run).1 (rw e at kept) in
              rw (rounds, e) (j, omega (arith, le), more)
          | inr (inr (f, e)) ↦ rw (rounds, e) (suc k, omega arith, (rw e at kept))
        ]
