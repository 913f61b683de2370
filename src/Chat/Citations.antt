-- ===== src/Chat/Citations.antt =====
-- What the agent shows as its sources.
use saas_genai_starter.Common.{
  ℕ, ◌≡◌, refl, sym, subst, inl, inr, Bool, true, false, Bool-cases, Option, none, some, List, [],
  ◌∷◌, ◌++◌, String, str_eq, any, arith, All, All-append, or_else, get,
}
use saas_genai_starter.Common.Int.{ltb_ℤ}
use saas_genai_starter.Chunking.Words.{Text}
use saas_genai_starter.Llm.Types.{ToolCall, Completion, Message, Tried, value, raises}
use saas_genai_starter.Usage.Session.{Session}
use saas_genai_starter.Documents.Retrieval.{Citation}
use saas_genai_starter.Chat.Toolbox.{
  max_tool_rounds, citation_min_score, text_eq, page_eq, same_source, collect_one, collect,
  Retriever, Agent, retrieve, Toolbox, found, search_with, execute,
}
use saas_genai_starter.Chat.Keeps.{rounds_kept}
use saas_genai_starter.Chat.Agent.{Run, tool_run, rounds, finish, start, run_agent}

-- the same document, page and snippet
abbrev pub SameSource : Citation → Citation → Type 0
SameSource c d = (c.document_id ≡ d.document_id) × (c.page ≡ d.page) × (c.snippet ≡ d.snippet)

-- no two of them with the same source
abbrev pub Apart : List Citation → Type 0
Apart [] = Unit
Apart (c ∷ cs) = All (λ d. ¬ SameSource c d) cs × Apart cs

-- Each citation has at least the least score, and no two have the same source.
abbrev pub Shown : List Citation → Type 0
Shown cs = All (λ c. ltb_ℤ c.score citation_min_score ≡ false) cs × Apart cs

text_eq_refl : (t : Text) → text_eq t t ≡ true
text_eq_refl [] = refl
text_eq_refl (c ∷ cs) = ground (arith, text_eq_refl cs)

page_eq_refl : (p : Option ℕ) → page_eq p p ≡ true
page_eq_refl none = refl
page_eq_refl (some n) = ground arith

same_source_lem : (c d : Citation) → SameSource d c → same_source c d ≡ true
unfolding same_source
same_source_lem c d (a, b, e) =
    rw (a, b, e, page_eq_refl c.page, text_eq_refl c.snippet) (ground arith)

-- none of the citations has the source of the one that `any` does not find
unseen :
    (c : Citation) (cs : List Citation)
    → any (same_source c) cs ≡ false
    → All (λ d. ¬ SameSource d c) cs
unseen c [] e = tt
unseen c (d ∷ cs) e =
    ((λ s. absurd (ground (arith, same_source_lem c d s))), unseen c cs (ground arith))

Apart-append :
    (c : Citation) (cs : List Citation)
    → Apart cs
    → All (λ d. ¬ SameSource d c) cs
    → Apart (cs ++ c ∷ [])
Apart-append c [] a u = (tt, tt)
Apart-append c (d ∷ cs) (h, a) (n, u) =
    (All-append (λ e. ¬ SameSource d e) cs (c ∷ []) h (n, tt), Apart-append c cs a u)

collect_one-Shown : (c : Citation) (cs : List Citation) → Shown cs → Shown (collect_one c cs)
unfolding collect_one
collect_one-Shown c cs (h, a) = elim (Bool-cases (ltb_ℤ c.score citation_min_score)) [
  | inl low ↦ rw low (h, a)
  | inr high ↦ elim (Bool-cases (any (same_source c) cs)) [
    | inl seen ↦ rw (high, seen) (h, a)
    | inr new ↦
        rw (high, new)
          (
            All-append (λ d. ltb_ℤ d.score citation_min_score ≡ false) cs (c ∷ []) h (high, tt),
            Apart-append c cs a (unseen c cs new),
          )
  ]
]

collect-Shown : (results cs : List Citation) → Shown cs → Shown (collect results cs)
unfolding collect
collect-Shown [] cs s = s
collect-Shown (c ∷ results) cs s =
    collect-Shown results (collect_one c cs) (collect_one-Shown c cs s)

module _ {W : Type 0} (agent : Agent W) where
  found-Shown :
      (box : Toolbox W) (p : Tried (List Citation) × (Session × W))
      → Shown box.citations
      → Shown (found agent box p).1.citations
  unfolding found
  found-Shown box (raises f, (s, w)) h = h
  found-Shown box (value [], (s, w)) h = h
  found-Shown box (value (c ∷ cs), (s, w)) h = collect-Shown (c ∷ cs) box.citations h

  search_with-Shown :
      (o : Option (Retriever W)) (query : String) (box : Toolbox W)
      → Shown box.citations
      → Shown (search_with agent o query box).1.citations
  unfolding search_with
  search_with-Shown none query box h = h
  search_with-Shown (some r) query box h = elim (Bool-cases (str_eq query "")) [
    | inl blank ↦ rw blank h
    | inr given ↦ rw given (found-Shown box (retrieve agent r query box.session box.world) h)
  ]

  execute-Shown :
      (call : ToolCall) (box : Toolbox W)
      → Shown box.citations
      → Shown (execute agent call box).1.citations
  unfolding execute
  execute-Shown call box h = elim (Bool-cases (str_eq call.name "search_documents")) [
    | inl e ↦
        rw e (search_with-Shown agent.retrieval (or_else (get "query" call.arguments) "") box h)
    | inr e ↦ elim (Bool-cases (str_eq call.name "get_workspace_stats")) [
      | inl f ↦ rw (e, f) h
      | inr f ↦ rw (e, f) h
    ]
  ]

  finish_toolbox :
      (use_rag : Bool) (p : Tried (Option Completion) × Run W)
      → (finish agent use_rag p).1.toolbox ≡ p.1.toolbox
  unfolding finish
  finish_toolbox use_rag (raises f, run) = refl
  finish_toolbox use_rag (value c, run) = refl

  -- However the provider and the tools answer: the citations that a turn of the agent has collected, when
  -- it ends, all have a score of at least 0.3, and no two of them are of the same document, page and snippet.
  pub run_agent-Shown :
      (use_rag : Bool) (messages : List Message) (session : Session) (w : W)
      → let box : Toolbox W = record { citations = []; session = session; world = w } in
        Shown (run_agent agent use_rag messages box).1.toolbox.citations
  unfolding run_agent tool_run
  run_agent-Shown use_rag messages session w =
      let box : Toolbox W = record { citations = []; session = session; world = w } in
      let run = start agent use_rag messages box in
      let (j, le, shown) =
        rounds_kept agent use_rag (λ b k r. Shown r.toolbox.citations) (λ k r h. h)
          (λ k r c h whole e. h) (λ k r call h. execute-Shown call r.toolbox h)
          (λ k r c bs ids h. h) max_tool_rounds 0 none run (tt, tt) in
      subst (λ b. Shown b.citations)
        (sym (finish_toolbox use_rag (rounds agent use_rag max_tool_rounds none run))) shown
