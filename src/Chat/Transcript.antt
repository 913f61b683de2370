-- ===== src/Chat/Transcript.antt =====
-- The transcript that the agent gives its provider.
use saas_genai_starter.Common.{
  ◌≡◌, refl, sym, ap, ◌∙◌, Bool, Bool-cases, inl, inr, Option, none, List, [], ◌∷◌, ◌++◌, map,
  append-nil, append_assoc, String, str_eq,
}
use saas_genai_starter.Llm.Types.{
  ToolCall, Completion, user, assistant, Block, text_block, tool_use, tool_result, Content, plain,
  blocks, Message, Tried, value, raises,
}
use saas_genai_starter.Chat.Toolbox.{max_tool_rounds, Agent, Toolbox}
use saas_genai_starter.Chat.Agent.{
  Run, call_block, assistant_turn, tool_run, rounds, finish, start, run_agent,
}
use saas_genai_starter.Chat.Keeps.{rounds_kept, result_ids}

-- the tool calls that a message makes, and those that it answers
abbrev pub use_ids : List Block → List String
use_ids [] = []
use_ids (tool_use id name arguments ∷ bs) = id ∷ use_ids bs
use_ids (text_block t ∷ bs) = use_ids bs
use_ids (tool_result id content ∷ bs) = use_ids bs

abbrev pub blocks_of : Content → List Block
blocks_of (plain t) = []
blocks_of (blocks bs) = bs

-- pairs of a message of the assistant and one of the user that answers each of its calls, in their order
abbrev pub Paired : List Message → Type 0
Paired [] = Unit
Paired (a ∷ []) = ⊥
Paired (a ∷ u ∷ ms) =
    (a.role ≡ assistant)
    × (u.role ≡ user)
    × (result_ids (blocks_of u.content) ≡ use_ids (blocks_of a.content))
    × Paired ms

use_ids-append : (xs bs : List Block) → use_ids (xs ++ bs) ≡ use_ids xs ++ use_ids bs
use_ids-append [] bs = refl
use_ids-append (tool_use id name arguments ∷ xs) bs = ap (◌∷◌ id) (use_ids-append xs bs)
use_ids-append (text_block t ∷ xs) bs = use_ids-append xs bs
use_ids-append (tool_result id content ∷ xs) bs = use_ids-append xs bs

use_ids_calls : (cs : List ToolCall) → use_ids (map call_block cs) ≡ map (λ c. c.id) cs
use_ids_calls [] = refl
use_ids_calls (c ∷ cs) = ap (◌∷◌ c.id) (use_ids_calls cs)

turn_ids :
    (c : Completion) → use_ids (blocks_of (assistant_turn c).content) ≡ map (λ d. d.id) c.tool_calls
unfolding assistant_turn
turn_ids c = elim (Bool-cases (str_eq c.text "")) [
  | inl silent ↦ rw silent (use_ids_calls c.tool_calls)
  | inr spoken ↦ rw spoken (use_ids_calls c.tool_calls)
]

turn_role : (c : Completion) → (assistant_turn c).role ≡ assistant
unfolding assistant_turn
turn_role c = refl

module _ {W : Type 0} (agent : Agent W) (use_rag : Bool) where
  Paired-append :
      (ms : List Message) (a u : Message)
      → Paired ms
      → a.role ≡ assistant
      → u.role ≡ user
      → result_ids (blocks_of u.content) ≡ use_ids (blocks_of a.content)
      → Paired (ms ++ a ∷ u ∷ [])
  Paired-append [] a u p ra ru ids = (ra, ru, ids, tt)
  Paired-append (b ∷ []) a u p ra ru ids = absurd p
  Paired-append (b ∷ v ∷ ms) a u (x, y, z, p) ra ru ids =
      (x, y, z, Paired-append ms a u p ra ru ids)

  -- However the provider and the tools answer: when a turn ends, the messages are those that it began
  -- with, and then pairs of a turn of the assistant and a message of the user with the results of
  -- exactly the tool calls of that turn, in their order.
  pub run_agent-Paired :
      (messages : List Message) (box : Toolbox W)
      → (added : List Message) × ((run_agent agent use_rag messages box).1.messages
          ≡ messages ++ added)
        × Paired added
  unfolding run_agent tool_run
  run_agent-Paired messages box =
      let run = start agent use_rag messages box in
      let (j, le, kept) =
        rounds_kept agent use_rag
          (λ b k r. (added : List Message) × (r.messages ≡ messages ++ added) × Paired added)
          (λ k r h. h) (λ k r c h whole e. h) (λ k r call h. h)
          (λ k r c bs ids (added, e, p).
            let turn = assistant_turn c in
            let answer : Message = record { role = user; content = blocks bs } in
            (
              added ++ turn ∷ answer ∷ [],
              ap (λ ms. ms ++ turn ∷ answer ∷ []) e
                  ∙ append_assoc messages added (turn ∷ answer ∷ []),
              Paired-append added turn answer p (turn_role c) refl (ids ∙ sym (turn_ids c)),
            ))
          max_tool_rounds 0 none run ([], sym (append-nil messages), tt) in
      finish_kept (rounds agent use_rag max_tool_rounds none run) kept
    where
      finish_kept :
          (p : Tried (Option Completion) × Run W)
          → (added : List Message) × (p.1.messages ≡ messages ++ added) × Paired added
          → (added : List Message) × ((finish agent use_rag p).1.messages ≡ messages ++ added)
            × Paired added
      finish_kept (raises f, r) h = unfold finish in h
      finish_kept (value c, r) h = unfold finish in h
