-- ===== src/Chat/Translated.antt =====
-- The agent's transcript in the format of OpenAI: apps/api/src/llm/openai_provider.py.
use saas_genai_starter.Common.{◌≡◌, Bool, refl, sym, ap, ◌∙◌, List, [], ◌∷◌, ◌++◌, map, String}
use saas_genai_starter.Llm.Types.{
  user, assistant, Block, text_block, tool_use, tool_result, Content, plain, blocks, Message,
}
use saas_genai_starter.Llm.OpenAi.{
  Entry, said, assistant_entry, tool_entry, calls_of, results_of, translate_content, translate_all,
}
use saas_genai_starter.Chat.Toolbox.{Agent, Toolbox}
use saas_genai_starter.Chat.Agent.{run_agent}
use saas_genai_starter.Chat.Keeps.{result_ids}
use saas_genai_starter.Chat.Transcript.{use_ids, blocks_of, Paired, run_agent-Paired}

-- the calls that entries make, and those that they answer
abbrev pub called_ids : List Entry → List String
called_ids [] = []
called_ids (assistant_entry t cs ∷ es) = map (λ c. c.0) cs ++ called_ids es
called_ids (said r t ∷ es) = called_ids es
called_ids (tool_entry i t ∷ es) = called_ids es

abbrev pub answered_ids : List Entry → List String
answered_ids [] = []
answered_ids (tool_entry i t ∷ es) = i ∷ answered_ids es
answered_ids (assistant_entry t cs ∷ es) = answered_ids es
answered_ids (said r t ∷ es) = answered_ids es

module _ (dumps : List (String × String) → String) where
  calls_of_ids : (bs : List Block) → map (λ c. c.0) (calls_of dumps bs) ≡ use_ids bs
  calls_of_ids [] = refl
  calls_of_ids (tool_use i n a ∷ bs) = ap (◌∷◌ i) (calls_of_ids bs)
  calls_of_ids (text_block t ∷ bs) = calls_of_ids bs
  calls_of_ids (tool_result i c ∷ bs) = calls_of_ids bs

  called_results :
      (bs : List Block) (es : List Entry) → called_ids (results_of dumps bs ++ es) ≡ called_ids es
  called_results [] es = refl
  called_results (tool_result i c ∷ bs) es = called_results bs es
  called_results (text_block t ∷ bs) es = called_results bs es
  called_results (tool_use i n a ∷ bs) es = called_results bs es

  answered_results :
      (bs : List Block) (es : List Entry)
      → answered_ids (results_of dumps bs ++ es) ≡ result_ids bs ++ answered_ids es
  answered_results [] es = refl
  answered_results (tool_result i c ∷ bs) es = ap (◌∷◌ i) (answered_results bs es)
  answered_results (text_block t ∷ bs) es = answered_results bs es
  answered_results (tool_use i n a ∷ bs) es = answered_results bs es

  assistant_called :
      (c : Content) (es : List Entry)
      → called_ids (translate_content dumps assistant c ++ es)
        ≡ use_ids (blocks_of c) ++ called_ids es
  assistant_called (plain t) es = refl
  assistant_called (blocks bs) es = ap (λ is. is ++ called_ids es) (calls_of_ids bs)

  assistant_answered :
      (c : Content) (es : List Entry)
      → answered_ids (translate_content dumps assistant c ++ es) ≡ answered_ids es
  assistant_answered (plain t) es = refl
  assistant_answered (blocks bs) es = refl

  user_called :
      (c : Content) (es : List Entry)
      → called_ids (translate_content dumps user c ++ es) ≡ called_ids es
  user_called (plain t) es = refl
  user_called (blocks bs) es = called_results bs es

  user_answered :
      (c : Content) (es : List Entry)
      → answered_ids (translate_content dumps user c ++ es)
        ≡ result_ids (blocks_of c) ++ answered_ids es
  user_answered (plain t) es = refl
  user_answered (blocks bs) es = answered_results bs es

  translated_pairs :
      (ms : List Message)
      → Paired ms
      → called_ids (translate_all dumps ms) ≡ answered_ids (translate_all dumps ms)
  unfolding translate_all
  translated_pairs [] p = refl
  translated_pairs (a ∷ []) p = absurd p
  translated_pairs (a ∷ u ∷ ms) (ra, ru, ids, p) =
      let rest = translate_all dumps ms in
      rw (ra, ru)
        (assistant_called a.content (translate_content dumps user u.content ++ rest)
          ∙ ap (λ is. use_ids (blocks_of a.content) ++ is)
              (user_called u.content rest ∙ translated_pairs ms p)
          ∙ ap (λ is. is ++ answered_ids rest) (sym ids)
          ∙ sym (user_answered u.content rest)
          ∙ sym (assistant_answered a.content (translate_content dumps user u.content ++ rest)))

  -- Whatever a turn of the agent adds to its messages: translated to the format of OpenAI, it answers
  -- exactly the tool calls that it makes, in their order.
  pub run_agent-translated :
      {W : Type 0} (agent : Agent W) (use_rag : Bool) (messages : List Message) (box : Toolbox W)
      → (added : List Message) × ((run_agent agent use_rag messages box).1.messages
          ≡ messages ++ added)
        × (called_ids (translate_all dumps added) ≡ answered_ids (translate_all dumps added))
  run_agent-translated agent use_rag messages box =
      let (added, e, p) = run_agent-Paired agent use_rag messages box in
      (added, e, translated_pairs added p)
