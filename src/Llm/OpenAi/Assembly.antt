-- ===== src/Llm/OpenAi/Assembly.antt =====
-- What a streamed answer is assembled to, and how tool results are translated:
-- apps/api/src/llm/openai_provider.py.
use saas_genai_starter.Common.{
  ℕ, ◌≡◌, refl, ap, ◌∙◌, Option, none, some, List, [], ◌∷◌, ◌++◌, map, String, ◌+s◌, ◌==◌,
  if◌then◌else◌, arith,
}
use saas_genai_starter.Llm.Types.{
  ToolCall, Completion, StreamEvent, text_delta, stream_end, Failure,
}
use saas_genai_starter.Llm.OpenAi.{
  Texts, CallDelta, Slots, Accumulator, take_call, take_calls, no_parts, joined, read_lines,
  Exchange, unreachable, refused, lines, end_of, after_lines, stream,
}

-- what a call's arguments are so far, the empty text where there is no slot
abbrev pub arguments_at : ℕ → Slots → String
arguments_at i [] = ""
arguments_at i ((j, s) ∷ slots) = if j == i then s.arguments else arguments_at i slots

-- the fragments of one call, put after a text in the order in which they come
abbrev pub with_fragments : ℕ → List CallDelta → String → String
with_fragments i [] t = t
with_fragments i (c ∷ cs) t = with_fragments i cs (if c.index == i then t +s c.arguments else t)

take_call_lem :
    (i : ℕ) (c : CallDelta) (slots : Slots)
    → arguments_at i (take_call c slots)
      ≡ (if c.index == i then arguments_at i slots +s c.arguments else arguments_at i slots)
unfolding take_call
take_call_lem i c [] = refl
take_call_lem i c ((j, s) ∷ slots) = ground (arith, take_call_lem i c slots)

-- However the fragments of several tool calls are mixed, and whatever was there before: the arguments
-- of each call are its own fragments, put together in the order in which they come.
pub take_calls-fragments :
    (i : ℕ) (cs : List CallDelta) (slots : Slots)
    → arguments_at i (take_calls cs slots) ≡ with_fragments i cs (arguments_at i slots)
unfolding take_calls
take_calls-fragments i [] slots = refl
take_calls-fragments i (c ∷ cs) slots =
    take_calls-fragments i cs (take_call c slots)
    ∙ ap (with_fragments i cs) (take_call_lem i c slots)

-- the texts of the events, and the completion with the same text at their end
abbrev pub IsAnswer : List StreamEvent → Type 0
IsAnswer es =
    (ts : List String) × (c : Completion) × (es ≡ map text_delta ts ++ stream_end c ∷ [])
    × (c.text ≡ joined ts)

module _ (py : Texts) (loads : String → Option (List (String × String)))
    (provider model : String) where
  end_of-IsAnswer :
      (a : Accumulator) (o : Option (List ToolCall))
      → (end_of py loads provider model a o).1 ≡ none
      → IsAnswer (end_of py loads provider model a o).0
  unfolding end_of
  end_of-IsAnswer a none e = absurd (cc)
  end_of-IsAnswer a (some calls) e = (a.text_parts, _, refl, refl)

  after_lines-IsAnswer :
      (p : Option Failure × Accumulator)
      → (after_lines py loads provider model p).1 ≡ none
      → IsAnswer (after_lines py loads provider model p).0
  unfolding after_lines
  after_lines-IsAnswer (some f, a) e = absurd (cc)
  after_lines-IsAnswer (none, a) e = end_of-IsAnswer a _ e

  -- Whatever the server sends: a stream that raises nothing yields texts and then one StreamEnd, whose
  -- completion has exactly these texts, joined.
  pub stream-IsAnswer :
      (x : Exchange)
      → (stream py loads provider model x).1 ≡ none
      → IsAnswer (stream py loads provider model x).0
  unfolding stream
  stream-IsAnswer (unreachable m) e = absurd (cc)
  stream-IsAnswer (refused r) e = absurd (cc)
  stream-IsAnswer (lines ls broken) e =
      after_lines-IsAnswer (read_lines ls broken (no_parts py loads provider model)) e
