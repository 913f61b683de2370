-- ===== src/Llm/OpenAi/Tests.antt =====
-- A streamed answer with two tool calls whose fragments are mixed.
use saas_genai_starter.Common.{
  ◌≡◌, refl, false, Option, none, some, List, [], ◌∷◌, String, str_eq, if◌then◌else◌,
}
use saas_genai_starter.Llm.Types.{exception}
use saas_genai_starter.Llm.OpenAi.{
  Texts, CallDelta, done_line, other_line, chunk_line, Exchange, lines, take_calls, read_lines,
  parse_calls, map_status, stream,
}
use saas_genai_starter.Llm.OpenAi.Assembly.{
  arguments_at, take_calls-fragments, IsAnswer, stream-IsAnswer,
}

abbrev fragments : List CallDelta
fragments =
    (record { index = 0; id = "a"; name = "search_documents"; arguments = "{" })
    ∷ (record { index = 1; id = "b"; name = "get_workspace_stats"; arguments = "" })
    ∷ (record { index = 0; id = ""; name = ""; arguments = "}" })
    ∷ []

take_calls-fragments_example : arguments_at 0 (take_calls fragments []) ≡ "{}"
take_calls-fragments_example = take_calls-fragments 0 fragments []

abbrev python : Texts
python = record {
  parse_float = λ t. if str_eq t "1.5" then some 1500 else none;
  contains = λ part whole. false;
  head_500 = λ t. t;
  show = λ n. "429";
}

abbrev no_arguments : String → Option (List (String × String))
no_arguments t = some []

abbrev answer : Exchange
answer =
    lines
      (chunk_line none
          (some (record { content = "Let me see"; tool_calls = fragments; finish_reason = "" }))
        ∷ other_line
        ∷ chunk_line none
            (some (record { content = "."; tool_calls = []; finish_reason = "tool_calls" }))
        ∷ done_line
        ∷ [])
      none

assembled : IsAnswer (stream python no_arguments "OpenAI" "gpt-5.1" answer).0
unfolding stream read_lines take_calls parse_calls
assembled = stream-IsAnswer python no_arguments "OpenAI" "gpt-5.1" answer refl

-- a refusal whose header is a date
dated :
    map_status python "OpenAI"
      (record { status = 429; body = ""; retry_after = some "Wed, 21 Oct 2026 07:28:00 GMT" })
    ≡ exception "ValueError"
unfolding map_status
dated = refl
