-- ===== src/Llm/OpenAi.antt =====
-- `OpenAIProvider`: apps/api/src/llm/openai_provider.py, with the exchange over HTTP as it went. A time is
-- in milliseconds.
pub mod Assembly
pub mod Whole
mod Tests
use saas_genai_starter.Common.{
  ℕ, ◌+◌, ◌-◌, Bool, true, false, ◌&&◌, not, Option, none, some, List, [], ◌∷◌, ◌++◌, map, String,
  ◌+s◌, str_eq, get, leb, ◌==◌, if◌then◌else◌, or_else,
}
use saas_genai_starter.Core.Order.{order_by}
use saas_genai_starter.Llm.Errors.{
  LlmError, rate_limited, provider_unavailable, context_too_long, provider_bad_request,
}
use saas_genai_starter.Llm.Types.{
  Usage, no_usage, ToolCall, Completion, StreamEvent, text_delta, stream_end, Role, user, assistant,
  Block, text_block, tool_use, tool_result, Content, plain, blocks, Message, Failure, llm_error,
  exception, Tried, value, raises,
}

-- `_FINISH_REASONS`
abbrev pub finish_reasons : List (String × String)
finish_reasons =
    ("stop", "end_turn")
    ∷ ("tool_calls", "tool_use")
    ∷ ("length", "max_tokens")
    ∷ ("content_filter", "refusal")
    ∷ []

-- an answer that is an error: its status, its body, and its header `retry-after`
pub record Refusal : Type 0 where
  pub status : ℕ
  pub body : String
  pub retry_after : Option String

-- The Python functions on texts: `float` in milliseconds, `in`, the first 500 characters, and `str` of a
-- number.
pub record Texts : Type 0 where
  pub parse_float : String → Option ℕ
  pub contains : String → String → Bool
  pub head_500 : String → String
  pub show : ℕ → String

abbrev pub throttled : Texts → Option String → Failure
throttled py none = llm_error (rate_limited "Provider rate limit hit" none)
throttled py (some text) =
    if str_eq text ""
    then llm_error (rate_limited "Provider rate limit hit" none)
    else elim (py.parse_float text) [
      | none ↦ exception "ValueError"
      | some t ↦ llm_error (rate_limited "Provider rate limit hit" (some t))
    ]

unfoldable pub map_status : Texts → String → Refusal → Failure
map_status py provider r =
    if r.status == 429
    then throttled py r.retry_after
    else if leb 500 r.status
    then llm_error (provider_unavailable (provider +s " returned " +s py.show r.status))
    else if if py.contains "context_length" r.body
        then true
        else py.contains "maximum context length" r.body
    then llm_error (context_too_long (py.head_500 r.body))
    else llm_error (
        provider_bad_request
          (provider +s " returned " +s py.show r.status +s ": " +s py.head_500 r.body))

-- the numbers of a usage object, 0 where a key is missing
pub record RawUsage : Type 0 where
  pub prompt_tokens : ℕ
  pub completion_tokens : ℕ
  pub cached_tokens : ℕ

-- The documented count of cached tokens is a part of the prompt's.
unfoldable pub map_usage : RawUsage → Usage
map_usage u = record {
  input_tokens = u.prompt_tokens - u.cached_tokens;
  output_tokens = u.completion_tokens;
  cache_read_tokens = u.cached_tokens;
  cache_write_tokens = 0;
}

-- a message of the OpenAI format: its calls have an id, a name and their arguments
pub data Entry : Type 0 where
  said : String → String → Entry
  assistant_entry : Option String → List (String × (String × String)) → Entry
  tool_entry : String → String → Entry

abbrev pub role_name : Role → String
role_name user = "user"
role_name assistant = "assistant"

abbrev pub joined : List String → String
joined [] = ""
joined (t ∷ ts) = t +s joined ts

abbrev pub texts_of : List Block → List String
texts_of [] = []
texts_of (text_block t ∷ bs) = t ∷ texts_of bs
texts_of (tool_use i n a ∷ bs) = texts_of bs
texts_of (tool_result i c ∷ bs) = texts_of bs

-- `dumps` stands for `json.dumps` of the arguments
module _ (dumps : List (String × String) → String) where
  abbrev pub calls_of : List Block → List (String × (String × String))
  calls_of [] = []
  calls_of (tool_use i n a ∷ bs) = (i, (n, dumps a)) ∷ calls_of bs
  calls_of (text_block t ∷ bs) = calls_of bs
  calls_of (tool_result i c ∷ bs) = calls_of bs

  abbrev pub results_of : List Block → List Entry
  results_of [] = []
  results_of (tool_result i c ∷ bs) = tool_entry i c ∷ results_of bs
  results_of (text_block t ∷ bs) = results_of bs
  results_of (tool_use i n a ∷ bs) = results_of bs

  abbrev pub text_or_none : String → Option String
  text_or_none t = if str_eq t "" then none else some t

  abbrev pub translate_blocks : Role → List Block → List Entry
  translate_blocks assistant bs =
      assistant_entry (text_or_none (joined (texts_of bs))) (calls_of bs) ∷ []
  translate_blocks user bs = results_of bs

  abbrev pub translate_content : Role → Content → List Entry
  translate_content role (plain t) = said (role_name role) t ∷ []
  translate_content role (blocks bs) = translate_blocks role bs

  unfoldable pub translate_all : List Message → List Entry
  translate_all [] = []
  translate_all (m ∷ ms) = translate_content m.role m.content ++ translate_all ms

  unfoldable pub translate_messages : List Message → String → List Entry
  unfolding translate_all
  translate_messages messages system =
      (if str_eq system "" then [] else said "system" system ∷ []) ++ translate_all messages

-- A fragment of a call; a text that is missing is empty.
pub record CallDelta : Type 0 where
  pub index : ℕ
  pub id : String
  pub name : String
  pub arguments : String

-- the first choice of a chunk
pub record Choice : Type 0 where
  pub content : String
  pub tool_calls : List CallDelta
  pub finish_reason : String

-- A line of the stream: one that is no data, the last one, one that is no JSON, or a chunk.
pub data Line : Type 0 where
  other_line done_line malformed_line : Line
  chunk_line : Option RawUsage → Option Choice → Line

pub record Slot : Type 0 where
  pub id : String
  pub name : String
  pub arguments : String

abbrev pub Slots : Type 0
Slots = List (ℕ × Slot)

-- the local variables of `stream`
pub record Accumulator : Type 0 where
  pub text_parts : List String
  pub slots : Slots
  pub finish_reason : String
  pub usage : Usage

abbrev pub empty_slot : Slot
empty_slot = record { id = ""; name = ""; arguments = "" }

abbrev pub filled : CallDelta → Slot → Slot
filled c s = record {
  id = if str_eq c.id "" then s.id else c.id;
  name = s.name +s c.name;
  arguments = s.arguments +s c.arguments;
}

-- `setdefault`, and the assignments to the slot
unfoldable pub take_call : CallDelta → Slots → Slots
take_call c [] = (c.index, filled c empty_slot) ∷ []
take_call c ((i, s) ∷ slots) =
    let rest = take_call c slots in if i == c.index then (i, filled c s) ∷ slots else (i, s) ∷ rest

unfoldable pub take_calls : List CallDelta → Slots → Slots
unfolding take_call
take_calls [] slots = slots
take_calls (c ∷ cs) slots = take_calls cs (take_call c slots)

abbrev pub usage_after : Option RawUsage → Accumulator → Accumulator
usage_after none a = a
usage_after (some u) a = record a { usage = map_usage u }

abbrev pub text_after : String → List String → List String
text_after t parts = if str_eq t "" then parts else parts ++ t ∷ []

abbrev pub choice_after : Option Choice → Accumulator → Accumulator
choice_after none a = a
choice_after (some c) a = record a {
  text_parts = text_after c.content a.text_parts;
  slots = take_calls c.tool_calls a.slots;
  finish_reason = if str_eq c.finish_reason "" then a.finish_reason else c.finish_reason;
}

-- Every text that is yielded is also one of `text_parts`, in the same order. `broken` is an HTTPError
-- that ends the lines.
unfoldable pub read_lines : List Line → Option String → Accumulator → Option Failure × Accumulator
unfolding take_calls map_usage
read_lines [] none a = (none, a)
read_lines [] (some m) a = (some (llm_error (provider_unavailable m)), a)
read_lines (other_line ∷ ls) broken a = read_lines ls broken a
read_lines (done_line ∷ ls) broken a = (none, a)
read_lines (malformed_line ∷ ls) broken a = (some (exception "JSONDecodeError"), a)
read_lines (chunk_line u c ∷ ls) broken a = read_lines ls broken (choice_after c (usage_after u a))

-- How the exchange goes: no answer, an error, or lines, which an HTTPError may end.
pub data Exchange : Type 0 where
  unreachable : String → Exchange
  refused : Refusal → Exchange
  lines : List Line → Option String → Exchange

-- `loads` stands for `json.loads` of the arguments of a call.
module _ (py : Texts) (loads : String → Option (List (String × String)))
    (provider model : String) where
  abbrev pub parsed_call : Slot → Option (List (String × String)) → Option ToolCall
  parsed_call s none = none
  parsed_call s (some a) = some (record { id = s.id; name = s.name; arguments = a })

  unfoldable pub parse_calls : Slots → Option (List ToolCall)
  parse_calls [] = some []
  parse_calls ((i, s) ∷ slots) =
      elim (parsed_call s (loads (if str_eq s.arguments "" then "{}" else s.arguments))) [
        | none ↦ none
        | some c ↦ elim (parse_calls slots) [ none ↦ none | some cs ↦ some (c ∷ cs) ]
      ]

  -- the events, and the exception that ends them
  unfoldable pub end_of : Accumulator → Option (List ToolCall) → List StreamEvent × Option Failure
  end_of a none = (map text_delta a.text_parts, some (exception "JSONDecodeError"))
  end_of a (some calls) = (
    map text_delta a.text_parts
        ++ stream_end (record {
          text = joined a.text_parts;
          stop_reason = or_else (get a.finish_reason finish_reasons) "end_turn";
          usage = a.usage;
          model = model;
          tool_calls = calls;
        })
          ∷ [],
    none,
  )

  unfoldable pub after_lines : Option Failure × Accumulator → List StreamEvent × Option Failure
  unfolding end_of parse_calls
  after_lines (some f, a) = (map text_delta a.text_parts, some f)
  after_lines (none, a) = end_of a (parse_calls (order_by (λ s. s.0) a.slots))

  abbrev pub no_parts : Accumulator
  no_parts = record { text_parts = []; slots = []; finish_reason = ""; usage = no_usage }

  unfoldable pub stream : Exchange → List StreamEvent × Option Failure
  unfolding after_lines read_lines map_status
  stream (unreachable m) = ([], some (llm_error (provider_unavailable m)))
  stream (refused r) = ([], some (map_status py provider r))
  stream (lines ls broken) = after_lines (read_lines ls broken no_parts)
