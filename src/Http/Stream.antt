-- ===== src/Http/Stream.antt =====
-- server/src/adapters/llama-swap.ts: HttpLlamaSwapClient.streamChat, from the response of a model
-- server to the chunks of a turn and its end.
--
-- A read of the body is the text that the decoder makes of it alone. `parse` is JSON.parse with the
-- fields that the code looks at; it is `none` where it throws or finds no object.
pub mod Reads
mod Examples
use control_deck.Prelude.{
  ℕ, Bool, true, false, not, ◌&&◌, if◌then◌else◌, is_empty, is_some, eqb, or_else, Option, none,
  some, List, [], ◌∷◌, ◌++◌,
}
use control_deck.Types.{Text}
use control_deck.Routing.Complexity.{codes, starts_with, is_space}
use control_deck.Adapter.Failure.{BackendError}
use control_deck.Http.Failure.{Thrown, backend}
use control_deck.Http.ToolCalls.{ToolCallDelta}
use control_deck.Http.Deadline.{UpstreamUsage}
use control_deck.Http.Turn.{Chunk, Close}

-- A frame of the model server, as far as it is read; `none` is a field that is missing or of another
-- type.
pub record Parsed : Type 0 where
  pub id : Option Text
  pub content : Option Text
  pub reasoning_content : Option Text
  pub tool_calls : Option (List ToolCallDelta)
  pub finish_reason : Option Text
  pub usage_prompt_tokens : Option ℕ
  pub usage_completion_tokens : Option ℕ

pub data Response : Type 0 where
  refused : BackendError → Response
  no_body : Response
  -- The reads of the body, and what is thrown after them, if anything is.
  body : (reads : List Text) (broken : Option Thrown) → Response

-- The state of the loop over the lines; `finished` once the end marker has been read.
pub record Scan : Type 0 where
  pub chunks : List Chunk
  pub finish_reason : Option Text
  pub usage : Option UpstreamUsage
  pub finished : Bool

-- `text.split("\n")`: the first line, and the lines after it.
abbrev pub onto_first : ℕ → List Text → List Text
onto_first c [] = (c ∷ []) ∷ []
onto_first c (l ∷ ls) = (c ∷ l) ∷ ls

abbrev pub line_feed : ℕ
line_feed = 10

unfoldable pub split_lines : Text → List Text
split_lines [] = [] ∷ []
split_lines (c ∷ s) =
    let rest = split_lines s in if eqb c line_feed then [] ∷ rest else onto_first c rest

abbrev pub trim_start : Text → Text
trim_start [] = []
trim_start (c ∷ s) = if is_space c then trim_start s else c ∷ s

abbrev pub trim_end : Text → Text
trim_end [] = []
trim_end (c ∷ s) = let rest = trim_end s in if is_empty rest && is_space c then [] else c ∷ rest

unfoldable pub trim : Text → Text
unfolding is_space
trim s = trim_end (trim_start s)

unfoldable pub same_text : Text → Text → Bool
same_text [] [] = true
same_text [] (d ∷ t) = false
same_text (c ∷ s) [] = false
same_text (c ∷ s) (d ∷ t) = eqb c d && same_text s t

abbrev pub data_prefix : Text
data_prefix = codes "data:"

-- `line.slice(5)`, on a line that starts with `data:`.
abbrev pub after_prefix : Text → Text
after_prefix (_ ∷ _ ∷ _ ∷ _ ∷ _ ∷ s) = s
after_prefix _ = []

abbrev is_set : Option Text → Bool
is_set none = false
is_set (some t) = not (is_empty t)

abbrev calls_of : Option (List ToolCallDelta) → List Chunk
calls_of none = []
calls_of (some calls) = Chunk.tool_calls calls ∷ []

-- The answer of a frame, or its reasoning if it carries neither an answer nor tool calls.
abbrev words_of : Parsed → List Chunk
words_of p =
    if is_set p.content
    then Chunk.content (or_else p.content []) ∷ []
    else if is_set p.reasoning_content && not (is_some p.tool_calls)
    then Chunk.reasoning (or_else p.reasoning_content []) ∷ []
    else []

-- A frame of nothing but reasoning that names no model is the proxy's own progress banner.
abbrev pub is_banner : Parsed → Bool
is_banner p = is_set p.reasoning_content && (not (is_set p.content) && not (is_set p.id))

unfoldable pub chunks_of : Parsed → List Chunk
chunks_of p = if is_banner p then [] else calls_of p.tool_calls ++ words_of p

abbrev usage_after : Option UpstreamUsage → Parsed → Option UpstreamUsage
usage_after before p = elim p.usage_prompt_tokens [
  | none ↦ before
  | some n ↦
      some (record { prompt_tokens = n; completion_tokens = or_else p.usage_completion_tokens 0 })
]

abbrev later : Option Text → Option Text → Option Text
later none before = before
later (some r) before = some r

abbrev pub take_frame : Option Parsed → Scan → Scan
take_frame none s = s
take_frame (some p) s = record s {
  chunks = s.chunks ++ chunks_of p;
  finish_reason = later p.finish_reason s.finish_reason;
  usage = usage_after s.usage p;
}

module _ (parse : Text → Option Parsed) where
  abbrev pub take_data : Text → Scan → Scan
  take_data data_text s =
      if same_text data_text (codes "[DONE]")
      then record s { finished = true }
      else take_frame (parse data_text) s

  -- After the end marker nothing more is read.
  unfoldable pub take_line : Text → Scan → Scan
  unfolding starts_with trim same_text chunks_of
  take_line line s =
      if s.finished
      then s
      else if starts_with line data_prefix
      then take_data (trim (after_prefix line)) s
      else s

  abbrev pub take_lines : List Text → Scan → Scan
  take_lines [] s = s
  take_lines (l ∷ ls) s = take_lines ls (take_line l s)

  -- Each read is split into lines by itself.
  abbrev pub take_reads : List Text → Scan → Scan
  take_reads [] s = s
  take_reads (r ∷ rs) s = take_reads rs (take_lines (split_lines r) s)

  abbrev pub empty_scan : Scan
  empty_scan = record { chunks = []; finish_reason = none; usage = none; finished = false }

  abbrev pub end_of : Bool → Option Thrown → Scan → Close
  end_of false (some thrown) s = Close.threw thrown
  end_of finished broken s = Close.done s.finish_reason s.usage

  unfoldable pub stream_chat : Response → List Chunk × Close
  unfolding take_line split_lines
  stream_chat (Response.refused e) = ([], Close.threw (backend e))
  stream_chat Response.no_body = ([], Close.done none none)
  stream_chat (Response.body reads broken) =
      let s = take_reads reads empty_scan in (s.chunks, end_of s.finished broken s)
