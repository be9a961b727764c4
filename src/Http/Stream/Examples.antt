-- ===== src/Http/Stream/Examples.antt =====
-- Streams of two frames, whole and cut.
use control_deck.Prelude.{◌≡◌, refl, if◌then◌else◌, Option, none, some, [], ◌∷◌, ◌++◌}
use control_deck.Types.{Text}
use control_deck.Routing.Complexity.{codes, starts_with}
use control_deck.Http.Turn.{Chunk, Close}
use control_deck.Http.Stream.{
  Parsed, Response, line_feed, split_lines, trim, same_text, data_prefix, chunks_of, take_line,
  take_reads, empty_scan, stream_chat,
}
use control_deck.Http.Stream.Reads.{stream_chat-joined, take_reads-loses_cut}

abbrev frame : Text
frame = codes "{hola}"

-- One text that parses, to a frame of content.
abbrev parse_one : Text → Option Parsed
parse_one t =
    if same_text t frame
    then some (record {
      id = none;
      content = some (codes "hola");
      reasoning_content = none;
      tool_calls = none;
      finish_reason = none;
      usage_prompt_tokens = none;
      usage_completion_tokens = none;
    })
    else none

abbrev line_of : Text → Text
line_of t = data_prefix ++ (t ++ (line_feed ∷ []))

ended_by_marker :
    stream_chat parse_one (Response.body ((line_of frame ++ line_of (codes " [DONE]")) ∷ []) none)
    ≡ (Chunk.content (codes "hola") ∷ [], Close.done none none)
unfolding stream_chat take_line split_lines starts_with trim same_text chunks_of
ended_by_marker = refl

stream_chat-joined_example :
    stream_chat parse_one (Response.body (line_of frame ∷ line_of (codes "[DONE]") ∷ []) none)
    ≡ stream_chat parse_one
        (Response.body ((line_of frame ++ ([] ++ line_of (codes "[DONE]"))) ∷ []) none)
stream_chat-joined_example =
    stream_chat-joined parse_one (line_of frame ∷ []) (line_of (codes "[DONE]")) none
      ((data_prefix ++ frame, refl), tt)

take_reads-loses_cut_example :
    (take_reads parse_one
        (codes "data:{ho" ∷ (codes "la}" ++ (line_feed ∷ [])) ∷ [])
        (empty_scan parse_one)
      ≡ empty_scan parse_one)
    × (take_reads parse_one
          ((data_prefix ++ (codes "{ho" ++ (codes "la}" ++ (line_feed ∷ [])))) ∷ [])
          (empty_scan parse_one)
        ≡ take_line parse_one (codes "data:{hola}") (empty_scan parse_one))
unfolding same_text trim starts_with
take_reads-loses_cut_example =
    take_reads-loses_cut parse_one (codes "{ho") (codes "la}") [] (empty_scan parse_one)
      (refl, (refl, (refl, tt))) (refl, (refl, (refl, tt))) refl refl refl
