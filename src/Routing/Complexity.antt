-- ===== src/Routing/Complexity.antt =====
-- server/src/routing/complexity.ts: the signals that a request wants the large model.
mod Scan
pub mod Markers
pub mod Fences
use control_deck.Prelude.{
  ℕ, Bool, true, false, ◌||◌, List, [], ◌∷◌, ◌++◌, map, any, length, leb, or_else, Option,
}
use control_deck.Types.{Text, Part, Content, ChatMessage, ChatCompletionRequest}
use control_deck.Routing.Capabilities.{has_tools}
unfoldable pub use Scan.*

abbrev pub long_prompt_char_threshold : ℕ
long_prompt_char_threshold = 4000

abbrev pub large_code_block_char_threshold : ℕ
large_code_block_char_threshold = 800

abbrev pub complex_reasoning_markers : List Text
complex_reasoning_markers =
    codes "step by step"
    ∷ codes "step-by-step"
    ∷ codes "prove"
    ∷ codes "analyze in depth"
    ∷ codes "in-depth analysis"
    ∷ codes "think through"
    ∷ codes "reason through"
    ∷ codes "chain of thought"
    ∷ []

pub record ComplexitySignals : Type 0 where
  pub total_prompt_length : ℕ
  pub has_complex_reasoning_marker : Bool
  pub has_large_code_block : Bool
  pub has_multi_part_question : Bool
  pub tools_requested : Bool

abbrev part_text : Part → Text
part_text part = or_else part.text []

-- The text of one message: its string, or the texts of its parts joined by spaces.
abbrev pub message_text : Content → Text
message_text (Content.string s) = s
message_text (Content.parts ps) = join (codes " ") (map part_text ps)
message_text Content.null = []

unfoldable pub flatten_messages : List ChatMessage → Text
flatten_messages messages =
    join (codes "\n") (map (λ (m : ChatMessage). message_text m.content) messages)

unfoldable pub has_large_fenced_code_block : Text → Bool
unfolding fenced_blocks
has_large_fenced_code_block text = any (leb large_code_block_char_threshold) (fenced_blocks text)

unfoldable pub has_multi_part_question : Text → Bool
unfolding numbered_items
has_multi_part_question text = leb 2 (numbered_items text) || leb 3 (question_marks text)

unfoldable pub compute_complexity_signals : ChatCompletionRequest → ComplexitySignals
unfolding flatten_messages has_large_fenced_code_block has_multi_part_question
compute_complexity_signals request =
    let text = flatten_messages request.messages in
    let lower = map lower_case text in
    record {
      total_prompt_length = length text;
      has_complex_reasoning_marker = any (includes_text lower) complex_reasoning_markers;
      has_large_code_block = has_large_fenced_code_block text;
      has_multi_part_question = has_multi_part_question text;
      tools_requested = has_tools request.tools;
    }

unfoldable pub is_complex : ComplexitySignals → Bool
is_complex signals =
    leb long_prompt_char_threshold signals.total_prompt_length
    || (signals.has_complex_reasoning_marker
        || (signals.has_large_code_block || signals.has_multi_part_question))
