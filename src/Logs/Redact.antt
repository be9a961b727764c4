-- ===== src/Logs/Redact.antt =====
-- server/src/logs/redact.ts: the redactor of one stream of log lines. Its regular expressions are
-- scans over UTF-16 code units.
pub mod Laws
mod Examples
use control_deck.Prelude.{
  ℕ, Bool, true, false, not, ◌&&◌, ◌||◌, if◌then◌else◌, is_empty, any, eqb, leb, Option, none, some,
  List, [], ◌∷◌, ◌++◌, map,
}
use control_deck.Types.{Text}
use control_deck.Routing.Complexity.{
  codes, starts_with, includes_text, lower_case, is_space, is_digit,
}
use control_deck.Http.Stream.{trim, trim_start, trim_end, same_text}

abbrev pub content_markers : List Text
content_markers =
    codes "<|im_start|>"
    ∷ codes "<|im_end|>"
    ∷ codes "<|start_header_id|>"
    ∷ codes "<|end_header_id|>"
    ∷ codes "<|eot_id|>"
    ∷ codes "<|endoftext|>"
    ∷ codes "<|user|>"
    ∷ codes "<|assistant|>"
    ∷ codes "[INST]"
    ∷ codes "[/INST]"
    ∷ codes "<tool_call>"
    ∷ codes "</tool_call>"
    ∷ []

unfoldable pub has_content_marker : Text → Bool
unfolding includes_text
has_content_marker text = any (includes_text text) content_markers

abbrev block_words : List Text
block_words =
    codes "prompt"
    ∷ codes "formatted prompt"
    ∷ codes "full prompt"
    ∷ codes "completion"
    ∷ codes "generated"
    ∷ []

-- The text before a colon that ends it.
abbrev before_colon : Text → Option Text
before_colon [] = none
before_colon (c ∷ []) = if eqb c b':' then some [] else none
before_colon (c ∷ d ∷ s) = elim (before_colon (d ∷ s)) [ none ↦ none | some t ↦ some (c ∷ t) ]

abbrev is_block_word : Option Text → Bool
is_block_word none = false
is_block_word (some t) = any (same_text (map lower_case (trim_end t))) block_words

-- CONTENT_BLOCK_START
unfoldable pub starts_content_block : Text → Bool
unfolding trim is_space lower_case same_text
starts_content_block text = is_block_word (before_colon (trim text))

-- `\w`
abbrev pub is_word_char : ℕ → Bool
is_word_char c =
    is_digit c || (leb b'a' c && leb c b'z' || (leb b'A' c && leb c b'Z' || eqb c b'_'))

abbrev first_is : (ℕ → Bool) → Text → Bool
first_is p [] = false
first_is p (c ∷ s) = p c

abbrev skip_class : (ℕ → Bool) → Text → Text
skip_class p [] = []
skip_class p (c ∷ s) = if p c then skip_class p s else c ∷ s

-- The text after a prefix that it has.
abbrev rest_after : Text → Text → Option Text
rest_after [] s = some s
rest_after (c ∷ t) [] = none
rest_after (c ∷ t) (d ∷ s) = if eqb c d then rest_after t s else none

abbrev holds_of : (Text → Bool) → Option Text → Bool
holds_of p none = false
holds_of p (some s) = p s

-- At least one unit of a class, and then the rest, which the class does not reach into.
abbrev run_of : (ℕ → Bool) → (Text → Bool) → Text → Bool
run_of class rest s = first_is class s && rest (skip_class class s)

abbrev levels : List Text
levels =
    codes "info"
    ∷ codes "warn"
    ∷ codes "warning"
    ∷ codes "error"
    ∷ codes "debug"
    ∷ codes "trace"
    ∷ []

-- The same, whatever the case of its letters.
abbrev after_any_case : Text → Text → Option Text
after_any_case [] s = some s
after_any_case (c ∷ t) [] = none
after_any_case (c ∷ t) (d ∷ s) = if eqb c (lower_case d) then after_any_case t s else none

abbrev at_boundary : Text → Bool
at_boundary s = not (first_is is_word_char s)

-- /^(INFO|WARN|WARNING|ERROR|DEBUG|TRACE)\b/i
abbrev names_level : Text → Bool
names_level s = any (λ level. holds_of at_boundary (after_any_case level s)) levels

-- /^\[\d+\]/
abbrev is_stamped : Text → Bool
is_stamped s = holds_of (run_of is_digit (first_is (λ c. eqb c b']'))) (rest_after (codes "[") s)

-- /^slot\s+\w+/
abbrev is_slot : Text → Bool
is_slot s = holds_of (run_of is_space (first_is is_word_char)) (rest_after (codes "slot") s)

-- /^\w+:\s+id\s+\d+/
abbrev names_id : Text → Bool
names_id s =
    run_of is_word_char
      (λ rest.
        holds_of
          (run_of is_space
            (λ r. holds_of (run_of is_space (first_is is_digit)) (rest_after (codes "id") r)))
          (rest_after (codes ":") rest))
      s

abbrev is_thread : Text → Bool
is_thread s =
    holds_of (run_of is_digit (first_is (λ c. eqb c b'"'))) (rest_after (codes "tid=\"") s)

-- /\btid="\d+"/, where `inside` says whether a word reaches up to here.
abbrev names_thread : (inside : Bool) → Text → Bool
names_thread inside [] = false
names_thread inside (c ∷ s) = not inside && is_thread (c ∷ s) || names_thread (is_word_char c) s

-- /^(llama_|ggml_|common_|srv\s)/
abbrev names_component : Text → Bool
names_component s =
    starts_with s (codes "llama_")
    || (starts_with s (codes "ggml_")
        || (starts_with s (codes "common_")
            || holds_of (first_is is_space) (rest_after (codes "srv") s)))

unfoldable pub looks_like_log_line : Text → Bool
unfolding starts_with lower_case is_space is_digit
looks_like_log_line s =
    names_level s
    || (is_stamped s || (is_slot s || (names_id s || (names_thread false s || names_component s))))

abbrev pub redacted : Text
redacted = codes "[content redacted — see the Audit view, where scoped logging applies]"

-- The line that is shown, where no block decides it.
abbrev pub by_markers : Text → Text
by_markers message = if has_content_marker message then redacted else message

abbrev in_block : Text → Bool × Text
in_block message =
    if looks_like_log_line message then (false, by_markers message) else (true, redacted)

abbrev pub masked : Bool → Text → Bool × Text
masked true message = in_block message
masked false message = (false, by_markers message)

-- One line: whether a block of content goes on after it, and what is shown of it. `inside` says
-- whether one went on before.
unfoldable pub redact : (enabled inside : Bool) → Text → Bool × Text
unfolding starts_content_block looks_like_log_line has_content_marker trim
redact enabled inside message =
    if not enabled
    then (inside, message)
    else if starts_content_block message
    then (true, trim message ++ (codes " " ++ redacted))
    else masked inside message

-- Whether a block goes on after these lines, the latest first.
unfoldable pub inside_after : Bool → List Text → Bool
unfolding redact
inside_after enabled [] = false
inside_after enabled (m ∷ earlier) = (redact enabled (inside_after enabled earlier) m).0
