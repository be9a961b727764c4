-- ===== src/Logs/Redact/Examples.antt =====
-- A dump of a prompt between lines of a log.
use control_deck.Prelude.{true, false, ◌≡◌, refl, List, [], ◌∷◌, ◌++◌}
use control_deck.Types.{Text}
use control_deck.Routing.Complexity.{codes, starts_with, lower_case, is_space, is_digit}
use control_deck.Http.Stream.{trim, same_text}
use control_deck.Logs.Redact.{
  starts_content_block, looks_like_log_line, has_content_marker, redacted, redact, inside_after,
}
use control_deck.Logs.Redact.Laws.{IsWithinContent, redact-masks}

log_shapes :
    (looks_like_log_line (codes "Warning: low memory") ≡ true)
    × (looks_like_log_line (codes "information") ≡ false)
    × (looks_like_log_line (codes "slot  launch") ≡ true)
    × (looks_like_log_line (codes "update: id 7") ≡ true)
    × (looks_like_log_line (codes "x tid=\"42\" y") ≡ true)
    × (looks_like_log_line (codes "xtid=\"42\"") ≡ false)
    × (starts_content_block (codes "  Full Prompt : ") ≡ true)
    × (starts_content_block (codes "prompt: hello") ≡ false)
unfolding looks_like_log_line starts_content_block starts_with lower_case is_space is_digit trim
    same_text
log_shapes = (refl, refl, refl, refl, refl, refl, refl, refl)

-- The latest line first.
abbrev dump : List Text
dump = codes "my secret" ∷ codes "prompt:" ∷ []

redact-masks_example :
    let shown = (redact true (inside_after true dump) (codes "and more")).1 in
    (starts_content_block (codes "and more") ≡ true
      → shown ≡ trim (codes "and more") ++ (codes " " ++ redacted))
    × (starts_content_block (codes "and more") ≡ false
        → (IsWithinContent dump → looks_like_log_line (codes "and more") ≡ false → shown ≡ redacted)
          × (has_content_marker (codes "and more") ≡ true → shown ≡ redacted)
          × (has_content_marker (codes "and more") ≡ false
              → looks_like_log_line (codes "and more") ≡ true
              → shown ≡ codes "and more")
          × (has_content_marker (codes "and more") ≡ false
              → ¬ IsWithinContent dump
              → shown ≡ codes "and more"))
redact-masks_example = redact-masks dump (codes "and more")
