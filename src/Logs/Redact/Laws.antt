-- ===== src/Logs/Redact/Laws.antt =====
-- Which lines are masked, told from the lines before them.
use control_deck.Prelude.{
  Bool, true, false, ◌≡◌, refl, List, [], ◌∷◌, ◌++◌, Bool-cases, inl, inr, arith,
}
use control_deck.Types.{Text}
use control_deck.Routing.Complexity.{codes}
use control_deck.Http.Stream.{trim}
use control_deck.Logs.Redact.{
  starts_content_block, looks_like_log_line, has_content_marker, redacted, redact, inside_after,
  masked,
}

-- A line has announced content, and no log line has come since; the latest line is first.
pub data IsWithinContent : List Text → Type 0 where
  announced :
      (m : Text) (earlier : List Text)
      → starts_content_block m ≡ true
      → IsWithinContent (m ∷ earlier)
  goes_on :
      (m : Text) (earlier : List Text)
      → looks_like_log_line m ≡ false
      → IsWithinContent earlier
      → IsWithinContent (m ∷ earlier)

masked-inside :
    (b : Bool) (m : Text) → (masked b m).0 ≡ true → (b ≡ true) × (looks_like_log_line m ≡ false)
masked-inside true m e = (refl, ground arith)
masked-inside false m e = cc

inside_after_sound : (lines : List Text) → inside_after true lines ≡ true → IsWithinContent lines
unfolding inside_after redact
inside_after_sound [] e = cc
inside_after_sound (m ∷ earlier) e = elim (Bool-cases (starts_content_block m)) [
  | inl h ↦ IsWithinContent.announced m earlier h
  | inr h ↦
      let (before, no_log) =
        masked-inside (inside_after true earlier) m (rw (inside_after, h) at e) in
      IsWithinContent.goes_on m earlier no_log (inside_after_sound earlier before)
]

inside_after_complete : (lines : List Text) → IsWithinContent lines → inside_after true lines ≡ true
unfolding inside_after redact
inside_after_complete lines (IsWithinContent.announced m earlier h) = rw (inside_after, h) refl
inside_after_complete lines (IsWithinContent.goes_on m earlier no_log w) =
    elim (Bool-cases (starts_content_block m)) [
      | inl h ↦ rw (inside_after, h) refl
      | inr h ↦ rw (inside_after, h, inside_after_complete earlier w, no_log) refl
    ]

redact-plain :
    (earlier : List Text) (m : Text)
    → starts_content_block m ≡ false
    → let shown = (redact true (inside_after true earlier) m).1 in
      (IsWithinContent earlier → looks_like_log_line m ≡ false → shown ≡ redacted)
      × (has_content_marker m ≡ true → shown ≡ redacted)
      × (has_content_marker m ≡ false → looks_like_log_line m ≡ true → shown ≡ m)
      × (has_content_marker m ≡ false → ¬ IsWithinContent earlier → shown ≡ m)
unfolding redact
redact-plain earlier m plain = (
  λ w no_log. rw (plain, inside_after_complete earlier w, no_log) refl,
  λ marked. rw plain (elim (Bool-cases (inside_after true earlier)) [
    | inl e ↦ rw e (elim (Bool-cases (looks_like_log_line m)) [
      | inl l ↦ rw (l, marked) refl
      | inr l ↦ rw l refl
    ])
    | inr e ↦ rw (e, marked) refl
  ]),
  λ unmarked log. rw plain (elim (Bool-cases (inside_after true earlier)) [
    | inl e ↦ rw (e, log, unmarked) refl
    | inr e ↦ rw (e, unmarked) refl
  ]),
  λ unmarked outside. rw plain (elim (Bool-cases (inside_after true earlier)) [
    | inl e ↦ absurd (outside (inside_after_sound earlier e))
    | inr e ↦ rw (e, unmarked) refl
  ]),
)

-- With the masking on, a line that announces content is shown, trimmed, with the mask behind it. A line
-- that announces none is masked if content was announced and the line is no log line, and if it
-- carries a marker of content; otherwise it is shown untouched. `earlier` are the lines of the stream
-- before it.
pub redact-masks :
    (earlier : List Text) (m : Text)
    → let shown = (redact true (inside_after true earlier) m).1 in
      (starts_content_block m ≡ true → shown ≡ trim m ++ (codes " " ++ redacted))
      × (starts_content_block m ≡ false
          → (IsWithinContent earlier → looks_like_log_line m ≡ false → shown ≡ redacted)
            × (has_content_marker m ≡ true → shown ≡ redacted)
            × (has_content_marker m ≡ false → looks_like_log_line m ≡ true → shown ≡ m)
            × (has_content_marker m ≡ false → ¬ IsWithinContent earlier → shown ≡ m))
unfolding redact
redact-masks earlier m = (λ opens. rw opens refl, redact-plain earlier m)
