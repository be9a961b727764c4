-- ===== src/Routing/Complexity/Markers.antt =====
-- What the substring search for reasoning markers finds.
use control_deck.Prelude.{
  true, ◌≡◌, refl, sym, ap, ◌∙◌, ◌↔◌, inl, inr, [], ◌∷◌, ◌++◌, Mem, Bool-cases, any_sound,
  any_of_mem, subst, map, arith,
}
use control_deck.Types.{Text, ChatCompletionRequest}
use control_deck.Routing.Complexity.Scan.{starts_with, includes_text, lower_case}
use control_deck.Routing.Complexity.{
  complex_reasoning_markers, flatten_messages, compute_complexity_signals,
}

-- `t` is a stretch of `s`.
abbrev pub Occurs : Text → Text → Type 0
Occurs t s = (before : Text) × (after : Text) × (s ≡ before ++ (t ++ after))

starts_with_sound : (s t : Text) → starts_with s t ≡ true → (after : Text) × (s ≡ t ++ after)
unfolding starts_with
starts_with_sound s [] e = (s, refl)
starts_with_sound [] (c ∷ t) e = cc
starts_with_sound (d ∷ s) (c ∷ t) e =
    let (after, same) = starts_with_sound s t (ground arith) in
    let head : d ≡ c = ground arith in
    (after, ap (λ r. d ∷ r) same ∙ ap (λ r. r ∷ (t ++ after)) head)

starts_with-append : (t after : Text) → starts_with (t ++ after) t ≡ true
unfolding starts_with
starts_with-append [] after = refl
starts_with-append (c ∷ t) after = ground (arith, starts_with-append t after)

includes_text_sound : (s t : Text) → includes_text s t ≡ true → Occurs t s
unfolding includes_text
includes_text_sound [] t e = let (after, same) = starts_with_sound [] t e in ([], after, same)
includes_text_sound (c ∷ s) t e = elim (Bool-cases (starts_with (c ∷ s) t)) [
  | inl h ↦ let (after, same) = starts_with_sound (c ∷ s) t h in ([], after, same)
  | inr h ↦
      let (before, after, same) = includes_text_sound s t (ground arith) in
      (c ∷ before, after, ap (λ r. c ∷ r) same)
]

includes_text_of_starts : (s t : Text) → starts_with s t ≡ true → includes_text s t ≡ true
unfolding includes_text
includes_text_of_starts [] t e = e
includes_text_of_starts (c ∷ s) t e = rw e refl

includes_text-here : (t after : Text) → includes_text (t ++ after) t ≡ true
includes_text-here t after = includes_text_of_starts (t ++ after) t (starts_with-append t after)

includes_text_of : (before t after : Text) → includes_text (before ++ (t ++ after)) t ≡ true
unfolding includes_text
includes_text_of [] t after = includes_text-here t after
includes_text_of (c ∷ before) t after = ground (arith, includes_text_of before t after)

-- The marker signal is set exactly when a marker occurs in the lower-cased text of the messages.
has_complex_reasoning_marker_iff :
    (request : ChatCompletionRequest)
    → ((compute_complexity_signals request).has_complex_reasoning_marker ≡ true) ↔ (
        (marker : Text) × Mem marker complex_reasoning_markers
        × Occurs marker (map lower_case (flatten_messages request.messages)))
unfolding compute_complexity_signals
has_complex_reasoning_marker_iff request =
    let lower = map lower_case (flatten_messages request.messages) in
    (
      λ e.
          let (marker, listed, found) =
            any_sound (includes_text lower) complex_reasoning_markers e in
          (marker, listed, includes_text_sound lower marker found),
      λ h.
          let (marker, listed, (before, after, same)) = h in
          any_of_mem (includes_text lower) complex_reasoning_markers marker listed (
            subst (λ s. includes_text s marker ≡ true) (sym same)
              (includes_text_of before marker after)),
    )
