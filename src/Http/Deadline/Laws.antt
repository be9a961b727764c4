-- ===== src/Http/Deadline/Laws.antt =====
-- When a generation is cut off, and what for.
use control_deck.Prelude.{
  ℕ, ◌+◌, ◌<◌, Bool, true, false, ◌≡◌, ◌↔◌, refl, leb, some, List, [], ◌∷◌, Bool-cases, inl, inr,
  arith,
}
use control_deck.Http.Deadline.{Clock, Deadline, generation_deadline, generate}

-- Each token, and the close of the stream, comes before the time that the one before it allows; the
-- first comes before `by`.
abbrev pub IsPaced : ℕ → ℕ → ℕ → List ℕ → Type 0
IsPaced close stall_ms by [] = close < by
IsPaced close stall_ms by (t ∷ ts) = (t < by) × IsPaced close stall_ms (t + stall_ms) ts

abbrev waiting : Clock → ℕ → Deadline
waiting clock by = record { reason = clock; timer = some by; aborted = false }

generate-aborted_iff :
    (close stall_ms : ℕ) (clock : Clock) (by : ℕ) (ts : List ℕ)
    → ((generate close stall_ms (waiting clock by) ts).aborted ≡ false)
      ↔ IsPaced close stall_ms by ts
unfolding generate
generate-aborted_iff close stall_ms clock by [] = elim (Bool-cases (leb by close)) [
  | inl late ↦ rw late (λ h. absurd (ground arith), λ h. absurd (ground arith))
  | inr early ↦ rw early (λ _. ground arith, λ _. refl)
]
generate-aborted_iff close stall_ms clock by (t ∷ ts) = elim (Bool-cases (leb by t)) [
  | inl late ↦ rw late (λ h. absurd (ground arith), λ h. absurd (ground arith))
  | inr early ↦
      let ih = generate-aborted_iff close stall_ms Clock.stall (t + stall_ms) ts in
      rw early (λ h. (ground arith, ih.0 h), λ h. ih.1 h.1)
]

generate-stall :
    (close stall_ms : ℕ) (by : ℕ) (ts : List ℕ)
    → (generate close stall_ms (waiting Clock.stall by) ts).reason ≡ Clock.stall
unfolding generate
generate-stall close stall_ms by [] = elim (Bool-cases (leb by close)) [
  | inl late ↦ rw late refl
  | inr early ↦ rw early refl
]
generate-stall close stall_ms by (t ∷ ts) = elim (Bool-cases (leb by t)) [
  | inl late ↦ rw late refl
  | inr early ↦ rw early (generate-stall close stall_ms (t + stall_ms) ts)
]

abbrev pub none_in_time : ℕ → List ℕ → Bool
none_in_time by [] = true
none_in_time by (t ∷ ts) = leb by t

generate-reason_iff :
    (close stall_ms by : ℕ) (ts : List ℕ)
    → ((generate close stall_ms (waiting Clock.first_token by) ts).reason ≡ Clock.first_token)
      ↔ (none_in_time by ts ≡ true)
unfolding generate
generate-reason_iff close stall_ms by [] = elim (Bool-cases (leb by close)) [
  | inl late ↦ rw late (λ _. refl, λ _. refl)
  | inr early ↦ rw early (λ _. refl, λ _. refl)
]
generate-reason_iff close stall_ms by (t ∷ ts) = elim (Bool-cases (leb by t)) [
  | inl late ↦ rw late (λ _. refl, λ _. refl)
  | inr early ↦
      let on = generate-stall close stall_ms (t + stall_ms) ts in rw early rw on (λ h. cc, λ h. cc)
]

-- A generation is cut off exactly when a token, or the close, is late: the first one by its own
-- allowance, each other by the allowance for inactivity. The clock that the error names is that of the
-- first token exactly when no token had come in time.
pub generate-IsPaced :
    (close first_token_ms stall_ms now : ℕ) (ts : List ℕ)
    → let d = generate close stall_ms (generation_deadline first_token_ms now) ts in
      ((d.aborted ≡ false) ↔ IsPaced close stall_ms (now + first_token_ms) ts)
      × ((d.reason ≡ Clock.first_token) ↔ (none_in_time (now + first_token_ms) ts ≡ true))
unfolding generation_deadline
generate-IsPaced close first_token_ms stall_ms now ts = (
  generate-aborted_iff close stall_ms Clock.first_token (now + first_token_ms) ts,
  generate-reason_iff close stall_ms (now + first_token_ms) ts,
)
