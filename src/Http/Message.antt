-- ===== src/Http/Message.antt =====
-- server/src/http/routes/v1.ts: timeoutError, with the numbers that its message names.
use control_deck.Prelude.{ℕ, zero, suc, ◌+◌, ◌/◌, ◌%◌, ltb, if◌then◌else◌, or_else, [], ◌∷◌, ◌++◌}
use control_deck.Types.{Text, ErrorCode, ErrorType, StandardError, ModelConfig}
use control_deck.Routing.Complexity.{codes}
use control_deck.Scheduler.Settings.{Settings}
use control_deck.Http.Deadline.{Clock}

-- The decimal digits of `n`, before `rest`; a number has no more digits than its value plus one.
abbrev digits : ℕ → ℕ → Text → Text
digits zero n rest = rest
digits (suc fuel) n rest =
    let more = digits fuel (n / 10) ((48 + n % 10) ∷ rest) in
    if ltb n 10 then (48 + n) ∷ rest else more

unfoldable pub decimal : ℕ → Text
decimal n = digits (suc n) n []

-- Math.round(ms / 1000)
abbrev pub seconds : ℕ → ℕ
seconds ms = (ms + 500) / 1000

abbrev timed_out_with : Text → StandardError
timed_out_with message = record {
  kind = ErrorType.timeout_error;
  code = ErrorCode.stall_timeout;
  message = message;
}

unfoldable pub timeout_error : Settings → Clock → ModelConfig → StandardError
unfolding decimal
timeout_error settings Clock.first_token model = timed_out_with (
    codes "No first token within "
    ++ (decimal (seconds (or_else model.first_token_timeout_ms settings.first_token_timeout_ms))
        ++ (codes
              "s. For a large prompt this is usually prompt evaluation taking longer than the allowance — raise firstTokenTimeoutMs for \""
            ++ (codes model.id
                ++ codes "\". For a cold start it is the model still loading its weights."))))
timeout_error settings Clock.stall model = timed_out_with (
    codes "Generation stopped for more than "
    ++ (decimal (seconds settings.stall_timeout_ms)
        ++ codes "s. The replica stopped producing tokens mid-answer."))
