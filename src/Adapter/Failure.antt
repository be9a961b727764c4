-- ===== src/Adapter/Failure.antt =====
-- server/src/adapters/llama-swap.ts: BackendError, an error response of a model server.
use control_deck.Prelude.{ℕ, Bool, ◌&&◌, ◌||◌, leb, ltb, map}
use control_deck.Types.{Text}
use control_deck.Routing.Complexity.{codes, includes_text, lower_case}

-- `message` is what the constructor makes of the body.
pub record BackendError : Type 0 where
  pub status : ℕ
  pub body : Text
  pub message : Text

unfoldable pub is_caller_error : BackendError → Bool
is_caller_error e = leb 400 e.status && ltb e.status 500

abbrev says : Text → Text → Bool
says body phrase = includes_text body phrase

unfoldable pub is_context_overflow : BackendError → Bool
unfolding includes_text lower_case
is_context_overflow e =
    let body = map lower_case e.body in
    says body (codes "exceed_context_size_error")
    || (says body (codes "context_length_exceeded")
        || (says body (codes "maximum context length")
            || (says body (codes "context window")
                || (says body (codes "context") || says body (codes "n_ctx"))
                  && (says body (codes "exceed")
                      || (says body (codes "too long")
                          || (says body (codes "larger than")
                              || says body (codes "reduce the length")))))))
