-- ===== src/Http/Deadline.antt =====
-- server/src/http/routes/v1.ts: generationDeadline, the two clocks of a live generation, and the
-- usage that is reported when it ends.
pub mod Laws
use control_deck.Prelude.{
  ℕ, ◌+◌, Bool, true, false, if◌then◌else◌, leb, Option, none, some, List, [], ◌∷◌,
}

pub data Clock : Type 0 where
  first_token stall : Clock

-- `timer` is when the timer fires, if it is set; `aborted` is the state of the signal.
pub record Deadline : Type 0 where
  pub reason : Clock
  pub timer : Option ℕ
  pub aborted : Bool

abbrev pub arm : ℕ → ℕ → Deadline → Deadline
arm ms now d = record d { timer = some (now + ms) }

unfoldable pub generation_deadline : ℕ → ℕ → Deadline
generation_deadline first_token_ms now =
    arm first_token_ms now (record { reason = Clock.first_token; timer = none; aborted = false })

abbrev pub saw_token : ℕ → ℕ → Deadline → Deadline
saw_token stall_ms now d = arm stall_ms now (record d { reason = Clock.stall })

abbrev fire : Option ℕ → ℕ → Deadline → Deadline
fire none now d = d
fire (some at) now d = if leb at now then record d { timer = none; aborted = true } else d

-- The timer fires if its time has come.
abbrev pub pass_time : ℕ → Deadline → Deadline
pass_time now d = fire d.timer now d

-- A generation whose tokens arrive at the times given and whose stream closes at `close`; it stops
-- when the signal is aborted.
unfoldable pub generate : ℕ → ℕ → Deadline → List ℕ → Deadline
generate close stall_ms d [] = pass_time close d
generate close stall_ms d (t ∷ ts) =
    let next = pass_time t d in
    let rest = generate close stall_ms (saw_token stall_ms t next) ts in
    if next.aborted then next else rest

pub record UpstreamUsage : Type 0 where
  pub prompt_tokens : ℕ
  pub completion_tokens : ℕ

pub record Usage : Type 0 where
  pub prompt_tokens : ℕ
  pub completion_tokens : ℕ
  pub measured : Bool

abbrev pub resolve_usage : Option UpstreamUsage → ℕ → ℕ → Usage
resolve_usage (some u) estimated counted = record {
  prompt_tokens = u.prompt_tokens;
  completion_tokens = u.completion_tokens;
  measured = true;
}
resolve_usage none estimated counted = record {
  prompt_tokens = estimated;
  completion_tokens = counted;
  measured = false;
}
