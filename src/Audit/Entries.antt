-- ===== src/Audit/Entries.antt =====
-- server/src/audit/entries.ts: the list of requests that the dashboard shows.
pub mod Laws
use control_deck.Prelude.{
  lex, ℕ, suc, String, Bool, true, ◌&&◌, ◌==◌, if◌then◌else◌, leb, Option, none, some, or_else,
  List, [], ◌∷◌, map, any, filter, take, sort_by,
}
use control_deck.Prelude.Fraction.{Fraction}
use control_deck.Types.{RequestStatus, ErrorCode}
use control_deck.Database.{RequestRow, Db}
use control_deck.Audit.History.{content_is}

pub record GetAuditEntriesInput : Type 0 where
  pub caller : Option String
  pub model : Option String
  pub team : Option String
  pub status : Option String
  pub since : Option ℕ
  pub until : Option ℕ
  pub limit : Option ℕ
  pub offset : Option ℕ

pub record AuditEntry : Type 0 where
  pub id : String
  pub caller_oid : String
  pub caller_name : String
  pub team : Option String
  pub requested_model : Option String
  pub routed_model : Option String
  pub status : RequestStatus
  pub error_code : Option ErrorCode
  pub input_tokens : ℕ
  pub output_tokens : ℕ
  pub arrived_at : ℕ
  pub started_at : Option ℕ
  pub completed_at : Option ℕ
  pub duration_ms : Option ℕ
  pub cost_usd : Option Fraction
  pub logged : Bool

abbrev pub default_limit : ℕ
default_limit = 50

abbrev pub default_offset : ℕ
default_offset = 0

abbrev pub status_text : RequestStatus → String
status_text RequestStatus.queued = "queued"
status_text RequestStatus.routed = "routed"
status_text RequestStatus.streaming = "streaming"
status_text RequestStatus.completed = "completed"
status_text RequestStatus.queue_timeout = "queue_timeout"
status_text RequestStatus.stall_timeout = "stall_timeout"
status_text RequestStatus.replica_unavailable = "replica_unavailable"
status_text RequestStatus.capability_mismatch = "capability_mismatch"
status_text RequestStatus.auth_invalid = "auth_invalid"
status_text RequestStatus.error = "error"

-- `if (value) conditions.push(column = value)`; a comparison with NULL is not true.
abbrev pub wanted : Option String → Option String → Bool
wanted none column = true
wanted (some value) none = value == ""
wanted (some value) (some column) = if value == "" then true else column == value

abbrev pub from : Option ℕ → ℕ → Bool
from none at = true
from (some since) at = leb since at

abbrev pub up_to : Option ℕ → ℕ → Bool
up_to none at = true
up_to (some until) at = leb at until

-- The WHERE clause.
unfoldable pub matches : GetAuditEntriesInput → RequestRow → Bool
matches input r =
    wanted input.caller (some r.caller_oid)
    && (wanted input.model r.routed_model
        && (wanted input.team r.team
            && (wanted input.status (some (status_text r.status))
                && (from input.since r.arrived_at && up_to input.until r.arrived_at))))

abbrev pub entry_of : Db → RequestRow → AuditEntry
entry_of db r = record {
  id = r.id;
  caller_oid = r.caller_oid;
  caller_name = r.caller_name;
  team = r.team;
  requested_model = r.requested_model;
  routed_model = r.routed_model;
  status = r.status;
  error_code = r.error_code;
  input_tokens = r.input_tokens;
  output_tokens = r.output_tokens;
  arrived_at = r.arrived_at;
  started_at = r.started_at;
  completed_at = r.completed_at;
  duration_ms = r.duration_ms;
  cost_usd = r.cost_usd;
  logged = any (content_is r.id) db.audit_content;
}

abbrev pub newer : AuditEntry → AuditEntry → Bool
newer e x = leb x.arrived_at e.arrived_at

-- ORDER BY arrived_at DESC. In what order it puts the entries of one time is the database's choice,
-- `tie`, which may be another one in the next query.
unfoldable pub newest_first : (AuditEntry → AuditEntry → Bool) → List AuditEntry → List AuditEntry
unfolding sort_by
newest_first tie es = sort_by (lex newer tie) es

abbrev pub skip {ℓ} : {A : Type ℓ} → ℕ → List A → List A
skip ℕ.zero xs = xs
skip (suc n) [] = []
skip (suc n) (x ∷ xs) = skip n xs

unfoldable pub get_audit_entries :
    (AuditEntry → AuditEntry → Bool) → Db → GetAuditEntriesInput → List AuditEntry
unfolding matches newest_first
get_audit_entries tie db input = take (or_else input.limit default_limit) (
    skip (or_else input.offset default_offset)
      (newest_first tie (map (entry_of db) (filter (matches input) db.requests))))
