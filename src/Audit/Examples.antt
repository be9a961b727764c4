-- ===== src/Audit/Examples.antt =====
-- The theorems about the audit at concrete tables.
use control_deck.Prelude.{
  by, by-IsPreorder, IsPreorder, Bool, ◌⊎◌, ℕ, ◌+◌, ◌*◌, ◌≤◌, true, false, ◌≡◌, ◌↔◌, refl, none,
  some, List, [], ◌∷◌, any, delete, length, take, Mem,
}
use control_deck.Database.{RequestRow, ScopeType, Db}
use control_deck.Audit.Scope.{
  IsContentLoggingEnabledInput, switches_on, same_scope, is_content_logging_enabled,
  set_logging_scope,
}
use control_deck.Audit.Scope.Laws.{Covers, is_content_logging_enabled-set}
use control_deck.Audit.History.{day_ms, delete_audit_history}
use control_deck.Audit.History.Laws.{HasRequests, delete_audit_history-HasRequests}
use control_deck.Audit.Entries.{GetAuditEntriesInput, AuditEntry, skip, get_audit_entries}
use control_deck.Audit.Entries.Laws.{Listing, page, get_audit_entries-Listing}
use control_deck.Samples.{by_length, by_length-IsPreorder, busy_db}

abbrev one_scope : Db
one_scope = record busy_db {
  audit_logging_config =
      record { scope_type = ScopeType.global; scope_key = ""; enabled = false } ∷ [];
}

abbrev a_turn : IsContentLoggingEnabledInput
a_turn = record { team = some "red"; model_id = some "big"; api_key = none }

logged_for_red :
    is_content_logging_enabled (set_logging_scope one_scope ScopeType.team "red" true) a_turn ≡ true
unfolding is_content_logging_enabled set_logging_scope
logged_for_red = refl

is_content_logging_enabled-set_example :
    (is_content_logging_enabled (set_logging_scope one_scope ScopeType.team "red" true) a_turn
      ≡ true)
    ↔ (((◌≡◌ {A = Bool} true true) × Covers a_turn ScopeType.team "red")
        ⊎ (any
              (switches_on a_turn)
              (delete (same_scope ScopeType.team "red") one_scope.audit_logging_config)
            ≡ true))
is_content_logging_enabled-set_example =
    is_content_logging_enabled-set one_scope a_turn ScopeType.team "red" true (tt, tt)

delete_audit_history-HasRequests_example :
    let (db', count) = delete_audit_history busy_db 1 90_000_000 in
    HasRequests db'
    × ((r : RequestRow)
        → Mem r db'.requests ↔ (Mem r busy_db.requests × (90_000_000 ≤ r.arrived_at + 1 * day_ms)))
    × (length db'.requests + count ≡ length busy_db.requests)
delete_audit_history-HasRequests_example = delete_audit_history-HasRequests busy_db 1 90_000_000

abbrev of_big : GetAuditEntriesInput
of_big = record {
  caller = none;
  model = some "big";
  team = none;
  status = some "streaming";
  since = none;
  until = none;
  limit = none;
  offset = none;
}

-- The database may break ties by the length of the id.
abbrev by_id : AuditEntry → AuditEntry → Bool
by_id = by (λ (e : AuditEntry). e.id) by_length

by_id-IsPreorder : IsPreorder by_id
by_id-IsPreorder = by-IsPreorder (λ (e : AuditEntry). e.id) by_length-IsPreorder

one_entry : length (get_audit_entries by_id busy_db of_big) ≡ 1
unfolding get_audit_entries
one_entry = refl

get_audit_entries-Listing_example :
    (listing : List AuditEntry) × Listing busy_db of_big listing
    × ((limit offset : ℕ)
        → get_audit_entries by_id busy_db (page of_big limit offset)
          ≡ take limit (skip offset listing))
get_audit_entries-Listing_example = get_audit_entries-Listing by_id busy_db of_big by_id-IsPreorder
