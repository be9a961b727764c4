-- ===== src/Audit/History.antt =====
-- server/src/audit/content.ts and retention.ts: the prompts and responses that are kept, and their
-- deletion with the requests that they belong to.
pub mod Laws
use control_deck.Prelude.{
  ℕ, ◌+◌, ◌*◌, String, Bool, not, ◌==◌, if◌then◌else◌, ltb, Option, none, some, List, any, filter,
  delete, upsert, length,
}
use control_deck.Types.{Text}
use control_deck.Database.{RequestRow, AuditContentRow, Db}
use control_deck.Scheduler.Queue.{request_is}

abbrev pub content_is : String → AuditContentRow → Bool
content_is request_id c = c.request_id == request_id

-- `none` is the error of the foreign key when there is no such request.
unfoldable pub record_audit_content : Db → String → Text → Text → ℕ → Option Db
record_audit_content db request_id prompt response now =
    if any (request_is request_id) db.requests
    then some (record db {
      audit_content =
          upsert (content_is request_id)
            (λ (c : AuditContentRow). record c {
              prompt = prompt;
              response = response;
              created_at = now;
            })
            (record {
              request_id = request_id;
              prompt = prompt;
              response = response;
              created_at = now;
            })
            db.audit_content;
    })
    else none

abbrev pub day_ms : ℕ
day_ms = 86_400_000

abbrev pub is_old : ℕ → ℕ → RequestRow → Bool
is_old older_than_days now r = ltb (r.arrived_at + older_than_days * day_ms) now

-- The content of a request that is deleted goes with it: ON DELETE CASCADE.
abbrev pub is_orphan : List RequestRow → AuditContentRow → Bool
is_orphan requests c = not (any (request_is c.request_id) requests)

unfoldable pub delete_audit_history : Db → ℕ → ℕ → Db × ℕ
delete_audit_history db older_than_days now =
    let kept = delete (is_old older_than_days now) db.requests in
    (
      record db { requests = kept; audit_content = delete (is_orphan kept) db.audit_content },
      length (filter (is_old older_than_days now) db.requests),
    )
