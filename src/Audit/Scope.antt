-- ===== src/Audit/Scope.antt =====
-- server/src/audit/logging-scope.ts: for whom prompts and responses are kept.
pub mod Laws
use control_deck.Prelude.{
  ℕ, String, Bool, true, false, ◌&&◌, ◌||◌, not, ◌==◌, eqb, Option, none, some, List, any, upsert,
}
use control_deck.Database.{ScopeType, LoggingScopeRow, Db}

pub record IsContentLoggingEnabledInput : Type 0 where
  pub team : Option String
  pub model_id : Option String
  pub api_key : Option String

abbrev pub same_type : ScopeType → ScopeType → Bool
same_type ScopeType.global ScopeType.global = true
same_type ScopeType.team ScopeType.team = true
same_type ScopeType.model ScopeType.model = true
same_type ScopeType.key ScopeType.key = true
same_type _ _ = false

-- `if (value)` and then a comparison with it.
abbrev pub given : Option String → String → Bool
given none key = false
given (some value) key = not (value == "") && key == value

-- The conditions on scope_type and scope_key.
abbrev pub applies : IsContentLoggingEnabledInput → ScopeType → String → Bool
applies input ScopeType.global key = key == ""
applies input ScopeType.team key = given input.team key
applies input ScopeType.model key = given input.model_id key
applies input ScopeType.key key = given input.api_key key

abbrev pub switches_on : IsContentLoggingEnabledInput → LoggingScopeRow → Bool
switches_on input row = row.enabled && applies input row.scope_type row.scope_key

unfoldable pub is_content_logging_enabled : Db → IsContentLoggingEnabledInput → Bool
is_content_logging_enabled db input = any (switches_on input) db.audit_logging_config

abbrev pub same_scope : ScopeType → String → LoggingScopeRow → Bool
same_scope kind key row = same_type row.scope_type kind && row.scope_key == key

-- The one key of the global scope is the empty text.
abbrev pub key_of_scope : ScopeType → String → String
key_of_scope ScopeType.global key = ""
key_of_scope _ key = key

abbrev pub enable : Bool → LoggingScopeRow → LoggingScopeRow
enable enabled row = record row { enabled = enabled }

unfoldable pub set_logging_scope : Db → ScopeType → String → Bool → Db
set_logging_scope db kind scope_key enabled =
    let key = key_of_scope kind scope_key in
    record db {
      audit_logging_config =
          upsert (same_scope kind key) (enable enabled)
            (record { scope_type = kind; scope_key = key; enabled = enabled })
            db.audit_logging_config;
    }
