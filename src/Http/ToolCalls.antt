-- ===== src/Http/ToolCalls.antt =====
-- server/src/http/routes/v1.ts: the fragments of tool calls, put together for a caller that does not
-- stream.
pub mod Laws
use control_deck.Prelude.{
  ℕ, String, Bool, true, false, ◌==◌, eqb, leb, not, if◌then◌else◌, is_empty, Option, none, some,
  or_else, List, [], ◌∷◌, ◌++◌, map, upsert, filter, sort_by, by,
}
use control_deck.Types.{Text}
use control_deck.Routing.Complexity.{codes, join}

pub record ToolCallDelta : Type 0 where
  pub index : Option ℕ
  pub id : Text
  pub kind : Text
  pub name : Text
  pub arguments : Text

pub record ToolCall : Type 0 where
  pub id : Text
  pub kind : Text
  pub name : Text
  pub arguments : Text

abbrev pub blank : ToolCall
blank = record { id = []; kind = codes "function"; name = []; arguments = [] }

-- `if (new) old = new`, for texts; a text that is missing is the empty one.
abbrev unless_empty : Text → Text → Text
unless_empty new old = if is_empty new then old else new

abbrev pub extend : ToolCallDelta → ToolCall → ToolCall
extend d c = record {
  id = unless_empty d.id c.id;
  kind = unless_empty d.kind c.kind;
  name = unless_empty d.name c.name;
  arguments = c.arguments ++ d.arguments;
}

abbrev pub index_of : ToolCallDelta → ℕ
index_of d = or_else d.index 0

abbrev pub entry_is : ℕ → ℕ × ToolCall → Bool
entry_is i e = eqb e.0 i

abbrev pub extend_entry : ToolCallDelta → ℕ × ToolCall → ℕ × ToolCall
extend_entry d e = (e.0, extend d e.1)

-- The map `byIndex`, in the order of insertion.
unfoldable pub collect : List ToolCallDelta → List (ℕ × ToolCall) → List (ℕ × ToolCall)
collect [] entries = entries
collect (d ∷ ds) entries =
    collect ds
      (upsert (entry_is (index_of d)) (extend_entry d) (index_of d, extend d blank) entries)

abbrev pub lower_index : ℕ × ToolCall → ℕ × ToolCall → Bool
lower_index = by (λ (e : ℕ × ToolCall). e.0) leb

unfoldable pub assemble_tool_calls : List ToolCallDelta → List ToolCall
unfolding collect sort_by
assemble_tool_calls deltas =
    map (λ (e : ℕ × ToolCall). e.1) (sort_by lower_index (collect deltas []))
