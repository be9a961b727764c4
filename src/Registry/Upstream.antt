-- ===== src/Registry/Upstream.antt =====
-- server/src/registry/verify-upstream.ts: whether the backend of a model answers to the name that the
-- model is sent under. What a backend lists is an argument; the lines of the console are a result.
use control_deck.Prelude.{
  String, Bool, ◌==◌, ◌≡◌, ◌↔◌, refl, subst, if◌then◌else◌, any, find, upsert, Option, none, some,
  List, [], ◌∷◌, ◌++◌, Mem, any_sound, any_of_mem, Bool-cases, inl, inr, eq_iff, eq_refl,
}
use control_deck.Types.{ModelConfig}

-- One entry of the listing: its id, if that is a text, and its aliases that are texts.
pub record ModelsListEntry : Type 0 where
  pub id : Option String
  pub aliases : List String

pub data UpstreamCheck : Type 0 where
  ok : UpstreamCheck
  unknown : UpstreamCheck
  missing : (available : List String) → UpstreamCheck

abbrev own_name : Option String → List String
own_name none = []
own_name (some id) = id ∷ []

abbrev names_in : List ModelsListEntry → List String
names_in [] = []
names_in (e ∷ es) = own_name e.id ++ (e.aliases ++ names_in es)

-- `none` where the backend gives no listing that can be read.
abbrev pub list_upstream_names : Option (List ModelsListEntry) → Option (List String)
list_upstream_names none = none
list_upstream_names (some entries) = some (names_in entries)

abbrev pub is_listed : String → List String → Bool
is_listed name names = any (λ (n : String). n == name) names

unfoldable pub check_upstream_name : ModelConfig → Option (List String) → UpstreamCheck
check_upstream_name model none = UpstreamCheck.unknown
check_upstream_name model (some available) =
    if is_listed model.upstream_model available
    then UpstreamCheck.ok
    else UpstreamCheck.missing available

pub record UpstreamReport : Type 0 where
  pub model_id : String
  pub check : UpstreamCheck

pub data LogLine : Type 0 where
  silent : LogLine
  reports_missing : (model_id : String) → LogLine
  reports_resolved : (model_id : String) → LogLine

abbrev report_is : String → UpstreamReport → Bool
report_is model_id r = r.model_id == model_id

abbrev check_in : Option UpstreamReport → Option UpstreamCheck
check_in none = none
check_in (some r) = some r.check

-- The checks that were recorded last, and how they changed.
unfoldable pub get_upstream_check : List UpstreamReport → String → Option UpstreamCheck
get_upstream_check reports model_id = check_in (find (report_is model_id) reports)

abbrev change : String → Option UpstreamCheck → UpstreamCheck → LogLine
change id (some (UpstreamCheck.missing _)) (UpstreamCheck.missing _) = LogLine.silent
change id _ (UpstreamCheck.missing _) = LogLine.reports_missing id
change id (some (UpstreamCheck.missing _)) UpstreamCheck.ok = LogLine.reports_resolved id
change id _ _ = LogLine.silent

unfoldable pub record_upstream_check :
    List UpstreamReport → String → UpstreamCheck → List UpstreamReport × LogLine
unfolding get_upstream_check
record_upstream_check reports model_id check = (
  upsert (report_is model_id) (λ (r : UpstreamReport). record r { check = check })
      (record { model_id = model_id; check = check }) reports,
  change model_id (get_upstream_check reports model_id) check,
)

-- A model is reported as missing exactly if its backend gives a listing and its name is not in it.
check_upstream_name-missing_iff :
    (model : ModelConfig) (names : List String)
    → (check_upstream_name model (some names) ≡ UpstreamCheck.missing names)
      ↔ (¬ Mem model.upstream_model names)
unfolding check_upstream_name
check_upstream_name-missing_iff model names =
    elim (Bool-cases (is_listed model.upstream_model names)) [
      | inl e ↦
          let (n, among, same) = any_sound (λ (n : String). n == model.upstream_model) names e in
          let here : Mem model.upstream_model names =
            subst (λ k. Mem k names) ((eq_iff n model.upstream_model).0 same) among in
          (
            λ h. let h' : UpstreamCheck.ok ≡ UpstreamCheck.missing names = rw e at h in cc,
            λ no. absurd (no here),
          )
      | inr e ↦ (
        λ _ m.
            let yes =
              any_of_mem (λ (n : String). n == model.upstream_model) names model.upstream_model m
                (eq_refl model.upstream_model) in
            cc,
        λ _. rw e refl,
      )
    ]
