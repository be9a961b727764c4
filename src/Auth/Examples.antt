-- ===== src/Auth/Examples.antt =====
-- A library that knows two tokens, and what the gateway makes of some headers.
use control_deck.Prelude.{String, ◌==◌, ◌≡◌, refl, if◌then◌else◌, Option, none, some, [], ◌∷◌}
use control_deck.Types.{Text}
use control_deck.Routing.Complexity.{codes, starts_with, is_space}
use control_deck.Http.Stream.{same_text}
use control_deck.Auth.{
  VerifyOptions, Verified, VerifyBearerTokenOptions, PreHandled, extract_bearer_token,
  verify_bearer_token, auth_pre_handler,
}
use control_deck.Auth.Laws.{Judged, auth_pre_handler-Judged}

abbrev claims_of_ann : String → Option String
claims_of_ann claim =
    if claim == "oid"
    then some "oid-ann"
    else if claim == "tid"
    then some "here"
    else if claim == "upn"
    then some "ann@here"
    else none

abbrev knows_one : Text → VerifyOptions → Verified
knows_one token opts =
    if same_text token (codes "good")
    then Verified.payload claims_of_ann
    else Verified.bad_signature

abbrev options : String → VerifyBearerTokenOptions
options tenant = record {
  audience = "api" ∷ [];
  issuer = "entra";
  team_claim = none;
  tenant_id = some tenant;
  clock_tolerance_sec = none;
}

known_caller :
    auth_pre_handler knows_one (options "here") (some (codes "Bearer  good "))
    ≡ PreHandled.identified (record { oid = "oid-ann"; name = "ann@here"; team = none })
unfolding auth_pre_handler verify_bearer_token extract_bearer_token starts_with is_space same_text
known_caller = refl

auth_pre_handler-Judged_example :
    Judged knows_one
      (options "elsewhere")
      (some (codes "Bearer good"))
      (auth_pre_handler knows_one (options "elsewhere") (some (codes "Bearer good")))
auth_pre_handler-Judged_example =
    auth_pre_handler-Judged knows_one (options "elsewhere") (some (codes "Bearer good"))
