-- ===== src/Auth.antt =====
-- server/src/auth/verify.ts and server/src/http/auth-middleware.ts: who sends a request.
--
-- The verification of a token's signature, times, issuer and audience is the library jose, given as
-- `jwt_verify`: what it answers for a token under the options that it is called with. A claim that is
-- not a string is `none`.
pub mod Laws
mod Examples
use control_deck.Prelude.{
  ℕ, String, Bool, true, false, not, ◌&&◌, ◌||◌, ◌==◌, if◌then◌else◌, is_empty, is_text, any, eqb,
  or_else, Option, none, some, List, [], ◌∷◌, ◌++◌,
}
use control_deck.Types.{Text, ErrorCode, ErrorType, StandardError, CallerIdentity}
use control_deck.Routing.Complexity.{codes, starts_with, is_space}
use control_deck.Scheduler.Queue.{truthy}
use control_deck.Http.Stream.{trim_start, trim_end}
use control_deck.Http.Errors.{status_for_error}

-- What jwtVerify is called with.
pub record VerifyOptions : Type 0 where
  pub issuer : String
  pub audience : List String
  pub algorithms : List String
  pub clock_tolerance : ℕ

pub data Verified : Type 0 where
  payload : (claims : String → Option String) → Verified
  expired : Verified
  claim_failed : (claim reason : Text) → Verified
  bad_signature : Verified
  -- Another error, or a value that is no error.
  failed : Option Text → Verified

pub record VerifyBearerTokenOptions : Type 0 where
  pub audience : List String
  pub issuer : String
  pub team_claim : Option String
  pub tenant_id : Option String
  pub clock_tolerance_sec : Option ℕ

pub data VerifyBearerTokenResult : Type 0 where
  ok : CallerIdentity → VerifyBearerTokenResult
  invalid : StandardError → VerifyBearerTokenResult

abbrev pub auth_invalid : Text → VerifyBearerTokenResult
auth_invalid message =
    VerifyBearerTokenResult.invalid
      (record { kind = ErrorType.auth_error; code = ErrorCode.auth_invalid; message = message })

abbrev pub is_blank : String → Bool
is_blank s = is_empty (trim_start (codes s))

-- `typeof value === "string" && value.trim() ? value : undefined`
abbrev pub first_string : Option String → Option String
first_string none = none
first_string (some s) = if is_blank s then none else some s

-- The units that `.` does not match.
abbrev pub is_line_end : ℕ → Bool
is_line_end c = eqb c 10 || (eqb c 13 || (eqb c 0x2028 || eqb c 0x2029))

abbrev pub bearer : Text
bearer = codes "Bearer"

abbrev after_bearer : Text → Text
after_bearer (_ ∷ _ ∷ _ ∷ _ ∷ _ ∷ _ ∷ s) = s
after_bearer _ = []

abbrev pub begins_with_space : Text → Bool
begins_with_space [] = false
begins_with_space (c ∷ s) = is_space c

abbrev token_in : Text → Option Text
token_in rest = if is_empty rest || any is_line_end rest then none else some (trim_end rest)

-- /^Bearer\s+(.+)$/ and the trim of its group.
unfoldable pub extract_bearer_token : Option Text → Option Text
unfolding starts_with is_space
extract_bearer_token none = none
extract_bearer_token (some header) =
    if starts_with header bearer && begins_with_space (after_bearer header)
    then token_in (trim_start (after_bearer header))
    else none

abbrev pub or_string : Option String → Option String → Option String
or_string none next = next
or_string (some s) next = some s

abbrev pub name_of : (String → Option String) → String → String
name_of claims oid =
    or_else
      (or_string (first_string (claims "name")) (
        or_string (first_string (claims "preferred_username"))
          (or_string (first_string (claims "upn")) (first_string (claims "email")))))
      oid

abbrev pub same_tenant : Option String → Option String → Bool
same_tenant none tid = true
same_tenant (some tenant) tid = is_text tid tenant

module _ (jwt_verify : Text → VerifyOptions → Verified) (opts : VerifyBearerTokenOptions) where
  abbrev pub jwt_options : VerifyOptions
  jwt_options = record {
    issuer = opts.issuer;
    audience = opts.audience;
    algorithms = "RS256" ∷ [];
    clock_tolerance = or_else opts.clock_tolerance_sec 60;
  }

  abbrev pub identity_of : (String → Option String) → String → CallerIdentity
  identity_of claims oid = record {
    oid = oid;
    name = name_of claims oid;
    team = first_string (claims (or_else opts.team_claim "department"));
  }

  abbrev pub with_oid : (String → Option String) → Option String → VerifyBearerTokenResult
  with_oid claims none = auth_invalid (codes "Token is missing the required \"oid\" claim.")
  with_oid claims (some oid) =
      if same_tenant (truthy opts.tenant_id) (claims "tid")
      then VerifyBearerTokenResult.ok (identity_of claims oid)
      else auth_invalid (codes "Token was issued by a different tenant than this gateway accepts.")

  abbrev pub judge : Verified → VerifyBearerTokenResult
  judge (Verified.payload claims) = with_oid claims (truthy (claims "oid"))
  judge Verified.expired = auth_invalid (codes "Token has expired.")
  judge (Verified.claim_failed claim reason) =
      auth_invalid (
        codes "Token claim validation failed: "
        ++ (claim ++ (codes " (" ++ (reason ++ codes ")."))))
  judge Verified.bad_signature = auth_invalid (codes "Token signature verification failed.")
  judge (Verified.failed message) =
      auth_invalid (
        codes "Token verification failed: " ++ or_else message (codes "Token verification failed."))

  abbrev pub with_token : Option Text → VerifyBearerTokenResult
  with_token none =
      auth_invalid (codes "Missing or malformed Authorization header; expected \"Bearer <token>\".")
  with_token (some token) = judge (jwt_verify token jwt_options)

  unfoldable pub verify_bearer_token : Option Text → VerifyBearerTokenResult
  unfolding extract_bearer_token
  verify_bearer_token header = with_token (extract_bearer_token header)

-- What the handler of a route meets: an answer that was sent already, or an identity.
pub data PreHandled : Type 0 where
  rejected : (status : ℕ) → StandardError → PreHandled
  identified : CallerIdentity → PreHandled

abbrev pub pre_handled : VerifyBearerTokenResult → PreHandled
pre_handled (VerifyBearerTokenResult.ok identity) = PreHandled.identified identity
pre_handled (VerifyBearerTokenResult.invalid err) = PreHandled.rejected (status_for_error err) err

unfoldable pub auth_pre_handler :
    (Text → VerifyOptions → Verified) → VerifyBearerTokenOptions → Option Text → PreHandled
unfolding verify_bearer_token status_for_error
auth_pre_handler jwt_verify opts header = pre_handled (verify_bearer_token jwt_verify opts header)
