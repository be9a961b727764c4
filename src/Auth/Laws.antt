-- ===== src/Auth/Laws.antt =====
-- Who passes the check of tokens, and what everyone else is told.
use control_deck.Prelude.{
  String, true, ◌==◌, ◌≡◌, ◌≢◌, refl, ap, ◌∙◌, Option, none, some, or_else, [], ◌∷◌, Bool-cases,
  inl, inr, eq_iff, arith,
}
use control_deck.Types.{Text, ErrorCode, StandardError, CallerIdentity}
use control_deck.Scheduler.Queue.{truthy}
use control_deck.Http.Errors.{status_for_error}
use control_deck.Auth.{
  VerifyOptions, Verified, VerifyBearerTokenOptions, extract_bearer_token, same_tenant, jwt_options,
  identity_of, judge, with_oid, with_token, verify_bearer_token, PreHandled, pre_handled,
  auth_pre_handler,
}

truthy-some : (o : Option String) (s : String) → truthy o ≡ some s → (o ≡ some s) × (s ≢ "")
truthy-some none s e = cc
truthy-some (some t) s e = elim (Bool-cases (t == "")) [
  | inl h ↦ let stopped = rw h at e in cc
  | inr h ↦
      let same : t ≡ s = ground arith in
      (ap some same, λ q. let k = (eq_iff t "").1 (same ∙ q) in cc)
]

same_tenant_sound :
    (tenant tid : Option String) (t : String)
    → same_tenant tenant tid ≡ true
    → tenant ≡ some t
    → tid ≡ some t
same_tenant_sound none tid t e h = cc
same_tenant_sound (some u) none t e h = cc
same_tenant_sound (some u) (some v) t e h =
    let named : u ≡ t = cc in ap some ((eq_iff v u).0 e ∙ named)

module _ (jwt_verify : Text → VerifyOptions → Verified) (opts : VerifyBearerTokenOptions) where
  -- The library has accepted the token of the header under the gateway's options, and its claims name
  -- the caller and, where one is asked for, the tenant.
  pub record IsVouched (header : Option Text) (who : CallerIdentity) : Type 0 where
    pub token : Text
    pub claims : String → Option String
    pub sent : extract_bearer_token header ≡ some token
    pub asked : VerifyOptions
    pub accepted : jwt_verify token asked ≡ Verified.payload claims
    pub issuer : asked.issuer ≡ opts.issuer
    pub audience : asked.audience ≡ opts.audience
    pub algorithms : asked.algorithms ≡ "RS256" ∷ []
    pub clock_tolerance : asked.clock_tolerance ≡ or_else opts.clock_tolerance_sec 60
    pub oid : claims "oid" ≡ some who.oid
    pub oid_given : who.oid ≢ ""
    pub tenant : (t : String) → truthy opts.tenant_id ≡ some t → claims "tid" ≡ some t
    pub names : who ≡ identity_of jwt_verify opts claims who.oid

  pub data Judged (header : Option Text) : PreHandled → Type 0 where
    vouched :
        (who : CallerIdentity) → IsVouched header who → Judged header (PreHandled.identified who)
    turned_away :
        (err : StandardError)
        → err.code ≡ ErrorCode.auth_invalid
        → Judged header (PreHandled.rejected 401 err)

  with_oid-Judged :
      (header : Option Text) (token : Text) (claims : String → Option String) (o : Option String)
      → extract_bearer_token header ≡ some token
      → jwt_verify token (jwt_options jwt_verify opts) ≡ Verified.payload claims
      → truthy (claims "oid") ≡ o
      → Judged header (pre_handled (with_oid jwt_verify opts claims o))
  unfolding status_for_error
  with_oid-Judged header token claims none sent accepted e = turned_away _ refl
  with_oid-Judged header token claims (some oid) sent accepted e =
      let (given, not_empty) = truthy-some (claims "oid") oid e in
      elim (Bool-cases (same_tenant (truthy opts.tenant_id) (claims "tid"))) [
        | inr h ↦ rw h (turned_away _ refl)
        | inl h ↦ rw h (
            vouched (identity_of jwt_verify opts claims oid) (record {
              token = token;
              claims = claims;
              sent = sent;
              asked = jwt_options jwt_verify opts;
              accepted = accepted;
              issuer = refl;
              audience = refl;
              algorithms = refl;
              clock_tolerance = refl;
              oid = given;
              oid_given = not_empty;
              tenant = λ t q. same_tenant_sound (truthy opts.tenant_id) (claims "tid") t h q;
              names = refl;
            }))
      ]

  judge-Judged :
      (header : Option Text) (token : Text) (v : Verified)
      → extract_bearer_token header ≡ some token
      → jwt_verify token (jwt_options jwt_verify opts) ≡ v
      → Judged header (pre_handled (judge jwt_verify opts v))
  unfolding status_for_error
  judge-Judged header token (Verified.payload claims) sent e =
      with_oid-Judged header token claims (truthy (claims "oid")) sent e refl
  judge-Judged header token Verified.expired sent e = turned_away _ refl
  judge-Judged header token (Verified.claim_failed c r) sent e = turned_away _ refl
  judge-Judged header token Verified.bad_signature sent e = turned_away _ refl
  judge-Judged header token (Verified.failed m) sent e = turned_away _ refl

  with_token-Judged :
      (header : Option Text) (o : Option Text)
      → extract_bearer_token header ≡ o
      → Judged header (pre_handled (with_token jwt_verify opts o))
  unfolding status_for_error
  with_token-Judged header none e = turned_away _ refl
  with_token-Judged header (some token) e = judge-Judged header token _ e refl

  -- A request passes the check of tokens only as a caller that the library vouches for: it accepted
  -- the bearer token of the header when asked for the gateway's issuer and audience, the algorithm RS256
  -- alone and the configured tolerance of clocks (60 s unless it is set), its claims name that caller,
  -- who has an id, and the tenant is the one asked for, if any is. Every other request
  -- is answered with 401 and an authentication error.
  pub auth_pre_handler-Judged :
      (header : Option Text) → Judged header (auth_pre_handler jwt_verify opts header)
  unfolding auth_pre_handler verify_bearer_token
  auth_pre_handler-Judged header = with_token-Judged header (extract_bearer_token header) refl
