-- ===== src/TokenBroker/Http.antt =====
-- The responses and requests of token-broker/internal/api/handlers.go. `net/http`, `net/url`,
-- `encoding/json` and the JWT verifier of another module are parameters.
use kagenti_operator.Prelude.{
  ℕ, Bool, true, false, ◌||◌, Text, lit, is_empty, beq, Option, none, some, List, [], ◌∷◌,
  if◌then◌else◌,
}
use kagenti_operator.GoMap
use kagenti_operator.GoMap.{GoMap}
use kagenti_operator.TokenBroker.Errors.{Error, Result, ok, err}
use kagenti_operator.TokenBroker.Session.{Event}
use kagenti_operator.TokenBroker.Auth.{
  JwtClaims, extract_bearer_token, parse_jwt_without_validation, get_session_key,
}

-- A text, or one with an error printed behind it.
pub data Wording : Type 0 where
  fixed : Text → Wording
  printed : Text → Error → Wording
  provider_said : (error_param error_description : Text) → Wording

pub record ErrorResponse : Type 0 where
  pub code : Text
  pub message : Wording

-- ErrorResponse, BackendErrorResponse, the texts of `http.Error` and `Write`, the token and the event
-- as JSON, and the redirection of `http.Redirect`.
pub data Body : Type 0 where
  no_body : Body
  flat_error nested_error : ErrorResponse → Body
  plain_text : Wording → Body
  token_json : Text → Body
  event_json : Event → Body
  redirect_to : Text → Body

pub record Response : Type 0 where
  pub status : ℕ
  pub body : Body

abbrev pub ErrorWriter : Type 0
ErrorWriter = ℕ → Text → Wording → Response

unfoldable pub write_error : ErrorWriter
write_error status code message = record {
  status = status;
  body = flat_error (record { code = code; message = message });
}

unfoldable pub write_backend_error : ErrorWriter
write_backend_error status code message = record {
  status = status;
  body = nested_error (record { code = code; message = message });
}

abbrev pub write_header : ℕ → Response
write_header status = record { status = status; body = no_body }

abbrev pub http_error : Wording → ℕ → Response
http_error text status = record { status = status; body = plain_text text }

-- http.Redirect(w, r, url, http.StatusFound)
abbrev pub redirect : Text → Response
redirect url = record { status = 302; body = redirect_to url }

-- A value of the verifier's `Extra` map: `none` where it is no string.
pub record VerifiedClaims : Type 0 where
  pub subject : Text
  pub extra : GoMap (Option Text)

-- value, _ := claims.Extra[name].(string)
abbrev string_claim : Option (Option Text) → Text
string_claim (some (some value)) = value
string_claim _ = lit ""

abbrev pub verified_key : GoMap (Option Text) → Text
verified_key extra =
    let sk = string_claim (GoMap.get extra (lit "session_uid")) in
    if is_empty sk then string_claim (GoMap.get extra (lit "jti")) else sk

-- The user and the session key, or the response that was written: the handlers tell the two apart by
-- an empty user, with which the source returns exactly where it has written a response.
pub data Identity : Type 0 where
  identified : (user_id session_key : Text) → Identity
  refused : Response → Identity

-- The fields of `Handler`; the verifier is `none` in the mode without validation.
pub record Handler : Type 0 where
  pub allowed_redirect_hosts : List Text
  pub jwt_verifier : Option (Text → List Text → Result VerifiedClaims)
  pub jwt_audiences : List Text

abbrev invalid_token : ErrorWriter → Wording → Identity
invalid_token err_writer text = refused (err_writer 401 (lit "invalid_token") text)

abbrev pub verified_identity : ErrorWriter → Result VerifiedClaims → Identity
verified_identity err_writer (err e) =
    invalid_token err_writer (printed (lit "JWT validation failed: ") e)
verified_identity err_writer (ok claims) =
    if is_empty claims.subject || is_empty (verified_key claims.extra)
    then invalid_token err_writer (fixed (lit "JWT missing required sub or session_uid/jti claims"))
    else identified claims.subject (verified_key claims.extra)

abbrev pub legacy_identity : ErrorWriter → Result JwtClaims → Identity
legacy_identity err_writer (err e) = invalid_token err_writer (printed (lit "Invalid JWT: ") e)
legacy_identity err_writer (ok claims) = identified claims.sub (get_session_key claims)

module _ (unmarshal : Text → Option JwtClaims) (h : Handler) (err_writer : ErrorWriter) where
  abbrev pub token_identity : Option (Text → List Text → Result VerifiedClaims) → Text → Identity
  token_identity (some verify) token = verified_identity err_writer (verify token h.jwt_audiences)
  token_identity none token =
      legacy_identity err_writer (parse_jwt_without_validation unmarshal token)

  abbrev pub bearer_identity : Result Text → Identity
  bearer_identity (err e) =
      invalid_token err_writer (fixed (lit "Missing or invalid Authorization header"))
  bearer_identity (ok token) = token_identity h.jwt_verifier token

  unfoldable pub parse_and_validate_jwt : (auth_header : Text) → Identity
  parse_and_validate_jwt auth_header = bearer_identity (extract_bearer_token auth_header)

-- isAllowedRedirectHost
unfoldable pub is_allowed_redirect_host : List Text → Text → Bool
is_allowed_redirect_host [] host = false
is_allowed_redirect_host (allowed ∷ rest) host =
    if beq allowed host then true else is_allowed_redirect_host rest host

-- What the handlers take from `net/url`.
pub record UrlPackage : Type 1 where
  pub Url : Type 0
  pub Values : Type 0
  pub parse : Text → Option Url
  pub hostname : Url → Text
  pub query : Url → Values
  pub set : Values → Text → Text → Values
  pub encode : Values → Text
  pub with_raw_query : Url → Text → Url
  pub string : Url → Text

module _ (lib : UrlPackage) where
  open lib use {Values, parse, query, set, encode, with_raw_query, string}

  abbrev set_all : Values → List (Text × Text) → Values
  set_all q [] = q
  set_all q ((key, value) ∷ params) = set_all (set q key value) params

  -- addQueryParams; the map of parameters is a list, in the order in which it is ranged over.
  unfoldable pub add_query_params : Text → List (Text × Text) → Text
  add_query_params base_url params = elim (parse base_url) [
    | none ↦ base_url
    | some u ↦ string (with_raw_query u (encode (set_all (query u) params)))
  ]
