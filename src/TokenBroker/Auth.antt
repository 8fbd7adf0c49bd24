-- ===== src/TokenBroker/Auth.antt =====
-- token-broker/internal/auth/jwt.go. `json.Unmarshal` into `JWTClaims` is a parameter.
use kagenti_operator.Prelude.{
  ◌≡◌, ◌↔◌, Bool, true, false, ◌&&◌, ◌||◌, Text, lit, is_empty, beq, Option, none, some, List, [],
  ◌∷◌, ◌++◌, if◌then◌else◌, ℤ, Option-cases, inl, inr, arith,
}
use mathlib.Core.Path.{subst}
use kagenti_operator.Strings.{
  has_prefix, trim_prefix, split, raw_url_decode, has_prefix-append, trim_prefix_lem,
  trim_prefix-append,
}
use kagenti_operator.TokenBroker.Errors.{
  Context, Result, ok, err, ◌>>=◌, message, wrap, missing_authorization_header,
  invalid_authorization_header, empty_token, invalid_jwt_format, missing_sub, missing_session_key,
  decode_payload_failed, parse_claims_failed, library_error,
}

pub record JwtClaims : Type 0 where
  pub sub : Text
  pub jti : Text
  pub session_uid : Text
  pub iss : Text
  pub aud : List Text
  pub exp : ℤ
  pub iat : ℤ

-- Audience.Contains and Audience.String
unfoldable pub audience_contains : List Text → Text → Bool
audience_contains [] value = false
audience_contains (aud ∷ rest) value = beq aud value || audience_contains rest value

unfoldable pub audience_string : List Text → Text
audience_string [] = lit ""
audience_string (aud ∷ rest) = aud

unfoldable pub get_session_key : JwtClaims → Text
get_session_key c = if is_empty c.session_uid then c.jti else c.session_uid

-- A failed call of the standard library, under the text that the source puts in front of it.
abbrev pub library_call {ℓ} : {A : Type ℓ} → Option A → Result A
library_call none = err (message library_error)
library_call (some a) = ok a

abbrev pub wrapped_call {ℓ} : {A : Type ℓ} → Option A → Context → Result A
wrapped_call none c = err (wrap c (message library_error))
wrapped_call (some a) c = ok a

abbrev check_claims : JwtClaims → Result JwtClaims
check_claims claims =
    if is_empty claims.sub
    then err (message missing_sub)
    else if is_empty claims.session_uid && is_empty claims.jti
    then err (message missing_session_key)
    else ok claims

abbrev parse_payload : (Text → Option JwtClaims) → Text → Result JwtClaims
parse_payload unmarshal payload = do
  decoded ← wrapped_call (raw_url_decode payload) decode_payload_failed
  claims ← wrapped_call (unmarshal decoded) parse_claims_failed
  check_claims claims

abbrev parse_parts : (Text → Option JwtClaims) → List Text → Result JwtClaims
parse_parts unmarshal (header ∷ payload ∷ signature ∷ []) = parse_payload unmarshal payload
parse_parts unmarshal _ = err (message invalid_jwt_format)

unfoldable pub parse_jwt_without_validation : (Text → Option JwtClaims) → Text → Result JwtClaims
parse_jwt_without_validation unmarshal token = parse_parts unmarshal (split b'.' token)

unfoldable pub extract_bearer_token : Text → Result Text
extract_bearer_token auth_header =
    if is_empty auth_header
    then err (message missing_authorization_header)
    else if has_prefix auth_header (lit "Bearer ")
    then (let token = trim_prefix auth_header (lit "Bearer ") in
        if is_empty token then err (message empty_token) else ok token)
    else err (message invalid_authorization_header)

-- A token is taken from exactly the headers that are `Bearer ` and that token, which is not empty.
pub extract_bearer_token_iff :
    (auth_header token : Text)
    → (extract_bearer_token auth_header ≡ ok token)
      ↔ ((auth_header ≡ lit "Bearer " ++ token) × (is_empty token ≡ false))
extract_bearer_token_iff auth_header token = (there, back)
  where
    there :
        extract_bearer_token auth_header ≡ ok token
        → (auth_header ≡ lit "Bearer " ++ token) × (is_empty token ≡ false)
    there h =
        let prefix : has_prefix auth_header (lit "Bearer ") ≡ true =
          unfold extract_bearer_token in ground arith in
        let rest : trim_prefix auth_header (lit "Bearer ") ≡ token =
          unfold extract_bearer_token in ground arith in
        (
          subst (λ t. auth_header ≡ lit "Bearer " ++ t) rest
              (trim_prefix_lem auth_header (lit "Bearer ") prefix),
          unfold extract_bearer_token in ground arith,
        )

    back :
        (auth_header ≡ lit "Bearer " ++ token) × (is_empty token ≡ false)
        → extract_bearer_token auth_header ≡ ok token
    back h = rw h.0 (
        unfold extract_bearer_token in
        ground (
          arith,
          h.1,
          has_prefix-append (lit "Bearer ") token,
          trim_prefix-append (lit "Bearer ") token,
        ))

checked :
    (claims claims' : JwtClaims)
    → check_claims claims ≡ ok claims'
    → (is_empty claims'.sub ≡ false) × (is_empty (get_session_key claims') ≡ false)
unfolding get_session_key
checked claims claims' h = ground arith

-- Parsed claims name a user and a session key, neither of them empty; the session key is
-- `session_uid`, and `jti` where that is empty.
pub parsed_claims :
    (unmarshal : Text → Option JwtClaims) (token : Text) (claims : JwtClaims)
    → parse_jwt_without_validation unmarshal token ≡ ok claims
    → (is_empty claims.sub ≡ false) × (is_empty (get_session_key claims) ≡ false)
unfolding parse_jwt_without_validation
parsed_claims unmarshal token claims h = parts (split b'.' token) h
  where
    payload_case :
        (payload : Text)
        → parse_payload unmarshal payload ≡ ok claims
        → (is_empty claims.sub ≡ false) × (is_empty (get_session_key claims) ≡ false)
    payload_case payload h = elim (Option-cases (raw_url_decode payload)) [
      | inl e ↦ absurd (ground arith)
      | inr (decoded, e) ↦ elim (Option-cases (unmarshal decoded)) [
        | inl f ↦ absurd (ground arith)
        | inr (found, f) ↦ checked found claims (ground arith)
      ]
    ]

    parts :
        (ps : List Text)
        → parse_parts unmarshal ps ≡ ok claims
        → (is_empty claims.sub ≡ false) × (is_empty (get_session_key claims) ≡ false)
    parts (header ∷ payload ∷ signature ∷ []) h = payload_case payload h
    parts _ h = absurd (ground arith)
