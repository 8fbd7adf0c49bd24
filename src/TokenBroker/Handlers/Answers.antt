-- ===== src/TokenBroker/Handlers/Answers.antt =====
-- Who api/handlers.go takes a caller for, and what it answers when `AcquireToken` fails.
use kagenti_operator.Prelude.{
  ℕ, ◌≡◌, refl, false, ◌||◌, Text, lit, is_empty, Option, none, some, Bool-cases, inl, inr, List,
  ◌++◌, arith,
}
use kagenti_operator.TokenBroker.Errors.{Error, Result, ok, err, Sentinel, is_error}
use kagenti_operator.TokenBroker.Semaphore
use kagenti_operator.TokenBroker.Session.{Session}
use kagenti_operator.TokenBroker.Auth.{
  JwtClaims, extract_bearer_token, extract_bearer_token_iff, parse_jwt_without_validation,
  parsed_claims,
}
use kagenti_operator.TokenBroker.Broker
use kagenti_operator.TokenBroker.Broker.{Pc}
use kagenti_operator.TokenBroker.Http.{
  Wording, ErrorWriter, Identity, identified, refused, Handler, parse_and_validate_jwt,
  VerifiedClaims, verified_key, verified_identity, legacy_identity, token_identity, bearer_identity,
}
use kagenti_operator.TokenBroker.Handlers.{token_response}

-- A user and a session key that are not empty, or a 401.
abbrev pub Authenticated : ErrorWriter → Identity → Type 0
Authenticated err_writer (identified user key) = (is_empty user ≡ false) × (is_empty key ≡ false)
Authenticated err_writer (refused response) =
    (text : Wording) × (response ≡ err_writer 401 (lit "invalid_token") text)

legacy_Authenticated :
    (err_writer : ErrorWriter) (unmarshal : Text → Option JwtClaims) (token : Text)
    (r : Result JwtClaims)
    → parse_jwt_without_validation unmarshal token ≡ r
    → Authenticated err_writer (legacy_identity err_writer r)
legacy_Authenticated err_writer unmarshal token (err e) g = (_, refl)
legacy_Authenticated err_writer unmarshal token (ok claims) g =
    parsed_claims unmarshal token claims g

verified_Authenticated :
    (err_writer : ErrorWriter) (r : Result VerifiedClaims)
    → Authenticated err_writer (verified_identity err_writer r)
verified_Authenticated err_writer (err e) = (_, refl)
verified_Authenticated err_writer (ok claims) =
    elim (Bool-cases (is_empty claims.subject || is_empty (verified_key claims.extra))) [
      | inl missing ↦ rw missing (_, refl)
      | inr there ↦ rw there (ground arith)
    ]

module _ (unmarshal : Text → Option JwtClaims) (h : Handler) (err_writer : ErrorWriter) where
  token_Authenticated :
      (verifier : Option (Text → List Text → Result VerifiedClaims)) (token : Text)
      → Authenticated err_writer (token_identity unmarshal h err_writer verifier token)
  token_Authenticated none token =
      legacy_Authenticated err_writer unmarshal token (parse_jwt_without_validation unmarshal token)
        refl
  token_Authenticated (some verify) token =
      verified_Authenticated err_writer (verify token h.jwt_audiences)

  bearer_Authenticated :
      (r : Result Text) → Authenticated err_writer (bearer_identity unmarshal h err_writer r)
  bearer_Authenticated (err e) = (_, refl)
  bearer_Authenticated (ok token) = token_Authenticated h.jwt_verifier token

  -- In both modes, for every Authorization header: a caller who is let through has a user name and a
  -- session key, neither of them empty, and any other gets a 401 `invalid_token`.
  pub parse_and_validate_jwt-Authenticated :
      (auth_header : Text)
      → Authenticated err_writer (parse_and_validate_jwt unmarshal h err_writer auth_header)
  unfolding parse_and_validate_jwt
  parse_and_validate_jwt-Authenticated auth_header =
      bearer_Authenticated (extract_bearer_token auth_header)

verified_inv :
    (err_writer : ErrorWriter) (r : Result VerifiedClaims) (user key : Text)
    → verified_identity err_writer r ≡ identified user key
    → (claims : VerifiedClaims) × (r ≡ ok claims) × (claims.subject ≡ user)
verified_inv err_writer (err e) user key f = absurd (ground arith)
verified_inv err_writer (ok claims) user key f = (claims, refl, ground arith)

-- With a verifier configured, a caller is let through only with the header `Bearer ` and a token that
-- the verifier accepted for the configured audiences, and as the subject that the verifier names.
pub identified-verified :
    (unmarshal : Text → Option JwtClaims) (h : Handler) (err_writer : ErrorWriter)
    (verify : Text → List Text → Result VerifiedClaims) (auth_header user key : Text)
    → h.jwt_verifier ≡ some verify
    → parse_and_validate_jwt unmarshal h err_writer auth_header ≡ identified user key
    → (token : Text) × (claims : VerifiedClaims) × (auth_header ≡ lit "Bearer " ++ token)
      × (verify token h.jwt_audiences ≡ ok claims)
      × (claims.subject ≡ user)
unfolding parse_and_validate_jwt
identified-verified unmarshal h err_writer verify auth_header user key configured f =
    go (extract_bearer_token auth_header) refl f
  where
    go :
        (r : Result Text)
        → extract_bearer_token auth_header ≡ r
        → bearer_identity unmarshal h err_writer r ≡ identified user key
        → (token : Text) × (claims : VerifiedClaims) × (auth_header ≡ lit "Bearer " ++ token)
          × (verify token h.jwt_audiences ≡ ok claims)
          × (claims.subject ≡ user)
    go (err e) g f = absurd (ground arith)
    go (ok token) g f =
        let (claims, accepted, subject) =
          verified_inv err_writer (verify token h.jwt_audiences) user key (rw configured at f) in
        (token, claims, ((extract_bearer_token_iff auth_header token).0 g).0, accepted, subject)

-- What a goroutine that has returned, or that stands before its deferred `Release`, has its caller
-- answered with.
abbrev pub answer : Pc → Option ℕ
answer (Broker.releasing p result) = some (token_response result).status
answer (Broker.returned result) = some (token_response result).status
answer _ = none

-- Whether `errors.Is` finds none of the broker's own errors.
abbrev pub IsForeign : Error → Type 0
IsForeign e = (s : Sentinel) → is_error e s ≡ false
