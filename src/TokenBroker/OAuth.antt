-- ===== src/TokenBroker/OAuth.antt =====
-- token-broker/pkg/oauth/pkce.go and `BuildAuthorizationURL` of token-broker/internal/oauth/client.go.
-- The random bytes are an argument, `none` where `rand.Read` fails; SHA-256 and `net/url` are
-- parameters.
pub mod BuiltState
use kagenti_operator.Prelude.{
  ℕ, ◌+◌, ◌-◌, ◌*◌, ◌/◌, ◌%◌, ◌<◌, ◌≡◌, ◌≢◌, refl, Bool, true, false, ◌||◌, Text, lit, Option, none,
  some, List, [], ◌∷◌, ◌++◌, ltb, ◌==◌, if◌then◌else◌, arith,
}
use kagenti_operator.TokenBroker.Session.{PkceChallenge}

-- The letter of the URL alphabet of base64.
unfoldable pub letter : ℕ → ℕ
letter v =
    if ltb v 26
    then v + 65
    else if ltb v 52
    then v + 71
    else if ltb v 62
    then v - 4
    else if v == 62
    then b'-'
    else b'_'

-- base64.RawURLEncoding.EncodeToString
unfoldable pub raw_url_encode : Text → Text
raw_url_encode [] = []
raw_url_encode (a ∷ []) = letter (a / 4) ∷ letter ((a % 4) * 16) ∷ []
raw_url_encode (a ∷ b ∷ []) =
    letter (a / 4) ∷ letter ((a % 4) * 16 + b / 16) ∷ letter ((b % 16) * 4) ∷ []
raw_url_encode (a ∷ b ∷ c ∷ rest) =
    letter (a / 4)
    ∷ letter ((a % 4) * 16 + b / 16)
    ∷ letter ((b % 16) * 4 + c / 64)
    ∷ letter (c % 64)
    ∷ raw_url_encode rest

unfoldable pub generate_pkce_challenge : (Text → Text) → Option Text → Option PkceChallenge
generate_pkce_challenge sha256 none = none
generate_pkce_challenge sha256 (some verifier_bytes) =
    let verifier = raw_url_encode verifier_bytes in
    some (record {
      verifier = verifier;
      challenge = raw_url_encode (sha256 verifier);
      method = lit "S256";
    })

unfoldable pub generate_state : Option Text → Option Text
generate_state none = none
generate_state (some state_bytes) = some (raw_url_encode state_bytes)

-- What the client takes from `net/url`: `url.Parse`, and `String` after the query was set to the
-- encoding of these values.
pub record UrlLibrary : Type 1 where
  pub Url : Type 0
  pub parse : Text → Option Url
  pub with_query : Url → List (Text × Text) → Text

-- strings.Join(scopes, " ")
unfoldable pub join_scopes : List Text → Text
join_scopes [] = []
join_scopes (s ∷ []) = s
join_scopes (s ∷ t ∷ rest) = s ++ lit " " ++ join_scopes (t ∷ rest)

abbrev scope_param : List Text → List (Text × Text)
scope_param [] = []
scope_param (s ∷ rest) = (lit "scope", join_scopes (s ∷ rest)) ∷ []

module _ (lib : UrlLibrary) where
  open lib use {Url, parse, with_query}

  abbrev authorization_params : Text → Text → Text → List Text → PkceChallenge → List (Text × Text)
  authorization_params client_id callback_url state scopes pkce =
      (lit "client_id", client_id)
      ∷ (lit "redirect_uri", callback_url)
      ∷ (lit "response_type", lit "code")
      ∷ (lit "state", state)
      ∷ (lit "code_challenge", pkce.challenge)
      ∷ (lit "code_challenge_method", pkce.method)
      ∷ scope_param scopes

  abbrev authorization_url :
      Text
      → Text
      → Text
      → List Text
      → PkceChallenge
      → Option Url
      → Option Text
      → Option (Text × Text)
  authorization_url client_id callback_url session_key scopes pkce none random = none
  authorization_url client_id callback_url session_key scopes pkce (some u) none = none
  authorization_url client_id callback_url session_key scopes pkce (some u) (some random_part) =
      let state = session_key ++ b'.' ∷ random_part in
      some (with_query u (authorization_params client_id callback_url state scopes pkce), state)

  -- The authorization URL and the state; `none` on an error.
  unfoldable pub build_authorization_url :
      (client_id auth_endpoint callback_url session_key : Text)
      → List Text
      → PkceChallenge
      → (random : Option Text) → Option (Text × Text)
  build_authorization_url client_id auth_endpoint callback_url session_key scopes pkce random =
      authorization_url client_id callback_url session_key scopes pkce (parse auth_endpoint)
        (generate_state random)
