-- ===== src/TokenBroker/Exchange.antt =====
-- `ExchangeToken` of token-broker/internal/oauth/client.go. The HTTP client and `encoding/json` are
-- parameters; `expires_in` is an `int`.
use kagenti_operator.Prelude.{
  ◌==◌, Text, lit, is_empty, Option, none, some, List, [], ◌∷◌, if◌then◌else◌, ℤ,
}
use kagenti_operator.TokenBroker.Errors.{
  Result, ok, err, message, wrap, bad_exchange_status, no_access_token, library_error,
  create_request_failed, send_request_failed, read_response_failed, parse_response_failed,
}
use kagenti_operator.TokenBroker.Discovery.{Fetched, not_created, not_sent, answered}

pub record TokenResponse : Type 0 where
  pub access_token : Text
  pub expires_in : ℤ

pub record OAuthClientConfig : Type 0 where
  pub client_id : Text
  pub client_secret : Text

abbrev pub exchange_form :
    OAuthClientConfig → (code code_verifier callback_url : Text) → List (Text × Text)
exchange_form config code code_verifier callback_url =
    (lit "client_id", config.client_id)
    ∷ (lit "client_secret", config.client_secret)
    ∷ (lit "code", code)
    ∷ (lit "code_verifier", code_verifier)
    ∷ (lit "redirect_uri", callback_url)
    ∷ (lit "grant_type", lit "authorization_code")
    ∷ []

abbrev pub token_of : Option TokenResponse → Result (Text × ℤ)
token_of none = err (wrap parse_response_failed (message library_error))
token_of (some r) =
    if is_empty r.access_token
    then err (message no_access_token)
    else ok (r.access_token, r.expires_in)

abbrev pub exchanged_from : (Text → Option TokenResponse) → Fetched → Result (Text × ℤ)
exchanged_from unmarshal not_created = err (wrap create_request_failed (message library_error))
exchanged_from unmarshal not_sent = err (wrap send_request_failed (message library_error))
exchanged_from unmarshal (answered status none) =
    err (wrap read_response_failed (message library_error))
exchanged_from unmarshal (answered status (some body)) =
    if status == 200 then token_of (unmarshal body) else err (message bad_exchange_status)

module _ (post : Text → List (Text × Text) → Fetched)
    (unmarshal : Text → Option TokenResponse) where
  -- The access token and the seconds that it is valid for.
  unfoldable pub exchange_token :
      OAuthClientConfig
      → (token_endpoint code code_verifier callback_url : Text) → Result (Text × ℤ)
  exchange_token config token_endpoint code code_verifier callback_url =
      exchanged_from unmarshal
        (post token_endpoint (exchange_form config code code_verifier callback_url))
