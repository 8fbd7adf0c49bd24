-- ===== src/Examples/Endpoints.antt =====
-- Discovery and the exchange of a code on concrete configurations (oauth/discovery.go, oauth/client.go).
use kagenti_operator.Prelude.{Text, lit, Option, none, some, List, [], ◌∷◌, ℤ, pos}
use kagenti_operator.GoMap
use kagenti_operator.TokenBroker.Session.{Session}
use kagenti_operator.TokenBroker.Broker
use kagenti_operator.TokenBroker.Broker.{Request}
use kagenti_operator.TokenBroker.Discovery.{
  Fetched, not_sent, answered, DiscovererConfig, ParsedUrl, Metadata,
}
use kagenti_operator.TokenBroker.Exchange.{TokenResponse, OAuthClientConfig}
use kagenti_operator.Examples.{k1, alice}

abbrev server : Text
server = lit "https://mcp"

-- No token endpoint is configured, so that the resource server is asked.
abbrev unconfigured : DiscovererConfig
unconfigured = record {
  authorization_endpoint = lit "https://idp/authorize";
  token_endpoint = lit "";
  scopes_supported = lit "repo" ∷ [];
  resource_scopes = [];
  resource_configs = [];
}

abbrev https_url : Text → Option ParsedUrl
https_url t = some (record { scheme = lit "https"; host = lit "mcp" })

abbrev no_url : Text → Option ParsedUrl
no_url t = none

abbrev unreachable : Text → Fetched
unreachable t = not_sent

abbrev empty_answer : Text → Fetched
empty_answer t = answered 200 (some (lit ""))

abbrev no_metadata : Text → Option Metadata
no_metadata t = none

abbrev no_claims : Text → Option ℤ
no_claims decoded = none

abbrev request : Request
request = record {
  session_key = k1;
  user_id = alice;
  resource_url = server;
  pc = Broker.discovering 0;
}

abbrev posted : Text → List (Text × Text) → Fetched
posted endpoint form = answered 200 (some (lit "{}"))

abbrev token_json : Text → Option TokenResponse
token_json body = some (record { access_token = lit "t"; expires_in = pos 60 })

abbrev client : OAuthClientConfig
client = record { client_id = lit "id"; client_secret = lit "secret" }
