-- ===== src/TokenBroker/Discovery.antt =====
-- token-broker/internal/oauth/discovery.go. `net/url`, the HTTP client and `encoding/json` are
-- parameters: what a URL parses to, what a GET answers, and what a body decodes to.
pub mod Failures
use kagenti_operator.Prelude.{
  ℕ, Bool, true, false, ◌&&◌, ◌||◌, ◌==◌, Text, lit, is_empty, beq, Option, none, some, List, [],
  ◌∷◌, ◌++◌, if◌then◌else◌,
}
use kagenti_operator.GoMap
use kagenti_operator.GoMap.{GoMap}
use kagenti_operator.TokenBroker.Errors.{
  Error, Result, ok, err, message, wrap, invalid_resource_url, bad_discovery_status,
  no_authorization_servers, library_error, create_request_failed, send_request_failed,
  read_response_failed, parse_response_failed,
}

-- How a request ends: it cannot be built, it is not answered, or it is answered with a status and a
-- body, which is `none` where reading it fails.
pub data Fetched : Type 0 where
  not_created not_sent : Fetched
  answered : (status : ℕ) (body : Option Text) → Fetched

pub record ResourceConfig : Type 0 where
  pub scopes : List Text
  pub authorization_endpoint : Text
  pub token_endpoint : Text

pub record DiscovererConfig : Type 0 where
  pub authorization_endpoint : Text
  pub token_endpoint : Text
  pub scopes_supported : List Text
  pub resource_scopes : GoMap (List Text)
  pub resource_configs : GoMap ResourceConfig

-- The scheme and the host of a URL.
pub record ParsedUrl : Type 0 where
  pub scheme : Text
  pub host : Text

pub record Metadata : Type 0 where
  pub authorization_servers : List Text
  pub scopes_supported : List Text

-- strings.TrimSuffix(s, "/")
unfoldable pub trim_slash : Text → Text
trim_slash [] = []
trim_slash (c ∷ []) = if c == b'/' then [] else c ∷ []
trim_slash (c ∷ d ∷ s) = c ∷ trim_slash (d ∷ s)

-- The authorization endpoint, the token endpoint and the scopes.
abbrev pub Endpoints : Type 0
Endpoints = Text × Text × List Text

abbrev pub has_both : (authorization_endpoint token_endpoint : Text) → Bool
has_both authorization_endpoint token_endpoint =
    if is_empty authorization_endpoint
    then false
    else if is_empty token_endpoint
    then false
    else true

-- A legacy override replaces the scopes wherever there is one.
abbrev pub legacy_scopes : Option (List Text) → List Text → List Text
legacy_scopes none scopes = scopes
legacy_scopes (some override) scopes = override

abbrev pub chosen_scopes : List Text → List Text → List Text
chosen_scopes [] otherwise = otherwise
chosen_scopes (s ∷ rest) otherwise = s ∷ rest

-- ResourceConfigs, then ResourceScopes, then what is given.
abbrev pub resolve_scopes : Option ResourceConfig → Option (List Text) → List Text → List Text
resolve_scopes none override scopes = legacy_scopes override scopes
resolve_scopes (some cfg) override scopes = chosen_scopes cfg.scopes (legacy_scopes override scopes)

abbrev pub or_else : Text → Text → Text
or_else override otherwise = if is_empty override then otherwise else override

abbrev pub override_endpoints : Option ResourceConfig → Text → Text → Text × Text
override_endpoints none auth token = (auth, token)
override_endpoints (some cfg) auth token =
    (or_else cfg.authorization_endpoint auth, or_else cfg.token_endpoint token)

abbrev pub is_http : Option ParsedUrl → Bool
is_http none = false
is_http (some u) =
    if beq u.scheme (lit "http") || beq u.scheme (lit "https")
    then (if is_empty u.host then false else true)
    else false

module _ (parse : Text → Option ParsedUrl) (get : Text → Fetched)
    (unmarshal : Text → Option Metadata) where
  abbrev pub discovered_from :
      Option ResourceConfig → Option (List Text) → Metadata → List Text → Result Endpoints
  discovered_from cfg override metadata [] = err (message no_authorization_servers)
  discovered_from cfg override metadata (server ∷ rest) =
      let base = trim_slash server in
      let (auth, token) =
        override_endpoints cfg (base ++ lit "/authorize") (base ++ lit "/access_token") in
      ok (auth, token, resolve_scopes cfg override metadata.scopes_supported)

  abbrev pub decoded :
      Option ResourceConfig → Option (List Text) → Option Metadata → Result Endpoints
  decoded cfg override none = err (wrap parse_response_failed (message library_error))
  decoded cfg override (some metadata) =
      discovered_from cfg override metadata metadata.authorization_servers

  abbrev pub fetched : Option ResourceConfig → Option (List Text) → Fetched → Result Endpoints
  fetched cfg override not_created = err (wrap create_request_failed (message library_error))
  fetched cfg override not_sent = err (wrap send_request_failed (message library_error))
  fetched cfg override (answered status body) =
      if status == 200
      then elim body [
        | none ↦ err (wrap read_response_failed (message library_error))
        | some bytes ↦ decoded cfg override (unmarshal bytes)
      ]
      else err (message bad_discovery_status)

  abbrev pub well_known : Text → Text
  well_known resource_url = trim_slash resource_url ++ lit "/.well-known/oauth-protected-resource"

  abbrev pub discover_remotely : DiscovererConfig → Text → Result Endpoints
  discover_remotely config resource_url =
      if is_http (parse resource_url)
      then fetched (GoMap.get config.resource_configs resource_url)
          (GoMap.get config.resource_scopes resource_url) (get (well_known resource_url))
      else err (message invalid_resource_url)

  abbrev pub discover_globally : DiscovererConfig → Text → Result Endpoints
  discover_globally config resource_url =
      if has_both config.authorization_endpoint config.token_endpoint
      then ok (
        config.authorization_endpoint,
        config.token_endpoint,
        resolve_scopes (GoMap.get config.resource_configs resource_url)
            (GoMap.get config.resource_scopes resource_url) config.scopes_supported,
      )
      else discover_remotely config resource_url

  abbrev pub discover_for : DiscovererConfig → Text → Option ResourceConfig → Result Endpoints
  discover_for config resource_url none = discover_globally config resource_url
  discover_for config resource_url (some cfg) =
      if has_both cfg.authorization_endpoint cfg.token_endpoint
      then ok (cfg.authorization_endpoint, cfg.token_endpoint, cfg.scopes)
      else discover_globally config resource_url

  unfoldable pub discover_endpoints : DiscovererConfig → (resource_url : Text) → Result Endpoints
  discover_endpoints config resource_url =
      discover_for config resource_url (GoMap.get config.resource_configs resource_url)

-- SendSyntheticRequest: whether the server answers 401. `post` sends the request without a token.
unfoldable pub send_synthetic_request : (Text → Fetched) → (resource_url : Text) → Result Bool
send_synthetic_request post resource_url = elim (post (trim_slash resource_url ++ lit "/mcp")) [
  | not_created ↦ err (wrap create_request_failed (message library_error))
  | not_sent ↦ err (wrap send_request_failed (message library_error))
  | answered status body ↦ ok (status == 401)
]
