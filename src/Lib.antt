-- ===== src/Lib.antt =====
-- Parts of the kagenti operator. The token broker (token-broker/) gets OAuth tokens for agents: a
-- backend creates a session for a user, sidecars ask for the token of a resource server, the broker
-- sends the backend an authorization URL, takes the provider's callback, exchanges the code and caches
-- the token. The bundle service (operator/internal/bundleservice/) serves the authorization policies of a
-- workload, which are objects in the cluster, as an OPA bundle. The pod webhook renders the pipeline of
-- plugins of a workload's sidecar; the names and owners of workloads and the tokens of Keycloak's
-- administrator are what it shares with the controllers.
--
-- The parts, and where they are modelled:
--
-- - token-broker/internal/session/manager.go: TokenBroker/Sessions. `SessionManager` is the struct with
--   the heap of session objects, since the map and the requests in flight point to one object; a method
--   is a function of the same name. `sm.mu` makes each method one step. Timers are a list of armed
--   timers with the moment at which each is due; `fire` is the run time that starts a timer's function
--   in a goroutine, and `run_expiring` that goroutine once it has the lock. Sessions/Runs has the
--   histories of calls, Sessions/Invariant what holds between them.
-- - token-broker/internal/session/semaphore.go: TokenBroker/Semaphore. A channel of empty structs is
--   the number of values in it.
-- - token-broker/internal/cache/token_cache.go and jwt_parser.go: TokenBroker/Cache and
--   TokenBroker/JwtExpiry.
-- - token-broker/internal/auth/jwt.go: TokenBroker/Auth.
-- - token-broker/pkg/oauth/pkce.go and token-broker/internal/oauth/client.go: TokenBroker/OAuth and
--   TokenBroker/Exchange.
-- - token-broker/internal/oauth/discovery.go: TokenBroker/Discovery.
-- - token-broker/internal/core/broker.go: TokenBroker/Broker. A call of `AcquireToken` is a `Request`
--   with a program counter. `advance` is one step of it, between two points at which another goroutine
--   may run; what its environment decides is the step's `Input`. Broker/Schedule interleaves any number
--   of requests with the calls of the session manager, the callbacks, the polls of the backend and the
--   ticker that cleans the cache.
-- - token-broker/internal/core/errors.go and interfaces.go: TokenBroker/Errors and TokenBroker/Session.
-- - token-broker/internal/api/handlers.go: TokenBroker/Http has the requests, the responses and the
--   check of the JWT, TokenBroker/Handlers the five routes. A handler that blocks is what it does before
--   it waits and what it answers afterwards. `HandleEndSession` and
--   `HandleEvents` are cut at each point at which they take the lock of the session manager again.
-- - operator/internal/bundleservice/cache/: BundleService/Lru (bundle.go), BundleService/Etag (etag.go)
--   and BundleService/Caches (policy.go). An element of Go's `container/list` is a number that stands for
--   its pointer; Lru/Refinement compares the cache with a list of entries in order of use.
-- - operator/internal/bundleservice/spiffeid/ and identity/: BundleService/SpiffeId.
-- - operator/internal/bundleservice/bundle/: BundleService/Content.
-- - operator/internal/bundleservice/watcher/: BundleService/Watcher. The informer's indexer is what its two
--   lookups return at one moment; a notification changes the three caches.
-- - operator/internal/bundleservice/provider/: BundleService/Provider. A request takes the caches to new
--   caches and an answer. Provider/Freshness has the cluster's policies as a function from keys to objects,
--   what the indexer documents of its lookups, and the histories of requests and notifications.
-- - operator/internal/bundleservice/handler/: BundleService/Routes.
-- - operator/internal/webhook/injector/preset_pipeline.go: Webhook/Preset, with the decoded values in
--   Webhook/Values and the configurations taken over from the base in Webhook/BaseConfigs.
--   precedence.go and injection_decision.go: Webhook/Precedence. namespace_config.go and
--   resolved_config.go: Webhook/NamespaceConfig. keycloak_client_credentials.go: Webhook/Credentials.
-- - operator/internal/workload/owner.go and operator/internal/clientreg/names.go: Workload/Owner and
--   Workload/ClientReg.
-- - operator/internal/keycloak/token_cache.go: Keycloak/AdminTokens, for calls one after the other.
--
-- Prelude, GoMap and Strings have what all of them share: texts as lists of bytes, Go's maps as
-- association lists, and the functions of Go's `strings` and `encoding/base64` that the program calls.
-- Examples has runs on concrete inputs.
--
-- Numbers: clock readings are natural numbers of nanoseconds from the Unix epoch, lengths and counts are
-- below 2^63 in the program and unbounded here, and `exp` is taken to lie in the range in which
-- `time.Unix` does not overflow. No function of the model needs fuel: the loops go over lists.
--
-- Not modelled: logging, the wiring of token-broker/cmd/main.go, `Audience.UnmarshalJSON` inside
-- `json.Unmarshal`, and data races on the fields of a session object that the program writes without a
-- lock. `HandleOAuthCallback` with `CompleteOAuth` calls the session manager several times, and is one
-- function here, as if no other call came between; so is the end of a poll with its deferred
-- `StartSessionTimer`. `net/http`, `net/url`, `encoding/json`, `crypto/sha256`, the random source and the JWT verifier
-- of another module are parameters. In the bundle service requests and notifications follow one another:
-- builds that overlap with each other or with a notification, the semaphore and the singleflight group are
-- not modelled; the informer, the conversion of an object, `sort.Slice`, `filepath.Clean` and the writers of
-- tar and gzip are parameters. `strings.TrimSpace` is modelled for the ASCII spaces. Of the rest of the
-- operator, the change of the pods in the webhook, the controllers, the clients of other services and the
-- wiring are not modelled.
pub mod Prelude
pub mod GoMap
pub mod Strings
pub mod TokenBroker
pub mod BundleService
pub mod Webhook
pub mod Workload
pub mod Keycloak
pub mod Examples
