-- ===== src/Examples/Requests.antt =====
-- The routes of api/handlers.go on concrete requests.
use kagenti_operator.Prelude.{
  ℕ, ◌<◌, ◌≤◌, ℤ, ◌≡◌, ◌↔◌, refl, false, beq, Text, lit, is_empty, Option, none, some, List, [],
  ◌∷◌, ◌++◌,
}
use kagenti_operator.GoMap
use kagenti_operator.Strings
use kagenti_operator.TokenBroker.Errors.{Result, ok}
use kagenti_operator.TokenBroker.Session.{
  Session, Pointer, OAuthTransaction, OAuthCompletion, PkceChallenge, store,
}
use kagenti_operator.TokenBroker.Sessions.{
  SessionManager, find_session, get_session_by_state, last_dot, create_session, insert_session,
  new_session_manager,
}
use kagenti_operator.TokenBroker.Sessions.States.{Accepted, get_session_by_state_sound}
use kagenti_operator.TokenBroker.Sessions.Invariant.{IsValid}
use kagenti_operator.TokenBroker.Sessions.Invariant.Changes.{update-IsValid}
use kagenti_operator.TokenBroker.Sessions.Runs.{run, step}
use kagenti_operator.TokenBroker.Sessions.Runs.Preserved.{new-Valid}
use kagenti_operator.TokenBroker.Auth.{JwtClaims, extract_bearer_token}
use kagenti_operator.TokenBroker.OAuth.{
  UrlLibrary, build_authorization_url, generate_state, raw_url_encode, letter,
}
use kagenti_operator.TokenBroker.OAuth.BuiltState.{built_state-found}
use kagenti_operator.TokenBroker.Broker.{
  Request, started, awaiting, exchanging, receives, advance, new_transaction,
}
use kagenti_operator.TokenBroker.Cache.{TokenCache}
use kagenti_operator.TokenBroker.Http.{
  fixed, identified, Handler, VerifiedClaims, UrlPackage, parse_and_validate_jwt, write_error,
  write_backend_error,
}
use kagenti_operator.TokenBroker.Handlers.{
  acquiring, handle_get_token, handle_end_session, finish_end_session, ending, end_answered,
  handle_oauth_callback, CallbackQuery, unauthorized,
}
use kagenti_operator.TokenBroker.Handlers.Owners.{
  Owns, EndsIn, handle_get_token_iff, handle_end_session_lem,
}
use kagenti_operator.TokenBroker.Handlers.Answers.{
  Authenticated, parse_and_validate_jwt-Authenticated, identified-verified,
}
use kagenti_operator.TokenBroker.Handlers.Redirects.{SentTo, handle_oauth_callback-SentTo}
use kagenti_operator.TokenBroker.Handlers.Callbacks.{callback_delivers}
use kagenti_operator.Examples.{k1, alice, manager, session, manager-Valid}

-- A verifier that takes every token for alice's in session `k1`, and one redirect host.
abbrev verify : Text → List Text → Result VerifiedClaims
verify token audiences = ok (record { subject = alice; extra = (lit "session_uid", some k1) ∷ [] })

abbrev handler : Handler
handler = record {
  allowed_redirect_hosts = lit "ui" ∷ [];
  jwt_verifier = some verify;
  jwt_audiences = lit "broker" ∷ [];
}

abbrev no_claims : Text → Option JwtClaims
no_claims decoded = none

abbrev bearer : Text
bearer = lit "Bearer t"

abbrev server : Text
server = lit "https://mcp"

-- URLs that are their own text, whose host is always `ui`.
abbrev urls : UrlPackage
urls = record {
  Url = Text;
  Values = Text;
  parse = λ t. some t;
  hostname = λ u. lit "ui";
  query = λ u. lit "";
  set = λ q key value. q ++ key ++ lit "=" ++ value ++ lit "&";
  encode = λ q. q;
  with_raw_query = λ u q. u ++ lit "?" ++ q;
  string = λ u. u;
}

abbrev whole_body : Text → Option Text
whole_body body = some body

parse_and_validate_jwt-Authenticated_example :
    Authenticated write_error (parse_and_validate_jwt no_claims handler write_error (lit "Basic t"))
parse_and_validate_jwt-Authenticated_example =
    parse_and_validate_jwt-Authenticated no_claims handler write_error (lit "Basic t")

let_through :
    parse_and_validate_jwt no_claims handler write_backend_error bearer ≡ identified alice k1
unfolding parse_and_validate_jwt extract_bearer_token Strings.has_prefix Strings.trim_prefix
    Strings.drop_prefix GoMap.get beq
let_through = refl

identified-verified_example :
    (token : Text) × (claims : VerifiedClaims) × (bearer ≡ lit "Bearer " ++ token)
    × (verify token handler.jwt_audiences ≡ ok claims)
    × (claims.subject ≡ alice)
identified-verified_example =
    identified-verified no_claims handler write_backend_error verify bearer alice k1 refl
      let_through

abbrev call : Request
call = record { session_key = k1; user_id = alice; resource_url = server; pc = started }

handle_get_token_iff_example :
    (handle_get_token no_claims handler manager bearer server ≡ acquiring call) ↔ (
      (user : Text) × (key : Text) × (parse_and_validate_jwt no_claims handler write_error bearer
        ≡ identified user key)
      × (is_empty server ≡ false)
      × Owns manager user key
      × (call ≡ record { session_key = key; user_id = user; resource_url = server; pc = started }))
handle_get_token_iff_example = handle_get_token_iff no_claims handler manager bearer server call

-- The other manager has no session.
handle_end_session_lem_example :
    let route = handle_end_session no_claims handler manager bearer in
    (Owns manager alice k1 → (route ≡ ending k1) × EndsIn manager k1)
    × (¬ Owns manager alice k1 → route ≡ end_answered (unauthorized write_backend_error))
    × ((p : Pointer) (s : Session)
        → find_session (new_session_manager 100 2) k1 ≡ some (p, s)
        → EndsIn (new_session_manager 100 2) k1)
    × (find_session (new_session_manager 100 2) k1 ≡ none
        → finish_end_session (new_session_manager 100 2) k1 ≡ (
          new_session_manager 100 2,
          write_backend_error 500 (lit "internal_error") (fixed (lit "Failed to end session")),
        ))
handle_end_session_lem_example =
    handle_end_session_lem no_claims handler manager (new_session_manager 100 2) bearer alice k1
      manager-Valid (new-Valid 100 2) let_through

abbrev fresh : SessionManager
fresh = new_session_manager 100 2

-- A session with a transaction in flight.
abbrev pkce : PkceChallenge
pkce = record { verifier = lit "v"; challenge = lit "c"; method = lit "S256" }

abbrev transaction : OAuthTransaction
transaction = record (new_transaction server (lit "a") (lit "t") [] pkce) { state = lit "k1.SGk" }

abbrev in_flight : Session
in_flight = record session { active_oauth_tx = some transaction }

abbrev busy : SessionManager
busy = record manager { heap = store manager.heap 0 in_flight }

manager-object : manager.heap 0 ≡ some session
unfolding run step create_session insert_session new_session_manager GoMap.get
manager-object = refl

busy-IsValid : IsValid busy
busy-IsValid =
    update-IsValid manager manager-Valid.sessions_valid 0 session in_flight manager-object (record {
      same_key = refl;
      same_user = refl;
      same_done = refl;
      same_waiters = refl;
      same_signal = refl;
    })

busy-found : find_session busy k1 ≡ some (0, in_flight)
unfolding run step create_session insert_session find_session new_session_manager GoMap.get
    GoMap.put beq
busy-found = refl

busy-state : get_session_by_state busy (lit "k1.SGk") ≡ ok (0, in_flight)
unfolding get_session_by_state last_dot run step create_session insert_session find_session
    new_session_manager GoMap.get GoMap.put beq
busy-state = refl

get_session_by_state_sound_example : Accepted busy (lit "k1.SGk") 0 in_flight
get_session_by_state_sound_example =
    get_session_by_state_sound busy (lit "k1.SGk") 0 in_flight busy-IsValid busy-state

abbrev url_library : UrlLibrary
url_library = record { Url = Text; parse = λ t. some t; with_query = λ u params. u }

built :
    build_authorization_url url_library
      (lit "client")
      (lit "a")
      (lit "cb")
      k1
      []
      pkce
      (some (lit "Hi"))
    ≡ some (lit "a", lit "k1.SGk")
unfolding build_authorization_url generate_state raw_url_encode letter
built = refl

built_state-found_example : get_session_by_state busy (lit "k1.SGk") ≡ ok (0, in_flight)
built_state-found_example =
    built_state-found url_library (lit "client") (lit "a") (lit "cb") k1 [] pkce (some (lit "Hi"))
      (lit "a") (lit "k1.SGk") busy 0 in_flight transaction built busy-found refl refl

abbrev query : CallbackQuery
query = record {
  code = lit "code";
  state = lit "k1.SGk";
  error_param = lit "";
  error_description = lit "";
}

handle_oauth_callback-SentTo_example :
    SentTo urls busy (lit "k1.SGk") (handle_oauth_callback urls busy query).1.body
handle_oauth_callback-SentTo_example = handle_oauth_callback-SentTo urls busy query

callback_delivers_example :
    let m' = (handle_oauth_callback urls busy query).0 in
    let completion : OAuthCompletion = record {
      code = lit "code";
      state = lit "k1.SGk";
      failure = none;
    } in
    (lit "k1.SGk" ≡ query.state)
    × (0 < 1
        → m' ≡ record busy {
          heap = store busy.heap 0 (record in_flight {
            active_oauth_tx = some (record transaction {
              completion_chan = record transaction.completion_chan { buffer = completion ∷ [] };
            });
          });
        })
    × (1 ≤ 0 → m' ≡ busy)
    × (transaction.completion_chan.buffer ≡ []
        → 0 < 1
        → (unmarshal_exp : Text → Option ℤ) (callback_url : Text) (now : ℕ) (c : TokenCache)
          (r : Request)
        → (advance unmarshal_exp callback_url now
            (record { manager = m'; cache = c })
            (record r { pc = awaiting 0 })
            receives).1
          ≡ exchanging 0 (lit "code"))
callback_delivers_example =
    callback_delivers urls busy query 0 in_flight transaction busy-IsValid refl refl refl busy-state
      refl refl
