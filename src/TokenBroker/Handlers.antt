-- ===== src/TokenBroker/Handlers.antt =====
-- token-broker/internal/api/handlers.go: the five routes. A handler that blocks is two functions, what
-- it does before it waits and what it answers afterwards; the waiting itself is a schedule of
-- core/broker.go.
pub mod Owners
pub mod Answers
pub mod Redirects
pub mod Callbacks
use kagenti_operator.Prelude.{
  ℕ, Bool, true, false, ◌||◌, ◌&&◌, Text, lit, is_empty, Option, none, some, List, [], ◌∷◌,
  if◌then◌else◌,
}
use kagenti_operator.TokenBroker.Channel.{opened}
use kagenti_operator.TokenBroker.Errors.{
  Error, Result, ok, err, message, Message, max_sessions_per_user_exceeded, is_error, oauth_timeout,
  session_ended, session_expired, oauth_upstream,
}
use kagenti_operator.TokenBroker.Session.{Session, Pointer, Event, error, store}
use kagenti_operator.TokenBroker.Sessions.{
  SessionManager, create_session, validate_session, end_session, get_session, get_session_by_state,
  reset_session_timer, start_session_timer,
}
use kagenti_operator.TokenBroker.Auth.{JwtClaims}
use kagenti_operator.TokenBroker.Broker.{Request, started, complete_oauth}
use kagenti_operator.TokenBroker.Http.{
  Wording, fixed, provider_said, Response, ErrorWriter, Body, event_json, token_json, plain_text,
  write_error, write_backend_error, write_header, http_error, redirect, Identity, identified,
  refused, Handler, parse_and_validate_jwt, is_allowed_redirect_host, UrlPackage, add_query_params,
}

-- HandleCreateSession

-- err.Error() == "max sessions per user exceeded"
abbrev is_limit_error : Error → Bool
is_limit_error (message max_sessions_per_user_exceeded) = true
is_limit_error _ = false

abbrev limit_wording : Wording
limit_wording = fixed (lit "max sessions per user exceeded")

abbrev created : SessionManager × Result (Unit {0}) → SessionManager × Response
created (m, ok u) = (m, write_header 201)
created (m, err e) = (
  m,
  if is_limit_error e
      then write_backend_error 429 (lit "too_many_sessions") limit_wording
      else write_backend_error 500 (lit "internal_error") (fixed (lit "Failed to create session")),
)

module _ (unmarshal : Text → Option JwtClaims) (lib : UrlPackage) (decode_body : Text → Option Text)
    (h : Handler) where
  -- The guard on `backend_session_redirect_url`.
  unfoldable pub redirect_permitted : Text → Bool
  redirect_permitted url = if is_empty url then true else elim h.allowed_redirect_hosts [
    | [] ↦ true
    | allowed ∷ rest ↦ elim (lib.parse url) [
      | none ↦ false
      | some u ↦ is_allowed_redirect_host (allowed ∷ rest) (lib.hostname u)
    ]
  ]

  -- The redirect URL of the request's body; a request without a body has the empty one.
  abbrev pub requested_url : Option Text → Option Text
  requested_url none = some (lit "")
  requested_url (some body) = decode_body body

  abbrev pub create_with :
      SessionManager → ℕ → Text → Text → Option Text → SessionManager × Response
  create_with m now user key none =
      (m, write_backend_error 400 (lit "invalid_request") (fixed (lit "Invalid request body")))
  create_with m now user key (some url) =
      if redirect_permitted url then created (create_session m now key user url) else (
        m,
        write_backend_error 400 (lit "invalid_request")
            (fixed (lit "backend_session_redirect_url host is not permitted")),
      )

  abbrev pub create_as : SessionManager → ℕ → Option Text → Identity → SessionManager × Response
  create_as m now body (refused response) = (m, response)
  create_as m now body (identified user key) = create_with m now user key (requested_url body)

  unfoldable pub handle_create_session :
      SessionManager
      → (now : ℕ) → (auth_header : Text) → (body : Option Text) → SessionManager × Response
  handle_create_session m now auth_header body =
      create_as m now body (parse_and_validate_jwt unmarshal h write_backend_error auth_header)

-- HandleGetToken

-- What the handler answers, or the call of `AcquireToken` that it makes.
pub data TokenRoute : Type 0 where
  answered : Response → TokenRoute
  acquiring : Request → TokenRoute

abbrev pub unauthorized : ErrorWriter → Response
unauthorized err_writer =
    err_writer 401 (lit "unauthorized") (fixed (lit "Invalid session or user mismatch"))

abbrev pub token_request : Text → Text → Text → Result (Unit {0}) → TokenRoute
token_request user key resource_url (err e) = answered (unauthorized write_error)
token_request user key resource_url (ok u) =
    acquiring
      (record { session_key = key; user_id = user; resource_url = resource_url; pc = started })

abbrev pub token_as : SessionManager → Text → Identity → TokenRoute
token_as m resource_url (refused response) = answered response
token_as m resource_url (identified user key) =
    if is_empty resource_url
    then answered
        (write_error 400 (lit "invalid_request") (fixed (lit "Missing X-Server-Url header")))
    else token_request user key resource_url (validate_session m key user)

unfoldable pub handle_get_token :
    (Text → Option JwtClaims)
    → Handler
    → SessionManager
    → (auth_header x_server_url : Text) → TokenRoute
handle_get_token unmarshal h m auth_header x_server_url =
    token_as m x_server_url (parse_and_validate_jwt unmarshal h write_error auth_header)

-- The answer once `AcquireToken` has returned.
unfoldable pub token_response : Result Text → Response
token_response (ok access_token) = record { status = 200; body = token_json access_token }
token_response (err e) =
    if is_error e oauth_timeout
    then write_error 408 (lit "timeout") (fixed (lit "OAuth flow did not complete in time"))
    else if is_error e session_ended || is_error e session_expired
    then write_error 401 (lit "session_expired") (fixed (lit "Session ended or expired"))
    else if is_error e oauth_upstream
    then write_error 502 (lit "oauth_upstream") (fixed (lit "Upstream OAuth provider error"))
    else write_error 500 (lit "internal_error") (fixed (lit "Failed to obtain token"))

-- HandleEvents and handleEventLongPoll

-- `ValidateSession`, `ResetSessionTimer` and `GetSession` take the lock one after the other. The poll is
-- answered after the first, or calls `reset_session_timer` and goes on to `poll_session`, which answers
-- it or lets it wait at a session.
pub data EventRoute : Type 0 where
  done : Response → EventRoute
  resetting : (session_key : Text) → EventRoute
  polling : (session_key : Text) (p : Pointer) → EventRoute

abbrev poll_validated : Text → Result (Unit {0}) → EventRoute
poll_validated key (err e) = done (unauthorized write_backend_error)
poll_validated key (ok u) = resetting key

abbrev poll_as : SessionManager → Identity → EventRoute
poll_as m (refused response) = done response
poll_as m (identified user key) = poll_validated key (validate_session m key user)

unfoldable pub handle_events :
    (Text → Option JwtClaims) → Handler → SessionManager → (auth_header : Text) → EventRoute
handle_events unmarshal h m auth_header =
    poll_as m (parse_and_validate_jwt unmarshal h write_backend_error auth_header)

abbrev poll_at : Text → Result (Pointer × Session) → EventRoute
poll_at key (err e) =
    done (write_backend_error 401 (lit "session_not_found") (fixed (lit "Session not found")))
poll_at key (ok (p, s)) = polling key p

unfoldable pub poll_session : SessionManager → (session_key : Text) → EventRoute
poll_session m key = poll_at key (get_session m key)

-- The arms of the `select`.
pub data PollArm : Type 0 where
  receives sees_done client_gone : PollArm

-- What an arm takes from the session and answers; `none` while the arm is not ready. A client that
-- has gone gets no answer.
abbrev event_taken : Session → List Event → Option (Session × Option Response)
event_taken s [] = none
event_taken s (event ∷ rest) = some (
  record s { event_waiters = record s.event_waiters { buffer = rest } },
  some (record { status = 200; body = event_json event }),
)

unfoldable pub poll_arm : Session → PollArm → Option (Session × Option Response)
poll_arm s receives = event_taken s s.event_waiters.buffer
poll_arm s sees_done = elim s.done [
  | opened ↦ none
  | _ ↦ some (
    s,
    some (record {
      status = 200;
      body = event_json (error (lit "Session expired") (lit "session_expired"));
    }),
  )
]
poll_arm s client_gone = some (s, none)

abbrev poll_end :
    SessionManager
    → ℕ
    → Text
    → Pointer
    → Option (Session × Option Response)
    → Option (SessionManager × Option Response)
poll_end m now key p none = none
poll_end m now key p (some (s', response)) =
    some (start_session_timer (record m { heap = store m.heap p s' }) now key, response)

-- The end of a poll, with the deferred `StartSessionTimer`.
unfoldable pub finish_poll :
    SessionManager
    → (now : ℕ) → (key : Text) → (p : Pointer) → Session
    → PollArm
    → Option (SessionManager × Option Response)
finish_poll m now key p s arm = poll_end m now key p (poll_arm s arm)

-- HandleEndSession

abbrev ended : SessionManager × Result (Unit {0}) → SessionManager × Response
ended (m, err e) =
    (m, write_backend_error 500 (lit "internal_error") (fixed (lit "Failed to end session")))
ended (m, ok u) = (m, write_header 200)

-- `ValidateSession` and `EndSession` take the lock one after the other, and another call may come
-- between them: the handler answers after the first, or goes on to `finish_end_session`.
pub data EndRoute : Type 0 where
  end_answered : Response → EndRoute
  ending : (session_key : Text) → EndRoute

abbrev pub end_validated : Text → Result (Unit {0}) → EndRoute
end_validated key (err e) = end_answered (unauthorized write_backend_error)
end_validated key (ok u) = ending key

abbrev pub end_as : SessionManager → Identity → EndRoute
end_as m (refused response) = end_answered response
end_as m (identified user key) = end_validated key (validate_session m key user)

unfoldable pub handle_end_session :
    (Text → Option JwtClaims) → Handler → SessionManager → (auth_header : Text) → EndRoute
handle_end_session unmarshal h m auth_header =
    end_as m (parse_and_validate_jwt unmarshal h write_backend_error auth_header)

unfoldable pub finish_end_session :
    SessionManager → (session_key : Text) → SessionManager × Response
finish_end_session m key = ended (end_session m key)

-- HandleOAuthCallback

pub record CallbackQuery : Type 0 where
  pub code : Text
  pub state : Text
  pub error_param : Text
  pub error_description : Text

module _ (lib : UrlPackage) where
  -- The redirection to the backend of the session, or another answer where it has no URL.
  abbrev pub to_backend : Session → List (Text × Text) → Response → Response
  to_backend s params otherwise =
      if is_empty s.backend_session_redirect_url
      then otherwise
      else redirect (add_query_params lib s.backend_session_redirect_url params)

  abbrev provider_error : CallbackQuery → Response
  provider_error q = http_error (provider_said q.error_param q.error_description) 400

  abbrev pub provider_failed : CallbackQuery → Result (Pointer × Session) → Response
  provider_failed q (err e) = provider_error q
  provider_failed q (ok (p, s)) =
      to_backend s
        ((lit "oauth_status", lit "error")
          ∷ (lit "error", q.error_param)
          ∷ (lit "error_description", q.error_description)
          ∷ [])
        (provider_error q)

  abbrev callback_failed : Session → Response
  callback_failed s =
      to_backend s
        ((lit "oauth_status", lit "error")
          ∷ (lit "error", lit "token_exchange_failed")
          ∷ (lit "error_description", lit "Failed to exchange authorization code for access token")
          ∷ [])
        (http_error (fixed (lit "Failed to complete OAuth flow")) 500)

  abbrev callback_succeeded : Session → Response
  callback_succeeded s = to_backend s ((lit "oauth_status", lit "success") ∷ []) (record {
    status = 200;
    body = plain_text (fixed (lit "OAuth authorization successful. You may close this window."));
  })

  abbrev pub callback_completed :
      Session → SessionManager × Result (Unit {0}) → SessionManager × Response
  callback_completed s (m, err e) = (m, callback_failed s)
  callback_completed s (m, ok u) = (m, callback_succeeded s)

  abbrev pub callback_at :
      SessionManager → CallbackQuery → Result (Pointer × Session) → SessionManager × Response
  callback_at m q (err e) = (m, http_error (fixed (lit "Invalid or expired OAuth session")) 400)
  callback_at m q (ok (p, s)) =
      callback_completed s (complete_oauth m s.session_key s.user_id q.code q.state)

  unfoldable pub handle_oauth_callback : SessionManager → CallbackQuery → SessionManager × Response
  handle_oauth_callback m q =
      if is_empty q.error_param
      then (if is_empty q.code || is_empty q.state
          then (m, http_error (fixed (lit "Missing code or state parameter")) 400)
          else callback_at m q (get_session_by_state m q.state))
      else (
        m,
        if is_empty q.state
            then provider_error q
            else provider_failed q (get_session_by_state m q.state),
      )
