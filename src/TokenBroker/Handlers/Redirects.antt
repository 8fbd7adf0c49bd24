-- ===== src/TokenBroker/Handlers/Redirects.antt =====
-- Where the broker sends a browser (api/handlers.go): the redirect URL of a session, from its creation
-- to the provider's callback.
use kagenti_operator.Prelude.{
  ℕ, ◌≡◌, ◌⊎◌, refl, true, false, ◌||◌, Text, is_empty, Option, some, Bool-cases, inl, inr, List,
  [], ◌∷◌,
}
use kagenti_operator.GoMap
use kagenti_operator.TokenBroker.Errors.{Result, ok, err}
use kagenti_operator.TokenBroker.Session.{Session, Pointer}
use kagenti_operator.TokenBroker.Sessions.{
  SessionManager, find_session, get_session_by_state, fresh_session,
}
use kagenti_operator.TokenBroker.Auth.{JwtClaims}
use kagenti_operator.TokenBroker.Broker.{complete_oauth}
use kagenti_operator.TokenBroker.Http.{
  Response, Body, Handler, UrlPackage, add_query_params, redirect_to,
}
use kagenti_operator.TokenBroker.Handlers.{
  handle_oauth_callback, CallbackQuery, to_backend, callback_completed, callback_at,
  provider_failed,
}

-- A host is one of the list.
abbrev pub Listed : List Text → Text → Type 0
Listed [] host = ⊥
Listed (allowed ∷ rest) host = (allowed ≡ host) ⊎ Listed rest host

module _ (unmarshal : Text → Option JwtClaims) (lib : UrlPackage) (decode_body : Text → Option Text)
    (h : Handler) where
  -- A URL whose host is on the configured list.
  abbrev pub IsAllowed : Text → Type 0
  IsAllowed url =
      (u : lib.Url) × (lib.parse url ≡ some u) × Listed h.allowed_redirect_hosts (lib.hostname u)

  -- What a call that answered 201 has made of the manager.
  abbrev pub Made : SessionManager → ℕ → Text → SessionManager → Type 0
  Made m now url m' =
      (user : Text) × (key : Text) × (find_session m' key
        ≡ some (m.next_pointer, fresh_session m now key user url))
      × ((is_empty url ≡ true) ⊎ IsAllowed url)

-- Where the callback of the provider sends the browser: nowhere, or to the redirect URL of the session
-- that the state of the callback names, with parameters added.
module _ (lib : UrlPackage) where
  abbrev pub SentTo : SessionManager → Text → Body → Type 0
  SentTo m state (redirect_to target) =
      (p : Pointer) × (s : Session) × (params : List (Text × Text)) × (get_session_by_state m state
        ≡ ok (p, s))
      × (is_empty s.backend_session_redirect_url ≡ false)
      × (target ≡ add_query_params lib s.backend_session_redirect_url params)
  SentTo m state _ = Unit {0}

  backend-SentTo :
      (m : SessionManager) (state : Text) (p : Pointer) (s : Session) (params : List (Text × Text))
      (otherwise : Response)
      → get_session_by_state m state ≡ ok (p, s)
      → SentTo m state otherwise.body
      → SentTo m state (to_backend lib s params otherwise).body
  backend-SentTo m state p s params otherwise e o =
      elim (Bool-cases (is_empty s.backend_session_redirect_url)) [
        | inl empty ↦ rw empty o
        | inr there ↦ rw there (p, s, params, e, there, refl)
      ]

  failed-SentTo :
      (m : SessionManager) (q : CallbackQuery) (r : Result (Pointer × Session))
      → get_session_by_state m q.state ≡ r
      → SentTo m q.state (provider_failed lib q r).body
  failed-SentTo m q (err e) f = tt
  failed-SentTo m q (ok (p, s)) f = backend-SentTo m q.state p s _ _ f tt

  completed-SentTo :
      (m : SessionManager) (state : Text) (p : Pointer) (s : Session)
      (out : SessionManager × Result (Unit {0}))
      → get_session_by_state m state ≡ ok (p, s)
      → SentTo m state (callback_completed lib s out).1.body
  completed-SentTo m state p s (m', ok u) e = backend-SentTo m state p s _ _ e tt
  completed-SentTo m state p s (m', err x) e = backend-SentTo m state p s _ _ e tt

  at-SentTo :
      (m : SessionManager) (q : CallbackQuery) (r : Result (Pointer × Session))
      → get_session_by_state m q.state ≡ r
      → SentTo m q.state (callback_at lib m q r).1.body
  at-SentTo m q (err e) f = tt
  at-SentTo m q (ok (p, s)) f =
      completed-SentTo m q.state p s (complete_oauth m s.session_key s.user_id q.code q.state) f

  -- A browser that the callback redirects goes to the redirect URL, which is not empty, of the session
  -- that the state of the callback names, with parameters added; also where the provider or the
  -- completion fails.
  pub handle_oauth_callback-SentTo :
      (m : SessionManager) (q : CallbackQuery)
      → SentTo m q.state (handle_oauth_callback lib m q).1.body
  unfolding handle_oauth_callback
  handle_oauth_callback-SentTo m q = elim (Bool-cases (is_empty q.error_param)) [
    | inl empty ↦ elim (Bool-cases (is_empty q.code || is_empty q.state)) [
      | inl missing ↦ rw (empty, missing) tt
      | inr given ↦ rw (empty, given) (at-SentTo m q (get_session_by_state m q.state) refl)
    ]
    | inr said ↦ elim (Bool-cases (is_empty q.state)) [
      | inl missing ↦ rw (said, missing) tt
      | inr given ↦ rw (said, given) (failed-SentTo m q (get_session_by_state m q.state) refl)
    ]
  ]
