-- ===== src/TokenBroker/Handlers/Owners.antt =====
-- Who gets a token from a session and who ends it (api/handlers.go over session/manager.go).
use kagenti_operator.Prelude.{
  ◌≡◌, ◌⊎◌, ◌↔◌, refl, false, Text, lit, is_empty, beq, Option, none, some, Bool-cases, inl, inr,
  if◌then◌else◌, arith,
}
use kagenti_operator.TokenBroker.Errors.{Error, Result, ok, err}
use kagenti_operator.TokenBroker.Session.{Session, Pointer}
use kagenti_operator.TokenBroker.Sessions.{
  SessionManager, find_session, validate_session, end_session,
}
use kagenti_operator.TokenBroker.Sessions.Runs.{Valid}
use kagenti_operator.TokenBroker.Sessions.Endings.{validate_session_iff, end_session-found}
use kagenti_operator.TokenBroker.Auth.{JwtClaims}
use kagenti_operator.TokenBroker.Broker.{Request, started}
use kagenti_operator.TokenBroker.Http.{
  Identity, identified, refused, Handler, parse_and_validate_jwt, write_error, write_backend_error,
  write_header, fixed,
}
use kagenti_operator.TokenBroker.Handlers.{
  acquiring, handle_get_token, handle_end_session, finish_end_session, ending, end_answered,
  unauthorized, token_as,
}

-- The session under `key` is there and is the user's.
abbrev pub Owns : SessionManager → (user key : Text) → Type 0
Owns m user key =
    (p : Pointer) × (s : Session) × (find_session m key ≡ some (p, s)) × (s.user_id ≡ user)

Result-cases {ℓ} :
    {A : Type ℓ} (r : Result A) → ((a : A) × (r ≡ ok a)) ⊎ ((e : Error) × (r ≡ err e))
Result-cases (ok a) = inl (a, refl)
Result-cases (err e) = inr (e, refl)

-- `AcquireToken` is called exactly for a caller who was let through, names a resource, and has a
-- session under its session key that is its own; the call is for that session, user and resource.
pub handle_get_token_iff :
    (unmarshal : Text → Option JwtClaims) (h : Handler) (m : SessionManager)
    (auth_header url : Text) (r : Request)
    → (handle_get_token unmarshal h m auth_header url ≡ acquiring r) ↔ (
        (user : Text) × (key : Text) × (parse_and_validate_jwt unmarshal h write_error auth_header
          ≡ identified user key)
        × (is_empty url ≡ false)
        × Owns m user key
        × (r ≡ record { session_key = key; user_id = user; resource_url = url; pc = started }))
unfolding handle_get_token
handle_get_token_iff unmarshal h m auth_header url r =
    (λ e. there (parse_and_validate_jwt unmarshal h write_error auth_header) refl e, λ g. back g)
  where
    Called : Type 0
    Called =
        (user : Text) × (key : Text) × (parse_and_validate_jwt unmarshal h write_error auth_header
          ≡ identified user key)
        × (is_empty url ≡ false)
        × Owns m user key
        × (r ≡ record { session_key = key; user_id = user; resource_url = url; pc = started })

    there :
        (i : Identity)
        → parse_and_validate_jwt unmarshal h write_error auth_header ≡ i
        → token_as m url i ≡ acquiring r
        → Called
    there (refused response) f e = absurd (ground arith)
    there (identified user key) f e = elim (Bool-cases (is_empty url)) [
      | inl empty ↦ absurd (ground arith)
      | inr named ↦ elim (Result-cases (validate_session m key user)) [
        | inl (u, v) ↦ (user, key, f, named, (validate_session_iff m key user).0 v, ground arith)
        | inr (x, v) ↦ absurd (ground arith)
      ]
    ]

    back :
        Called
        → token_as m url (parse_and_validate_jwt unmarshal h write_error auth_header) ≡ acquiring r
    back (user, key, f, named, owns, same) =
        rw f (ground (arith, (validate_session_iff m key user).1 owns))

-- A 200, after which the key leads nowhere any more, and every other key where it led.
abbrev pub EndsIn : SessionManager → (key : Text) → Type 0
EndsIn m key =
    let out = finish_end_session m key in
    (out.1 ≡ write_header 200)
    × ((k : Text) → find_session out.0 k ≡ (if beq key k then none else find_session m k))

-- The handler once it has found that the session is its caller's.
finish_end_session-found :
    (m : SessionManager) (key : Text) (p : Pointer) (s : Session)
    → Valid m
    → find_session m key ≡ some (p, s)
    → EndsIn m key
unfolding finish_end_session
finish_end_session-found m key p s v e =
    let gone = end_session-found m key p s v e in
    (ground (arith, gone.0), λ k. ground (arith, gone.0, gone.1 k))

finish_end_session-missing :
    (m : SessionManager) (key : Text)
    → find_session m key ≡ none
    → finish_end_session m key
      ≡ (m, write_backend_error 500 (lit "internal_error") (fixed (lit "Failed to end session")))
unfolding finish_end_session end_session
finish_end_session-missing m key e = ground arith

-- `POST /sessions/end` on every branch, for a caller who was let through; `m` is the manager at
-- `ValidateSession`, `m'` the one at `EndSession`, which other calls may have changed. Anybody but the
-- session's user gets a 401, without a call of `EndSession`. For the session's user it is called with the
-- key of the caller's token: if the session is still there it answers 200, and the key leads nowhere any
-- more, while every other key leads where it led; if it has gone meanwhile it answers 500, and nothing
-- changes. Where no other call comes between, the session's user gets the 200.
pub handle_end_session_lem :
    (unmarshal : Text → Option JwtClaims) (h : Handler) (m m' : SessionManager)
    (auth_header user key : Text)
    → Valid m
    → Valid m'
    → parse_and_validate_jwt unmarshal h write_backend_error auth_header ≡ identified user key
    → let route = handle_end_session unmarshal h m auth_header in
      (Owns m user key → (route ≡ ending key) × EndsIn m key)
      × (¬ Owns m user key → route ≡ end_answered (unauthorized write_backend_error))
      × ((p : Pointer) (s : Session) → find_session m' key ≡ some (p, s) → EndsIn m' key)
      × (find_session m' key ≡ none
          → finish_end_session m' key ≡ (
            m',
            write_backend_error 500 (lit "internal_error") (fixed (lit "Failed to end session")),
          ))
unfolding handle_end_session
handle_end_session_lem unmarshal h m m' auth_header user key v v' f = (
  λ owns.
      let (p, s, e, same) = owns in
      let valid = (validate_session_iff m key user).1 owns in
      (rw (f, handle_end_session) (rw valid refl), finish_end_session-found m key p s v e),
  λ foreign. elim (Result-cases (validate_session m key user)) [
    | inl (u, valid) ↦ absurd (foreign ((validate_session_iff m key user).0 valid))
    | inr (e, invalid) ↦ rw (f, handle_end_session) (rw invalid refl)
  ],
  λ p s e. finish_end_session-found m' key p s v' e,
  finish_end_session-missing m' key,
)
