-- ===== src/TokenBroker/OAuth/BuiltState.antt =====
-- The OAuth state, from `BuildAuthorizationURL` (oauth/client.go) to `GetSessionByState`
-- (session/manager.go).
use kagenti_operator.Prelude.{
  ℕ, ◌≡◌, refl, false, Text, Option, some, Option-cases, inl, inr, List, [], ◌∷◌, ◌++◌, ◌==◌,
  beq_iff, arith,
}
use kagenti_operator.TokenBroker.Errors.{ok}
use kagenti_operator.TokenBroker.Session.{Session, Pointer, PkceChallenge, OAuthTransaction}
use kagenti_operator.TokenBroker.Sessions.{SessionManager, find_session, get_session_by_state}
use kagenti_operator.TokenBroker.Sessions.States.{has_dot, get_session_by_state-append}
use kagenti_operator.TokenBroker.OAuth.{
  letter, raw_url_encode, generate_state, UrlLibrary, build_authorization_url,
}

letter_no_dot : (v : ℕ) → (letter v == b'.') ≡ false
unfolding letter
letter_no_dot v = ground arith

has_dot-encode : (bs : Text) → has_dot (raw_url_encode bs) ≡ false
unfolding has_dot raw_url_encode
has_dot-encode [] = refl
has_dot-encode (a ∷ []) = rw (letter_no_dot, letter_no_dot) refl
has_dot-encode (a ∷ b ∷ []) = rw (letter_no_dot, letter_no_dot, letter_no_dot) refl
has_dot-encode (a ∷ b ∷ c ∷ rest) =
    rw (letter_no_dot, letter_no_dot, letter_no_dot, letter_no_dot) (has_dot-encode rest)

-- The state of an authorization URL is the session key, a `.`, and a text without `.`.
built_state :
    (lib : UrlLibrary) (client_id auth_endpoint callback_url key : Text) (scopes : List Text)
    (pkce : PkceChallenge) (random : Option Text) (url state : Text)
    → build_authorization_url lib client_id auth_endpoint callback_url key scopes pkce random
      ≡ some (url, state)
    → (random_part : Text) × (state ≡ key ++ b'.' ∷ random_part) × (has_dot random_part ≡ false)
unfolding build_authorization_url generate_state
built_state lib client_id auth_endpoint callback_url key scopes pkce random url state e =
    elim (Option-cases (lib.parse auth_endpoint)) [
      | inl f ↦ absurd (ground arith)
      | inr (u, f) ↦ elim (Option-cases random) [
        | inl g ↦ absurd (ground arith)
        | inr (bytes, g) ↦ (raw_url_encode bytes, ground arith, has_dot-encode bytes)
      ]
    ]

-- A session whose transaction has the state that `BuildAuthorizationURL` made for its key is found by
-- that state, whatever bytes the key has and whatever the random bytes are.
pub built_state-found :
    (lib : UrlLibrary) (client_id auth_endpoint callback_url key : Text) (scopes : List Text)
    (pkce : PkceChallenge) (random : Option Text) (url state : Text) (m : SessionManager)
    (p : Pointer) (s : Session) (tx : OAuthTransaction)
    → build_authorization_url lib client_id auth_endpoint callback_url key scopes pkce random
      ≡ some (url, state)
    → find_session m key ≡ some (p, s)
    → s.active_oauth_tx ≡ some tx
    → tx.state ≡ state
    → get_session_by_state m state ≡ ok (p, s)
built_state-found lib client_id auth_endpoint callback_url key scopes pkce random url state m p s tx
      e there active same =
    let (random_part, split, undotted) =
      built_state lib client_id auth_endpoint callback_url key scopes pkce random url state e in
    rw split (
      rw (get_session_by_state-append m key random_part undotted)
        (rw (there, active) (ground (arith, beq_iff tx.state (key ++ b'.' ∷ random_part)))))
