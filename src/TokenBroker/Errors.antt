-- ===== src/TokenBroker/Errors.antt =====
-- token-broker/internal/core/errors.go, and the errors that the other files of the broker build with
-- `fmt.Errorf`. A format with `%w` keeps the wrapped errors, which is what `errors.Is` looks through.
use kagenti_operator.Prelude.{Bool, true, false, ◌||◌}

pub data Sentinel : Type 0 where
  session_ended session_expired oauth_timeout oauth_upstream : Sentinel

-- The texts of the errors that wrap nothing.
pub data Message : Type 0 where
  max_sessions_per_user_exceeded session_not_found invalid_state_format : Message
  session_not_found_for_state state_mismatch session_user_mismatch : Message
  no_event_waiter no_active_oauth_transaction no_completion_waiter : Message
  missing_authorization_header invalid_authorization_header empty_token : Message
  invalid_jwt_format missing_sub missing_session_key : Message
  invalid_resource_url bad_discovery_status no_authorization_servers : Message
  bad_exchange_status no_access_token library_error : Message

-- The texts in front of `: %w`.
pub data Context : Type 0 where
  session_validation_failed get_session_failed acquire_semaphore_failed : Context
  semaphore_acquisition_cancelled oauth_flow_failed discovery_failed : Context
  pkce_failed authorization_url_failed publish_cancelled : Context
  oauth_completion_failed context_cancelled token_exchange_failed : Context
  session_lookup_failed decode_payload_failed parse_claims_failed bare : Context
  create_request_failed send_request_failed read_response_failed : Context
  parse_response_failed : Context

pub data Error : Type 0 where
  message : Message → Error
  sentinel : Sentinel → Error
  wrap : Context → Error → Error
  wrap_both : Context → Error → Error → Error

-- A value, or the error that Go returns beside a zero value.
pub data Result {ℓ} (A : Type ℓ) : Type ℓ where
  err : Error → Result A
  ok : A → Result A

-- `if err != nil { return err }` before what goes on with the value.
module _ {ℓ κ} {A : Type ℓ} {B : Type κ} where
  infixl 5 ◌>>=◌
  abbrev pub ◌>>=◌ : Result A → (A → Result B) → Result B
  r >>= rest = elim r [ err e ↦ err e | ok a ↦ rest a ]

abbrev pub same_sentinel : Sentinel → Sentinel → Bool
same_sentinel session_ended session_ended = true
same_sentinel session_expired session_expired = true
same_sentinel oauth_timeout oauth_timeout = true
same_sentinel oauth_upstream oauth_upstream = true
same_sentinel _ _ = false

-- errors.Is
unfoldable pub is_error : Error → Sentinel → Bool
is_error (message m) s = false
is_error (sentinel t) s = same_sentinel t s
is_error (wrap c e) s = is_error e s
is_error (wrap_both c d e) s = is_error d s || is_error e s
