-- ===== src/TokenBroker/Session.antt =====
-- The session types of token-broker/internal/core/interfaces.go, and its heap: the manager's map and
-- the requests in flight hold pointers to one session object. Time is in nanoseconds.
use kagenti_operator.Prelude.{ℕ, Text, Option, none, some, List, ◌==◌, if◌then◌else◌}
use kagenti_operator.GoMap.{GoMap}
use kagenti_operator.TokenBroker.Channel.{Channel, Signal}
use kagenti_operator.TokenBroker.Errors.{Error}
use kagenti_operator.TokenBroker.Semaphore.{SimpleSemaphore}

-- Event.Type, with the fields that the type uses.
pub data Event : Type 0 where
  oauth_url_ready : (auth_url : Text) → Event
  error : (text code : Text) → Event

pub record TokenResult : Type 0 where
  pub token : Text
  pub failure : Option Text

pub data OAuthTxStatus : Type 0 where
  waiting_code completed failed : OAuthTxStatus

pub record OAuthCompletion : Type 0 where
  pub code : Text
  pub state : Text
  pub failure : Option Error

pub record PkceChallenge : Type 0 where
  pub verifier : Text
  pub challenge : Text
  pub method : Text

pub record OAuthTransaction : Type 0 where
  pub resource_url : Text
  pub auth_endpoint : Text
  pub token_endpoint : Text
  pub scopes : List Text
  pub pkce : PkceChallenge
  pub code_verifier : Text
  pub state : Text
  pub callback_url : Text
  pub auth_url : Text
  pub status : OAuthTxStatus
  pub completion_chan : Channel OAuthCompletion

pub record Session : Type 0 where
  pub session_key : Text
  pub user_id : Text
  pub backend_session_redirect_url : Text
  pub created_at : ℕ
  pub last_poll_at : ℕ
  pub expiration_deadline : ℕ
  pub acquisition_semaphore : SimpleSemaphore
  pub event_waiters : Channel Event
  pub token_waiters : GoMap (List (Channel TokenResult))
  pub done : Signal
  pub active_oauth_tx : Option OAuthTransaction

-- *Session
abbrev pub Pointer : Type 0
Pointer = ℕ

abbrev pub Heap : Type 0
Heap = Pointer → Option Session

abbrev pub store : Heap → Pointer → Session → Heap
store h p s q = if p == q then some s else h q

abbrev pub empty_heap : Heap
empty_heap p = none
