-- ===== src/TokenBroker/Sessions.antt =====
-- token-broker/internal/session/manager.go: `SessionManager`, one function for each method. Each
-- method holds `sm.mu` from its first line to its return, so it is one step. The clock's reading is
-- the argument `now`. `time.AfterFunc` arms a timer; when it is due, its goroutine joins `expiring`
-- and calls `ExpireSession`, which `Stop` no longer prevents.
pub mod Invariant
pub mod Timers
pub mod Shutdown
pub mod Runs
pub mod Histories
pub mod Endings
pub mod Expiry
pub mod States
use kagenti_operator.Prelude.{
  ℕ, zero, suc, ◌+◌, Bool, false, Text, beq, lit, if◌then◌else◌, Option, none, some, List, [], ◌∷◌,
  ◌++◌, map, leb, ◌==◌, length, get_elem?, take,
}
use kagenti_operator.GoMap
use kagenti_operator.GoMap.{GoMap}
use kagenti_operator.TokenBroker.Channel.{
  Channel, Signal, opened, closed, panicked, close_signal, make_channel, try_send, close_channel,
}
use kagenti_operator.TokenBroker.Errors.{
  Result, ok, err, message, max_sessions_per_user_exceeded, session_not_found, invalid_state_format,
  session_not_found_for_state, state_mismatch, session_user_mismatch,
}
use kagenti_operator.TokenBroker.Semaphore.{new_semaphore}
use kagenti_operator.TokenBroker.Session.{
  Session, Pointer, Heap, store, empty_heap, OAuthTransaction, TokenResult, error,
}

pub record Timer : Type 0 where
  pub id : ℕ
  pub key : Text
  pub due : ℕ

pub record SessionManager : Type 0 where
  pub heap : Heap
  pub next_pointer : Pointer
  pub sessions : GoMap Pointer
  pub user_sessions : GoMap (List Text)
  pub session_timeout : ℕ
  pub max_sessions_per_user : ℕ
  pub timers : GoMap ℕ
  pub armed : List Timer
  pub next_timer : ℕ
  pub expiring : List Text
  pub shutdown_chan : Signal

unfoldable pub new_session_manager : ℕ → ℕ → SessionManager
new_session_manager session_timeout max_sessions_per_user = record {
  heap = empty_heap;
  next_pointer = 0;
  sessions = [];
  user_sessions = [];
  session_timeout = session_timeout;
  max_sessions_per_user = max_sessions_per_user;
  timers = [];
  armed = [];
  next_timer = 0;
  expiring = [];
  shutdown_chan = opened;
}

-- session, ok := sm.sessions[sessionKey]
unfoldable pub find_session : SessionManager → Text → Option (Pointer × Session)
find_session m key = elim (GoMap.get m.sessions key) [
  | none ↦ none
  | some p ↦ elim (m.heap p) [ none ↦ none | some s ↦ some (p, s) ]
]

abbrev pub fresh_session : SessionManager → ℕ → Text → Text → Text → Session
fresh_session m now key user url = record {
  session_key = key;
  user_id = user;
  backend_session_redirect_url = url;
  created_at = now;
  last_poll_at = now;
  expiration_deadline = now + m.session_timeout;
  acquisition_semaphore = new_semaphore 1;
  event_waiters = make_channel 1;
  token_waiters = [];
  done = opened;
  active_oauth_tx = none;
}

-- A missing list is nil, and `append` takes nil for the empty list.
abbrev pub keys_of : Option (List Text) → List Text
keys_of none = []
keys_of (some keys) = keys

-- What `CreateSession` does once the limit is passed.
unfoldable pub insert_session : SessionManager → ℕ → Text → Text → Text → SessionManager
insert_session m now key user url = record m {
  heap = store m.heap m.next_pointer (fresh_session m now key user url);
  next_pointer = suc m.next_pointer;
  sessions = GoMap.put m.sessions key m.next_pointer;
  user_sessions =
      GoMap.put m.user_sessions user (keys_of (GoMap.get m.user_sessions user) ++ key ∷ []);
}

-- The guard looks only at a user who has an entry.
abbrev pub at_limit : ℕ → Option (List Text) → Bool
at_limit limit none = false
at_limit limit (some existing) = leb limit (length existing)

unfoldable pub create_session :
    SessionManager → ℕ → Text → Text → Text → SessionManager × Result (Unit {0})
create_session m now key user url =
    if at_limit m.max_sessions_per_user (GoMap.get m.user_sessions user)
    then (m, err (message max_sessions_per_user_exceeded))
    else (insert_session m now key user url, ok tt)

unfoldable pub get_session : SessionManager → Text → Result (Pointer × Session)
get_session m key = elim (find_session m key) [
  | none ↦ err (message session_not_found)
  | some found ↦ ok found
]

-- The loop from the last byte down: the position of the last `.` below `i`.
unfoldable pub last_dot : Text → ℕ → Option ℕ
last_dot state zero = none
last_dot state (suc i) =
    let rest = last_dot state i in
    elim (get_elem? state i) [ none ↦ rest | some c ↦ if c == b'.' then some i else rest ]

-- session.ActiveOAuthTx == nil || session.ActiveOAuthTx.State != state
abbrev pub state_matches : Option OAuthTransaction → Text → Bool
state_matches none state = false
state_matches (some tx) state = beq tx.state state

abbrev pub matching_session : Option (Pointer × Session) → Text → Result (Pointer × Session)
matching_session none state = err (message session_not_found_for_state)
matching_session (some (p, s)) state =
    if state_matches s.active_oauth_tx state then ok (p, s) else err (message state_mismatch)

unfoldable pub get_session_by_state : SessionManager → Text → Result (Pointer × Session)
get_session_by_state m state = elim (last_dot state (length state)) [
  | none ↦ err (message invalid_state_format)
  | some i ↦ matching_session (find_session m (take i state)) state
]

unfoldable pub validate_session : SessionManager → Text → Text → Result (Unit {0})
validate_session m key user = elim (find_session m key) [
  | none ↦ err (message session_not_found)
  | some (p, s) ↦ if beq s.user_id user then ok tt else err (message session_user_mismatch)
]

-- timer.Stop()
unfoldable pub stop_armed : ℕ → List Timer → List Timer
stop_armed i [] = []
stop_armed i (t ∷ ts) = let rest = stop_armed i ts in if t.id == i then rest else t ∷ rest

-- if timer, ok := sm.timers[sessionKey]; ok { timer.Stop() }
abbrev pub stop_found : Option ℕ → List Timer → List Timer
stop_found none ts = ts
stop_found (some i) ts = stop_armed i ts

unfoldable pub stop_timer : SessionManager → Text → SessionManager
stop_timer m key = record m {
  armed = stop_found (GoMap.get m.timers key) m.armed;
  timers = GoMap.remove m.timers key;
}

abbrev pub fail_waiter : Text → Channel TokenResult → Channel TokenResult
fail_waiter reason ch =
    close_channel (try_send ch (record { token = lit ""; failure = some reason }))

unfoldable pub fail_token_waiters :
    Text → GoMap (List (Channel TokenResult)) → GoMap (List (Channel TokenResult))
fail_token_waiters reason [] = []
fail_token_waiters reason ((url, waiters) ∷ rest) =
    (url, map (fail_waiter reason) waiters) ∷ fail_token_waiters reason rest

-- What `cleanupSessionLocked` does to the session object.
abbrev pub notified : Session → Text → Session
notified s reason = record s {
  token_waiters = fail_token_waiters reason s.token_waiters;
  done = close_signal s.done;
  event_waiters = try_send s.event_waiters (error reason (lit "session_expired"));
}

-- The loop that builds `newSessions`.
unfoldable pub without_key : Text → List Text → List Text
without_key key [] = []
without_key key (k ∷ ks) = let rest = without_key key ks in if beq k key then rest else k ∷ rest

-- if len(newSessions) > 0 { ... } else { delete(...) }
abbrev pub set_keys : GoMap (List Text) → Text → List Text → GoMap (List Text)
set_keys us user [] = GoMap.remove us user
set_keys us user (k ∷ ks) = GoMap.put us user (k ∷ ks)

abbrev pub forget_key : GoMap (List Text) → Text → Text → Option (List Text) → GoMap (List Text)
forget_key us user key none = us
forget_key us user key (some keys) = set_keys us user (without_key key keys)

unfoldable pub cleanup_session : SessionManager → Text → Pointer → Session → Text → SessionManager
unfolding stop_timer
cleanup_session m key p s reason =
    let m' = stop_timer m key in
    record m' {
      heap = store m'.heap p (notified s reason);
      user_sessions =
          forget_key m'.user_sessions s.user_id key (GoMap.get m'.user_sessions s.user_id);
      sessions = GoMap.remove m'.sessions key;
    }

unfoldable pub end_session : SessionManager → Text → SessionManager × Result (Unit {0})
end_session m key = elim (find_session m key) [
  | none ↦ (m, err (message session_not_found))
  | some (p, s) ↦ (cleanup_session m key p s (lit "session ended"), ok tt)
]

unfoldable pub expire_session : SessionManager → Text → SessionManager
expire_session m key = elim (find_session m key) [
  | none ↦ m
  | some (p, s) ↦ cleanup_session m key p s (lit "session expired")
]

unfoldable pub reset_session_timer : SessionManager → ℕ → Text → SessionManager
unfolding stop_timer
reset_session_timer m now key = elim (find_session m key) [
  | none ↦ m
  | some (p, s) ↦
      let m' = stop_timer m key in
      record m' {
        heap =
            store m'.heap p
              (record s { last_poll_at = now; expiration_deadline = now + m.session_timeout });
      }
]

unfoldable pub start_session_timer : SessionManager → ℕ → Text → SessionManager
start_session_timer m now key = elim (find_session m key) [
  | none ↦ m
  | some (p, s) ↦ record m {
    armed =
        record { id = m.next_timer; key = key; due = now + m.session_timeout }
        ∷ stop_found (GoMap.get m.timers key) m.armed;
    timers = GoMap.put m.timers key m.next_timer;
    next_timer = suc m.next_timer;
  }
]

-- for _, timer := range sm.timers { timer.Stop() }
unfoldable pub stop_all : GoMap ℕ → List Timer → List Timer
stop_all [] ts = ts
stop_all ((key, i) ∷ rest) ts = stop_all rest (stop_armed i ts)

-- for sessionKey, session := range sm.sessions { cleanup }: each round deletes its own key alone, so
-- the range visits every entry that was there when it began.
unfoldable pub cleanup_all : SessionManager → GoMap Pointer → SessionManager
cleanup_all m [] = m
cleanup_all m ((key, p) ∷ rest) = elim (m.heap p) [
  | none ↦ cleanup_all m rest
  | some s ↦ cleanup_all (cleanup_session m key p s (lit "shutdown")) rest
]

-- The manager once the channel is closed and the timers are stopped.
unfoldable pub halted : SessionManager → SessionManager
unfolding stop_all
halted m = record m { shutdown_chan = closed; armed = stop_all m.timers m.armed; timers = [] }

-- `close(sm.shutdownChan)` comes first: of a closed channel it panics, and the rest of the body is not
-- reached.
unfoldable pub shutdown : SessionManager → SessionManager
unfolding halted
shutdown m = elim m.shutdown_chan [
  | opened ↦ cleanup_all (halted m) m.sessions
  | _ ↦ record m { shutdown_chan = panicked }
]

unfoldable pub get_session_count : SessionManager → ℕ
get_session_count m = length m.sessions

unfoldable pub get_user_session_count : SessionManager → Text → ℕ
get_user_session_count m user = elim (GoMap.get m.user_sessions user) [
  | none ↦ 0
  | some keys ↦ length keys
]
