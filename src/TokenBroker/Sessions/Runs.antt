-- ===== src/TokenBroker/Sessions/Runs.antt =====
-- Histories of the session manager: the calls of its methods (session/manager.go) by any number of
-- goroutines are a list, since each method runs under the lock. A timer that is due may fire at any
-- moment, and its goroutine may come to run at any later one.
pub mod Preserved
use kagenti_operator.Prelude.{
  ℕ, ◌≡◌, refl, Text, lit, Option, none, some, Option-cases, Bool-cases, inl, inr, List, [], ◌∷◌,
  ◌++◌, ◌==◌, ◌&&◌, leb, ◌+◌, arith, if◌then◌else◌,
}
use kagenti_operator.GoMap
use kagenti_operator.GoMap.{GoMap, get-put}
use kagenti_operator.TokenBroker.Session.{Session, Pointer}
use kagenti_operator.TokenBroker.Sessions.{
  SessionManager, Timer, new_session_manager, find_session, at_limit, insert_session,
  create_session, end_session, expire_session, reset_session_timer, start_session_timer, shutdown,
  stop_timer, stop_armed, cleanup_session,
}
use kagenti_operator.TokenBroker.Sessions.Invariant.{IsValid}
use kagenti_operator.TokenBroker.Sessions.Timers.{
  TimersValid, Armed, Armed-mono, stop_timer-TimersValid, cleanup-TimersValid, start-TimersValid,
}
use kagenti_operator.TokenBroker.Sessions.Shutdown.{shutdown-IsValid, shutdown-TimersValid}

-- The key of the armed timer `i`, if it is due.
unfoldable pub due_key : ℕ → ℕ → List Timer → Option Text
due_key now i [] = none
due_key now i (t ∷ ts) = if t.id == i && leb t.due now then some t.key else due_key now i ts

-- The run time starts the function of a timer in a goroutine of its own.
unfoldable pub fire : ℕ → ℕ → SessionManager → SessionManager
unfolding due_key
fire now i m = elim (due_key now i m.armed) [
  | none ↦ m
  | some key ↦ record m { armed = stop_armed i m.armed; expiring = m.expiring ++ key ∷ [] }
]

-- One of those goroutines gets the lock.
unfoldable pub run_expiring : List Text → SessionManager → SessionManager
run_expiring [] m = m
run_expiring (key ∷ keys) m = expire_session (record m { expiring = keys }) key

pub data Call : Type 0 where
  creates : (key user url : Text) → Call
  ends expires resets starts : (key : Text) → Call
  fires : (i : ℕ) → Call
  runs_expiring shuts_down : Call

-- Each call comes with the reading of the clock.
unfoldable pub step : SessionManager → ℕ × Call → SessionManager
unfolding run_expiring
step m (now, creates key user url) = (create_session m now key user url).0
step m (now, ends key) = (end_session m key).0
step m (now, expires key) = expire_session m key
step m (now, resets key) = reset_session_timer m now key
step m (now, starts key) = start_session_timer m now key
step m (now, fires i) = fire now i m
step m (now, runs_expiring) = run_expiring m.expiring m
step m (now, shuts_down) = shutdown m

unfoldable pub run : SessionManager → List (ℕ × Call) → SessionManager
run m [] = m
run m (c ∷ cs) = run (step m c) cs

pub record Valid (m : SessionManager) : Type 0 where
  pub sessions_valid : IsValid m
  pub timers_valid : TimersValid m
