-- ===== src/TokenBroker/Sessions/Histories.antt =====
-- What every history of the session manager (session/manager.go) keeps.
use kagenti_operator.Prelude.{
  ℕ, ◌≤◌, ◌≡◌, ◌≢◌, refl, ◌∙◌, Text, lit, some, Option-cases, inl, inr, List, [], ◌∷◌, max, arith,
}
use kagenti_operator.GoMap
use kagenti_operator.GoMap.{GoMap}
use kagenti_operator.TokenBroker.Channel.{opened, panicked, Signal-cases}
use kagenti_operator.TokenBroker.Session.{Session, Pointer}
use kagenti_operator.TokenBroker.Sessions.{
  SessionManager, new_session_manager, find_session, insert_session, create_session, end_session,
  expire_session, reset_session_timer, start_session_timer, halted, shutdown, stop_timer,
  cleanup_session, cleanup_all, get_user_session_count,
}
use kagenti_operator.TokenBroker.Sessions.Invariant.{IsValid, found}
use kagenti_operator.TokenBroker.Sessions.Runs.{
  Call, creates, ends, expires, resets, starts, fires, runs_expiring, shuts_down, fire, step, run,
}
use kagenti_operator.TokenBroker.Sessions.Runs.Preserved.{run-Valid, new-Valid}

-- After any history, no `Done` has been closed twice, no event channel has been closed, and what the
-- map has under a key is a session of that key that is still open.
pub run-sessions_open :
    (timeout limit : ℕ) (cs : List (ℕ × Call))
    → ((p : Pointer) (s : Session)
        → (run (new_session_manager timeout limit) cs).heap p ≡ some s
        → (s.done ≢ panicked) × (s.event_waiters.signal ≡ opened))
      × ((key : Text) (p : Pointer) (s : Session)
          → find_session (run (new_session_manager timeout limit) cs) key ≡ some (p, s)
          → (s.session_key ≡ key) × (s.done ≡ opened))
run-sessions_open timeout limit cs =
    let m = run (new_session_manager timeout limit) cs in
    let v = (run-Valid _ cs (new-Valid timeout limit)).sessions_valid in
    (
      λ p s e. ((v.sound p s e).done_once, (v.sound p s e).events_open),
      λ key p s e.
          let (here, there) = found m key p s e in
          ((v.live key p s here there).keyed, (v.live key p s here there).running),
    )

-- No method changes the limit.
cleanup_all-limit :
    (m : SessionManager) (es : GoMap Pointer)
    → (cleanup_all m es).max_sessions_per_user ≡ m.max_sessions_per_user
unfolding cleanup_all cleanup_session
cleanup_all-limit m [] = refl
cleanup_all-limit m ((key, p) ∷ es) = elim (Option-cases (m.heap p)) [
  | inl e ↦ rw (e, cleanup_all) (cleanup_all-limit m es)
  | inr (s, e) ↦
      rw (e, cleanup_all) (cleanup_all-limit (cleanup_session m key p s (lit "shutdown")) es)
]

step-limit :
    (m : SessionManager) (c : ℕ × Call) → (step m c).max_sessions_per_user ≡ m.max_sessions_per_user
unfolding step create_session insert_session end_session expire_session reset_session_timer
    start_session_timer shutdown halted fire cleanup_session stop_timer
step-limit m (now, creates key user url) = ground arith
step-limit m (now, ends key) = ground arith
step-limit m (now, expires key) = ground arith
step-limit m (now, resets key) = ground arith
step-limit m (now, starts key) = ground arith
step-limit m (now, fires i) = ground arith
step-limit m (now, runs_expiring) = ground arith
step-limit m (now, shuts_down) = elim (Signal-cases m.shutdown_chan) [
  | inl e ↦ rw (e, shutdown) (cleanup_all-limit (halted m) m.sessions)
  | inr (inl e) ↦ rw (e, shutdown) refl
  | inr (inr e) ↦ rw (e, shutdown) refl
]

run-limit :
    (m : SessionManager) (cs : List (ℕ × Call))
    → (run m cs).max_sessions_per_user ≡ m.max_sessions_per_user
unfolding run
run-limit m [] = refl
run-limit m (c ∷ cs) = run-limit (step m c) cs ∙ step-limit m c

count-le :
    (m : SessionManager)
    → IsValid m
    → (user : Text) → get_user_session_count m user ≤ max 1 m.max_sessions_per_user
unfolding get_user_session_count
count-le m v user = elim (Option-cases (GoMap.get m.user_sessions user)) [
  | inl e ↦ rw (e, get_user_session_count) (omega arith)
  | inr (ks, e) ↦ rw (e, get_user_session_count) (v.bounded user ks e).1
]

-- After any history, no user counts more sessions than the limit, or than one where the limit is
-- zero.
pub run-user_limit :
    (timeout limit : ℕ) (cs : List (ℕ × Call)) (user : Text)
    → get_user_session_count (run (new_session_manager timeout limit) cs) user ≤ max 1 limit
unfolding new_session_manager
run-user_limit timeout limit cs user =
    let m = run (new_session_manager timeout limit) cs in
    let v = (run-Valid _ cs (new-Valid timeout limit)).sessions_valid in
    omega (arith, count-le m v user, run-limit (new_session_manager timeout limit) cs)
