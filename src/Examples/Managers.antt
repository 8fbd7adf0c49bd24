-- ===== src/Examples/Managers.antt =====
-- The session manager on a concrete history.
use kagenti_operator.Prelude.{
  ◌+◌, ◌<◌, ◌≤◌, ◌≡◌, ◌≢◌, ◌⊎◌, refl, false, if◌then◌else◌, beq, max, Text, lit, none, some, [],
  ◌∷◌, arith,
}
use kagenti_operator.GoMap
use kagenti_operator.TokenBroker.Channel.{opened, closed, panicked}
use kagenti_operator.TokenBroker.Errors.{ok, err, message, max_sessions_per_user_exceeded}
use kagenti_operator.TokenBroker.Session.{Session, Pointer}
use kagenti_operator.TokenBroker.Sessions.{
  new_session_manager, fresh_session, find_session, create_session, insert_session, end_session,
  shutdown, notified, keys_of, get_user_session_count, at_limit,
}
use kagenti_operator.TokenBroker.Sessions.Invariant.{contains}
use kagenti_operator.TokenBroker.Sessions.Timers.{armed_for}
use kagenti_operator.TokenBroker.Sessions.Runs.{run, step, starts, fires, resets, runs_expiring}
use kagenti_operator.TokenBroker.Sessions.Histories.{run-sessions_open, run-user_limit}
use kagenti_operator.TokenBroker.Sessions.Endings.{
  end_session-found, create_session_lem, create_again_leaks, shutdown_lem,
}
use kagenti_operator.TokenBroker.Sessions.Expiry.{abandoned_session_expires, poll_keeps_session}
use kagenti_operator.Examples.{
  k1, k2, alice, bob, history, manager, session, manager-Valid, manager-found,
}

nothing_expires : manager.expiring ≡ []
unfolding run step create_session insert_session new_session_manager GoMap.get
nothing_expires = refl

bob_may : at_limit manager.max_sessions_per_user (GoMap.get manager.user_sessions bob) ≡ false
unfolding run step create_session insert_session new_session_manager GoMap.get GoMap.put beq
bob_may = refl

run-sessions_open_example :
    ((p : Pointer) (s : Session)
      → manager.heap p ≡ some s
      → (s.done ≢ panicked) × (s.event_waiters.signal ≡ opened))
    × ((key : Text) (p : Pointer) (s : Session)
        → find_session manager key ≡ some (p, s)
        → (s.session_key ≡ key) × (s.done ≡ opened))
run-sessions_open_example = run-sessions_open 100 2 history

run-user_limit_example : get_user_session_count manager alice ≤ max 1 2
run-user_limit_example = run-user_limit 100 2 history alice

end_session-found_example :
    let m' = (end_session manager k1).0 in
    ((end_session manager k1).1 ≡ ok tt)
    × ((k : Text) → find_session m' k ≡ (if beq k1 k then none else find_session manager k))
    × (m'.heap 0 ≡ some (notified session (lit "session ended")))
    × ((notified session (lit "session ended")).done ≡ closed)
    × (contains k1 (keys_of (GoMap.get m'.user_sessions alice)) ≡ false)
    × (armed_for k1 m'.armed ≡ 0)
end_session-found_example = end_session-found manager k1 0 session manager-Valid manager-found

create_session_lem_example :
    let m' = (create_session manager 9 k2 alice (lit "")).0 in
    let count = get_user_session_count manager alice in
    (0 < count
      → manager.max_sessions_per_user ≤ count
      → create_session manager 9 k2 alice (lit "")
        ≡ (manager, err (message max_sessions_per_user_exceeded)))
    × ((count ≡ 0) ⊎ (count < manager.max_sessions_per_user)
        → ((create_session manager 9 k2 alice (lit "")).1 ≡ ok tt)
          × ((k : Text)
              → find_session m' k ≡ (
                  if beq k2 k
                  then some (manager.next_pointer, fresh_session manager 9 k2 alice (lit ""))
                  else find_session manager k))
          × (get_user_session_count m' alice ≡ count + 1))
create_session_lem_example =
    create_session_lem manager 9 k2 alice (lit "") manager-Valid.sessions_valid

create_again_leaks_example :
    let m' = (end_session (create_session manager 9 k1 bob (lit "")).0 k1).0 in
    (find_session m' k1 ≡ none)
    × (m'.heap 0 ≡ some session)
    × (session.done ≡ opened)
    × (0 < get_user_session_count m' alice)
create_again_leaks_example =
    create_again_leaks manager 9 k1 bob (lit "") 0 session manager-Valid manager-found (λ e. cc)
      bob_may

first_shutdown : manager.shutdown_chan ≡ opened
unfolding run step create_session insert_session new_session_manager GoMap.get
first_shutdown = refl

shutdown_lem_example :
    ((shutdown manager).shutdown_chan ≡ closed)
    × (shutdown (shutdown manager) ≡ record (shutdown manager) { shutdown_chan = panicked })
    × ((k : Text) → find_session (shutdown manager) k ≡ none)
    × ((k : Text) (p : Pointer) (s : Session)
        → find_session manager k ≡ some (p, s)
        → (shutdown manager).heap p ≡ some (notified s (lit "shutdown")))
    × ((k : Text) (p : Pointer) (s : Session)
        → find_session manager k ≡ some (p, s)
        → (notified s (lit "shutdown")).done ≡ closed)
    × ((shutdown manager).armed ≡ [])
shutdown_lem_example = shutdown_lem manager manager-Valid first_shutdown

timeout_100 : manager.session_timeout ≡ 100
unfolding run step create_session insert_session new_session_manager GoMap.get
timeout_100 = refl

abandoned_session_expires_example :
    find_session
      (run manager ((7, starts k1) ∷ (120, fires manager.next_timer) ∷ (121, runs_expiring) ∷ []))
      k1
    ≡ none
abandoned_session_expires_example =
    abandoned_session_expires manager 7 120 121 k1 0 session manager-Valid nothing_expires
      manager-found (omega (arith, timeout_100))

poll_keeps_session_example :
    find_session (run manager ((8, resets k1) ∷ (120, fires 0) ∷ (121, runs_expiring) ∷ [])) k1
    ≡ some
        (0, record session { last_poll_at = 8; expiration_deadline = 8 + manager.session_timeout })
poll_keeps_session_example =
    poll_keeps_session manager 8 120 121 0 k1 0 session manager-Valid nothing_expires manager-found
