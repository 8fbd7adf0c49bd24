-- ===== src/TokenBroker/Sessions/Endings.antt =====
-- What `CreateSession`, `EndSession` and `Shutdown` of session/manager.go do, each on every branch.
use kagenti_operator.Prelude.{
  ℕ, ◌+◌, ◌<◌, ◌≡◌, ◌≢◌, ◌↔◌, refl, true, false, Text, beq, beq_iff, lit, none, some, Option-cases,
  inl, inr, List, [], ◌∷◌, ◌++◌, length, length-append, arith, ◌≤◌, ◌⊎◌, ltb, leb, ◌&&◌,
  if◌then◌else◌,
}
use kagenti_operator.GoMap
use kagenti_operator.GoMap.{GoMap, get-put, get-remove}
use kagenti_operator.TokenBroker.Channel.{closed, opened, panicked}
use kagenti_operator.TokenBroker.Errors.{ok, err, message, max_sessions_per_user_exceeded}
use kagenti_operator.TokenBroker.Session.{Session, Pointer}
use kagenti_operator.TokenBroker.Sessions.{
  SessionManager, find_session, insert_session, fresh_session, at_limit, create_session,
  end_session, validate_session, shutdown, cleanup_session, keys_of, notified,
  get_user_session_count, without_key,
}
use kagenti_operator.TokenBroker.Sessions.Invariant.{IsValid, contains, found, keys-forget_key}
use kagenti_operator.TokenBroker.Sessions.Invariant.Changes.{others, insert-IsValid}
use kagenti_operator.TokenBroker.Sessions.Shutdown.{
  sessions-shutdown, heap-shutdown, armed-shutdown, chan-shutdown, shutdown_again,
}
use kagenti_operator.TokenBroker.Sessions.Timers.{armed_for, armed_for-stop_found}
use kagenti_operator.TokenBroker.Sessions.Runs.{Valid}

-- `ValidateSession` passes exactly the user of the session that stands under the key.
pub validate_session_iff :
    (m : SessionManager) (key user : Text)
    → (validate_session m key user ≡ ok tt)
      ↔ ((p : Pointer) × (s : Session) × (find_session m key ≡ some (p, s)) × (s.user_id ≡ user))
unfolding validate_session
validate_session_iff m key user = elim (Option-cases (find_session m key)) [
  | inl e ↦ (λ h. absurd (ground arith), λ h. absurd (ground (arith, h.2)))
  | inr ((p, s), e) ↦ (
    λ h. (p, s, e, ground (arith, beq_iff s.user_id user)),
    λ h. ground (arith, beq_iff s.user_id user, h.2, h.3),
  )
]

-- The map after a new session: its key leads to the new object, and every other key to what it led
-- to before.
pub find_session-insert :
    (m : SessionManager) (now : ℕ) (key user url k : Text)
    → IsValid m
    → find_session (insert_session m now key user url) k ≡ (
        if beq key k
        then some (m.next_pointer, fresh_session m now key user url)
        else find_session m k)
unfolding insert_session find_session
find_session-insert m now key user url k v = elim (Option-cases (GoMap.get m.sessions k)) [
  | inl e ↦ ground (arith, get-put m.sessions key m.next_pointer k, beq_iff key k)
  | inr (q, e) ↦ ground (
    arith,
    get-put m.sessions key m.next_pointer k,
    beq_iff key k,
    v.present k q e,
    v.unused m.next_pointer,
  )
]

pub find_session-cleanup :
    (m : SessionManager) (key : Text) (p : Pointer) (s : Session) (reason k : Text)
    → IsValid m
    → find_session m key ≡ some (p, s)
    → find_session (cleanup_session m key p s reason) k
      ≡ (if beq key k then none else find_session m k)
unfolding cleanup_session find_session
find_session-cleanup m key p s reason k v e =
    let (here, there) = found m key p s e in
    elim (Option-cases (GoMap.get m.sessions k)) [
      | inl f ↦ ground (arith, get-remove m.sessions key k)
      | inr (q, f) ↦
          ground (arith, get-remove m.sessions key k, others m v key p s reason here there k q)
    ]

contains-without : (key : Text) (ks : List Text) → contains key (without_key key ks) ≡ false
unfolding contains without_key
contains-without key [] = refl
contains-without key (k ∷ ks) = ground (arith, contains-without key ks)

-- `EndSession` of a session that is there: it succeeds, the key leads nowhere any more and every
-- other key where it led, the object's `Done` is closed, the user's list has lost the key, and no
-- timer of the key is armed.
pub end_session-found :
    (m : SessionManager) (key : Text) (p : Pointer) (s : Session)
    → Valid m
    → find_session m key ≡ some (p, s)
    → let m' = (end_session m key).0 in
      ((end_session m key).1 ≡ ok tt)
      × ((k : Text) → find_session m' k ≡ (if beq key k then none else find_session m k))
      × (m'.heap p ≡ some (notified s (lit "session ended")))
      × ((notified s (lit "session ended")).done ≡ closed)
      × (contains key (keys_of (GoMap.get m'.user_sessions s.user_id)) ≡ false)
      × (armed_for key m'.armed ≡ 0)
unfolding end_session
end_session-found m key p s v e =
    rw (e, end_session)
      (
        refl,
        λ k. find_session-cleanup m key p s (lit "session ended") k v.sessions_valid e,
        unfold cleanup_session in ground arith,
        (let (here, there) = found m key p s e in
            ground (arith, (v.sessions_valid.live key p s here there).running)),
        unfold cleanup_session in
            rw (keys-forget_key m.user_sessions s.user_id key s.user_id) (
              ground (
                arith,
                beq_iff s.user_id s.user_id,
                contains-without key (keys_of (GoMap.get m.user_sessions s.user_id)),
              )),
        unfold cleanup_session in
            armed_for-stop_found m.timers key m.next_timer m.armed v.timers_valid.armed_valid,
      )

at_limit-count :
    (m : SessionManager) (user : Text)
    → IsValid m
    → at_limit m.max_sessions_per_user (GoMap.get m.user_sessions user) ≡ (
        ltb 0 (get_user_session_count m user)
        && leb m.max_sessions_per_user (get_user_session_count m user))
unfolding get_user_session_count
at_limit-count m user v = elim (Option-cases (GoMap.get m.user_sessions user)) [
  | inl e ↦ ground arith
  | inr (ks, e) ↦ ground (arith, v.bounded user ks e)
]

count-insert :
    (m : SessionManager) (now : ℕ) (key user url : Text)
    → get_user_session_count (insert_session m now key user url) user
      ≡ get_user_session_count m user + 1
unfolding get_user_session_count insert_session
count-insert m now key user url = elim (Option-cases (GoMap.get m.user_sessions user)) [
  | inl e ↦ ground (arith, get-put m.user_sessions user (key ∷ []) user, beq_iff user user)
  | inr (ks, e) ↦ ground (
    arith,
    get-put m.user_sessions user (ks ++ key ∷ []) user,
    beq_iff user user,
    length-append ks (key ∷ []),
  )
]

-- `CreateSession` on both branches. A user who has a session and has reached the limit is refused,
-- and nothing changes. Otherwise the call succeeds, the key leads to a new session object of that
-- user, every other key where it led, and the user counts one session more.
pub create_session_lem :
    (m : SessionManager) (now : ℕ) (key user url : Text)
    → IsValid m
    → let m' = (create_session m now key user url).0 in
      let count = get_user_session_count m user in
      (0 < count
        → m.max_sessions_per_user ≤ count
        → create_session m now key user url ≡ (m, err (message max_sessions_per_user_exceeded)))
      × ((count ≡ 0) ⊎ (count < m.max_sessions_per_user)
          → ((create_session m now key user url).1 ≡ ok tt)
            × ((k : Text)
                → find_session m' k ≡ (
                    if beq key k
                    then some (m.next_pointer, fresh_session m now key user url)
                    else find_session m k))
            × (get_user_session_count m' user ≡ count + 1))
unfolding create_session
create_session_lem m now key user url v = (
  λ some_there full.
      let limited : at_limit m.max_sessions_per_user (GoMap.get m.user_sessions user) ≡ true =
        ground (arith, at_limit-count m user v) in
      rw (limited, create_session),
  λ room.
      let allowed : at_limit m.max_sessions_per_user (GoMap.get m.user_sessions user) ≡ false =
        ground (arith, at_limit-count m user v) in
      rw (allowed, create_session)
        (refl, λ k. find_session-insert m now key user url k v, count-insert m now key user url),
)

count-keys_of :
    (m : SessionManager) (user : Text)
    → get_user_session_count m user ≡ length (keys_of (GoMap.get m.user_sessions user))
unfolding get_user_session_count
count-keys_of m user = ground arith

length_of_contains : (key : Text) (ks : List Text) → contains key ks ≡ true → 0 < length ks
unfolding contains
length_of_contains key [] h = ground arith
length_of_contains key (k ∷ ks) h = omega arith

-- The bug of a second `CreateSession` for a key that is taken, by a user other than the first one and
-- not at the limit: once the key's session has ended, the key leads nowhere, but the first session's
-- object is as it was, its `Done` still open, so that its waiters are never told, and the first user
-- goes on counting a session.
pub create_again_leaks :
    (m : SessionManager) (now : ℕ) (key user url : Text) (p : Pointer) (s : Session)
    → Valid m
    → find_session m key ≡ some (p, s)
    → s.user_id ≢ user
    → at_limit m.max_sessions_per_user (GoMap.get m.user_sessions user) ≡ false
    → let m' = (end_session (create_session m now key user url).0 key).0 in
      (find_session m' key ≡ none)
      × (m'.heap p ≡ some s)
      × (s.done ≡ opened)
      × (0 < get_user_session_count m' s.user_id)
unfolding create_session end_session
create_again_leaks m now key user url p s v e other allowed =
    let (here, there) = found m key p s e in
    let m1 = insert_session m now key user url in
    let new = fresh_session m now key user url in
    let v1 = insert-IsValid m v.sessions_valid now key user url allowed in
    let taken : find_session m1 key ≡ some (m.next_pointer, new) =
      ground
        (arith, find_session-insert m now key user url key v.sessions_valid, beq_iff key key) in
    let was = v.sessions_valid.live key p s here there in
    rw (allowed, create_session, taken, end_session)
      (
        ground (
          arith,
          find_session-cleanup m1 key m.next_pointer new (lit "session ended") key v1 taken,
          beq_iff key key,
        ),
        unfold cleanup_session insert_session in
            ground (arith, v.sessions_valid.unused m.next_pointer),
        was.running,
        rw count-keys_of (
            unfold cleanup_session insert_session in
            rw (keys-forget_key _ user key s.user_id) (
              ground (
                arith,
                get-put m.user_sessions user (keys_of (GoMap.get m.user_sessions user) ++ key ∷ [])
                    s.user_id,
                beq_iff user s.user_id,
                length_of_contains key (keys_of (GoMap.get m.user_sessions s.user_id)) was.listed,
              ))),
      )

-- The first `Shutdown`, before which `shutdownChan` is open: it closes the channel, leaves no session
-- under any key and no timer to fire, and has closed the `Done` of every session that was there. A
-- second one panics, and leaves every field but the channel's signal as the first one left it.
pub shutdown_lem :
    (m : SessionManager)
    → Valid m
    → m.shutdown_chan ≡ opened
    → ((shutdown m).shutdown_chan ≡ closed)
      × (shutdown (shutdown m) ≡ record (shutdown m) { shutdown_chan = panicked })
      × ((k : Text) → find_session (shutdown m) k ≡ none)
      × ((k : Text) (p : Pointer) (s : Session)
          → find_session m k ≡ some (p, s)
          → (shutdown m).heap p ≡ some (notified s (lit "shutdown")))
      × ((k : Text) (p : Pointer) (s : Session)
          → find_session m k ≡ some (p, s)
          → (notified s (lit "shutdown")).done ≡ closed)
      × ((shutdown m).armed ≡ [])
unfolding find_session
shutdown_lem m v first = (
  chan-shutdown m first v.sessions_valid,
  shutdown_again (shutdown m) (chan-shutdown m first v.sessions_valid),
  λ k. rw (sessions-shutdown m first v.sessions_valid k, find_session),
  λ k p s e.
      let (here, there) = found m k p s (unfold find_session in e) in
      heap-shutdown m first v.sessions_valid k p s here there,
  λ k p s e.
      let (here, there) = found m k p s (unfold find_session in e) in
      ground (arith, (v.sessions_valid.live k p s here there).running),
  (armed-shutdown m first v.sessions_valid v.timers_valid).1,
)
