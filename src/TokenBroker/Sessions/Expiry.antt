-- ===== src/TokenBroker/Sessions/Expiry.antt =====
-- The idle timeout of session/manager.go: `StartSessionTimer`, `ResetSessionTimer` and the timer's
-- function, `ExpireSession`.
use kagenti_operator.Prelude.{
  ℕ, ◌∙◌, ◌+◌, ◌≤◌, ◌≡◌, refl, Text, beq, beq_iff, lit, none, some, Option-cases, inl, inr, List,
  [], ◌∷◌, arith, ◌<◌, if◌then◌else◌,
}
use kagenti_operator.TokenBroker.Session.{Session, Pointer}
use kagenti_operator.TokenBroker.Sessions.{
  SessionManager, Timer, find_session, expire_session, reset_session_timer, start_session_timer,
  stop_timer, stop_armed,
}
use kagenti_operator.TokenBroker.Sessions.Invariant.{IsValid, found}
use kagenti_operator.TokenBroker.Sessions.Timers.{armed_for, armed_for-le, armed_for-stop_found}
use kagenti_operator.TokenBroker.Sessions.Runs.{
  resets, starts, fires, runs_expiring, step, run, fire, due_key, run_expiring, Valid,
}
use kagenti_operator.TokenBroker.Sessions.Runs.Preserved.{
  Valid-expiring, fire-Valid, start-Valid, reset-Valid,
}
use mathlib.Core.Path.{subst}
use kagenti_operator.TokenBroker.Sessions.Endings.{find_session-cleanup}

-- A key has at most one armed timer. `StartSessionTimer` leaves it exactly one, which is due after
-- the timeout, and `ResetSessionTimer` leaves it none.
pub timers_of_key :
    (m : SessionManager) (now : ℕ) (key : Text) (p : Pointer) (s : Session)
    → Valid m
    → find_session m key ≡ some (p, s)
    → (armed_for key m.armed ≤ 1)
      × (armed_for key (start_session_timer m now key).armed ≡ 1)
      × (due_key (now + m.session_timeout) m.next_timer (start_session_timer m now key).armed
          ≡ some key)
      × (armed_for key (reset_session_timer m now key).armed ≡ 0)
unfolding start_session_timer reset_session_timer
timers_of_key m now key p s v e = (
  armed_for-le m.timers key m.next_timer m.armed v.timers_valid.armed_valid,
  rw (e, start_session_timer)
      (unfold armed_for in
        ground (
          arith,
          beq_iff key key,
          armed_for-stop_found m.timers key m.next_timer m.armed v.timers_valid.armed_valid,
        )),
  rw (e, start_session_timer) (unfold due_key in ground arith),
  rw (e, reset_session_timer)
      (unfold stop_timer in
        armed_for-stop_found m.timers key m.next_timer m.armed v.timers_valid.armed_valid),
)

due_key-armed :
    (now i : ℕ) (ts : List Timer) (k : Text) → due_key now i ts ≡ some k → 0 < armed_for k ts
unfolding due_key armed_for
due_key-armed now i [] k e = cc
due_key-armed now i (t ∷ ts) k e = ground (arith, due_key-armed now i ts k, beq_iff t.key k)

find_session-expire :
    (m : SessionManager) (k key : Text)
    → IsValid m
    → find_session (expire_session m k) key ≡ (if beq k key then none else find_session m key)
unfolding expire_session
find_session-expire m k key v = elim (Option-cases (find_session m k)) [
  | inl e ↦ rw (e, expire_session) (ground (arith, beq_iff k key))
  | inr ((p, s), e) ↦
      rw (e, expire_session) (find_session-cleanup m k p s (lit "session expired") key v e)
]

-- The next goroutine of a due timer runs.
abbrev drain : SessionManager → SessionManager
drain m = run_expiring m.expiring m

-- A timer fires and its function runs: the session of the timer's key goes, and no other.
find_session-fired :
    (m : SessionManager) (now i : ℕ) (k key : Text)
    → Valid m
    → m.expiring ≡ []
    → due_key now i m.armed ≡ some k
    → find_session (drain (fire now i m)) key ≡ (if beq k key then none else find_session m key)
unfolding run_expiring
find_session-fired m now i k key v idle e =
    let fired : fire now i m ≡ record m { armed = stop_armed i m.armed; expiring = k ∷ [] } =
      unfold fire in rw (e, fire, idle) in
    let later : Valid (record m { armed = stop_armed i m.armed; expiring = k ∷ [] }) =
      subst Valid fired (fire-Valid now i m v) in
    rw fired (
      find_session-expire _ k key (Valid-expiring _ [] later).sessions_valid
      ∙ (unfold find_session in refl))

-- An abandoned session ends: once the timer that a poll started on its return is due, it may fire,
-- and when its function has run the key leads to no session.
pub abandoned_session_expires :
    (m : SessionManager) (now later last : ℕ) (key : Text) (p : Pointer) (s : Session)
    → Valid m
    → m.expiring ≡ []
    → find_session m key ≡ some (p, s)
    → now + m.session_timeout ≤ later
    → find_session
        (run m ((now, starts key) ∷ (later, fires m.next_timer) ∷ (last, runs_expiring) ∷ []))
        key
      ≡ none
unfolding run step
abandoned_session_expires m now later last key p s v idle e due =
    find_session-fired (start_session_timer m now key) later m.next_timer key key
      (start-Valid m now key v) (unfold start_session_timer in rw (e, start_session_timer) idle)
      (unfold start_session_timer due_key in rw (e, start_session_timer) (ground arith))
    ∙ ground (arith, beq_iff key key)

-- With no timer of the key armed, whatever timer fires and runs next leaves the key's session.
fired_other :
    (m : SessionManager) (now i : ℕ) (key : Text)
    → Valid m
    → m.expiring ≡ []
    → armed_for key m.armed ≡ 0
    → find_session (drain (fire now i m)) key ≡ find_session m key
fired_other m now i key v idle unarmed = elim (Option-cases (due_key now i m.armed)) [
  | inl e ↦ unfold fire run_expiring in rw (e, fire, idle)
  | inr (k, e) ↦
      find_session-fired m now i k key v idle e
      ∙ ground (arith, beq_iff k key, due_key-armed now i m.armed k e)
]

-- A poll in time keeps the session: when it has stopped the key's timer before that fired, whatever
-- timer fires and runs next, the key still leads to the session, with its deadline put off.
pub poll_keeps_session :
    (m : SessionManager) (back later last i : ℕ) (key : Text) (p : Pointer) (s : Session)
    → Valid m
    → m.expiring ≡ []
    → find_session m key ≡ some (p, s)
    → find_session (run m ((back, resets key) ∷ (later, fires i) ∷ (last, runs_expiring) ∷ [])) key
      ≡ some (p, record s { last_poll_at = back; expiration_deadline = back + m.session_timeout })
unfolding run step
poll_keeps_session m back later last i key p s v idle e =
    let (here, there) = found m key p s e in
    fired_other (reset_session_timer m back key) later i key (reset-Valid m back key v)
      (unfold reset_session_timer stop_timer in rw (e, reset_session_timer) idle)
      (timers_of_key m back key p s v e).3
    ∙ (unfold reset_session_timer stop_timer in
        rw (e, reset_session_timer) (unfold find_session in ground arith))
