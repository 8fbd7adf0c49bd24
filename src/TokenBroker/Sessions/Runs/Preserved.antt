-- ===== src/TokenBroker/Sessions/Runs/Preserved.antt =====
-- The invariants of session/manager.go, over each call of a method.
use kagenti_operator.Prelude.{
  ℕ, ◌≡◌, refl, Text, lit, some, Option-cases, Bool-cases, inl, inr, List, [], ◌∷◌, ◌++◌, ◌+◌,
  arith,
}
use kagenti_operator.GoMap
use kagenti_operator.GoMap.{GoMap, get-put}
use kagenti_operator.TokenBroker.Session.{Session, Pointer}
use kagenti_operator.TokenBroker.Sessions.{
  SessionManager, Timer, new_session_manager, find_session, at_limit, insert_session,
  create_session, end_session, expire_session, reset_session_timer, start_session_timer, stop_timer,
  stop_armed, cleanup_session,
}
use kagenti_operator.TokenBroker.Sessions.Invariant.{IsValid, found}
use kagenti_operator.TokenBroker.Sessions.Invariant.Changes.{
  cleanup-IsValid, update-IsValid, insert-IsValid,
}
use kagenti_operator.TokenBroker.Sessions.Timers.{
  Armed, Armed-mono, stop_timer-TimersValid, cleanup-TimersValid, start-TimersValid,
}
use kagenti_operator.TokenBroker.Sessions.Shutdown.{shutdown-IsValid, shutdown-TimersValid}
use kagenti_operator.TokenBroker.Sessions.Runs.{
  due_key, fire, run_expiring, Call, creates, ends, expires, resets, starts, fires, runs_expiring,
  shuts_down, step, run, Valid,
}

-- The two invariants read only the fields that are given here.
pub Valid-expiring :
    (m : SessionManager) (keys : List Text) → Valid m → Valid (record m { expiring = keys })
Valid-expiring m keys v =
    let s = v.sessions_valid in
    record {
      sessions_valid = record {
        no_doubles = s.no_doubles;
        unused = s.unused;
        present = s.present;
        sound = s.sound;
        live = s.live;
        bounded = s.bounded;
      };
      timers_valid = record { armed_valid = v.timers_valid.armed_valid };
    }

IsValid-timers :
    (m : SessionManager) (timers : GoMap ℕ) (armed : List Timer) (next : ℕ)
    → IsValid m
    → IsValid (record m { timers = timers; armed = armed; next_timer = next })
IsValid-timers m timers armed next s = record {
  no_doubles = s.no_doubles;
  unused = s.unused;
  present = s.present;
  sound = s.sound;
  live = s.live;
  bounded = s.bounded;
}

create-Valid :
    (m : SessionManager) (now : ℕ) (key user url : Text)
    → Valid m
    → Valid (create_session m now key user url).0
unfolding create_session insert_session
create-Valid m now key user url v =
    elim (Bool-cases (at_limit m.max_sessions_per_user (GoMap.get m.user_sessions user))) [
      | inl full ↦ rw (full, create_session) v
      | inr allowed ↦
          rw (allowed, create_session)
            (record {
              sessions_valid = insert-IsValid m v.sessions_valid now key user url allowed;
              timers_valid = record { armed_valid = v.timers_valid.armed_valid };
            })
    ]

cleanup-Valid :
    (m : SessionManager) (key : Text) (p : Pointer) (s : Session) (reason : Text)
    → find_session m key ≡ some (p, s)
    → Valid m
    → Valid (cleanup_session m key p s reason)
cleanup-Valid m key p s reason e v =
    let (here, there) = found m key p s e in
    record {
      sessions_valid = cleanup-IsValid m v.sessions_valid key p s reason here there;
      timers_valid = cleanup-TimersValid m key p s reason v.timers_valid;
    }

end-Valid : (m : SessionManager) (key : Text) → Valid m → Valid (end_session m key).0
unfolding end_session
end-Valid m key v = elim (Option-cases (find_session m key)) [
  | inl e ↦ rw (e, end_session) v
  | inr ((p, s), e) ↦ rw (e, end_session) (cleanup-Valid m key p s (lit "session ended") e v)
]

expire-Valid : (m : SessionManager) (key : Text) → Valid m → Valid (expire_session m key)
unfolding expire_session
expire-Valid m key v = elim (Option-cases (find_session m key)) [
  | inl e ↦ rw (e, expire_session) v
  | inr ((p, s), e) ↦ rw (e, expire_session) (cleanup-Valid m key p s (lit "session expired") e v)
]

pub reset-Valid :
    (m : SessionManager) (now : ℕ) (key : Text) → Valid m → Valid (reset_session_timer m now key)
unfolding reset_session_timer
reset-Valid m now key v = elim (Option-cases (find_session m key)) [
  | inl e ↦ rw (e, reset_session_timer) v
  | inr ((p, s), e) ↦
      let (here, there) = found m key p s e in
      rw (e, reset_session_timer)
        (record {
          sessions_valid =
              update-IsValid (stop_timer m key)
                (unfold stop_timer in IsValid-timers m _ _ m.next_timer v.sessions_valid) p s
                (record s { last_poll_at = now; expiration_deadline = now + m.session_timeout })
                (unfold stop_timer in there)
                (record {
                  same_key = refl;
                  same_user = refl;
                  same_done = refl;
                  same_waiters = refl;
                  same_signal = refl;
                });
          timers_valid = record {
            armed_valid = (stop_timer-TimersValid m key v.timers_valid).armed_valid;
          };
        })
]

pub start-Valid :
    (m : SessionManager) (now : ℕ) (key : Text) → Valid m → Valid (start_session_timer m now key)
unfolding start_session_timer
start-Valid m now key v = record {
  sessions_valid = elim (Option-cases (find_session m key)) [
    | inl e ↦ rw (e, start_session_timer) v.sessions_valid
    | inr ((p, s), e) ↦ rw (e, start_session_timer) (IsValid-timers m _ _ _ v.sessions_valid)
  ];
  timers_valid = start-TimersValid m now key v.timers_valid;
}

Armed-fired :
    (timers : GoMap ℕ) (i n : ℕ) (ts : List Timer)
    → Armed timers n ts
    → Armed timers n (stop_armed i ts)
unfolding stop_armed
Armed-fired timers i n [] a = tt
Armed-fired timers i n (t ∷ ts) a =
    let rest = Armed-fired timers i t.id ts a.2 in
    ground (arith, rest, Armed-mono timers t.id n (stop_armed i ts))

pub fire-Valid : (now i : ℕ) (m : SessionManager) → Valid m → Valid (fire now i m)
unfolding fire
fire-Valid now i m v = elim (Option-cases (due_key now i m.armed)) [
  | inl e ↦ rw (e, fire) v
  | inr (key, e) ↦
      rw (e, fire)
        (Valid-expiring (record m { armed = stop_armed i m.armed }) (m.expiring ++ key ∷ [])
          (record {
            sessions_valid = IsValid-timers m m.timers _ m.next_timer v.sessions_valid;
            timers_valid = record {
              armed_valid = Armed-fired m.timers i m.next_timer m.armed v.timers_valid.armed_valid;
            };
          }))
]

run_expiring-Valid : (keys : List Text) (m : SessionManager) → Valid m → Valid (run_expiring keys m)
unfolding run_expiring
run_expiring-Valid [] m v = v
run_expiring-Valid (key ∷ keys) m v =
    expire-Valid (record m { expiring = keys }) key (Valid-expiring m keys v)

pub step-Valid : (m : SessionManager) (c : ℕ × Call) → Valid m → Valid (step m c)
unfolding step
step-Valid m (now, creates key user url) v = create-Valid m now key user url v
step-Valid m (now, ends key) v = end-Valid m key v
step-Valid m (now, expires key) v = expire-Valid m key v
step-Valid m (now, resets key) v = reset-Valid m now key v
step-Valid m (now, starts key) v = start-Valid m now key v
step-Valid m (now, fires i) v = fire-Valid now i m v
step-Valid m (now, runs_expiring) v = run_expiring-Valid m.expiring m v
step-Valid m (now, shuts_down) v = record {
  sessions_valid = shutdown-IsValid m v.sessions_valid;
  timers_valid = shutdown-TimersValid m v.sessions_valid v.timers_valid;
}

pub run-Valid : (m : SessionManager) (cs : List (ℕ × Call)) → Valid m → Valid (run m cs)
unfolding run
run-Valid m [] v = v
run-Valid m (c ∷ cs) v = run-Valid (step m c) cs (step-Valid m c v)

pub new-Valid : (timeout limit : ℕ) → Valid (new_session_manager timeout limit)
unfolding new_session_manager GoMap.get
new-Valid timeout limit = record {
  sessions_valid = record {
    no_doubles = tt;
    unused = λ p h. refl;
    present = λ k p e. cc;
    sound = λ p s e. cc;
    live = λ k p s e f. cc;
    bounded = λ u ks e. cc;
  };
  timers_valid = record { armed_valid = tt };
}
