-- ===== src/TokenBroker/Broker/Slots.antt =====
-- What the calls of the session manager (session/manager.go) and `CompleteOAuth` (core/broker.go)
-- leave of the part of a session object that the goroutines of `AcquireToken` share.
use kagenti_operator.Prelude.{
  ℕ, ◌≡◌, refl, Text, lit, Option, none, some, Option-cases, Bool-cases, inl, inr, List, [], ◌∷◌,
  ◌==◌, is_some, arith, ◌∙◌,
}
use kagenti_operator.GoMap
use kagenti_operator.GoMap.{GoMap}
use kagenti_operator.TokenBroker.Channel.{has_room, Signal-cases}
use kagenti_operator.TokenBroker.Errors.{Result, ok, err}
use kagenti_operator.TokenBroker.Session.{Session, OAuthTransaction, Pointer, Heap, store}
use kagenti_operator.TokenBroker.Sessions.{
  SessionManager, find_session, insert_session, at_limit, create_session, end_session,
  expire_session, reset_session_timer, start_session_timer, shutdown, stop_timer, cleanup_session,
  cleanup_all, halted, get_session, validate_session, notified,
}
use kagenti_operator.TokenBroker.Sessions.Invariant.{IsValid, found}
use kagenti_operator.TokenBroker.Sessions.Runs.{
  Call, creates, ends, expires, resets, starts, fires, runs_expiring, shuts_down, fire, step,
  run_expiring,
}
use kagenti_operator.TokenBroker.Broker.{
  complete_oauth, completed_session, owned_completion, with_completion,
}

-- An object keeps its semaphore, and whether it has a transaction. A new one has a free semaphore
-- with one permit.
abbrev pub Slot : Option Session → Option Session → Type 0
Slot none none = Unit {0}
Slot none (some s') = (s'.acquisition_semaphore.held ≡ 0) × (s'.acquisition_semaphore.capacity ≡ 1)
Slot (some s) none = ⊥
Slot (some s) (some s') =
    (s'.acquisition_semaphore ≡ s.acquisition_semaphore)
    × (is_some s'.active_oauth_tx ≡ is_some s.active_oauth_tx)

abbrev pub KeepsSlots : Heap → Heap → Type 0
KeepsSlots h h' = (p : Pointer) → Slot (h p) (h' p)

Slot-refl : (o : Option Session) → Slot o o
Slot-refl none = tt
Slot-refl (some s) = (refl, refl)

Slot-trans : (a b c : Option Session) → Slot a b → Slot b c → Slot a c
Slot-trans none none c f g = g
Slot-trans none (some s') (some s'') f g = ground arith
Slot-trans none (some s') none f g = absurd g
Slot-trans (some s) none c f g = absurd f
Slot-trans (some s) (some s') (some s'') f g = (g.0 ∙ f.0, g.1 ∙ f.1)
Slot-trans (some s) (some s') none f g = absurd g

pub KeepsSlots-store :
    (h : Heap) (p : Pointer) (s s' : Session)
    → h p ≡ some s
    → Slot (some s) (some s')
    → KeepsSlots h (store h p s')
KeepsSlots-store h p s s' e f q = elim (Bool-cases (p == q)) [
  | inl same ↦ let eq : q ≡ p = ground arith in rw (same, eq, e) f
  | inr other ↦ rw other (Slot-refl (h q))
]

cleanup-KeepsSlots :
    (m : SessionManager) (key : Text) (p : Pointer) (s : Session) (reason : Text)
    → m.heap p ≡ some s
    → KeepsSlots m.heap (cleanup_session m key p s reason).heap
unfolding cleanup_session
cleanup-KeepsSlots m key p s reason e =
    KeepsSlots-store m.heap p s (notified s reason) e (refl, refl)

cleanup_all-KeepsSlots :
    (m : SessionManager) (es : GoMap Pointer) → KeepsSlots m.heap (cleanup_all m es).heap
unfolding cleanup_all
cleanup_all-KeepsSlots m [] q = Slot-refl (m.heap q)
cleanup_all-KeepsSlots m ((key, p) ∷ es) q = elim (Option-cases (m.heap p)) [
  | inl e ↦ rw (e, cleanup_all) (cleanup_all-KeepsSlots m es q)
  | inr (s, e) ↦
      let m1 = cleanup_session m key p s (lit "shutdown") in
      rw (e, cleanup_all)
        (Slot-trans (m.heap q) (m1.heap q) ((cleanup_all m1 es).heap q)
          (cleanup-KeepsSlots m key p s (lit "shutdown") e q) (cleanup_all-KeepsSlots m1 es q))
]

expire-KeepsSlots :
    (m : SessionManager) (key : Text) → KeepsSlots m.heap (expire_session m key).heap
unfolding expire_session
expire-KeepsSlots m key q = elim (Option-cases (find_session m key)) [
  | inl e ↦ rw (e, expire_session) (Slot-refl (m.heap q))
  | inr ((p, s), e) ↦
      rw (e, expire_session)
        (cleanup-KeepsSlots m key p s (lit "session expired") (found m key p s e).1 q)
]

create-KeepsSlots :
    (m : SessionManager) (now : ℕ) (key user url : Text)
    → IsValid m
    → KeepsSlots m.heap (create_session m now key user url).0.heap
unfolding create_session insert_session
create-KeepsSlots m now key user url v q =
    elim (Bool-cases (at_limit m.max_sessions_per_user (GoMap.get m.user_sessions user))) [
      | inl full ↦ rw (full, create_session) (Slot-refl (m.heap q))
      | inr allowed ↦
          rw (allowed, create_session)
            (elim (Bool-cases (m.next_pointer == q)) [
              | inl same ↦
                  let free : m.heap q ≡ none = v.unused q (ground arith) in
                  rw (same, free) (refl, refl)
              | inr other ↦ rw other (Slot-refl (m.heap q))
            ])
    ]

end-KeepsSlots : (m : SessionManager) (key : Text) → KeepsSlots m.heap (end_session m key).0.heap
unfolding end_session
end-KeepsSlots m key q = elim (Option-cases (find_session m key)) [
  | inl e ↦ rw (e, end_session) (Slot-refl (m.heap q))
  | inr ((p, s), e) ↦
      rw (e, end_session)
        (cleanup-KeepsSlots m key p s (lit "session ended") (found m key p s e).1 q)
]

reset-KeepsSlots :
    (m : SessionManager) (now : ℕ) (key : Text)
    → KeepsSlots m.heap (reset_session_timer m now key).heap
unfolding reset_session_timer stop_timer
reset-KeepsSlots m now key q = elim (Option-cases (find_session m key)) [
  | inl e ↦ rw (e, reset_session_timer) (Slot-refl (m.heap q))
  | inr ((p, s), e) ↦
      rw (e, reset_session_timer)
        (KeepsSlots-store m.heap p s _ (found m key p s e).1 (refl, refl) q)
]

heap-start :
    (m : SessionManager) (now : ℕ) (key : Text) → (start_session_timer m now key).heap ≡ m.heap
unfolding start_session_timer
heap-start m now key = ground arith

heap-fire : (now i : ℕ) (m : SessionManager) → (fire now i m).heap ≡ m.heap
unfolding fire
heap-fire now i m = ground arith

run_expiring-KeepsSlots :
    (keys : List Text) (m : SessionManager) → KeepsSlots m.heap (run_expiring keys m).heap
unfolding run_expiring
run_expiring-KeepsSlots [] m q = Slot-refl (m.heap q)
run_expiring-KeepsSlots (key ∷ keys) m q = expire-KeepsSlots (record m { expiring = keys }) key q

shutdown-KeepsSlots : (m : SessionManager) → KeepsSlots m.heap (shutdown m).heap
unfolding shutdown
shutdown-KeepsSlots m = elim (Signal-cases m.shutdown_chan) [
  | inl e ↦ rw (e, shutdown) (unfold halted in cleanup_all-KeepsSlots (halted m) m.sessions)
  | inr (inl e) ↦ rw (e, shutdown) (λ q. Slot-refl (m.heap q))
  | inr (inr e) ↦ rw (e, shutdown) (λ q. Slot-refl (m.heap q))
]

pub step-KeepsSlots :
    (m : SessionManager) (c : ℕ × Call) → IsValid m → KeepsSlots m.heap (step m c).heap
unfolding step
step-KeepsSlots m (now, creates key user url) v = create-KeepsSlots m now key user url v
step-KeepsSlots m (now, ends key) v = end-KeepsSlots m key
step-KeepsSlots m (now, expires key) v = expire-KeepsSlots m key
step-KeepsSlots m (now, resets key) v = reset-KeepsSlots m now key
step-KeepsSlots m (now, starts key) v = λ q. rw heap-start (Slot-refl (m.heap q))
step-KeepsSlots m (now, fires i) v = λ q. rw heap-fire (Slot-refl (m.heap q))
step-KeepsSlots m (now, runs_expiring) v = run_expiring-KeepsSlots m.expiring m
step-KeepsSlots m (now, shuts_down) v = shutdown-KeepsSlots m

-- `CompleteOAuth` changes nothing, or sends to the transaction of the session under the key.
module _ {ℓ} (P : SessionManager → Type ℓ) (m : SessionManager) (key code state : Text) (same : P m)
    (sent : (p : Pointer) (s : Session) (tx : OAuthTransaction)
      → m.heap p ≡ some s
      → s.active_oauth_tx ≡ some tx
      → P (record m { heap = store m.heap p (with_completion s tx code state) })) where
  completed_cases :
      (p : Pointer) (s : Session) (tx : Option OAuthTransaction)
      → m.heap p ≡ some s
      → s.active_oauth_tx ≡ tx
      → P (completed_session m code state (ok (p, s))).0
  completed_cases p s none e f = rw f same
  completed_cases p s (some tx) e f = rw f (elim (Bool-cases (has_room tx.completion_chan)) [
    | inl room ↦ rw room (sent p s tx e f)
    | inr full ↦ rw full same
  ])

  found_cases :
      (r : Result (Pointer × Session))
      → get_session m key ≡ r
      → P (completed_session m code state r).0
  unfolding get_session find_session
  found_cases (err e) f = same
  found_cases (ok (p, s)) f = completed_cases p s s.active_oauth_tx (ground arith) refl

  owned_cases : (r : Result (Unit {0})) → P (owned_completion m key code state r).0
  owned_cases (err e) = same
  owned_cases (ok u) = found_cases (get_session m key) refl

  pub complete_oauth_cases : (user : Text) → P (complete_oauth m key user code state).0
  unfolding complete_oauth
  complete_oauth_cases user = owned_cases (validate_session m key user)
