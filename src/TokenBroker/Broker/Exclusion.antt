-- ===== src/TokenBroker/Broker/Exclusion.antt =====
-- Mutual exclusion between the calls of `AcquireToken` (core/broker.go) for one session, over the
-- schedules of the whole broker.
use kagenti_operator.Prelude.{
  ℕ, zero, suc, ◌≤◌, ◌≡◌, ◌≢◌, refl, ap, Text, Option, none, some, Option-cases, inl, inr, List, [],
  ◌∷◌, ℤ, arith, get_elem?,
}
use kagenti_operator.TokenBroker.Session.{Session, Pointer, Heap, store}
use kagenti_operator.TokenBroker.Sessions.{new_session_manager}
use kagenti_operator.TokenBroker.Sessions.Invariant.Changes.{IsUpdate}
use kagenti_operator.TokenBroker.Sessions.Runs.Preserved.{step-Valid, new-Valid}
use kagenti_operator.TokenBroker.Cache.{new_token_cache}
use kagenti_operator.TokenBroker.Broker
use kagenti_operator.TokenBroker.Broker.{
  Pc, Request, Shared, Input, points_to, with_completion, complete_oauth,
}
use kagenti_operator.TokenBroker.Broker.Sharing.{
  held_of, holding, session_step-StepFacts, advance_at, advance_idle, IdleFacts,
}
use kagenti_operator.TokenBroker.Broker.Slots.{
  Slot, KeepsSlots-store, step-KeepsSlots, complete_oauth_cases,
}
use kagenti_operator.TokenBroker.Broker.Schedule.{
  System, Move, arrives, steps, calls, completes, polls, cleans, set_pc, move, moves, take_event,
  polled, step_request,
}
use kagenti_operator.TokenBroker.Broker.Holders.{
  holds, holders, IsFine, AllFine, Consistent, holders-set_pc, holds-le-holders, IsFine-at,
}
use kagenti_operator.TokenBroker.Broker.Consistency.{
  store-Valid, slots-Consistent, holds-at, holding-nowhere, step-Consistent,
}

-- A step of a goroutine that points to no session.
IsFine-idle : (w : Shared) (out : Shared × Pc) → IdleFacts w out → IsFine w.manager.heap out.1
IsFine-idle w out f = record {
  present = f.present;
  has_tx = λ p e e'. ground (arith, f.no_flow);
  alive = f.no_crash;
}

holds-free : (p : Pointer) (pc : Pc) → holding pc ≡ 0 → holds p pc ≡ 0
holds-free p pc e = elim (Option-cases (points_to pc)) [
  | inl f ↦ rw f refl
  | inr (q, f) ↦ rw (f, e) (ground arith)
]

AllFine-set :
    (h : Heap) (rs : List Request) (i : ℕ) (pc : Pc)
    → IsFine h pc
    → AllFine h rs
    → AllFine h (set_pc rs i pc)
unfolding AllFine
AllFine-set h [] i pc f a = tt
AllFine-set h (r ∷ rs) zero pc f a = (f, a.1)
AllFine-set h (r ∷ rs) (suc i) pc f a = (a.0, AllFine-set h rs i pc f a.1)

idle-Consistent :
    (sys : System) (i : ℕ) (r : Request) (out : Shared × Pc)
    → Consistent sys
    → get_elem? sys.requests i ≡ some r
    → points_to r.pc ≡ none
    → IdleFacts sys.shared out
    → Consistent (record { shared = out.0; requests = set_pc sys.requests i out.1 })
idle-Consistent sys i r out c e idle f = record {
  manager_valid = rw f.same c.manager_valid;
  permits = rw f.same c.permits;
  counted = λ p. rw f.same (
      omega (
        arith,
        c.counted p,
        holders-set_pc p sys.requests i r out.1 e,
        holds-free p r.pc (holding-nowhere r.pc idle),
        holds-free p out.1 f.free,
      ));
  all_fine = rw f.same (
      AllFine-set sys.shared.manager.heap sys.requests i out.1 (IsFine-idle sys.shared out f)
        c.all_fine);
}

module _ (unmarshal_exp : Text → Option ℤ) (callback_url : Text) where
  steps-Consistent :
      (sys : System) (now i : ℕ) (input : Input) (o : Option Request)
      → get_elem? sys.requests i ≡ o
      → Consistent sys
      → Consistent (step_request unmarshal_exp callback_url sys now i input o)
  steps-Consistent sys now i input none e c = c
  steps-Consistent sys now i input (some r) e c =
      let fine = IsFine-at sys.shared.manager.heap sys.requests i r c.all_fine e in
      elim (Option-cases (points_to r.pc)) [
        | inl idle ↦
            idle-Consistent sys i r
              (Broker.advance unmarshal_exp callback_url now sys.shared r input) c e idle
              (advance_idle unmarshal_exp callback_url now sys.shared r input r.pc refl idle
                fine.alive)
        | inr (p, here) ↦ elim (Option-cases (sys.shared.manager.heap p)) [
          | inl gone ↦ absurd (fine.present p here gone)
          | inr (s, there) ↦
              rw
                (advance_at unmarshal_exp callback_url now sys.shared r input r.pc p s refl here
                  there)
                (step-Consistent sys c i r p s _ _ e here there
                  (session_step-StepFacts unmarshal_exp callback_url now sys.shared.cache r p s r.pc
                    input here (λ flow. rw there at (fine.has_tx p here flow))
                    (omega (
                      arith,
                      ap held_of there,
                      c.counted p,
                      holds-le-holders p sys.requests i r e,
                      holds-at p r.pc here,
                    )))
                  _ refl)
        ]
      ]

  -- A change that the map of sessions does not show, of the object at `p`.
  object-Consistent :
      (sys : System) (p : Pointer) (s s' : Session)
      → Consistent sys
      → sys.shared.manager.heap p ≡ some s
      → IsUpdate s s'
      → Slot (some s) (some s')
      → Consistent (record sys {
        shared = record sys.shared {
          manager = record sys.shared.manager { heap = store sys.shared.manager.heap p s' };
        };
      })
  object-Consistent sys p s s' c e u k =
      slots-Consistent sys _ c (store-Valid sys.shared.manager p s s' c.manager_valid e u)
        (KeepsSlots-store sys.shared.manager.heap p s s' e k)

  polls-Consistent :
      (sys : System) (p : Pointer) (o : Option Session)
      → sys.shared.manager.heap p ≡ o
      → Consistent sys
      → Consistent
          (record sys { shared = record sys.shared { manager = polled sys.shared.manager p o } })
  polls-Consistent sys p none e c = c
  polls-Consistent sys p (some s) e c =
      object-Consistent sys p s (take_event s s.event_waiters.buffer) c e
        (record {
          same_key = ground arith;
          same_user = ground arith;
          same_done = ground arith;
          same_waiters = ground arith;
          same_signal = ground arith;
        })
        (ground arith)

  move-Consistent :
      (sys : System) (m : ℕ × Move)
      → Consistent sys
      → Consistent (move unmarshal_exp callback_url sys m)
  unfolding move
  move-Consistent sys (now, arrives key user resource_url) c = record {
    manager_valid = c.manager_valid;
    permits = c.permits;
    counted = λ p. unfold holders in omega (arith, c.counted p);
    all_fine =
        unfold AllFine in
        (record { present = λ p e. cc; has_tx = λ p e f. cc; alive = λ h. cc }, c.all_fine);
  }
  move-Consistent sys (now, steps i input) c =
      steps-Consistent sys now i input (get_elem? sys.requests i) refl c
  move-Consistent sys (now, calls call) c =
      slots-Consistent sys _ c (step-Valid sys.shared.manager (now, call) c.manager_valid)
        (step-KeepsSlots sys.shared.manager (now, call) c.manager_valid.sessions_valid)
  move-Consistent sys (now, completes key user code state) c =
      complete_oauth_cases
        (λ m. Consistent (record sys { shared = record sys.shared { manager = m } }))
        sys.shared.manager key code state c
        (λ p s tx e f.
          object-Consistent sys p s (with_completion s tx code state) c e
            (record {
              same_key = refl;
              same_user = refl;
              same_done = refl;
              same_waiters = refl;
              same_signal = refl;
            })
            (refl, rw f refl))
        user
  move-Consistent sys (now, polls p) c = polls-Consistent sys p (sys.shared.manager.heap p) refl c
  move-Consistent sys (now, cleans) c = record {
    manager_valid = c.manager_valid;
    permits = c.permits;
    counted = c.counted;
    all_fine = c.all_fine;
  }

  pub moves-Consistent :
      (sys : System) (ms : List (ℕ × Move))
      → Consistent sys
      → Consistent (moves unmarshal_exp callback_url sys ms)
  unfolding moves
  moves-Consistent sys [] c = c
  moves-Consistent sys (m ∷ ms) c =
      moves-Consistent (move unmarshal_exp callback_url sys m) ms (move-Consistent sys m c)

-- The broker as `NewSessionManager` and `NewTokenCache` set it up, before the first request.
abbrev pub initial : (timeout limit : ℕ) → System
initial timeout limit = record {
  shared = record { manager = new_session_manager timeout limit; cache = new_token_cache };
  requests = [];
}

initial-Consistent : (timeout limit : ℕ) → Consistent (initial timeout limit)
initial-Consistent timeout limit = record {
  manager_valid = new-Valid timeout limit;
  permits = λ p s e. unfold new_session_manager in cc;
  counted = λ p. unfold new_session_manager holders in refl;
  all_fine = unfold AllFine in tt;
}

reached :
    (unmarshal_exp : Text → Option ℤ) (callback_url : Text) (timeout limit : ℕ)
    (ms : List (ℕ × Move))
    → Consistent (moves unmarshal_exp callback_url (initial timeout limit) ms)
reached unmarshal_exp callback_url timeout limit ms =
    moves-Consistent unmarshal_exp callback_url (initial timeout limit) ms
      (initial-Consistent timeout limit)

-- Under every schedule from the start of the program, at most one goroutine is between the `Acquire`
-- and the `Release` of the semaphore of one session object.
pub one_holder :
    (unmarshal_exp : Text → Option ℤ) (callback_url : Text) (timeout limit : ℕ)
    (ms : List (ℕ × Move)) (p : Pointer)
    → holders p (moves unmarshal_exp callback_url (initial timeout limit) ms).requests ≤ 1
one_holder unmarshal_exp callback_url timeout limit ms p =
    let sys = moves unmarshal_exp callback_url (initial timeout limit) ms in
    let c = reached unmarshal_exp callback_url timeout limit ms in
    elim (Option-cases (sys.shared.manager.heap p)) [
      | inl e ↦ omega (arith, c.counted p, ap held_of e)
      | inr (s, e) ↦ omega (arith, c.counted p, ap held_of e, c.permits p s e)
    ]

-- Under every schedule from the start of the program, no goroutine of `AcquireToken` has crashed, which
-- a step does that finds no session object or no transaction to work on.
pub no_nil_dereference :
    (unmarshal_exp : Text → Option ℤ) (callback_url : Text) (timeout limit : ℕ)
    (ms : List (ℕ × Move)) (i : ℕ) (r : Request)
    → get_elem? (moves unmarshal_exp callback_url (initial timeout limit) ms).requests i ≡ some r
    → r.pc ≢ Broker.crashed
no_nil_dereference unmarshal_exp callback_url timeout limit ms i r e =
    let sys = moves unmarshal_exp callback_url (initial timeout limit) ms in
    (IsFine-at sys.shared.manager.heap sys.requests i r
      (reached unmarshal_exp callback_url timeout limit ms).all_fine e).alive

-- Under every schedule from the start of the program, the semaphore of a session object has one permit,
-- and as many are taken as there are goroutines between their `Acquire` and their deferred `Release`.
pub permit_accounted :
    (unmarshal_exp : Text → Option ℤ) (callback_url : Text) (timeout limit : ℕ)
    (ms : List (ℕ × Move)) (p : Pointer) (s : Session)
    → (moves unmarshal_exp callback_url (initial timeout limit) ms).shared.manager.heap p ≡ some s
    → (s.acquisition_semaphore.capacity ≡ 1)
      × (s.acquisition_semaphore.held
          ≡ holders p (moves unmarshal_exp callback_url (initial timeout limit) ms).requests)
permit_accounted unmarshal_exp callback_url timeout limit ms p s e =
    let c = reached unmarshal_exp callback_url timeout limit ms in
    ((c.permits p s e).0, rw e at (c.counted p))
