-- ===== src/TokenBroker/Broker/Consistency.antt =====
-- What holds between the moves of a schedule, over a step of `AcquireToken` (core/broker.go) at its
-- session and over a change that the goroutines do not see.
use kagenti_operator.Prelude.{
  ℕ, ◌+◌, ◌≤◌, ◌≡◌, ◌≢◌, refl, sym, ap, ◌∙◌, true, false, Option, none, some, Option-cases,
  Bool-cases, inl, inr, List, [], ◌∷◌, ◌==◌, arith, get_elem?,
}
use kagenti_operator.TokenBroker.Session.{Session, Pointer, Heap, store}
use kagenti_operator.TokenBroker.Sessions.{SessionManager}
use kagenti_operator.TokenBroker.Sessions.Invariant.Changes.{IsUpdate, update-IsValid}
use kagenti_operator.TokenBroker.Sessions.Runs.{Valid}
use kagenti_operator.TokenBroker.Broker.{Pc, Request, Shared, points_to}
use kagenti_operator.TokenBroker.Broker.Sharing.{held_of, tx_of, holding, in_flow, StepFacts}
use kagenti_operator.TokenBroker.Broker.Slots.{Slot, KeepsSlots}
use kagenti_operator.TokenBroker.Broker.Schedule.{System, set_pc}
use kagenti_operator.TokenBroker.Broker.Holders.{
  holds, holders, IsFine, AllFine, Consistent, holders-set_pc, AllFine-set_pc,
}

pub store-Valid :
    (m : SessionManager) (p : Pointer) (s s' : Session)
    → Valid m
    → m.heap p ≡ some s
    → IsUpdate s s'
    → Valid (record m { heap = store m.heap p s' })
store-Valid m p s s' v e u = record {
  sessions_valid = update-IsValid m v.sessions_valid p s s' e u;
  timers_valid = record { armed_valid = v.timers_valid.armed_valid };
}

Slot-held : (o o' : Option Session) → Slot o o' → held_of o' ≡ held_of o
Slot-held none none f = refl
Slot-held none (some s') f = f.0
Slot-held (some s) none f = absurd f
Slot-held (some s) (some s') f = rw f.0 refl

Slot-tx : (o o' : Option Session) → Slot o o' → tx_of o ≡ true → tx_of o' ≡ true
Slot-tx none o' f e = cc
Slot-tx (some s) none f e = absurd f
Slot-tx (some s) (some s') f e = f.1 ∙ e

Slot-present : (o o' : Option Session) → Slot o o' → o ≢ none → o' ≢ none
Slot-present none o' f e = absurd (e refl)
Slot-present (some s) none f e = absurd f
Slot-present (some s) (some s') f e = λ h. cc

Slot-permits :
    (o : Option Session) (s' : Session)
    → ((s : Session)
        → o ≡ some s
        → (s.acquisition_semaphore.capacity ≡ 1) × (s.acquisition_semaphore.held ≤ 1))
    → Slot o (some s')
    → (s'.acquisition_semaphore.capacity ≡ 1) × (s'.acquisition_semaphore.held ≤ 1)
Slot-permits none s' was f = (f.1, omega (arith, f.0))
Slot-permits (some s) s' was f = rw f.0 (was s refl)

IsFine-slots : (h h' : Heap) (pc : Pc) → KeepsSlots h h' → IsFine h pc → IsFine h' pc
IsFine-slots h h' pc k f = record {
  present = λ p e. Slot-present (h p) (h' p) (k p) (f.present p e);
  has_tx = λ p e e'. Slot-tx (h p) (h' p) (k p) (f.has_tx p e e');
  alive = f.alive;
}

AllFine-slots : (h h' : Heap) (rs : List Request) → KeepsSlots h h' → AllFine h rs → AllFine h' rs
unfolding AllFine
AllFine-slots h h' [] k a = tt
AllFine-slots h h' (r ∷ rs) k a = (IsFine-slots h h' r.pc k a.0, AllFine-slots h h' rs k a.1)

-- A move that leaves the goroutines where they are.
pub slots-Consistent :
    (sys : System) (w : Shared)
    → Consistent sys
    → Valid w.manager
    → KeepsSlots sys.shared.manager.heap w.manager.heap
    → Consistent (record sys { shared = w })
slots-Consistent sys w c v k = record {
  manager_valid = v;
  permits = λ p s e. Slot-permits (sys.shared.manager.heap p) s (c.permits p) (rw e at (k p));
  counted = λ p. Slot-held (sys.shared.manager.heap p) (w.manager.heap p) (k p) ∙ c.counted p;
  all_fine = AllFine-slots sys.shared.manager.heap w.manager.heap sys.requests k c.all_fine;
}

pub holds-at : (p : Pointer) (pc : Pc) → points_to pc ≡ some p → holds p pc ≡ holding pc
holds-at p pc e = rw e (ground arith)

holds-elsewhere :
    (p : Pointer) (pc : Pc)
    → ((q : Pointer) → points_to pc ≡ some q → (q == p) ≡ false)
    → holds p pc ≡ 0
holds-elsewhere p pc f = elim (Option-cases (points_to pc)) [
  | inl e ↦ rw e refl
  | inr (q, e) ↦ rw (e, f q e) refl
]

-- Who has a permit, or is in the flow, points to a session.
pub holding-nowhere : (pc : Pc) → points_to pc ≡ none → holding pc ≡ 0
holding-nowhere pc e = ground arith

holds-own :
    (p : Pointer) (pc : Pc)
    → ((q : Pointer) → points_to pc ≡ some q → q ≡ p)
    → holds p pc ≡ holding pc
holds-own p pc f = elim (Option-cases (points_to pc)) [
  | inl e ↦ rw e (sym (holding-nowhere pc e))
  | inr (q, e) ↦ holds-at p pc (e ∙ ap some (f q e))
]

in_flow-holding : (pc : Pc) → in_flow pc ≡ true → holding pc ≡ 1
in_flow-holding pc e = ground arith

-- A step of the goroutine `i` at its session.
module _ (sys : System) (con : Consistent sys) (i : ℕ) (r : Request) (p : Pointer) (s s' : Session)
    (pc : Pc) (at_i : get_elem? sys.requests i ≡ some r) (here : points_to r.pc ≡ some p)
    (there : sys.shared.manager.heap p ≡ some s) (facts : StepFacts p s s' r.pc pc) where
  step-IsUpdate : IsUpdate s s'
  step-IsUpdate =
      let sound = con.manager_valid.sessions_valid.sound p s there in
      record {
        same_key = facts.same_key;
        same_user = facts.same_user;
        same_done = facts.same_done;
        same_waiters = facts.same_waiters sound.no_waiters ∙ sym sound.no_waiters;
        same_signal = facts.same_signal sound.events_open ∙ sym sound.events_open;
      }

  step_keeps :
      (pc' : Pc)
      → holds p pc' + holding r.pc ≤ 1
      → IsFine sys.shared.manager.heap pc'
      → IsFine (store sys.shared.manager.heap p s') pc'
  step_keeps pc' b f = record {
    present = λ q e. ground (arith, f.present q e);
    has_tx = λ q e e'. elim (Bool-cases (p == q)) [
      | inl same ↦
          let eq : q ≡ p = ground arith in
          let free : holding r.pc ≡ 0 =
            omega (arith, b, holds-at p pc' (e ∙ ap some eq), in_flow-holding pc' e') in
          rw same (rw (facts.keeps_tx free) (rw there at (rw eq at (f.has_tx q e e'))))
      | inr other ↦ rw other (f.has_tx q e e')
    ];
    alive = f.alive;
  }

  step_new : IsFine (store sys.shared.manager.heap p s') pc
  step_new = record {
    present = λ q e. ground (arith, facts.stays q e);
    has_tx = λ q e e'. let eq : q ≡ p = facts.stays q e in rw eq (ground (arith, facts.has_tx e'));
    alive = facts.no_crash;
  }

  step_counted :
      (q : Pointer)
      → held_of (store sys.shared.manager.heap p s' q) ≡ holders q (set_pc sys.requests i pc)
  step_counted q = elim (Bool-cases (p == q)) [
    | inl same ↦
        let eq : q ≡ p = ground arith in
        let was : s.acquisition_semaphore.held ≡ holders p sys.requests =
          rw there at (con.counted p) in
        rw same (
          rw eq (
            omega (
              arith,
              was,
              facts.counts,
              holders-set_pc p sys.requests i r pc at_i,
              holds-at p r.pc here,
              holds-own p pc facts.stays,
            )))
    | inr other ↦ rw other (
        omega (
          arith,
          con.counted q,
          holders-set_pc q sys.requests i r pc at_i,
          holds-elsewhere q r.pc (λ t e. ground arith),
          holds-elsewhere q pc (λ t e. rw (facts.stays t e) other),
        ))
  ]

  pub step-Consistent :
      (w : Shared)
      → w.manager ≡ record sys.shared.manager { heap = store sys.shared.manager.heap p s' }
      → Consistent (record { shared = w; requests = set_pc sys.requests i pc })
  step-Consistent w same = record {
    manager_valid =
        rw same (store-Valid sys.shared.manager p s s' con.manager_valid there step-IsUpdate);
    permits = λ q t e. elim (Bool-cases (p == q)) [
      | inl at_p ↦ ground (arith, same, con.permits p s there, facts.same_capacity, facts.within)
      | inr other ↦ con.permits q t (rw (same, other) at e)
    ];
    counted = λ q. rw same (step_counted q);
    all_fine = rw same (
        AllFine-set_pc sys.shared.manager.heap (store sys.shared.manager.heap p s') p (holding r.pc)
          step_keeps sys.requests i r pc at_i (holds-at p r.pc here)
          (omega (arith, con.counted p, ap held_of there, con.permits p s there)) con.all_fine
          step_new);
  }
