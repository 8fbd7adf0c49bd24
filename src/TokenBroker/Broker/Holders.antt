-- ===== src/TokenBroker/Broker/Holders.antt =====
-- Which goroutines of core/broker.go have the permit of a session, and what holds between the moves
-- of a schedule.
use mathlib.Core.Path.{subst}
use kagenti_operator.Prelude.{
  ℕ, zero, suc, ◌+◌, ◌≤◌, ◌≡◌, ◌≢◌, ap, true, Option, none, some, List, [], ◌∷◌, ◌==◌,
  if◌then◌else◌, arith, get_elem?,
}
use kagenti_operator.TokenBroker.Session.{Session, Pointer, Heap}
use kagenti_operator.TokenBroker.Sessions.Runs.{Valid}
use kagenti_operator.TokenBroker.Broker
use kagenti_operator.TokenBroker.Broker.{Pc, Request, Shared, points_to}
use kagenti_operator.TokenBroker.Broker.Sharing.{held_of, tx_of, holding, in_flow}
use kagenti_operator.TokenBroker.Broker.Schedule.{System, set_pc}

abbrev points_here : Option Pointer → Pointer → ℕ → ℕ
points_here none p n = 0
points_here (some q) p n = if q == p then n else 0

-- 1 if the goroutine has the permit of the session at `p`.
abbrev pub holds : Pointer → Pc → ℕ
holds p pc = points_here (points_to pc) p (holding pc)

-- The number of goroutines that have the permit of the session at `p`.
unfoldable pub holders : Pointer → List Request → ℕ
holders p [] = 0
holders p (r ∷ rs) = holds p r.pc + holders p rs

pub record IsFine (h : Heap) (pc : Pc) : Type 0 where
  pub present : (p : Pointer) → points_to pc ≡ some p → h p ≢ none
  pub has_tx : (p : Pointer) → points_to pc ≡ some p → in_flow pc ≡ true → tx_of (h p) ≡ true
  pub alive : pc ≢ Broker.crashed

unfoldable pub AllFine : Heap → List Request → Type 0
AllFine h [] = Unit {0}
AllFine h (r ∷ rs) = IsFine h r.pc × AllFine h rs

pub record Consistent (sys : System) : Type 0 where
  pub manager_valid : Valid sys.shared.manager
  pub permits :
      (p : Pointer) (s : Session)
      → sys.shared.manager.heap p ≡ some s
      → (s.acquisition_semaphore.capacity ≡ 1) × (s.acquisition_semaphore.held ≤ 1)
  pub counted : (p : Pointer) → held_of (sys.shared.manager.heap p) ≡ holders p sys.requests
  pub all_fine : AllFine sys.shared.manager.heap sys.requests

pub holders-set_pc :
    (p : Pointer) (rs : List Request) (i : ℕ) (r : Request) (pc : Pc)
    → get_elem? rs i ≡ some r
    → holders p (set_pc rs i pc) + holds p r.pc ≡ holders p rs + holds p pc
unfolding holders
holders-set_pc p [] i r pc e = cc
holders-set_pc p (x ∷ xs) zero r pc e = let eq : x ≡ r = ground arith in rw eq (omega arith)
holders-set_pc p (x ∷ xs) (suc i) r pc e = omega (arith, holders-set_pc p xs i r pc e)

pub holds-le-holders :
    (p : Pointer) (rs : List Request) (i : ℕ) (r : Request)
    → get_elem? rs i ≡ some r
    → holds p r.pc ≤ holders p rs
unfolding holders
holds-le-holders p [] i r e = cc
holds-le-holders p (x ∷ xs) zero r e = let eq : x ≡ r = ground arith in rw eq (omega arith)
holds-le-holders p (x ∷ xs) (suc i) r e = omega (arith, holds-le-holders p xs i r e)

pub IsFine-at :
    (h : Heap) (rs : List Request) (i : ℕ) (r : Request)
    → AllFine h rs
    → get_elem? rs i ≡ some r
    → IsFine h r.pc
unfolding AllFine
IsFine-at h [] i r a e = cc
IsFine-at h (x ∷ xs) zero r a e =
    let eq : x ≡ r = ground arith in subst (λ (t : Request). IsFine h t.pc) eq a.0
IsFine-at h (x ∷ xs) (suc i) r a e = IsFine-at h xs i r a.1 e

-- A change at `p` leaves a goroutine fine if the goroutine does not have the permit of `p`.
module _ (h h' : Heap) (p : Pointer) (n : ℕ)
    (keep : (pc : Pc) → holds p pc + n ≤ 1 → IsFine h pc → IsFine h' pc) where
  pub AllFine-rest : (rs : List Request) → holders p rs + n ≤ 1 → AllFine h rs → AllFine h' rs
  unfolding AllFine holders
  AllFine-rest [] b a = tt
  AllFine-rest (r ∷ rs) b a = (keep r.pc (omega arith) a.0, AllFine-rest rs (omega arith) a.1)

  pub AllFine-set_pc :
      (rs : List Request) (i : ℕ) (r : Request) (pc : Pc)
      → get_elem? rs i ≡ some r
      → holds p r.pc ≡ n
      → holders p rs ≤ 1
      → AllFine h rs
      → IsFine h' pc
      → AllFine h' (set_pc rs i pc)
  unfolding AllFine holders
  AllFine-set_pc [] i r pc e f b a new = tt
  AllFine-set_pc (x ∷ xs) zero r pc e f b a new =
      let eq : x ≡ r = ground arith in
      (new, AllFine-rest xs (omega (arith, ap (λ (t : Request). holds p t.pc) eq)) a.1)
  AllFine-set_pc (x ∷ xs) (suc i) r pc e f b a new = (
    keep x.pc (omega (arith, holds-le-holders p xs i r e)) a.0,
    AllFine-set_pc xs i r pc e f (omega arith) a.1 new,
  )
