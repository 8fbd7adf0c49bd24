-- ===== src/TokenBroker/Broker/Schedule.antt =====
-- The token broker at work: any number of `AcquireToken` calls in flight (core/broker.go), between
-- whose steps the session manager is called, callbacks come in, the backend receives events and the
-- ticker of cmd/main.go cleans the cache. A schedule is the list of these moves, each with the clock.
use kagenti_operator.Prelude.{ℕ, zero, suc, Text, Option, none, some, List, [], ◌∷◌, get_elem?, ℤ}
use kagenti_operator.TokenBroker.Session.{Session, Pointer, store, Event}
use kagenti_operator.TokenBroker.Sessions.{SessionManager}
use kagenti_operator.TokenBroker.Sessions.Runs
use kagenti_operator.TokenBroker.Sessions.Runs.{Call}
use kagenti_operator.TokenBroker.Cache.{cleanup_expired_tokens}
use kagenti_operator.TokenBroker.Broker.{
  Pc, started, Request, Input, Shared, advance, complete_oauth,
}

pub record System : Type 0 where
  pub shared : Shared
  pub requests : List Request

pub data Move : Type 0 where
  arrives : (key user resource_url : Text) → Move
  steps : (i : ℕ) (input : Input) → Move
  calls : Call → Move
  completes : (key user code state : Text) → Move
  polls : (p : Pointer) → Move
  cleans : Move

abbrev pub set_pc : List Request → ℕ → Pc → List Request
set_pc [] i pc = []
set_pc (r ∷ rs) zero pc = record r { pc = pc } ∷ rs
set_pc (r ∷ rs) (suc i) pc = r ∷ set_pc rs i pc

abbrev on_manager : System → SessionManager → System
on_manager sys m = record sys { shared = record sys.shared { manager = m } }

-- case event := <-session.EventWaiters, of a poll that has the session at hand
abbrev pub take_event : Session → List Event → Session
take_event s [] = s
take_event s (event ∷ rest) = record s { event_waiters = record s.event_waiters { buffer = rest } }

abbrev pub polled : SessionManager → Pointer → Option Session → SessionManager
polled m p none = m
polled m p (some s) = record m { heap = store m.heap p (take_event s s.event_waiters.buffer) }

module _ (unmarshal_exp : Text → Option ℤ) (callback_url : Text) where
  abbrev advanced : System → ℕ → Shared × Pc → System
  advanced sys i (w, pc) = record { shared = w; requests = set_pc sys.requests i pc }

  abbrev pub step_request : System → ℕ → ℕ → Input → Option Request → System
  step_request sys now i input none = sys
  step_request sys now i input (some r) =
      advanced sys i (advance unmarshal_exp callback_url now sys.shared r input)

  unfoldable pub move : System → ℕ × Move → System
  move sys (now, arrives key user resource_url) = record sys {
    requests =
        record { session_key = key; user_id = user; resource_url = resource_url; pc = started }
        ∷ sys.requests;
  }
  move sys (now, steps i input) = step_request sys now i input (get_elem? sys.requests i)
  move sys (now, calls c) = on_manager sys (Runs.step sys.shared.manager (now, c))
  move sys (now, completes key user code state) =
      on_manager sys (complete_oauth sys.shared.manager key user code state).0
  move sys (now, polls p) = on_manager sys (polled sys.shared.manager p (sys.shared.manager.heap p))
  move sys (now, cleans) = record sys {
    shared = record sys.shared { cache = (cleanup_expired_tokens now sys.shared.cache).0 };
  }

  unfoldable pub moves : System → List (ℕ × Move) → System
  moves sys [] = sys
  moves sys (m ∷ ms) = moves (move sys m) ms
