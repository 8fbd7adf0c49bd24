-- ===== src/Examples.antt =====
-- Runs of the program on concrete inputs.
pub mod Managers
pub mod Tokens
pub mod Requests
pub mod Flow
pub mod Endpoints
pub mod Sorting
pub mod Bundles
pub mod Webhooks
use kagenti_operator.Prelude.{ℕ, ◌≡◌, refl, Text, lit, beq, Option, none, some, List, [], ◌∷◌}
use kagenti_operator.GoMap
use kagenti_operator.TokenBroker.Session.{Session, Pointer}
use kagenti_operator.TokenBroker.Sessions.{
  SessionManager, new_session_manager, fresh_session, find_session, create_session, insert_session,
}
use kagenti_operator.TokenBroker.Sessions.Runs.{Valid, run, step, creates, Call}
use kagenti_operator.TokenBroker.Sessions.Runs.Preserved.{run-Valid, new-Valid}

abbrev pub k1 : Text
k1 = lit "k1"

abbrev pub k2 : Text
k2 = lit "k2"

abbrev pub alice : Text
alice = lit "alice"

abbrev pub bob : Text
bob = lit "bob"

-- A manager with a timeout of 100 and at most two sessions per user, in which alice has made `k1`.
abbrev pub history : List (ℕ × Call)
history = (5, creates k1 alice (lit "https://ui/done")) ∷ []

abbrev pub manager : SessionManager
manager = run (new_session_manager 100 2) history

abbrev pub session : Session
session = fresh_session (new_session_manager 100 2) 5 k1 alice (lit "https://ui/done")

pub manager-Valid : Valid manager
manager-Valid = run-Valid (new_session_manager 100 2) history (new-Valid 100 2)

pub manager-found : find_session manager k1 ≡ some (0, session)
unfolding run step create_session insert_session find_session new_session_manager GoMap.get
    GoMap.put beq
manager-found = refl
