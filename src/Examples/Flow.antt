-- ===== src/Examples/Flow.antt =====
-- A schedule of the token broker on concrete inputs: two requests for one session, of which the first
-- gets the permit.
use kagenti_operator.Prelude.{
  ℕ, ◌≤◌, ◌≡◌, ◌≢◌, refl, false, Text, lit, Option, none, some, List, [], ◌∷◌, get_elem?, ℤ, beq,
  ◌⊎◌, sym, ◌∙◌, length, arith,
}
use kagenti_operator.GoMap
use kagenti_operator.TokenBroker.Channel.{opened}
use kagenti_operator.TokenBroker.Errors.{Error, message, library_error}
use kagenti_operator.TokenBroker.Semaphore
use kagenti_operator.TokenBroker.Semaphore.{sent, acquire}
use kagenti_operator.TokenBroker.Session.{Session, PkceChallenge, OAuthTransaction, OAuthCompletion}
use kagenti_operator.TokenBroker.Sessions.{
  new_session_manager, create_session, insert_session, at_limit, validate_session, find_session,
  get_session,
}
use kagenti_operator.TokenBroker.Sessions.Runs
use kagenti_operator.TokenBroker.Sessions.Runs.{creates, ends, run}
use kagenti_operator.TokenBroker.Cache.{new_token_cache, get_token, find_entry}
use kagenti_operator.TokenBroker.Broker
use kagenti_operator.TokenBroker.Broker.{
  Request, Pc, proceeds, takes, acquired, waiting, advance, session_step, new_transaction,
}
use kagenti_operator.TokenBroker.Broker.Leftovers.{leftover_token_served}
use kagenti_operator.TokenBroker.Broker.{Shared}
use kagenti_operator.TokenBroker.JwtExpiry.{parse_jwt_expiry, is_token_expired}
use kagenti_operator.Strings.{split}
use kagenti_operator.TokenBroker.Broker.Schedule.{System, Move, calls, arrives, steps, move, moves}
use kagenti_operator.TokenBroker.Broker.Holders.{holders}
use kagenti_operator.TokenBroker.Broker.Exclusion.{
  initial, one_holder, no_nil_dereference, permit_accounted,
}
use kagenti_operator.TokenBroker.Errors.{ok}
use kagenti_operator.TokenBroker.Broker.Termination.{
  moves_left, after_turns, to_pc, Turn, Moves, CanMove, acquire_token_terminates,
}
use kagenti_operator.Examples.{k1, bob, alice, session, manager, manager-Valid, manager-found}

abbrev no_claims : Text → Option ℤ
no_claims decoded = none

abbrev callback : Text
callback = lit "https://broker/oauth/callback"

abbrev server : Text
server = lit "https://mcp"

abbrev schedule : List (ℕ × Move)
schedule =
    (5, calls (creates k1 alice (lit "https://ui/done")))
    ∷ (6, arrives k1 alice server)
    ∷ (6, arrives k1 alice server)
    ∷ (7, steps 0 proceeds)
    ∷ (7, steps 1 proceeds)
    ∷ (7, steps 0 proceeds)
    ∷ (7, steps 1 proceeds)
    ∷ (7, steps 0 proceeds)
    ∷ (7, steps 1 proceeds)
    ∷ (8, steps 1 (takes sent))
    ∷ (8, steps 0 (takes sent))
    ∷ []

abbrev system : System
system = moves no_claims callback (initial 100 2) schedule

abbrev request : Pc → Request
request pc = record { session_key = k1; user_id = alice; resource_url = server; pc = pc }

-- The second goroutine has the permit, the first one goes on waiting.
one_waits : system.requests ≡ request (waiting 0) ∷ request (acquired 0) ∷ []
unfolding moves move Runs.step create_session insert_session new_session_manager GoMap.get GoMap.put
    advance session_step validate_session find_session get_session get_token find_entry acquire beq
one_waits = refl

abbrev taken : Session
taken = record session { acquisition_semaphore = record { capacity = 1; held = 1 } }

object : system.shared.manager.heap 0 ≡ some taken
unfolding moves move Runs.step create_session insert_session new_session_manager GoMap.get GoMap.put
    advance session_step validate_session find_session get_session get_token find_entry acquire beq
object = refl

second : get_elem? system.requests 1 ≡ some (request (acquired 0))
second = rw one_waits refl

one_holder_example : holders 0 system.requests ≤ 1
one_holder_example = one_holder no_claims callback 100 2 schedule 0

no_nil_dereference_example : acquired 0 ≢ Broker.crashed
no_nil_dereference_example =
    no_nil_dereference no_claims callback 100 2 schedule 1 (request (acquired 0)) second

permit_accounted_example :
    (taken.acquisition_semaphore.capacity ≡ 1)
    × (taken.acquisition_semaphore.held ≡ holders 0 system.requests)
permit_accounted_example = permit_accounted no_claims callback 100 2 schedule 0 taken object

abbrev pkce : PkceChallenge
pkce = record { verifier = lit "v"; challenge = lit "c"; method = lit "S256" }

abbrev library : Error
library = message library_error

abbrev refusal : OAuthCompletion
refusal = record { code = lit ""; state = lit ""; failure = some library }

abbrev answered : OAuthTransaction
answered = record (new_transaction server (lit "a") (lit "t") [] pkce) {
  completion_chan = record { capacity = 1; buffer = refusal ∷ []; signal = opened };
}

abbrev refused : Session
refused = record session { active_oauth_tx = some answered }

-- Alice's token goes into the cache, her session ends, and bob makes one under her key.
abbrev broker : Shared
broker = record { manager = manager; cache = new_token_cache }

bob_may : at_limit manager.max_sessions_per_user (GoMap.get manager.user_sessions bob) ≡ false
unfolding run Runs.step create_session insert_session new_session_manager GoMap.get GoMap.put beq
bob_may = refl

not_expired : is_token_expired 9 (parse_jwt_expiry no_claims 6 (lit "t")) ≡ false
unfolding parse_jwt_expiry is_token_expired split
not_expired = refl

leftover_token_served_example :
    let first : Request = request (Broker.caching 0 (lit "t")) in
    (moves no_claims callback
      (record { shared = broker; requests = first ∷ [] })
      ((6, steps 0 proceeds)
        ∷ (9, calls (ends k1))
        ∷ (9, calls (creates k1 bob (lit "")))
        ∷ (9, arrives k1 bob server)
        ∷ (9, steps 0 proceeds)
        ∷ (9, steps 0 proceeds)
        ∷ [])).requests
    ≡ record {
      session_key = k1;
      user_id = bob;
      resource_url = server;
      pc = Broker.returned (ok (lit "t"));
    }
      ∷ request (Broker.unblocking 0 (lit "t"))
      ∷ []
leftover_token_served_example =
    leftover_token_served no_claims callback 6 9 broker k1 bob (lit "") server (lit "t") 0 session
      manager-Valid manager-found (λ e. cc) bob_may not_expired

-- The first move of a request, in a state in which its session is there.
abbrev first_turn : List (Turn no_claims callback)
first_turn = (7, record { manager = manager; cache = new_token_cache }, proceeds) ∷ []

first_pc :
    to_pc no_claims callback 7
      (record { manager = manager; cache = new_token_cache })
      (request Broker.started)
      proceeds
    ≡ Broker.checking
unfolding advance validate_session find_session GoMap.get run Runs.step create_session
    new_session_manager insert_session GoMap.put beq
first_pc = refl

first_turn-Moves : Moves no_claims callback (request Broker.started) first_turn
first_turn-Moves = (λ e. absurd (apart (sym first_pc ∙ e)), tt)
  where
    apart : Broker.checking ≢ Broker.started
    apart e = absurd (ground arith)

acquire_token_terminates_example :
    (length first_turn ≤ 15)
    × ((moves_left (after_turns no_claims callback (request Broker.started) first_turn).pc ≡ 0)
        ⊎ ((now : ℕ) (w : Shared)
            → CanMove no_claims callback now w
                (after_turns no_claims callback (request Broker.started) first_turn)))
acquire_token_terminates_example =
    acquire_token_terminates no_claims callback (request Broker.started) first_turn first_turn-Moves
