-- ===== src/TokenBroker/Broker.antt =====
-- token-broker/internal/core/broker.go. `AcquireToken` with `performOAuthFlow` is a goroutine: a
-- record `Request` with a program counter, one constructor for each point at which another goroutine
-- may run. `advance` makes one step. What the environment decides (which ready arm a `select` takes,
-- what the network answers, the random bytes, the clock) is the step's `Input`; an input that does not
-- fit the program counter, or an arm that is not ready, leaves the goroutine where it is.
--
-- `session.TokenWaiters` is never written to in the program, so the channels that step 9 wakes are
-- modelled only as the entries that it deletes.
pub mod Sharing
pub mod Slots
pub mod Schedule
pub mod Holders
pub mod Consistency
pub mod Exclusion
pub mod Leftovers
pub mod Termination
use kagenti_operator.Prelude.{
  ℕ, Bool, true, false, Text, lit, Option, none, some, List, [], ◌∷◌, ◌++◌, if◌then◌else◌, ℤ,
}
use kagenti_operator.GoMap
use kagenti_operator.TokenBroker.Channel.{
  Channel, Signal, opened, closed, panicked, has_room, make_channel, try_send,
}
use kagenti_operator.TokenBroker.Errors.{
  Error, Result, ok, err, message, sentinel, wrap, wrap_both, library_error, no_event_waiter,
  no_active_oauth_transaction, no_completion_waiter, oauth_timeout, session_ended, oauth_upstream,
  session_validation_failed, get_session_failed, acquire_semaphore_failed, oauth_flow_failed,
  discovery_failed, pkce_failed, authorization_url_failed, publish_cancelled,
  oauth_completion_failed, context_cancelled, token_exchange_failed, session_lookup_failed, bare,
  ◌>>=◌,
}
use kagenti_operator.TokenBroker.Semaphore.{SimpleSemaphore, AcquireArm, acquire, release}
use kagenti_operator.TokenBroker.Session.{
  Session, Pointer, Heap, store, OAuthTransaction, OAuthTxStatus, waiting_code, completed, failed,
  OAuthCompletion, PkceChallenge, oauth_url_ready, Event,
}
use kagenti_operator.TokenBroker.Sessions.{SessionManager, get_session, validate_session}
use kagenti_operator.TokenBroker.Cache.{TokenCache, get_token, set_token}

-- Where a goroutine stands in `AcquireToken`; `p` points to the session that `GetSession` gave it.
pub data Pc : Type 0 where
  started checking looking_up : Pc
  waiting acquired discovering : (p : Pointer) → Pc
  generating : (p : Pointer) (auth_endpoint token_endpoint : Text) (scopes : List Text) → Pc
  building : (p : Pointer) (pkce : PkceChallenge) → Pc
  publishing : (p : Pointer) (auth_url : Text) → Pc
  awaiting : (p : Pointer) → Pc
  exchanging : (p : Pointer) (code : Text) → Pc
  caching unblocking clearing : (p : Pointer) (token : Text) → Pc
  releasing : (p : Pointer) (result : Result Text) → Pc
  returned : (result : Result Text) → Pc
  crashed : Pc

pub record Request : Type 0 where
  pub session_key : Text
  pub user_id : Text
  pub resource_url : Text
  pub pc : Pc

pub data Input : Type 0 where
  proceeds : Input
  takes : AcquireArm → Input
  discovered : Result (Text × Text × List Text) → Input
  generated : Option PkceChallenge → Input
  built : Option (Text × Text) → Input
  sends finds_no_room receives times_out sees_done : Input
  cancelled : Error → Input
  exchanged : Result Text → Input

-- The shared state.
pub record Shared : Type 0 where
  pub manager : SessionManager
  pub cache : TokenCache

-- What a step makes of the session object that it works on, of the cache, and of the counter.
abbrev pub Outcome : Type 0
Outcome = Session × TokenCache × Pc

abbrev flow_error : Pointer → Error → Pc
flow_error p e = releasing p (err (wrap oauth_flow_failed e))

-- session.ActiveOAuthTx = &OAuthTransaction{...}
abbrev pub new_transaction : Text → Text → Text → List Text → PkceChallenge → OAuthTransaction
new_transaction resource_url auth_endpoint token_endpoint scopes pkce = record {
  resource_url = resource_url;
  auth_endpoint = auth_endpoint;
  token_endpoint = token_endpoint;
  scopes = scopes;
  pkce = pkce;
  code_verifier = pkce.verifier;
  state = lit "";
  callback_url = lit "";
  auth_url = lit "";
  status = waiting_code;
  completion_chan = make_channel 1;
}

-- A write through `session.ActiveOAuthTx`, which is a nil dereference where there is none.
abbrev update_tx : TokenCache → Session → (OAuthTransaction → OAuthTransaction) → Pc → Outcome
update_tx c s f next = elim s.active_oauth_tx [
  | none ↦ (s, c, crashed)
  | some tx ↦ (record s { active_oauth_tx = some (f tx) }, c, next)
]

abbrev with_status : OAuthTxStatus → OAuthTransaction → OAuthTransaction
with_status status tx = record tx { status = status }

abbrev fail_tx : TokenCache → Pointer → Session → Error → Outcome
fail_tx c p s e = update_tx c s (with_status failed) (flow_error p e)

abbrev completed_pc : Pointer → OAuthCompletion → Pc
completed_pc p completion = elim completion.failure [
  | none ↦ exchanging p completion.code
  | some e ↦ flow_error p (wrap oauth_completion_failed e)
]

-- case completion = <-session.ActiveOAuthTx.CompletionChan
abbrev receive_completion :
    TokenCache → Pointer → Session → OAuthTransaction → List OAuthCompletion → Outcome
receive_completion c p s tx [] = (s, c, awaiting p)
receive_completion c p s tx (completion ∷ rest) = (
  record s {
    active_oauth_tx =
        some (record tx { completion_chan = record tx.completion_chan { buffer = rest } });
  },
  c,
  completed_pc p completion,
)

abbrev await_completion : TokenCache → Pointer → Session → Option OAuthTransaction → Outcome
await_completion c p s none = (s, c, crashed)
await_completion c p s (some tx) = receive_completion c p s tx tx.completion_chan.buffer

-- The deferred `Release`.
abbrev release_session : Session → Session
release_session s = record s { acquisition_semaphore = release s.acquisition_semaphore }

-- Step 9: the entry of the resource is deleted.
abbrev unblock : Session → Text → Session
unblock s resource_url = elim (GoMap.get s.token_waiters resource_url) [
  | none ↦ s
  | some waiters ↦ record s { token_waiters = GoMap.remove s.token_waiters resource_url }
]

abbrev acquire_arm :
    TokenCache → Pointer → Session → Option (SimpleSemaphore × Result (Unit {0})) → Outcome
acquire_arm c p s none = (s, c, waiting p)
acquire_arm c p s (some (sem, ok u)) = (record s { acquisition_semaphore = sem }, c, acquired p)
acquire_arm c p s (some (sem, err e)) =
    (record s { acquisition_semaphore = sem }, c, returned (err (wrap acquire_semaphore_failed e)))

-- The session that a goroutine points to.
abbrev pub points_to : Pc → Option Pointer
points_to (waiting p) = some p
points_to (acquired p) = some p
points_to (discovering p) = some p
points_to (generating p auth_endpoint token_endpoint scopes) = some p
points_to (building p pkce) = some p
points_to (publishing p auth_url) = some p
points_to (awaiting p) = some p
points_to (exchanging p code) = some p
points_to (caching p token) = some p
points_to (unblocking p token) = some p
points_to (clearing p token) = some p
points_to (releasing p result) = some p
points_to _ = none

-- Steps 1 and 2 of `AcquireToken`, and the `GetSession` after them.
abbrev validated : Pc → Result (Unit {0}) → Input → Pc
validated pc (ok u) proceeds = checking
validated pc (err e) proceeds = returned (err (wrap session_validation_failed e))
validated pc _ _ = pc

abbrev checked : Pc → Option Text → Input → Pc
checked pc (some token) proceeds = returned (ok token)
checked pc none proceeds = looking_up
checked pc _ _ = pc

abbrev looked_up : Pc → Result (Pointer × Session) → Input → Pc
looked_up pc (ok (p, s)) proceeds = waiting p
looked_up pc (err e) proceeds = returned (err (wrap get_session_failed e))
looked_up pc _ _ = pc

abbrev write_back : Shared → Pointer → Outcome → Shared × Pc
write_back w p (s, c, pc) =
    (record w { manager = record w.manager { heap = store w.manager.heap p s }; cache = c }, pc)

-- The steps that work on the session object `s` at `p`.
module _ (unmarshal_exp : Text → Option ℤ) (callback_url : Text) where
  unfoldable pub session_step : ℕ → TokenCache → Request → Pointer → Session → Pc → Input → Outcome
  session_step now c r p s (waiting _) (takes arm) =
      acquire_arm c p s (acquire s.acquisition_semaphore arm)
  session_step now c r p s (acquired _) proceeds = (
    s,
    c,
    elim (get_token now c r.session_key r.resource_url) [
      | none ↦ discovering p
      | some token ↦ releasing p (ok token)
    ],
  )
  session_step now c r p s (discovering _) (discovered (err e)) =
      (s, c, flow_error p (wrap_both discovery_failed (sentinel oauth_upstream) e))
  session_step now c r p s (discovering _)
        (discovered (ok (auth_endpoint, token_endpoint, scopes))) =
      (s, c, generating p auth_endpoint token_endpoint scopes)
  session_step now c r p s (generating _ auth_endpoint token_endpoint scopes) (generated none) =
      (s, c, flow_error p (wrap pkce_failed (message library_error)))
  session_step now c r p s (generating _ auth_endpoint token_endpoint scopes)
        (generated (some pkce)) =
      (
        record s {
          active_oauth_tx =
              some (new_transaction r.resource_url auth_endpoint token_endpoint scopes pkce);
        },
        c,
        building p pkce,
      )
  session_step now c r p s (building _ pkce) (built none) =
      fail_tx c p s (wrap authorization_url_failed (message library_error))
  session_step now c r p s (building _ pkce) (built (some (auth_url, state))) =
      update_tx c s
        (λ tx. record tx { auth_url = auth_url; callback_url = callback_url; state = state })
        (publishing p auth_url)
  session_step now c r p s (publishing _ auth_url) sends =
      if has_room s.event_waiters
      then (
        record s { event_waiters = try_send s.event_waiters (oauth_url_ready auth_url) },
        c,
        awaiting p,
      )
      else (s, c, publishing p auth_url)
  session_step now c r p s (publishing _ auth_url) finds_no_room = (
    s,
    c,
    if has_room s.event_waiters
        then publishing p auth_url
        else flow_error p (message no_event_waiter),
  )
  session_step now c r p s (publishing _ auth_url) (cancelled e) =
      (s, c, flow_error p (wrap publish_cancelled e))
  session_step now c r p s (awaiting _) receives = await_completion c p s s.active_oauth_tx
  session_step now c r p s (awaiting _) times_out =
      fail_tx c p s (wrap bare (sentinel oauth_timeout))
  session_step now c r p s (awaiting _) sees_done = elim s.done [
    | opened ↦ (s, c, awaiting p)
    | _ ↦ fail_tx c p s (wrap bare (sentinel session_ended))
  ]
  session_step now c r p s (awaiting _) (cancelled e) = fail_tx c p s (wrap context_cancelled e)
  session_step now c r p s (exchanging _ code) (exchanged (err e)) =
      fail_tx c p s (wrap_both token_exchange_failed (sentinel oauth_upstream) e)
  session_step now c r p s (exchanging _ code) (exchanged (ok token)) =
      update_tx c s (with_status completed) (caching p token)
  session_step now c r p s (caching _ token) proceeds = (
    s,
    (set_token unmarshal_exp now now c s.session_key r.resource_url token).0,
    unblocking p token,
  )
  session_step now c r p s (unblocking _ token) proceeds =
      (unblock s r.resource_url, c, clearing p token)
  session_step now c r p s (clearing _ token) proceeds =
      (record s { active_oauth_tx = none }, c, releasing p (ok token))
  session_step now c r p s (releasing _ result) proceeds = (release_session s, c, returned result)
  session_step now c r p s pc _ = (s, c, pc)

  abbrev at_session : ℕ → Shared → Request → Input → Pointer → Option Session → Shared × Pc
  at_session now w r input p none = (w, crashed)
  at_session now w r input p (some s) = write_back w p (session_step now w.cache r p s r.pc input)

  abbrev at_target : ℕ → Shared → Request → Input → Option Pointer → Shared × Pc
  at_target now w r input none = (w, r.pc)
  at_target now w r input (some p) = at_session now w r input p (w.manager.heap p)

  -- One step of `AcquireToken`.
  unfoldable pub advance : ℕ → Shared → Request → Input → Shared × Pc
  advance now w r input = elim r.pc [
    | started ↦ (w, validated r.pc (validate_session w.manager r.session_key r.user_id) input)
    | checking ↦ (w, checked r.pc (get_token now w.cache r.session_key r.resource_url) input)
    | looking_up ↦ (w, looked_up r.pc (get_session w.manager r.session_key) input)
    | pc ↦ at_target now w r input (points_to pc)
  ]

-- `CompleteOAuth`, which the handler of the provider's callback calls.
abbrev pub with_completion : Session → OAuthTransaction → Text → Text → Session
with_completion s tx code state = record s {
  active_oauth_tx = some (record tx {
    completion_chan =
        try_send tx.completion_chan (record { code = code; state = state; failure = none });
  });
}

abbrev pub completion_sent :
    SessionManager
    → Pointer
    → Session
    → OAuthTransaction
    → Text
    → Text
    → SessionManager × Result (Unit {0})
completion_sent m p s tx code state =
    if has_room tx.completion_chan
    then (record m { heap = store m.heap p (with_completion s tx code state) }, ok tt)
    else (m, err (message no_completion_waiter))

abbrev pub completed_session :
    SessionManager → Text → Text → Result (Pointer × Session) → SessionManager × Result (Unit {0})
completed_session m code state (err e) = (m, err (wrap session_lookup_failed e))
completed_session m code state (ok (p, s)) = elim s.active_oauth_tx [
  | none ↦ (m, err (message no_active_oauth_transaction))
  | some tx ↦ completion_sent m p s tx code state
]

abbrev pub owned_completion :
    SessionManager → Text → Text → Text → Result (Unit {0}) → SessionManager × Result (Unit {0})
owned_completion m key code state (err e) = (m, err (wrap session_validation_failed e))
owned_completion m key code state (ok u) = completed_session m code state (get_session m key)

unfoldable pub complete_oauth :
    SessionManager → (key user code state : Text) → SessionManager × Result (Unit {0})
complete_oauth m key user code state =
    owned_completion m key code state (validate_session m key user)
