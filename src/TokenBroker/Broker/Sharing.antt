-- ===== src/TokenBroker/Broker/Sharing.antt =====
-- How the goroutines of core/broker.go share a session object: its semaphore and its transaction.
use kagenti_operator.Prelude.{
  ℕ, ◌+◌, ◌≤◌, ◌≡◌, ◌≢◌, Bool, true, false, Text, Option, none, some, [], is_some, ℤ, arith,
}
use kagenti_operator.GoMap
use kagenti_operator.TokenBroker.Channel.{opened}
use kagenti_operator.TokenBroker.Semaphore.{acquire, release}
use kagenti_operator.TokenBroker.Session.{Session, Pointer}
use kagenti_operator.TokenBroker.Sessions.{get_session, find_session, validate_session}
use kagenti_operator.TokenBroker.Cache.{TokenCache}
use kagenti_operator.TokenBroker.Broker

-- The permits of a session's semaphore that are taken.
abbrev pub held_of : Option Session → ℕ
held_of none = 0
held_of (some s) = s.acquisition_semaphore.held

-- Whether a session has a transaction.
abbrev pub tx_of : Option Session → Bool
tx_of none = false
tx_of (some s) = is_some s.active_oauth_tx

-- Whether a goroutine has the permit of its session, between `Acquire` and the deferred `Release`.
abbrev pub holding : Broker.Pc → ℕ
holding (Broker.acquired p) = 1
holding (Broker.discovering p) = 1
holding (Broker.generating p auth_endpoint token_endpoint scopes) = 1
holding (Broker.building p pkce) = 1
holding (Broker.publishing p auth_url) = 1
holding (Broker.awaiting p) = 1
holding (Broker.exchanging p code) = 1
holding (Broker.caching p token) = 1
holding (Broker.unblocking p token) = 1
holding (Broker.clearing p token) = 1
holding (Broker.releasing p result) = 1
holding _ = 0

-- Whether a goroutine has a transaction, which it is to write to or to wait for.
abbrev pub in_flow : Broker.Pc → Bool
in_flow (Broker.building p pkce) = true
in_flow (Broker.publishing p auth_url) = true
in_flow (Broker.awaiting p) = true
in_flow (Broker.exchanging p code) = true
in_flow _ = false

-- What one step at a session keeps, given that a goroutine in the flow has a transaction and that the
-- semaphore counts the goroutine's permit.
pub record StepFacts (p : Pointer) (s s' : Session) (pc pc' : Broker.Pc) : Type 0 where
  pub same_key : s'.session_key ≡ s.session_key
  pub same_user : s'.user_id ≡ s.user_id
  pub same_done : s'.done ≡ s.done
  pub same_signal : s.event_waiters.signal ≡ opened → s'.event_waiters.signal ≡ opened
  pub same_waiters : s.token_waiters ≡ [] → s'.token_waiters ≡ []
  pub same_capacity : s'.acquisition_semaphore.capacity ≡ s.acquisition_semaphore.capacity
  pub counts :
      s'.acquisition_semaphore.held + holding pc ≡ s.acquisition_semaphore.held + holding pc'
  pub within :
      s.acquisition_semaphore.held ≤ s.acquisition_semaphore.capacity
      → s'.acquisition_semaphore.held ≤ s'.acquisition_semaphore.capacity
  pub has_tx : in_flow pc' ≡ true → is_some s'.active_oauth_tx ≡ true
  pub keeps_tx : holding pc ≡ 0 → s'.active_oauth_tx ≡ s.active_oauth_tx
  pub stays : (q : Pointer) → Broker.points_to pc' ≡ some q → q ≡ p
  pub no_crash : pc' ≢ Broker.crashed

-- A goroutine that points to none changes nothing that is shared.
pub record IdleFacts (w : Broker.Shared) (out : Broker.Shared × Broker.Pc) : Type 0 where
  pub same : out.0 ≡ w
  pub free : holding out.1 ≡ 0
  pub no_flow : in_flow out.1 ≡ false
  pub present : (p : Pointer) → Broker.points_to out.1 ≡ some p → w.manager.heap p ≢ none
  pub no_crash : out.1 ≢ Broker.crashed

get-nil {ℓ} : {V : Type ℓ} (m : GoMap.GoMap V) (k : Text) → m ≡ [] → GoMap.get m k ≡ none
unfolding GoMap.get
get-nil m k e = rw (e, GoMap.get)

module _ (unmarshal_exp : Text → Option ℤ) (callback_url : Text) where
  pub session_step-StepFacts :
      (now : ℕ) (c : TokenCache) (r : Broker.Request) (p : Pointer) (s : Session) (pc : Broker.Pc)
      (input : Broker.Input)
      → Broker.points_to pc ≡ some p
      → (in_flow pc ≡ true → is_some s.active_oauth_tx ≡ true)
      → holding pc ≤ s.acquisition_semaphore.held
      → let out = Broker.session_step unmarshal_exp callback_url now c r p s pc input in
        StepFacts p s out.0 pc out.2
  unfolding Broker.session_step acquire release
  session_step-StepFacts now c r p s (Broker.waiting _) (Broker.takes arm) e f h = ground arith
  session_step-StepFacts now c r p s (Broker.acquired _) Broker.proceeds e f h = ground arith
  session_step-StepFacts now c r p s (Broker.discovering _) (Broker.discovered result) e f h =
      ground arith
  session_step-StepFacts now c r p s (Broker.generating _ auth_endpoint token_endpoint scopes)
        (Broker.generated pkce) e f h =
      ground arith
  session_step-StepFacts now c r p s (Broker.building _ pkce) (Broker.built url) e f h =
      ground arith
  session_step-StepFacts now c r p s (Broker.publishing _ auth_url) Broker.sends e f h =
      ground arith
  session_step-StepFacts now c r p s (Broker.publishing _ auth_url) Broker.finds_no_room e f h =
      ground arith
  session_step-StepFacts now c r p s (Broker.publishing _ auth_url) (Broker.cancelled c') e f h =
      ground arith
  session_step-StepFacts now c r p s (Broker.awaiting _) Broker.receives e f h = ground arith
  session_step-StepFacts now c r p s (Broker.awaiting _) Broker.times_out e f h = ground arith
  session_step-StepFacts now c r p s (Broker.awaiting _) Broker.sees_done e f h = ground arith
  session_step-StepFacts now c r p s (Broker.awaiting _) (Broker.cancelled c') e f h = ground arith
  session_step-StepFacts now c r p s (Broker.exchanging _ code) (Broker.exchanged result) e f h =
      ground arith
  session_step-StepFacts now c r p s (Broker.caching _ token) Broker.proceeds e f h = ground arith
  session_step-StepFacts now c r p s (Broker.unblocking _ token) Broker.proceeds e f h =
      ground (arith, get-nil s.token_waiters r.resource_url)
  session_step-StepFacts now c r p s (Broker.clearing _ token) Broker.proceeds e f h = ground arith
  session_step-StepFacts now c r p s (Broker.releasing _ result) Broker.proceeds e f h =
      ground arith
  session_step-StepFacts now c r p s _ _ e f h = ground arith

  -- A goroutine that points to a session makes that session's step.
  pub advance_at :
      (now : ℕ) (w : Broker.Shared) (r : Broker.Request) (input : Broker.Input) (pc : Broker.Pc)
      (p : Pointer) (s : Session)
      → r.pc ≡ pc
      → Broker.points_to pc ≡ some p
      → w.manager.heap p ≡ some s
      → Broker.advance unmarshal_exp callback_url now w r input
        ≡ Broker.write_back w p
            (Broker.session_step unmarshal_exp callback_url now w.cache r p s pc input)
  unfolding Broker.advance
  advance_at now w r input (Broker.waiting q) p s e f h = ground arith
  advance_at now w r input _ p s e f h = ground arith

  pub advance_idle :
      (now : ℕ) (w : Broker.Shared) (r : Broker.Request) (input : Broker.Input) (pc : Broker.Pc)
      → r.pc ≡ pc
      → Broker.points_to pc ≡ none
      → pc ≢ Broker.crashed
      → IdleFacts w (Broker.advance unmarshal_exp callback_url now w r input)
  unfolding Broker.advance get_session find_session validate_session
  advance_idle now w r input Broker.started e f h = ground arith
  advance_idle now w r input Broker.checking e f h = ground arith
  advance_idle now w r input Broker.looking_up e f h = ground arith
  advance_idle now w r input (Broker.returned result) e f h = ground arith
  advance_idle now w r input _ e f h = absurd (ground arith)
