-- ===== src/TokenBroker/Handlers/Callbacks.antt =====
-- The provider's callback: what `HandleOAuthCallback` (api/handlers.go) and `CompleteOAuth`
-- (core/broker.go) make of the session that the state names.
use kagenti_operator.Prelude.{
  ℕ, ◌<◌, ◌≤◌, ◌≡◌, ◌⊎◌, refl, true, false, ◌||◌, Text, is_empty, Option, none, some, Bool-cases,
  inl, inr, [], ◌∷◌, ◌++◌, length, arith, ℤ,
}
use kagenti_operator.TokenBroker.Channel.{opened, has_room}
use kagenti_operator.TokenBroker.Errors.{Error, ok, err}
use kagenti_operator.TokenBroker.Session.{
  Session, Pointer, OAuthTransaction, OAuthCompletion, store,
}
use kagenti_operator.TokenBroker.Sessions.{
  SessionManager, find_session, get_session, get_session_by_state,
}
use kagenti_operator.TokenBroker.Sessions.Invariant.{IsValid}
use kagenti_operator.TokenBroker.Sessions.Endings.{validate_session_iff}
use kagenti_operator.TokenBroker.Sessions.States.{get_session_by_state_sound}
use kagenti_operator.TokenBroker.Broker.{
  Request, awaiting, exchanging, receives, advance, session_step, complete_oauth, completion_sent,
}
use kagenti_operator.TokenBroker.Cache.{TokenCache}
use kagenti_operator.TokenBroker.Http.{UrlPackage}
use kagenti_operator.TokenBroker.Handlers.{handle_oauth_callback, CallbackQuery}

-- The owner's completion of a session that is there goes to its transaction.
complete_oauth-found :
    (m : SessionManager) (key user code state : Text) (p : Pointer) (s : Session)
    (tx : OAuthTransaction)
    → find_session m key ≡ some (p, s)
    → s.user_id ≡ user
    → s.active_oauth_tx ≡ some tx
    → complete_oauth m key user code state ≡ completion_sent m p s tx code state
unfolding complete_oauth get_session
complete_oauth-found m key user code state p s tx e owner active =
    rw ((validate_session_iff m key user).1 (p, s, e, owner), complete_oauth)
      (rw (e, get_session) (rw active refl))

-- The goroutine that waits for the completion of `tx`, which is in an empty channel, goes on with its code.
received :
    (unmarshal_exp : Text → Option ℤ) (callback_url : Text) (now : ℕ) (m : SessionManager)
    (c : TokenCache) (r : Request) (p : Pointer) (s : Session) (tx : OAuthTransaction)
    (code state : Text)
    → let delivered : Session = record s {
      active_oauth_tx = some (record tx {
        completion_chan = record tx.completion_chan {
          buffer = record { code = code; state = state; failure = none } ∷ [];
        };
      });
    } in
      (advance unmarshal_exp callback_url now
        (record { manager = record m { heap = store m.heap p delivered }; cache = c })
        (record r { pc = awaiting p })
        receives).1
      ≡ exchanging p code
unfolding advance session_step
received unmarshal_exp callback_url now m c r p s tx code state = ground arith

-- A callback without an error and with a code, for a state that names a session whose transaction's
-- channel was never closed. The transaction is one of that state. If the channel has room, the completion
-- with the callback's code and state goes to the end of its buffer, and nothing else changes; if it has
-- none, nothing changes at all. If the channel was empty, a goroutine that waits for the transaction gets
-- the code: when it receives, it goes on to exchange exactly this code.
pub callback_delivers :
    (lib : UrlPackage) (m : SessionManager) (q : CallbackQuery) (p : Pointer) (s : Session)
    (tx : OAuthTransaction)
    → IsValid m
    → is_empty q.error_param ≡ true
    → is_empty q.code ≡ false
    → is_empty q.state ≡ false
    → get_session_by_state m q.state ≡ ok (p, s)
    → s.active_oauth_tx ≡ some tx
    → tx.completion_chan.signal ≡ opened
    → let m' = (handle_oauth_callback lib m q).0 in
      let completion : OAuthCompletion = record {
        code = q.code;
        state = q.state;
        failure = none;
      } in
      let old = tx.completion_chan.buffer in
      (tx.state ≡ q.state)
      × (length old < tx.completion_chan.capacity
          → m' ≡ record m {
            heap = store m.heap p (record s {
              active_oauth_tx = some (record tx {
                completion_chan = record tx.completion_chan { buffer = old ++ completion ∷ [] };
              });
            });
          })
      × (tx.completion_chan.capacity ≤ length old → m' ≡ m)
      × (old ≡ []
          → 0 < tx.completion_chan.capacity
          → (unmarshal_exp : Text → Option ℤ) (callback_url : Text) (now : ℕ) (c : TokenCache)
            (r : Request)
          → (advance unmarshal_exp callback_url now
              (record { manager = m'; cache = c })
              (record r { pc = awaiting p })
              receives).1
            ≡ exchanging p q.code)
unfolding handle_oauth_callback
callback_delivers lib m q p s tx v no_error code_there state_there e active never_closed =
    let (random_part, tx', split, undotted, there, active', same) =
      get_session_by_state_sound m q.state p s v e in
    let completion =
      complete_oauth-found m s.session_key s.user_id q.code q.state p s tx there refl active in
    let sent_with_room : length tx.completion_chan.buffer < tx.completion_chan.capacity
        → (handle_oauth_callback lib m q).0 ≡ record m {
          heap = store m.heap p (record s {
            active_oauth_tx = some (record tx {
              completion_chan = record tx.completion_chan {
                buffer =
                    tx.completion_chan.buffer
                    ++ record { code = q.code; state = q.state; failure = none } ∷ [];
              };
            });
          });
        } =
      λ room.
        let has : has_room tx.completion_chan ≡ true = ground arith in
        rw (no_error, code_there, state_there, e, handle_oauth_callback)
          (rw completion (rw has (rw (never_closed, has) refl))) in
    (
      ground (arith, same, active, active'),
      sent_with_room,
      λ full.
          let none_left : has_room tx.completion_chan ≡ false = ground arith in
          rw (no_error, code_there, state_there, e, handle_oauth_callback)
            (rw completion (rw none_left refl)),
      λ empty room unmarshal_exp callback_url now c r.
          rw (sent_with_room (rw empty (ground arith)))
            (rw empty (received unmarshal_exp callback_url now m c r p s tx q.code q.state)),
    )

-- A callback changes nothing where the provider reports an error, where the code or the state is
-- missing, and where the state names no session with a transaction of that state.
pub callback_ignored :
    (lib : UrlPackage) (m : SessionManager) (q : CallbackQuery)
    → (is_empty q.error_param ≡ false)
      ⊎ (is_empty q.code ≡ true)
      ⊎ (is_empty q.state ≡ true)
      ⊎ ((e : Error) × (get_session_by_state m q.state ≡ err e))
    → ((handle_oauth_callback lib m q).0 ≡ m)
unfolding handle_oauth_callback
callback_ignored lib m q h = elim (Bool-cases (is_empty q.error_param)) [
  | inr said ↦ rw (said, handle_oauth_callback) refl
  | inl no_error ↦ elim (Bool-cases (is_empty q.code || is_empty q.state)) [
    | inl missing ↦ rw (no_error, missing, handle_oauth_callback) refl
    | inr given ↦ elim h [
      | inl x ↦ absurd (ground arith)
      | inr (inl x) ↦ absurd (ground arith)
      | inr (inr (inl x)) ↦ absurd (ground arith)
      | inr (inr (inr (e, x))) ↦ rw (no_error, given, handle_oauth_callback) (rw x refl)
    ]
  ]
]
