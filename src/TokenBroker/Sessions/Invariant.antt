-- ===== src/TokenBroker/Sessions/Invariant.antt =====
-- The well-formedness of the session manager (session/manager.go).

pub mod Changes
use kagenti_operator.Prelude.{
  ℕ, ◌∙◌, ◌≤◌, ◌<◌, ◌≡◌, ◌≢◌, refl, Bool, true, false, ◌&&◌, ◌||◌, Text, beq, beq_iff,
  if◌then◌else◌, none, some, Option-cases, Bool-cases, inl, inr, List, [], ◌∷◌, ◌++◌, max, ◌==◌,
  length, length-append, arith,
}
use mathlib.Core.Path.{subst}
use kagenti_operator.GoMap
use kagenti_operator.GoMap.{GoMap, get-put, get-remove}
use kagenti_operator.TokenBroker.Channel.{opened, panicked}
use kagenti_operator.TokenBroker.Session.{Session, Pointer, Heap, store}
use kagenti_operator.TokenBroker.Sessions.{
  SessionManager, find_session, insert_session, cleanup_session, keys_of, without_key, set_keys,
  forget_key, at_limit, notified, fresh_session, fail_token_waiters,
}

-- Whether a user's list names the session.
unfoldable pub contains : Text → List Text → Bool
contains key [] = false
contains key (k ∷ ks) = beq k key || contains key ks

-- What holds of every session object, also of one that has left the map.
pub record IsSound (s : Session) : Type 0 where
  pub done_once : s.done ≢ panicked
  pub events_open : s.event_waiters.signal ≡ opened
  pub no_waiters : s.token_waiters ≡ []

-- What holds of the session that the map has under `key`.
pub record IsLive (us : GoMap (List Text)) (key : Text) (s : Session) : Type 0 where
  pub keyed : s.session_key ≡ key
  pub running : s.done ≡ opened
  pub listed : contains key (keys_of (GoMap.get us s.user_id)) ≡ true

pub record IsValid (m : SessionManager) : Type 0 where
  pub no_doubles : GoMap.IsMap m.sessions
  pub unused : (p : Pointer) → m.next_pointer ≤ p → m.heap p ≡ none
  pub present : (k : Text) (p : Pointer) → GoMap.get m.sessions k ≡ some p → m.heap p ≢ none
  pub sound : (p : Pointer) (s : Session) → m.heap p ≡ some s → IsSound s
  pub live :
      (k : Text) (p : Pointer) (s : Session)
      → GoMap.get m.sessions k ≡ some p
      → m.heap p ≡ some s
      → IsLive m.user_sessions k s
  pub bounded :
      (u : Text) (ks : List Text)
      → GoMap.get m.user_sessions u ≡ some ks
      → (0 < length ks) × (length ks ≤ max 1 m.max_sessions_per_user)

contains-append :
    (key : Text) (xs ys : List Text)
    → contains key (xs ++ ys) ≡ (contains key xs || contains key ys)
unfolding contains
contains-append key [] ys = ground arith
contains-append key (x ∷ xs) ys = ground (arith, contains-append key xs ys)

contains-without_key :
    (key j : Text) (ks : List Text)
    → beq key j ≡ false
    → contains j (without_key key ks) ≡ contains j ks
unfolding contains without_key
contains-without_key key j [] h = refl
contains-without_key key j (k ∷ ks) h =
    ground (arith, beq_iff k key, beq_iff key j, beq_iff k j, contains-without_key key j ks h)

length-without_key : (key : Text) (ks : List Text) → length (without_key key ks) ≤ length ks
unfolding without_key
length-without_key key [] = omega arith
length-without_key key (k ∷ ks) = ground (arith, length-without_key key ks)

-- What `cleanupSessionLocked` leaves of the lists: the key goes from its user's, and from no other.
keys-set_keys :
    (us : GoMap (List Text)) (u v : Text) (ks : List Text)
    → keys_of (GoMap.get (set_keys us u ks) v) ≡ (if beq u v then ks else keys_of (GoMap.get us v))
keys-set_keys us u v [] = ground (arith, get-remove us u v)
keys-set_keys us u v (k ∷ ks) = ground (arith, get-put us u (k ∷ ks) v)

pub keys-forget_key :
    (us : GoMap (List Text)) (u key v : Text)
    → keys_of (GoMap.get (forget_key us u key (GoMap.get us u)) v)
      ≡ (if beq u v then without_key key (keys_of (GoMap.get us v)) else keys_of (GoMap.get us v))
unfolding without_key
keys-forget_key us u key v = elim (Option-cases (GoMap.get us u)) [
  | inl e ↦ rw e (ground (arith, beq_iff u v))
  | inr (ks, e) ↦ rw e (ground (arith, beq_iff u v, keys-set_keys us u v (without_key key ks)))
]

bounded-set_keys :
    (us : GoMap (List Text)) (u v : Text) (n : ℕ) (ks vs : List Text)
    → length ks ≤ n
    → GoMap.get (set_keys us u ks) v ≡ some vs
    → (GoMap.get us v ≡ some vs → (0 < length vs) × (length vs ≤ n))
    → (0 < length vs) × (length vs ≤ n)
bounded-set_keys us u v n [] vs h e b = ground (arith, get-remove us u v)
bounded-set_keys us u v n (k ∷ ks) vs h e b = ground (arith, get-put us u (k ∷ ks) v)

pub found :
    (m : SessionManager) (key : Text) (p : Pointer) (s : Session)
    → find_session m key ≡ some (p, s)
    → (GoMap.get m.sessions key ≡ some p) × (m.heap p ≡ some s)
unfolding find_session
found m key p s h = ground arith

pub notified-IsSound :
    (s : Session) (reason : Text) → IsSound s → s.done ≡ opened → IsSound (notified s reason)
unfolding fail_token_waiters
notified-IsSound s reason v h = record {
  done_once = ground (arith, v.done_once);
  events_open = ground (arith, v.events_open);
  no_waiters = ground (arith, v.no_waiters);
}

-- A property of every object that the store of one object keeps.
pub store_cases {ℓ} :
    (P : Session → Type ℓ) (h : Heap) (p q : Pointer) (s s' : Session)
    → P s
    → (h q ≡ some s' → P s')
    → store h p s q ≡ some s'
    → P s'
store_cases P h p q s s' new old e = elim (Bool-cases (p == q)) [
  | inl same ↦ let eq : s ≡ s' = ground arith in subst P eq new
  | inr other ↦ old (ground arith)
]
