-- ===== src/TokenBroker/Sessions/Invariant/Changes.antt =====
-- The three kinds of change that the methods of session/manager.go are made of: a session goes, a
-- session object is updated, a session comes.
use kagenti_operator.Prelude.{
  ℕ, ◌∙◌, ◌≤◌, ◌<◌, ◌≡◌, refl, false, ◌&&◌, ◌||◌, Text, beq, beq_iff, some, Option-cases,
  Bool-cases, inl, inr, List, [], ◌∷◌, ◌++◌, max, ◌==◌, length, length-append, arith,
}
use mathlib.Core.Path.{subst}
use kagenti_operator.GoMap
use kagenti_operator.GoMap.{GoMap, get-put, get-remove}
use kagenti_operator.TokenBroker.Session.{Session, Pointer, store}
use kagenti_operator.TokenBroker.Sessions.{
  SessionManager, insert_session, cleanup_session, keys_of, without_key, at_limit, notified,
  fresh_session,
}
use kagenti_operator.TokenBroker.Sessions.Invariant.{
  contains, IsSound, IsLive, IsValid, contains-append, contains-without_key, length-without_key,
  keys-forget_key, bounded-set_keys, notified-IsSound, store_cases,
}

module _ (m : SessionManager) (v : IsValid m) (key : Text) (p : Pointer) (s : Session)
    (reason : Text) (here : GoMap.get m.sessions key ≡ some p) (there : m.heap p ≡ some s) where
  -- What is left in the map is under another key and at another pointer.
  pub others :
      (k : Text) (q : Pointer)
      → GoMap.get (GoMap.remove m.sessions key) k ≡ some q
      → (beq key k ≡ false) × (GoMap.get m.sessions k ≡ some q) × ((p == q) ≡ false)
  others k q e =
      let apart : (beq key k ≡ false) × (GoMap.get m.sessions k ≡ some q) =
        ground (arith, get-remove m.sessions key k) in
      (
        apart.0,
        apart.1,
        elim (Bool-cases (p == q)) [
          | inl same ↦
              let eq : q ≡ p = ground arith in
              ground (
                arith,
                beq_iff key k,
                (v.live key p s here there).keyed,
                (v.live k q s apart.1 (rw eq there)).keyed,
              )
          | inr other ↦ other
        ],
      )

  cleanup-IsLive :
      (k : Text) (q : Pointer) (s' : Session)
      → GoMap.get (cleanup_session m key p s reason).sessions k ≡ some q
      → (cleanup_session m key p s reason).heap q ≡ some s'
      → IsLive (cleanup_session m key p s reason).user_sessions k s'
  unfolding cleanup_session
  cleanup-IsLive k q s' e f =
      let o = others k q e in
      let was : IsLive m.user_sessions k s' = v.live k q s' o.1 (rw o.2 at f) in
      record {
        keyed = was.keyed;
        running = was.running;
        listed = rw (keys-forget_key m.user_sessions s.user_id key s'.user_id) (
            ground (
              arith,
              was.listed,
              contains-without_key key k (keys_of (GoMap.get m.user_sessions s'.user_id)) o.0,
            ));
      }

  cleanup_bounded :
      (u : Text) (ks : List Text)
      → GoMap.get (cleanup_session m key p s reason).user_sessions u ≡ some ks
      → (0 < length ks) × (length ks ≤ max 1 m.max_sessions_per_user)
  unfolding cleanup_session
  cleanup_bounded u ks e = elim (Option-cases (GoMap.get m.user_sessions s.user_id)) [
    | inl none_there ↦ v.bounded u ks (ground arith)
    | inr (old, there') ↦
        bounded-set_keys m.user_sessions s.user_id u (max 1 m.max_sessions_per_user)
          (without_key key old) ks
          (omega (arith, v.bounded s.user_id old there', length-without_key key old)) (ground arith)
          (v.bounded u ks)
  ]

  pub cleanup-IsValid : IsValid (cleanup_session m key p s reason)
  unfolding cleanup_session
  cleanup-IsValid = record {
    no_doubles = GoMap.remove-IsMap m.sessions key v.no_doubles;
    unused = λ q h. ground (arith, v.unused q);
    present = λ k q e. ground (arith, get-remove m.sessions key k, v.present k q);
    sound = λ q s' e.
        store_cases IsSound m.heap p q (notified s reason) s'
          (notified-IsSound s reason (v.sound p s there) (v.live key p s here there).running)
          (v.sound q s') e;
    live = cleanup-IsLive;
    bounded = cleanup_bounded;
  }

-- A session object gives way to one that a client of the map cannot tell from it.
pub record IsUpdate (s s' : Session) : Type 0 where
  pub same_key : s'.session_key ≡ s.session_key
  pub same_user : s'.user_id ≡ s.user_id
  pub same_done : s'.done ≡ s.done
  pub same_waiters : s'.token_waiters ≡ s.token_waiters
  pub same_signal : s'.event_waiters.signal ≡ s.event_waiters.signal

module _ (m : SessionManager) (v : IsValid m) (p : Pointer) (s s' : Session)
    (there : m.heap p ≡ some s) (u : IsUpdate s s') where
  update-IsLive :
      (k : Text) (q : Pointer) (t : Session)
      → GoMap.get m.sessions k ≡ some q
      → store m.heap p s' q ≡ some t
      → IsLive m.user_sessions k t
  update-IsLive k q t e f = elim (Bool-cases (p == q)) [
    | inl same ↦
        let eq : q ≡ p = ground arith in
        let new : s' ≡ t = ground arith in
        let was : IsLive m.user_sessions k s = v.live k q s e (rw eq there) in
        subst (IsLive m.user_sessions k) new (record {
          keyed = u.same_key ∙ was.keyed;
          running = u.same_done ∙ was.running;
          listed = rw u.same_user was.listed;
        })
    | inr other ↦ v.live k q t e (rw other at f)
  ]

  pub update-IsValid : IsValid (record m { heap = store m.heap p s' })
  update-IsValid = record {
    no_doubles = v.no_doubles;
    unused = λ q h. ground (arith, v.unused q);
    present = λ k q e. ground (arith, v.present k q);
    sound = λ q t e.
        store_cases IsSound m.heap p q s' t
          (record {
            done_once = ground (arith, (v.sound p s there).done_once, u.same_done);
            events_open = ground (arith, (v.sound p s there).events_open, u.same_signal);
            no_waiters = ground (arith, (v.sound p s there).no_waiters, u.same_waiters);
          })
          (v.sound q t) e;
    live = update-IsLive;
    bounded = v.bounded;
  }

-- What `CreateSession` makes of the lists: the key joins its user's.
pub contains-insert :
    (us : GoMap (List Text)) (u key w j : Text)
    → contains j (keys_of (GoMap.get (GoMap.put us u (keys_of (GoMap.get us u) ++ key ∷ [])) w))
      ≡ (contains j (keys_of (GoMap.get us w)) || (beq u w && beq key j))
unfolding contains
contains-insert us u key w j = ground (
  arith,
  get-put us u (keys_of (GoMap.get us u) ++ key ∷ []) w,
  beq_iff u w,
  contains-append j (keys_of (GoMap.get us u)) (key ∷ []),
)

module _ (m : SessionManager) (v : IsValid m) (now : ℕ) (key user url : Text)
    (allowed : at_limit m.max_sessions_per_user (GoMap.get m.user_sessions user) ≡ false) where
  insert-IsLive :
      (k : Text) (q : Pointer) (t : Session)
      → GoMap.get (insert_session m now key user url).sessions k ≡ some q
      → (insert_session m now key user url).heap q ≡ some t
      → IsLive (insert_session m now key user url).user_sessions k t
  unfolding insert_session
  insert-IsLive k q t e f = elim (Bool-cases (beq key k)) [
    | inl same ↦
        let eq : q ≡ m.next_pointer = ground (arith, get-put m.sessions key m.next_pointer k) in
        let new : fresh_session m now key user url ≡ t = ground arith in
        subst (IsLive (insert_session m now key user url).user_sessions k) new (record {
          keyed = (beq_iff key k).0 same;
          running = refl;
          listed = rw contains-insert (ground (arith, beq_iff user user));
        })
    | inr other ↦
        let e' : GoMap.get m.sessions k ≡ some q =
          ground (arith, get-put m.sessions key m.next_pointer k) in
        let was : IsLive m.user_sessions k t =
          v.live k q t e' (ground (arith, v.unused m.next_pointer, v.present k q)) in
        record {
          keyed = was.keyed;
          running = was.running;
          listed = rw contains-insert (ground (arith, was.listed));
        }
  ]

  insert_bounded :
      (u : Text) (ks : List Text)
      → GoMap.get (insert_session m now key user url).user_sessions u ≡ some ks
      → (0 < length ks) × (length ks ≤ max 1 m.max_sessions_per_user)
  unfolding insert_session
  insert_bounded u ks e = elim (Option-cases (GoMap.get m.user_sessions user)) [
    | inl e' ↦ ground (
      arith,
      get-put m.user_sessions user (keys_of (GoMap.get m.user_sessions user) ++ key ∷ []) u,
      v.bounded u ks,
    )
    | inr (old, e') ↦ ground (
      arith,
      get-put m.user_sessions user (keys_of (GoMap.get m.user_sessions user) ++ key ∷ []) u,
      v.bounded u ks,
      length-append old (key ∷ []),
    )
  ]

  pub insert-IsValid : IsValid (insert_session m now key user url)
  unfolding insert_session
  insert-IsValid = record {
    no_doubles = GoMap.put-IsMap m.sessions key m.next_pointer v.no_doubles;
    unused = λ q h. ground (arith, v.unused q);
    present = λ k q e. ground (arith, get-put m.sessions key m.next_pointer k, v.present k q);
    sound = λ q t e.
        store_cases IsSound m.heap m.next_pointer q (fresh_session m now key user url) t
          (record { done_once = λ h. ground arith; events_open = refl; no_waiters = refl })
          (v.sound q t) e;
    live = insert-IsLive;
    bounded = insert_bounded;
  }
