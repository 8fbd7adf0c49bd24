-- ===== src/TokenBroker/Broker/Leftovers.antt =====
-- The tokens that the cache still has under a session key once its session has ended and another one
-- is created under it (core/broker.go over session/manager.go and cache/token_cache.go).
use kagenti_operator.Prelude.{
  ℕ, ◌≡◌, ◌≢◌, refl, ◌∙◌, false, Text, beq_iff, Option, none, some, List, [], ◌∷◌, arith, ℤ,
}
use kagenti_operator.GoMap
use kagenti_operator.GoMap.{GoMap, get-put, get-remove}
use kagenti_operator.TokenBroker.Errors.{ok}
use kagenti_operator.TokenBroker.Session.{Session, Pointer, store}
use kagenti_operator.TokenBroker.Sessions.{
  SessionManager, find_session, create_session, end_session, cleanup_session, insert_session,
  fresh_session, at_limit, validate_session, set_keys, forget_key, without_key,
}
use kagenti_operator.TokenBroker.Sessions.Invariant.{IsValid, found}
use kagenti_operator.TokenBroker.Sessions.Invariant.Changes.{update-IsValid}
use kagenti_operator.TokenBroker.Sessions.Runs
use kagenti_operator.TokenBroker.Sessions.Runs.{Valid, creates, ends, step}
use kagenti_operator.TokenBroker.Sessions.Runs.Preserved.{step-Valid}
use kagenti_operator.TokenBroker.Sessions.Endings.{validate_session_iff, find_session-insert}
use kagenti_operator.TokenBroker.Cache.{get_token, set_token}
use kagenti_operator.TokenBroker.Cache.Reads.{get_token-set_token}
use kagenti_operator.TokenBroker.JwtExpiry.{parse_jwt_expiry, is_token_expired}
use kagenti_operator.TokenBroker.Broker.{
  Request, Shared, advance, session_step, caching, unblocking, returned, proceeds,
}
use kagenti_operator.TokenBroker.Broker.Schedule.{Move, arrives, steps, calls, move, moves}

created-validated :
    (m : SessionManager) (now : ℕ) (key user url : Text)
    → IsValid m
    → at_limit m.max_sessions_per_user (GoMap.get m.user_sessions user) ≡ false
    → validate_session (create_session m now key user url).0 key user ≡ ok tt
unfolding create_session
created-validated m now key user url v allowed =
    rw (allowed, create_session)
      ((validate_session_iff (insert_session m now key user url) key user).1 (
        m.next_pointer,
        fresh_session m now key user url,
        rw (find_session-insert m now key user url key v) (ground (arith, beq_iff key key)),
        refl,
      ))

get-forget_key :
    (us : GoMap (List Text)) (u key v : Text) (keys : Option (List Text))
    → u ≢ v
    → GoMap.get (forget_key us u key keys) v ≡ GoMap.get us v
get-forget_key us u key v none apart = refl
get-forget_key us u key v (some keys) apart = go (without_key key keys)
  where
    go : (ks : List Text) → GoMap.get (set_keys us u ks) v ≡ GoMap.get us v
    go [] = ground (arith, get-remove us u v, beq_iff u v)
    go (k ∷ ks) = ground (arith, get-put us u (k ∷ ks) v, beq_iff u v)

-- What `EndSession` leaves of another user's limit.
ended-at_limit :
    (m : SessionManager) (key user : Text) (p : Pointer) (s : Session)
    → find_session m key ≡ some (p, s)
    → s.user_id ≢ user
    → let m' = (end_session m key).0 in
      at_limit m'.max_sessions_per_user (GoMap.get m'.user_sessions user)
      ≡ at_limit m.max_sessions_per_user (GoMap.get m.user_sessions user)
unfolding end_session cleanup_session
ended-at_limit m key user p s e apart =
    rw (e, end_session)
      (rw
        (get-forget_key m.user_sessions s.user_id key user (GoMap.get m.user_sessions s.user_id)
          apart)
        refl)

-- The object is written back as it was.
rewritten-Valid :
    (m : SessionManager) (p : Pointer) (s : Session)
    → m.heap p ≡ some s
    → Valid m
    → Valid (record m { heap = store m.heap p s })
rewritten-Valid m p s there v = record {
  sessions_valid = update-IsValid m v.sessions_valid p s s there (record {
    same_key = refl;
    same_user = refl;
    same_done = refl;
    same_waiters = refl;
    same_signal = refl;
  });
  timers_valid = record { armed_valid = v.timers_valid.armed_valid };
}

-- The bug of the tokens that outlive their session. A goroutine of the session's user is about to put
-- its token into the cache, and once it has the session is ended. Another user, who is not at the limit,
-- creates a session under the same key and asks for a token for the same resource. As long as the first
-- user's token has not expired, that `AcquireToken` returns it in two steps.
pub leftover_token_served :
    (unmarshal_exp : Text → Option ℤ) (callback_url : Text) (now later : ℕ) (w : Shared)
    (key user redirect url token : Text) (p : Pointer) (s : Session)
    → Valid w.manager
    → find_session w.manager key ≡ some (p, s)
    → s.user_id ≢ user
    → at_limit w.manager.max_sessions_per_user (GoMap.get w.manager.user_sessions user) ≡ false
    → is_token_expired later (parse_jwt_expiry unmarshal_exp now token) ≡ false
    → let first : Request = record {
      session_key = key;
      user_id = s.user_id;
      resource_url = url;
      pc = caching p token;
    } in
      let history : List (ℕ × Move) =
        (now, steps 0 proceeds)
        ∷ (later, calls (ends key))
        ∷ (later, calls (creates key user redirect))
        ∷ (later, arrives key user url)
        ∷ (later, steps 0 proceeds)
        ∷ (later, steps 0 proceeds)
        ∷ [] in
      (moves unmarshal_exp callback_url
        (record { shared = w; requests = first ∷ [] })
        history).requests
      ≡ record { session_key = key; user_id = user; resource_url = url; pc = returned (ok token) }
        ∷ record first { pc = unblocking p token }
        ∷ []
unfolding moves move advance session_step step validate_session
leftover_token_served unmarshal_exp callback_url now later w key user redirect url token p s v e
      apart allowed unexpired =
    let (here, there) = found w.manager key p s e in
    let m1 : SessionManager = record w.manager { heap = store w.manager.heap p s } in
    let c1 = (set_token unmarshal_exp now now w.cache s.session_key url token).0 in
    let m2 = (end_session m1 key).0 in
    let v1 = rewritten-Valid w.manager p s there v in
    let v2 : Valid m2 = unfold Runs.step in step-Valid m1 (later, ends key) v1 in
    let e1 : find_session m1 key ≡ some (p, s) = unfold find_session in ground (arith, here) in
    let room : at_limit m2.max_sessions_per_user (GoMap.get m2.user_sessions user) ≡ false =
      ended-at_limit m1 key user p s e1 apart ∙ allowed in
    let valid = created-validated m2 later key user redirect v2.sessions_valid room in
    let cached : get_token later c1 key url ≡ some token = ground (
      arith,
      get_token-set_token unmarshal_exp now now later w.cache s.session_key url token key url,
      beq_iff s.session_key key,
      beq_iff url url,
      (v.sessions_valid.live key p s here there).keyed,
    ) in
    rw there (rw (valid, cached) refl)
