-- ===== src/BundleService/Provider/Freshness/Histories.antt =====
-- The bundle service over time: requests and notifications of changes, one after the other, from empty
-- caches on.
use kagenti_operator.Prelude.{
  ℕ, ◌≡◌, ◌⊎◌, inl, inr, Text, Option, some, Option-cases, Bool-cases, [], is_empty, arith,
}
use kagenti_operator.GoMap
use kagenti_operator.BundleService.Lru.{new_bundle_cache}
use kagenti_operator.BundleService.Lru.Elements.{values, find}
use kagenti_operator.BundleService.Lru.Refinement.{new-IsValid}
use kagenti_operator.BundleService.SpiffeId.{ClientIdentity, from_request, parse, parse_iff}
use kagenti_operator.BundleService.Caches.{new_policy_cache}
use kagenti_operator.BundleService.Watcher.{
  Object, Indexer, Caches, Notification, object, tombstone, key_of, invalidate,
}
use kagenti_operator.BundleService.Provider.{Setup, get_bundle}
use kagenti_operator.BundleService.Provider.Freshness.{
  Store, put_at, IsReading, IsPlain, IsCoherent, IsTrue,
}
use kagenti_operator.BundleService.Provider.Freshness.Requests.{get_bundle_lem}
use kagenti_operator.BundleService.Provider.Freshness.Changes.{IsChange, invalidate_lem}

abbrev pub new_caches : (max_entries ttl : ℕ) → Caches
new_caches max_entries ttl = record {
  etags = [];
  bundles = new_bundle_cache max_entries ttl;
  policies = new_policy_cache;
}

-- The notifications of a change of a policy.
abbrev pub IsAbout : Object → Notification → Type 0
IsAbout o n = (n ≡ object o) ⊎ (n ≡ tombstone o)

pub data History (s : Setup) : Store → Caches → Type 0 where
  start : (st : Store) (max_entries ttl : ℕ) → History s st (new_caches max_entries ttl)
  change :
      (st : Store) (c : Caches)
      → History s st c
      → (o : Object) (new : Option Object) (n : Notification)
      → IsChange s.service_namespace st o new
      → IsAbout o n
      → History s (put_at st (key_of o.namespace o.name) new) (invalidate s.service_namespace n c)
  request :
      (st : Store) (c : Caches)
      → History s st c
      → (now : ℕ) (idx : Indexer) (spiffe : Text) (id : ClientIdentity) (if_none_match : Text)
      → IsReading st idx
      → from_request spiffe ≡ some id
      → History s st (get_bundle s now idx id if_none_match c).0

from_request-IsPlain :
    (spiffe : Text) (id : ClientIdentity) → from_request spiffe ≡ some id → IsPlain id
unfolding from_request
from_request-IsPlain spiffe id h = elim (Bool-cases (is_empty spiffe)) [
  | inl empty ↦ absurd (ground arith)
  | inr given ↦ elim (Option-cases (parse spiffe)) [
    | inl e ↦ absurd (ground arith)
    | inr (parsed, e) ↦
        let well = ((parse_iff spiffe parsed).0 e).0 in
        let same : parsed.namespace ≡ id.namespace = ground arith in
        rw (← same) well.namespace_plain
  ]
]

history-IsCoherent : (s : Setup) (st : Store) (c : Caches) → History s st c → IsCoherent s st c
unfolding invalidate
history-IsCoherent s _ _ (start st max_entries ttl) = record {
  valid = new-IsValid max_entries ttl;
  global = λ d h. absurd (ground arith);
  ns = λ n d h. absurd (unfold GoMap.get in ground arith);
  etags = λ id hash p h. absurd (unfold GoMap.get in ground arith);
  bundles = λ id e p h. absurd (unfold new_bundle_cache values find in ground arith);
}
history-IsCoherent s _ _ (change st c before o new n ch about) =
    let kept = invalidate_lem s st o new ch c (history-IsCoherent s st c before) in
    elim about [ inl e ↦ rw (e, invalidate) kept | inr e ↦ rw (e, invalidate) kept ]
history-IsCoherent s _ _ (request st c before now idx spiffe id if_none_match reads asked) =
    (get_bundle_lem s st idx reads now id if_none_match c (from_request-IsPlain spiffe id asked)
      (history-IsCoherent s st c before)).0

-- After any sequence of requests and notifications from empty caches, where every change of the store is
-- notified before the next request, keeps the scope and the namespace of the policy, and is of a client
-- policy, a namespace policy or a global policy in the service's namespace: a "not modified" is sent for
-- the hash of the policies that the workload has then, a bundle is built of these policies and has their
-- hash, and an error is sent only where the workload's own policy does not convert, the bundle of these
-- policies cannot be built, or it is longer than 5 MiB.
pub answers_are_fresh :
    (s : Setup) (st : Store) (c : Caches) (now : ℕ) (idx : Indexer) (spiffe : Text)
    (id : ClientIdentity) (if_none_match : Text)
    → History s st c
    → IsReading st idx
    → from_request spiffe ≡ some id
    → IsTrue s st id if_none_match (get_bundle s now idx id if_none_match c).1
answers_are_fresh s st c now idx spiffe id if_none_match history reads asked =
    (get_bundle_lem s st idx reads now id if_none_match c (from_request-IsPlain spiffe id asked)
      (history-IsCoherent s st c history)).1
