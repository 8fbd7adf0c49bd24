-- ===== src/Examples/Bundles.antt =====
-- The bundle service (operator/internal/bundleservice) on concrete inputs.
use kagenti_operator.Prelude.{
  ◌≡◌, ◌≤◌, ◌↔◌, ◌⊎◌, inl, inr, refl, true, false, Text, lit, beq, beq_iff, none, some, List, [],
  ◌∷◌, ◌++◌, if◌then◌else◌, length, arith, Bool-cases, ap, sym, ◌∙◌, ◌<◌,
}
use kagenti_operator.GoMap
use kagenti_operator.BundleService.Lru
use kagenti_operator.BundleService.Content
use kagenti_operator.BundleService.Provider
use kagenti_operator.BundleService.Lru.{new_bundle_cache}
use kagenti_operator.BundleService.Lru.Refinement.{Op, get, set, run, ideal_run, cache_refines}
use kagenti_operator.BundleService.Lru.Indexed.{contents}
use kagenti_operator.BundleService.SpiffeId.{
  Identity, IsWellFormed, parse, path_of, parse_iff, from_request, cut,
}
use kagenti_operator.BundleService.Content.{Policy, count, content_hash, hash_input, same_policy}
use kagenti_operator.BundleService.Content.Order.{
  SamePolicies, HasOneContent, same_policy_iff, content_hash-reorder,
}
use kagenti_operator.BundleService.Watcher
use kagenti_operator.BundleService.Watcher.{
  Object, Indexer, Caches, object, key_of, Notification, scope_of,
}
use kagenti_operator.BundleService.Provider.{Setup, get_bundle}
use kagenti_operator.BundleService.Provider.Freshness.{Store, put_at, lookup_in, IsReading, IsTrue}
use kagenti_operator.BundleService.Provider.Freshness.Changes.{IsChange}
use kagenti_operator.BundleService.Provider.Freshness.Histories.{
  History, start, change, new_caches, answers_are_fresh,
}
use kagenti_operator.BundleService.Routes.{serve_bundle}
use kagenti_operator.BundleService.Routes.Revalidation.{served_again}
use kagenti_operator.Strings
use kagenti_operator.Strings.{split}
use kagenti_operator.Examples.Sorting.{insertion_sort, insertion_sort-Sorts}

-- Two entries in a cache for one.
abbrev calls : List Op
calls =
    set 5 (lit "a/x") (lit "gz1") (lit "h1")
    ∷ set 6 (lit "a/y") (lit "gz2") (lit "h2")
    ∷ get 7 (lit "a/x")
    ∷ get 8 (lit "a/y")
    ∷ []

cache_refines_example :
    ((run (new_bundle_cache 1 60) calls).1 ≡ (ideal_run 1 60 [] calls).1)
    × (contents (run (new_bundle_cache 1 60) calls).0 ≡ (ideal_run 1 60 [] calls).0)
    × (length (run (new_bundle_cache 1 60) calls).0.evict_list
        ≤ (run (new_bundle_cache 1 60) calls).0.max_entries)
unfolding new_bundle_cache
cache_refines_example = cache_refines 1 60 calls

abbrev raw : Text
raw = lit "td.org/ns/team1/sa/web"

abbrev web : Identity
web = record { trust_domain = lit "td.org"; namespace = lit "team1"; name = lit "web" }

parse_iff_example :
    (parse raw ≡ some web) ↔ (IsWellFormed web × (raw ≡ web.trust_domain ++ b'/' ∷ path_of web))
parse_iff_example = parse_iff raw web

-- Two policies, in two orders.
abbrev p1 : Policy
p1 = record { path = lit "a.rego"; content = lit "allow" }

abbrev p2 : Policy
p2 = record { path = lit "b.rego"; content = lit "deny" }

abbrev digest : Text → Text
digest t = t

one_of_two : (p : Policy) → 0 < count p (p2 ∷ p1 ∷ []) → (p ≡ p2) ⊎ (p ≡ p1)
one_of_two p h = elim (Bool-cases (same_policy p p2)) [
  | inl same ↦ inl ((same_policy_iff p p2).0 same)
  | inr other ↦ elim (Bool-cases (same_policy p p1)) [
    | inl same ↦ inr ((same_policy_iff p p1).0 same)
    | inr neither ↦ absurd (omega (arith, (rw (other, neither) at h)))
  ]
]

two-HasOneContent : HasOneContent (p2 ∷ p1 ∷ [])
unfolding beq
two-HasOneContent p q h k e = elim (one_of_two p h) [
  | inl a ↦ elim (one_of_two q k) [
    | inl b ↦ a ∙ sym b
    | inr b ↦ absurd (paths_differ (rw (a, b) at e))
  ]
  | inr a ↦ elim (one_of_two q k) [
    | inl b ↦ absurd (paths_differ (sym (rw (a, b) at e)))
    | inr b ↦ a ∙ sym b
  ]
]
  where
    apart : beq (lit "b.rego") (lit "a.rego") ≡ false
    apart = refl

    paths_differ : lit "b.rego" ≡ lit "a.rego" → ⊥
    paths_differ t = absurd (ground (arith, (beq_iff (lit "b.rego") (lit "a.rego")).1 t, apart))

two-SamePolicies : SamePolicies (p1 ∷ p2 ∷ []) (p2 ∷ p1 ∷ [])
two-SamePolicies p = omega arith

content_hash-reorder_example :
    content_hash insertion_sort digest (p1 ∷ p2 ∷ [])
    ≡ content_hash insertion_sort digest (p2 ∷ p1 ∷ [])
content_hash-reorder_example =
    content_hash-reorder insertion_sort digest (p1 ∷ p2 ∷ []) (p2 ∷ p1 ∷ []) insertion_sort-Sorts
      two-HasOneContent two-SamePolicies

-- A cluster with one policy, of the workload `web`.
abbrev web_policy : Object
web_policy = record { namespace = lit "team1"; name = lit "web"; scope = []; body = lit "allow" }

abbrev setup : Setup
setup = record {
  service_namespace = lit "platform";
  convert = λ o. some (record { path = lit "a.rego"; content = o.body } ∷ []);
  sort = insertion_sort;
  digest_hex = λ t. t;
  clean = λ t. t;
  archive = λ l. some (lit "gz");
}

abbrev nothing : Store
nothing k = none

abbrev cluster : Store
cluster = put_at nothing (key_of (lit "team1") (lit "web")) (some web_policy)

abbrev informer : Indexer
informer = record {
  by_index = λ scope. some (if beq (lit "client") scope then web_policy ∷ [] else []);
  get_by_key = λ k. lookup_in (cluster k);
}

stored_web : (o : Object) → cluster (key_of o.namespace o.name) ≡ some o → web_policy ≡ o
unfolding put_at
stored_web o h =
    elim (Bool-cases (beq (key_of (lit "team1") (lit "web")) (key_of o.namespace o.name))) [
      | inl same ↦ ground arith
      | inr other ↦ absurd (ground arith)
    ]

informer-IsReading : IsReading cluster informer
unfolding put_at beq
informer-IsReading = record {
  indexed = λ scope. elim (Bool-cases (beq (lit "client") scope)) [
    | inl same ↦ (
      web_policy ∷ [],
      rw same refl,
      λ o. (
        λ h. elim h [
          | inl e ↦ rw (← e) (refl, (beq_iff (lit "client") scope).0 same)
          | inr e ↦ absurd e
        ],
        λ h. inl (stored_web o h.0),
      ),
    )
    | inr other ↦ (
      [],
      rw other refl,
      λ o. (
        λ h. absurd h,
        λ h. absurd (
            ground
              (arith, (beq_iff (lit "client") scope).1 (ap scope_of (stored_web o h.0) ∙ h.1))),
      ),
    )
  ];
  keyed = λ k. refl;
}

asked : from_request raw ≡ some (record { namespace = lit "team1"; name = lit "web" })
unfolding from_request parse cut split beq
asked = refl

added : IsChange (lit "platform") nothing web_policy (some web_policy)
added = record { new_one = inr refl; old_one = λ old h. absurd (ground arith); scoped = inl refl }

past :
    History setup cluster
      (Watcher.invalidate (lit "platform") (object web_policy) (new_caches 100 0))
past =
    change nothing (new_caches 100 0) (start nothing 100 0) web_policy (some web_policy)
      (object web_policy) added (inl refl)

answers_are_fresh_example :
    IsTrue setup cluster
      (record { namespace = lit "team1"; name = lit "web" })
      []
      (get_bundle setup 9 informer
        (record { namespace = lit "team1"; name = lit "web" })
        []
        (Watcher.invalidate (lit "platform") (object web_policy) (new_caches 100 0))).1
answers_are_fresh_example =
    answers_are_fresh setup cluster
      (Watcher.invalidate (lit "platform") (object web_policy) (new_caches 100 0)) 9 informer raw
      (record { namespace = lit "team1"; name = lit "web" }) [] past informer-IsReading asked

abbrev caches : Caches
caches = Watcher.invalidate (lit "platform") (object web_policy) (new_caches 100 0)

served : (serve_bundle setup (λ id. true) (some true) 9 informer raw [] caches).1.status ≡ 200
unfolding serve_bundle from_request parse cut split beq get_bundle Watcher.invalidate GoMap.get
    GoMap.remove Lru.get Lru.find_element Lru.invalidate new_bundle_cache put_at Content.build
    Content.all_valid Provider.under Watcher.get_global_policies Watcher.in_namespace
    Watcher.get_namespace_policies Content.validate_path Strings.has_prefix Content.contains_text
served = refl

served_again_example :
    let out = serve_bundle setup (λ id. true) (some true) 9 informer raw [] caches in
    serve_bundle setup (λ id. true) (some true) 20 informer raw out.1.etag out.0
    ≡ (out.0, record { status = 304; etag = []; body = [] })
served_again_example =
    served_again setup (λ id. true) cluster caches (some true) 9 informer raw [] past
      informer-IsReading served 20 informer
