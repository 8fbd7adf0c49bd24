-- ===== src/BundleService/Provider.antt =====
-- operator/internal/bundleservice/provider/provider.go, for requests that are answered one after the
-- other: the semaphore and the singleflight group hold back requests that run at the same time.
-- `AuthorizationPolicyFromUnstructured`, which calls the converter of Kubernetes, is the parameter
-- `convert`; `sort`, `digest_hex`, `clean` and `archive` are those of BundleService.Content.
pub mod Freshness
use kagenti_operator.Prelude.{
  ℕ, zero, suc, ◌+◌, ◌*◌, Bool, false, Text, lit, beq, is_empty, not, ◌&&◌, ltb, length, Option,
  none, some, List, [], ◌∷◌, ◌++◌, ◌⊎◌, inl, inr, if◌then◌else◌,
}
use kagenti_operator.BundleService.Lru
use kagenti_operator.BundleService.SpiffeId.{ClientIdentity, cache_key}
use kagenti_operator.BundleService.Content.{Policy, content_hash, build}
use kagenti_operator.BundleService.Caches.{
  PolicyCache, PolicyData, get_global, set_global, get_namespace, set_namespace,
}
use kagenti_operator.BundleService.Etag
use kagenti_operator.BundleService.Watcher.{
  Object, Lookup, failed, missing, found, Indexer, Caches, get_global_policies,
  get_namespace_policies, get_policy,
}

-- 5 * 1024 * 1024
abbrev pub max_bundle_size : ℕ
max_bundle_size = 5242880

pub data Answer : Type 0 where
  failed_lookup : Answer
  failed_conversion : Answer
  failed_build : Answer
  too_large : Answer
  not_modified : (etag : Text) → Answer
  bundle : (content etag : Text) → Answer

-- The policies of a tier under its directory.
unfoldable pub under : Text → List Policy → List Policy
under dir [] = []
under dir (p ∷ l) = record { path = dir ++ p.path; content = p.content } ∷ under dir l

abbrev pub all_policies : (global ns client : List Policy) → List Policy
all_policies global ns client =
    under (lit "authbridge/global/") global
    ++ (under (lit "authbridge/ns/") ns ++ under (lit "authbridge/client/") client)

-- What the service is set up with.
pub record Setup : Type 0 where
  pub service_namespace : Text
  pub convert : Object → Option (List Policy)
  pub sort : List Policy → List Policy
  pub digest_hex : Text → Text
  pub clean : Text → Text
  pub archive : List Policy → Option Text

-- The check of GetBundle that answers without a bundle
abbrev pub matches : Option Text → Text → Bool
matches none if_none_match = false
matches (some hash) if_none_match = not (is_empty if_none_match) && beq if_none_match hash

module _ (s : Setup) where
  -- extractPolicies
  unfoldable pub extract_policies : List Object → List Policy
  extract_policies [] = []
  extract_policies (o ∷ l) =
      let rest = extract_policies l in
      elim (s.convert o) [ none ↦ rest | some policies ↦ policies ++ rest ]

  -- hashPolicyEntries
  abbrev pub hash_policy_entries : List Policy → Text
  hash_policy_entries entries = content_hash s.sort s.digest_hex entries

  -- getGlobalPolicies
  unfoldable pub global_policies : Indexer → PolicyCache → PolicyCache × List Policy
  unfolding extract_policies
  global_policies idx c = elim (get_global c) [
    | some d ↦ (c, d.policies)
    | none ↦
        let policies = extract_policies (get_global_policies s.service_namespace idx) in
        (set_global c policies (hash_policy_entries policies), policies)
  ]

  -- getNamespacePolicies
  unfoldable pub namespace_policies : Indexer → Text → PolicyCache → PolicyCache × List Policy
  unfolding extract_policies
  namespace_policies idx ns c = elim (get_namespace c ns) [
    | some d ↦ (c, d.policies)
    | none ↦
        let policies = extract_policies (get_namespace_policies idx ns) in
        (set_namespace c ns policies (hash_policy_entries policies), policies)
  ]

  -- getClientPolicies: the error, or the policies
  unfoldable pub client_policies : Indexer → ClientIdentity → Answer ⊎ List Policy
  unfolding get_policy
  client_policies idx id = elim (get_policy idx id.name id.namespace) [
    | failed ↦ inl failed_lookup
    | missing ↦ inr []
    | found o ↦ elim (s.convert o) [ none ↦ inl failed_conversion | some policies ↦ inr policies ]
  ]

  -- The rest of buildBundle, from the content hash on
  abbrev pub finish_bundle : ℕ → ClientIdentity → List Policy → Caches → Caches × Answer
  finish_bundle now id policies c =
      let hash = content_hash s.sort s.digest_hex policies in
      let c' = record c { etags = Etag.set c.etags (cache_key id) hash } in
      elim (build s.sort s.clean s.archive policies) [
        | none ↦ (c', failed_build)
        | some content ↦ if ltb max_bundle_size (length content) then (c', too_large) else (
          record c' { bundles = Lru.set now c'.bundles (cache_key id) content hash },
          bundle content hash,
        )
      ]

  unfoldable pub build_bundle : ℕ → Indexer → ClientIdentity → Caches → Caches × Answer
  unfolding global_policies namespace_policies client_policies
  build_bundle now idx id c =
      let (c1, global) = global_policies idx c.policies in
      let (c2, ns) = namespace_policies idx id.namespace c1 in
      let c' = record c { policies = c2 } in
      elim (client_policies idx id) [
        | inl err ↦ (c', err)
        | inr client ↦ finish_bundle now id (all_policies global ns client) c'
      ]

  -- What follows it: the bundle cache, and the build
  abbrev pub stored_or_built : ℕ → Indexer → ClientIdentity → Caches → Caches × Answer
  stored_or_built now idx id c =
      let (bundles, entry) = Lru.get now c.bundles (cache_key id) in
      let c' = record c { bundles = bundles } in
      elim entry [
        | some (content, etag) ↦
            (record c' { etags = Etag.set c'.etags (cache_key id) etag }, bundle content etag)
        | none ↦ build_bundle now idx id c'
      ]

  unfoldable pub get_bundle :
      ℕ → Indexer → ClientIdentity → (if_none_match : Text) → Caches → Caches × Answer
  unfolding build_bundle
  get_bundle now idx id if_none_match c =
      if matches (Etag.get c.etags (cache_key id)) if_none_match
      then (c, not_modified if_none_match)
      else stored_or_built now idx id c
