-- ===== src/BundleService/Provider/Freshness.antt =====
-- provider.go and watcher.go together: how the caches stand to the policies in the cluster.
pub mod Tiers
pub mod Requests
pub mod Changes
pub mod Histories
use kagenti_operator.Prelude.{
  ℕ, ◌+◌, ◌≡◌, ◌↔◌, ◌⊎◌, inl, inr, refl, Text, lit, beq, Option, none, some, List, [], ◌∷◌, ◌++◌,
  if◌then◌else◌, true, ◌<◌, length,
}
use kagenti_operator.GoMap
use kagenti_operator.BundleService.Lru
use kagenti_operator.BundleService.Lru.Elements.{find}
use kagenti_operator.BundleService.Lru.Refinement
use kagenti_operator.BundleService.Lru.Indexed.{contents}
use kagenti_operator.BundleService.SpiffeId.{ClientIdentity, cache_key, lacks}
use kagenti_operator.BundleService.Content.{Policy, content_hash, build}
use kagenti_operator.BundleService.Caches.{PolicyData}
use kagenti_operator.BundleService.Watcher.{
  Object, Lookup, missing, found, Indexer, Caches, scope_of, key_of,
}
use kagenti_operator.BundleService.Provider.{
  Answer, failed_lookup, failed_conversion, failed_build, too_large, not_modified, bundle, Setup,
  extract_policies, all_policies,
}

-- The policies in the cluster, by `namespace/name`.
abbrev pub Store : Type 0
Store = Text → Option Object

unfoldable pub put_at : Store → Text → Option Object → Store
put_at st k new j = if beq k j then new else st j

abbrev pub Member : Object → List Object → Type 0
Member o [] = ⊥
Member o (x ∷ l) = (x ≡ o) ⊎ Member o l

abbrev pub IsStored : Store → Object → Type 0
IsStored st o = st (key_of o.namespace o.name) ≡ some o

-- A listing of the objects of a scope in a namespace.
abbrev pub InTier : Store → (scope ns : Text) → List Object → Type 0
InTier st scope ns l =
    (o : Object) → Member o l ↔ (IsStored st o × (scope_of o ≡ scope) × (o.namespace ≡ ns))

abbrev pub lookup_in : Option Object → Lookup
lookup_in none = missing
lookup_in (some o) = found o

-- What the informer's indexer documents: the objects of an index value, and the object of a key.
pub record IsReading (st : Store) (idx : Indexer) : Type 0 where
  pub indexed :
      (scope : Text)
      → (l : List Object) × (idx.by_index scope ≡ some l)
        × ((o : Object) → Member o l ↔ (IsStored st o × (scope_of o ≡ scope)))
  pub keyed : (k : Text) → idx.get_by_key k ≡ lookup_in (st k)

-- An identity whose namespace has no `/`.
abbrev pub IsPlain : ClientIdentity → Type 0
IsPlain id = lacks b'/' id.namespace ≡ true

module _ (s : Setup) where
  -- The policies of the workload of that name in the store, where they convert.
  abbrev pub IsClientTier : Option Object → List Policy → Type 0
  IsClientTier none client = client ≡ []
  IsClientTier (some o) client = s.convert o ≡ some client

  -- Policies that the workload has, in the order of their tiers.
  pub record IsCurrent (st : Store) (id : ClientIdentity) (policies : List Policy) : Type 0 where
    pub global : List Object
    pub ns : List Object
    pub client : List Policy
    pub global_tier : InTier st (lit "global") s.service_namespace global
    pub ns_tier : InTier st (lit "namespace") id.namespace ns
    pub client_tier : IsClientTier (st (cache_key id)) client
    pub listed : policies ≡ all_policies (extract_policies s global) (extract_policies s ns) client

  -- The hash, and the bundle with its hash, of such policies.
  abbrev pub IsFreshHash : Store → ClientIdentity → Text → Type 0
  IsFreshHash st id hash =
      (policies : List Policy) × IsCurrent st id policies
      × (hash ≡ content_hash s.sort s.digest_hex policies)

  abbrev pub IsFreshBundle : Store → ClientIdentity → (content hash : Text) → Type 0
  IsFreshBundle st id content hash =
      (policies : List Policy) × IsCurrent st id policies
      × (hash ≡ content_hash s.sort s.digest_hex policies)
      × (build s.sort s.clean s.archive policies ≡ some content)

  -- The policies of a tier of the policy cache.
  abbrev pub IsFreshTier : Store → (scope ns : Text) → List Policy → Type 0
  IsFreshTier st scope ns policies =
      (l : List Object) × InTier st scope ns l × (policies ≡ extract_policies s l)

  -- What the caches hold is what the store has.
  pub record IsCoherent (st : Store) (c : Caches) : Type 0 where
    pub valid : Refinement.IsValid c.bundles
    pub global :
        (d : PolicyData)
        → c.policies.global ≡ some d
        → IsFreshTier st (lit "global") s.service_namespace d.policies
    pub ns :
        (n : Text) (d : PolicyData)
        → GoMap.get c.policies.ns n ≡ some d
        → IsFreshTier st (lit "namespace") n d.policies
    pub etags :
        (id : ClientIdentity) (hash : Text)
        → IsPlain id
        → GoMap.get c.etags (cache_key id) ≡ some hash
        → IsFreshHash st id hash
    pub bundles :
        (id : ClientIdentity) (e : Lru.BundleEntry)
        → IsPlain id
        → find (cache_key id) (contents c.bundles) ≡ some e
        → IsFreshBundle st id e.content e.etag

  -- What an answer says of the store: the hash is still that of the workload's policies, the bundle is
  -- made of them, or they cannot be converted, built or sent.
  abbrev pub IsTrue : Store → ClientIdentity → (if_none_match : Text) → Answer → Type 0
  IsTrue st id if_none_match failed_lookup = ⊥
  IsTrue st id if_none_match failed_conversion =
      (o : Object) × (st (cache_key id) ≡ some o) × (s.convert o ≡ none)
  IsTrue st id if_none_match failed_build =
      (policies : List Policy) × IsCurrent st id policies
      × (build s.sort s.clean s.archive policies ≡ none)
  IsTrue st id if_none_match too_large =
      (policies : List Policy) × (content : Text) × IsCurrent st id policies
      × (build s.sort s.clean s.archive policies ≡ some content)
      × (5242880 < length content)
  IsTrue st id if_none_match (not_modified etag) = (etag ≡ if_none_match) × IsFreshHash st id etag
  IsTrue st id if_none_match (bundle content etag) = IsFreshBundle st id content etag
