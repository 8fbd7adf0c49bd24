-- ===== src/BundleService/Watcher.antt =====
-- operator/internal/bundleservice/watcher/watcher.go. The informer's indexer is a parameter: what its
-- two lookups return at one moment. An object of the informer is its metadata, the text that
-- `unstructured.NestedString` finds at `spec.scope`, empty where it finds none, and the rest.
use kagenti_operator.Prelude.{
  Text, lit, beq, is_empty, Option, none, some, List, [], ◌∷◌, ◌++◌, if◌then◌else◌,
}
use kagenti_operator.BundleService.Lru
use kagenti_operator.BundleService.Lru.{BundleCache}
use kagenti_operator.BundleService.Caches.{PolicyCache, invalidate_global, invalidate_namespace}
use kagenti_operator.BundleService.Etag
use kagenti_operator.BundleService.Etag.{EtagCache}

pub record Object : Type 0 where
  pub namespace : Text
  pub name : Text
  pub scope : Text
  pub body : Text

-- What GetByKey returns.
pub data Lookup : Type 0 where
  failed : Lookup
  missing : Lookup
  found : Object → Lookup

-- ByIndex, `none` for an error, and GetByKey.
pub record Indexer : Type 0 where
  pub by_index : Text → Option (List Object)
  pub get_by_key : Text → Lookup

-- The caches of the service.
pub record Caches : Type 0 where
  pub etags : EtagCache
  pub bundles : BundleCache
  pub policies : PolicyCache

-- The index function of `ScopeIndex`, and the first lines of `invalidate`
abbrev pub scope_of : Object → Text
scope_of o = if is_empty o.scope then lit "client" else o.scope

unfoldable pub in_namespace : Text → List Object → List Object
in_namespace ns [] = []
in_namespace ns (o ∷ l) =
    let rest = in_namespace ns l in if beq o.namespace ns then o ∷ rest else rest

unfoldable pub get_global_policies : (service_namespace : Text) → Indexer → List Object
get_global_policies service_namespace idx = elim (idx.by_index (lit "global")) [
  | none ↦ []
  | some items ↦ in_namespace service_namespace items
]

unfoldable pub get_namespace_policies : Indexer → Text → List Object
get_namespace_policies idx ns = elim (idx.by_index (lit "namespace")) [
  | none ↦ []
  | some items ↦ in_namespace ns items
]

abbrev pub key_of : (namespace name : Text) → Text
key_of namespace name = namespace ++ b'/' ∷ name

unfoldable pub get_policy : Indexer → (name namespace : Text) → Lookup
get_policy idx name namespace = idx.get_by_key (key_of namespace name)

-- What a handler of the informer receives.
pub data Notification : Type 0 where
  object : Object → Notification
  tombstone : Object → Notification
  other : Notification

abbrev pub drop_all : PolicyCache → Caches → Caches
drop_all policies c = record {
  etags = Etag.invalidate_all c.etags;
  bundles = Lru.invalidate_all c.bundles;
  policies = policies;
}

-- The switch of `invalidate`
abbrev pub invalidate_object : (service_namespace : Text) → Object → Caches → Caches
invalidate_object service_namespace o c =
    let scope = scope_of o in
    if beq scope (lit "global")
    then (if beq o.namespace service_namespace
        then drop_all (invalidate_global c.policies) c
        else c)
    else if beq scope (lit "namespace")
    then drop_all (invalidate_namespace c.policies o.namespace) c
    else if beq scope (lit "client")
    then record c {
      etags = Etag.invalidate c.etags (key_of o.namespace o.name);
      bundles = Lru.invalidate c.bundles (key_of o.namespace o.name);
    }
    else c

-- The handlers of the informer: of an update, the new object.
unfoldable pub invalidate : (service_namespace : Text) → Notification → Caches → Caches
invalidate service_namespace (object o) c = invalidate_object service_namespace o c
invalidate service_namespace (tombstone o) c = invalidate_object service_namespace o c
invalidate service_namespace other c = c
