-- ===== src/BundleService/Caches.antt =====
-- operator/internal/bundleservice/cache/policy.go. A call holds the mutex from its first line to its
-- last, so it is one function. `PolicyEntry` has the fields of `bundle.Policy` and is that type.
use kagenti_operator.Prelude.{Text, Option, none, some, List, []}
use kagenti_operator.GoMap
use kagenti_operator.GoMap.{GoMap}
use kagenti_operator.BundleService.Content.{Policy}

pub record PolicyData : Type 0 where
  pub policies : List Policy
  pub hash : Text

pub record PolicyCache : Type 0 where
  pub global : Option PolicyData
  pub ns : GoMap PolicyData

abbrev pub new_policy_cache : PolicyCache
new_policy_cache = record { global = none; ns = [] }

abbrev pub get_global : PolicyCache → Option PolicyData
get_global c = c.global

abbrev pub set_global : PolicyCache → List Policy → Text → PolicyCache
set_global c policies hash = record c {
  global = some (record { policies = policies; hash = hash });
}

abbrev pub invalidate_global : PolicyCache → PolicyCache
invalidate_global c = record c { global = none }

abbrev pub get_namespace : PolicyCache → Text → Option PolicyData
get_namespace c ns = GoMap.get c.ns ns

abbrev pub set_namespace : PolicyCache → Text → List Policy → Text → PolicyCache
set_namespace c ns policies hash = record c {
  ns = GoMap.put c.ns ns (record { policies = policies; hash = hash });
}

abbrev pub invalidate_namespace : PolicyCache → Text → PolicyCache
invalidate_namespace c ns = record c { ns = GoMap.remove c.ns ns }
