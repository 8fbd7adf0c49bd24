-- ===== src/BundleService/Etag.antt =====
-- operator/internal/bundleservice/cache/etag.go. A call holds the mutex from its first line to its
-- last, so it is one function.
use kagenti_operator.Prelude.{ℕ, Bool, Text, Option, [], ◌∷◌, length, if◌then◌else◌}
use kagenti_operator.GoMap
use kagenti_operator.GoMap.{GoMap}

-- clientID → content hash
abbrev pub EtagCache : Type 0
EtagCache = GoMap Text

abbrev pub new : EtagCache
new = []

abbrev pub get : EtagCache → Text → Option Text
get c agent_id = GoMap.get c agent_id

abbrev pub set : EtagCache → Text → Text → EtagCache
set c agent_id hash = GoMap.put c agent_id hash

abbrev pub invalidate : EtagCache → Text → EtagCache
invalidate c agent_id = GoMap.remove c agent_id

abbrev pub invalidate_all : EtagCache → EtagCache
invalidate_all c = []

unfoldable pub invalidate_func : EtagCache → (Text → Bool) → EtagCache
invalidate_func [] fn = []
invalidate_func ((id, hash) ∷ c) fn =
    let rest = invalidate_func c fn in if fn id then rest else (id, hash) ∷ rest

abbrev pub len : EtagCache → ℕ
len c = length c
