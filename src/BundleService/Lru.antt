-- ===== src/BundleService/Lru.antt =====
-- operator/internal/bundleservice/cache/bundle.go: an LRU cache whose entries expire. An element of
-- `container/list` is a pointer with its value; `entries` maps a key to the pointer of its element, and
-- `evict_list` has the elements, the front first. `time.Now` is the argument `now`, in nanoseconds.
pub mod Elements
pub mod Indexed
pub mod Refinement
pub mod Reads
use kagenti_operator.Prelude.{
  ℕ, zero, suc, ◌+◌, Bool, true, false, Text, beq, Option, none, some, List, [], ◌∷◌, ◌==◌, ltb,
  leb, length, if◌then◌else◌,
}
use kagenti_operator.GoMap
use kagenti_operator.GoMap.{GoMap}

pub record BundleEntry : Type 0 where
  pub key : Text
  pub content : Text
  pub etag : Text
  pub expires : ℕ

-- The elements of a list, and an element of it with its value.
abbrev pub Elements : Type 0
Elements = List (ℕ × BundleEntry)

pub record BundleCache : Type 0 where
  pub max_entries : ℕ
  pub ttl : ℕ
  pub entries : GoMap ℕ
  pub evict_list : Elements
  pub next_element : ℕ

abbrev pub default_bundle_max_entries : ℕ
default_bundle_max_entries = 100

-- 1 * time.Minute
abbrev pub default_bundle_ttl : ℕ
default_bundle_ttl = 60000000000

-- A negative argument counts as zero.
unfoldable pub new_bundle_cache : (max_entries ttl : ℕ) → BundleCache
new_bundle_cache max_entries ttl = record {
  max_entries = if max_entries == 0 then default_bundle_max_entries else max_entries;
  ttl = if ttl == 0 then default_bundle_ttl else ttl;
  entries = [];
  evict_list = [];
  next_element = 0;
}

-- el.Value
unfoldable pub value_of : ℕ → Elements → Option BundleEntry
value_of el [] = none
value_of el ((i, e) ∷ l) = if i == el then some e else value_of el l

-- list.Remove
unfoldable pub remove_el : ℕ → Elements → Elements
remove_el el [] = []
remove_el el ((i, e) ∷ l) = if i == el then l else (i, e) ∷ remove_el el l

-- list.Back
unfoldable pub back : Elements → Option (ℕ × BundleEntry)
back [] = none
back (x ∷ []) = some x
back (x ∷ y ∷ l) = back (y ∷ l)

-- removeElement, of the element `el` whose value is `e`
unfoldable pub remove_element : BundleCache → ℕ → BundleEntry → BundleCache
remove_element c el e = record c {
  evict_list = remove_el el c.evict_list;
  entries = GoMap.remove c.entries e.key;
}

-- MoveToFront, of the element `el` whose value is then `e`
abbrev pub move_to_front : BundleCache → ℕ → BundleEntry → BundleCache
move_to_front c el e = record c { evict_list = (el, e) ∷ remove_el el c.evict_list }

-- c.entries[key] with the value of its element
unfoldable pub find_element : BundleCache → Text → Option (ℕ × BundleEntry)
find_element c key = elim (GoMap.get c.entries key) [
  | none ↦ none
  | some el ↦ elim (value_of el c.evict_list) [ none ↦ none | some e ↦ some (el, e) ]
]

unfoldable pub get : ℕ → BundleCache → Text → BundleCache × Option (Text × Text)
unfolding remove_element
get now c agent_id = elim (find_element c agent_id) [
  | none ↦ (c, none)
  | some (el, e) ↦
      if ltb e.expires now
      then (remove_element c el e, none)
      else (move_to_front c el e, some (e.content, e.etag))
]

unfoldable pub remove_lru : BundleCache → BundleCache
unfolding remove_element
remove_lru c = elim (back c.evict_list) [ none ↦ c | some (el, e) ↦ remove_element c el e ]

abbrev pub push_front : BundleCache → BundleEntry → BundleCache
push_front c e = record c {
  evict_list = (c.next_element, e) ∷ c.evict_list;
  entries = GoMap.put c.entries e.key c.next_element;
  next_element = suc c.next_element;
}

unfoldable pub set : ℕ → BundleCache → Text → (content etag : Text) → BundleCache
unfolding remove_lru
set now c agent_id content etag = elim (find_element c agent_id) [
  | some (el, e) ↦
      move_to_front c el (record e { content = content; etag = etag; expires = now + c.ttl })
  | none ↦
      let c' =
        push_front c
          (record { key = agent_id; content = content; etag = etag; expires = now + c.ttl }) in
      if ltb c'.max_entries (length c'.evict_list) then remove_lru c' else c'
]

unfoldable pub invalidate : BundleCache → Text → BundleCache
unfolding remove_element
invalidate c agent_id = elim (find_element c agent_id) [
  | none ↦ c
  | some (el, e) ↦ remove_element c el e
]

unfoldable pub invalidate_all : BundleCache → BundleCache
invalidate_all c = record c { entries = []; evict_list = [] }

-- One round of `InvalidateFunc`: c.removeElement(el); delete(c.entries, id)
abbrev pub drop_entry : BundleCache → Text → ℕ → BundleCache
drop_entry c id el = elim (value_of el c.evict_list) [
  | none ↦ record c { entries = GoMap.remove c.entries id }
  | some e ↦ let c' = remove_element c el e in record c' { entries = GoMap.remove c'.entries id }
]

-- The range of `InvalidateFunc`, over the entries that there were at its start.
unfoldable pub invalidate_range : (Text → Bool) → GoMap ℕ → BundleCache → BundleCache
unfolding remove_element
invalidate_range fn [] c = c
invalidate_range fn ((id, el) ∷ es) c =
    invalidate_range fn es (if fn id then drop_entry c id el else c)

unfoldable pub invalidate_func : (Text → Bool) → BundleCache → BundleCache
invalidate_func fn c = invalidate_range fn c.entries c

-- Len
unfoldable pub size : BundleCache → ℕ
size c = length c.evict_list
