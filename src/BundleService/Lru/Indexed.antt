-- ===== src/BundleService/Lru/Indexed.antt =====
-- cache/bundle.go: its map as the index of its list, and the changes of both.
use kagenti_operator.Prelude.{
  ℕ, suc, ◌≤◌, ◌<◌, ◌≡◌, ◌⊎◌, inl, inr, refl, ap, Text, beq_iff, none, some, Option-cases, List, [],
  ◌∷◌, length, arith,
}
use kagenti_operator.GoMap
use kagenti_operator.BundleService.Lru.{
  BundleEntry, Elements, BundleCache, value_of, remove_el, back, remove_element, find_element,
  remove_lru, move_to_front, push_front,
}
use kagenti_operator.BundleService.Lru.Elements.{
  values, find, remove_key, drop_last, element_of, Distinct, Has, value_of-Has, element_of-Has,
  element_of-absent, values-remove_el, value_of-remove_el, element_of-remove_el, remove_el-Distinct,
  back_lem, back-none,
}

-- The map is the index of the list.
pub record IsIndexed (c : BundleCache) : Type 0 where
  pub distinct : Distinct c.evict_list
  pub fresh : (i : ℕ) → c.next_element ≤ i → value_of i c.evict_list ≡ none
  pub indexed : (k : Text) → GoMap.get c.entries k ≡ element_of k c.evict_list

abbrev pub contents : BundleCache → List BundleEntry
contents c = values c.evict_list

-- What a lookup finds.
module _ (c : BundleCache) (v : IsIndexed c) (k : Text) where
  pub found_cases :
      ((find_element c k ≡ none)
        × (find k (contents c) ≡ none)
        × (element_of k c.evict_list ≡ none))
      ⊎ ((el : ℕ) × (e : BundleEntry) × (find_element c k ≡ some (el, e))
          × (e.key ≡ k)
          × Has c.evict_list el e)
  unfolding find_element
  found_cases = elim (Option-cases (element_of k c.evict_list)) [
    | inl e ↦ inl (rw (v.indexed k, e, find_element) refl, element_of-absent c.evict_list k e, e)
    | inr (el, e) ↦
        let (entry, key, there) = element_of-Has c.evict_list k el v.distinct e in
        inr (el, entry, rw (v.indexed k, e, find_element) (rw there.valued refl), key, there)
  ]

pub length-remove_el :
    (l : Elements) (el : ℕ) (e : BundleEntry)
    → value_of el l ≡ some e
    → length l ≡ suc (length (remove_el el l))
unfolding value_of remove_el
length-remove_el [] el e h = cc
length-remove_el ((i, e') ∷ l) el e h = ground (arith, length-remove_el l el e)

module _ (c : BundleCache) (v : IsIndexed c) (el : ℕ) (e : BundleEntry)
    (there : Has c.evict_list el e) where
  pub remove_element-IsIndexed : IsIndexed (remove_element c el e)
  unfolding remove_element
  remove_element-IsIndexed = record {
    distinct = remove_el-Distinct c.evict_list el v.distinct;
    fresh = λ i h. ground (arith, value_of-remove_el c.evict_list el i v.distinct, v.fresh i h);
    indexed = λ k. ground (
      arith,
      GoMap.get-remove c.entries e.key k,
      element_of-remove_el c.evict_list el e k v.distinct there.valued,
      v.indexed k,
    );
  }

  pub contents-remove_element : contents (remove_element c el e) ≡ remove_key e.key (contents c)
  unfolding remove_element
  contents-remove_element = values-remove_el c.evict_list el e v.distinct there.valued

  pub move_to_front-IsIndexed :
      (e' : BundleEntry) → e'.key ≡ e.key → IsIndexed (move_to_front c el e')
  unfolding value_of element_of
  move_to_front-IsIndexed e' same = record {
    distinct = (
      ground (arith, value_of-remove_el c.evict_list el el v.distinct),
      ground (
        arith,
        element_of-remove_el c.evict_list el e e'.key v.distinct there.valued,
        beq_iff e.key e'.key,
      ),
      remove_el-Distinct c.evict_list el v.distinct,
    );
    fresh = λ i h.
        ground (arith, value_of-remove_el c.evict_list el i v.distinct, v.fresh i h, there.valued);
    indexed = λ k. ground (
      arith,
      element_of-remove_el c.evict_list el e k v.distinct there.valued,
      v.indexed k,
      beq_iff e'.key k,
      beq_iff e.key k,
      there.keyed,
    );
  }

  pub contents-move_to_front :
      (e' : BundleEntry) → contents (move_to_front c el e') ≡ e' ∷ remove_key e.key (contents c)
  unfolding values
  contents-move_to_front e' =
      ap (λ (t : List BundleEntry). e' ∷ t)
        (values-remove_el c.evict_list el e v.distinct there.valued)

-- A new entry, before the list is trimmed.
module _ (c : BundleCache) (v : IsIndexed c) (e : BundleEntry)
    (absent : element_of e.key c.evict_list ≡ none) where
  pub push_front-IsIndexed : IsIndexed (push_front c e)
  unfolding value_of element_of
  push_front-IsIndexed = record {
    distinct = (v.fresh c.next_element (omega arith), absent, v.distinct);
    fresh = λ i h. ground (arith, v.fresh i);
    indexed = λ k. ground (arith, GoMap.get-put c.entries e.key c.next_element k, v.indexed k);
  }

-- Trimming drops the entry that was used the longest ago.
pub remove_lru_lem :
    (c : BundleCache)
    → IsIndexed c
    → 0 < length c.evict_list
    → IsIndexed (remove_lru c)
      × (contents (remove_lru c) ≡ drop_last (contents c))
      × (length c.evict_list ≡ suc (length (remove_lru c).evict_list))
unfolding remove_element remove_lru
remove_lru_lem c v some_there = elim (Option-cases (back c.evict_list)) [
  | inl e ↦ absurd (omega (arith, some_there, ap length (back-none c.evict_list e)))
  | inr ((el, e), at_back) ↦
      let (valued, rest) = back_lem c.evict_list el e v.distinct at_back in
      let there = value_of-Has c.evict_list el e v.distinct valued in
      rw (at_back, remove_lru)
        (remove_element-IsIndexed c v el e there, rest, length-remove_el c.evict_list el e valued)
]

pub config-remove_lru :
    (c : BundleCache) → ((remove_lru c).max_entries ≡ c.max_entries) × ((remove_lru c).ttl ≡ c.ttl)
unfolding remove_lru remove_element
config-remove_lru c = ground arith

pub remove_key-absent : (k : Text) (l : List BundleEntry) → find k l ≡ none → remove_key k l ≡ l
unfolding find remove_key
remove_key-absent k [] h = refl
remove_key-absent k (e ∷ l) h = ground (arith, remove_key-absent k l)
