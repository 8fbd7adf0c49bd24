-- ===== src/BundleService/Lru/Refinement.antt =====
-- cache/bundle.go against a list of entries in order of use, which has neither elements nor an index.
use kagenti_operator.Prelude.{
  ℕ, suc, ◌+◌, ◌≤◌, ◌<◌, ◌≡◌, inl, inr, refl, sym, ◌∙◌, ap, Text, Option, none, some, Bool-cases,
  List, [], ◌∷◌, ltb, length, if◌then◌else◌, arith,
}
use kagenti_operator.GoMap
use kagenti_operator.BundleService.Lru
use kagenti_operator.BundleService.Lru.{
  BundleEntry, Elements, BundleCache, value_of, remove_el, back, remove_element, find_element,
  new_bundle_cache, remove_lru, size, move_to_front, push_front,
}
use kagenti_operator.BundleService.Lru.Elements.{
  values, find, remove_key, drop_last, element_of, length-values,
}
use kagenti_operator.BundleService.Lru.Indexed.{
  IsIndexed, contents, found_cases, length-remove_el, remove_element-IsIndexed,
  contents-remove_element, move_to_front-IsIndexed, contents-move_to_front, push_front-IsIndexed,
  remove_lru_lem, config-remove_lru, remove_key-absent,
}

pub record IsValid (c : BundleCache) : Type 0 where
  pub well : IsIndexed c
  pub positive : 0 < c.max_entries
  pub bounded : length c.evict_list ≤ c.max_entries

-- The calls of the cache, each with the clock where it reads it.
pub data Op : Type 0 where
  get : (now : ℕ) (key : Text) → Op
  set : (now : ℕ) (key content etag : Text) → Op
  invalidate : (key : Text) → Op
  invalidate_all : Op

-- What a call returns: only `get` returns something.
abbrev pub Answer : Type 0
Answer = Option (Text × Text)

unfoldable pub step : BundleCache → Op → BundleCache × Answer
step c (get now key) = Lru.get now c key
step c (set now key content etag) = (Lru.set now c key content etag, none)
step c (invalidate key) = (Lru.invalidate c key, none)
step c invalidate_all = (Lru.invalidate_all c, none)

-- The same calls on the list, the most recently used entry first.
module _ (max_entries ttl : ℕ) where
  abbrev get_found : ℕ → Text → List BundleEntry → Option BundleEntry → List BundleEntry × Answer
  get_found now key l none = (l, none)
  get_found now key l (some e) =
      if ltb e.expires now
      then (remove_key key l, none)
      else (e ∷ remove_key key l, some (e.content, e.etag))

  abbrev trimmed : List BundleEntry → List BundleEntry
  trimmed l = if ltb max_entries (length l) then drop_last l else l

  abbrev set_found : BundleEntry → List BundleEntry → Option BundleEntry → List BundleEntry
  set_found new l none = trimmed (new ∷ l)
  set_found new l (some e) = new ∷ remove_key new.key l

  unfoldable pub ideal_step : List BundleEntry → Op → List BundleEntry × Answer
  ideal_step l (get now key) = get_found now key l (find key l)
  ideal_step l (set now key content etag) = (
    set_found (record { key = key; content = content; etag = etag; expires = now + ttl }) l
        (find key l),
    none,
  )
  ideal_step l (invalidate key) = (remove_key key l, none)
  ideal_step l invalidate_all = ([], none)

-- One call: the cache answers as the list does, and goes on holding what the list holds.
module _ (c : BundleCache) (v : IsValid c) where
  abbrev Refines : Op → BundleCache × Answer → Type 0
  Refines op out =
      IsValid out.0
      × (out.0.max_entries ≡ c.max_entries)
      × (out.0.ttl ≡ c.ttl)
      × (contents out.0 ≡ (ideal_step c.max_entries c.ttl (contents c) op).0)
      × (out.1 ≡ (ideal_step c.max_entries c.ttl (contents c) op).1)

  get-Refines : (now : ℕ) (key : Text) → Refines (get now key) (Lru.get now c key)
  unfolding ideal_step Lru.get
  get-Refines now key = elim (found_cases c v.well key) [
    | inl (missing, lost, e) ↦ rw (missing, Lru.get, lost) (v, refl, refl, refl, refl)
    | inr (el, e, found, same, there) ↦
        let seen : find key (contents c) ≡ some e = ground (arith, there.found) in
        elim (Bool-cases (ltb e.expires now)) [
          | inl old ↦
              rw (found, Lru.get, seen, old)
                (
                  record {
                    well = remove_element-IsIndexed c v.well el e there;
                    positive = v.positive;
                    bounded =
                        omega (arith, v.bounded, length-remove_el c.evict_list el e there.valued);
                  },
                  refl,
                  refl,
                  contents-remove_element c v.well el e there
                      ∙ ap (λ (k : Text). remove_key k (contents c)) same,
                  refl,
                )
          | inr young ↦
              rw (found, Lru.get, seen, young)
                (
                  record {
                    well = move_to_front-IsIndexed c v.well el e there e refl;
                    positive = v.positive;
                    bounded =
                        omega (arith, v.bounded, length-remove_el c.evict_list el e there.valued);
                  },
                  refl,
                  refl,
                  contents-move_to_front c v.well el e there e
                      ∙ ap (λ (k : Text). e ∷ remove_key k (contents c)) same,
                  refl,
                )
        ]
  ]

  set-Refines :
      (now : ℕ) (key content etag : Text)
      → Refines (set now key content etag) (Lru.set now c key content etag, none)
  unfolding ideal_step Lru.set values
  set-Refines now key content etag = elim (found_cases c v.well key) [
    | inl (missing, lost, absent) ↦
        let new : BundleEntry = record {
          key = key;
          content = content;
          etag = etag;
          expires = now + c.ttl;
        } in
        let pushed = push_front-IsIndexed c v.well new absent in
        elim (Bool-cases (ltb c.max_entries (suc (length c.evict_list)))) [
          | inl full ↦
              let fixed = config-remove_lru (push_front c new) in
              let (well, rest, shorter) = remove_lru_lem (push_front c new) pushed (omega arith) in
              rw (missing, Lru.set, lost)
                (rw (length-values c.evict_list) (
                  rw full (
                    record {
                      well = well;
                      positive = omega (arith, v.positive, fixed.0);
                      bounded = omega (arith, v.bounded, shorter, fixed.0);
                    },
                    fixed.0,
                    fixed.1,
                    rest,
                    refl,
                  )))
          | inr room ↦
              rw (missing, Lru.set, lost)
                (rw (length-values c.evict_list) (
                  rw room (
                    record { well = pushed; positive = v.positive; bounded = ground arith },
                    refl,
                    refl,
                    refl,
                    refl,
                  )))
        ]
    | inr (el, e, found, same, there) ↦
        let seen : find key (contents c) ≡ some e = ground (arith, there.found) in
        let new : BundleEntry = record {
          key = key;
          content = content;
          etag = etag;
          expires = now + c.ttl;
        } in
        rw (found, Lru.set, seen)
          (
            record {
              well = move_to_front-IsIndexed c v.well el e there (record new { key = e.key }) refl;
              positive = v.positive;
              bounded = omega (arith, v.bounded, length-remove_el c.evict_list el e there.valued);
            },
            refl,
            refl,
            contents-move_to_front c v.well el e there (record new { key = e.key })
                ∙ ap (λ (k : Text). record new { key = k } ∷ remove_key k (contents c)) same,
            refl,
          )
  ]

  invalidate-Refines : (key : Text) → Refines (invalidate key) (Lru.invalidate c key, none)
  unfolding ideal_step Lru.invalidate
  invalidate-Refines key = elim (found_cases c v.well key) [
    | inl (missing, lost, absent) ↦
        rw (missing, Lru.invalidate)
          (v, refl, refl, sym (remove_key-absent key (contents c) lost), refl)
    | inr (el, e, found, same, there) ↦
        rw (found, Lru.invalidate)
          (
            record {
              well = remove_element-IsIndexed c v.well el e there;
              positive = v.positive;
              bounded = omega (arith, v.bounded, length-remove_el c.evict_list el e there.valued);
            },
            refl,
            refl,
            contents-remove_element c v.well el e there
                ∙ ap (λ (k : Text). remove_key k (contents c)) same,
            refl,
          )
  ]

  pub step-Refines : (op : Op) → Refines op (step c op)
  unfolding step
  step-Refines (get now key) = get-Refines now key
  step-Refines (set now key content etag) = set-Refines now key content etag
  step-Refines (invalidate key) = invalidate-Refines key
  step-Refines invalidate_all =
      unfold ideal_step Lru.invalidate_all GoMap.get value_of element_of values in
      (
        record {
          well = record { distinct = tt; fresh = λ i h. refl; indexed = λ k. refl };
          positive = v.positive;
          bounded = omega arith;
        },
        refl,
        refl,
        refl,
        refl,
      )

-- The answers of a sequence of calls, and what is left.
unfoldable pub run : BundleCache → List Op → BundleCache × List Answer
run c [] = (c, [])
run c (op ∷ ops) =
    let (c', answer) = step c op in let (last, answers) = run c' ops in (last, answer ∷ answers)

unfoldable pub ideal_run : ℕ → ℕ → List BundleEntry → List Op → List BundleEntry × List Answer
ideal_run max_entries ttl l [] = (l, [])
ideal_run max_entries ttl l (op ∷ ops) =
    let (l', answer) = ideal_step max_entries ttl l op in
    let (last, answers) = ideal_run max_entries ttl l' ops in (last, answer ∷ answers)

pub run-Refines :
    (c : BundleCache) (ops : List Op)
    → IsValid c
    → IsValid (run c ops).0
      × (contents (run c ops).0 ≡ (ideal_run c.max_entries c.ttl (contents c) ops).0)
      × ((run c ops).1 ≡ (ideal_run c.max_entries c.ttl (contents c) ops).1)
unfolding run ideal_run
run-Refines c [] v = (v, refl, refl)
run-Refines c (op ∷ ops) v =
    let (valid, same_max, same_ttl, same, answer) = step-Refines c v op in
    let (rest, held, answers) = run-Refines (step c op).0 ops valid in
    let ideal = ideal_step c.max_entries c.ttl (contents c) op in
    let held' : contents (run (step c op).0 ops).0 ≡ (ideal_run c.max_entries c.ttl ideal.0 ops).0 =
      rw (same_max, same_ttl, same) at held in
    let answers' : (run (step c op).0 ops).1 ≡ (ideal_run c.max_entries c.ttl ideal.0 ops).1 =
      rw (same_max, same_ttl, same) at answers in
    (rest, held', rw (answer, answers') refl)

pub new-IsValid : (max_entries ttl : ℕ) → IsValid (new_bundle_cache max_entries ttl)
unfolding new_bundle_cache GoMap.get value_of element_of
new-IsValid max_entries ttl = record {
  well = record { distinct = tt; fresh = λ i h. refl; indexed = λ k. refl };
  positive = ground arith;
  bounded = omega arith;
}

-- Any sequence of calls of a new cache answers as the same calls of a list of entries in order of use
-- do, which drops its last entry where it grows longer than the limit; the cache then holds the entries
-- of that list in that order, and no more than the limit.
pub cache_refines :
    (max_entries ttl : ℕ) (ops : List Op)
    → let c = new_bundle_cache max_entries ttl in
      ((run c ops).1 ≡ (ideal_run c.max_entries c.ttl [] ops).1)
      × (contents (run c ops).0 ≡ (ideal_run c.max_entries c.ttl [] ops).0)
      × (length (run c ops).0.evict_list ≤ (run c ops).0.max_entries)
cache_refines max_entries ttl ops =
    let c = new_bundle_cache max_entries ttl in
    let (valid, held, answers) = run-Refines c ops (new-IsValid max_entries ttl) in
    let none_there : contents c ≡ [] = unfold new_bundle_cache values in refl in
    (rw none_there at answers, rw none_there at held, valid.bounded)
