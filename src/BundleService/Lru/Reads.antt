-- ===== src/BundleService/Lru/Reads.antt =====
-- cache/bundle.go: what is in the cache after a call, one key at a time.
use kagenti_operator.Prelude.{
  ℕ, ◌+◌, ◌≡◌, ◌≢◌, ◌⊎◌, inl, inr, Text, beq, beq_iff, none, some, Option-cases, List, [], ◌∷◌,
  if◌then◌else◌, arith,
}
use kagenti_operator.BundleService.Lru
use kagenti_operator.BundleService.Lru.{BundleEntry, Elements, BundleCache}
use kagenti_operator.BundleService.Lru.Elements.{
  values, find, remove_key, drop_last, Distinct, element_of-absent,
}
use kagenti_operator.BundleService.Lru.Refinement.{
  IsValid, get, set, invalidate, step, ideal_step, step-Refines,
}
use kagenti_operator.BundleService.Lru.Indexed.{contents}

-- No key stands twice.
abbrev DistinctKeys : List BundleEntry → Type 0
DistinctKeys [] = Unit {0}
DistinctKeys (e ∷ l) = (find e.key l ≡ none) × DistinctKeys l

values-DistinctKeys : (l : Elements) → Distinct l → DistinctKeys (values l)
unfolding values
values-DistinctKeys [] d = tt
values-DistinctKeys ((i, e) ∷ l) d = (element_of-absent l e.key d.1, values-DistinctKeys l d.2)

find-key : (k : Text) (l : List BundleEntry) (e : BundleEntry) → find k l ≡ some e → e.key ≡ k
unfolding find
find-key k [] e h = cc
find-key k (e' ∷ l) e h = ground (arith, find-key k l e, beq_iff e'.key k)

find-remove_key :
    (k j : Text) (l : List BundleEntry)
    → DistinctKeys l
    → find j (remove_key k l) ≡ (if beq k j then none else find j l)
unfolding find remove_key
find-remove_key k j [] d = ground arith
find-remove_key k j (e ∷ l) d =
    ground (arith, find-remove_key k j l d.1, beq_iff e.key k, beq_iff k j, beq_iff e.key j)

find-drop_last :
    (k : Text) (l : List BundleEntry) (e : BundleEntry)
    → find k (drop_last l) ≡ some e
    → find k l ≡ some e
unfolding find drop_last
find-drop_last k [] e h = cc
find-drop_last k (x ∷ []) e h = cc
find-drop_last k (x ∷ y ∷ l) e h = ground (arith, find-drop_last k (y ∷ l) e)

module _ (c : BundleCache) (v : IsValid c) where
  keys : DistinctKeys (contents c)
  keys = values-DistinctKeys c.evict_list v.well.distinct

  pub get_answer :
      (now : ℕ) (key content etag : Text)
      → (Lru.get now c key).1 ≡ some (content, etag)
      → (e : BundleEntry) × (find key (contents c) ≡ some e)
        × (content ≡ e.content)
        × (etag ≡ e.etag)
  unfolding ideal_step step
  get_answer now key content etag h =
      let same = (step-Refines c v (get now key)).4 in
      elim (Option-cases (find key (contents c))) [
        | inl e ↦ absurd (ground arith)
        | inr (e, there) ↦ (e, there, ground arith, ground arith)
      ]

  pub get_keeps :
      (now : ℕ) (key k : Text) (e : BundleEntry)
      → find k (contents (Lru.get now c key).0) ≡ some e
      → find k (contents c) ≡ some e
  unfolding ideal_step find step
  get_keeps now key k e h =
      let same = (step-Refines c v (get now key)).3 in
      let gone = find-remove_key key k (contents c) keys in
      elim (Option-cases (find key (contents c))) [
        | inl none_there ↦ ground arith
        | inr (e', there) ↦
            ground (arith, find-key key (contents c) e' there, beq_iff key k, beq_iff e'.key k)
      ]

  pub set_keeps :
      (now : ℕ) (key content etag k : Text) (e : BundleEntry)
      → find k (contents (Lru.set now c key content etag)) ≡ some e
      → ((k ≡ key) × (e.content ≡ content) × (e.etag ≡ etag)) ⊎ (find k (contents c) ≡ some e)
  unfolding ideal_step find step
  set_keeps now key content etag k e h =
      let same = (step-Refines c v (set now key content etag)).3 in
      let gone = find-remove_key key k (contents c) keys in
      let new : BundleEntry = record {
        key = key;
        content = content;
        etag = etag;
        expires = now + c.ttl;
      } in
      elim (Option-cases (find key (contents c))) [
        | inl none_there ↦
            let there : find k (new ∷ contents c) ≡ some e =
              ground (arith, find-drop_last k (new ∷ contents c) e) in
            ground (arith, beq_iff key k)
        | inr (e', there) ↦ ground (arith, beq_iff key k)
      ]

  pub invalidate_keeps :
      (key k : Text) (e : BundleEntry)
      → find k (contents (Lru.invalidate c key)) ≡ some e
      → (key ≢ k) × (find k (contents c) ≡ some e)
  unfolding ideal_step step
  invalidate_keeps key k e h =
      let same = (step-Refines c v (invalidate key)).3 in
      let gone = find-remove_key key k (contents c) keys in ground (arith, beq_iff key k)
