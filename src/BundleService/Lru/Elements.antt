-- ===== src/BundleService/Lru/Elements.antt =====
-- The elements of the list of cache/bundle.go, against the list of their values in order of use.
use kagenti_operator.Prelude.{
  ℕ, suc, ◌≡◌, inl, inr, refl, ap, false, Text, beq, beq_iff, Option, none, some, Option-cases,
  Bool-cases, List, [], ◌∷◌, ◌==◌, length, if◌then◌else◌, arith,
}
use kagenti_operator.BundleService.Lru.{BundleEntry, Elements, value_of, remove_el, back}

-- The values, the most recently used first.
unfoldable pub values : Elements → List BundleEntry
values [] = []
values ((i, e) ∷ l) = e ∷ values l

unfoldable pub find : Text → List BundleEntry → Option BundleEntry
find k [] = none
find k (e ∷ l) = if beq e.key k then some e else find k l

unfoldable pub remove_key : Text → List BundleEntry → List BundleEntry
remove_key k [] = []
remove_key k (e ∷ l) = if beq e.key k then l else e ∷ remove_key k l

unfoldable pub drop_last : List BundleEntry → List BundleEntry
drop_last [] = []
drop_last (e ∷ []) = []
drop_last (e ∷ e' ∷ l) = e ∷ drop_last (e' ∷ l)

-- The element whose value has the key.
unfoldable pub element_of : Text → Elements → Option ℕ
element_of k [] = none
element_of k ((i, e) ∷ l) = if beq e.key k then some i else element_of k l

-- No element and no key stands twice.
abbrev pub Distinct : Elements → Type 0
Distinct [] = Unit {0}
Distinct ((i, e) ∷ l) = (value_of i l ≡ none) × (element_of e.key l ≡ none) × Distinct l

pub length-values : (l : Elements) → length (values l) ≡ length l
unfolding values
length-values [] = refl
length-values ((i, e) ∷ l) = ap suc (length-values l)

-- What the list knows of an element that it has.
pub record Has (l : Elements) (el : ℕ) (e : BundleEntry) : Type 0 where
  pub valued : value_of el l ≡ some e
  pub keyed : element_of e.key l ≡ some el
  pub found : find e.key (values l) ≡ some e

value_of-key :
    (l : Elements) (el : ℕ) (e : BundleEntry)
    → value_of el l ≡ some e
    → (i : ℕ) × (element_of e.key l ≡ some i)
unfolding value_of element_of
value_of-key [] el e h = cc
value_of-key ((i, e') ∷ l) el e h = elim (Bool-cases (i == el)) [
  | inl same ↦ (i, ground (arith, beq_iff e'.key e.key))
  | inr other ↦
      let (j, at_j) = value_of-key l el e (ground arith) in
      elim (Bool-cases (beq e'.key e.key)) [ inl eq ↦ (i, rw eq refl) | inr ne ↦ (j, rw ne at_j) ]
]

pub value_of-Has :
    (l : Elements) (el : ℕ) (e : BundleEntry) → Distinct l → value_of el l ≡ some e → Has l el e
unfolding value_of element_of values find
value_of-Has [] el e d h = cc
value_of-Has ((i, e') ∷ l) el e d h = elim (Bool-cases (i == el)) [
  | inl same ↦ record {
    valued = h;
    keyed = ground (arith, beq_iff e'.key e.key);
    found = ground (arith, beq_iff e'.key e.key);
  }
  | inr other ↦
      let rest = value_of-Has l el e d.2 (ground arith) in
      let apart : beq e'.key e.key ≡ false = ground (arith, beq_iff e'.key e.key, rest.keyed) in
      record { valued = h; keyed = rw apart rest.keyed; found = rw apart rest.found }
]

pub element_of-Has :
    (l : Elements) (k : Text) (el : ℕ)
    → Distinct l
    → element_of k l ≡ some el
    → (e : BundleEntry) × (e.key ≡ k) × Has l el e
unfolding value_of element_of values find
element_of-Has [] k el d h = cc
element_of-Has ((i, e') ∷ l) k el d h = elim (Bool-cases (beq e'.key k)) [
  | inl same ↦ (e', (beq_iff e'.key k).0 same, value_of-Has ((i, e') ∷ l) el e' d (ground arith))
  | inr other ↦
      let (e, key, rest) = element_of-Has l k el d.2 (ground arith) in
      (e, key, value_of-Has ((i, e') ∷ l) el e d (ground (arith, rest.valued)))
]

pub element_of-absent : (l : Elements) (k : Text) → element_of k l ≡ none → find k (values l) ≡ none
unfolding element_of values find
element_of-absent [] k h = refl
element_of-absent ((i, e) ∷ l) k h = ground (arith, element_of-absent l k)

-- What is left of a list without one of its elements.
pub values-remove_el :
    (l : Elements) (el : ℕ) (e : BundleEntry)
    → Distinct l
    → value_of el l ≡ some e
    → values (remove_el el l) ≡ remove_key e.key (values l)
unfolding value_of remove_el values remove_key
values-remove_el [] el e d h = cc
values-remove_el ((i, e') ∷ l) el e d h = elim (Bool-cases (i == el)) [
  | inl same ↦ ground (arith, beq_iff e'.key e.key)
  | inr other ↦
      let rest = values-remove_el l el e d.2 (ground arith) in
      let there = value_of-Has l el e d.2 (ground arith) in
      ground (arith, beq_iff e'.key e.key, there.keyed)
]

pub value_of-remove_el :
    (l : Elements) (el j : ℕ)
    → Distinct l
    → value_of j (remove_el el l) ≡ (if el == j then none else value_of j l)
unfolding value_of remove_el
value_of-remove_el [] el j d = ground arith
value_of-remove_el ((i, e) ∷ l) el j d = ground (arith, value_of-remove_el l el j d.2)

pub element_of-remove_el :
    (l : Elements) (el : ℕ) (e : BundleEntry) (k : Text)
    → Distinct l
    → value_of el l ≡ some e
    → element_of k (remove_el el l) ≡ (if beq e.key k then none else element_of k l)
unfolding value_of remove_el element_of
element_of-remove_el [] el e k d h = cc
element_of-remove_el ((i, e') ∷ l) el e k d h = elim (Bool-cases (i == el)) [
  | inl same ↦ ground (arith, beq_iff e'.key k, beq_iff e.key k)
  | inr other ↦
      let there = value_of-Has l el e d.2 (ground arith) in
      ground
        (arith, element_of-remove_el l el e k d.2, beq_iff e'.key k, beq_iff e.key k, there.keyed)
]

remove_el-absent : (l : Elements) (el : ℕ) → value_of el l ≡ none → remove_el el l ≡ l
unfolding value_of remove_el
remove_el-absent [] el h = refl
remove_el-absent ((i, e) ∷ l) el h = ground (arith, remove_el-absent l el)

pub remove_el-Distinct : (l : Elements) (el : ℕ) → Distinct l → Distinct (remove_el el l)
unfolding value_of remove_el element_of
remove_el-Distinct [] el d = tt
remove_el-Distinct ((i, e) ∷ l) el d = elim (Bool-cases (i == el)) [
  | inl same ↦ rw same d.2
  | inr other ↦ rw other (
    ground (arith, value_of-remove_el l el i d.2),
    elim (Option-cases (value_of el l)) [
      | inl absent ↦ rw (remove_el-absent l el absent) d.1
      | inr (e', there) ↦ ground (arith, element_of-remove_el l el e' e.key d.2)
    ],
    remove_el-Distinct l el d.2,
  )
]

pub back_lem :
    (l : Elements) (el : ℕ) (e : BundleEntry)
    → Distinct l
    → back l ≡ some (el, e)
    → (value_of el l ≡ some e) × (values (remove_el el l) ≡ drop_last (values l))
unfolding value_of remove_el back values drop_last
back_lem [] el e d h = cc
back_lem ((i, e') ∷ []) el e d h = ground arith
back_lem ((i, e') ∷ (j, e'') ∷ l) el e d h =
    let (valued, rest) = back_lem ((j, e'') ∷ l) el e d.2 h in
    let apart : (i == el) ≡ false = ground arith in
    (rw apart valued, rw apart (ap (λ (t : List BundleEntry). e' ∷ t) rest))

pub back-none : (l : Elements) → back l ≡ none → l ≡ []
unfolding back
back-none [] h = refl
back-none (x ∷ []) h = cc
back-none (x ∷ y ∷ l) h = absurd (ground (arith, back-none (y ∷ l) h))
