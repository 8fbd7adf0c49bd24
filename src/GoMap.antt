-- ===== src/GoMap.antt =====
-- Go's maps with string keys: the operations that the program uses, `m[k]`, `m[k] = v`,
-- `delete(m, k)`, `len(m)` and `range m`. A map is the list of its entries in the order in which
-- a range visits them. Go leaves that order open.
use kagenti_operator.Prelude.{
  suc, ◌≡◌, Bool, false, Text, beq, beq_iff, if◌then◌else◌, Option, none, some, List, [], ◌∷◌,
  arith, is_some, length, ◌<◌, refl,
}

abbrev pub GoMap {ℓ} : Type ℓ → Type ℓ
GoMap V = List (Text × V)

module _ {ℓ} {V : Type ℓ} where
  -- v, ok := m[k]
  unfoldable pub get : GoMap V → Text → Option V
  get [] k = none
  get ((j, v) ∷ m) k = if beq j k then some v else get m k

  -- m[k] = v
  unfoldable pub put : GoMap V → Text → V → GoMap V
  put [] k v = (k, v) ∷ []
  put ((j, w) ∷ m) k v = if beq j k then (k, v) ∷ m else (j, w) ∷ put m k v

  -- delete(m, k)
  unfoldable pub remove : GoMap V → Text → GoMap V
  remove [] k = []
  remove ((j, v) ∷ m) k = let rest = remove m k in if beq j k then rest else (j, v) ∷ rest

  abbrev pub has : GoMap V → Text → Bool
  has m k = is_some (get m k)

  pub get-put :
      (m : GoMap V) (k : Text) (v : V) (j : Text)
      → get (put m k v) j ≡ (if beq k j then some v else get m j)
  unfolding get put
  get-put [] k v j = ground arith
  get-put ((i, w) ∷ m) k v j =
      ground (arith, beq_iff k j, beq_iff i k, beq_iff i j, get-put m k v j)

  pub get-remove :
      (m : GoMap V) (k j : Text) → get (remove m k) j ≡ (if beq k j then none else get m j)
  unfolding get remove
  get-remove [] k j = ground arith
  get-remove ((i, w) ∷ m) k j =
      ground (arith, beq_iff k j, beq_iff i k, beq_iff i j, get-remove m k j)

  pub length-put :
      (m : GoMap V) (k : Text) (v : V)
      → length (put m k v) ≡ (if has m k then length m else suc (length m))
  unfolding get put
  length-put [] k v = ground arith
  length-put ((i, w) ∷ m) k v = ground (arith, length-put m k v)

  pub length-pos : (m : GoMap V) (k : Text) (v : V) → 0 < length (put m k v)
  unfolding put
  length-pos [] k v = omega arith
  length-pos ((i, w) ∷ m) k v = ground arith

  -- No key stands twice.
  abbrev pub IsMap : GoMap V → Type 0
  IsMap [] = Unit {0}
  IsMap ((k, v) ∷ m) = (has m k ≡ false) × IsMap m

  pub put-IsMap : (m : GoMap V) (k : Text) (v : V) → IsMap m → IsMap (put m k v)
  unfolding put get
  put-IsMap [] k v h = ground arith
  put-IsMap ((i, w) ∷ m) k v h =
      ground (arith, beq_iff i k, beq_iff k i, get-put m k v i, put-IsMap m k v h.1)

  pub remove-IsMap : (m : GoMap V) (k : Text) → IsMap m → IsMap (remove m k)
  unfolding remove get
  remove-IsMap [] k h = tt
  remove-IsMap ((i, w) ∷ m) k h = ground (arith, get-remove m k i, remove-IsMap m k h.1)

module _ {ℓ} {V : Type ℓ} where
  remove-absent : (m : GoMap V) (k : Text) → has m k ≡ false → remove m k ≡ m
  unfolding get remove
  remove-absent [] k h = refl
  remove-absent ((i, w) ∷ m) k h = ground (arith, remove-absent m k)

  pub length-remove :
      (m : GoMap V) (k : Text) (v : V)
      → IsMap m
      → get m k ≡ some v
      → length m ≡ suc (length (remove m k))
  unfolding get remove
  length-remove [] k v h e = cc
  length-remove ((i, w) ∷ m) k v h e =
      ground (arith, beq_iff i k, length-remove m k v h.1, remove-absent m k)

pub ruleset map_laws = (get-put, get-remove)
