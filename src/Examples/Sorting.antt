-- ===== src/Examples/Sorting.antt =====
-- A sort of policies by their paths, which stands for Go's `sort.Slice` in runs.
use kagenti_operator.Prelude.{
  ◌≡◌, inl, inr, refl, Bool-cases, true, false, List, [], ◌∷◌, if◌then◌else◌, arith, Text,
}
use kagenti_operator.BundleService.Content.{Policy, text_lt, count}
use kagenti_operator.BundleService.Content.Order.{SamePolicies, AllFrom, IsSortedByPath, Sorts}

unfoldable pub insert : Policy → List Policy → List Policy
unfolding text_lt
insert p [] = p ∷ []
insert p (q ∷ l) = if text_lt q.path p.path then q ∷ insert p l else p ∷ q ∷ l

unfoldable pub insertion_sort : List Policy → List Policy
unfolding insert
insertion_sort [] = []
insertion_sort (p ∷ l) = insert p (insertion_sort l)

count-insert : (x p : Policy) (l : List Policy) → count x (insert p l) ≡ count x (p ∷ l)
unfolding insert
count-insert x p [] = refl
count-insert x p (q ∷ l) = ground (arith, count-insert x p l)

text_lt_asym : (s t : Text) → text_lt s t ≡ true → text_lt t s ≡ false
unfolding text_lt
text_lt_asym [] [] h = cc
text_lt_asym [] (d ∷ t) h = refl
text_lt_asym (c ∷ s) [] h = cc
text_lt_asym (c ∷ s) (d ∷ t) h = ground (arith, text_lt_asym s t)

-- The order is transitive, told by what is not less.
text_le_trans : (s t u : Text) → text_lt t s ≡ false → text_lt u t ≡ false → text_lt u s ≡ false
unfolding text_lt
text_le_trans [] t [] h k = refl
text_le_trans [] t (e ∷ u) h k = refl
text_le_trans (c ∷ s) [] u h k = cc
text_le_trans (c ∷ s) (d ∷ t) [] h k = cc
text_le_trans (c ∷ s) (d ∷ t) (e ∷ u) h k = ground (arith, text_le_trans s t u)

insert-AllFrom :
    (path : Text) (p : Policy) (l : List Policy)
    → text_lt p.path path ≡ false
    → AllFrom path l
    → AllFrom path (insert p l)
unfolding insert
insert-AllFrom path p [] h a = (h, a)
insert-AllFrom path p (q ∷ l) h a = elim (Bool-cases (text_lt q.path p.path)) [
  | inl less ↦ rw less (a.0, insert-AllFrom path p l h a.1)
  | inr other ↦ rw other (h, a)
]

from-AllFrom :
    (path path' : Text) (l : List Policy)
    → text_lt path' path ≡ false
    → AllFrom path' l
    → AllFrom path l
from-AllFrom path path' [] h a = a
from-AllFrom path path' (q ∷ l) h a =
    (text_le_trans path path' q.path h a.0, from-AllFrom path path' l h a.1)

insert-IsSortedByPath :
    (p : Policy) (l : List Policy) → IsSortedByPath l → IsSortedByPath (insert p l)
unfolding insert
insert-IsSortedByPath p [] h = (tt, tt)
insert-IsSortedByPath p (q ∷ l) h = elim (Bool-cases (text_lt q.path p.path)) [
  | inl less ↦ rw less (
    insert-AllFrom q.path p l (text_lt_asym q.path p.path less) h.0,
    insert-IsSortedByPath p l h.1,
  )
  | inr other ↦ rw other ((other, from-AllFrom p.path q.path l other h.0), h)
]

pub insertion_sort-Sorts : Sorts insertion_sort
unfolding insertion_sort
insertion_sort-Sorts = record { same = same; sorted = sorted }
  where
    same : (l : List Policy) → SamePolicies (insertion_sort l) l
    same [] x = refl
    same (p ∷ l) x = omega (arith, count-insert x p (insertion_sort l), same l x)

    sorted : (l : List Policy) → IsSortedByPath (insertion_sort l)
    sorted [] = tt
    sorted (p ∷ l) = insert-IsSortedByPath p (insertion_sort l) (sorted l)
