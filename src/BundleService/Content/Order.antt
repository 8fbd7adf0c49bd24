-- ===== src/BundleService/Content/Order.antt =====
-- The hash of a set of policies (bundle/hash.go): the order in which they come, and what it tells apart.
use kagenti_operator.Prelude.{
  ◌<◌, ◌≡◌, ◌≢◌, ◌↔◌, inl, inr, refl, sym, ap, ◌∙◌, true, false, Text, lit, beq_iff, Bool-cases,
  List, [], ◌∷◌, ◌++◌, arith,
}
use kagenti_operator.BundleService.SpiffeId.{lacks, cut-append}
use kagenti_operator.BundleService.Content.{
  Policy, text_lt, hash_input, content_hash, same_policy, count,
}

-- Two lists have the same policies, each as often.
abbrev pub SamePolicies : List Policy → List Policy → Type 0
SamePolicies xs ys = (p : Policy) → count p xs ≡ count p ys

-- A path has one content.
abbrev pub HasOneContent : List Policy → Type 0
HasOneContent l = (p q : Policy) → 0 < count p l → 0 < count q l → p.path ≡ q.path → p ≡ q

-- No policy stands behind one with a greater path.
abbrev pub AllFrom : Text → List Policy → Type 0
AllFrom path [] = Unit {0}
AllFrom path (q ∷ l) = (text_lt q.path path ≡ false) × AllFrom path l

abbrev pub IsSortedByPath : List Policy → Type 0
IsSortedByPath [] = Unit {0}
IsSortedByPath (p ∷ l) = AllFrom p.path l × IsSortedByPath l

-- What `sort.Slice` documents.
pub record Sorts (sort : List Policy → List Policy) : Type 0 where
  pub same : (l : List Policy) → SamePolicies (sort l) l
  pub sorted : (l : List Policy) → IsSortedByPath (sort l)

text_lt_antisym : (s t : Text) → text_lt s t ≡ false → text_lt t s ≡ false → s ≡ t
unfolding text_lt
text_lt_antisym [] [] h k = refl
text_lt_antisym [] (d ∷ t) h k = cc
text_lt_antisym (c ∷ s) [] h k = cc
text_lt_antisym (c ∷ s) (d ∷ t) h k = ground (arith, text_lt_antisym s t)

text_lt_irrefl : (s : Text) → text_lt s s ≡ false
unfolding text_lt
text_lt_irrefl [] = refl
text_lt_irrefl (c ∷ s) = ground (arith, text_lt_irrefl s)

pub same_policy_iff : (p q : Policy) → (same_policy p q ≡ true) ↔ (p ≡ q)
same_policy_iff p q = ground (arith, beq_iff p.path q.path, beq_iff p.content q.content)

-- The least of a sorted list comes first.
first-least :
    (p : Policy) (q : Policy) (l : List Policy)
    → IsSortedByPath (q ∷ l)
    → 0 < count p (q ∷ l)
    → text_lt p.path q.path ≡ false
first-least p q l s h = elim (Bool-cases (same_policy p q)) [
  | inl same ↦ rw ((same_policy_iff p q).0 same) (text_lt_irrefl q.path)
  | inr other ↦ from l s.0 (omega (arith, rw other at h))
]
  where
    from : (l : List Policy) → AllFrom q.path l → 0 < count p l → text_lt p.path q.path ≡ false
    from [] a h = absurd (omega arith)
    from (r ∷ l) a h = elim (Bool-cases (same_policy p r)) [
      | inl same ↦ rw ((same_policy_iff p r).0 same) a.0
      | inr other ↦ from l a.1 (omega (arith, rw other at h))
    ]

tail-HasOneContent : (q : Policy) (l : List Policy) → HasOneContent (q ∷ l) → HasOneContent l
tail-HasOneContent q l d p p' h h' = d p p' (omega arith) (omega arith)

count_self : (p : Policy) (l : List Policy) → 0 < count p (p ∷ l)
count_self p l = rw ((same_policy_iff p p).1 refl) (omega arith)

-- A set of policies in which a path has one content has one sorted list.
sorted_unique :
    (xs ys : List Policy)
    → IsSortedByPath xs
    → IsSortedByPath ys
    → HasOneContent ys
    → SamePolicies xs ys
    → xs ≡ ys
sorted_unique [] [] s t d h = refl
sorted_unique [] (y ∷ ys) s t d h = absurd (omega (arith, h y, count_self y ys))
sorted_unique (x ∷ xs) [] s t d h = absurd (omega (arith, h x, count_self x xs))
sorted_unique (x ∷ xs) (y ∷ ys) s t d h =
    let x_there : 0 < count x (y ∷ ys) = omega (arith, h x, count_self x xs) in
    let y_there : 0 < count y (x ∷ xs) = omega (arith, h y, count_self y ys) in
    let paths : x.path ≡ y.path =
      text_lt_antisym x.path y.path (first-least x y ys t x_there) (first-least y x xs s y_there) in
    let same : x ≡ y = d x y x_there (count_self y ys) paths in
    rw same (
      ap (λ (l : List Policy). y ∷ l)
        (sorted_unique xs ys s.1 t.1 (tail-HasOneContent y ys d)
          (λ p. omega (arith, rw same at (h p)))))

SamePolicies-sort :
    (sort : List Policy → List Policy) (xs ys : List Policy)
    → Sorts sort
    → SamePolicies xs ys
    → SamePolicies (sort xs) (sort ys)
SamePolicies-sort sort xs ys s h p = s.same xs p ∙ h p ∙ sym (s.same ys p)

-- If a path has one content, the hash of the policies does not depend on their order.
pub content_hash-reorder :
    (sort : List Policy → List Policy) (digest_hex : Text → Text) (xs ys : List Policy)
    → Sorts sort
    → HasOneContent ys
    → SamePolicies xs ys
    → content_hash sort digest_hex xs ≡ content_hash sort digest_hex ys
unfolding content_hash
content_hash-reorder sort digest_hex [] [] s d h = refl
content_hash-reorder sort digest_hex [] (y ∷ ys) s d h =
    absurd (omega (arith, h y, count_self y ys))
content_hash-reorder sort digest_hex (x ∷ xs) [] s d h =
    absurd (omega (arith, h x, count_self x xs))
content_hash-reorder sort digest_hex (x ∷ xs) (y ∷ ys) s d h =
    let same_order : sort (x ∷ xs) ≡ sort (y ∷ ys) =
      sorted_unique (sort (x ∷ xs)) (sort (y ∷ ys)) (s.sorted (x ∷ xs)) (s.sorted (y ∷ ys))
        (λ p q hp hq. d p q (rw (← s.same (y ∷ ys) p) hp) (rw (← s.same (y ∷ ys) q) hq))
        (SamePolicies-sort sort (x ∷ xs) (y ∷ ys) s h) in
    ap (λ (l : List Policy). lit "sha256:" ++ digest_hex (hash_input l)) same_order

-- No path and no content has a NUL.
abbrev pub AllPlain : List Policy → Type 0
AllPlain [] = Unit {0}
AllPlain (p ∷ l) = (lacks 0 p.path ≡ true) × (lacks 0 p.content ≡ true) × AllPlain l

text_end : (s t : Text) → [] ≢ s ++ 0 ∷ t
text_end [] t h = cc
text_end (c ∷ s) t h = cc

-- Without a NUL in them, lists of policies that are hashed as one text are the same list.
pub hash_input-inj :
    (xs ys : List Policy) → AllPlain xs → AllPlain ys → hash_input xs ≡ hash_input ys → xs ≡ ys
unfolding hash_input
hash_input-inj [] [] a b h = refl
hash_input-inj [] (y ∷ ys) a b h = absurd (text_end y.path _ h)
hash_input-inj (x ∷ xs) [] a b h = absurd (text_end x.path _ (sym h))
hash_input-inj (x ∷ xs) (y ∷ ys) a b h =
    let paths = cut-append 0 x.path (x.content ++ 0 ∷ hash_input xs) a.0 in
    let paths' = cut-append 0 y.path (y.content ++ 0 ∷ hash_input ys) b.0 in
    let contents = cut-append 0 x.content (hash_input xs) a.1 in
    let contents' = cut-append 0 y.content (hash_input ys) b.1 in
    let same_path : x.path ≡ y.path = cc (h, paths, paths') in
    let behind : x.content ++ 0 ∷ hash_input xs ≡ y.content ++ 0 ∷ hash_input ys =
      cc (h, paths, paths') in
    let same_content : x.content ≡ y.content = cc (behind, contents, contents') in
    let rest : hash_input xs ≡ hash_input ys = cc (behind, contents, contents') in
    let same : x ≡ y = cc (same_path, same_content) in
    rw (same, hash_input-inj xs ys a.2 b.2 rest) refl
