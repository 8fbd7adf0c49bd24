-- ===== src/BundleService/SpiffeId.antt =====
-- operator/internal/bundleservice/spiffeid/spiffeid.go and identity/identity.go: who asks for a bundle.
use kagenti_operator.Prelude.{
  ℕ, ◌≡◌, ◌≢◌, ◌↔◌, ◌⊎◌, inl, inr, refl, ap, ◌∙◌, Bool, true, false, ◌&&◌, ◌||◌, Text, lit,
  is_empty, beq, beq_iff, Option, none, some, Option-cases, Bool-cases, List, [], ◌∷◌, ◌++◌, ◌==◌,
  if◌then◌else◌, arith,
}
use kagenti_operator.Strings.{split}

pub record Identity : Type 0 where
  pub trust_domain : Text
  pub namespace : Text
  pub name : Text

-- The texts in front of and behind the first `/`; `none` where there is none.
unfoldable pub cut : ℕ → Text → Option (Text × Text)
cut sep [] = none
cut sep (c ∷ s) =
    let rest = cut sep s in
    if c == sep
    then some ([], s)
    else elim rest [ none ↦ none | some (before, behind) ↦ some (c ∷ before, behind) ]

-- The four parts of the path.
abbrev of_parts : Text → List Text → Option Identity
of_parts trust_domain (ns_word ∷ ns ∷ sa_word ∷ name ∷ []) =
    if beq ns_word (lit "ns") && beq sa_word (lit "sa")
    then (if is_empty ns || is_empty name
        then none
        else some (record { trust_domain = trust_domain; namespace = ns; name = name }))
    else none
of_parts trust_domain _ = none

-- Parse; `none` is an error.
unfoldable pub parse : Text → Option Identity
parse raw = elim (cut b'/' raw) [
  | none ↦ none
  | some (trust_domain, path) ↦
      if is_empty trust_domain then none else of_parts trust_domain (split b'/' path)
]

pub record ClientIdentity : Type 0 where
  pub namespace : Text
  pub name : Text

unfoldable pub cache_key : ClientIdentity → Text
cache_key c = c.namespace ++ b'/' ∷ c.name

-- FromRequest, of the query parameter `spiffe`, which is empty where it is missing
unfoldable pub from_request : (spiffe : Text) → Option ClientIdentity
unfolding parse
from_request spiffe = if is_empty spiffe then none else elim (parse spiffe) [
  | none ↦ none
  | some id ↦ some (record { namespace = id.namespace; name = id.name })
]

-- A text without the byte.
unfoldable pub lacks : ℕ → Text → Bool
lacks sep [] = true
lacks sep (c ∷ s) = if c == sep then false else lacks sep s

-- The URI path of an identity.
abbrev pub path_of : Identity → Text
path_of id = lit "ns/" ++ (id.namespace ++ (lit "/sa/" ++ id.name))

pub cut-append : (sep : ℕ) (a b : Text) → lacks sep a ≡ true → cut sep (a ++ sep ∷ b) ≡ some (a, b)
unfolding cut lacks
cut-append sep [] b h = ground arith
cut-append sep (c ∷ a) b h = ground (arith, cut-append sep a b)

cut_inv :
    (sep : ℕ) (s a b : Text) → cut sep s ≡ some (a, b) → (s ≡ a ++ sep ∷ b) × (lacks sep a ≡ true)
unfolding cut lacks
cut_inv sep [] a b h = absurd (ground arith)
cut_inv sep (c ∷ s) a b h = elim (Bool-cases (c == sep)) [
  | inl same ↦ ground arith
  | inr other ↦ elim (Option-cases (cut sep s)) [
    | inl e ↦ absurd (ground arith)
    | inr ((x, y), e) ↦ ground (arith, cut_inv sep s x y e)
  ]
]

split-lacks : (sep : ℕ) (s : Text) → lacks sep s ≡ true → split sep s ≡ s ∷ []
unfolding split lacks
split-lacks sep [] h = refl
split-lacks sep (c ∷ s) h = ground (arith, split-lacks sep s)

split-append :
    (sep : ℕ) (a b : Text) → lacks sep a ≡ true → split sep (a ++ sep ∷ b) ≡ a ∷ split sep b
unfolding split lacks
split-append sep [] b h = ground arith
split-append sep (c ∷ a) b h = ground (arith, split-append sep a b)

-- An identity of which no part is empty, and whose parts have no `/`.
pub record IsWellFormed (id : Identity) : Type 0 where
  pub trust_domain_given : is_empty id.trust_domain ≡ false
  pub namespace_given : is_empty id.namespace ≡ false
  pub name_given : is_empty id.name ≡ false
  pub trust_domain_plain : lacks b'/' id.trust_domain ≡ true
  pub namespace_plain : lacks b'/' id.namespace ≡ true
  pub name_plain : lacks b'/' id.name ≡ true

List-cases {ℓ} : {A : Type ℓ} (l : List A) → (l ≡ []) ⊎ ((x : A) × (xs : List A) × (l ≡ x ∷ xs))
List-cases [] = inl refl
List-cases (x ∷ xs) = inr (x, xs, refl)

split_one : (sep : ℕ) (s p : Text) → split sep s ≡ p ∷ [] → (s ≡ p) × (lacks sep p ≡ true)
unfolding split lacks
split_one sep [] p h = ground arith
split_one sep (c ∷ s) p h = elim (Bool-cases (c == sep)) [
  | inl same ↦ elim (List-cases (split sep s)) [
    | inl e ↦ absurd (split-nonempty sep s e)
    | inr (x, xs, e) ↦ absurd (ground arith)
  ]
  | inr other ↦ elim (List-cases (split sep s)) [
    | inl e ↦ absurd (split-nonempty sep s e)
    | inr (x, xs, e) ↦
        let none_more : xs ≡ [] = ground arith in
        let rest = split_one sep s x (e ∙ ap (λ (t : List Text). x ∷ t) none_more) in ground arith
  ]
]
  where
    split-nonempty : (sep : ℕ) (s : Text) → split sep s ≢ []
    split-nonempty sep [] h = cc
    split-nonempty sep (c ∷ s) h = elim (Bool-cases (c == sep)) [
      | inl same ↦ absurd (ground arith)
      | inr other ↦ elim (List-cases (split sep s)) [
        | inl e ↦ absurd (ground arith)
        | inr (x, xs, e) ↦ absurd (ground arith)
      ]
    ]

split_more :
    (sep : ℕ) (s p q : Text) (qs : List Text)
    → split sep s ≡ p ∷ q ∷ qs
    → (rest : Text) × (s ≡ p ++ sep ∷ rest) × (lacks sep p ≡ true) × (split sep rest ≡ q ∷ qs)
unfolding split lacks
split_more sep [] p q qs h = absurd (ground arith)
split_more sep (c ∷ s) p q qs h = elim (Bool-cases (c == sep)) [
  | inl same ↦ (s, ground arith, ground arith, ground arith)
  | inr other ↦ elim (List-cases (split sep s)) [
    | inl e ↦ absurd (ground arith)
    | inr (x, xs, e) ↦
        let more : xs ≡ q ∷ qs = ground arith in
        let (rest, cut_here, plain, ih) =
          split_more sep s x q qs (e ∙ ap (λ (t : List Text). x ∷ t) more) in
        let same_p : c ∷ x ≡ p = ground arith in
        (
          rest,
          rw (← same_p) (ap (λ (t : Text). c ∷ t) cut_here),
          rw (← same_p) (rw other plain),
          ih,
        )
  ]
]

of_parts_inv :
    (trust_domain : Text) (ps : List Text) (id : Identity)
    → of_parts trust_domain ps ≡ some id
    → (ps ≡ lit "ns" ∷ id.namespace ∷ lit "sa" ∷ id.name ∷ [])
      × (id.trust_domain ≡ trust_domain)
      × (is_empty id.namespace ≡ false)
      × (is_empty id.name ≡ false)
of_parts_inv td (a ∷ b ∷ c ∷ d ∷ []) id h =
    ground (arith, beq_iff a (lit "ns"), beq_iff c (lit "sa"))
of_parts_inv td _ id h = absurd (ground arith)

-- A text parses exactly if it is a trust domain, `/ns/`, a namespace, `/sa/` and a name, none of them
-- empty or with a `/`; and it parses to these.
pub parse_iff :
    (raw : Text) (id : Identity)
    → (parse raw ≡ some id) ↔ (IsWellFormed id × (raw ≡ id.trust_domain ++ b'/' ∷ path_of id))
unfolding parse
parse_iff raw id = (there, back)
  where
    there : parse raw ≡ some id → IsWellFormed id × (raw ≡ id.trust_domain ++ b'/' ∷ path_of id)
    there h = elim (Option-cases (cut b'/' raw)) [
      | inl e ↦ absurd (unfold parse in ground arith)
      | inr ((td, path), e) ↦ elim (Bool-cases (is_empty td)) [
        | inl empty ↦ absurd (unfold parse in ground arith)
        | inr given ↦
            let parts : of_parts td (split b'/' path) ≡ some id = unfold parse in ground arith in
            let (listed, same_td, ns_given, name_given) =
              of_parts_inv td (split b'/' path) id parts in
            let (r1, e1, p1, s1) = split_more b'/' path _ _ _ listed in
            let (r2, e2, p2, s2) = split_more b'/' r1 _ _ _ s1 in
            let (r3, e3, p3, s3) = split_more b'/' r2 _ _ _ s2 in
            let (e4, p4) = split_one b'/' r3 _ s3 in
            let (cut_here, td_plain) = cut_inv b'/' raw td path e in
            (
              record {
                trust_domain_given = rw same_td given;
                namespace_given = ns_given;
                name_given = name_given;
                trust_domain_plain = rw same_td td_plain;
                namespace_plain = p2;
                name_plain = p4;
              },
              rw same_td (
                  cut_here
                  ∙ ap (λ (t : Text). td ++ b'/' ∷ t)
                      (e1
                        ∙ ap (λ (t : Text). lit "ns/" ++ t)
                            (e2
                              ∙ ap (λ (t : Text). id.namespace ++ b'/' ∷ t)
                                  (e3 ∙ ap (λ (t : Text). lit "sa/" ++ t) e4)))),
            )
      ]
    ]

    back : IsWellFormed id × (raw ≡ id.trust_domain ++ b'/' ∷ path_of id) → parse raw ≡ some id
    back (w, e) =
        let path_split : split b'/' (path_of id)
            ≡ lit "ns" ∷ id.namespace ∷ lit "sa" ∷ id.name ∷ [] =
          split-append b'/' (lit "ns") (id.namespace ++ (lit "/sa/" ++ id.name))
            (unfold lacks in refl)
          ∙ ap (λ (t : List Text). lit "ns" ∷ t)
              (split-append b'/' id.namespace (lit "sa/" ++ id.name) w.namespace_plain
                ∙ ap (λ (t : List Text). id.namespace ∷ t)
                    (split-append b'/' (lit "sa") id.name (unfold lacks in refl)
                      ∙ ap (λ (t : List Text). lit "sa" ∷ t)
                          (split-lacks b'/' id.name w.name_plain))) in
        rw e (
          rw (cut-append b'/' id.trust_domain (path_of id) w.trust_domain_plain, parse)
            (rw (w.trust_domain_given, path_split)
              (ground (
                arith,
                w.namespace_given,
                w.name_given,
                beq_iff (lit "ns") (lit "ns"),
                beq_iff (lit "sa") (lit "sa"),
              ))))

-- Two identities that parse have the same cache key only if they have the same namespace and the same
-- name; the trust domain is no part of the key.
pub cache_key-inj :
    (raw raw' : Text) (id id' : Identity)
    → parse raw ≡ some id
    → parse raw' ≡ some id'
    → (cache_key (record { namespace = id.namespace; name = id.name })
        ≡ cache_key (record { namespace = id'.namespace; name = id'.name }))
      ↔ ((id.namespace ≡ id'.namespace) × (id.name ≡ id'.name))
unfolding cache_key
cache_key-inj raw raw' id id' h h' = (
  λ e.
      let w = ((parse_iff raw id).0 h).0 in
      let w' = ((parse_iff raw' id').0 h').0 in
      let here = cut-append b'/' id.namespace id.name w.namespace_plain in
      let here' = cut-append b'/' id'.namespace id'.name w'.namespace_plain in
      (cc (here, here', e), cc (here, here', e)),
  λ e. rw (e.0, e.1) refl,
)
