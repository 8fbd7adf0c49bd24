-- ===== src/BundleService/Routes/Revalidation.antt =====
-- handler.go with provider.go: a client that asks again.
use kagenti_operator.Prelude.{
  result-cases, ℕ, ◌≡◌, ◌≢◌, inl, inr, refl, sym, ap, ◌∙◌, Bool, true, false, Text, is_empty,
  beq_iff, Option, some, Option-cases, Bool-cases, List, [], ◌∷◌, ◌++◌, leb, length, arith,
}
use mathlib.Core.Path.{subst}
use kagenti_operator.GoMap
use kagenti_operator.BundleService.Lru
use kagenti_operator.BundleService.SpiffeId.{ClientIdentity, cache_key, from_request}
use kagenti_operator.BundleService.Content.{Policy, content_hash, build}
use kagenti_operator.BundleService.Watcher.{Indexer, Caches}
use kagenti_operator.BundleService.Provider.{
  Setup, Answer, failed_lookup, failed_conversion, failed_build, too_large, not_modified, bundle,
  client_policies, finish_bundle, build_bundle, stored_or_built, matches, get_bundle, all_policies,
  global_policies, namespace_policies,
}
use kagenti_operator.BundleService.Provider.Freshness.{Store, IsReading, IsTrue}
use kagenti_operator.BundleService.Provider.Freshness.Histories.{History, answers_are_fresh}
use kagenti_operator.BundleService.Routes.{
  Response, last_is, without_last, strip_quotes, quoted, of_data, response_of, is_ready,
  with_response, serve_bundle,
}

last_is-quote : (c : ℕ) (s : Text) → last_is 34 (c ∷ (s ++ 34 ∷ [])) ≡ true
unfolding last_is
last_is-quote c [] = refl
last_is-quote c (d ∷ s) = last_is-quote d s

length-quoted : (s : Text) → leb 2 (length (quoted s)) ≡ true
length-quoted [] = refl
length-quoted (c ∷ s) = ground (arith, length-quoted s)

without_last-quote : (s : Text) → without_last (s ++ 34 ∷ []) ≡ s
unfolding without_last
without_last-quote [] = refl
without_last-quote (c ∷ []) = refl
without_last-quote (c ∷ d ∷ s) = ap (λ (t : Text). c ∷ t) (without_last-quote (d ∷ s))

pub strip_quotes-quoted : (etag : Text) → strip_quotes (quoted etag) ≡ etag
unfolding strip_quotes
strip_quotes-quoted etag =
    rw (last_is-quote 34 etag, strip_quotes) (rw (length-quoted etag) (without_last-quote etag))

-- A bundle leaves its hash in the ETag cache.
finish_bundle-etag :
    (s : Setup) (now : ℕ) (id : ClientIdentity) (policies : List Policy) (c : Caches)
    (content etag : Text)
    → (finish_bundle s now id policies c).1 ≡ bundle content etag
    → GoMap.get (finish_bundle s now id policies c).0.etags (cache_key id) ≡ some etag
finish_bundle-etag s now id policies c content etag h =
    elim (Option-cases (build s.sort s.clean s.archive policies)) [
      | inl e ↦ absurd (ground arith)
      | inr (data_built, e) ↦ ground (
        arith,
        GoMap.get-put c.etags (cache_key id) (content_hash s.sort s.digest_hex policies)
            (cache_key id),
        beq_iff (cache_key id) (cache_key id),
      )
    ]

client_error-none :
    (s : Setup) (idx : Indexer) (id : ClientIdentity) (err : Answer) (content etag : Text)
    → client_policies s idx id ≡ inl err
    → err ≢ bundle content etag
unfolding client_policies
client_error-none s idx id err content etag h e = ground (arith)

build_bundle-etag :
    (s : Setup) (now : ℕ) (idx : Indexer) (id : ClientIdentity) (c : Caches) (content etag : Text)
    → (build_bundle s now idx id c).1 ≡ bundle content etag
    → GoMap.get (build_bundle s now idx id c).0.etags (cache_key id) ≡ some etag
unfolding build_bundle
build_bundle-etag s now idx id c content etag h =
    let (c1, global) = global_policies s idx c.policies in
    let (c2, ns) = namespace_policies s idx id.namespace c1 in
    elim (result-cases (client_policies s idx id)) [
      | inl (err, e) ↦
          absurd (client_error-none s idx id err content etag e (rw (e, build_bundle) at h))
      | inr (client, e) ↦
          let there =
            finish_bundle-etag s now id (all_policies global ns client) (record c { policies = c2 })
              content etag in
          rw (e, build_bundle) (there (rw (e, build_bundle) at h))
    ]

get_bundle-etag :
    (s : Setup) (now : ℕ) (idx : Indexer) (id : ClientIdentity) (if_none_match : Text) (c : Caches)
    (content etag : Text)
    → (get_bundle s now idx id if_none_match c).1 ≡ bundle content etag
    → GoMap.get (get_bundle s now idx id if_none_match c).0.etags (cache_key id) ≡ some etag
unfolding get_bundle build_bundle
get_bundle-etag s now idx id if_none_match c content etag h =
    elim (Bool-cases (matches (GoMap.get c.etags (cache_key id)) if_none_match)) [
      | inl same ↦ absurd (ground arith)
      | inr other ↦
          let found = Lru.get now c.bundles (cache_key id) in
          elim (Option-cases found.1) [
            | inr ((stored, hash), e) ↦ ground (
              arith,
              GoMap.get-put c.etags (cache_key id) hash (cache_key id),
              beq_iff (cache_key id) (cache_key id),
            )
            | inl e ↦
                rw (other, get_bundle)
                  (rw (e, stored_or_built)
                    (build_bundle-etag s now idx id (record c { bundles = found.0 }) content etag
                      (ground arith)))
          ]
    ]

-- A bundle that is served has a hash that is not empty.
hash_given :
    (s : Setup) (policies : List Policy)
    → is_empty (content_hash s.sort s.digest_hex policies) ≡ false
unfolding content_hash
hash_given s [] = refl
hash_given s (p ∷ l) = refl

matches_itself :
    (c : Caches) (id : ClientIdentity) (etag : Text)
    → GoMap.get c.etags (cache_key id) ≡ some etag
    → is_empty etag ≡ false
    → matches (GoMap.get c.etags (cache_key id)) etag ≡ true
matches_itself c id etag h given = rw h (ground (arith, beq_iff etag etag))

-- What is answered with 200 is a bundle.
bundle_answer :
    (s : Setup) (st : Store) (id : ClientIdentity) (if_none_match : Text) (a : Answer)
    → IsTrue s st id if_none_match a
    → (response_of a).status ≡ 200
    → (content : Text) × (etag : Text) × (a ≡ bundle content etag) × (is_empty etag ≡ false)
unfolding response_of
bundle_answer s st id if_none_match failed_lookup t h = absurd (ground arith)
bundle_answer s st id if_none_match failed_conversion t h = absurd (ground arith)
bundle_answer s st id if_none_match failed_build t h = absurd (ground arith)
bundle_answer s st id if_none_match too_large t h = absurd (ground arith)
bundle_answer s st id if_none_match (not_modified etag) (same, (policies, cur, hash)) h =
    absurd (ground (arith, hash_given s policies))
bundle_answer s st id if_none_match (bundle content etag) (policies, cur, hash, built) h =
    (content, etag, refl, rw hash (hash_given s policies))

module _ (s : Setup) (verify : ClientIdentity → Bool) where
  serve_cases :
      (ready : Option Bool) (now : ℕ) (idx : Indexer) (spiffe if_none_match : Text) (c : Caches)
      → (serve_bundle s verify ready now idx spiffe if_none_match c).1.status ≡ 200
      → (id : ClientIdentity) × (from_request spiffe ≡ some id)
        × (is_ready ready ≡ true)
        × (verify id ≡ true)
        × (serve_bundle s verify ready now idx spiffe if_none_match c
            ≡ with_response s verify (get_bundle s now idx id (strip_quotes if_none_match) c))
  unfolding serve_bundle
  serve_cases ready now idx spiffe if_none_match c h = elim (Bool-cases (is_ready ready)) [
    | inr down ↦ absurd (ground arith)
    | inl up ↦ elim (Option-cases (from_request spiffe)) [
      | inl e ↦ absurd (ground arith)
      | inr (id, e) ↦ elim (Bool-cases (verify id)) [
        | inr down ↦ absurd (ground arith)
        | inl verified ↦ (id, e, up, verified, rw (up, serve_bundle) (rw e (rw verified refl)))
      ]
    ]
  ]

  again :
      (ready : Option Bool) (spiffe : Text) (id : ClientIdentity) (c : Caches) (etag : Text)
      (now : ℕ) (idx : Indexer)
      → is_ready ready ≡ true
      → from_request spiffe ≡ some id
      → verify id ≡ true
      → GoMap.get c.etags (cache_key id) ≡ some etag
      → is_empty etag ≡ false
      → serve_bundle s verify ready now idx spiffe (quoted etag) c
        ≡ (c, record { status = 304; etag = []; body = [] })
  unfolding serve_bundle response_of
  again ready spiffe id c etag now idx up asked verified kept given =
      rw (up, serve_bundle)
        (rw asked (
          rw verified (
            rw (strip_quotes-quoted etag)
              (rw (matches_itself c id etag kept given, get_bundle) (rw given refl)))))

  -- After any history of the caches, a client that gets a bundle and at once asks again with the ETag that
  -- came with it gets 304 and no bundle, whatever the clock and the informer then say; that request
  -- changes no cache.
  pub served_again :
      (st : Store) (c : Caches) (ready : Option Bool) (now : ℕ) (idx : Indexer)
      (spiffe if_none_match : Text)
      → History s st c
      → IsReading st idx
      → (serve_bundle s verify ready now idx spiffe if_none_match c).1.status ≡ 200
      → (now' : ℕ) (idx' : Indexer)
      → let out = serve_bundle s verify ready now idx spiffe if_none_match c in
        serve_bundle s verify ready now' idx' spiffe out.1.etag out.0
        ≡ (out.0, record { status = 304; etag = []; body = [] })
  unfolding serve_bundle get_bundle response_of
  served_again st c ready now idx spiffe if_none_match history reads h now' idx' =
      let (id, asked, up, verified, same) = serve_cases ready now idx spiffe if_none_match c h in
      let inm = strip_quotes if_none_match in
      let got = get_bundle s now idx id inm c in
      let fresh = answers_are_fresh s st c now idx spiffe id inm history reads asked in
      let (content, etag, answer, given) = bundle_answer s st id inm got.1 fresh (rw same at h) in
      let kept = get_bundle-etag s now idx id inm c content etag answer in
      let eq : serve_bundle s verify ready now idx spiffe if_none_match c
          ≡ (got.0, of_data etag content) =
        same ∙ ap (λ (t : Answer). (got.0, response_of t)) answer in
      subst
        (λ (out : Caches × Response).
          serve_bundle s verify ready now' idx' spiffe out.1.etag out.0
          ≡ (out.0, record { status = 304; etag = []; body = [] }))
        (sym eq) (again ready spiffe id got.0 etag now' idx' up asked verified kept given)
