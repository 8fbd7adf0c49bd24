-- ===== src/BundleService/Provider/Freshness/Requests.antt =====
-- provider.go: a request in coherent caches.
use kagenti_operator.Prelude.{
  result-cases, ℕ, ◌≡◌, inl, inr, refl, sym, ap, ◌∙◌, Text, beq, beq_iff, some, Option-cases,
  Bool-cases, List, ltb, length, arith,
}
use kagenti_operator.GoMap
use kagenti_operator.BundleService.Lru
use kagenti_operator.BundleService.Lru.Refinement
use kagenti_operator.BundleService.Lru.Refinement.{step-Refines}
use kagenti_operator.BundleService.Lru.Reads.{get_answer, get_keeps, set_keeps}
use kagenti_operator.BundleService.SpiffeId.{ClientIdentity, cache_key, cut-append}
use kagenti_operator.BundleService.Content.{Policy, content_hash, build}
use kagenti_operator.BundleService.Watcher.{Indexer, Caches}
use kagenti_operator.BundleService.Provider.{
  Setup, all_policies, global_policies, namespace_policies, client_policies, finish_bundle,
  build_bundle, stored_or_built, matches, get_bundle,
}
use kagenti_operator.BundleService.Provider.Freshness.{
  Store, IsReading, IsPlain, IsCurrent, IsFreshBundle, IsCoherent, IsTrue,
}
use kagenti_operator.BundleService.Provider.Freshness.Tiers.{
  global_policies_lem, namespace_policies_lem, client_policies_lem, client_error,
}

cache_key_inj :
    (id id' : ClientIdentity) → IsPlain id → IsPlain id' → cache_key id ≡ cache_key id' → id ≡ id'
unfolding cache_key
cache_key_inj id id' p p' h =
    let here = cut-append b'/' id.namespace id.name p in
    let here' = cut-append b'/' id'.namespace id'.name p' in cc (here, here', h)

module _ (s : Setup) (st : Store) (idx : Indexer) (reads : IsReading st idx) where
  -- The rest of a build puts into the caches what is in the store.
  finish_bundle-IsCoherent :
      (now : ℕ) (id : ClientIdentity) (policies : List Policy) (c : Caches)
      → IsPlain id
      → IsCurrent s st id policies
      → IsCoherent s st c
      → IsCoherent s st (finish_bundle s now id policies c).0
  unfolding Refinement.step
  finish_bundle-IsCoherent now id policies c plain current co =
      let hash = content_hash s.sort s.digest_hex policies in
      elim (Option-cases (build s.sort s.clean s.archive policies)) [
        | inl e ↦ rw (e, finish_bundle) marked
        | inr (content, e) ↦ elim (Bool-cases (ltb 5242880 (length content))) [
          | inl big ↦ rw (e, finish_bundle) (rw big marked)
          | inr fits ↦
              rw (e, finish_bundle)
                (rw fits (record {
                  valid =
                      (step-Refines c.bundles co.valid
                        (Refinement.set now (cache_key id) content hash)).0;
                  global = co.global;
                  ns = co.ns;
                  etags = marked.etags;
                  bundles = λ id' x p h.
                      elim (set_keeps c.bundles co.valid now (cache_key id) content hash
                        (cache_key id') x h) [
                          | inl (key, same_content, same_hash) ↦
                              let same = cache_key_inj id' id p plain key in
                              (policies, rw same current, same_hash, e ∙ ap some (sym same_content))
                          | inr before ↦ co.bundles id' x p before
                        ];
                }))
        ]
      ]
    where
      marked : IsCoherent s st (record c {
        etags = GoMap.put c.etags (cache_key id) (content_hash s.sort s.digest_hex policies);
      })
      marked = record {
        valid = co.valid;
        global = co.global;
        ns = co.ns;
        etags = λ id' hash p h. elim (Bool-cases (beq (cache_key id) (cache_key id'))) [
          | inl same ↦
              let same_id =
                cache_key_inj id id' plain p ((beq_iff (cache_key id) (cache_key id')).0 same) in
              let stored = rw (GoMap.get-put, same) at h in
              (policies, rw (← same_id) current, cc stored)
          | inr other ↦ co.etags id' hash p (rw (GoMap.get-put, other) at h)
        ];
        bundles = co.bundles;
      }

  finish_bundle-IsTrue :
      (now : ℕ) (id : ClientIdentity) (policies : List Policy) (c : Caches) (if_none_match : Text)
      → IsCurrent s st id policies
      → IsTrue s st id if_none_match (finish_bundle s now id policies c).1
  finish_bundle-IsTrue now id policies c if_none_match current =
      elim (Option-cases (build s.sort s.clean s.archive policies)) [
        | inl e ↦ rw (e, finish_bundle) (policies, current, e)
        | inr (content, e) ↦ elim (Bool-cases (ltb 5242880 (length content))) [
          | inl big ↦ rw (e, finish_bundle) (rw big (policies, content, current, e, ground arith))
          | inr fits ↦ rw (e, finish_bundle) (rw fits (policies, current, refl, e))
        ]
      ]

  build_bundle_lem :
      (now : ℕ) (id : ClientIdentity) (c : Caches) (if_none_match : Text)
      → IsPlain id
      → IsCoherent s st c
      → IsCoherent s st (build_bundle s now idx id c).0
        × IsTrue s st id if_none_match (build_bundle s now idx id c).1
  unfolding build_bundle
  build_bundle_lem now id c if_none_match plain co =
      let (co1, (g, g_tier, g_same)) =
        global_policies_lem s st idx reads c.policies (co.global, co.ns) in
      let c1 = (global_policies s idx c.policies).0 in
      let (co2, (n, n_tier, n_same)) = namespace_policies_lem s st idx reads c1 id.namespace co1 in
      let c2 = (namespace_policies s idx id.namespace c1).0 in
      let kept : IsCoherent s st (record c { policies = c2 }) = record {
        valid = co.valid;
        global = co2.0;
        ns = co2.1;
        etags = co.etags;
        bundles = co.bundles;
      } in
      elim (result-cases (client_policies s idx id)) [
        | inl (err, e) ↦
            rw (e, build_bundle) (kept, client_error s st idx reads id err if_none_match e)
        | inr (client, e) ↦
            let policies =
              all_policies (global_policies s idx c.policies).1
                (namespace_policies s idx id.namespace c1).1 client in
            let current : IsCurrent s st id policies = record {
              global = g;
              ns = n;
              client = client;
              global_tier = g_tier;
              ns_tier = n_tier;
              client_tier = client_policies_lem s st idx reads id client e;
              listed = rw (g_same, n_same) refl;
            } in
            rw (e, build_bundle)
              (
                finish_bundle-IsCoherent now id policies (record c { policies = c2 }) plain current
                    kept,
                finish_bundle-IsTrue now id policies (record c { policies = c2 }) if_none_match
                    current,
              )
      ]

  stored_or_built_lem :
      (now : ℕ) (id : ClientIdentity) (c : Caches) (if_none_match : Text)
      → IsPlain id
      → IsCoherent s st c
      → IsCoherent s st (stored_or_built s now idx id c).0
        × IsTrue s st id if_none_match (stored_or_built s now idx id c).1
  unfolding Refinement.step
  stored_or_built_lem now id c if_none_match plain co =
      let read = Lru.get now c.bundles (cache_key id) in
      let kept : IsCoherent s st (record c { bundles = read.0 }) = record {
        valid = (step-Refines c.bundles co.valid (Refinement.get now (cache_key id))).0;
        global = co.global;
        ns = co.ns;
        etags = co.etags;
        bundles = λ id' e p h.
            co.bundles id' e p
              (get_keeps c.bundles co.valid now (cache_key id) (cache_key id') e h);
      } in
      elim (Option-cases read.1) [
        | inl e ↦
            rw (e, stored_or_built)
              (build_bundle_lem now id (record c { bundles = read.0 }) if_none_match plain kept)
        | inr ((content, etag), e) ↦
            let (entry, there, same_content, same_etag) =
              get_answer c.bundles co.valid now (cache_key id) content etag e in
            let fresh : IsFreshBundle s st id content etag =
              rw (same_content, same_etag) (co.bundles id entry plain there) in
            rw (e, stored_or_built)
              (
                record {
                  valid = kept.valid;
                  global = co.global;
                  ns = co.ns;
                  etags = λ id' hash p h. elim (Bool-cases (beq (cache_key id) (cache_key id'))) [
                    | inl same ↦
                        let same_id =
                          cache_key_inj id id' plain p
                            ((beq_iff (cache_key id) (cache_key id')).0 same) in
                        let stored = rw (GoMap.get-put, same) at h in
                        rw (← same_id) (fresh.0, fresh.1, cc (stored, fresh.2))
                    | inr other ↦ co.etags id' hash p (rw (GoMap.get-put, other) at h)
                  ];
                  bundles = kept.bundles;
                },
                fresh,
              )
      ]

  -- A request keeps the caches coherent, and its answer is true.
  pub get_bundle_lem :
      (now : ℕ) (id : ClientIdentity) (if_none_match : Text) (c : Caches)
      → IsPlain id
      → IsCoherent s st c
      → IsCoherent s st (get_bundle s now idx id if_none_match c).0
        × IsTrue s st id if_none_match (get_bundle s now idx id if_none_match c).1
  unfolding get_bundle
  get_bundle_lem now id if_none_match c plain co =
      elim (Bool-cases (matches (GoMap.get c.etags (cache_key id)) if_none_match)) [
        | inr other ↦ rw (other, get_bundle) (stored_or_built_lem now id c if_none_match plain co)
        | inl same ↦
            rw (same, get_bundle)
              (
                co,
                (
                  refl,
                  elim (Option-cases (GoMap.get c.etags (cache_key id))) [
                    | inl e ↦ absurd (ground arith)
                    | inr (hash, e) ↦
                        let here : if_none_match ≡ hash =
                          ground (arith, beq_iff if_none_match hash) in
                        rw here (co.etags id hash plain e)
                  ],
                ),
              )
      ]
