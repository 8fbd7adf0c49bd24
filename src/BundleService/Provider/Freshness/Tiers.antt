-- ===== src/BundleService/Provider/Freshness/Tiers.antt =====
-- provider.go: what a request reads of the tiers, from the cache or from the informer.
use kagenti_operator.Prelude.{
  ◌≡◌, ◌↔◌, inl, inr, refl, ap, Text, lit, beq, beq_iff, some, Option-cases, Bool-cases, List, [],
  ◌∷◌, arith,
}
use kagenti_operator.GoMap
use kagenti_operator.BundleService.SpiffeId.{ClientIdentity, cache_key}
use kagenti_operator.BundleService.Content.{Policy}
use kagenti_operator.BundleService.Caches.{PolicyData, PolicyCache}
use kagenti_operator.BundleService.Watcher.{
  Object, Indexer, key_of, in_namespace, get_global_policies, get_namespace_policies, get_policy,
}
use kagenti_operator.BundleService.Provider.{
  Setup, Answer, failed_conversion, global_policies, namespace_policies, client_policies,
}
use kagenti_operator.BundleService.Provider.Freshness.{
  Store, Member, InTier, IsReading, IsClientTier, IsFreshTier, IsTrue,
}

in_namespace-Member :
    (ns : Text) (l : List Object) (o : Object)
    → Member o (in_namespace ns l) ↔ (Member o l × (o.namespace ≡ ns))
unfolding in_namespace
in_namespace-Member ns [] o = (λ h. absurd h, λ h. absurd h.0)
in_namespace-Member ns (x ∷ l) o = ground (
  arith,
  beq_iff x.namespace ns,
  in_namespace-Member ns l o,
  ap (λ (t : Object). t.namespace) {x = x} {y = o},
)

module _ (s : Setup) (st : Store) (idx : Indexer) (reads : IsReading st idx) where
  tier_read :
      (scope ns : Text) (l : List Object)
      → idx.by_index scope ≡ some l
      → InTier st scope ns (in_namespace ns l)
  tier_read scope ns l h o =
      let (l', e, listed) = reads.indexed scope in
      let same : l' ≡ l = cc (e, h) in
      let here = rw same at (listed o) in
      let (there, back) = in_namespace-Member ns l o in
      (
        λ m. let (m', n) = there m in let (st_o, sc) = here.0 m' in (st_o, sc, n),
        λ t. back (here.1 (t.0, t.1), t.2),
      )

  global_read :
      InTier st (lit "global") s.service_namespace (get_global_policies s.service_namespace idx)
  unfolding get_global_policies
  global_read =
      let (l, e, listed) = reads.indexed (lit "global") in
      rw (e, get_global_policies) (tier_read (lit "global") s.service_namespace l e)

  ns_read : (n : Text) → InTier st (lit "namespace") n (get_namespace_policies idx n)
  unfolding get_namespace_policies
  ns_read n =
      let (l, e, listed) = reads.indexed (lit "namespace") in
      rw (e, get_namespace_policies) (tier_read (lit "namespace") n l e)

  -- The two tiers of the policy cache, after a read.
  abbrev IsCoherentPolicies : PolicyCache → Type 0
  IsCoherentPolicies c =
      ((d : PolicyData)
        → c.global ≡ some d
        → IsFreshTier s st (lit "global") s.service_namespace d.policies)
      × ((n : Text) (d : PolicyData)
          → GoMap.get c.ns n ≡ some d
          → IsFreshTier s st (lit "namespace") n d.policies)

  pub global_policies_lem :
      (c : PolicyCache)
      → IsCoherentPolicies c
      → IsCoherentPolicies (global_policies s idx c).0
        × IsFreshTier s st (lit "global") s.service_namespace (global_policies s idx c).1
  unfolding global_policies
  global_policies_lem c (g, n) = elim (Option-cases c.global) [
    | inl e ↦
        rw (e, global_policies)
          (
            (λ d h. (get_global_policies s.service_namespace idx, global_read, cc h), n),
            (get_global_policies s.service_namespace idx, global_read, refl),
          )
    | inr (d, e) ↦ rw (e, global_policies) ((g, n), g d e)
  ]

  pub namespace_policies_lem :
      (c : PolicyCache) (ns : Text)
      → IsCoherentPolicies c
      → IsCoherentPolicies (namespace_policies s idx ns c).0
        × IsFreshTier s st (lit "namespace") ns (namespace_policies s idx ns c).1
  unfolding namespace_policies
  namespace_policies_lem c ns (g, n) = elim (Option-cases (GoMap.get c.ns ns)) [
    | inl e ↦
        rw (e, namespace_policies)
          (
            (
              g,
              λ m d h. elim (Bool-cases (beq ns m)) [
                | inl same ↦
                    let here : ns ≡ m = (beq_iff ns m).0 same in
                    let stored = rw (GoMap.get-put, same) at h in
                    (get_namespace_policies idx m, ns_read m, cc (here, stored))
                | inr other ↦ n m d (rw (GoMap.get-put, other) at h)
              ],
            ),
            (get_namespace_policies idx ns, ns_read ns, refl),
          )
    | inr (d, e) ↦ rw (e, namespace_policies) ((g, n), n ns d e)
  ]

  pub client_policies_lem :
      (id : ClientIdentity) (client : List Policy)
      → client_policies s idx id ≡ inr client
      → IsClientTier s (st (cache_key id)) client
  unfolding client_policies get_policy cache_key
  client_policies_lem id client h =
      let read = reads.keyed (key_of id.namespace id.name) in
      elim (Option-cases (st (key_of id.namespace id.name))) [
        | inl e ↦ rw e (ground (arith, read))
        | inr (o, e) ↦ elim (Option-cases (s.convert o)) [
          | inl bad ↦ absurd (ground (arith, read))
          | inr (policies, good) ↦ rw e (ground (arith, read))
        ]
      ]

  pub client_error :
      (id : ClientIdentity) (err : Answer) (if_none_match : Text)
      → client_policies s idx id ≡ inl err
      → IsTrue s st id if_none_match err
  unfolding client_policies get_policy cache_key
  client_error id err if_none_match h =
      let read = reads.keyed (key_of id.namespace id.name) in
      elim (Option-cases (st (key_of id.namespace id.name))) [
        | inl e ↦ absurd (ground (arith, read))
        | inr (o, e) ↦ elim (Option-cases (s.convert o)) [
          | inl bad ↦
              let same : failed_conversion ≡ err = ground (arith, read) in rw (← same) (o, e, bad)
          | inr (policies, good) ↦ absurd (ground (arith, read))
        ]
      ]
