-- ===== src/BundleService/Provider/Freshness/Changes.antt =====
-- watcher.go: a change of a policy in coherent caches.
use kagenti_operator.Prelude.{
  ◌≡◌, ◌≢◌, ◌↔◌, ◌⊎◌, inl, inr, refl, sym, ap, ◌∙◌, Text, lit, beq, beq_iff, Option, none, some,
  Bool-cases, List, false, arith,
}
use kagenti_operator.GoMap
use kagenti_operator.BundleService.Lru
use kagenti_operator.BundleService.Lru.Elements.{find, values}
use kagenti_operator.BundleService.Lru.Refinement
use kagenti_operator.BundleService.Lru.Refinement.{step-Refines}
use kagenti_operator.BundleService.Lru.Reads.{invalidate_keeps}
use kagenti_operator.BundleService.SpiffeId.{ClientIdentity, cache_key}
use kagenti_operator.BundleService.Content.{Policy}
use kagenti_operator.BundleService.Watcher.{
  Object, Caches, scope_of, key_of, invalidate_object, drop_all,
}
use kagenti_operator.BundleService.Caches.{
  PolicyData, PolicyCache, invalidate_namespace, invalidate_global,
}
use kagenti_operator.BundleService.Provider.{Setup}
use kagenti_operator.BundleService.Provider.Freshness.{
  Store, put_at, IsStored, InTier, IsCurrent, IsFreshTier, IsCoherent,
}

-- A change of the store at the key of a policy `o`, which is the new policy or the one that is deleted:
-- it keeps the scope of the policy, which is one of the three, and a global policy is one of the service's
-- namespace.
pub record IsChange (service_namespace : Text) (st : Store) (o : Object) (new : Option Object)
    : Type 0 where
  pub new_one : (new ≡ none) ⊎ (new ≡ some o)
  pub old_one :
      (old : Object)
      → st (key_of o.namespace o.name) ≡ some old
      → (scope_of old ≡ scope_of o) × (old.namespace ≡ o.namespace)
  pub scoped :
      (scope_of o ≡ lit "client")
      ⊎ (scope_of o ≡ lit "namespace")
      ⊎ ((scope_of o ≡ lit "global") × (o.namespace ≡ service_namespace))

apart_texts : (a b : Text) → beq a b ≡ false → a ≢ b
apart_texts a b h e = absurd (ground (arith, beq_iff a b))

module _ (service_namespace : Text) (st : Store) (o : Object) (new : Option Object)
    (ch : IsChange service_namespace st o new) where
  abbrev store_after : Store
  store_after = put_at st (key_of o.namespace o.name) new

  -- A policy of another scope or another namespace is not touched.
  other-IsStored :
      (x : Object)
      → ((scope_of x ≢ scope_of o) ⊎ (x.namespace ≢ o.namespace))
      → IsStored store_after x ↔ IsStored st x
  unfolding put_at
  other-IsStored x apart =
      elim (Bool-cases (beq (key_of o.namespace o.name) (key_of x.namespace x.name))) [
        | inr other ↦ rw other (λ h. h, λ h. h)
        | inl same ↦
            let keys = (beq_iff (key_of o.namespace o.name) (key_of x.namespace x.name)).0 same in
            rw same
              (λ h. absurd (not_new ch.new_one h), λ h. absurd (not_old (ch.old_one x (rw keys h))))
      ]
    where
      not_old : (scope_of x ≡ scope_of o) × (x.namespace ≡ o.namespace) → ⊥
      not_old (sc, n) = elim apart [ inl a ↦ a sc | inr a ↦ a n ]

      not_new : (new ≡ none) ⊎ (new ≡ some o) → new ≡ some x → ⊥
      not_new (inl e) h = cc
      not_new (inr e) h =
          let here : o ≡ x = cc in
          not_old (ap scope_of (sym here), ap (λ (t : Object). t.namespace) (sym here))

  other_tier :
      (scope ns : Text) (l : List Object)
      → ((scope ≢ scope_of o) ⊎ (ns ≢ o.namespace))
      → InTier st scope ns l
      → InTier store_after scope ns l
  other_tier scope ns l apart tier x =
      let apart_x : scope_of x ≡ scope
          → x.namespace ≡ ns
          → (scope_of x ≢ scope_of o) ⊎ (x.namespace ≢ o.namespace) =
        λ sc n. rw (sc, n) apart in
      (
        λ m. let (h, sc, n) = (tier x).0 m in ((other-IsStored x (apart_x sc n)).1 h, sc, n),
        λ t. (tier x).1 ((other-IsStored x (apart_x t.1 t.2)).0 t.0, t.1, t.2),
      )

  module _ (s : Setup) where
    -- What a change of a client's policy leaves of the other clients.
    other-IsCurrent :
        (id : ClientIdentity) (policies : List Policy)
        → scope_of o ≡ lit "client"
        → key_of o.namespace o.name ≢ cache_key id
        → IsCurrent s st id policies
        → IsCurrent s store_after id policies
    unfolding put_at beq
    other-IsCurrent id policies sc apart cur = record {
      global = cur.global;
      ns = cur.ns;
      client = cur.client;
      global_tier =
          other_tier (lit "global") s.service_namespace cur.global
            (inl (λ h. apart_texts (lit "global") (lit "client") refl (h ∙ sc))) cur.global_tier;
      ns_tier =
          other_tier (lit "namespace") id.namespace cur.ns
            (inl (λ h. apart_texts (lit "namespace") (lit "client") refl (h ∙ sc))) cur.ns_tier;
      client_tier =
          let other : beq (key_of o.namespace o.name) (cache_key id) ≡ false =
            ground (arith, beq_iff (key_of o.namespace o.name) (cache_key id)) in
          rw other cur.client_tier;
      listed = cur.listed;
    }

    -- The caches after a change of every workload's policies.
    dropped-IsCoherent :
        (c : Caches) (policies : PolicyCache)
        → IsCoherent s st c
        → ((d : PolicyData)
            → policies.global ≡ some d
            → IsFreshTier s store_after (lit "global") s.service_namespace d.policies)
        → ((n : Text) (d : PolicyData)
            → GoMap.get policies.ns n ≡ some d
            → IsFreshTier s store_after (lit "namespace") n d.policies)
        → IsCoherent s store_after (drop_all policies c)
    unfolding GoMap.get Refinement.step
    dropped-IsCoherent c policies co g n = record {
      valid = (step-Refines c.bundles co.valid Refinement.invalidate_all).0;
      global = g;
      ns = n;
      etags = λ id hash p h. absurd (ground arith);
      bundles = λ id e p h. absurd (unfold Lru.invalidate_all values find in ground arith);
    }

    kept_tier :
        (scope ns : Text) (policies : List Policy)
        → ((scope ≢ scope_of o) ⊎ (ns ≢ o.namespace))
        → IsFreshTier s st scope ns policies
        → IsFreshTier s store_after scope ns policies
    kept_tier scope ns policies apart (l, tier, same) = (l, other_tier scope ns l apart tier, same)

-- The caches are coherent after the notification of a change.
module _ (s : Setup) (st : Store) (o : Object) (new : Option Object)
    (ch : IsChange s.service_namespace st o new) where
  client_change :
      (c : Caches)
      → scope_of o ≡ lit "client"
      → IsCoherent s st c
      → IsCoherent s
          (put_at st (key_of o.namespace o.name) new)
          (invalidate_object s.service_namespace o c)
  unfolding Refinement.step beq
  client_change c sc co =
      let k = key_of o.namespace o.name in
      let keep = other-IsCurrent s.service_namespace st o new ch s in
      rw (sc, invalidate_object)
        (record {
          valid = (step-Refines c.bundles co.valid (Refinement.invalidate k)).0;
          global = λ d h.
              kept_tier s.service_namespace st o new ch s (lit "global") s.service_namespace
                d.policies (inl (λ e. apart_texts (lit "global") (lit "client") refl (e ∙ sc)))
                (co.global d h);
          ns = λ n d h.
              kept_tier s.service_namespace st o new ch s (lit "namespace") n d.policies
                (inl (λ e. apart_texts (lit "namespace") (lit "client") refl (e ∙ sc)))
                (co.ns n d h);
          etags = λ id hash p h. elim (Bool-cases (beq k (cache_key id))) [
            | inl same ↦ absurd (ground (arith, (rw (GoMap.get-remove, same) at h)))
            | inr other ↦
                let (policies, cur, e) = co.etags id hash p (rw (GoMap.get-remove, other) at h) in
                (
                  policies,
                  keep id policies sc (λ e'. absurd (ground (arith, beq_iff k (cache_key id)))) cur,
                  e,
                )
          ];
          bundles = λ id e p h.
              let (apart, before) = invalidate_keeps c.bundles co.valid k (cache_key id) e h in
              let (policies, cur, same_hash, built) = co.bundles id e p before in
              (policies, keep id policies sc apart cur, same_hash, built);
        })

  namespace_change :
      (c : Caches)
      → scope_of o ≡ lit "namespace"
      → IsCoherent s st c
      → IsCoherent s
          (put_at st (key_of o.namespace o.name) new)
          (invalidate_object s.service_namespace o c)
  unfolding beq
  namespace_change c sc co =
      rw (sc, invalidate_object)
        (dropped-IsCoherent s.service_namespace st o new ch s c
          (invalidate_namespace c.policies o.namespace) co
          (λ d h.
            kept_tier s.service_namespace st o new ch s (lit "global") s.service_namespace
              d.policies (inl (λ e. apart_texts (lit "global") (lit "namespace") refl (e ∙ sc)))
              (co.global d h))
          (λ n d h. elim (Bool-cases (beq o.namespace n)) [
            | inl same ↦ absurd (ground (arith, (rw (GoMap.get-remove, same) at h)))
            | inr other ↦
                kept_tier s.service_namespace st o new ch s (lit "namespace") n d.policies
                  (inr (λ e. absurd (ground (arith, beq_iff o.namespace n))))
                  (co.ns n d (rw (GoMap.get-remove, other) at h))
          ]))

  global_change :
      (c : Caches)
      → scope_of o ≡ lit "global"
      → o.namespace ≡ s.service_namespace
      → IsCoherent s st c
      → IsCoherent s
          (put_at st (key_of o.namespace o.name) new)
          (invalidate_object s.service_namespace o c)
  unfolding beq
  global_change c sc here co =
      rw (sc, invalidate_object)
        (rw ((beq_iff o.namespace s.service_namespace).1 here) (
          dropped-IsCoherent s.service_namespace st o new ch s c (invalidate_global c.policies) co
            (λ d h. absurd (ground arith))
            (λ n d h.
              kept_tier s.service_namespace st o new ch s (lit "namespace") n d.policies
                (inl (λ e. apart_texts (lit "namespace") (lit "global") refl (e ∙ sc)))
                (co.ns n d h))))

  pub invalidate_lem :
      (c : Caches)
      → IsCoherent s st c
      → IsCoherent s
          (put_at st (key_of o.namespace o.name) new)
          (invalidate_object s.service_namespace o c)
  invalidate_lem c co = elim ch.scoped [
    | inl sc ↦ client_change c sc co
    | inr (inl sc) ↦ namespace_change c sc co
    | inr (inr (sc, here)) ↦ global_change c sc here co
  ]
