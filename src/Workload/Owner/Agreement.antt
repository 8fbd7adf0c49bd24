-- ===== src/Workload/Owner/Agreement.antt =====
-- owner.go: its two functions compared.
use kagenti_operator.Prelude.{
  ◌≡◌, inl, inr, refl, ap, ◌∙◌, sym, Bool, true, false, ◌&&◌, ◌||◌, Text, lit, beq, beq_iff,
  is_empty, Option, none, some, Option-cases, Bool-cases, List, [], ◌∷◌, ◌++◌, arith,
}
use kagenti_operator.GoMap.{GoMap}
use kagenti_operator.BundleService.SpiffeId.{lacks}
use kagenti_operator.Workload.Owner.{
  OwnerInfo, OwnerReference, Pod, cut_suffix, before_last_dash, template_hash,
  deployment_name_from_replica_set, owner_of_ref, owner_of_refs, resolve_owner, ref_owns,
  is_pod_owned_by,
}

cut_suffix_inv : (s suffix before : Text) → cut_suffix s suffix ≡ some before → s ≡ before ++ suffix
unfolding cut_suffix
cut_suffix_inv [] suffix before h = ground (arith)
cut_suffix_inv (c ∷ s) suffix before h = elim (Bool-cases (beq (c ∷ s) suffix)) [
  | inl same ↦ ground (arith, beq_iff (c ∷ s) suffix)
  | inr other ↦ elim (Option-cases (cut_suffix s suffix)) [
    | inl e ↦ absurd (ground arith)
    | inr (rest, e) ↦ ground (arith, cut_suffix_inv s suffix rest e)
  ]
]

no_dash : (s : Text) → lacks b'-' s ≡ true → before_last_dash s ≡ none
unfolding before_last_dash lacks
no_dash [] h = refl
no_dash (c ∷ s) h = ground (arith, no_dash s)

before_last_dash-append :
    (s hash : Text) → lacks b'-' hash ≡ true → before_last_dash (s ++ b'-' ∷ hash) ≡ some s
unfolding before_last_dash
before_last_dash-append [] hash h = rw (no_dash hash h, before_last_dash) refl
before_last_dash-append (c ∷ s) hash h =
    rw (before_last_dash-append s hash h, before_last_dash) refl

-- The hash has no dash, where there is one.
abbrev pub IsPlainHash : Option Text → Type 0
IsPlainHash none = Unit {0}
IsPlainHash (some hash) = lacks b'-' hash ≡ true

deployment_owned :
    (rs_name : Text) (labels : GoMap Text)
    → IsPlainHash (template_hash labels)
    → is_empty (deployment_name_from_replica_set rs_name labels) ≡ false
    → before_last_dash rs_name ≡ some (deployment_name_from_replica_set rs_name labels)
unfolding deployment_name_from_replica_set
deployment_owned rs_name labels plain given = elim (Option-cases (template_hash labels)) [
  | inl e ↦ absurd (ground arith)
  | inr (hash, e) ↦ elim (Option-cases (cut_suffix rs_name (b'-' ∷ hash))) [
    | inl e' ↦ absurd (ground arith)
    | inr (before, e') ↦
        let ends = cut_suffix_inv rs_name (b'-' ∷ hash) before e' in
        let plain' : lacks b'-' hash ≡ true = rw e at plain in
        elim (Bool-cases (is_empty hash)) [
          | inl empty ↦ absurd (ground arith)
          | inr full ↦
              let name : deployment_name_from_replica_set rs_name labels ≡ before =
                rw (e, deployment_name_from_replica_set) (rw (full, e') refl) in
              ap before_last_dash ends
              ∙ before_last_dash-append before hash plain'
              ∙ sym (ap some name)
        ]
  ]
]

ref_agrees :
    (ref : OwnerReference) (labels : GoMap Text) (owner : OwnerInfo)
    → IsPlainHash (template_hash labels)
    → owner_of_ref ref labels ≡ some owner
    → is_empty owner.kind ≡ false
    → ref_owns ref owner.name ≡ true
unfolding owner_of_ref ref_owns beq
ref_agrees ref labels owner plain h given = elim (Bool-cases ref.controller) [
  | inr no_one ↦ absurd (ground arith)
  | inl owns ↦ elim (Bool-cases (beq ref.kind (lit "StatefulSet"))) [
    | inl set ↦ ground (arith, beq_iff ref.kind (lit "StatefulSet"), beq_iff ref.name owner.name)
    | inr not_set ↦ elim (Bool-cases (beq ref.kind (lit "Sandbox"))) [
      | inl sandbox ↦ ground (arith, beq_iff ref.kind (lit "Sandbox"), beq_iff ref.name owner.name)
      | inr not_sandbox ↦ elim (Bool-cases (beq ref.kind (lit "ReplicaSet"))) [
        | inl replicas ↦
            elim (Bool-cases (is_empty (deployment_name_from_replica_set ref.name labels))) [
              | inl none_there ↦ absurd (ground arith)
              | inr named ↦
                  let same : deployment_name_from_replica_set ref.name labels ≡ owner.name =
                    ground arith in
                  let front = deployment_owned ref.name labels plain named in
                  rw (owns, ref_owns)
                    (rw (replicas, front)
                      (rw (named, same) (rw ((beq_iff owner.name owner.name).1 refl) refl)))
            ]
        | inr else_kind ↦ absurd (ground arith)
      ]
    ]
  ]
]

refs_agree :
    (refs : List OwnerReference) (labels : GoMap Text) (owner : OwnerInfo)
    → IsPlainHash (template_hash labels)
    → owner_of_refs refs labels ≡ some owner
    → is_empty owner.kind ≡ false
    → is_pod_owned_by refs owner.name ≡ true
unfolding owner_of_refs is_pod_owned_by
refs_agree [] labels owner plain h given = absurd (ground arith)
refs_agree (ref ∷ refs) labels owner plain h given = elim (Option-cases (owner_of_ref ref labels)) [
  | inl e ↦ ground (arith, refs_agree refs labels owner plain)
  | inr (o, e) ↦
      let same : o ≡ owner = ground arith in
      rw (ref_agrees ref labels owner plain (e ∙ ap some same) given) refl
]

-- A controller reference to one of the three kinds.
unfoldable pub has_workload_ref : List OwnerReference → Bool
has_workload_ref [] = false
has_workload_ref (ref ∷ refs) =
    (ref.controller
      && (beq ref.kind (lit "StatefulSet")
          || (beq ref.kind (lit "Sandbox") || beq ref.kind (lit "ReplicaSet"))))
    || has_workload_ref refs

ref_found :
    (refs : List OwnerReference) (labels : GoMap Text)
    → has_workload_ref refs ≡ true
    → (owner : OwnerInfo) × (owner_of_refs refs labels ≡ some owner)
unfolding owner_of_refs owner_of_ref has_workload_ref
ref_found [] labels h = absurd (ground arith)
ref_found (ref ∷ refs) labels h = elim (Option-cases (owner_of_ref ref labels)) [
  | inr (o, e) ↦ (o, rw (e, owner_of_refs) refl)
  | inl e ↦ let (o, e') = ref_found refs labels (ground arith) in (o, rw (e, owner_of_refs) e')
]

-- If a pod has a controller reference to a StatefulSet, a Sandbox or a ReplicaSet, and its template hash
-- has no dash, then where `ResolveOwner` finds the kind of its workload, `IsPodOwnedBy` holds of the
-- name that it finds.
pub resolved_owner_owns :
    (pod : Pod)
    → has_workload_ref pod.owner_references ≡ true
    → IsPlainHash (template_hash pod.labels)
    → is_empty (resolve_owner pod).kind ≡ false
    → is_pod_owned_by pod.owner_references (resolve_owner pod).name ≡ true
unfolding resolve_owner
resolved_owner_owns pod h plain given =
    let (o, e) = ref_found pod.owner_references pod.labels h in
    rw (e, resolve_owner)
      (refs_agree pod.owner_references pod.labels o plain e (rw (e, resolve_owner) at given))
