-- ===== src/Workload/Owner.antt =====
-- operator/internal/workload/owner.go. A pod is the fields that are read; `controller` of a reference is
-- true where the pointer is set and points to true.
pub mod Agreement
use kagenti_operator.Prelude.{
  ◌+◌, Bool, true, false, not, ◌&&◌, ◌||◌, Text, lit, beq, is_empty, Option, none, some, List, [],
  ◌∷◌, ◌++◌, ◌==◌, if◌then◌else◌,
}
use kagenti_operator.GoMap
use kagenti_operator.GoMap.{GoMap}

pub record OwnerInfo : Type 0 where
  pub name : Text
  pub kind : Text

pub record OwnerReference : Type 0 where
  pub controller : Bool
  pub kind : Text
  pub name : Text

pub record Pod : Type 0 where
  pub owner_references : List OwnerReference
  pub labels : GoMap Text
  pub generate_name : Text
  pub name : Text

-- What is in front of a suffix; `none` where the text does not end in it.
unfoldable pub cut_suffix : Text → Text → Option Text
cut_suffix [] suffix = if is_empty suffix then some [] else none
cut_suffix (c ∷ s) suffix =
    let rest = cut_suffix s suffix in
    if beq (c ∷ s) suffix
    then some []
    else elim rest [ none ↦ none | some before ↦ some (c ∷ before) ]

-- strings.TrimRight(s, "-")
unfoldable pub trim_dashes : Text → Text
trim_dashes [] = []
trim_dashes (c ∷ s) =
    let rest = trim_dashes s in if c == b'-' && is_empty rest then [] else c ∷ rest

-- What is in front of the last `-`; `none` where there is none.
unfoldable pub before_last_dash : Text → Option Text
before_last_dash [] = none
before_last_dash (c ∷ s) = elim (before_last_dash s) [
  | some before ↦ some (c ∷ before)
  | none ↦ if c == b'-' then some [] else none
]

-- labels["pod-template-hash"]
abbrev pub template_hash : GoMap Text → Option Text
template_hash labels = GoMap.get labels (lit "pod-template-hash")

-- deploymentNameFromReplicaSet; empty where there is no such name
unfoldable pub deployment_name_from_replica_set : Text → GoMap Text → Text
unfolding cut_suffix
deployment_name_from_replica_set rs_name labels = elim (template_hash labels) [
  | none ↦ []
  | some hash ↦
      if is_empty hash
      then []
      else elim (cut_suffix rs_name (b'-' ∷ hash)) [ none ↦ [] | some before ↦ before ]
]

abbrev of_replica_set : (rs_name name : Text) → OwnerInfo
of_replica_set rs_name name =
    if is_empty name
    then record { name = rs_name; kind = [] }
    else record { name = name; kind = lit "Deployment" }

-- The answer of the loop for one reference, `none` where it goes on.
unfoldable pub owner_of_ref : OwnerReference → GoMap Text → Option OwnerInfo
unfolding deployment_name_from_replica_set
owner_of_ref ref labels =
    if not ref.controller
    then none
    else if beq ref.kind (lit "StatefulSet")
    then some (record { name = ref.name; kind = lit "StatefulSet" })
    else if beq ref.kind (lit "Sandbox")
    then some (record { name = ref.name; kind = lit "Sandbox" })
    else if beq ref.kind (lit "ReplicaSet")
    then some (of_replica_set ref.name (deployment_name_from_replica_set ref.name labels))
    else none

unfoldable pub owner_of_refs : List OwnerReference → GoMap Text → Option OwnerInfo
unfolding owner_of_ref
owner_of_refs [] labels = none
owner_of_refs (ref ∷ refs) labels = elim (owner_of_ref ref labels) [
  | some owner ↦ some owner
  | none ↦ owner_of_refs refs labels
]

-- What follows the loop
unfoldable pub owner_of_names : Pod → OwnerInfo
unfolding trim_dashes deployment_name_from_replica_set
owner_of_names pod =
    if is_empty pod.generate_name
    then record { name = pod.name; kind = [] }
    else let rs_name = trim_dashes pod.generate_name in
      of_replica_set rs_name (deployment_name_from_replica_set rs_name pod.labels)

-- ResolveOwner
unfoldable pub resolve_owner : Pod → OwnerInfo
unfolding owner_of_refs owner_of_names
resolve_owner pod = elim (owner_of_refs pod.owner_references pod.labels) [
  | some owner ↦ owner
  | none ↦ owner_of_names pod
]

-- A name in front of the last dash, where it is not empty.
abbrev is_stem : Text → Option Text → Bool
is_stem workload_name none = false
is_stem workload_name (some before) = not (is_empty before) && beq before workload_name

unfoldable pub ref_owns : OwnerReference → Text → Bool
unfolding before_last_dash
ref_owns ref workload_name =
    if not ref.controller
    then false
    else if beq ref.kind (lit "ReplicaSet")
    then is_stem workload_name (before_last_dash ref.name)
    else if beq ref.kind (lit "StatefulSet") || beq ref.kind (lit "Sandbox")
    then beq ref.name workload_name
    else false

-- IsPodOwnedBy
unfoldable pub is_pod_owned_by : List OwnerReference → Text → Bool
unfolding ref_owns
is_pod_owned_by [] workload_name = false
is_pod_owned_by (ref ∷ refs) workload_name =
    ref_owns ref workload_name || is_pod_owned_by refs workload_name
