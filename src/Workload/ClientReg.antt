-- ===== src/Workload/ClientReg.antt =====
-- operator/internal/clientreg/names.go. SHA-256 is the parameter `digest_hex`, which gives the first eight
-- bytes in hexadecimal.
use kagenti_operator.Prelude.{
  ◌≡◌, ◌↔◌, ◌⊎◌, inl, inr, refl, beq_iff, arith, Bool, true, not, Text, lit, beq, is_empty, Option,
  none, some, [], ◌∷◌, ◌++◌, if◌then◌else◌,
}
use kagenti_operator.GoMap
use kagenti_operator.GoMap.{GoMap}

abbrev label_agent_type : Text
label_agent_type = lit "rossoctl.io/type"

-- The text that is hashed.
abbrev pub secret_input : (namespace workload : Text) → Text
secret_input namespace workload =
    namespace ++ 0 ∷ (workload ++ 0 ∷ lit "rossoctl-keycloak-client-credentials")

-- KeycloakClientCredentialsSecretName
unfoldable pub secret_name : (digest_hex : Text → Text) → (namespace workload : Text) → Text
secret_name digest_hex namespace workload =
    lit "rossoctl-keycloak-client-credentials-" ++ digest_hex (secret_input namespace workload)

-- labels[key], empty where it is missing
abbrev pub label : GoMap Text → Text → Text
label labels key = elim (GoMap.get labels key) [ none ↦ [] | some v ↦ v ]

-- SkipReason, where `quote` is the verb %q; `none` is a nil map
unfoldable pub skip_reason :
    (quote : Text → Text) → (labels : Option (GoMap Text)) → (inject_tools : Bool) → Text
skip_reason quote none inject_tools = lit "pod template has no labels"
skip_reason quote (some labels) inject_tools =
    let t = label labels label_agent_type in
    if beq t (lit "agent")
    then []
    else if beq t (lit "tool")
    then (if not inject_tools
        then lit "rossoctl.io/type is tool but cluster injectTools feature gate is disabled"
        else [])
    else if is_empty t
    then lit "rossoctl.io/type label is missing or not agent/tool"
    else lit "rossoctl.io/type=" ++ (quote t ++ lit " is not agent or tool")

-- WorkloadWantsOperatorClientReg
abbrev pub wants_operator_client_reg :
    (quote : Text → Text) → (labels : Option (GoMap Text)) → (inject_tools : Bool) → Bool
wants_operator_client_reg quote labels inject_tools =
    is_empty (skip_reason quote labels inject_tools)

-- A workload is registered exactly if its label says that it is an agent, or a tool where tools are
-- injected.
pub wants_operator_client_reg_iff :
    (quote : Text → Text) (labels : Option (GoMap Text)) (inject_tools : Bool)
    → (wants_operator_client_reg quote labels inject_tools ≡ true) ↔ (
        (m : GoMap Text) × (labels ≡ some m)
        × ((label m label_agent_type ≡ lit "agent")
            ⊎ ((label m label_agent_type ≡ lit "tool") × (inject_tools ≡ true))))
unfolding skip_reason
wants_operator_client_reg_iff quote none inject_tools =
    (λ h. absurd (ground arith), λ h. absurd (ground arith))
wants_operator_client_reg_iff quote (some m) inject_tools =
    let agent = beq_iff (label m label_agent_type) (lit "agent") in
    let tool = beq_iff (label m label_agent_type) (lit "tool") in
    (λ h. (m, refl, ground (arith, agent, tool)), λ h. back h.0 h.1 h.2 agent tool)
  where
    back :
        (m' : GoMap Text)
        → some m ≡ some m'
        → ((label m' label_agent_type ≡ lit "agent")
            ⊎ ((label m' label_agent_type ≡ lit "tool") × (inject_tools ≡ true)))
        → (beq (label m label_agent_type) (lit "agent") ≡ true)
          ↔ (label m label_agent_type ≡ lit "agent")
        → (beq (label m label_agent_type) (lit "tool") ≡ true)
          ↔ (label m label_agent_type ≡ lit "tool")
        → wants_operator_client_reg quote (some m) inject_tools ≡ true
    back m' e given agent tool =
        let same : m ≡ m' = ground arith in
        elim given [
          | inl a ↦ rw (agent.1 (rw (← same) at a)) refl
          | inr (t, i) ↦ rw (tool.1 (rw (← same) at t), i) (ground arith)
        ]
