-- ===== src/Webhook/Preset/Policies.antt =====
-- preset_pipeline.go: the policy that each plugin gets.
use kagenti_operator.Prelude.{
  result-cases, ◌≡◌, ◌↔◌, inl, inr, refl, sym, ◌∙◌, Bool, true, false, ◌||◌, Text, lit, beq,
  beq_iff, Option, none, some, Bool-cases, List, [], ◌∷◌, if◌then◌else◌, arith,
}
use kagenti_operator.GoMap
use kagenti_operator.GoMap.{GoMap, has, map_laws}
use kagenti_operator.Webhook.Preset.{parse_plugin_policy_token, set_policies, apply_overrides}

unfoldable pub mem : Text → List Text → Bool
mem name [] = false
mem name (n ∷ l) = beq n name || mem name l

-- What the last token for a plugin says.
unfoldable pub last_override : Text → List Text → Option Text
last_override name [] = none
last_override name (tok ∷ toks) =
    let rest = last_override name toks in
    elim rest [
      | some policy ↦ some policy
      | none ↦ elim (parse_plugin_policy_token tok) [
        | inl err ↦ none
        | inr (n, policy) ↦ if beq n name then some policy else none
      ]
    ]

-- The plugins of the two chains, in their order.
abbrev pub inbound_plugin_names : List Text
inbound_plugin_names = lit "a2a-parser" ∷ lit "jwt-validation" ∷ []

abbrev pub outbound_plugin_names : List Text
outbound_plugin_names =
    lit "token-exchange"
    ∷ lit "token-broker"
    ∷ lit "inference-parser"
    ∷ lit "mcp-parser"
    ∷ lit "ibac"
    ∷ []

-- What spec.onError says of the members of the preset; an empty one says "enforce".
abbrev pub chain_policy : Text → Text
chain_policy [] = lit "enforce"
chain_policy (c ∷ s) = c ∷ s

-- What an entry writes of its policy.
abbrev pub written : Text → Option Text
written policy = if beq policy (lit "enforce") then none else some policy

-- The policy of a plugin: that of the last token for it, else that of the chain for a member of the
-- preset, else off.
abbrev pub expected_policy :
    (members : List Text) → (chain_default : Text) → (overrides : List Text) → Text → Text
expected_policy members chain_default overrides name = elim (last_override name overrides) [
  | some policy ↦ policy
  | none ↦ if mem name members then chain_policy chain_default else lit "off"
]

abbrev pub is_plugin : Text → Bool
is_plugin name = mem name inbound_plugin_names || mem name outbound_plugin_names

-- A token that parses and names a plugin.
abbrev pub IsOverride : Text → Type 0
IsOverride tok =
    (name : Text) × (policy : Text) × (parse_plugin_policy_token tok ≡ inr (name, policy))
    × (is_plugin name ≡ true)

abbrev pub AllOverrides : List Text → Type 0
AllOverrides [] = Unit {0}
AllOverrides (tok ∷ toks) = IsOverride tok × AllOverrides toks

pub get-set_policies :
    (names : List Text) (v : Text) (r : GoMap Text) (n : Text)
    → GoMap.get (set_policies names v r) n ≡ (if mem n names then some v else GoMap.get r n)
unfolding set_policies mem
get-set_policies [] v r n = refl
get-set_policies (m ∷ names) v r n =
    ground (arith, get-set_policies names v (GoMap.put r m v) n, GoMap.get-put r m v n)

-- The overrides, one plugin at a time.
pub get-apply_overrides :
    (toks : List Text) (r r' : GoMap Text) (n : Text)
    → apply_overrides toks r ≡ inr r'
    → GoMap.get r' n
      ≡ elim (last_override n toks) [ some policy ↦ some policy | none ↦ GoMap.get r n ]
unfolding apply_overrides last_override
get-apply_overrides [] r r' n h = ground arith
get-apply_overrides (tok ∷ toks) r r' n h = elim (result-cases (parse_plugin_policy_token tok)) [
  | inl (err, e) ↦ absurd (ground arith)
  | inr ((name, policy), e) ↦ ground (
    arith,
    get-apply_overrides toks (GoMap.put r name policy) r' n,
    GoMap.get-put r name policy n,
  )
]

has-put :
    (r : GoMap Text) (name policy n : Text)
    → has r name ≡ true
    → has (GoMap.put r name policy) n ≡ has r n
has-put r name policy n h = ground (arith, GoMap.get-put r name policy n, beq_iff name n)

-- The overrides are applied exactly if every token parses and names a plugin.
pub apply_overrides_iff :
    (toks : List Text) (r : GoMap Text)
    → ((n : Text) → has r n ≡ is_plugin n)
    → ((r' : GoMap Text) × (apply_overrides toks r ≡ inr r')) ↔ AllOverrides toks
unfolding apply_overrides
apply_overrides_iff [] r k = (λ h. tt, λ h. (r, refl))
apply_overrides_iff (tok ∷ toks) r k = elim (result-cases (parse_plugin_policy_token tok)) [
  | inl (err, e) ↦ (λ h. absurd (ground arith), λ h. absurd (ground arith))
  | inr ((name, policy), e) ↦ elim (Bool-cases (has r name)) [
    | inr unknown ↦ (λ h. absurd (ground arith), λ h. absurd (ground (arith, k name)))
    | inl known ↦
        let (there, back) =
          apply_overrides_iff toks (GoMap.put r name policy)
            (λ n. has-put r name policy n known ∙ k n) in
        (
          λ h. ((name, policy, e, sym (k name) ∙ known), there (h.0, (ground arith))),
          λ h. let (r', e') = back h.1 in (r', rw (e, apply_overrides) (rw known e')),
        )
  ]
]
