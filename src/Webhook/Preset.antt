-- ===== src/Webhook/Preset.antt =====
-- operator/internal/webhook/injector/preset_pipeline.go. The pipeline that is returned is a record of the
-- plugins of its two chains; the one that is given, `none` where it is nil, is as it was decoded. The texts
-- of errors and of the warning are left out, and `strings.TrimSpace` is that for ASCII.
pub mod Policies
pub mod Chains
use kagenti_operator.Prelude.{
  ℕ, ◌+◌, Bool, true, false, not, ◌&&◌, ◌||◌, Text, lit, beq, is_empty, Option, none, some, is_some,
  List, [], ◌∷◌, ◌++◌, ◌==◌, ◌⊎◌, inl, inr, if◌then◌else◌,
}
use kagenti_operator.GoMap
use kagenti_operator.GoMap.{GoMap, has}
use kagenti_operator.BundleService.SpiffeId.{cut}
use kagenti_operator.Webhook.BaseConfigs.{index_pipeline_configs}
use kagenti_operator.Webhook.Values.{
  Value, null, text, number, boolean, object, array, Fields, Items, no_items, item, field_of,
  as_map, deep_copy_map,
}

abbrev pub token_exchange : Text
token_exchange = lit "token-exchange"

abbrev pub token_broker : Text
token_broker = lit "token-broker"

abbrev pub ibac_plugin : Text
ibac_plugin = lit "ibac"

abbrev pub enforce : Text
enforce = lit "enforce"

abbrev pub observe : Text
observe = lit "observe"

abbrev pub off : Text
off = lit "off"

abbrev pub inbound_order : List Text
inbound_order = lit "a2a-parser" ∷ lit "jwt-validation" ∷ []

abbrev pub outbound_order : List Text
outbound_order =
    token_exchange ∷ token_broker ∷ lit "inference-parser" ∷ lit "mcp-parser" ∷ ibac_plugin ∷ []

abbrev pub preset_membership : GoMap (List Text)
preset_membership =
    (lit "auth-only", lit "jwt-validation" ∷ token_exchange ∷ [])
    ∷ (
      lit "ibac-only",
      lit "a2a-parser" ∷ lit "inference-parser" ∷ lit "mcp-parser" ∷ ibac_plugin ∷ [],
    )
    ∷ (
      lit "full",
      lit "a2a-parser"
          ∷ lit "jwt-validation"
          ∷ token_exchange
          ∷ lit "inference-parser"
          ∷ lit "mcp-parser"
          ∷ ibac_plugin
          ∷ [],
    )
    ∷ []

abbrev pub is_supported : Text → Bool
is_supported policy = beq policy enforce || (beq policy observe || beq policy off)

-- config.IBACConfig; a negative time counts as zero.
pub record IbacConfig : Type 0 where
  pub judge_endpoint : Text
  pub judge_model : Text
  pub timeout_ms : ℕ
  pub agent_llm_host : Text
  pub judge_bearer : Text

pub data PresetError : Type 0 where
  unknown_preset : Text → PresetError
  invalid_on_error : Text → PresetError
  empty_token : PresetError
  empty_name : Text → PresetError
  invalid_policy : (policy token : Text) → PresetError
  unknown_plugin : (name token : Text) → PresetError
  both_selected : PresetError

-- The plugin's entry in a chain: its name, and where they are written its config and on_error.
pub record Entry : Type 0 where
  pub name : Text
  pub config : Option (GoMap Value)
  pub on_error : Option Text

pub record Pipeline : Type 0 where
  pub inbound : List Entry
  pub outbound : List Entry

abbrev is_space : ℕ → Bool
is_space c = c == 32 || (c == 9 || (c == 10 || (c == 11 || (c == 12 || c == 13))))

unfoldable pub trim_left : Text → Text
trim_left [] = []
trim_left (c ∷ s) = if is_space c then trim_left s else c ∷ s

unfoldable pub trim_right : Text → Text
trim_right [] = []
trim_right (c ∷ s) = let rest = trim_right s in if is_space c && is_empty rest then [] else c ∷ rest

-- strings.TrimSpace
unfoldable pub trim_space : Text → Text
unfolding trim_left trim_right
trim_space s = trim_right (trim_left s)

-- The name and the policy of a token that is not empty.
unfoldable pub name_and_policy : Text → Text × Text
unfolding cut trim_space
name_and_policy tok = elim (cut b':' tok) [
  | none ↦ (tok, enforce)
  | some (before, behind) ↦ (trim_space before, trim_space behind)
]

abbrev checked : Text → Text × Text → PresetError ⊎ (Text × Text)
checked tok (name, policy) =
    if is_empty name
    then inl (empty_name tok)
    else if is_supported policy
    then inr (name, policy)
    else inl (invalid_policy policy tok)

-- parsePluginPolicyToken
unfoldable pub parse_plugin_policy_token : Text → PresetError ⊎ (Text × Text)
unfolding trim_space name_and_policy
parse_plugin_policy_token token =
    let tok = trim_space token in
    if is_empty tok then inl empty_token else checked tok (name_and_policy tok)

-- for _, name := range names { resolved[name] = policy }
unfoldable pub set_policies : List Text → Text → GoMap Text → GoMap Text
set_policies [] policy resolved = resolved
set_policies (name ∷ names) policy resolved =
    set_policies names policy (GoMap.put resolved name policy)

-- Step 1: every plugin is off, the members of the preset have the policy of the chain.
abbrev pub seeded : List Text → Text → GoMap Text
seeded members member_policy =
    set_policies members member_policy
      (set_policies outbound_order off (set_policies inbound_order off []))

abbrev pub member_policy_of : (chain_default : Text) → Text
member_policy_of chain_default = if is_empty chain_default then enforce else chain_default

-- Step 2
unfoldable pub apply_overrides : List Text → GoMap Text → PresetError ⊎ GoMap Text
unfolding parse_plugin_policy_token
apply_overrides [] resolved = inr resolved
apply_overrides (tok ∷ toks) resolved = elim (parse_plugin_policy_token tok) [
  | inl err ↦ inl err
  | inr (name, policy) ↦
      let rest = apply_overrides toks (GoMap.put resolved name policy) in
      if has resolved name then rest else inl (unknown_plugin name tok)
]

-- resolved[name], empty where it is missing
abbrev pub policy_in : GoMap Text → Text → Text
policy_in resolved name = elim (GoMap.get resolved name) [ none ↦ [] | some policy ↦ policy ]

abbrev pub is_active : GoMap Text → Text → Bool
is_active resolved name = not (beq (policy_in resolved name) off)

abbrev put_unless : Bool → Text → Value → GoMap Value → GoMap Value
put_unless omitted key v config = if omitted then config else GoMap.put config key v

-- The judge's configuration
unfoldable pub stamp_ibac : (prompt : Text) → IbacConfig → GoMap Value → GoMap Value
stamp_ibac prompt ibac c0 =
    let c1 =
      put_unless (is_empty ibac.judge_endpoint) (lit "judge_endpoint") (text ibac.judge_endpoint)
        c0 in
    let c2 =
      put_unless (is_empty ibac.judge_model) (lit "judge_model") (text ibac.judge_model) c1 in
    let c3 = put_unless (ibac.timeout_ms == 0) (lit "timeout_ms") (number ibac.timeout_ms) c2 in
    let c4 =
      put_unless (is_empty ibac.agent_llm_host) (lit "agent_llm_host") (text ibac.agent_llm_host)
        c3 in
    let c5 =
      put_unless (is_empty ibac.judge_bearer) (lit "judge_bearer") (text ibac.judge_bearer) c4 in
    GoMap.put (GoMap.put c5 (lit "judge_inference") (boolean false)) (lit "system_prompt")
      (text prompt)

abbrev pub on_error_of : (policy : Text) → Option Text
on_error_of policy = if beq policy enforce then none else some policy

abbrev nonempty : GoMap Value → Option (GoMap Value)
nonempty [] = none
nonempty (f ∷ fs) = some (f ∷ fs)

abbrev pub base_config : GoMap (GoMap Value) → Text → GoMap Value
base_config base_cfg name = elim (GoMap.get base_cfg name) [ none ↦ [] | some config ↦ config ]

-- `prompt` is the text of ibacSystemPrompt.
module _ (prompt : Text) (ibac : IbacConfig) (base_cfg : GoMap (GoMap Value))
    (resolved : GoMap Text) where
  unfoldable pub preset_entry : Text → Entry
  unfolding stamp_ibac
  preset_entry name = record {
    name = name;
    config = nonempty (
        if beq name ibac_plugin && is_active resolved name
        then stamp_ibac prompt ibac (base_config base_cfg name)
        else base_config base_cfg name);
    on_error = on_error_of (policy_in resolved name);
  }

  -- buildPresetEntries
  unfoldable pub build_preset_entries : (order : List Text) → List Entry
  unfolding preset_entry
  build_preset_entries [] = []
  build_preset_entries (name ∷ order) = preset_entry name ∷ build_preset_entries order

-- Whether there is a warning
abbrev pub judge_missing : IbacConfig → GoMap Text → Bool
judge_missing ibac resolved = is_active resolved ibac_plugin && is_empty ibac.judge_endpoint

abbrev pub rendered :
    Text → IbacConfig → Option Fields → GoMap Text → PresetError ⊎ (Pipeline × Bool)
rendered prompt ibac base resolved =
    if is_active resolved token_exchange && is_active resolved token_broker
    then inl both_selected
    else let base_cfg = index_pipeline_configs base in
      inr (
        record {
          inbound = build_preset_entries prompt ibac base_cfg resolved inbound_order;
          outbound = build_preset_entries prompt ibac base_cfg resolved outbound_order;
        },
        judge_missing ibac resolved,
      )

-- The pipeline and whether there is a warning, or an error.
unfoldable pub synthesize_preset_pipeline :
    (prompt : Text)
    → Option Fields
    → (preset : Text) → (overrides : List Text) → (chain_default : Text) → IbacConfig
    → PresetError ⊎ (Pipeline × Bool)
unfolding set_policies apply_overrides index_pipeline_configs build_preset_entries
synthesize_preset_pipeline prompt base preset overrides chain_default ibac =
    elim (GoMap.get preset_membership preset) [
      | none ↦ inl (unknown_preset preset)
      | some members ↦
          if not (is_empty chain_default) && not (is_supported chain_default)
          then inl (invalid_on_error chain_default)
          else elim (apply_overrides overrides (seeded members (member_policy_of chain_default))) [
            | inl err ↦ inl err
            | inr resolved ↦ rendered prompt ibac base resolved
          ]
    ]
