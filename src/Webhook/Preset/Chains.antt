-- ===== src/Webhook/Preset/Chains.antt =====
-- preset_pipeline.go: the two chains, and when there is an error.
use kagenti_operator.Prelude.{
  result-cases, ◌≡◌, ◌↔◌, ◌⊎◌, inl, inr, refl, ◌∙◌, Bool, true, false, not, ◌&&◌, Text, lit, beq,
  beq_iff, is_empty, Option, none, some, Option-cases, Bool-cases, List, [], ◌∷◌, map,
  if◌then◌else◌, arith,
}
use kagenti_operator.GoMap
use kagenti_operator.GoMap.{GoMap, has}
use kagenti_operator.Webhook.BaseConfigs.{index_pipeline_configs}
use kagenti_operator.Webhook.Values.{Value, Fields}
use kagenti_operator.Webhook.Preset.{
  token_exchange, token_broker, off, inbound_order, outbound_order, preset_membership, is_supported,
  IbacConfig, PresetError, Entry, Pipeline, set_policies, seeded, member_policy_of, apply_overrides,
  policy_in, is_active, preset_entry, build_preset_entries, judge_missing, rendered,
  synthesize_preset_pipeline,
}
use kagenti_operator.Webhook.Preset.Policies.{
  mem, inbound_plugin_names, outbound_plugin_names, chain_policy, written, expected_policy,
  is_plugin, AllOverrides, get-set_policies, get-apply_overrides, apply_overrides_iff,
}

member_policy_of-chain_policy :
    (chain_default : Text) → member_policy_of chain_default ≡ chain_policy chain_default
member_policy_of-chain_policy [] = refl
member_policy_of-chain_policy (c ∷ s) = refl

-- A member of a preset is a plugin.
member_is_plugin :
    (preset n : Text) (members : List Text)
    → GoMap.get preset_membership preset ≡ some members
    → mem n members ≡ true
    → is_plugin n ≡ true
unfolding GoMap.get mem
member_is_plugin preset n members h m = elim (Bool-cases (beq (lit "auth-only") preset)) [
  | inl a ↦ ground arith
  | inr a ↦ elim (Bool-cases (beq (lit "ibac-only") preset)) [
    | inl b ↦ ground arith
    | inr b ↦ elim (Bool-cases (beq (lit "full") preset)) [
      | inl c ↦ ground arith
      | inr c ↦ absurd (ground arith)
    ]
  ]
]

get-seeded :
    (members : List Text) (v n : Text)
    → GoMap.get (seeded members v) n ≡ (
        if mem n members
        then some v
        else if mem n outbound_order
        then some off
        else if mem n inbound_order
        then some off
        else none)
unfolding GoMap.get
get-seeded members v n =
    get-set_policies members v _ n
    ∙ rw
        (
          get-set_policies outbound_order off (set_policies inbound_order off []) n,
          get-set_policies inbound_order off [] n,
        )
        refl

module _ (preset : Text) (members : List Text)
    (listed : GoMap.get preset_membership preset ≡ some members) (chain_default : Text) where
  seeded_plugins :
      (n : Text) → has (seeded members (member_policy_of chain_default)) n ≡ is_plugin n
  seeded_plugins n = ground (
    arith,
    get-seeded members (member_policy_of chain_default) n,
    member_is_plugin preset n members listed,
  )

  resolved_policy :
      (overrides : List Text) (resolved : GoMap Text) (n : Text)
      → apply_overrides overrides (seeded members (member_policy_of chain_default)) ≡ inr resolved
      → is_plugin n ≡ true
      → policy_in resolved n ≡ expected_policy members chain_default overrides n
  resolved_policy overrides resolved n h plugin = ground (
    arith,
    get-apply_overrides overrides (seeded members (member_policy_of chain_default)) resolved n h,
    get-seeded members (member_policy_of chain_default) n,
    member_policy_of-chain_policy chain_default,
  )

-- A plugin with what its entry writes of its policy.
abbrev pub policy_written : Entry → Text × Option Text
policy_written e = (e.name, e.on_error)

abbrev pub as_expected :
    List Text → (chain_default : Text) → (overrides : List Text) → Text → Text × Option Text
as_expected members chain_default overrides name =
    (name, written (expected_policy members chain_default overrides name))

-- The policy that the chain takes by default is one of the three, where there is one.
abbrev pub IsChainDefault : Text → Type 0
IsChainDefault chain_default = (chain_default ≡ []) ⊎ (is_supported chain_default ≡ true)

abbrev AllPlugins : List Text → Type 0
AllPlugins [] = Unit {0}
AllPlugins (n ∷ l) = (is_plugin n ≡ true) × AllPlugins l

default_cases :
    (chain_default : Text)
    → ((not (is_empty chain_default) && not (is_supported chain_default)) ≡ false)
      ↔ IsChainDefault chain_default
default_cases [] = (λ h. inl refl, λ h. refl)
default_cases (c ∷ s) = ground arith

module _ (prompt : Text) (base : Option Fields) (preset : Text) (overrides : List Text)
    (chain_default : Text) (ibac : IbacConfig) where
  abbrev Made : PresetError ⊎ (Pipeline × Bool)
  Made = synthesize_preset_pipeline prompt base preset overrides chain_default ibac

  -- What a pipeline is made of.
  made_inv :
      (p : Pipeline) (w : Bool)
      → Made ≡ inr (p, w)
      → (members : List Text) × (resolved : GoMap Text) × (GoMap.get preset_membership preset
          ≡ some members)
        × IsChainDefault chain_default
        × (apply_overrides overrides (seeded members (member_policy_of chain_default))
            ≡ inr resolved)
        × (rendered prompt ibac base resolved ≡ inr (p, w))
  unfolding synthesize_preset_pipeline
  made_inv p w h = elim (Option-cases (GoMap.get preset_membership preset)) [
    | inl e ↦ absurd (ground arith)
    | inr (members, e) ↦
        elim (Bool-cases (not (is_empty chain_default) && not (is_supported chain_default))) [
          | inl bad ↦ absurd (ground arith)
          | inr good ↦
              elim (result-cases
                (apply_overrides overrides (seeded members (member_policy_of chain_default)))) [
                  | inl (err, e') ↦ absurd (ground arith)
                  | inr (resolved, e') ↦
                      (members, resolved, e, (default_cases chain_default).0 good, e', ground arith)
                ]
        ]
  ]

  entries_lem :
      (members : List Text) (listed : GoMap.get preset_membership preset ≡ some members)
      (resolved : GoMap Text)
      → apply_overrides overrides (seeded members (member_policy_of chain_default)) ≡ inr resolved
      → (base_cfg : GoMap (GoMap Value)) (order : List Text) → AllPlugins order
      → map policy_written (build_preset_entries prompt ibac base_cfg resolved order)
        ≡ map (as_expected members chain_default overrides) order
  unfolding build_preset_entries preset_entry
  entries_lem members listed resolved h base_cfg [] k = refl
  entries_lem members listed resolved h base_cfg (n ∷ order) k =
      rw
        (
          resolved_policy preset members listed chain_default overrides resolved n h k.0,
          entries_lem members listed resolved h base_cfg order k.1,
        )
        refl

  inbound_plugins : AllPlugins inbound_order
  unfolding mem beq
  inbound_plugins = (refl, (refl, tt))

  outbound_plugins : AllPlugins outbound_order
  unfolding mem beq
  outbound_plugins = (refl, (refl, (refl, (refl, (refl, tt)))))

  -- In the pipeline that is made the inbound chain has the entries a2a-parser and jwt-validation, and the
  -- outbound chain token-exchange, token-broker, inference-parser, mcp-parser and ibac, in this order. The
  -- on_error of each is that of the last token for it, else, for a member of the preset, that of
  -- spec.onError, or "enforce" where that is empty, else "off"; it is not written where it is "enforce".
  pub synthesized_policies :
      (p : Pipeline) (w : Bool)
      → Made ≡ inr (p, w)
      → (members : List Text) × (GoMap.get preset_membership preset ≡ some members)
        × (map policy_written p.inbound
            ≡ map (as_expected members chain_default overrides) inbound_plugin_names)
        × (map policy_written p.outbound
            ≡ map (as_expected members chain_default overrides) outbound_plugin_names)
  synthesized_policies p w h =
      let (members, resolved, listed, good, applied, made) = made_inv p w h in
      let base_cfg = index_pipeline_configs base in
      let entries = entries_lem members listed resolved applied base_cfg in
      elim (Bool-cases (is_active resolved token_exchange && is_active resolved token_broker)) [
        | inl both ↦ absurd (ground arith)
        | inr apart ↦
            let inb : build_preset_entries prompt ibac base_cfg resolved inbound_order ≡ p.inbound =
              ground arith in
            let outb : build_preset_entries prompt ibac base_cfg resolved outbound_order
                ≡ p.outbound =
              ground arith in
            (
              members,
              listed,
              rw (← inb) (entries inbound_order inbound_plugins),
              rw (← outb) (entries outbound_order outbound_plugins),
            )
      ]

  -- The inputs of which a pipeline is made.
  abbrev pub Makeable : Type 0
  Makeable =
      (members : List Text) × (GoMap.get preset_membership preset ≡ some members)
      × IsChainDefault chain_default
      × AllOverrides overrides
      × ((expected_policy members chain_default overrides (lit "token-exchange") ≡ lit "off")
          ⊎ (expected_policy members chain_default overrides (lit "token-broker") ≡ lit "off"))

  -- A pipeline is made exactly if the preset is known, the chain's policy is empty or one of the three,
  -- every token parses and names a plugin, and token-exchange or token-broker is off.
  pub synthesize_iff : ((p : Pipeline) × (w : Bool) × (Made ≡ inr (p, w))) ↔ Makeable
  unfolding synthesize_preset_pipeline
  synthesize_iff = (there, back)
    where
      there : (p : Pipeline) × (w : Bool) × (Made ≡ inr (p, w)) → Makeable
      there (p, w, h) =
          let (members, resolved, listed, good, applied, made) = made_inv p w h in
          let all =
            (apply_overrides_iff overrides _ (seeded_plugins preset members listed chain_default)).0
              (resolved, applied) in
          let te =
            resolved_policy preset members listed chain_default overrides resolved token_exchange
              applied outbound_plugins.0 in
          let tb =
            resolved_policy preset members listed chain_default overrides resolved token_broker
              applied outbound_plugins.1.0 in
          (
            members,
            listed,
            good,
            all,
            elim (Bool-cases (is_active resolved token_exchange)) [
              | inr none_te ↦ inl (ground (arith, beq_iff (policy_in resolved token_exchange) off))
              | inl yes_te ↦ elim (Bool-cases (is_active resolved token_broker)) [
                | inr none_tb ↦ inr (ground (arith, beq_iff (policy_in resolved token_broker) off))
                | inl yes_tb ↦ absurd (ground arith)
              ]
            ],
          )

      back : Makeable → (p : Pipeline) × (w : Bool) × (Made ≡ inr (p, w))
      back (members, listed, good, all, apart) =
          let (resolved, applied) =
            (apply_overrides_iff overrides _ (seeded_plugins preset members listed chain_default)).1
              all in
          let te =
            resolved_policy preset members listed chain_default overrides resolved token_exchange
              applied outbound_plugins.0 in
          let tb =
            resolved_policy preset members listed chain_default overrides resolved token_broker
              applied outbound_plugins.1.0 in
          let free : (is_active resolved token_exchange && is_active resolved token_broker)
              ≡ false =
            elim apart [
              | inl e ↦ rw ((beq_iff (policy_in resolved token_exchange) off).1 (te ∙ e)) refl
              | inr e ↦
                  rw ((beq_iff (policy_in resolved token_broker) off).1 (tb ∙ e)) (ground arith)
            ] in
          let base_cfg = index_pipeline_configs base in
          (
            record {
              inbound = build_preset_entries prompt ibac base_cfg resolved inbound_order;
              outbound = build_preset_entries prompt ibac base_cfg resolved outbound_order;
            },
            judge_missing ibac resolved,
            rw (listed, synthesize_preset_pipeline)
                (rw ((default_cases chain_default).1 good) (rw applied (rw free refl))),
          )
