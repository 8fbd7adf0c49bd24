-- ===== src/Examples/Webhooks.antt =====
-- The presets of the webhook, the owners of pods and the tokens of Keycloak's administrator
-- (operator/internal) on concrete inputs.
use kagenti_operator.Prelude.{
  ℕ, ◌+◌, ◌<◌, ◌≡◌, ◌↔◌, ◌⊎◌, inr, refl, Bool, true, false, Text, lit, beq, is_empty, Option, none,
  some, List, [], ◌∷◌, map,
}
use kagenti_operator.GoMap
use kagenti_operator.GoMap.{GoMap}
use kagenti_operator.BundleService.SpiffeId.{lacks}
use kagenti_operator.Webhook.Preset
use kagenti_operator.Webhook.Preset.{
  IbacConfig, Pipeline, synthesize_preset_pipeline, build_preset_entries, inbound_order,
  outbound_order, enforce, observe, off, preset_membership,
}
use kagenti_operator.Webhook.Preset.Policies.{inbound_plugin_names, outbound_plugin_names}
use kagenti_operator.Webhook.Preset.Chains.{
  policy_written, as_expected, Makeable, synthesized_policies, synthesize_iff,
}
use kagenti_operator.Webhook.Credentials.{
  PodSpec, needs_volume_patch, apply_secret_volumes, apply_settles,
}
use kagenti_operator.Workload.Owner.{Pod, resolve_owner, is_pod_owned_by}
use kagenti_operator.Workload.Owner.Agreement.{has_workload_ref, resolved_owner_owns}
use kagenti_operator.Keycloak.AdminTokens.{
  Call, Made, key_of_call, admin_token_cache_key, token, token_cache_skew, entries_after,
  token_served,
}

-- The preset auth-only with the judge observing.
abbrev overrides : List Text
overrides = lit " ibac : observe " ∷ []

abbrev ibac : IbacConfig
ibac = record {
  judge_endpoint = lit "http://judge";
  judge_model = [];
  timeout_ms = 0;
  agent_llm_host = [];
  judge_bearer = [];
}

abbrev prompt : Text
prompt = lit "allow"

abbrev resolved : GoMap Text
resolved =
    (lit "a2a-parser", off)
    ∷ (lit "jwt-validation", enforce)
    ∷ (lit "token-exchange", enforce)
    ∷ (lit "token-broker", off)
    ∷ (lit "inference-parser", off)
    ∷ (lit "mcp-parser", off)
    ∷ (lit "ibac", observe)
    ∷ []

abbrev pipeline : Pipeline
pipeline = record {
  inbound = build_preset_entries prompt ibac [] resolved inbound_order;
  outbound = build_preset_entries prompt ibac [] resolved outbound_order;
}

made :
    synthesize_preset_pipeline prompt none (lit "auth-only") overrides [] ibac
    ≡ inr (pipeline, false)
unfolding synthesize_preset_pipeline GoMap.get beq GoMap.put
made = refl

synthesized_policies_example :
    (members : List Text) × (GoMap.get preset_membership (lit "auth-only") ≡ some members)
    × (map policy_written pipeline.inbound
        ≡ map (as_expected members [] overrides) inbound_plugin_names)
    × (map policy_written pipeline.outbound
        ≡ map (as_expected members [] overrides) outbound_plugin_names)
synthesized_policies_example =
    synthesized_policies prompt none (lit "auth-only") overrides [] ibac pipeline false made

synthesize_iff_example :
    ((p : Pipeline) × (w : Bool) × (synthesize_preset_pipeline prompt none
          (lit "auth-only")
          overrides
          []
          ibac
        ≡ inr (p, w)))
    ↔ Makeable prompt none (lit "auth-only") overrides [] ibac
synthesize_iff_example = synthesize_iff prompt none (lit "auth-only") overrides [] ibac

-- A pod of the Deployment `web`.
abbrev pod : Pod
pod = record {
  owner_references =
      record { controller = true; kind = lit "ReplicaSet"; name = lit "web-5f4" } ∷ [];
  labels = (lit "pod-template-hash", lit "5f4") ∷ [];
  generate_name = lit "web-5f4-";
  name = lit "web-5f4-x";
}

pod_ref : has_workload_ref pod.owner_references ≡ true
unfolding has_workload_ref beq
pod_ref = refl

pod_kind : is_empty (resolve_owner pod).kind ≡ false
unfolding resolve_owner beq GoMap.get
pod_kind = refl

resolved_owner_owns_example : is_pod_owned_by pod.owner_references (resolve_owner pod).name ≡ true
unfolding GoMap.get beq lacks
resolved_owner_owns_example = resolved_owner_owns pod pod_ref refl pod_kind

-- A pod with one container that shares data.
abbrev sharing : PodSpec
sharing = record {
  volumes = [];
  containers =
      record {
        name = lit "agent";
        volume_mounts =
            record {
              name = lit "shared-data";
              mount_path = lit "/shared";
              sub_path = [];
              read_only = false;
            }
            ∷ [];
      }
      ∷ [];
}

abbrev annotations : GoMap Text
annotations = (lit "rossoctl.io/keycloak-client-credentials-secret-name", lit "credentials") ∷ []

apply_settles_example :
    ((needs_volume_patch sharing annotations ≡ false)
      ↔ (apply_secret_volumes sharing annotations ≡ sharing))
    × (apply_secret_volumes (apply_secret_volumes sharing annotations) annotations
        ≡ apply_secret_volumes sharing annotations)
apply_settles_example = apply_settles sharing annotations

-- A token that Keycloak has given for ten minutes.
abbrev first_call : Call
first_call = record {
  now = 5;
  base_url = lit "http://kc";
  username = lit "admin";
  answer = some (lit "t1", 600000000000);
}

-- A request to Keycloak that fails.
abbrev no_answer : Option (Text × ℕ)
no_answer = none

second_token :
    (token 6 (lit "http://kc/") (lit "admin") no_answer (entries_after (first_call ∷ []))).1
    ≡ some (lit "t1")
unfolding token GoMap.get entries_after GoMap.put beq admin_token_cache_key Preset.trim_space
second_token = refl

token_served_example :
    ((expires_at : ℕ) × (no_answer ≡ some (lit "t1", expires_at)))
    ⊎ ((c : Call) × (expires_at : ℕ) × Made c (first_call ∷ [])
        × (key_of_call c ≡ admin_token_cache_key (lit "http://kc/") (lit "admin"))
        × (c.answer ≡ some (lit "t1", expires_at))
        × (6 + token_cache_skew < expires_at))
token_served_example =
    token_served (first_call ∷ []) 6 (lit "http://kc/") (lit "admin") no_answer (lit "t1")
      second_token
