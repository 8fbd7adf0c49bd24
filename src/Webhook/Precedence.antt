-- ===== src/Webhook/Precedence.antt =====
-- operator/internal/webhook/injector/precedence.go and injection_decision.go.
use kagenti_operator.Prelude.{
  ◌≡◌, ◌↔◌, ◌⊎◌, Bool, true, false, not, ◌||◌, Text, lit, beq, beq_iff, ◌++◌, if◌then◌else◌, arith,
}
use kagenti_operator.GoMap.{GoMap}
use kagenti_operator.Workload.ClientReg.{label}

pub record SidecarDecision : Type 0 where
  pub inject : Bool
  pub reason : Text
  pub layer : Text

pub record InjectionDecision : Type 0 where
  pub envoy_proxy : SidecarDecision
  pub proxy_init : SidecarDecision
  pub spiffe_helper : SidecarDecision

abbrev pub any_injected : InjectionDecision → Bool
any_injected d = d.envoy_proxy.inject || d.spiffe_helper.inject

abbrev refused : (reason layer : Text) → SidecarDecision
refused reason layer = record { inject = false; reason = reason; layer = layer }

abbrev passed : SidecarDecision
passed = record { inject = true; reason = lit "all gates passed"; layer = lit "default" }

unfoldable pub evaluate_spiffe_helper : (workload_label_value : Text) → SidecarDecision
evaluate_spiffe_helper value =
    if beq value (lit "false")
    then refused (lit "workload label disabled spiffe-helper") (lit "workload-label")
    else passed

unfoldable pub evaluate_sidecar :
    (sidecar_name : Text)
    → (feature_gate_enabled : Bool) → (workload_label_value : Text) → SidecarDecision
evaluate_sidecar sidecar_name feature_gate_enabled value =
    if not feature_gate_enabled
    then refused (sidecar_name ++ lit " feature gate disabled") (lit "feature-gate")
    else if beq value (lit "false")
    then refused (lit "workload label disabled " ++ sidecar_name) (lit "workload-label")
    else passed

abbrev label_envoy_proxy_inject : Text
label_envoy_proxy_inject = lit "rossoctl.io/envoy-proxy-inject"

abbrev label_spiffe_helper_inject : Text
label_spiffe_helper_inject = lit "rossoctl.io/spiffe-helper-inject"

-- Evaluate, of the gate `featureGates.EnvoyProxy`
unfoldable pub evaluate : (envoy_gate : Bool) → (workload_labels : GoMap Text) → InjectionDecision
unfolding evaluate_sidecar evaluate_spiffe_helper
evaluate envoy_gate labels =
    let envoy =
      evaluate_sidecar (lit "envoy-proxy") envoy_gate (label labels label_envoy_proxy_inject) in
    record {
      envoy_proxy = envoy;
      proxy_init = record {
        inject = envoy.inject;
        reason = lit "follows envoy-proxy decision";
        layer = envoy.layer;
      };
      spiffe_helper = evaluate_spiffe_helper (label labels label_spiffe_helper_inject);
    }

-- Something is injected unless the workload's labels refuse both, or its label refuses the SPIFFE helper
-- and the cluster's gate the proxy.
pub any_injected_iff :
    (envoy_gate : Bool) (labels : GoMap Text)
    → (any_injected (evaluate envoy_gate labels) ≡ false) ↔ (
        (label labels label_spiffe_helper_inject ≡ lit "false")
        × ((envoy_gate ≡ false) ⊎ (label labels label_envoy_proxy_inject ≡ lit "false")))
unfolding evaluate evaluate_sidecar evaluate_spiffe_helper
any_injected_iff envoy_gate labels = ground (
  arith,
  beq_iff (label labels label_spiffe_helper_inject) (lit "false"),
  beq_iff (label labels label_envoy_proxy_inject) (lit "false"),
)
