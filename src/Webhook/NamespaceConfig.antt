-- ===== src/Webhook/NamespaceConfig.antt =====
-- operator/internal/webhook/injector/namespace_config.go and resolved_config.go. `get_config_map` is the
-- request to the API server, `none` for an error; `decode` is `yaml.Unmarshal`, of which the texts at the
-- fields that are read are kept, empty where there are none, and `none` is an error.
use kagenti_operator.Prelude.{
  ◌≡◌, refl, Text, lit, is_empty, Option, none, some, [], if◌then◌else◌, false, arith, Bool-cases,
  inl, inr,
}
use kagenti_operator.GoMap.{GoMap}
use kagenti_operator.Workload.ClientReg.{label}

pub record NamespaceConfig : Type 0 where
  pub keycloak_url : Text
  pub keycloak_realm : Text
  pub platform_client_ids : Text
  pub token_url : Text
  pub issuer : Text
  pub expected_audience : Text
  pub target_audience : Text
  pub target_scopes : Text
  pub default_outbound_policy : Text
  pub client_auth_type : Text
  pub spiffe_idp_alias : Text
  pub jwt_audience : Text
  pub authproxy_routes_yaml : Text
  pub authbridge_runtime_yaml : Text

-- cm.Data[key], and nothing where the ConfigMap is not there
abbrev pub data_at : Option (GoMap Text) → Text → Text
data_at none key = []
data_at (some m) key = label m key

-- ReadNamespaceConfig
unfoldable pub read_namespace_config :
    (get_config_map : Text → Option (GoMap Text)) → NamespaceConfig
read_namespace_config get_config_map =
    let cm = get_config_map (lit "authbridge-config") in
    record {
      keycloak_url = data_at cm (lit "KEYCLOAK_URL");
      keycloak_realm = data_at cm (lit "KEYCLOAK_REALM");
      platform_client_ids = data_at cm (lit "PLATFORM_CLIENT_IDS");
      token_url = data_at cm (lit "TOKEN_URL");
      issuer = data_at cm (lit "ISSUER");
      expected_audience = data_at cm (lit "EXPECTED_AUDIENCE");
      target_audience = data_at cm (lit "TARGET_AUDIENCE");
      target_scopes = data_at cm (lit "TARGET_SCOPES");
      default_outbound_policy = data_at cm (lit "DEFAULT_OUTBOUND_POLICY");
      client_auth_type = data_at cm (lit "CLIENT_AUTH_TYPE");
      spiffe_idp_alias = data_at cm (lit "SPIFFE_IDP_ALIAS");
      jwt_audience = data_at cm (lit "JWT_AUDIENCE");
      authproxy_routes_yaml = data_at (get_config_map (lit "authproxy-routes")) (lit "routes.yaml");
      authbridge_runtime_yaml =
          data_at (get_config_map (lit "authbridge-runtime-config")) (lit "config.yaml");
    }

-- The fields of the YAML text that are read, each decoded by itself: a field of the wrong type is an error
-- for the function that reads it and for no other.
pub record Decoder : Type 0 where
  pub mode : Text → Option Text
  pub inbound_interception : Text → Option Text
  pub egress_enforcement : Text → Option Text
  pub mtls_mode : Text → Option Text
  pub tls_bridge_mode : Text → Option Text

abbrev yaml_text : (Text → Option Text) → Text → Text
yaml_text decode yaml = if is_empty yaml then [] else elim (decode yaml) [ none ↦ [] | some v ↦ v ]

module _ (d : Decoder) where
  abbrev pub extract_mode : Text → Text
  extract_mode yaml = yaml_text d.mode yaml

  abbrev pub extract_inbound_interception : Text → Text
  extract_inbound_interception yaml = yaml_text d.inbound_interception yaml

  abbrev pub extract_egress_enforcement : Text → Text
  extract_egress_enforcement yaml = yaml_text d.egress_enforcement yaml

  abbrev pub extract_mtls_mode : Text → Text
  extract_mtls_mode yaml = yaml_text d.mtls_mode yaml

  abbrev pub extract_tls_bridge_mode : Text → Text
  extract_tls_bridge_mode yaml = yaml_text d.tls_bridge_mode yaml

-- Of the platform's configuration, which is passed on as it is, only the trust domain is read.
pub record ResolvedConfig : Type 0 where
  pub keycloak_url : Text
  pub keycloak_realm : Text
  pub admin_credentials_secret_name : Text
  pub spiffe_trust_domain : Text
  pub platform_client_ids : Text
  pub token_url : Text
  pub issuer : Text
  pub expected_audience : Text
  pub target_audience : Text
  pub target_scopes : Text
  pub default_outbound_policy : Text
  pub client_auth_type : Text
  pub spiffe_idp_alias : Text
  pub authproxy_routes_yaml : Text
  pub authbridge_runtime_yaml : Text
  pub authbridge_mode : Text
  pub mtls_mode : Text
  pub tls_bridge_mode : Text

abbrev no_config : NamespaceConfig
no_config = read_namespace_config (λ name. none)

abbrev pub given_config : Option NamespaceConfig → NamespaceConfig
given_config none = no_config
given_config (some ns) = ns

-- ResolveConfig; `trust_domain` is `platform.Spiffe.TrustDomain`, of the compiled defaults where the
-- platform's configuration is nil.
unfoldable pub resolve_config :
    Decoder → (trust_domain : Text) → Option NamespaceConfig → ResolvedConfig
unfolding read_namespace_config
resolve_config d trust_domain given =
    let ns = given_config given in
    let bridge = extract_tls_bridge_mode d ns.authbridge_runtime_yaml in
    record {
      keycloak_url = ns.keycloak_url;
      keycloak_realm = ns.keycloak_realm;
      admin_credentials_secret_name = lit "keycloak-admin-secret";
      spiffe_trust_domain = trust_domain;
      platform_client_ids = ns.platform_client_ids;
      token_url = ns.token_url;
      issuer = ns.issuer;
      expected_audience = ns.expected_audience;
      target_audience = ns.target_audience;
      target_scopes = ns.target_scopes;
      default_outbound_policy = ns.default_outbound_policy;
      client_auth_type = ns.client_auth_type;
      spiffe_idp_alias = ns.spiffe_idp_alias;
      authproxy_routes_yaml = ns.authproxy_routes_yaml;
      authbridge_runtime_yaml = ns.authbridge_runtime_yaml;
      authbridge_mode = extract_mode d ns.authbridge_runtime_yaml;
      mtls_mode = extract_mtls_mode d ns.authbridge_runtime_yaml;
      tls_bridge_mode = if is_empty bridge then lit "disabled" else bridge;
    }

-- The mode of the TLS bridge is never empty, and it is "disabled" where the namespace has no runtime
-- configuration.
pub tls_bridge_mode_given :
    (d : Decoder) (trust_domain : Text) (get_config_map : Text → Option (GoMap Text))
    → let mode =
        (resolve_config d trust_domain
          (some (read_namespace_config get_config_map))).tls_bridge_mode in
      (is_empty mode ≡ false)
      × (get_config_map (lit "authbridge-runtime-config") ≡ none → mode ≡ lit "disabled")
unfolding resolve_config
tls_bridge_mode_given d trust_domain get_config_map =
    let bridge =
      extract_tls_bridge_mode d (read_namespace_config get_config_map).authbridge_runtime_yaml in
    (
      elim (Bool-cases (is_empty bridge)) [ inl e ↦ rw e refl | inr e ↦ ground arith ],
      λ e. ground arith,
    )
