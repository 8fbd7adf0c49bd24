-- ===== src/Webhook/BaseConfigs.antt =====
-- operator/internal/webhook/injector/preset_pipeline.go: the configurations of the plugins of a pipeline that
-- is already rendered, `none` where it is nil.
use kagenti_operator.Prelude.{Text, lit, is_empty, Option, none, some, [], ◌∷◌, if◌then◌else◌}
use kagenti_operator.GoMap
use kagenti_operator.GoMap.{GoMap, has}
use kagenti_operator.Webhook.Values.{
  Value, text, object, array, Fields, Items, no_items, item, field_of, as_map, deep_copy_map,
}

abbrev name_in : Option Value → Text
name_in (some (text name)) = name
name_in _ = []

abbrev config_in : Option Value → GoMap Value
config_in (some (object config)) = as_map (deep_copy_map config)
config_in _ = []

abbrev add_config : Text → GoMap Value → GoMap (GoMap Value) → GoMap (GoMap Value)
add_config name config out =
    if is_empty name then out else elim config [ [] ↦ out | f ∷ fs ↦ GoMap.put out name (f ∷ fs) ]

unfoldable pub index_plugins : Items → GoMap (GoMap Value) → GoMap (GoMap Value)
unfolding field_of deep_copy_map as_map
index_plugins no_items out = out
index_plugins (item (object plugin) rest) out = index_plugins rest (
    add_config (name_in (field_of plugin (lit "name"))) (config_in (field_of plugin (lit "config")))
      out)
index_plugins (item _ rest) out = index_plugins rest out

abbrev plugins_in : Option Value → Items
plugins_in (some (array plugins)) = plugins
plugins_in _ = no_items

unfoldable pub chain_plugins : Fields → Text → Items
unfolding field_of
chain_plugins pipeline chain = elim (field_of pipeline chain) [
  | some (object section) ↦ plugins_in (field_of section (lit "plugins"))
  | _ ↦ no_items
]

-- indexPipelineConfigs
unfoldable pub index_pipeline_configs : Option Fields → GoMap (GoMap Value)
unfolding index_plugins chain_plugins
index_pipeline_configs none = []
index_pipeline_configs (some pipeline) =
    index_plugins (chain_plugins pipeline (lit "outbound"))
      (index_plugins (chain_plugins pipeline (lit "inbound")) [])
