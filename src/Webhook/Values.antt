-- ===== src/Webhook/Values.antt =====
-- The values that a YAML or JSON decoder makes for `interface{}`, and the copies of
-- operator/internal/webhook/injector/preset_pipeline.go. The fields of a map stand in the order in which a
-- range visits them.
use kagenti_operator.Prelude.{
  ℕ, ◌≡◌, refl, ap, Bool, Text, beq, Option, none, some, [], ◌∷◌, if◌then◌else◌,
}
use kagenti_operator.GoMap.{GoMap}

mutual
  pub data Value : Type 0 where
    null : Value
    text : Text → Value
    number : ℕ → Value
    boolean : Bool → Value
    object : Fields → Value
    array : Items → Value

  pub data Fields : Type 0 where
    no_fields : Fields
    field : (key : Text) (value : Value) (rest : Fields) → Fields

  pub data Items : Type 0 where
    no_items : Items
    item : (value : Value) (rest : Items) → Items

-- m[k]
unfoldable pub field_of : Fields → Text → Option Value
field_of no_fields k = none
field_of (field key v rest) k = if beq key k then some v else field_of rest k

-- The fields as a map.
unfoldable pub as_map : Fields → GoMap Value
as_map no_fields = []
as_map (field key v rest) = (key, v) ∷ as_map rest

unfoldable mutual
  -- deepCopyValue
  pub deep_copy_value : Value → Value
  deep_copy_value null = null
  deep_copy_value (text t) = text t
  deep_copy_value (number n) = number n
  deep_copy_value (boolean b) = boolean b
  deep_copy_value (object fields) = object (deep_copy_map fields)
  deep_copy_value (array items) = array (deep_copy_items items)

  -- deepCopyMap
  pub deep_copy_map : Fields → Fields
  deep_copy_map no_fields = no_fields
  deep_copy_map (field key v rest) = field key (deep_copy_value v) (deep_copy_map rest)

  pub deep_copy_items : Items → Items
  deep_copy_items no_items = no_items
  deep_copy_items (item v rest) = item (deep_copy_value v) (deep_copy_items rest)

-- A copy is equal to what it is a copy of.
mutual
  unfolding deep_copy_value deep_copy_map deep_copy_items

  deep_copy_value_lem : (v : Value) → deep_copy_value v ≡ v
  deep_copy_value_lem null = refl
  deep_copy_value_lem (text t) = refl
  deep_copy_value_lem (number n) = refl
  deep_copy_value_lem (boolean b) = refl
  deep_copy_value_lem (object fields) = ap object (deep_copy_map_lem fields)
  deep_copy_value_lem (array items) = ap array (deep_copy_items_lem items)

  pub deep_copy_map_lem : (m : Fields) → deep_copy_map m ≡ m
  deep_copy_map_lem no_fields = refl
  deep_copy_map_lem (field key v rest) = rw (deep_copy_value_lem v, deep_copy_map_lem rest) refl

  deep_copy_items_lem : (l : Items) → deep_copy_items l ≡ l
  deep_copy_items_lem no_items = refl
  deep_copy_items_lem (item v rest) = rw (deep_copy_value_lem v, deep_copy_items_lem rest) refl
