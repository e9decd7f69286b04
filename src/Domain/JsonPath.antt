-- ===== src/Domain/JsonPath.antt =====
-- crates/journey_dynamics/src/domain/json_path.rs
use journey_dynamics.Base.{ℕ, suc, [], ◌∷◌, Result, ok, ◌>>=◌, text_ord, str_eq, if◌then◌else◌}
use journey_dynamics.Base.BTreeMap.{insert}
use journey_dynamics.Json.{
  Value, Values, Object, null, bool, number, string, array, object, nil, cons, end, entry,
  PointerBuf, Changes, AssignError, Crates,
}

module _ (c : Crates) where
  -- The `leaf` arm: a bare leaf at the root has no path and is dropped.
  abbrev put_leaf : Value → Changes → PointerBuf → Changes
  put_leaf leaf result prefix = if str_eq prefix "" then result else insert prefix leaf result

  unfoldable mutual
    pub flatten_into : Value → Changes → PointerBuf → Changes
    flatten_into (object map) result prefix = flatten_object map result prefix
    flatten_into (array arr) result prefix = flatten_array arr 0 result prefix
    flatten_into null result prefix = put_leaf null result prefix
    flatten_into (bool b) result prefix = put_leaf (bool b) result prefix
    flatten_into (number n) result prefix = put_leaf (number n) result prefix
    flatten_into (string s) result prefix = put_leaf (string s) result prefix

    pub flatten_object : Object → Changes → PointerBuf → Changes
    flatten_object end result prefix = result
    flatten_object (entry key val rest) result prefix =
        flatten_object rest (flatten_into val result (c.with_trailing_token prefix key)) prefix

    -- `enumerate` counts from `i`.
    pub flatten_array : Values → ℕ → Changes → PointerBuf → Changes
    flatten_array nil i result prefix = result
    flatten_array (cons val rest) i result prefix =
        flatten_array rest (suc i)
          (flatten_into val result (c.with_trailing_token prefix (c.index_token i))) prefix

  unfoldable pub flatten : Value → Changes
  unfolding flatten_into
  flatten source = flatten_into source [] ""

  -- The first change that cannot be assigned ends the loop.
  unfoldable pub assign_all : Value → Changes → Result AssignError Value
  assign_all dest [] = ok dest
  assign_all dest ((ptr, value) ∷ changes) =
      c.assign ptr value dest >>= λ next. assign_all next changes
