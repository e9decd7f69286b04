-- ===== src/Json/Map.antt =====
-- `serde_json::Map`, which is kept in the order of its keys, and the indexing of a value.
use journey_dynamics.Base.{String, Option, none, some, lt, eq, gt, text_ord, ◌≡◌, ◌≢◌, refl, arith}
use journey_dynamics.Json.{Value, null, bool, number, string, array, object, Object, end, entry}

unfoldable pub object_get : String → Object → Option Value
object_get key end = none
object_get key (entry k v rest) = elim (text_ord.cmp key k) [
  | eq ↦ some v
  | _ ↦ object_get key rest
]

unfoldable pub object_insert : String → Value → Object → Object
object_insert key v end = entry key v end
object_insert key v (entry k w rest) = elim (text_ord.cmp key k) [
  | lt ↦ entry key v (entry k w rest)
  | eq ↦ entry key v rest
  | gt ↦ entry k w (object_insert key v rest)
]

unfoldable pub object_remove : String → Object → Object
object_remove key end = end
object_remove key (entry k v rest) = elim (text_ord.cmp key k) [
  | eq ↦ object_remove key rest
  | _ ↦ entry k v (object_remove key rest)
]

abbrev pub or_null : Option Value → Value
or_null none = null
or_null (some v) = v

-- `value[key]`: `null` for a missing key and for a value that is no object.
unfoldable pub index : Value → String → Value
index (object map) key = or_null (object_get key map)
index _ key = null

-- `value.as_object()`, `value.as_str()`
abbrev pub as_object : Value → Option Object
as_object (object map) = some map
as_object _ = none

abbrev pub as_str : Value → Option String
as_str (string s) = some s
as_str _ = none

-- `value[key] = v` on a value that `IndexMut` accepts: an object, or `null`, which becomes one.
-- `none` is its panic.
unfoldable pub set_index : Value → String → Value → Option Value
set_index (object map) key v = some (object (object_insert key v map))
set_index null key v = some (object (object_insert key v end))
set_index (bool b) key v = none
set_index (number n) key v = none
set_index (string s) key v = none
set_index (array a) key v = none

pub object_get-object_insert_self :
    (key : String) (v : Value) (map : Object) → object_get key (object_insert key v map) ≡ some v
unfolding object_get object_insert
object_get-object_insert_self key v end = ground (arith, text_ord.cmp_self key)
object_get-object_insert_self key v (entry k w rest) =
    ground (arith, text_ord.cmp_self key, object_get-object_insert_self key v rest)

pub object_get-object_insert_ne :
    (key other : String) (v : Value) (map : Object)
    → key ≢ other
    → object_get key (object_insert other v map) ≡ object_get key map
unfolding object_get object_insert
object_get-object_insert_ne key other v end h = ground (arith, text_ord.cmp_eq key other)
object_get-object_insert_ne key other v (entry k w rest) h = ground (
  arith,
  text_ord.cmp_eq key other,
  text_ord.cmp_eq other k,
  object_get-object_insert_ne key other v rest h,
)

-- A key that is absent is not in the way of its own removal.
pub object_remove_absent :
    (key : String) (map : Object) → object_get key map ≡ none → object_remove key map ≡ map
unfolding object_get object_remove
object_remove_absent key end h = refl
object_remove_absent key (entry k w rest) h = ground (arith, object_remove_absent key rest)

pub object_remove-object_insert :
    (key : String) (v : Value) (map : Object)
    → object_get key map ≡ none
    → object_remove key (object_insert key v map) ≡ map
unfolding object_get object_insert object_remove
object_remove-object_insert key v end h = ground (arith, text_ord.cmp_self key)
object_remove-object_insert key v (entry k w rest) h = ground (
  arith,
  text_ord.cmp_self key,
  object_remove_absent key rest,
  object_remove-object_insert key v rest,
)

pub object_get-entry :
    (key : String) (v : Value) (rest : Object) → object_get key (entry key v rest) ≡ some v
unfolding object_get
object_get-entry key v rest = ground (arith, text_ord.cmp_self key)

pub object_insert-entry :
    (key : String) (v w : Value) (rest : Object)
    → object_insert key v (entry key w rest) ≡ entry key v rest
unfolding object_insert
object_insert-entry key v w rest = ground (arith, text_ord.cmp_self key)

pub object_get-object_remove_self :
    (key : String) (map : Object) → object_get key (object_remove key map) ≡ none
unfolding object_get object_remove
object_get-object_remove_self key end = refl
object_get-object_remove_self key (entry k v rest) =
    ground (arith, object_get-object_remove_self key rest)

pub object_get-object_remove_ne :
    (key other : String) (map : Object)
    → key ≢ other
    → object_get key (object_remove other map) ≡ object_get key map
unfolding object_get object_remove
object_get-object_remove_ne key other end h = refl
object_get-object_remove_ne key other (entry k v rest) h = ground (
  arith,
  text_ord.cmp_eq key k,
  text_ord.cmp_eq other k,
  object_get-object_remove_ne key other rest h,
)
