-- ===== src/Domain/Schema.antt =====
-- crates/journey_dynamics/src/domain/attribute_schema.rs: which paths are secret, and the routing
-- of a batch of changes.
pub mod Destination
pub mod Routing
pub mod Groups
use journey_dynamics.Base.{
  String, Bool, true, false, Option, none, some, List, [], ◌∷◌, ◌++◌, map, any, str_eq, text_ord,
  nat_ord, if◌then◌else◌,
}
use journey_dynamics.Base.BTreeMap.{BTreeMap, get, insert}
use journey_dynamics.Json.{Uuid, Value, PointerBuf, Changes, Crates}

pub data PiiClass : Type 0 where
  plaintext : PiiClass
  -- the pointer of the slot whose subject owns the value
  secret : PointerBuf → PiiClass

-- A rule for `<namespace>/<ref>/<field>`. The `BTreeSet`s of field names are lists.
pub record NamespacePattern : Type 0 where
  pub namespace : String
  pub secret_fields : List String
  pub plaintext_fields : List String

pub record AttributeSchema : Type 0 where
  pub paths : BTreeMap PointerBuf PiiClass
  pub json_schema : Option Value
  pub permissive : Bool
  pub namespace_patterns : List NamespacePattern
  pub plaintext_prefixes : List String

-- `AttributeSchema::new`
unfoldable pub new : BTreeMap PointerBuf PiiClass → Option Value → AttributeSchema
new paths json_schema = record {
  paths = paths;
  json_schema = json_schema;
  permissive = false;
  namespace_patterns = [];
  plaintext_prefixes = [];
}

-- `AttributeSchema::permissive`
unfoldable pub permissive_schema : AttributeSchema
permissive_schema = record {
  paths = [];
  json_schema = none;
  permissive = true;
  namespace_patterns = [];
  plaintext_prefixes = [];
}

unfoldable pub with_namespace_patterns : List NamespacePattern → AttributeSchema → AttributeSchema
with_namespace_patterns patterns schema = record schema { namespace_patterns = patterns }

unfoldable pub with_plaintext_prefixes : List String → AttributeSchema → AttributeSchema
with_plaintext_prefixes prefixes schema = record schema { plaintext_prefixes = prefixes }

-- `set.contains(name)`, `iter().any(|p| p == name)`
abbrev pub contains : List String → String → Bool
contains names name = any (λ n. str_eq n name) names

abbrev pub or_else {ℓ} : {A : Type ℓ} → Option A → Option A → Option A
or_else (some a) next = some a
or_else none next = next

module _ (c : Crates) where
  -- The loop over the patterns: the first that lists the field decides.
  unfoldable pub match_patterns : String → String → String → List NamespacePattern → Option PiiClass
  match_patterns namespace slot field [] = none
  match_patterns namespace slot field (p ∷ ps) =
      let rest = match_patterns namespace slot field ps in
      if str_eq namespace p.namespace
      then if contains p.plaintext_fields field
        then some plaintext
        else if contains p.secret_fields field
        then some (secret (c.from_tokens (namespace ∷ slot ∷ [])))
        else rest
      else rest

  -- Only paths of exactly three segments meet the patterns.
  unfoldable pub match_segments : List String → List NamespacePattern → Option PiiClass
  unfolding match_patterns
  match_segments (namespace ∷ slot ∷ field ∷ []) ps = match_patterns namespace slot field ps
  match_segments _ ps = none

  unfoldable pub has_plaintext_prefix : AttributeSchema → List String → Bool
  has_plaintext_prefix schema [] = false
  has_plaintext_prefix schema (first ∷ _) = contains schema.plaintext_prefixes first

  unfoldable pub classify : AttributeSchema → PointerBuf → Option PiiClass
  unfolding match_segments has_plaintext_prefix
  classify schema path =
      let segs = c.tokens path in
      or_else (get path schema.paths) (
        or_else (match_segments segs schema.namespace_patterns) (
          if has_plaintext_prefix schema segs
          then some plaintext
          else if schema.permissive
          then some plaintext
          else none))

pub record Classification : Type 0 where
  pub plaintext : Changes
  pub secret_by_subject : BTreeMap Uuid Changes
  pub unknown : List PointerBuf

abbrev pub or_default : Option Changes → Changes
or_default none = []
or_default (some group) = group

-- `entry(uuid).or_default().insert(path, value)`
unfoldable pub add_secret :
    Uuid → PointerBuf → Value → BTreeMap Uuid Changes → BTreeMap Uuid Changes
add_secret uuid path value groups =
    insert uuid (insert path value (or_default (get uuid groups))) groups

-- The inner match, on what `subject_lookup` answers.
unfoldable pub route_secret : Option Uuid → PointerBuf → Value → Classification → Classification
route_secret none path value acc = record acc { unknown = acc.unknown ++ path ∷ [] }
route_secret (some uuid) path value acc = record acc {
  secret_by_subject = add_secret uuid path value acc.secret_by_subject;
}

module _ (c : Crates) (schema : AttributeSchema) (subject_lookup : PointerBuf → Option Uuid) where
  -- What one turn of the loop does with a path of this class.
  unfoldable pub route : Option PiiClass → PointerBuf → Value → Classification → Classification
  unfolding route_secret
  route none path value acc = record acc { unknown = acc.unknown ++ path ∷ [] }
  route (some plaintext) path value acc = record acc { plaintext = insert path value acc.plaintext }
  route (some (secret subject)) path value acc =
      route_secret (subject_lookup subject) path value acc

  unfoldable pub classify_from : Changes → Classification → Classification
  unfolding route classify
  classify_from [] acc = acc
  classify_from ((path, value) ∷ changes) acc =
      classify_from changes (route (classify c schema path) path value acc)

  unfoldable pub classify_changes : Changes → Classification
  unfolding classify_from
  classify_changes changes =
      classify_from changes (record { plaintext = []; secret_by_subject = []; unknown = [] })

-- The JSON form of a pattern and of a schema.
pub record NamespacePatternConfig : Type 0 where
  pub namespace : String
  pub secret_fields : List String
  pub plaintext_fields : List String

pub record AttributeSchemaConfig : Type 0 where
  pub permissive : Bool
  pub plaintext_prefixes : List String
  pub namespace_patterns : List NamespacePatternConfig

abbrev from_pattern : NamespacePatternConfig → NamespacePattern
from_pattern p = record {
  namespace = p.namespace;
  secret_fields = p.secret_fields;
  plaintext_fields = p.plaintext_fields;
}

-- `From<AttributeSchemaConfig>`
unfoldable pub from_config : AttributeSchemaConfig → AttributeSchema
unfolding new permissive_schema with_namespace_patterns with_plaintext_prefixes
from_config config =
    let base = if config.permissive then permissive_schema else new [] none in
    with_namespace_patterns (map from_pattern config.namespace_patterns)
      (with_plaintext_prefixes config.plaintext_prefixes base)
