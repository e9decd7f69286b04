-- ===== src/Derive/Fields.antt =====
-- What an object has at a key after the generated code removed or inserted its fields.
use journey_dynamics.Base.{
  String, Bool, true, false, ◌||◌, Option, none, some, List, [], ◌∷◌, any, text_ord, str_eq, eq_iff,
  if◌then◌else◌, ◌≡◌, refl, ◌∙◌, inl, inr, key-cases,
}
use journey_dynamics.Base.Text.{str_ne}
use journey_dynamics.Json.{Value, Object}
use journey_dynamics.Json.Map.{
  object_get, object_insert, object_remove, index, object_get-object_insert_self,
  object_get-object_insert_ne, object_get-object_remove_self, object_get-object_remove_ne,
}
use journey_dynamics.Derive.Codec.{remove_all, insert_all, insert_pairs, strip_legacy, put_secrets}

abbrev pub is_listed : String → List String → Bool
is_listed k ss = any (str_eq k) ss

listed_self : (k : String) → str_eq k k ≡ true
listed_self k = (eq_iff k k).1 refl

pub get-insert_all :
    (k : String) (f : String → Value) (ss : List String) (map : Object)
    → object_get k (insert_all f ss map) ≡ (if is_listed k ss then some (f k) else object_get k map)
unfolding insert_all
get-insert_all k f [] map = refl
get-insert_all k f (s ∷ ss) map =
    get-insert_all k f ss (object_insert s (f s) map) ∙ elim (key-cases k s) [
      | inl same ↦
          rw (same, listed_self s, object_get-object_insert_self s (f s) map)
            (either (is_listed s ss) (some (f s)))
      | inr other ↦ rw (str_ne k s other, object_get-object_insert_ne k s (f s) map other) refl
    ]
  where
    either : (b : Bool) (o : Option Value) → (if b then o else o) ≡ o
    either true o = refl
    either false o = refl

pub get-remove_all :
    (k : String) (ss : List String) (map : Object)
    → object_get k (remove_all ss map) ≡ (if is_listed k ss then none else object_get k map)
unfolding remove_all
get-remove_all k [] map = refl
get-remove_all k (s ∷ ss) map = get-remove_all k ss (object_remove s map) ∙ elim (key-cases k s) [
  | inl same ↦
      rw (same, listed_self s, object_get-object_remove_self s map) (either (is_listed s ss))
  | inr other ↦ rw (str_ne k s other, object_get-object_remove_ne k s map other) refl
]
  where
    either : (b : Bool) → ◌≡◌ {A = Option Value} (if b then none else none) none
    either true = refl
    either false = refl

abbrev pub or_else : Option Value → Option Value → Option Value
or_else none later = later
or_else (some value) later = some value

-- The last value that is given to a key.
abbrev pub last_value : String → List (String × Value) → Option Value
last_value k [] = none
last_value k ((s, value) ∷ pairs) =
    or_else (last_value k pairs) (if str_eq k s then some value else none)

pub get-insert_pairs :
    (k : String) (pairs : List (String × Value)) (map : Object)
    → object_get k (insert_pairs pairs map) ≡ or_else (last_value k pairs) (object_get k map)
unfolding insert_pairs
get-insert_pairs k [] map = refl
get-insert_pairs k ((s, value) ∷ pairs) map =
    get-insert_pairs k pairs (object_insert s value map) ∙ elim (key-cases k s) [
      | inl same ↦
          rw (← same, listed_self k, object_get-object_insert_self k value map)
            (swallow (last_value k pairs))
      | inr other ↦
          rw (str_ne k s other, object_get-object_insert_ne k s value map other)
            (skip (last_value k pairs))
    ]
  where
    swallow :
        (o : Option Value)
        → or_else o (some value) ≡ or_else (or_else o (some value)) (object_get k map)
    swallow none = refl
    swallow (some v) = refl

    skip :
        (o : Option Value)
        → or_else o (object_get k map) ≡ or_else (or_else o none) (object_get k map)
    skip none = refl
    skip (some v) = refl

-- The keys of the legacy shape.
abbrev pub is_legacy : String → String → Bool
is_legacy sentinel k = str_eq k sentinel || str_eq k "nonce"

pub get-strip_legacy :
    (k sentinel : String) (map : Object)
    → object_get k (strip_legacy sentinel map)
      ≡ (if is_legacy sentinel k then none else object_get k map)
get-strip_legacy k sentinel map = elim (key-cases k "nonce") [
  | inl at_nonce ↦
      rw (at_nonce, object_get-object_remove_self "nonce" (object_remove sentinel map))
        (nonce (str_eq "nonce" sentinel))
  | inr not_nonce ↦
      rw
        (
          object_get-object_remove_ne k "nonce" (object_remove sentinel map) not_nonce,
          str_ne k "nonce" not_nonce,
        )
        (elim (key-cases k sentinel) [
          | inl at_sentinel ↦
              rw (at_sentinel, object_get-object_remove_self sentinel map, listed_self sentinel)
                refl
          | inr not_sentinel ↦
              rw
                (
                  object_get-object_remove_ne k sentinel map not_sentinel,
                  str_ne k sentinel not_sentinel,
                )
                refl
        ])
]
  where
    nonce : (b : Bool) → none ≡ (if b || true then none else object_get "nonce" map)
    nonce true = refl
    nonce false = refl

-- The value of a secret key in what was taken out.
abbrev pub secret_value : List String → Value → String → Value
secret_value (s ∷ []) pii k = pii
secret_value ss pii k = index pii k

-- What is put back reads, at a secret key, as the value in the secrets.
pub get-put_secrets :
    (k s : String) (ss : List String) (pii : Value) (map : Object)
    → object_get k (put_secrets (s ∷ ss) pii map)
      ≡ (if is_listed k (s ∷ ss) then some (secret_value (s ∷ ss) pii k) else object_get k map)
get-put_secrets k s [] pii map = elim (key-cases k s) [
  | inl same ↦ rw (same, listed_self s) (object_get-object_insert_self s pii map)
  | inr other ↦ rw (str_ne k s other) (object_get-object_insert_ne k s pii map other)
]
get-put_secrets k s (t ∷ ss) pii map = get-insert_all k (index pii) (s ∷ t ∷ ss) map
