-- ===== src/Requests/Normal.antt =====
-- crates/journey_dynamics/src/command_extractor.rs: `normalize_set_attributes` gives the canonical
-- form.
use journey_dynamics.Base.{
  String, true, is_some, [], ◌∷◌, text_ord, key-cases, arith, ◌≢◌, sym, str_eq, false, Option, none,
  some, ◌≡◌, refl, ap, inl, inr, Bool-cases,
}
use journey_dynamics.Json.{
  Crates, Uuid, Value, null, bool, number, string, array, object, Object, entry, end, Changes,
}
use journey_dynamics.Base.BTreeMap.{get}
use journey_dynamics.Json.Map.{
  object_get, object_insert, object_get-object_insert_self, object_get-object_insert_ne,
}
use journey_dynamics.Domain.Commands.{JourneyCommand}
use journey_dynamics.Domain.JsonPath.{flatten}
use journey_dynamics.Requests.{
  collect, from_request, normalize_set_attributes, normalize_inner, canonical, is_canonical,
}

canonical_key :
    (k : String) (v : Value)
    → is_some (object_get "changes" (entry k v end)) ≡ true
    → entry k v end ≡ entry "changes" v end
unfolding object_get
canonical_key k v h = elim (key-cases "changes" k) [
  | inl same ↦ ap (λ key. entry key v end) (sym same)
  | inr other ↦ ground (arith, text_ord.cmp_eq "changes" k)
]

-- What is taken for the canonical form has that key alone.
is_canonical_lem :
    (inner : Object) → is_canonical inner ≡ true → (v : Value) × (inner ≡ entry "changes" v end)
unfolding is_canonical
is_canonical_lem end h = cc
is_canonical_lem (entry k v end) h = (v, canonical_key k v h)
is_canonical_lem (entry k v (entry k' v' rest)) h = absurd (ground arith)

object_get-collect :
    (key : String) (changes : Changes) → object_get key (collect changes) ≡ get key changes
unfolding collect get object_get
object_get-collect key [] = refl
object_get-collect key ((path, val) ∷ changes) = elim (key-cases key path) [
  | inl same ↦ rw same (
      ground
        (arith, text_ord.cmp_self path, object_get-object_insert_self path val (collect changes)))
  | inr other ↦ ground (
    arith,
    text_ord.cmp_eq key path,
    object_get-object_insert_ne key path val (collect changes) other,
    object_get-collect key changes,
  )
]

module _ (c : Crates) where
  -- An object whose `SetAttributes` is canonical is left as it is.
  normalize_canonical :
      (obj : Object) (inner : Value)
      → object_get "SetAttributes" obj ≡ some (canonical c inner)
      → normalize_set_attributes c (object obj) ≡ object obj
  unfolding normalize_set_attributes is_canonical
  normalize_canonical obj inner h = ap (normalize_inner c obj) h

  -- Whatever `SetAttributes` holds: what becomes of the object is left as it is.
  normalize_inner_lem :
      (obj : Object) (held : Option Value)
      → object_get "SetAttributes" obj ≡ held
      → normalize_set_attributes c (normalize_inner c obj held) ≡ normalize_inner c obj held
  unfolding normalize_set_attributes
  normalize_inner_lem obj none h = ap (normalize_inner c obj) h
  normalize_inner_lem obj (some (object inner)) h = elim (Bool-cases (is_canonical inner)) [
    | inl t ↦ rw (t, h, t)
    | inr f ↦ rw (
      f,
      normalize_canonical (object_insert "SetAttributes" (canonical c (object inner)) obj)
          (object inner)
          (object_get-object_insert_self "SetAttributes" (canonical c (object inner)) obj),
    )
  ]
  normalize_inner_lem obj (some null) h = ap (normalize_inner c obj) h
  normalize_inner_lem obj (some (bool b)) h = ap (normalize_inner c obj) h
  normalize_inner_lem obj (some (number n)) h = ap (normalize_inner c obj) h
  normalize_inner_lem obj (some (string t)) h = ap (normalize_inner c obj) h
  normalize_inner_lem obj (some (array a)) h = ap (normalize_inner c obj) h

  -- `normalize_set_attributes` gives a canonical body: it changes nothing the second time.
  pub normalize_set_attributes_twice :
      (value : Value)
      → normalize_set_attributes c (normalize_set_attributes c value)
        ≡ normalize_set_attributes c value
  unfolding normalize_set_attributes
  normalize_set_attributes_twice (object obj) =
      normalize_inner_lem obj (object_get "SetAttributes" obj) refl
  normalize_set_attributes_twice null = refl
  normalize_set_attributes_twice (bool b) = refl
  normalize_set_attributes_twice (number n) = refl
  normalize_set_attributes_twice (string t) = refl
  normalize_set_attributes_twice (array a) = refl

  -- A body in the nested form gives the same command as a body in its canonical form.
  pub from_request_normal :
      (from_slice : String → Option Value) (from_value : Value → Option JourneyCommand) (id : Uuid)
      (uri_path body body' : String) (raw : Value)
      → str_eq body "" ≡ false
      → str_eq body' "" ≡ false
      → from_slice body ≡ some raw
      → from_slice body' ≡ some (normalize_set_attributes c raw)
      → from_request c from_slice from_value id uri_path body
        ≡ from_request c from_slice from_value id uri_path body'
  unfolding from_request
  from_request_normal from_slice from_value id uri_path body body' raw h h' e e' =
      rw (h, h', e, e', normalize_set_attributes_twice raw)

  -- The body that is read: `SetAttributes` holds the leaves of the nested object by their paths, and
  -- no other key is changed.
  abbrev pub IsNormal : Object → Object → Object → Type 0
  IsNormal obj inner result =
      ((changes : Object) × (object_get "SetAttributes" result
          ≡ some (object (entry "changes" (object changes) end)))
        × ((path : String) → object_get path changes ≡ get path (flatten c (object inner))))
      × ((key : String) → key ≢ "SetAttributes" → object_get key result ≡ object_get key obj)

  pub normalize_set_attributes-IsNormal :
      (obj inner : Object)
      → object_get "SetAttributes" obj ≡ some (object inner)
      → ((v : Value) → inner ≢ entry "changes" v end)
      → (result : Object) × (normalize_set_attributes c (object obj) ≡ object result)
        × IsNormal obj inner result
        × (normalize_set_attributes c (object result) ≡ object result)
  unfolding normalize_set_attributes
  normalize_set_attributes-IsNormal obj inner h nested = elim (Bool-cases (is_canonical inner)) [
    | inl t ↦ let (v, same) = is_canonical_lem inner t in absurd (nested v same)
    | inr f ↦
        let body = canonical c (object inner) in
        let kept = object_get-object_insert_self "SetAttributes" body obj in
        (
          object_insert "SetAttributes" body obj,
          rw (h, f) refl,
          (
            (
              collect (flatten c (object inner)),
              kept,
              λ path. object_get-collect path (flatten c (object inner)),
            ),
            λ key other. object_get-object_insert_ne key "SetAttributes" body obj other,
          ),
          normalize_canonical (object_insert "SetAttributes" body obj) (object inner) kept,
        )
  ]
