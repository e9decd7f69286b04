-- ===== src/Derive/RoundTrip.antt =====
-- The generated codec of an enum that the macro accepts: what it takes out of an event, puts back
-- and redacts.
use journey_dynamics.Base.{
  String, Bool, true, Option, none, some, List, [], ◌∷◌, ok, text_ord, eq_iff, if◌then◌else◌, ◌≡◌,
  ◌≢◌, refl, sym, ap, subst, ◌∙◌, inl, inr, arith, Bool-cases,
}
use journey_dynamics.Json.{Uuid, Value, null, bool, number, string, array, object, Object, end}
use journey_dynamics.Json.Map.{object_get, object_remove, object_get-entry, or_null, index, as_str}
use journey_dynamics.Crypto.Events.{SerializedEvent, SecretPartition, Encodings}
use journey_dynamics.Crypto.Reading.Erasure.{all_decrypted}
use journey_dynamics.Crypto.Reading.RoundTrip.{whole, change_inner-whole}
use journey_dynamics.PiiCodec.{JsonBytes, has_label, default_partition}
use journey_dynamics.Derive.Model.{PiiFieldModel, PiiVariantModel, subject_field, secret_fields}
use journey_dynamics.Derive.Options.{Variant}
use journey_dynamics.Derive.Parse.{parse_pii_variants}
use journey_dynamics.Derive.Validation.{IsValid, annotated, parse_pii_variants-Models}
use journey_dynamics.Derive.Codec.{
  secret_strs, remove_all, insert_pairs, strip_legacy, bundle, put_secrets, take_out, parse_text,
  subject_in, extract_single, extract_secrets, extract_partitions_arm, new_reconstruct_arm,
  redact_partitions_arm, arm_of, pii_codec,
}
use journey_dynamics.Derive.Fields.{
  is_listed, or_else, last_value, is_legacy, secret_value, get-insert_all, get-remove_all,
  get-insert_pairs, get-strip_legacy, get-put_secrets,
}
use journey_dynamics.Derive.Accepted.{arm_of-IsValid_in, secrets_nonempty, same_unless, keys_listed}
use journey_dynamics.Derive.Redaction.{redaction_of, Shows, or_else-Shows, secret_field_data_total}

-- What is taken out of an object.
abbrev pub taken_of : List String → Object → Value
taken_of (s ∷ []) inner = or_null (object_get s inner)
taken_of ss inner = bundle ss inner

-- A variant with one secret has a value for it.
abbrev pub HasSecret : List String → Object → Type 0
HasSecret (s ∷ []) inner = or_null (object_get s inner) ≢ null
HasSecret ss inner = Unit

-- The object at the event's type.
index-whole :
    (event : SerializedEvent) (inner : Object)
    → index (whole event inner).payload event.event_type ≡ object inner
unfolding index
index-whole event inner = ap or_null (object_get-entry event.event_type (object inner) end)

secret_value-taken_of :
    (k s : String) (ss : List String) (inner : Object)
    → is_listed k (s ∷ ss) ≡ true
    → secret_value (s ∷ ss) (taken_of (s ∷ ss) inner) k ≡ or_null (object_get k inner)
unfolding index
secret_value-taken_of k s [] inner h =
    ap (λ j. or_null (object_get j inner)) (sym ((eq_iff k s).0 (ground arith)))
secret_value-taken_of k s (t ∷ ss) inner h =
    let at_key = get-insert_all k (λ j. or_null (object_get j inner)) (s ∷ t ∷ ss) end in
    rw (at_key, h) refl

module _ (enc : Encodings) (jb : JsonBytes) (chrono : Bool) (variants : List Variant)
    (models : List PiiVariantModel) (accepted : parse_pii_variants chrono variants ≡ ok models)
    (event : SerializedEvent) (v : PiiVariantModel)
    (armed : arm_of models event.event_type ≡ some v) where
  valid : IsValid v
  valid =
      arm_of-IsValid_in (annotated variants) models event.event_type
        (parse_pii_variants-Models chrono variants accepted) armed

  extract_single_lem :
      (u : Uuid) (s : String) (pii : Value) (e : SerializedEvent)
      → pii ≢ null
      → extract_single enc jb u s pii e ≡ take_out enc jb u pii (object_remove s) e
  extract_single_lem u s null e ne = absurd (ne refl)
  extract_single_lem u s (bool b) e ne = refl
  extract_single_lem u s (number n) e ne = refl
  extract_single_lem u s (string t) e ne = refl
  extract_single_lem u s (array a) e ne = refl
  extract_single_lem u s (object o) e ne = refl

  extract_secrets_lem :
      (u : Uuid) (s : String) (ss : List String) (inner : Object)
      → HasSecret (s ∷ ss) inner
      → extract_secrets enc jb u (s ∷ ss) (whole event inner)
        ≡ ok (
          whole event (remove_all (s ∷ ss) inner),
          default_partition enc jb u (taken_of (s ∷ ss) inner) ∷ [],
        )
  unfolding remove_all index
  extract_secrets_lem u s [] inner has =
      let pii = or_null (object_get s inner) in
      ap (λ value. extract_single enc jb u s (index value s) (whole event inner))
        (index-whole event inner)
      ∙ at_index s inner
      ∙ extract_single_lem u s pii (whole event inner) has
      ∙ rw (change_inner-whole (object_remove s) event inner) refl
    where
      at_index :
          (s : String) (inner : Object)
          → extract_single enc jb u s (index (object inner) s) (whole event inner)
            ≡ extract_single enc jb u s (or_null (object_get s inner)) (whole event inner)
      at_index s inner = refl
  extract_secrets_lem u s (t ∷ ss) inner has =
      rw (index-whole event inner, change_inner-whole (remove_all (s ∷ t ∷ ss)) event inner) refl

  -- What the event's object has at a key after it was put back.
  abbrev pub restored_value : List String → Object → String → Option Value
  restored_value secrets inner k =
      if is_listed k secrets
      then some (or_null (object_get k inner))
      else if is_legacy v.sentinel k
      then none
      else object_get k inner

  restore_lem :
      (s : String) (ss : List String) (inner : Object) (k : String)
      → object_get k (
          put_secrets
            (s ∷ ss)
            (taken_of (s ∷ ss) inner)
            (strip_legacy v.sentinel (remove_all (s ∷ ss) inner)))
        ≡ restored_value (s ∷ ss) inner k
  restore_lem s ss inner k =
      let secrets = s ∷ ss in
      let left = remove_all secrets inner in
      get-put_secrets k s ss (taken_of secrets inner) (strip_legacy v.sentinel left)
      ∙ elim (Bool-cases (is_listed k secrets)) [
        | inl hidden ↦ rw (hidden) (ap some (secret_value-taken_of k s ss inner hidden))
        | inr shown ↦
            rw (shown, get-strip_legacy k v.sentinel left, get-remove_all k secrets inner, shown)
              refl
      ]

  module _ (f : PiiFieldModel) (subject : subject_field v ≡ some f) (inner : Object) (u : Uuid)
      (id : String) (identified : object_get f.ident inner ≡ some (string id))
      (parsed : enc.parse_uuid id ≡ some u) where
    abbrev pub partition_of : List String → SecretPartition
    partition_of secrets = default_partition enc jb u (taken_of secrets inner)

    -- The event without its secrets, the partition, and the event put together again.
    abbrev pub RoundTrips : List String → Type 0
    RoundTrips secrets =
        (inner' : Object) × ((pii_codec enc jb models).extract_partitions (whole event inner)
          ≡ ok (whole event (remove_all secrets inner), partition_of secrets ∷ []))
        × ((k : String)
            → object_get k (remove_all secrets inner)
              ≡ (if is_listed k secrets then none else object_get k inner))
        × ((pii_codec enc jb models).reconstruct (whole event (remove_all secrets inner))
              (all_decrypted (partition_of secrets ∷ []))
            ≡ ok (whole event inner'))
        × ((k : String) → object_get k inner' ≡ restored_value secrets inner k)

    subject_in-whole : subject_in enc jb f.ident (whole event inner) ≡ some u
    unfolding index
    subject_in-whole =
        ap (λ value. parse_text enc jb (as_str (index value f.ident))) (index-whole event inner)
        ∙ ap (λ o. parse_text enc jb (as_str (or_null o))) identified
        ∙ parsed

    round_trips :
        (s : String) (ss : List String)
        → secret_strs v ≡ s ∷ ss
        → HasSecret (s ∷ ss) inner
        → jb.from_slice (jb.to_vec (taken_of (s ∷ ss) inner)) ≡ ok (taken_of (s ∷ ss) inner)
        → RoundTrips (s ∷ ss)
    unfolding pii_codec extract_partitions_arm new_reconstruct_arm
    round_trips s ss secrets has reads =
        let left = remove_all (s ∷ ss) inner in
        let pii = taken_of (s ∷ ss) inner in
        let change = λ (map : Object). put_secrets (s ∷ ss) pii (strip_legacy v.sentinel map) in
        (
          change left,
          rw (armed, subject, secrets, subject_in-whole) (extract_secrets_lem u s ss inner has),
          λ k. get-remove_all k (s ∷ ss) inner,
          rw (armed, reads, secrets, change_inner-whole change event left) refl,
          restore_lem s ss inner,
        )

    -- For the codec derived from variants that the macro accepts, and an event of one of them
    -- whose object has a subject that is parsed and, if the variant has one secret, a value there,
    -- and if the secrets are read from JSON as they are written: `extract_partitions` takes the
    -- secret fields and no other key out of the object, in one partition of the subject, and
    -- `reconstruct` from that partition gives an event whose object has every secret field back,
    -- with null where it was missing, and every other key as it was, except the keys `nonce` and
    -- the sentinel, which are gone.
    pub pii_codec_round_trip :
        HasSecret (secret_strs v) inner
        → jb.from_slice (jb.to_vec (taken_of (secret_strs v) inner))
          ≡ ok (taken_of (secret_strs v) inner)
        → RoundTrips (secret_strs v)
    pii_codec_round_trip has reads =
        let (s, ss, secrets) = secrets_nonempty v valid in
        subst RoundTrips (sym secrets) (
          round_trips s ss secrets (subst (λ l. HasSecret l inner) secrets has) (
            subst (λ l. jb.from_slice (jb.to_vec (taken_of l inner)) ≡ ok (taken_of l inner))
              secrets reads))

    -- The event's object shows the redactions of the variant's secret fields, and nothing else of it
    -- is changed but that `nonce` and the sentinel are gone.
    abbrev pub Redacts : List String → Object → Type 0
    Redacts labels inner' =
        ((pii_codec enc jb models).redact_partitions
            (whole event (remove_all (secret_strs v) inner)) labels
          ≡ ok (whole event inner'))
        × ((k : String)
            → Shows (redaction_of k v.fields)
                (if is_legacy v.sentinel k then none else object_get k inner) (object_get k inner'))

    -- For the codec derived from variants that the macro accepts, `redact_partitions` on an event
    -- of one of them without its secrets, with the label `default`, does not panic: the object
    -- shows at every secret field the redaction of its model, as the text of a literal, null, an
    -- empty object or an empty array, of the last field if several have the name; every other key
    -- is as it was, except `nonce` and the sentinel, which are gone.
    pub pii_codec-Redacts :
        (labels : List String)
        → has_label labels "default" ≡ true
        → (inner' : Object) × Redacts labels inner'
    unfolding pii_codec redact_partitions_arm secret_fields
    pii_codec-Redacts labels listed =
        let (pairs, every, given) = secret_field_data_total v.fields valid.redactions in
        let change = λ (map : Object). insert_pairs pairs (strip_legacy v.sentinel map) in
        let left = remove_all (secret_strs v) inner in
        let before : String → Option Value =
          λ k. if is_legacy v.sentinel k then none else object_get k inner in
        (
          change left,
          (
            rw (armed, every, listed, change_inner-whole change event left) refl,
            λ k. or_else-Shows (redaction_of k v.fields) (before k) (object_get k (change left)) (
                get-insert_pairs k pairs (strip_legacy v.sentinel left)
                ∙ same_unless (last_value k pairs) (is_listed k (secret_strs v))
                    (keys_listed k (secret_fields v) pairs every)
                    (λ shown.
                      get-strip_legacy k v.sentinel left
                      ∙ rw (get-remove_all k (secret_strs v) inner, shown) refl)
                ∙ ap (λ o. or_else o (before k)) (given k)),
          ),
        )
