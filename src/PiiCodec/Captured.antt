-- ===== src/PiiCodec/Captured.antt =====
-- A captured person: what the codec takes out, puts back and redacts.
use journey_dynamics.Base.Text.{str_ne}
use journey_dynamics.Base.{
  String, true, Option, none, some, List, [], ◌∷◌, ok, ◌≡◌, ◌≢◌, refl, sym, ap, ◌∙◌, inl, inr, eq,
  text_ord, key-cases, str_eq, eq_iff, if◌then◌else◌,
}
use journey_dynamics.Json.{Uuid, Value, string, null, object, Object, end}
use journey_dynamics.Json.Map.{
  object_get, object_insert, object_remove, object_get-entry, or_null, index,
  object_get-object_insert_self, object_get-object_insert_ne, object_get-object_remove_self,
  object_get-object_remove_ne,
}
use journey_dynamics.Crypto.Events.{SerializedEvent, Encodings}
use journey_dynamics.Crypto.Reading.Erasure.{all_decrypted}
use journey_dynamics.Crypto.Reading.RoundTrip.{whole, change_inner-whole}
use journey_dynamics.PiiCodec.Taking.{
  JsonBytes, has_label, pii_of, remove_pii, put_pii, redacted_text, extract_captured,
  extract_partitions, default_partition,
}
use journey_dynamics.PiiCodec.Restoring.{
  reconstruct_captured, reconstruct, redact_captured, redact_partitions,
}

abbrev IsPlain : String → Type 0
IsPlain k = (k ≢ "name") × (k ≢ "email") × (k ≢ "phone")

-- A key that is none of the three.
get-remove_pii :
    (k : String) (inner : Object) → IsPlain k → object_get k (remove_pii inner) ≡ object_get k inner
unfolding remove_pii
get-remove_pii k inner (n, e, ph) =
    object_get-object_remove_ne k "phone" _ ph
    ∙ object_get-object_remove_ne k "email" _ e
    ∙ object_get-object_remove_ne k "name" inner n

-- A key that is none of the three, once the keys of the legacy shape are removed.
get_bare :
    (k : String) (inner : Object)
    → object_get "encrypted_pii" inner ≡ none
    → object_get "nonce" inner ≡ none
    → IsPlain k
    → object_get k (object_remove "nonce" (object_remove "encrypted_pii" (remove_pii inner)))
      ≡ object_get k inner
get_bare k inner c o plain = elim (key-cases k "nonce") [
  | inl at_nonce ↦ rw at_nonce (object_get-object_remove_self "nonce" _ ∙ sym o)
  | inr not_nonce ↦
      object_get-object_remove_ne k "nonce" _ not_nonce ∙ elim (key-cases k "encrypted_pii") [
        | inl at_pii ↦ rw at_pii (object_get-object_remove_self "encrypted_pii" _ ∙ sym c)
        | inr not_pii ↦
            object_get-object_remove_ne k "encrypted_pii" _ not_pii ∙ get-remove_pii k inner plain
      ]
]

-- An object with other values at the three keys.
abbrev pub with_pii : Value → Value → Value → Object → String → Option Value
with_pii name email phone inner k =
    if str_eq k "phone"
    then some phone
    else if str_eq k "email"
    then some email
    else if str_eq k "name"
    then some name
    else object_get k inner

get-put_pii :
    (k : String) (name email phone : Value) (inner : Object)
    → object_get "encrypted_pii" inner ≡ none
    → object_get "nonce" inner ≡ none
    → object_get k (put_pii name email phone (remove_pii inner)) ≡ with_pii name email phone inner k
unfolding put_pii
get-put_pii k name email phone inner c o = elim (key-cases k "phone") [
  | inl at_phone ↦ rw (at_phone, object_get-object_insert_self "phone" phone) refl
  | inr not_phone ↦
      object_get-object_insert_ne k "phone" phone _ not_phone
      ∙ rw (str_ne k "phone" not_phone) (elim (key-cases k "email") [
        | inl at_email ↦ rw (at_email, object_get-object_insert_self "email" email) refl
        | inr not_email ↦
            object_get-object_insert_ne k "email" email _ not_email
            ∙ rw (str_ne k "email" not_email) (elim (key-cases k "name") [
              | inl at_name ↦ rw (at_name, object_get-object_insert_self "name" name) refl
              | inr not_name ↦
                  object_get-object_insert_ne k "name" name _ not_name
                  ∙ rw (str_ne k "name" not_name)
                      (get_bare k inner c o (not_name, not_email, not_phone))
            ])
      ])
]

with_same :
    (k : String) (name email phone : Value) (inner : Object)
    → object_get "name" inner ≡ some name
    → object_get "email" inner ≡ some email
    → object_get "phone" inner ≡ some phone
    → with_pii name email phone inner k ≡ object_get k inner
with_same k name email phone inner n e ph = elim (key-cases k "phone") [
  | inl at_phone ↦ rw at_phone (sym ph)
  | inr not_phone ↦ rw (str_ne k "phone" not_phone) (elim (key-cases k "email") [
    | inl at_email ↦ rw at_email (sym e)
    | inr not_email ↦ rw (str_ne k "email" not_email) (elim (key-cases k "name") [
      | inl at_name ↦ rw at_name (sym n)
      | inr not_name ↦ rw (str_ne k "name" not_name) refl
    ])
  ])
]

differ : (k l : String) → text_ord.cmp k l ≢ eq → k ≢ l
differ k l h e = h (ap (text_ord.cmp k) (sym e) ∙ text_ord.cmp_self k)

-- None of the three keys is left.
abbrev pub HidesPii : Object → Type 0
HidesPii map =
    (object_get "name" map ≡ none)
    × (object_get "email" map ≡ none)
    × (object_get "phone" map ≡ none)

remove_pii-HidesPii : (inner : Object) → HidesPii (remove_pii inner)
unfolding remove_pii
remove_pii-HidesPii inner = (
  object_get-object_remove_ne "name" "phone" _ (differ "name" "phone" (λ e. cc))
      ∙ object_get-object_remove_ne "name" "email" _ (differ "name" "email" (λ e. cc))
      ∙ object_get-object_remove_self "name" inner,
  object_get-object_remove_ne "email" "phone" _ (differ "email" "phone" (λ e. cc))
      ∙ object_get-object_remove_self "email" _,
  object_get-object_remove_self "phone" _,
)

-- The object at the event's type.
index-whole :
    (event : SerializedEvent) (inner : Object)
    → index (whole event inner).payload event.event_type ≡ object inner
unfolding index
index-whole event inner = ap or_null (object_get-entry event.event_type (object inner) end)

index_found :
    (k : String) (v : Value) (inner : Object)
    → object_get k inner ≡ some v
    → index (object inner) k ≡ v
unfolding index
index_found k v inner h = ap or_null h

pii_fields :
    (inner : Object) (name email phone : Value)
    → object_get "name" inner ≡ some name
    → object_get "email" inner ≡ some email
    → object_get "phone" inner ≡ some phone
    → (index (pii_of inner) "name" ≡ name)
      × (index (pii_of inner) "email" ≡ email)
      × (index (pii_of inner) "phone" ≡ phone)
unfolding pii_of index object_get object_insert
pii_fields inner name email phone n e ph = (ap or_null n, ap or_null e, ap or_null ph)

module _ (enc : Encodings) (jb : JsonBytes) (event : SerializedEvent) (inner : Object)
    (is_captured : event.event_type ≡ "PersonCaptured") where
  -- For a `PersonCaptured` event whose object has a subject that is parsed, a name, an email and a
  -- phone, and not the keys of the legacy shape, and if its secrets are read from JSON as they are
  -- written: `extract_partitions` takes out one partition of the subject and leaves none of the
  -- three keys, and `reconstruct` from that partition gives an event whose object has at every key
  -- what it had.
  pub reconstruct-extract_partitions :
      (u : Uuid) (text : String) (name email phone : Value)
      → jb.from_slice (jb.to_vec (pii_of inner)) ≡ ok (pii_of inner)
      → object_get "subject_id" inner ≡ some (string text)
      → enc.parse_uuid text ≡ some u
      → object_get "name" inner ≡ some name
      → object_get "email" inner ≡ some email
      → object_get "phone" inner ≡ some phone
      → object_get "encrypted_pii" inner ≡ none
      → object_get "nonce" inner ≡ none
      → (inner' : Object) × (extract_partitions enc jb (whole event inner)
          ≡ ok (whole event (remove_pii inner), default_partition enc jb u (pii_of inner) ∷ []))
        × HidesPii (remove_pii inner)
        × (reconstruct enc jb
              (whole event (remove_pii inner))
              (all_decrypted (default_partition enc jb u (pii_of inner) ∷ []))
            ≡ ok (whole event inner'))
        × ((k : String) → object_get k inner' ≡ object_get k inner)
  unfolding extract_partitions extract_captured reconstruct reconstruct_captured
  reconstruct-extract_partitions u text name email phone reads s parsed n e ph c o =
      let kind = (eq_iff event.event_type "PersonCaptured").1 is_captured in
      let (f, g, h) = pii_fields inner name email phone n e ph in
      (
        put_pii name email phone (remove_pii inner),
        rw
            (
              kind,
              index-whole event inner,
              index_found "subject_id" (string text) inner s,
              parsed,
              change_inner-whole remove_pii event inner,
            )
            refl,
        remove_pii-HidesPii inner,
        rw
            (
              kind,
              reads,
              f,
              g,
              h,
              change_inner-whole (put_pii name email phone) event (remove_pii inner),
            )
            refl,
        λ k. get-put_pii k name email phone inner c o ∙ with_same k name email phone inner n e ph,
      )

  -- For a `PersonCaptured` event without the keys of the legacy shape, after the secrets were
  -- taken out, `redact_partitions` with the label `default` gives an event whose name and email
  -- are `[redacted]`, whose phone is null, and which has at every other key what it had.
  pub redact_partitions_lem :
      (labels : List String)
      → has_label labels "default" ≡ true
      → object_get "encrypted_pii" inner ≡ none
      → object_get "nonce" inner ≡ none
      → (inner' : Object) × (redact_partitions enc jb (whole event (remove_pii inner)) labels
          ≡ ok (whole event inner'))
        × ((k : String) → object_get k inner' ≡ with_pii redacted_text redacted_text null inner k)
  unfolding redact_partitions redact_captured
  redact_partitions_lem labels listed c o =
      let kind = (eq_iff event.event_type "PersonCaptured").1 is_captured in
      (
        put_pii redacted_text redacted_text null (remove_pii inner),
        rw
            (
              kind,
              listed,
              change_inner-whole (put_pii redacted_text redacted_text null) event
                  (remove_pii inner),
            )
            refl,
        λ k. get-put_pii k redacted_text redacted_text null inner c o,
      )
