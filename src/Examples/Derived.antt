-- ===== src/Examples/Derived.antt =====
-- The derive macro on an enum with one annotated variant, and its codec on an event.
use journey_dynamics.Base.{String, false, none, some, List, [], ◌∷◌, ok, ◌≡◌, ◌≢◌, refl, text_ord}
use journey_dynamics.Json.{null, string, object, entry, end, Object}
use journey_dynamics.Json.Map.{object_get, index, set_index}
use journey_dynamics.Crypto.Events.{SerializedEvent}
use journey_dynamics.Crypto.Envelope.{change_inner}
use journey_dynamics.PiiCodec.{JsonBytes}
use journey_dynamics.Derive.Model.{
  PiiFieldModel, PiiVariantModel, subject, plaintext, secret, literal, RedactValue, subject_field,
  secret_fields,
}
use journey_dynamics.Derive.Options.{
  bare, text, Attribute, path_type, named, unit, Variant, find_pii_attr, variant_option,
  parse_variant_pii_attr, field_option, parse_field_pii_attr,
}
use journey_dynamics.Derive.Parse.{
  has_fixed_default, infer_redact, redact_of, parse_field, parse_fields, parse_named,
  parse_pii_variant, parse_pii_variants,
}
use journey_dynamics.Derive.Validation.{Models, annotated, parse_pii_variants-Models}
use journey_dynamics.Derive.Codec.{extract_single, secret_strs, arm_of, bundle}
use journey_dynamics.Derive.RoundTrip.{RoundTrips, Redacts, pii_codec_round_trip, pii_codec-Redacts}
use journey_dynamics.Derive.Redaction.{Shows, redaction_of}
use journey_dynamics.Examples.Codes.{stroke_codes, number_of}

abbrev flag : String → List Attribute
flag role = record { path = "pii"; args = some (record { path = role; value = bare } ∷ []) } ∷ []

abbrev sensitive : Variant
sensitive = record {
  ident = "SensitiveEvent";
  attrs =
      record {
        path = "pii";
        args = some (record { path = "event_type"; value = text "SensitiveEvent" } ∷ []);
      }
      ∷ [];
  fields = named (
      record { ident = "subject_id"; ty = path_type ("uuid" ∷ "Uuid" ∷ []); attrs = flag "subject" }
      ∷ record { ident = "nonce"; ty = path_type ("String" ∷ []); attrs = flag "plaintext" }
      ∷ record { ident = "tag"; ty = path_type ("String" ∷ []); attrs = flag "plaintext" }
      ∷ record { ident = "note"; ty = path_type ("Option" ∷ []); attrs = flag "secret" }
      ∷ record { ident = "secret"; ty = path_type ("String" ∷ []); attrs = flag "secret" }
      ∷ []);
}

abbrev plain_event : Variant
plain_event = record { ident = "PlainEvent"; attrs = []; fields = unit }

abbrev enum : List Variant
enum = plain_event ∷ sensitive ∷ []

abbrev subject_model : PiiFieldModel
subject_model = record { ident = "subject_id"; role = subject; redact = none }

abbrev model : PiiVariantModel
model = record {
  event_type = "SensitiveEvent";
  sentinel = "encrypted_pii";
  fields =
      subject_model
      ∷ record { ident = "nonce"; role = plaintext; redact = none }
      ∷ record { ident = "tag"; role = plaintext; redact = none }
      ∷ record { ident = "note"; role = secret; redact = some RedactValue.null }
      ∷ record { ident = "secret"; role = secret; redact = some (literal "[redacted]") }
      ∷ [];
}

parsed : parse_pii_variants false enum ≡ ok (model ∷ [])
unfolding parse_pii_variants find_pii_attr variant_option parse_variant_pii_attr field_option
    parse_field_pii_attr has_fixed_default infer_redact redact_of parse_field parse_fields
    parse_named parse_pii_variant
parsed = refl

parse_pii_variants-Models_example : Models (annotated enum) (model ∷ [])
parse_pii_variants-Models_example = parse_pii_variants-Models false enum parsed

abbrev inner : Object
inner = entry "nonce" (string "1") (
    entry "note" null (
      entry "secret" (string "s")
        (entry "subject_id" (string "xxx") (entry "tag" (string "t") end))))

abbrev event : SerializedEvent
event = record {
  aggregate_id = "7";
  sequence = 1;
  aggregate_type = "Event";
  event_type = "SensitiveEvent";
  event_version = "1.0";
  payload = object end;
  metadata = object end;
}

-- JSON of one document.
abbrev one_document : JsonBytes
one_document = record {
  to_vec = λ v. 1 ∷ [];
  from_slice = λ bytes. ok (bundle ("note" ∷ "secret" ∷ []) inner);
}

armed : arm_of (model ∷ []) "SensitiveEvent" ≡ some model
unfolding arm_of
armed = refl

has_subject : subject_field model ≡ some subject_model
unfolding subject_field
has_subject = refl

identified : object_get "subject_id" inner ≡ some (string "xxx")
unfolding object_get
identified = refl

subject_parsed : stroke_codes.parse_uuid "xxx" ≡ some 3
unfolding number_of
subject_parsed = refl

read_again :
    one_document.from_slice (one_document.to_vec (bundle (secret_strs model) inner))
    ≡ ok (bundle (secret_strs model) inner)
unfolding secret_fields
read_again = refl

pii_codec_round_trip_example :
    RoundTrips stroke_codes one_document false enum
      (model ∷ [])
      parsed
      event
      model
      armed
      subject_model
      has_subject
      inner
      3
      "xxx"
      identified
      subject_parsed
      (secret_strs model)
unfolding secret_fields
pii_codec_round_trip_example =
    pii_codec_round_trip stroke_codes one_document false enum (model ∷ []) parsed event model armed
      subject_model has_subject inner 3 "xxx" identified subject_parsed tt read_again

pii_codec-Redacts_example :
    (inner' : Object) × Redacts stroke_codes one_document false enum
      (model ∷ [])
      parsed
      event
      model
      armed
      subject_model
      has_subject
      inner
      3
      "xxx"
      identified
      subject_parsed
      ("default" ∷ [])
      inner'
pii_codec-Redacts_example =
    pii_codec-Redacts stroke_codes one_document false enum (model ∷ []) parsed event model armed
      subject_model has_subject inner 3 "xxx" identified subject_parsed ("default" ∷ []) refl

-- What the keys of this event have to show after the redaction.
secret_shown :
    Shows (redaction_of "secret" model.fields) (some (string "s")) (some (string "[redacted]"))
secret_shown = refl

note_shown : Shows (redaction_of "note" model.fields) (some (string "n")) (some null)
note_shown = refl

tag_shown : Shows (redaction_of "tag" model.fields) (some (string "t")) (some (string "t"))
tag_shown = refl

-- One secret whose value is null is left in the event.
null_stays : extract_single stroke_codes one_document 3 "note" null event ≡ ok (event, [])
null_stays = refl

-- Any other value is taken out.
text_goes : extract_single stroke_codes one_document 3 "note" (string "s") event ≢ ok (event, [])
unfolding change_inner index set_index
text_goes h = cc
