-- ===== src/Crypto/Reading/Restored.antt =====
-- What the reading of an event has to give, told apart by which subjects still have a key.
use journey_dynamics.Base.{
  String, Bool, Option, none, some, List, [], ◌∷◌, map, filter, is_some, not, Result, ok, err,
  ◌>>=◌, if◌then◌else◌, ◌≡◌, refl, ap, ap₂, ◌∙◌, All, All_mono,
}
use journey_dynamics.Json.{Uuid}
use journey_dynamics.Crypto.Primitives.{Primitives, Failure, panic, error}
use journey_dynamics.Crypto.Cipher.{KeyMaterial}
use journey_dynamics.Crypto.Events.{
  SerializedEvent, SecretPartition, DecryptedPartition, PiiCodecError, codec_error, PiiEventCodec,
  Encodings,
}
use journey_dynamics.Crypto.Envelope.{Persisted, boxed}
use journey_dynamics.Crypto.Reading.{sort_opened, redact, put_back}
use journey_dynamics.Crypto.Reading.RoundTrip.Parts.{outcome, outcomes}

-- A partition as the codec gets it back.
abbrev pub given_back : SecretPartition → DecryptedPartition
given_back part = record {
  subject_id = part.subject_id;
  label = part.label;
  payload = part.payload;
}

-- The partitions of the subjects that have a key, and the labels of all others.
abbrev pub readable : (Uuid → Bool) → List SecretPartition → List DecryptedPartition
readable has parts = map given_back (filter (λ (part : SecretPartition). has part.subject_id) parts)

abbrev pub label_of : SecretPartition → String
label_of part = part.label

abbrev pub lost : (Uuid → Bool) → List SecretPartition → List String
lost has parts = map label_of (filter (λ (part : SecretPartition). not (has part.subject_id)) parts)

-- `redact_partitions` where a label is lost, and nothing where none is.
abbrev pub hidden :
    PiiEventCodec → List String → SerializedEvent → Result (Failure PiiCodecError) SerializedEvent
hidden codec [] event = ok event
hidden codec (label ∷ labels) event = codec.redact_partitions event (label ∷ labels)

-- The answer to a read of one event: the event, or the codec's error.
abbrev pub answer :
    Result (Failure PiiCodecError) SerializedEvent → Persisted (List SerializedEvent)
answer (ok event) = ok (event ∷ [])
answer (err panic) = err panic
answer (err (error e)) = err (error (codec_error e))

-- The event is reconstructed from the readable partitions, and the labels of all others are redacted.
abbrev pub restored :
    PiiEventCodec
    → SerializedEvent
    → (Uuid → Bool)
    → List SecretPartition
    → Persisted (List SerializedEvent)
restored codec event has parts =
    answer (
      codec.reconstruct event (readable has parts) >>= λ whole. hidden codec (lost has parts) whole)

abbrev pub one : Persisted SerializedEvent → Persisted (List SerializedEvent)
one r = r >>= λ event. ok (event ∷ [])

sort_opened-outcome :
    (o : Option KeyMaterial) (part : SecretPartition) (rest rest' : List SecretPartition)
    → sort_opened (outcome o part) (map given_back rest, map label_of rest') ≡ (
      map given_back (if is_some o then part ∷ rest else rest),
      map label_of (if not (is_some o) then part ∷ rest' else rest'),
    )
sort_opened-outcome none part rest rest' = refl
sort_opened-outcome (some dek) part rest rest' = refl

outcomes_lem :
    (key : Uuid → Option KeyMaterial) (parts : List SecretPartition)
    → outcomes key parts
      ≡ (readable (λ u. is_some (key u)) parts, lost (λ u. is_some (key u)) parts)
outcomes_lem key [] = refl
outcomes_lem key (part ∷ parts) =
    ap (sort_opened (outcome (key part.subject_id) part)) (outcomes_lem key parts)
    ∙ sort_opened-outcome (key part.subject_id) part
        (filter (λ (x : SecretPartition). is_some (key x.subject_id)) parts)
        (filter (λ (x : SecretPartition). not (is_some (key x.subject_id))) parts)

module _ (p : Primitives) (enc : Encodings) (codec : PiiEventCodec) where
  one-boxed :
      (r : Result (Failure PiiCodecError) SerializedEvent) → one (boxed codec_error r) ≡ answer r
  one-boxed (ok event) = refl
  one-boxed (err panic) = refl
  one-boxed (err (error e)) = refl

  one-redact :
      (labels : List String) (r : Result (Failure PiiCodecError) SerializedEvent)
      → one (boxed codec_error r >>= λ whole. redact p enc codec labels whole)
        ≡ answer (r >>= λ whole. hidden codec labels whole)
  one-redact [] (ok whole) = refl
  one-redact (label ∷ labels) (ok whole) =
      one-boxed (codec.redact_partitions whole (label ∷ labels))
  one-redact labels (err panic) = refl
  one-redact labels (err (error e)) = refl

  -- `put_back` on the outcomes of all partitions is what a reading has to give.
  pub one-put_back :
      (event : SerializedEvent) (key : Uuid → Option KeyMaterial) (parts : List SecretPartition)
      → one (put_back p enc codec event (outcomes key parts))
        ≡ restored codec event (λ u. is_some (key u)) parts
  unfolding put_back
  one-put_back event key parts =
      let has = λ (u : Uuid). is_some (key u) in
      ap (λ o. one (put_back p enc codec event o)) (outcomes_lem key parts)
      ∙ one-redact (lost has parts) (codec.reconstruct event (readable has parts))

filter_same :
    (f g : SecretPartition → Bool) (parts : List SecretPartition)
    → All (λ part. f part ≡ g part) parts
    → filter f parts ≡ filter g parts
filter_same f g [] h = refl
filter_same f g (part ∷ parts) h =
    ap₂ (λ b rest. if b then part ∷ rest else rest) h.0 (filter_same f g parts h.1)

-- Where the same subjects have a key, the same has to be given.
pub restored_same :
    (codec : PiiEventCodec) (event : SerializedEvent) (has has' : Uuid → Bool)
    (parts : List SecretPartition)
    → All (λ (part : SecretPartition). has part.subject_id ≡ has' part.subject_id) parts
    → restored codec event has parts ≡ restored codec event has' parts
restored_same codec event has has' parts h =
    ap₂
      (λ kept gone. answer (
        codec.reconstruct event (map given_back kept) >>= λ whole.
        hidden codec (map label_of gone) whole))
      (filter_same (λ part. has part.subject_id) (λ part. has' part.subject_id) parts h)
      (filter_same (λ part. not (has part.subject_id)) (λ part. not (has' part.subject_id)) parts
        (All_mono (λ part e. ap not e) parts h))
