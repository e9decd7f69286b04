-- ===== src/Crypto/Reading/RoundTrip.antt =====
-- An event that was encrypted and is decrypted again, with the keys that are still there.
pub mod Parts
use journey_dynamics.Base.{
  ℕ, String, Bool, true, false, Option, none, some, List, [], ◌∷◌, map, Result, ok, err, ◌>>=◌,
  text_ord, ◌≡◌, ◌≢◌, refl, sym, ap, subst, ◌∙◌, arith,
}
use journey_dynamics.Json.{Value, Values, object, array, string, Object, end, entry}
use journey_dynamics.Json.Map.{
  object_get, object_insert, object_remove, object_get-entry, object_insert-entry, or_null, index,
  as_object, set_index, object_get-object_insert_self, object_get-object_insert_ne,
  object_remove-object_insert,
}
use journey_dynamics.Crypto.Primitives.{Failure, expect, Primitives, GcmOpens}
use journey_dynamics.Crypto.KeyStore.{InMemoryKeyStore, get_key, in_memory}
use journey_dynamics.Crypto.Events.{
  SerializedEvent, SecretPartition, DecryptedPartition, PiiEventCodec, Encodings,
}
use journey_dynamics.Crypto.Envelope.{
  add_envelope, remove_envelope, change_inner, Persisted, Sealed, to_values, from_values, as_array,
}
use journey_dynamics.Crypto.Writing.{
  Draw, and_then, encrypt_parts, encrypt_extracted, encrypt_event,
}
use journey_dynamics.Crypto.Reading.{
  DekCache, cached, open_parts, put_back, decrypt_parts, decrypt_shape, envelope_of, decrypt_event,
}
use journey_dynamics.Crypto.KeyStore.Holding.{StoreSized}
use journey_dynamics.Crypto.Reading.RoundTrip.Parts.{
  Decodes, DrawsSized, Agrees, outcomes, SealedParts, encrypt_parts-SealedParts,
}

-- The event with this object at its type, as an enum is serialised.
abbrev pub whole : SerializedEvent → Object → SerializedEvent
whole event inner = record event { payload = object (entry event.event_type (object inner) end) }

from_values-to_values : (vs : List Value) → from_values (to_values vs) ≡ vs
from_values-to_values [] = refl
from_values-to_values (v ∷ vs) = ap (λ ws. v ∷ ws) (from_values-to_values vs)

pub change_inner-whole :
    (f : Object → Object) (event : SerializedEvent) (inner : Object)
    → change_inner f (whole event inner) ≡ some (whole event (f inner))
unfolding change_inner index set_index
change_inner-whole f event inner =
    rw
      (
        change_inner,
        object_get-entry event.event_type (object inner) end,
        object_insert-entry event.event_type (object (f inner)) (object inner) end,
      )
      refl

pub envelope_of-whole :
    (p : Primitives) (enc : Encodings) (codec : PiiEventCodec) (event : SerializedEvent)
    (sealed : List Sealed) (inner : Object)
    → envelope_of p enc codec (whole event (add_envelope sealed inner))
      ≡ some (map (λ (s : Sealed). s.part) sealed)
unfolding index add_envelope
envelope_of-whole p enc codec event sealed inner =
    let parts = map (λ (s : Sealed). s.part) sealed in
    ap (λ o. as_array (index (or_null o) "encrypted_partitions"))
      (object_get-entry event.event_type (object (add_envelope sealed inner)) end)
    ∙ ap (λ o. as_array (or_null o))
        (object_get-object_insert_self "encrypted_partitions" (array (to_values parts)) _)
    ∙ ap some (from_values-to_values parts)

keys_differ : ◌≢◌ {A = String} "encrypted_partitions" "subjects"
keys_differ h = cc

remove_envelope-add_envelope :
    (sealed : List Sealed) (inner : Object)
    → object_get "encrypted_partitions" inner ≡ none
    → object_get "subjects" inner ≡ none
    → remove_envelope (add_envelope sealed inner) ≡ inner
unfolding remove_envelope add_envelope
remove_envelope-add_envelope sealed inner e s =
    ap (object_remove "subjects") (
      object_remove-object_insert "encrypted_partitions" _ _
        (object_get-object_insert_ne "encrypted_partitions" "subjects" _ inner keys_differ ∙ e))
    ∙ object_remove-object_insert "subjects" _ inner s

module _ (p : Primitives) (enc : Encodings) (codec : PiiEventCodec) where
  -- Reading what the loop over the partitions has sealed.
  pub decrypt_parts-sealed :
      (cache : DekCache) (event : SerializedEvent) (inner : Object) (sealed : List Sealed)
      (opened : Persisted (List DecryptedPartition × List String))
      → object_get "encrypted_partitions" inner ≡ none
      → object_get "subjects" inner ≡ none
      → open_parts p enc codec cache (whole event inner) (map (λ (s : Sealed). s.part) sealed)
        ≡ opened
      → decrypt_event p enc codec cache (whole event (add_envelope sealed inner))
        ≡ (opened >>= put_back p enc codec (whole event inner))
  unfolding decrypt_event decrypt_parts
  decrypt_parts-sealed cache event inner sealed opened e s ran =
      rw
        (
          envelope_of-whole p enc codec event sealed inner,
          change_inner-whole remove_envelope event (add_envelope sealed inner),
          remove_envelope-add_envelope sealed inner e s,
          ran,
        )
        refl

  -- The written event, and what its partitions open to.
  pub encrypt_event-sealed :
      (draw : ℕ → Draw) (n : ℕ) (event extracted : SerializedEvent) (inner : Object)
      (part : SecretPartition) (parts : List SecretPartition) (s : InMemoryKeyStore)
      → GcmOpens p
      → Decodes enc
      → DrawsSized draw
      → StoreSized s
      → codec.extract_partitions event ≡ ok (whole extracted inner, part ∷ parts)
      → (sealed : List Sealed) × (s' : InMemoryKeyStore) × (encrypt_event p enc codec in_memory draw
            n event s
          ≡ (ok (whole extracted (add_envelope sealed inner)), s'))
        × SealedParts p enc codec (whole extracted inner) (part ∷ parts) s sealed s'
  unfolding encrypt_event
  encrypt_event-sealed draw n event extracted inner part parts s opens decodes sized h taken =
      let (sealed, s', ran, done) =
        encrypt_parts-SealedParts p enc codec draw (whole extracted inner) n (part ∷ parts) s opens
          decodes sized h in
      (
        sealed,
        s',
        rw (taken, ran, change_inner-whole (add_envelope sealed) extracted inner) refl,
        done,
      )
