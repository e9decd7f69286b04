-- ===== src/Examples/Fixtures.antt =====
-- Concrete crates, services, journeys and ciphers, and commands run on them.
use Prim.Native.Char.{Char, code}
use Prim.Native.String.{◌++◌ as text_append}
use journey_dynamics.Base.{
  ℕ, arith, String, false, Option, length, ltb, ap₂, key-cases, inl, inr, nat_ord, ◌≡◌, ◌≢◌, none,
  some, List, [], ◌∷◌, ◌++◌, Result, ok, err, ◌==◌, refl, drop, if◌then◌else◌,
}
use journey_dynamics.Base.Text
use journey_dynamics.Base.Partial.{some-eq-some}
use journey_dynamics.Json.{Value, string, object, entry, empty_object, PointerBuf, Changes, Crates}
use journey_dynamics.Domain.Schema.{AttributeSchema}
use journey_dynamics.Domain.Journey.{Journey, PersonSlot, in_progress, complete}
use journey_dynamics.Services.{WorkflowDecision, JourneyServices, no_op_validator}
use journey_dynamics.Crypto.Primitives.{Bytes, zeros, Primitives, GcmOpens, GcmRejects, KwpUnwraps}
use journey_dynamics.Crypto.Events.{SerializedEvent}
use journey_dynamics.Crypto.Repository.{ReplayStreams}
use journey_dynamics.Crypto.Repository.Streams.{Buffers}

-- Pointers by their segments.
abbrev push : Char → List String → List String
push c [] = String.◌∷◌ c String.[] ∷ []
push c (s ∷ ss) = String.◌∷◌ c s ∷ ss

abbrev segments : String → List String
segments String.[] = "" ∷ []
segments (String.◌∷◌ c s) = let rest = segments s in if code c == 47 then "" ∷ rest else push c rest

abbrev join : List String → String
join [] = ""
join (s ∷ ss) = text_append "/" (text_append s (join ss))

-- The document keeps each value at its whole path.
abbrev put : PointerBuf → Value → Value → Result String Value
put path v (object map) = ok (object (entry path v map))
put path v _ = err "not an object"

abbrev pub crates : Crates
crates = record {
  merge = λ target patch. patch;
  assign = put;
  tokens = λ path. drop 1 (segments path);
  from_tokens = join;
  parse = λ text. some text;
  strip_prefix = λ path prefix. Text.strip_prefix prefix path;
  with_trailing_token = λ prefix key. text_append prefix (text_append "/" key);
  index_token = λ i. "0";
  uuid_to_string = λ u. "uuid";
}

-- Names are secret, seats and everything below "trip" are not.
abbrev pub schema : AttributeSchema
schema = record {
  paths = [];
  json_schema = none;
  permissive = false;
  namespace_patterns =
      record { namespace = "persons"; secret_fields = "name" ∷ []; plaintext_fields = "seat" ∷ [] }
      ∷ [];
  plaintext_prefixes = "trip" ∷ [];
}

abbrev no_steps : WorkflowDecision
no_steps = record { suggested_actions = []; phase = none }

abbrev pub services : JourneyServices
services = record {
  decision_engine = record {
    evaluate_next_steps = λ j step v. ok no_steps;
    evaluate_attributes = λ j changes. ok no_steps;
  };
  schema_validator = no_op_validator;
  attribute_schema = schema;
}

abbrev pub ada : PersonSlot
ada = record {
  subject_id = 3;
  name = some "Ada";
  email = none;
  phone = none;
  details = empty_object;
  forgotten = false;
}

abbrev pub booking : Journey
booking = record {
  id = 7;
  state = in_progress;
  shared_data = empty_object;
  persons = ("ada", ada) ∷ [];
  current_step = none;
  latest_workflow_decision = none;
}

abbrev pub booked : Journey
booked = record booking { state = complete }

-- A secret and a plaintext change, in the order of their paths.
abbrev pub changes : Changes
changes = ("/persons/ada/name", string "Ada L.") ∷ ("/trip/to", string "Oslo") ∷ []

abbrev pub trip : Changes
trip = ("/trip/to", string "Oslo") ∷ []

-- Ciphers that leave the text readable: the sealed text is the message, and a wrapped key is eight
-- bytes and the key.
abbrev pad : Bytes → Bytes
pad key = zeros 8 ++ key

abbrev pub clear : Primitives
clear = record {
  gcm_encrypt = λ key nonce msg aad. some msg;
  gcm_decrypt = λ key nonce sealed aad. some sealed;
  wrap_key = λ kek key buf. ok (pad key);
  unwrap_key = λ kek wrapped buf. ok (drop 8 wrapped);
}

pub clear-GcmOpens : GcmOpens clear
clear-GcmOpens key nonce msg aad k = (msg, refl, refl)

pub clear-KwpUnwraps : KwpUnwraps clear
clear-KwpUnwraps kek key k d = (pad key, refl, omega arith, refl)

-- A cipher that writes the key before the message, and opens what begins with its key.
abbrev strip_bytes : Bytes → Bytes → Option Bytes
strip_bytes [] bytes = some bytes
strip_bytes (b ∷ key) [] = none
strip_bytes (b ∷ key) (c ∷ bytes) =
    let rest = strip_bytes key bytes in if b == c then rest else none

abbrev pub keyed : Primitives
keyed = record {
  gcm_encrypt = λ key nonce msg aad. some (key ++ msg);
  gcm_decrypt = λ key nonce sealed aad. strip_bytes key sealed;
  wrap_key = λ kek key buf. ok (pad key);
  unwrap_key = λ kek wrapped buf. ok (drop 8 wrapped);
}

strip_own : (key msg : Bytes) → strip_bytes key (key ++ msg) ≡ some msg
strip_own [] msg = refl
strip_own (b ∷ key) msg = ground (arith, strip_own key msg)

strip_other :
    (key other msg : Bytes)
    → length key ≡ length other
    → other ≢ key
    → strip_bytes other (key ++ msg) ≡ none
strip_other [] [] msg k ne = absurd (ne refl)
strip_other [] (c ∷ other) msg k ne = absurd (omega (arith, k))
strip_other (b ∷ key) [] msg k ne = absurd (omega (arith, k))
strip_other (b ∷ key) (c ∷ other) msg k ne = elim (key-cases c b) [
  | inl same ↦
      ground (
        arith,
        strip_other key other msg (omega (arith, k)) (λ e. ne (ap₂ (λ x xs. x ∷ xs) same e)),
      )
  | inr differ ↦ ground arith
]

pub keyed-GcmOpens : GcmOpens keyed
keyed-GcmOpens key nonce msg aad k = (key ++ msg, refl, strip_own key msg)

pub keyed-GcmRejects : GcmRejects keyed
keyed-GcmRejects key other nonce msg aad sealed k o ne e =
    rw (← some-eq-some e) (strip_other key other msg (omega (arith, k, o)) ne)

-- A queue as its room and its events.
abbrev pub queues : ReplayStreams (ℕ × List SerializedEvent)
queues = record {
  new = λ n. if n == 0 then none else some (n, []);
  push = λ event feed.
      if ltb (length feed.1) feed.0 then some (ok (feed.0, feed.1 ++ event ∷ [])) else none;
  room = λ feed. feed.0;
  queued = λ feed. feed.1;
}

pub queues-Buffers : Buffers queues
queues-Buffers = (
  λ n h. ((n, []), ground arith, refl, refl),
  λ event feed h. ((feed.0, feed.1 ++ event ∷ []), ground arith, refl, refl),
)
