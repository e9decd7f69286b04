-- ===== src/Requests.antt =====
-- crates/journey_dynamics/src/command_extractor.rs, and `command_handler` of
-- crates/journey_dynamics/src/route_handler.rs: from the body of a request to the response. The
-- deserialisation by serde, the header values of http and the execution of a command by `cqrs_es` are
-- parameters; the metadata of a request is left out.
pub mod Normal
use Prim.Native.String.{◌++◌ as text_append}
use journey_dynamics.Base.{
  ℕ, suc, String, Bool, true, false, ◌&&◌, Option, none, some, List, [], ◌∷◌, Result, ok, err,
  is_some, str_eq, ◌==◌, if◌then◌else◌,
}
use journey_dynamics.Json.{Crates, Uuid, Value, object, Object, end, entry, Changes}
use journey_dynamics.Json.Map.{object_get, object_insert, as_object}
use journey_dynamics.Domain.Commands.{JourneyCommand, start}
use journey_dynamics.Domain.JsonPath.{flatten}

abbrev pub object_len : Object → ℕ
object_len end = 0
object_len (entry k v rest) = suc (object_len rest)

-- `collect` into a `serde_json::Map`.
unfoldable pub collect : Changes → Object
collect [] = end
collect ((path, val) ∷ changes) = object_insert path val (collect changes)

-- `{ "changes": … }` and nothing else.
unfoldable pub is_canonical : Object → Bool
is_canonical inner = (object_len inner == 1) && is_some (object_get "changes" inner)

module _ (c : Crates) where
  abbrev pub canonical : Value → Value
  canonical inner = object (entry "changes" (object (collect (flatten c inner))) end)

  -- What `SetAttributes` holds, if anything.
  abbrev pub normalize_inner : Object → Option Value → Value
  normalize_inner obj none = object obj
  normalize_inner obj (some inner) = elim (as_object inner) [
    | none ↦ object obj
    | some inner_obj ↦
        if is_canonical inner_obj
        then object obj
        else object (object_insert "SetAttributes" (canonical inner) obj)
  ]

  unfoldable pub normalize_set_attributes : Value → Value
  unfolding object_get object_insert is_canonical collect
  normalize_set_attributes value = elim (as_object value) [
    | none ↦ value
    | some obj ↦ normalize_inner obj (object_get "SetAttributes" obj)
  ]

  abbrev pub command_of : (Value → Option JourneyCommand) → Option Value → Option JourneyCommand
  command_of from_value none = none
  command_of from_value (some raw) = from_value (normalize_set_attributes raw)

  -- The command of a request with this path and body; `none` is `CommandExtractionError`. `id` is
  -- the fresh id of a start.
  unfoldable pub from_request :
      (String → Option Value)
      → (Value → Option JourneyCommand)
      → Uuid
      → String
      → String
      → Option JourneyCommand
  unfolding normalize_set_attributes
  from_request from_slice from_value id uri_path body =
      if str_eq body ""
      then if str_eq uri_path "/journeys" then some (start id) else none
      else command_of from_value (from_slice body)

-- The responses, with the location or the message.
pub data Response : Type 0 where
  created : String → Response
  no_content : Response
  bad_request : String → Response
  internal_server_error : String → Response

abbrev pub starts : JourneyCommand → Bool
starts (start id) = true
starts _ = false

-- The id of the journey, and whether it is being created.
abbrev pub target_of : Option Uuid → JourneyCommand → Option (Uuid × Bool)
target_of (some id) command = some (id, starts command)
target_of none (start id) = some (id, true)
target_of none _ = none

module _ {J : Type 0} (uuid_to_string : Uuid → String) (is_header_value : String → Bool)
    (execute : String → JourneyCommand → J → Result String (Unit {0}) × J) where
  abbrev pub location : Uuid → String
  location id = text_append "/journeys/" (uuid_to_string id)

  abbrev pub response_of : Uuid → Bool → Result String (Unit {0}) → Response
  response_of id is_creating (err e) = bad_request e
  response_of id false (ok done) = no_content
  response_of id true (ok done) =
      if is_header_value (location id)
      then created (location id)
      else internal_server_error "Failed to create location header"

  unfoldable pub command_handler : Option Uuid → JourneyCommand → J → Response × J
  command_handler path command journal = elim (target_of path command) [
    | none ↦ (bad_request "Journey creation requires a Start command", journal)
    | some (journey_id, is_creating) ↦
        let (result, journal') = execute (uuid_to_string journey_id) command journal in
        (response_of journey_id is_creating result, journal')
  ]
