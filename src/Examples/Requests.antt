-- ===== src/Examples/Requests.antt =====
-- Requests: a body in the nested form, and the responses to commands.
use journey_dynamics.Base.{ℕ, suc, String, true, none, some, Result, ok, ◌≡◌, ◌≢◌, refl}
use journey_dynamics.Base.BTreeMap.{insert}
use journey_dynamics.Json.{Value, string, object, entry, end, Object}
use journey_dynamics.Json.Map.{object_get, object_insert}
use journey_dynamics.Domain.Commands.{JourneyCommand, start, complete}
use journey_dynamics.Domain.JsonPath.{flatten, flatten_into}
use journey_dynamics.Requests.{
  collect, is_canonical, normalize_set_attributes, from_request, created, bad_request, no_content,
  command_handler,
}
use journey_dynamics.Requests.Normal.{IsNormal, normalize_set_attributes-IsNormal}
use journey_dynamics.Examples.Fixtures.{crates}

abbrev nested : Value
nested = object (
    entry "SetAttributes" (object (entry "search" (object (entry "origin" (string "LHR") end)) end))
      end)

abbrev flat : Value
flat = object (
    entry "SetAttributes"
      (object (entry "changes" (object (entry "/search/origin" (string "LHR") end)) end)) end)

nested_is_flattened : normalize_set_attributes crates nested ≡ flat
unfolding normalize_set_attributes object_get object_insert is_canonical collect flatten
    flatten_into insert
nested_is_flattened = refl

flat_is_kept : normalize_set_attributes crates flat ≡ flat
unfolding normalize_set_attributes object_get is_canonical
flat_is_kept = refl

-- An empty body starts a journey, at the path `/journeys` only.
empty_body : from_request crates (λ s. none) (λ v. none) 7 "/journeys" "" ≡ some (start 7)
unfolding from_request
empty_body = refl

empty_body_elsewhere : from_request crates (λ s. none) (λ v. none) 7 "/journeys/7" "" ≡ none
unfolding from_request
empty_body_elsewhere = refl

-- The journal counts the commands.
abbrev execute : String → JourneyCommand → ℕ → Result String (Unit {0}) × ℕ
execute id command n = (ok tt, suc n)

post_creates :
    command_handler (λ u. "7") (λ s. true) execute none (start 7) 0 ≡ (created "/journeys/7", 1)
unfolding command_handler
post_creates = refl

post_to_journey :
    command_handler (λ u. "7") (λ s. true) execute (some 7) complete 0 ≡ (no_content, 1)
unfolding command_handler
post_to_journey = refl

post_needs_start :
    command_handler (λ u. "7") (λ s. true) execute none complete 0
    ≡ (bad_request "Journey creation requires a Start command", 0)
unfolding command_handler
post_needs_start = refl

abbrev sections : Object
sections = entry "search" (object (entry "origin" (string "LHR") end)) end

abbrev body : Object
body = entry "SetAttributes" (object sections) end

held : object_get "SetAttributes" body ≡ some (object sections)
unfolding object_get
held = refl

is_nested : (v : Value) → sections ≢ entry "changes" v end
is_nested v h = cc

normalize_set_attributes-IsNormal_example :
    (result : Object) × (normalize_set_attributes crates (object body) ≡ object result)
    × IsNormal crates body sections result
    × (normalize_set_attributes crates (object result) ≡ object result)
normalize_set_attributes-IsNormal_example =
    normalize_set_attributes-IsNormal crates body sections held is_nested
