-- ===== src/Domain/Schema/Groups.antt =====
-- The order of the groups of `classify_changes`, and what its list of unknown paths holds.
use journey_dynamics.Base.{Option, none, some, [], ◌∷◌, All, ◌≡◌, nat_ord, text_ord}
use journey_dynamics.Base.BTreeMap.{IsOrdered, insert-IsOrdered}
use journey_dynamics.Json.{Uuid, Value, PointerBuf, Changes, Crates}
use journey_dynamics.Domain.Schema.{
  PiiClass, plaintext, secret, AttributeSchema, classify, Classification, add_secret, route_secret,
  route, classify_from, classify_changes,
}
use journey_dynamics.Domain.Schema.Destination.{to_unknown, destination}
use journey_dynamics.Domain.Schema.Routing.{unknown-classify_from}

module _ (c : Crates) (schema : AttributeSchema) (subject_lookup : PointerBuf → Option Uuid) where
  groups-route_secret :
      (o : Option Uuid) (q : PointerBuf) (v : Value) (acc : Classification)
      → IsOrdered acc.secret_by_subject
      → IsOrdered (route_secret o q v acc).secret_by_subject
  unfolding route_secret add_secret
  groups-route_secret none q v acc h = h
  groups-route_secret (some u) q v acc h = insert-IsOrdered u _ acc.secret_by_subject h

  groups-route :
      (cls : Option PiiClass) (q : PointerBuf) (v : Value) (acc : Classification)
      → IsOrdered acc.secret_by_subject
      → IsOrdered (route c schema subject_lookup cls q v acc).secret_by_subject
  unfolding route
  groups-route none q v acc h = h
  groups-route (some plaintext) q v acc h = h
  groups-route (some (secret subject)) q v acc h =
      groups-route_secret (subject_lookup subject) q v acc h

  groups-classify_from :
      (changes : Changes) (acc : Classification)
      → IsOrdered acc.secret_by_subject
      → IsOrdered (classify_from c schema subject_lookup changes acc).secret_by_subject
  unfolding classify_from
  groups-classify_from [] acc h = h
  groups-classify_from ((q, v) ∷ changes) acc h =
      groups-classify_from changes (route c schema subject_lookup (classify c schema q) q v acc)
        (groups-route (classify c schema q) q v acc h)

  -- The groups of `classify_changes` are in the order of their subjects.
  pub groups-IsOrdered :
      (changes : Changes)
      → IsOrdered (classify_changes c schema subject_lookup changes).secret_by_subject
  unfolding classify_changes
  groups-IsOrdered changes = groups-classify_from changes _ tt

  pub unknown_destinations :
      (changes : Changes)
      → All
          (λ p. destination c schema subject_lookup p ≡ to_unknown)
          (classify_changes c schema subject_lookup changes).unknown
  unfolding classify_changes
  unknown_destinations changes = unknown-classify_from c schema subject_lookup changes _ tt
