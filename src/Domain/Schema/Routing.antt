-- ===== src/Domain/Schema/Routing.antt =====
-- The loop of `classify_changes` against the destinations of the paths.
use journey_dynamics.Base.{
  ◌&&◌, ◌||◌, str_eq, eq_iff, ◌∙◌, ap, Option, none, some, [], ◌∷◌, ◌≡◌, refl, ◌≢◌, inl, inr, arith,
  text_ord, nat_ord, key-cases, All, All-append, is_some,
}
use journey_dynamics.Base.BTreeMap.{
  get, IsOrdered, get-insert_self, get-insert_ne, get-IsAfter, get-cons_self, get-cons_ne, get-nil,
}
use journey_dynamics.Json.{Uuid, Value, PointerBuf, Changes, Crates}
use journey_dynamics.Domain.Schema.{
  PiiClass, plaintext, secret, AttributeSchema, contains, route_secret, classify, Classification,
  route, classify_from, classify_changes,
}
use journey_dynamics.Domain.Schema.Destination.{
  to_unknown, value_in, secret_value, secret_value-add_secret_same, secret_value-add_secret_ne,
  contains-append, plaintext_at, secret_at, is_unknown, resolved, class_destination, destination,
}

module _ (c : Crates) (schema : AttributeSchema) (subject_lookup : PointerBuf → Option Uuid) where
  plaintext-route_self :
      (cls : Option PiiClass) (p : PointerBuf) (v : Value) (acc : Classification)
      → get p (route c schema subject_lookup cls p v acc).plaintext
        ≡ plaintext_at
            (class_destination c schema subject_lookup cls)
            (some v)
            (get p acc.plaintext)
  unfolding route
  plaintext-route_self none p v acc = refl
  plaintext-route_self (some plaintext) p v acc = get-insert_self p v acc.plaintext
  plaintext-route_self (some (secret subject)) p v acc = ground arith

  plaintext-route_ne :
      (cls : Option PiiClass) (p q : PointerBuf) (v : Value) (acc : Classification)
      → p ≢ q
      → get p (route c schema subject_lookup cls q v acc).plaintext ≡ get p acc.plaintext
  unfolding route
  plaintext-route_ne none p q v acc h = refl
  plaintext-route_ne (some plaintext) p q v acc h = get-insert_ne p q v acc.plaintext h
  plaintext-route_ne (some (secret subject)) p q v acc h = ground arith

  plaintext-classify_from :
      (p : PointerBuf) (changes : Changes) (acc : Classification)
      → IsOrdered changes
      → get p (classify_from c schema subject_lookup changes acc).plaintext
        ≡ plaintext_at (destination c schema subject_lookup p) (get p changes) (get p acc.plaintext)
  unfolding classify_from
  plaintext-classify_from p [] acc h = ground (arith, get-nil {V = Value} p)
  plaintext-classify_from p ((q, v) ∷ changes) acc h =
      let acc' = route c schema subject_lookup (classify c schema q) q v acc in
      elim (key-cases p q) [
        | inl same ↦ ground (
          arith,
          plaintext-classify_from p changes acc' h.1,
          plaintext-route_self (classify c schema p) p v acc,
          get-IsAfter q changes h.0,
          get-cons_self q v changes,
        )
        | inr other ↦ rw (
          plaintext-classify_from p changes acc' h.1,
          plaintext-route_ne (classify c schema q) p q v acc other,
          get-cons_ne p q v changes other,
        )
      ]

  secret-route_secret :
      (u : Uuid) (o : Option Uuid) (p : PointerBuf) (v : Value) (acc : Classification)
      → secret_value u p (route_secret o p v acc).secret_by_subject
        ≡ secret_at u
            (resolved c schema subject_lookup o)
            (some v)
            (secret_value u p acc.secret_by_subject)
  unfolding route_secret
  secret-route_secret u none p v acc = refl
  secret-route_secret u (some w) p v acc =
      secret_value-add_secret_same u w p v acc.secret_by_subject

  secret-route_secret_ne :
      (u : Uuid) (o : Option Uuid) (p q : PointerBuf) (v : Value) (acc : Classification)
      → p ≢ q
      → secret_value u p (route_secret o q v acc).secret_by_subject
        ≡ secret_value u p acc.secret_by_subject
  unfolding route_secret
  secret-route_secret_ne u none p q v acc h = refl
  secret-route_secret_ne u (some w) p q v acc h =
      secret_value-add_secret_ne u w p q v acc.secret_by_subject h

  secret-route_self :
      (u : Uuid) (cls : Option PiiClass) (p : PointerBuf) (v : Value) (acc : Classification)
      → secret_value u p (route c schema subject_lookup cls p v acc).secret_by_subject
        ≡ secret_at u
            (class_destination c schema subject_lookup cls)
            (some v)
            (secret_value u p acc.secret_by_subject)
  unfolding route
  secret-route_self u none p v acc = refl
  secret-route_self u (some plaintext) p v acc = refl
  secret-route_self u (some (secret subject)) p v acc =
      secret-route_secret u (subject_lookup subject) p v acc

  secret-route_ne :
      (u : Uuid) (cls : Option PiiClass) (p q : PointerBuf) (v : Value) (acc : Classification)
      → p ≢ q
      → secret_value u p (route c schema subject_lookup cls q v acc).secret_by_subject
        ≡ secret_value u p acc.secret_by_subject
  unfolding route
  secret-route_ne u none p q v acc h = refl
  secret-route_ne u (some plaintext) p q v acc h = refl
  secret-route_ne u (some (secret subject)) p q v acc h =
      secret-route_secret_ne u (subject_lookup subject) p q v acc h

  secret-classify_from :
      (u : Uuid) (p : PointerBuf) (changes : Changes) (acc : Classification)
      → IsOrdered changes
      → secret_value u p (classify_from c schema subject_lookup changes acc).secret_by_subject
        ≡ secret_at u
            (destination c schema subject_lookup p)
            (get p changes)
            (secret_value u p acc.secret_by_subject)
  unfolding classify_from
  secret-classify_from u p [] acc h = ground (arith, get-nil {V = Value} p)
  secret-classify_from u p ((q, v) ∷ changes) acc h =
      let acc' = route c schema subject_lookup (classify c schema q) q v acc in
      elim (key-cases p q) [
        | inl same ↦ ground (
          arith,
          secret-classify_from u p changes acc' h.1,
          secret-route_self u (classify c schema p) p v acc,
          get-IsAfter q changes h.0,
          get-cons_self q v changes,
        )
        | inr other ↦ rw (
          secret-classify_from u p changes acc' h.1,
          secret-route_ne u (classify c schema q) p q v acc other,
          get-cons_ne p q v changes other,
        )
      ]

  -- Whatever is reported unknown has no destination.
  unknown-route_secret :
      (o : Option Uuid) (q : PointerBuf) (v : Value) (acc : Classification)
      → destination c schema subject_lookup q ≡ resolved c schema subject_lookup o
      → All (λ p. destination c schema subject_lookup p ≡ to_unknown) acc.unknown
      → All
          (λ p. destination c schema subject_lookup p ≡ to_unknown)
          (route_secret o q v acc).unknown
  unfolding route_secret
  unknown-route_secret none q v acc e h =
      All-append (λ p. destination c schema subject_lookup p ≡ to_unknown) acc.unknown (q ∷ []) h
        (e, tt)
  unknown-route_secret (some w) q v acc e h = h

  unknown-route :
      (cls : Option PiiClass) (q : PointerBuf) (v : Value) (acc : Classification)
      → destination c schema subject_lookup q ≡ class_destination c schema subject_lookup cls
      → All (λ p. destination c schema subject_lookup p ≡ to_unknown) acc.unknown
      → All
          (λ p. destination c schema subject_lookup p ≡ to_unknown)
          (route c schema subject_lookup cls q v acc).unknown
  unfolding route
  unknown-route none q v acc e h =
      All-append (λ p. destination c schema subject_lookup p ≡ to_unknown) acc.unknown (q ∷ []) h
        (e, tt)
  unknown-route (some plaintext) q v acc e h = h
  unknown-route (some (secret subject)) q v acc e h =
      unknown-route_secret (subject_lookup subject) q v acc e h

  pub unknown-classify_from :
      (changes : Changes) (acc : Classification)
      → All (λ p. destination c schema subject_lookup p ≡ to_unknown) acc.unknown
      → All
          (λ p. destination c schema subject_lookup p ≡ to_unknown)
          (classify_from c schema subject_lookup changes acc).unknown
  unfolding classify_from
  unknown-classify_from [] acc h = h
  unknown-classify_from ((q, v) ∷ changes) acc h =
      unknown-classify_from changes (route c schema subject_lookup (classify c schema q) q v acc)
        (unknown-route (classify c schema q) q v acc refl h)

  contains-route_secret :
      (o : Option Uuid) (p q : PointerBuf) (v : Value) (acc : Classification)
      → contains (route_secret o q v acc).unknown p
        ≡ contains acc.unknown p || (is_unknown (resolved c schema subject_lookup o) && str_eq q p)
  unfolding route_secret
  contains-route_secret none p q v acc = contains-append acc.unknown q p
  contains-route_secret (some w) p q v acc = ground arith

  contains-route :
      (cls : Option PiiClass) (p q : PointerBuf) (v : Value) (acc : Classification)
      → contains (route c schema subject_lookup cls q v acc).unknown p
        ≡ contains acc.unknown p
          || (is_unknown (class_destination c schema subject_lookup cls) && str_eq q p)
  unfolding route
  contains-route none p q v acc = contains-append acc.unknown q p
  contains-route (some plaintext) p q v acc = ground arith
  contains-route (some (secret subject)) p q v acc =
      contains-route_secret (subject_lookup subject) p q v acc

  contains-classify_from :
      (p : PointerBuf) (changes : Changes) (acc : Classification)
      → contains (classify_from c schema subject_lookup changes acc).unknown p
        ≡ contains acc.unknown p
          || (is_unknown (destination c schema subject_lookup p) && is_some (get p changes))
  unfolding classify_from
  contains-classify_from p [] acc = ground (arith, get-nil {V = Value} p)
  contains-classify_from p ((q, v) ∷ changes) acc =
      let acc' = route c schema subject_lookup (classify c schema q) q v acc in
      elim (key-cases p q) [
        | inl same ↦ ground (
          arith,
          contains-classify_from p changes acc',
          contains-route (classify c schema q) p q v acc,
          eq_iff q p,
          get-cons_self q v changes,
        )
        | inr other ↦ ground (
          arith,
          contains-classify_from p changes acc',
          contains-route (classify c schema q) p q v acc,
          eq_iff q p,
          get-cons_ne p q v changes other,
        )
      ]

  -- What each bucket of `classify_changes` holds at a path, by the destination c schema subject_lookup of the path.
  pub record RoutedAt (changes : Changes) (r : Classification) (p : PointerBuf) : Type 0 where
    pub plaintext_bucket :
        get p r.plaintext
        ≡ plaintext_at (destination c schema subject_lookup p) (get p changes) none
    pub secret_bucket :
        (u : Uuid)
        → secret_value u p r.secret_by_subject
          ≡ secret_at u (destination c schema subject_lookup p) (get p changes) none
    pub unknown_bucket :
        contains r.unknown p
        ≡ is_unknown (destination c schema subject_lookup p) && is_some (get p changes)

  -- For a batch in key order, `classify_changes` holds the change at any path in the bucket that
  -- the path's class and the subject lookup name, with its value, and in no other: plaintext
  -- changes in `plaintext`, secret ones in the group of their subject alone, and the rest listed
  -- in `unknown`.
  pub classify_changes-RoutedAt :
      (changes : Changes) (p : PointerBuf)
      → IsOrdered changes
      → RoutedAt changes (classify_changes c schema subject_lookup changes) p
  unfolding classify_changes
  classify_changes-RoutedAt changes p h = record {
    plaintext_bucket =
        plaintext-classify_from p changes _ h
        ∙ ap (plaintext_at (destination c schema subject_lookup p) (get p changes)) (get-nil p);
    secret_bucket = λ u.
        secret-classify_from u p changes _ h
        ∙ ap
            (λ o.
              secret_at u (destination c schema subject_lookup p) (get p changes) (value_in o p))
            (get-nil u);
    unknown_bucket = contains-classify_from p changes _;
  }
