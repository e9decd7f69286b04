-- ===== src/SubjectLookup.antt =====
-- crates/journey_dynamics/src/subject_lookup_hook.rs, and the searches of subjects by their email
-- in crates/journey_dynamics/src/view_repository.rs: the table `subject_lookup`. The function
-- `lower` of SQL and the parser of UUIDs are parameters.
use journey_dynamics.Base.{
  String, Bool, true, false, Option, none, some, List, [], ◌∷◌, ok, ok-eq-ok, nat_ord, text_ord,
  str_eq, if◌then◌else◌, ◌==◌, ◌≡◌, refl, sym, ap, ◌∙◌, key-cases, Bool-cases, inl, inr, arith,
  subst, any, ◌⊎◌,
}
use journey_dynamics.Base.Partial.{◌>>=◌}
use journey_dynamics.Base.BTreeMap.{
  BTreeMap, IsOrdered, IsAfter, insert-IsOrdered, get-IsAfter, get-cons_self, get-cons_ne, get,
  insert, remove, get-insert_self, get-insert_ne, get-remove_self,
}
use journey_dynamics.Base.BTreeMap.Ordered.{remove-IsOrdered}
use journey_dynamics.Json.{Uuid, Value}
use journey_dynamics.Json.Map.{object_get, as_object, as_str}
use journey_dynamics.Crypto.Events.{SerializedEvent}
use journey_dynamics.Crypto.Envelope.{Persisted}

abbrev pub Lookup : Type 0
Lookup = BTreeMap Uuid String

-- `value.get(key)`
abbrev pub value_get : String → Value → Option Value
value_get key value = as_object value >>= object_get key

-- The first steps of the loop's body: the subject and the email of a `PersonCaptured`.
unfoldable pub captured : (String → Option Uuid) → SerializedEvent → Option (Uuid × String)
captured parse_uuid event =
    if str_eq event.event_type "PersonCaptured"
    then (value_get "PersonCaptured" event.payload >>= λ inner.
        (value_get "subject_id" inner >>= as_str >>= parse_uuid) >>= λ subject_id.
        (value_get "email" inner >>= as_str) >>= λ email. some (subject_id, email))
    else none

-- INSERT … ON CONFLICT (subject_id) DO UPDATE
abbrev pub upsert_email : (String → String) → Option (Uuid × String) → Lookup → Lookup
upsert_email lower none lookup = lookup
upsert_email lower (some (subject_id, email)) lookup = insert subject_id (lower email) lookup

-- The loop of `SubjectLookupHook::on_persist`.
unfoldable pub record_emails :
    (String → Option Uuid) → (String → String) → List SerializedEvent → Lookup → Lookup
record_emails parse_uuid lower [] lookup = lookup
record_emails parse_uuid lower (event ∷ events) lookup =
    record_emails parse_uuid lower events (upsert_email lower (captured parse_uuid event) lookup)

-- `SubjectLookupHook::on_persist`
unfoldable pub on_persist :
    (String → Option Uuid) → (String → String) → List SerializedEvent → Lookup → Persisted Lookup
unfolding record_emails
on_persist parse_uuid lower events lookup = ok (record_emails parse_uuid lower events lookup)

-- `do_delete_subject_lookup`
unfoldable pub delete_subject_lookup : Uuid → Lookup → Lookup
delete_subject_lookup subject_id lookup = remove subject_id lookup

-- `find_subjects_by_email`
unfoldable pub find_subjects_by_email : (String → String) → String → Lookup → List Uuid
find_subjects_by_email lower email [] = []
find_subjects_by_email lower email ((subject_id, email_lower) ∷ lookup) =
    let rest = find_subjects_by_email lower email lookup in
    if str_eq email_lower (lower email) then subject_id ∷ rest else rest

module _ (parse_uuid : String → Option Uuid) (lower : String → String) where
  -- The email of a subject that the event captures.
  abbrev pub email_of : Uuid → Option (Uuid × String) → Option String → Option String
  email_of u none before = before
  email_of u (some (subject_id, email)) before =
      if subject_id == u then some (lower email) else before

  -- The last email that the batch captures for a subject.
  unfoldable pub last_email : Uuid → List SerializedEvent → Option String → Option String
  last_email u [] before = before
  last_email u (event ∷ events) before =
      last_email u events (email_of u (captured parse_uuid event) before)

  get-upsert_email :
      (u : Uuid) (o : Option (Uuid × String)) (lookup : Lookup)
      → get u (upsert_email lower o lookup) ≡ email_of u o (get u lookup)
  get-upsert_email u none lookup = refl
  get-upsert_email u (some (s, email)) lookup = elim (key-cases u s) [
    | inl same ↦
        let own : (s == u) ≡ true = ground arith in
        subst (λ i. get i (insert s (lower email) lookup) ≡ some (lower email)) (sym same)
          (get-insert_self s (lower email) lookup)
        ∙ rw own refl
    | inr other ↦
        let differs : (s == u) ≡ false = ground arith in
        get-insert_ne u s (lower email) lookup other ∙ rw differs refl
  ]

  get-record_emails :
      (u : Uuid) (events : List SerializedEvent) (lookup : Lookup)
      → get u (record_emails parse_uuid lower events lookup) ≡ last_email u events (get u lookup)
  unfolding record_emails last_email
  get-record_emails u [] lookup = refl
  get-record_emails u (event ∷ events) lookup =
      get-record_emails u events (upsert_email lower (captured parse_uuid event) lookup)
      ∙ ap (last_email u events) (get-upsert_email u (captured parse_uuid event) lookup)

  record_emails-IsOrdered :
      (events : List SerializedEvent) (lookup : Lookup)
      → IsOrdered lookup
      → IsOrdered (record_emails parse_uuid lower events lookup)
  unfolding record_emails
  record_emails-IsOrdered [] lookup h = h
  record_emails-IsOrdered (event ∷ events) lookup h =
      record_emails-IsOrdered events (upsert_email lower (captured parse_uuid event) lookup)
        (kept (captured parse_uuid event))
    where
      kept : (o : Option (Uuid × String)) → IsOrdered (upsert_email lower o lookup)
      kept none = h
      kept (some (s, email)) = insert-IsOrdered s (lower email) lookup h

  abbrev pub is_found : Uuid → String → Lookup → Bool
  is_found u email lookup = any (λ v. v == u) (find_subjects_by_email lower email lookup)

  abbrev pub has_email : String → Option String → Bool
  has_email email none = false
  has_email email (some e) = str_eq e (lower email)

  is_found_lem :
      (u : Uuid) (email : String) (lookup : Lookup)
      → IsOrdered lookup
      → is_found u email lookup ≡ has_email email (get u lookup)
  unfolding find_subjects_by_email get
  is_found_lem u email [] h = refl
  is_found_lem u email ((s, e) ∷ lookup) h = elim (key-cases u s) [
    | inl same ↦
        first_own same (is_found_lem u email lookup h.1) (Bool-cases (str_eq e (lower email)))
        ∙ ap (has_email email) (
            sym
              (subst (λ i. get i ((s, e) ∷ lookup) ≡ some e) (sym same) (get-cons_self s e lookup)))
    | inr other ↦
        let differs : (s == u) ≡ false = ground arith in
        first_other differs (Bool-cases (str_eq e (lower email)))
        ∙ is_found_lem u email lookup h.1
        ∙ ap (has_email email) (sym (get-cons_ne u s e lookup other))
  ]
    where
      first_other :
          (s == u) ≡ false
          → (str_eq e (lower email) ≡ true) ⊎ (str_eq e (lower email) ≡ false)
          → is_found u email ((s, e) ∷ lookup) ≡ is_found u email lookup
      first_other differs (inl matches) = rw (matches, differs) refl
      first_other differs (inr misses) = rw misses refl

      first_own :
          u ≡ s
          → is_found u email lookup ≡ has_email email (get u lookup)
          → (str_eq e (lower email) ≡ true) ⊎ (str_eq e (lower email) ≡ false)
          → is_found u email ((s, e) ∷ lookup) ≡ str_eq e (lower email)
      first_own same rest (inl matches) =
          let own : (s == u) ≡ true = ground arith in rw (matches, own) refl
      first_own same rest (inr misses) =
          let after = subst (λ i. IsAfter i lookup) (sym same) h.0 in
          rw misses (rest ∙ ap (has_email email) (get-IsAfter u lookup after))

  -- On a table in the order of its subjects, after `on_persist` has taken a batch,
  -- `find_subjects_by_email` lists a subject exactly if the last email that the batch captures for
  -- it, or if there is none the email stored before, is the searched one in lower case; and after
  -- `delete_subject_lookup` no search lists the subject.
  pub find_subjects_by_email_lem :
      (u : Uuid) (email : String) (events : List SerializedEvent) (lookup written : Lookup)
      → IsOrdered lookup
      → on_persist parse_uuid lower events lookup ≡ ok written
      → (is_found u email written ≡ has_email email (last_email u events (get u lookup)))
        × (is_found u email (delete_subject_lookup u written) ≡ false)
  unfolding on_persist delete_subject_lookup
  find_subjects_by_email_lem u email events lookup written h ran =
      let same = ok-eq-ok _ refl ran in
      let ordered = subst IsOrdered same (record_emails-IsOrdered events lookup h) in
      (
        is_found_lem u email written ordered
            ∙ ap (has_email email) (
                subst (λ l. get u l ≡ last_email u events (get u lookup)) same
                  (get-record_emails u events lookup)),
        is_found_lem u email (remove u written) (remove-IsOrdered u written ordered)
            ∙ ap (has_email email) (get-remove_self u written),
      )
