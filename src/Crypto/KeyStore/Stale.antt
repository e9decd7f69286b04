-- ===== src/Crypto/KeyStore/Stale.antt =====
-- The stale subjects of the in-memory store: in ascending order, and one fewer after each re-wrap.
use journey_dynamics.Base.{
  ℕ, String, true, false, not, ◌&&◌, Option, none, some, List, [], ◌∷◌, ltb, nat_ord, str_eq,
  eq_iff, All, ◌≡◌, refl, sym, ap, subst, ◌∙◌, inl, inr, arith, Bool-cases,
}
use journey_dynamics.Base.BTreeMap.{get, insert, IsAfter, IsOrdered, get-cons_self, get-cons_ne}
use journey_dynamics.Json.{Uuid}
use journey_dynamics.Crypto.KeyStore.{KeyEntry, KeyMap, is_past, stale_after, insert_sorted, sort}

-- Strictly ascending.
abbrev pub IsAscending : List Uuid → Type 0
IsAscending [] = Unit
IsAscending (u ∷ us) = All (λ v. ltb u v ≡ true) us × IsAscending us

insert_sorted-least :
    (u : Uuid) (us : List Uuid) → All (λ v. ltb u v ≡ true) us → insert_sorted u us ≡ u ∷ us
unfolding insert_sorted
insert_sorted-least u [] h = refl
insert_sorted-least u (v ∷ vs) h = ground arith

pub sort-IsAscending : (us : List Uuid) → IsAscending us → sort us ≡ us
unfolding sort
sort-IsAscending [] h = refl
sort-IsAscending (u ∷ us) h =
    ap (insert_sorted u) (sort-IsAscending us h.1) ∙ insert_sorted-least u us h.0

module _ (kek : String) where
  stale_after-above :
      (u : Uuid) (after : Option Uuid) (store : KeyMap)
      → IsAfter u store
      → All (λ v. ltb u v ≡ true) (stale_after kek after store)
  unfolding stale_after
  stale_after-above u after [] h = tt
  stale_after-above u after ((id, e) ∷ store) h =
      let above = stale_after-above u after store h.1 in
      elim (Bool-cases (not (str_eq e.kek_id kek) && is_past after id)) [
        | inl listed ↦ rw listed (ground arith, above)
        | inr skipped ↦ rw skipped above
      ]

  pub stale_after-IsAscending :
      (after : Option Uuid) (store : KeyMap)
      → IsOrdered store
      → IsAscending (stale_after kek after store)
  unfolding stale_after
  stale_after-IsAscending after [] h = tt
  stale_after-IsAscending after ((id, e) ∷ store) h =
      let ascending = stale_after-IsAscending after store h.1 in
      elim (Bool-cases (not (str_eq e.kek_id kek) && is_past after id)) [
        | inl listed ↦ rw listed (stale_after-above id after store h.0, ascending)
        | inr skipped ↦ rw skipped ascending
      ]

  head_above :
      (id u : ℕ) (us vs : List ℕ) → vs ≡ u ∷ us → All (λ v. ltb id v ≡ true) vs → ltb id u ≡ true
  head_above id u us [] e h = cc
  head_above id u us (v ∷ vs) e h = ground arith

  insert_above :
      (u id : Uuid) (e' e : KeyEntry) (store : KeyMap)
      → ltb id u ≡ true
      → insert u e' ((id, e) ∷ store) ≡ (id, e) ∷ insert u e' store
  unfolding insert
  insert_above u id e' e store h = ground arith

  insert_same :
      (id : Uuid) (e' e : KeyEntry) (store : KeyMap)
      → insert id e' ((id, e) ∷ store) ≡ (id, e') ∷ store
  unfolding insert
  insert_same id e' e store = ground (arith, nat_ord.cmp_self id)

  -- The first stale subject, tagged with the current version, is the one that leaves the list.
  pub stale_after-insert :
      (u : Uuid) (us : List Uuid) (store : KeyMap)
      → IsOrdered store
      → stale_after kek none store ≡ u ∷ us
      → (entry : KeyEntry) × (get u store ≡ some entry)
        × (stale_after kek none (insert u (record entry { kek_id = kek }) store) ≡ us)
  unfolding stale_after
  stale_after-insert u us [] h e = cc
  stale_after-insert u us ((id, x) ∷ store) h e = elim (Bool-cases (str_eq x.kek_id kek)) [
    | inl current ↦
        let e' : stale_after kek none store ≡ u ∷ us = ground arith in
        let (entry, found, rest) = stale_after-insert u us store h.1 e' in
        let above : ltb id u ≡ true =
          head_above id u us (stale_after kek none store) e'
            (stale_after-above id none store h.0) in
        (
          entry,
          get-cons_ne u id x store (λ p. ground arith) ∙ found,
          ap (stale_after kek none)
                (insert_above u id (record entry { kek_id = kek }) x store above)
              ∙ rw current rest,
        )
    | inr stale ↦
        let same : id ≡ u = ground arith in
        let rest : stale_after kek none store ≡ us = ground arith in
        (
          x,
          ap (λ k. get k ((id, x) ∷ store)) (sym same) ∙ get-cons_self id x store,
          ap (λ k. stale_after kek none (insert k (record x { kek_id = kek }) ((id, x) ∷ store)))
                (sym same)
              ∙ ap (stale_after kek none) (insert_same id (record x { kek_id = kek }) x store)
              ∙ rw ((eq_iff kek kek).1 refl) rest,
        )
  ]

  skip_head :
      (id : Uuid) (x : KeyEntry) (store : KeyMap)
      → str_eq x.kek_id kek ≡ true
      → stale_after kek none ((id, x) ∷ store) ≡ stale_after kek none store
  unfolding stale_after
  skip_head id x store current = rw current refl

  keep_head :
      (id : Uuid) (x : KeyEntry) (store : KeyMap)
      → str_eq x.kek_id kek ≡ false
      → stale_after kek none ((id, x) ∷ store) ≡ id ∷ stale_after kek none store
  unfolding stale_after
  keep_head id x store stale = rw stale refl

  -- With a cursor below every stale subject the listing is that without a cursor.
  pub stale_after-cursor :
      (cursor : Option Uuid) (store : KeyMap)
      → All (λ v. is_past cursor v ≡ true) (stale_after kek none store)
      → stale_after kek cursor store ≡ stale_after kek none store
  unfolding stale_after
  stale_after-cursor cursor [] h = refl
  stale_after-cursor cursor ((id, x) ∷ store) h = elim (Bool-cases (str_eq x.kek_id kek)) [
    | inl current ↦ rw current (
        stale_after-cursor cursor store
          (subst (All (λ v. is_past cursor v ≡ true)) (skip_head id x store current) h))
    | inr stale ↦
        let split = subst (All (λ v. is_past cursor v ≡ true)) (keep_head id x store stale) h in
        rw (stale, split.0) (ap (λ us. id ∷ us) (stale_after-cursor cursor store split.1))
  ]
