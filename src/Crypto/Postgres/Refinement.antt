-- ===== src/Crypto/Postgres/Refinement.antt =====
-- `PostgresKeyStore`, called by one process at a time, does what `InMemoryKeyStore` does.
use journey_dynamics.Base.{
  Bool, true, false, not, ◌&&◌, Option, none, some, length, take, Result, ok, nat_ord, str_eq,
  eq_iff, ◌≡◌, refl, sym, ap, subst, ◌∙◌, inl, inr, Bool-cases,
}
use journey_dynamics.Base.BTreeMap.{get, insert, insert-IsOrdered}
use journey_dynamics.Base.BTreeMap.Ordered.{remove-IsOrdered, insert_same}
use journey_dynamics.Json.{Uuid}
use journey_dynamics.Crypto.Cipher.{KeyMaterial}
use journey_dynamics.Crypto.Kek.{WrappedDek, KekProvider}
use journey_dynamics.Crypto.KeyStore.{
  KeyStore, KeyStoreError, KeyEntry, KeyMap, InMemoryKeyStore, map_material, material,
  current_kek_id, fresh_entry, is_past, sort, in_memory, get_or_create, retag, rewrap_with,
}
use journey_dynamics.Crypto.KeyStore as Memory
use journey_dynamics.Crypto.Postgres.{
  Row, Table, dek_of, Program, done, insert_unless, insert_new, update_found, update_where, run,
  on_kek, spawn_if, read_row, get_key, after_insert, after_update, insert_wrapped, create_unless,
  get_or_create_key, do_delete_key, list_stale_subjects, update_rewrapped, rewrap_row, rewrap_key,
  postgres, ◌>>=◌,
}
use journey_dynamics.Crypto.Postgres.Related.{
  Refines, wrapped_under, WrapsUnder, Same, Related, SameFound, get-Same, insert-Same, remove-Same,
  stale_after-Same,
}

module _ (provider : KekProvider) where
  module _ (lazy : Bool) where
    run-spawn_if :
        {A : Type 0} (b : Bool) (u : Uuid) (m : Program A) (t : Table)
        → run (spawn_if provider lazy b u m) t ≡ run m t
    unfolding run
    run-spawn_if true u m t = refl
    run-spawn_if false u m t = refl

    pub run-spawn_if_bind :
        {A B : Type 0} (b : Bool) (u : Uuid) (m : Program A) (f : A → Program B) (t : Table)
        → run (spawn_if provider lazy b u m >>= f) t ≡ run (m >>= f) t
    unfolding run ◌>>=◌
    run-spawn_if_bind true u m f t = refl
    run-spawn_if_bind false u m f t = refl

    read_row_lem :
        (u : Uuid) (t : Table) (o : Option Row) (o' : Option KeyEntry)
        → SameFound provider o o'
        → run (read_row provider lazy u o) t ≡ (ok (map_material o'), t)
    unfolding run
    read_row_lem u t none none h = refl
    read_row_lem u t none (some e) h = absurd h
    read_row_lem u t (some r) none h = absurd h
    read_row_lem u t (some r) (some e) h =
        run-spawn_if (lazy && not (str_eq r.kek_id provider.current.id)) u
          (on_kek (provider.unwrap (dek_of r)) (λ m. done (ok (some m)))) t
        ∙ rw h.opens refl

    -- What an operation of both stores leaves.
    abbrev Agree : {A : Type 0} → Result KeyStoreError A × Table → A × InMemoryKeyStore → Type 0
    Agree r q = (r.0 ≡ ok q.0) × Related provider r.1 q.1

    pub insert_wrapped_lem :
        (fresh : KeyMaterial) (u : Uuid) (w : WrappedDek) (t : Table)
        → get u t ≡ none
        → run (insert_wrapped provider lazy fresh u w) t ≡ (
          ok fresh,
          insert u
              (record { key_id = fresh.key_id; wrapped_key = w.wrapped_key; kek_id = w.kek_id })
              t,
        )
    unfolding run insert_new
    insert_wrapped_lem fresh u w t absent =
        let row : Row = record {
          key_id = fresh.key_id;
          wrapped_key = w.wrapped_key;
          kek_id = w.kek_id;
        } in
        ap
          (λ o.
            run (after_insert provider lazy fresh u (insert_unless u row t o).0)
              (insert_unless u row t o).1)
          absent

    update_rewrapped_lem :
        (u : Uuid) (r : Row) (w : WrappedDek) (t : Table)
        → get u t ≡ some r
        → run (update_rewrapped provider lazy u r.kek_id w) t
          ≡ (ok true, insert u (record r { wrapped_key = w.wrapped_key; kek_id = w.kek_id }) t)
    unfolding run update_where
    update_rewrapped_lem u r w t found =
        ap
          (λ o.
            run
              (after_update provider lazy u (update_found u w.wrapped_key w.kek_id r.kek_id t o).0)
              (update_found u w.wrapped_key w.kek_id r.kek_id t o).1)
          found
        ∙ rw ((eq_iff r.kek_id r.kek_id).1 refl) refl

    create_lem :
        (wraps : WrapsUnder provider) (fresh : KeyMaterial) (u : Uuid) (t : Table)
        (s : InMemoryKeyStore) (o : Option Row) (o' : Option KeyEntry)
        → length fresh.key ≡ 32
        → get u t ≡ o
        → SameFound provider o o'
        → Related provider t s
        → Agree
            (run (read_row provider lazy u o >>= create_unless provider lazy fresh u) t)
            (get_or_create fresh u s o')
    unfolding run ◌>>=◌ insert_new
    create_lem wraps fresh u t s none (some e) n found h rel = absurd h
    create_lem wraps fresh u t s (some r) none n found h rel = absurd h
    create_lem wraps fresh u t s (some r) (some e) n found h rel =
        rw
          (
            run-spawn_if_bind (lazy && not (str_eq r.kek_id provider.current.id)) u
                (on_kek (provider.unwrap (dek_of r)) (λ m. done (ok (some m))))
                (create_unless provider lazy fresh u) t,
            h.opens,
          )
          (refl, rel)
    create_lem wraps fresh u t s none none n found h rel =
        let (bytes, wrapped, opens) = wraps fresh n in
        let w = wrapped_under provider fresh.key_id bytes in
        let ran =
          ap (λ x. run (on_kek x (insert_wrapped provider lazy fresh u)) t) wrapped
          ∙ insert_wrapped_lem fresh u w t found in
        subst (λ r. Agree r (get_or_create fresh u s none)) (sym ran)
          (
            refl,
            (
              insert-Same provider u
                  (record { key_id = fresh.key_id; wrapped_key = bytes; kek_id = w.kek_id })
                  (fresh_entry s.provider fresh) t s.store
                  (record {
                    tag = ap current_kek_id (sym rel.1);
                    id = refl;
                    opens = opens;
                    sized = n;
                  })
                  rel.0,
              rel.1,
              insert-IsOrdered u (fresh_entry s.provider fresh) s.store rel.2,
            ),
          )

    rewrap_lem :
        (wraps : WrapsUnder provider) (u : Uuid) (t : Table) (s : InMemoryKeyStore) (o : Option Row)
        (o' : Option KeyEntry)
        → get u t ≡ o
        → get u s.store ≡ o'
        → SameFound provider o o'
        → Related provider t s
        → Agree (run (rewrap_row provider lazy u o) t) (retag u provider.current.id s o')
    unfolding run update_where
    rewrap_lem wraps u t s none none found found' h rel = (refl, rel)
    rewrap_lem wraps u t s none (some e) found found' h rel = absurd h
    rewrap_lem wraps u t s (some r) none found found' h rel = absurd h
    rewrap_lem wraps u t s (some r) (some e) found found' h rel =
        let id = provider.current.id in
        let retagged : KeyEntry = record e { kek_id = id } in
        let ordered = insert-IsOrdered u retagged s.store rel.2 in
        elim (Bool-cases (str_eq r.kek_id id)) [
          | inl already ↦
              let tag = sym h.tag ∙ (eq_iff r.kek_id id).0 already in
              let same =
                subst (λ k. Same provider t (insert u (record e { kek_id = k }) s.store)) tag
                  (subst (Same provider t) (sym (insert_same u e s.store rel.2 found')) rel.0) in
              rw already (refl, (same, rel.1, ordered))
          | inr stale ↦
              let (bytes, wrapped, opens) = wraps (material e) h.sized in
              let w = wrapped_under provider e.key_id bytes in
              let ran =
                ap
                  (λ x.
                    run
                      (on_kek x (λ m.
                        on_kek (provider.wrap provider.current m)
                          (update_rewrapped provider lazy u r.kek_id)))
                      t)
                  h.opens
                ∙ ap (λ x. run (on_kek x (update_rewrapped provider lazy u r.kek_id)) t) wrapped
                ∙ update_rewrapped_lem u r w t found in
              let row : Row = record r { wrapped_key = bytes; kek_id = id } in
              let holds =
                subst (λ k. provider.unwrap (wrapped_under provider k bytes) ≡ ok (material e))
                  (sym h.id) opens in
              rw stale (
                subst (λ q. Agree q (retag u id s (some e))) (sym ran)
                  (
                    refl,
                    (
                      insert-Same provider u row retagged t s.store
                          (record { tag = refl; id = h.id; opens = holds; sized = h.sized }) rel.0,
                      rel.1,
                      ordered,
                    ),
                  ))
        ]

  -- If the provider wraps every key of 32 bytes under its current version and unwraps it again,
  -- `PostgresKeyStore`, called by one process on a database that does not fail, does what
  -- `InMemoryKeyStore` does: on a table and a map that hold the same keys under the same tags,
  -- every operation of the trait gives the same answer and leaves such a table and map.
  pub postgres-Refines :
      (lazy : Bool)
      → WrapsUnder provider
      → Refines (postgres provider lazy) in_memory (Related provider)
  unfolding postgres in_memory run get_or_create_key get_key do_delete_key list_stale_subjects
      rewrap_key ◌>>=◌ Memory.get_or_create_key Memory.get_key Memory.delete_key
      Memory.list_stale_subjects Memory.rewrap_key
  postgres-Refines lazy wraps = record {
    get_or_create_key = λ fresh u t s n rel.
        create_lem lazy wraps fresh u t s (get u t) (get u s.store) n refl
          (get-Same provider u t s.store rel.0) rel;
    get_key = λ u t s rel.
        ap (λ r. r.0)
          (read_row_lem lazy u t (get u t) (get u s.store) (get-Same provider u t s.store rel.0));
    delete_key = λ u t s rel.
        (refl, (remove-Same provider u t s.store rel.0, rel.1, remove-IsOrdered u s.store rel.2));
    list_stale_subjects = λ current batch_size after t s rel.
        ap (λ us. ok (take batch_size (sort us)))
          (stale_after-Same provider current after t s.store rel.0);
    rewrap_key = λ u t s rel.
        subst (λ p. Agree lazy (run (rewrap_row provider lazy u (get u t)) t) (rewrap_with p u s))
          (sym rel.1)
          (rewrap_lem lazy wraps u t s (get u t) (get u s.store) refl refl
            (get-Same provider u t s.store rel.0) rel);
  }
