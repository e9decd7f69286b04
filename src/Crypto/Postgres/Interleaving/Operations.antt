-- ===== src/Crypto/Postgres/Interleaving/Operations.antt =====
-- `get_key` and `get_or_create_key` among other processes.
use journey_dynamics.Base.{
  Bool, true, false, not, ◌&&◌, Option, none, some, Result, ok, err, nat_ord, str_eq, ◌≡◌, refl,
  subst,
}
use journey_dynamics.Base.BTreeMap.{get, get-insert_self}
use journey_dynamics.Json.{Uuid}
use journey_dynamics.Crypto.Primitives.{Failure}
use journey_dynamics.Crypto.Cipher.{KeyMaterial}
use journey_dynamics.Crypto.Kek.{WrappedDek, KekError, KekProvider}
use journey_dynamics.Crypto.KeyStore.{KeyStoreError}
use journey_dynamics.Crypto.Postgres.{
  Row, Table, dek_of, Program, done, insert_new, on_kek, bind_done, insert_unless, spawn_if,
  read_row, get_key, or_not_found, after_insert, insert_wrapped, create_unless, get_or_create_key,
}
use journey_dynamics.Crypto.Postgres.Interleaving.{Meets, bind-Meets, OpensOwn, HoldsKey, Keeps}
use journey_dynamics.Crypto.Postgres.Interleaving.Statements.{insert_unless-Keeps}

-- The row of a new key.
abbrev row_of : KeyMaterial → WrappedDek → Row
row_of dek w = record { key_id = dek.key_id; wrapped_key = w.wrapped_key; kek_id = w.kek_id }

module _ (provider : KekProvider) (lazy_rewrap : Bool) (u : Uuid) where
  -- What `get_key` found when it read the row.
  abbrev pub Found : Result KeyStoreError (Option KeyMaterial) → Table → Type 0
  Found (ok none) t = get u t ≡ none
  Found (ok (some m)) t = HoldsKey provider u t m
  Found (err e) t = Unit

  -- The key that is returned is the one in the subject's row.
  abbrev pub IsStored : Result KeyStoreError KeyMaterial → Table → Type 0
  IsStored (ok m) t = HoldsKey provider u t m
  IsStored (err e) t = Unit

  module _ (Rely : Table → Table → Type 0) where
    spawn_if-Meets :
        {A : Type 0} (Post : Result KeyStoreError A → Table → Type 0) (b : Bool) (m : Program A)
        (t : Table)
        → Meets Rely (Keeps provider u) Post m t
        → Meets Rely (Keeps provider u) Post (spawn_if provider lazy_rewrap b u m) t
    unfolding Meets
    spawn_if-Meets Post true m t h = h
    spawn_if-Meets Post false m t h = h

    opened-Meets :
        (r : Row) (t : Table) (x : Result (Failure KekError) KeyMaterial)
        → get u t ≡ some r
        → provider.unwrap (dek_of r) ≡ x
        → Meets Rely (Keeps provider u) Found (on_kek x (λ m. done (ok (some m)))) t
    unfolding Meets
    opened-Meets r t (ok m) found opens = (r, found, opens)
    opened-Meets r t (err e) found opens = tt

    read_row-Meets :
        (t : Table) (o : Option Row)
        → get u t ≡ o
        → Meets Rely (Keeps provider u) Found (read_row provider lazy_rewrap u o) t
    unfolding Meets
    read_row-Meets t none found = found
    read_row-Meets t (some r) found =
        spawn_if-Meets Found (lazy_rewrap && not (str_eq r.kek_id provider.current.id))
          (on_kek (provider.unwrap (dek_of r)) (λ m. done (ok (some m)))) t
          (opened-Meets r t (provider.unwrap (dek_of r)) found refl)

    get_key-Meets :
        (t : Table) → Meets Rely (Keeps provider u) Found (get_key provider lazy_rewrap u) t
    unfolding Meets get_key
    get_key-Meets t = λ t' rel. (read_row-Meets t' (get u t') refl, λ e. tt)

    or_not_found-Meets :
        (r : Result KeyStoreError (Option KeyMaterial)) (t : Table)
        → Found r t
        → Meets Rely (Keeps provider u) IsStored (bind_done r (or_not_found provider lazy_rewrap)) t
    unfolding Meets
    or_not_found-Meets (ok none) t h = tt
    or_not_found-Meets (ok (some m)) t h = h
    or_not_found-Meets (err e) t h = tt

    module _ (own : OpensOwn provider) (fresh : KeyMaterial) where
      inserted-Meets :
          (w : WrappedDek) (t : Table) (o : Option Row)
          → provider.wrap provider.current fresh ≡ ok w
          → get u t ≡ o
          → Meets Rely
              (Keeps provider u)
              IsStored
              (after_insert provider lazy_rewrap fresh u (insert_unless u (row_of fresh w) t o).0)
              (insert_unless u (row_of fresh w) t o).1
      unfolding Meets
      inserted-Meets w t (some old) wrapped found =
          bind-Meets Rely (Keeps provider u) Found IsStored (or_not_found provider lazy_rewrap)
            or_not_found-Meets (get_key provider lazy_rewrap u) t (get_key-Meets t)
      inserted-Meets w t none wrapped absent =
          let (id, current, opens) = own.wraps fresh w wrapped in
          (
            row_of fresh w,
            get-insert_self u (row_of fresh w) t,
            subst
                (λ (k : Uuid).
                  provider.unwrap
                    (record { key_id = k; kek_id = w.kek_id; wrapped_key = w.wrapped_key })
                  ≡ ok fresh)
                id opens,
          )

      insert_wrapped-Meets :
          (t : Table) (x : Result (Failure KekError) WrappedDek)
          → provider.wrap provider.current fresh ≡ x
          → Meets Rely
              (Keeps provider u)
              IsStored
              (on_kek x (insert_wrapped provider lazy_rewrap fresh u))
              t
      unfolding Meets insert_new
      insert_wrapped-Meets t (err e) wrapped = tt
      insert_wrapped-Meets t (ok w) wrapped = λ t' rel. (
        insert_unless-Keeps provider u (row_of fresh w) t' (get u t') refl
            (own.wraps fresh w wrapped).1,
        inserted-Meets w t' (get u t') wrapped refl,
        λ e. (tt, tt),
      )

      create_unless-Meets :
          (r : Result KeyStoreError (Option KeyMaterial)) (t : Table)
          → Found r t
          → Meets Rely
              (Keeps provider u)
              IsStored
              (bind_done r (create_unless provider lazy_rewrap fresh u))
              t
      unfolding Meets
      create_unless-Meets (ok (some m)) t h = h
      create_unless-Meets (err e) t h = tt
      create_unless-Meets (ok none) t h =
          insert_wrapped-Meets t (provider.wrap provider.current fresh) refl

      -- If the provider unwraps what it wraps under its current version, then whatever other
      -- processes do between the statements of `get_or_create_key`, and whichever statements fail:
      -- each of its statements keeps every key that the subject's row holds and all other rows,
      -- and the key that it returns is the one that the subject's row holds after its last
      -- statement, also when another process has created the row first.
      pub get_or_create_key-Meets :
          (t : Table)
          → Meets Rely
              (Keeps provider u)
              IsStored
              (get_or_create_key provider lazy_rewrap fresh u)
              t
      unfolding get_or_create_key
      get_or_create_key-Meets t =
          bind-Meets Rely (Keeps provider u) Found IsStored
            (create_unless provider lazy_rewrap fresh u) create_unless-Meets
            (get_key provider lazy_rewrap u) t (get_key-Meets t)
