-- ===== src/Crypto/Postgres.antt =====
-- crates/cqrs-es-crypto/src/key_store.rs: `PostgresKeyStore`. The table `subject_encryption_keys`
-- has one row for each subject; an operation is a program of SQL statements, and other processes
-- may change the table between two of them. A random key id is never one in use. The column
-- `rewrapped_at` is left out: nothing reads it.
pub mod Related
pub mod Refinement
pub mod Interleaving
use journey_dynamics.Base.{
  ℕ, String, Bool, true, false, not, ◌&&◌, ◌==◌, Option, none, some, List, [], ◌∷◌, take, is_some,
  Result, ok, err, nat_ord, str_eq, if◌then◌else◌,
}
use journey_dynamics.Base.BTreeMap.{BTreeMap, get, insert, remove}
use journey_dynamics.Json.{Uuid}
use journey_dynamics.Crypto.Primitives.{Bytes, Failure}
use journey_dynamics.Crypto.Cipher.{KeyMaterial}
use journey_dynamics.Crypto.Kek.{WrappedDek, KekError, KekProvider}
use journey_dynamics.Crypto.KeyStore.{KeyStoreError, kek_error, database, KeyStore, is_past, sort}

pub record Row : Type 0 where
  pub key_id : Uuid
  pub wrapped_key : Bytes
  pub kek_id : String

abbrev pub Table : Type 0
Table = BTreeMap Uuid Row

-- `WrappedDek { key_id, kek_id, wrapped_key }`
abbrev pub dek_of : Row → WrappedDek
dek_of r = record { key_id = r.key_id; kek_id = r.kek_id; wrapped_key = r.wrapped_key }

-- An operation: its statements, each with what follows on its reply or on its error, and the tasks
-- that it spawns.
pub data Program (A : Type 0) : Type 0 where
  done : Result KeyStoreError A → Program A
  -- SELECT … WHERE subject_id = $1
  select_row : Uuid → (Result String (Option Row) → Program A) → Program A
  -- INSERT … ON CONFLICT (subject_id) DO NOTHING: the number of rows
  insert_row : Uuid → Row → (Result String ℕ → Program A) → Program A
  -- DELETE … WHERE subject_id = $1
  delete_row : Uuid → (Result String (Unit {0}) → Program A) → Program A
  -- UPDATE … SET rewrapped_at = NOW()
  touch_row : Uuid → (Result String (Unit {0}) → Program A) → Program A
  -- UPDATE … SET wrapped_key = $1, kek_id = $2 WHERE subject_id = $3 AND kek_id = $4
  update_row : Uuid → Bytes → String → String → (Result String ℕ → Program A) → Program A
  -- SELECT EXISTS …
  exists_row : Uuid → (Result String Bool → Program A) → Program A
  -- SELECT subject_id … WHERE kek_id != $1 AND … ORDER BY subject_id LIMIT $3
  stale_rows : String → Option Uuid → ℕ → (Result String (List Uuid) → Program A) → Program A
  -- `tokio::spawn` of a re-wrap
  spawn : Uuid → Program A → Program A

-- What the statements do.
abbrev pub insert_unless : Uuid → Row → Table → Option Row → ℕ × Table
insert_unless u r t none = (1, insert u r t)
insert_unless u r t (some old) = (0, t)

unfoldable pub insert_new : Uuid → Row → Table → ℕ × Table
insert_new u r t = insert_unless u r t (get u t)

abbrev pub update_found : Uuid → Bytes → String → String → Table → Option Row → ℕ × Table
update_found u wrapped kek_id old t none = (0, t)
update_found u wrapped kek_id old t (some r) =
    if str_eq r.kek_id old
    then (1, insert u (record r { wrapped_key = wrapped; kek_id = kek_id }) t)
    else (0, t)

unfoldable pub update_where : Uuid → Bytes → String → String → Table → ℕ × Table
update_where u wrapped kek_id old t = update_found u wrapped kek_id old t (get u t)

unfoldable pub stale_after : String → Option Uuid → Table → List Uuid
stale_after current_kek_id after [] = []
stale_after current_kek_id after ((id, r) ∷ t) =
    let rest = stale_after current_kek_id after t in
    if not (str_eq r.kek_id current_kek_id) && is_past after id then id ∷ rest else rest

-- A program that runs alone on a database that does not fail; the tasks that it spawns have not
-- run yet.
module _ {A : Type 0} where
  unfoldable pub run : Program A → Table → Result KeyStoreError A × Table
  unfolding insert_new update_where stale_after
  run (done r) t = (r, t)
  run (select_row u k) t = run (k (ok (get u t))) t
  run (insert_row u r k) t = run (k (ok (insert_new u r t).0)) (insert_new u r t).1
  run (delete_row u k) t = run (k (ok tt)) (remove u t)
  run (touch_row u k) t = run (k (ok tt)) t
  run (update_row u wrapped kek_id old k) t =
      run (k (ok (update_where u wrapped kek_id old t).0)) (update_where u wrapped kek_id old t).1
  run (exists_row u k) t = run (k (ok (is_some (get u t)))) t
  run (stale_rows current after limit k) t =
      run (k (ok (take limit (sort (stale_after current after t))))) t
  run (spawn u m) t = run m t

module _ {A B : Type 0} where
  -- `?` on the reply to a statement, and on the provider's answer.
  abbrev pub on_reply : Result String A → (A → Program B) → Program B
  on_reply (ok a) f = f a
  on_reply (err e) f = done (err (database e))

  abbrev pub on_kek : Result (Failure KekError) A → (A → Program B) → Program B
  on_kek (ok a) f = f a
  on_kek (err e) f = done (err (kek_error e))

  -- `.await?` on an operation.
  abbrev pub bind_done : Result KeyStoreError A → (A → Program B) → Program B
  bind_done (ok a) f = f a
  bind_done (err e) f = done (err e)

  infixl 5 ◌>>=◌
  unfoldable pub ◌>>=◌ : Program A → (A → Program B) → Program B
  done r >>= f = bind_done r f
  select_row u k >>= f = select_row u (λ r. k r >>= f)
  insert_row u row k >>= f = insert_row u row (λ r. k r >>= f)
  delete_row u k >>= f = delete_row u (λ r. k r >>= f)
  touch_row u k >>= f = touch_row u (λ r. k r >>= f)
  update_row u wrapped kek_id old k >>= f = update_row u wrapped kek_id old (λ r. k r >>= f)
  exists_row u k >>= f = exists_row u (λ r. k r >>= f)
  stale_rows current after limit k >>= f = stale_rows current after limit (λ r. k r >>= f)
  spawn u m >>= f = spawn u (m >>= f)

module _ (provider : KekProvider) (lazy_rewrap : Bool) where
  abbrev pub spawn_if : {A : Type 0} → Bool → Uuid → Program A → Program A
  spawn_if true u m = spawn u m
  spawn_if false u m = m

  -- `get_key`, on the row.
  abbrev pub read_row : Uuid → Option Row → Program (Option KeyMaterial)
  read_row u none = done (ok none)
  read_row u (some r) =
      spawn_if (lazy_rewrap && not (str_eq r.kek_id provider.current.id)) u
        (on_kek (provider.unwrap (dek_of r)) (λ material. done (ok (some material))))

  unfoldable pub get_key : Uuid → Program (Option KeyMaterial)
  get_key u = select_row u (λ reply. on_reply reply (read_row u))

  -- `ok_or_else(|| KeyStoreError::Database(RowNotFound))`
  abbrev pub or_not_found : Option KeyMaterial → Program KeyMaterial
  or_not_found none =
      done (err (database "no rows returned by a query that expected to return at least one row"))
  or_not_found (some material) = done (ok material)

  -- After the INSERT: `rows_affected() == 0` is a lost race.
  abbrev pub after_insert : KeyMaterial → Uuid → ℕ → Program KeyMaterial
  after_insert dek u rows_affected =
      if rows_affected == 0 then (get_key u >>= or_not_found) else done (ok dek)

  -- What is wrapped is inserted.
  abbrev pub insert_wrapped : KeyMaterial → Uuid → WrappedDek → Program KeyMaterial
  insert_wrapped dek u wrapped =
      insert_row u
        (record { key_id = dek.key_id; wrapped_key = wrapped.wrapped_key; kek_id = wrapped.kek_id })
        (λ reply. on_reply reply (after_insert dek u))

  -- After the fast path.
  abbrev pub create_unless : KeyMaterial → Uuid → Option KeyMaterial → Program KeyMaterial
  create_unless dek u (some material) = done (ok material)
  create_unless dek u none = on_kek (provider.wrap provider.current dek) (insert_wrapped dek u)

  unfoldable pub get_or_create_key : KeyMaterial → Uuid → Program KeyMaterial
  unfolding ◌>>=◌ get_key
  get_or_create_key dek u = get_key u >>= create_unless dek u

  unfoldable pub do_delete_key : Uuid → Program (Unit {0})
  do_delete_key u = delete_row u (λ reply. on_reply reply (λ _. done (ok tt)))

  unfoldable pub list_stale_subjects : String → ℕ → Option Uuid → Program (List Uuid)
  list_stale_subjects current_kek_id batch_size after =
      stale_rows current_kek_id after batch_size (λ reply. on_reply reply (λ us. done (ok us)))

  -- After the compare-and-set UPDATE.
  abbrev pub after_update : Uuid → ℕ → Program Bool
  after_update u rows_affected =
      if rows_affected == 0
      then exists_row u (λ reply. on_reply reply (λ exists. done (ok exists)))
      else done (ok true)

  abbrev pub update_rewrapped : Uuid → String → WrappedDek → Program Bool
  update_rewrapped u existing_kek_id rewrapped =
      update_row u rewrapped.wrapped_key rewrapped.kek_id existing_kek_id
        (λ reply. on_reply reply (after_update u))

  -- `rewrap_key`, on the row.
  abbrev pub rewrap_row : Uuid → Option Row → Program Bool
  rewrap_row u none = done (ok false)
  rewrap_row u (some r) =
      if str_eq r.kek_id provider.current.id
      then touch_row u (λ reply. on_reply reply (λ _. done (ok true)))
      else on_kek (provider.unwrap (dek_of r)) (λ material.
        on_kek (provider.wrap provider.current material) (update_rewrapped u r.kek_id))

  unfoldable pub rewrap_key : Uuid → Program Bool
  rewrap_key u = select_row u (λ reply. on_reply reply (rewrap_row u))

  -- `impl KeyStore for PostgresKeyStore`, one caller at a time.
  unfoldable pub postgres : KeyStore Table
  postgres = record {
    get_or_create_key = λ fresh u t. run (get_or_create_key fresh u) t;
    get_key = λ u t. (run (get_key u) t).0;
    delete_key = λ u t. run (do_delete_key u) t;
    list_stale_subjects = λ current_kek_id batch_size after t.
        (run (list_stale_subjects current_kek_id batch_size after) t).0;
    rewrap_key = λ u t. run (rewrap_key u) t;
  }
