-- ===== src/Crypto/Postgres/Interleaving.antt =====
-- `PostgresKeyStore` among other processes, which may change the table before each statement of an
-- operation; a statement may fail, with or without its effect.
pub mod Statements
pub mod Operations
pub mod Rewrapping
use journey_dynamics.Base.{
  ℕ, String, Option, none, some, List, take, is_some, Result, ok, err, nat_ord, ◌≡◌, ◌≢◌, refl, ◌⊎◌,
  inr,
}
use journey_dynamics.Base.BTreeMap.{get, remove}
use journey_dynamics.Json.{Uuid}
use journey_dynamics.Crypto.Cipher.{KeyMaterial}
use journey_dynamics.Crypto.Kek.{WrappedDek, KekProvider}
use journey_dynamics.Crypto.KeyStore.{KeyStoreError, sort}
use journey_dynamics.Crypto.Postgres.{
  Row, Table, dek_of, Program, done, select_row, insert_row, delete_row, touch_row, update_row,
  exists_row, stale_rows, spawn, insert_new, update_where, stale_after, on_reply, on_kek, bind_done,
  ◌>>=◌,
}

module _ {A : Type 0} (Rely Guarantee : Table → Table → Type 0)
    (Post : Result KeyStoreError A → Table → Type 0) where
  -- As long as the others keep to `Rely` between two statements, each statement keeps to
  -- `Guarantee`, and the last one leaves `Post`. A statement that fails may have had its effect.
  unfoldable pub Meets : Program A → Table → Type 0
  Meets (done r) t = Post r t
  Meets (select_row u k) t =
      (t' : Table)
      → Rely t t'
      → Meets (k (ok (get u t'))) t' × ((e : String) → Meets (k (err e)) t')
  Meets (insert_row u r k) t =
      (t' : Table)
      → Rely t t'
      → Guarantee t' (insert_new u r t').1
        × Meets (k (ok (insert_new u r t').0)) (insert_new u r t').1
        × ((e : String) → Meets (k (err e)) t' × Meets (k (err e)) (insert_new u r t').1)
  Meets (delete_row u k) t =
      (t' : Table)
      → Rely t t'
      → Guarantee t' (remove u t')
        × Meets (k (ok tt)) (remove u t')
        × ((e : String) → Meets (k (err e)) t' × Meets (k (err e)) (remove u t'))
  Meets (touch_row u k) t =
      (t' : Table) → Rely t t' → Meets (k (ok tt)) t' × ((e : String) → Meets (k (err e)) t')
  Meets (update_row u wrapped kek_id old k) t =
      (t' : Table)
      → Rely t t'
      → Guarantee t' (update_where u wrapped kek_id old t').1
        × Meets (k (ok (update_where u wrapped kek_id old t').0))
            (update_where u wrapped kek_id old t').1
        × ((e : String)
            → Meets (k (err e)) t' × Meets (k (err e)) (update_where u wrapped kek_id old t').1)
  Meets (exists_row u k) t =
      (t' : Table)
      → Rely t t'
      → Meets (k (ok (is_some (get u t')))) t' × ((e : String) → Meets (k (err e)) t')
  Meets (stale_rows current after limit k) t =
      (t' : Table)
      → Rely t t'
      → Meets (k (ok (take limit (sort (stale_after current after t'))))) t'
        × ((e : String) → Meets (k (err e)) t')
  Meets (spawn u m) t = Meets m t

module _ {A B : Type 0} (Rely Guarantee : Table → Table → Type 0)
    (Mid : Result KeyStoreError A → Table → Type 0) (Post : Result KeyStoreError B → Table → Type 0)
    (f : A → Program B)
    (rest : (r : Result KeyStoreError A) (t : Table)
      → Mid r t
      → Meets Rely Guarantee Post (bind_done r f) t) where
  pub bind-Meets :
      (m : Program A) (t : Table)
      → Meets Rely Guarantee Mid m t
      → Meets Rely Guarantee Post (m >>= f) t
  unfolding Meets ◌>>=◌
  bind-Meets (done r) t h = rest r t h
  bind-Meets (select_row u k) t h = λ t' rel. (
    bind-Meets (k (ok (get u t'))) t' (h t' rel).0,
    λ e. bind-Meets (k (err e)) t' ((h t' rel).1 e),
  )
  bind-Meets (insert_row u r k) t h = λ t' rel.
      let (kept, next, failed) = h t' rel in
      let after = insert_new u r t' in
      (
        kept,
        bind-Meets (k (ok after.0)) after.1 next,
        λ e. (bind-Meets (k (err e)) t' (failed e).0, bind-Meets (k (err e)) after.1 (failed e).1),
      )
  bind-Meets (delete_row u k) t h = λ t' rel.
      let (kept, next, failed) = h t' rel in
      (
        kept,
        bind-Meets (k (ok tt)) (remove u t') next,
        λ e. (
          bind-Meets (k (err e)) t' (failed e).0,
          bind-Meets (k (err e)) (remove u t') (failed e).1,
        ),
      )
  bind-Meets (touch_row u k) t h = λ t' rel.
      (bind-Meets (k (ok tt)) t' (h t' rel).0, λ e. bind-Meets (k (err e)) t' ((h t' rel).1 e))
  bind-Meets (update_row u wrapped kek_id old k) t h = λ t' rel.
      let (kept, next, failed) = h t' rel in
      let after = update_where u wrapped kek_id old t' in
      (
        kept,
        bind-Meets (k (ok after.0)) after.1 next,
        λ e. (bind-Meets (k (err e)) t' (failed e).0, bind-Meets (k (err e)) after.1 (failed e).1),
      )
  bind-Meets (exists_row u k) t h = λ t' rel. (
    bind-Meets (k (ok (is_some (get u t')))) t' (h t' rel).0,
    λ e. bind-Meets (k (err e)) t' ((h t' rel).1 e),
  )
  bind-Meets (stale_rows current after limit k) t h = λ t' rel. (
    bind-Meets (k (ok (take limit (sort (stale_after current after t'))))) t' (h t' rel).0,
    λ e. bind-Meets (k (err e)) t' ((h t' rel).1 e),
  )
  bind-Meets (spawn u m) t h = bind-Meets m t h

-- What a provider wraps under its current version it can unwrap, to the same key; the id of a key
-- that it unwraps is the one beside it.
pub record OpensOwn (provider : KekProvider) : Type 0 where
  pub wraps :
      (dek : KeyMaterial) (w : WrappedDek)
      → provider.wrap provider.current dek ≡ ok w
      → (w.key_id ≡ dek.key_id) × (w.kek_id ≡ provider.current.id) × (provider.unwrap w ≡ ok dek)
  pub unwraps : (w : WrappedDek) (m : KeyMaterial) → provider.unwrap w ≡ ok m → m.key_id ≡ w.key_id

module _ (provider : KekProvider) (u : Uuid) where
  -- The subject's row holds the key.
  abbrev pub HoldsKey : Table → KeyMaterial → Type 0
  HoldsKey t m = (r : Row) × (get u t ≡ some r) × (provider.unwrap (dek_of r) ≡ ok m)

  -- The subject's row is gone, the same, or wrapped under the current version.
  abbrev pub OnlyCurrent : Table → Table → Type 0
  OnlyCurrent t t' =
      (r : Row) → get u t' ≡ some r → (r.kek_id ≡ provider.current.id) ⊎ (get u t ≡ some r)

  -- No key is lost, what is written is wrapped under the current version, and no other subject's
  -- row changes.
  pub record Keeps (t t' : Table) : Type 0 where
    pub keys : (m : KeyMaterial) → HoldsKey t m → HoldsKey t' m
    pub tags : OnlyCurrent t t'
    pub others : (v : Uuid) → v ≢ u → get v t' ≡ get v t

  pub same-Keeps : (t : Table) → Keeps t t
  same-Keeps t = record { keys = λ m h. h; tags = λ r e. inr e; others = λ v ne. refl }
