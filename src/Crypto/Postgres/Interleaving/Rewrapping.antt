-- ===== src/Crypto/Postgres/Interleaving/Rewrapping.antt =====
-- `rewrap_key` among other processes.
use journey_dynamics.Base.{
  ℕ, Bool, true, false, ◌==◌, Option, none, some, is_some, Result, ok, err, nat_ord, str_eq, eq_iff,
  Bool-cases, ◌≡◌, ◌≢◌, refl, sym, ap, ◌∙◌, inl, inr,
}
use journey_dynamics.Base.BTreeMap.{get}
use journey_dynamics.Base.Partial.{some-eq-some}
use journey_dynamics.Json.{Uuid}
use journey_dynamics.Crypto.Primitives.{Failure}
use journey_dynamics.Crypto.Cipher.{KeyMaterial}
use journey_dynamics.Crypto.Kek.{WrappedDek, KekError, KekProvider}
use journey_dynamics.Crypto.KeyStore.{KeyStoreError}
use journey_dynamics.Crypto.Postgres.{
  Row, Table, dek_of, Program, update_where, on_kek, update_found, after_update, update_rewrapped,
  rewrap_row, rewrap_key,
}
use journey_dynamics.Crypto.Postgres.Interleaving.{Meets, OpensOwn, OnlyCurrent, Keeps}
use journey_dynamics.Crypto.Postgres.Interleaving.Statements.{
  IsTagged, OnlyCurrent-IsTagged, update_found_lem,
}

module _ (provider : KekProvider) (lazy_rewrap : Bool) (u : Uuid) where
  -- What `rewrap_key` says when it is done.
  abbrev pub IsDone : Result KeyStoreError Bool → Table → Type 0
  IsDone (ok true) t = IsTagged provider u t
  IsDone (ok false) t = get u t ≡ none
  IsDone (err e) t = Unit

  module _ (own : OpensOwn provider) where
    abbrev Rewraps : Program Bool → Table → Type 0
    Rewraps = Meets (OnlyCurrent provider u) (Keeps provider u) IsDone

    exists-IsDone :
        (t : Table) (o : Option Row)
        → get u t ≡ o
        → IsTagged provider u t
        → IsDone (ok (is_some o)) t
    exists-IsDone t none found tagged = found
    exists-IsDone t (some r) found tagged = tagged

    after_update-Meets :
        (n : ℕ) (t : Table)
        → IsTagged provider u t
        → Rewraps (after_update provider lazy_rewrap u n) t
    unfolding Meets
    after_update-Meets n t tagged = elim (Bool-cases (n == 0)) [
      | inl lost ↦ rw lost (λ t' rel. (
        exists-IsDone t' (get u t') refl (OnlyCurrent-IsTagged provider u t t' rel tagged),
        λ e. tt,
      ))
      | inr won ↦ rw won tagged
    ]

    module _ (r : Row) (t : Table) (found : get u t ≡ some r)
        (stale : r.kek_id ≢ provider.current.id) where
      wrapped-Meets :
          (m : KeyMaterial) (x : Result (Failure KekError) WrappedDek)
          → provider.unwrap (dek_of r) ≡ ok m
          → provider.wrap provider.current m ≡ x
          → Rewraps (on_kek x (update_rewrapped provider lazy_rewrap u r.kek_id)) t
      unfolding Meets update_where
      wrapped-Meets m (err e) opens wrapped = tt
      wrapped-Meets m (ok w) opens wrapped = λ t' rel.
          let after = update_found u w.wrapped_key w.kek_id r.kek_id t' (get u t') in
          let (kept, tagged) =
            update_found_lem provider u own r m w opens stale wrapped t t' (get u t') found rel
              refl in
          (kept, after_update-Meets after.0 after.1 tagged, λ e. (tt, tt))

      opened-Rewraps :
          (x : Result (Failure KekError) KeyMaterial)
          → provider.unwrap (dek_of r) ≡ x
          → Rewraps
              (on_kek x (λ m.
                on_kek
                  (provider.wrap provider.current m)
                  (update_rewrapped provider lazy_rewrap u r.kek_id)))
              t
      unfolding Meets
      opened-Rewraps (err e) opens = tt
      opened-Rewraps (ok m) opens = wrapped-Meets m (provider.wrap provider.current m) opens refl

    rewrap_row-Meets :
        (t : Table) (o : Option Row) → get u t ≡ o → Rewraps (rewrap_row provider lazy_rewrap u o) t
    unfolding Meets
    rewrap_row-Meets t none found = found
    rewrap_row-Meets t (some r) found = elim (Bool-cases (str_eq r.kek_id provider.current.id)) [
      | inl current ↦
          let tag = (eq_iff r.kek_id provider.current.id).0 current in
          rw current (λ t' rel. (
            OnlyCurrent-IsTagged provider u t t' rel
                (λ q e. ap (λ (x : Row). x.kek_id) (some-eq-some (sym e ∙ found)) ∙ tag),
            λ e. tt,
          ))
      | inr other ↦
          rw other
            (opened-Rewraps r t found (not_current r other) (provider.unwrap (dek_of r)) refl)
    ]
      where
        not_current :
            (r : Row) → str_eq r.kek_id provider.current.id ≡ false → r.kek_id ≢ provider.current.id
        not_current r other e = let same = (eq_iff r.kek_id provider.current.id).1 e in cc

    -- If the provider unwraps what it wraps under its current version, then as long as other
    -- processes, between the statements of `rewrap_key`, only delete the subject's row or write it
    -- under the current version: each statement of `rewrap_key`, failed or not, keeps every key
    -- that the subject's row holds and all other rows, and when it returns `true` the row, if
    -- there is one, is wrapped under the current version, and when it returns `false` there is
    -- none.
    pub rewrap_key-Meets :
        (t : Table)
        → Meets
            (OnlyCurrent provider u)
            (Keeps provider u)
            IsDone
            (rewrap_key provider lazy_rewrap u)
            t
    unfolding Meets rewrap_key
    rewrap_key-Meets t = λ t' rel. (rewrap_row-Meets t' (get u t') refl, λ e. tt)
