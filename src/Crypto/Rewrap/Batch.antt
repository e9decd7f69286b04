-- ===== src/Crypto/Rewrap/Batch.antt =====
-- One batch of re-wraps over the in-memory store: what it counts and what it leaves.
use journey_dynamics.Base.{
  ℕ, suc, ◌+◌, Bool, true, false, none, some, List, [], ◌∷◌, length, ◌++◌, ok, nat_ord, ◌≡◌, refl,
  sym, ap, subst, ◌∙◌, arith,
}
use journey_dynamics.Base.BTreeMap.{insert, IsOrdered, insert-IsOrdered}
use journey_dynamics.Json.{Uuid}
use journey_dynamics.Crypto.Kek.{KekProvider}
use journey_dynamics.Crypto.KeyStore.{InMemoryKeyStore, stale_after, get_key, rewrap_key, in_memory}
use journey_dynamics.Crypto.KeyStore.Shredding.{rewrap_key-Rewrapped}
use journey_dynamics.Crypto.KeyStore.Stale.{stale_after-insert}
use journey_dynamics.Crypto.Rewrap.{RewrapStats, count, run_batch}

module _ (provider : KekProvider) where
  -- The subjects that a sweep has to re-wrap.
  abbrev pub stale : InMemoryKeyStore → List Uuid
  stale s = stale_after provider.current.id none s.store

  -- What a sweep needs of a store, and keeps.
  pub record IsSweepable (s : InMemoryKeyStore) : Type 0 where
    pub has_provider : s.provider ≡ some provider
    pub ordered : IsOrdered s.store

  -- After a re-wrap of the first stale subject.
  pub record Next (s s' : InMemoryKeyStore) (us : List Uuid) : Type 0 where
    pub sweepable : IsSweepable s'
    pub fewer : stale s' ≡ us
    pub keys_kept : (v : Uuid) → get_key v s' ≡ get_key v s

  rewrap_head :
      (u : Uuid) (us : List Uuid) (s : InMemoryKeyStore)
      → IsSweepable s
      → stale s ≡ u ∷ us
      → ((rewrap_key u s).0 ≡ true) × Next s (rewrap_key u s).1 us
  unfolding rewrap_key
  rewrap_head u us s h e =
      let (entry, found, rest) = stale_after-insert provider.current.id u us s.store h.ordered e in
      let kept = (rewrap_key-Rewrapped provider u s h.has_provider).keys_kept in
      let tagged = record entry { kek_id = provider.current.id } in
      let run : rewrap_key u s ≡ (true, record s { store = insert u tagged s.store }) =
        rw (h.has_provider, found) refl in
      (
        ap (λ r. r.0) run,
        record {
          sweepable = record {
            has_provider = ap (λ r. r.1.provider) run ∙ h.has_provider;
            ordered =
                subst (λ r. IsOrdered r.1.store) (sym run)
                  (insert-IsOrdered u tagged s.store h.ordered);
          };
          fewer = ap (λ r. stale r.1) run ∙ rest;
          keys_kept = kept;
        },
      )

  pub Next-trans :
      (s s' t : InMemoryKeyStore) {us vs : List Uuid} → Next s s' us → Next s' t vs → Next s t vs
  Next-trans s s' t a b = record {
    sweepable = b.sweepable;
    fewer = b.fewer;
    keys_kept = λ v. b.keys_kept v ∙ a.keys_kept v;
  }

  -- The counters after a batch of `n` re-wraps.
  abbrev after_batch : ℕ → RewrapStats → RewrapStats
  after_batch n stats = record stats { rewrapped = stats.rewrapped + n }

  nothing_counted : (stats : RewrapStats) → stats ≡ after_batch 0 stats
  nothing_counted stats = ap (λ n. record stats { rewrapped = n }) (omega arith)

  one_counted :
      (b : Bool) (n : ℕ) (stats : RewrapStats)
      → b ≡ true
      → after_batch n (count (ok b) stats) ≡ after_batch (suc n) stats
  one_counted true n stats h = ap (λ k. record stats { rewrapped = k }) (omega arith)
  one_counted false n stats h = cc

  pub run_batch_first :
      (us vs : List Uuid) (stats : RewrapStats) (s : InMemoryKeyStore)
      → IsSweepable s
      → stale s ≡ us ++ vs
      → (s' : InMemoryKeyStore) × (run_batch in_memory us stats s
          ≡ (after_batch (length us) stats, s'))
        × Next s s' vs
  unfolding run_batch in_memory
  run_batch_first [] vs stats s h e = (
    s,
    ap (λ st. (st, s)) (nothing_counted stats),
    record { sweepable = h; fewer = e; keys_kept = λ v. refl },
  )
  run_batch_first (u ∷ us) vs stats s h e =
      let (done, next) = rewrap_head u (us ++ vs) s h e in
      let s₁ = (rewrap_key u s).1 in
      let (s', rest, then_rest) =
        run_batch_first us vs (count (ok (rewrap_key u s).0) stats) s₁ next.sweepable next.fewer in
      (
        s',
        rest ∙ ap (λ st. (st, s')) (one_counted (rewrap_key u s).0 (length us) stats done),
        Next-trans s s₁ s' next then_rest,
      )
