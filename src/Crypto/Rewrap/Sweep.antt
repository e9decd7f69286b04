-- ===== src/Crypto/Rewrap/Sweep.antt =====
-- The sweep of the re-wrap worker over the in-memory store: it ends, and leaves no stale key.
use journey_dynamics.Base.{
  ℕ, zero, suc, ◌+◌, ◌<◌, true, Option, none, some, List, [], ◌∷◌, length, ◌++◌, take, drop, ok,
  nat_ord, All, ◌≡◌, refl, sym, ap, ap₂, subst, ◌∙◌, arith,
}
use journey_dynamics.Json.{Uuid}
use journey_dynamics.Crypto.Kek.{KekProvider}
use journey_dynamics.Crypto.KeyStore.{
  InMemoryKeyStore, is_past, sort, list_stale_subjects, in_memory,
}
use journey_dynamics.Crypto.KeyStore.Stale.{
  IsAscending, sort-IsAscending, stale_after-IsAscending, stale_after-cursor,
}
use journey_dynamics.Crypto.Rewrap.{
  RewrapStats, no_stats, last_of, run_batch, Swept, sweep, run_once,
}
use journey_dynamics.Crypto.Rewrap.Batch.{stale, IsSweepable, Next, Next-trans, run_batch_first}

take-drop : (n : ℕ) (us : List Uuid) → us ≡ take n us ++ drop n us
take-drop zero us = refl
take-drop (suc n) [] = refl
take-drop (suc n) (u ∷ us) = ap (λ vs. u ∷ vs) (take-drop n us)

above_last :
    (m : ℕ) (u : Uuid) (us : List Uuid)
    → IsAscending (u ∷ us)
    → All (λ v. is_past (some (last_of u (take m us))) v ≡ true) (drop m us)
above_last zero u us h = h.0
above_last (suc m) u [] h = tt
above_last (suc m) u (v ∷ vs) h = above_last m v vs h.1

length-take-drop : (n : ℕ) (us : List Uuid) → length (take n us) + length (drop n us) ≡ length us
length-take-drop zero us = omega arith
length-take-drop (suc n) [] = omega arith
length-take-drop (suc n) (u ∷ us) = ground (arith, length-take-drop n us)

module _ (provider : KekProvider) where
  listed :
      (batch_size : ℕ) (cursor : Option Uuid) (s : InMemoryKeyStore)
      → IsSweepable provider s
      → All (λ v. is_past cursor v ≡ true) (stale provider s)
      → list_stale_subjects provider.current.id batch_size cursor s
        ≡ take batch_size (stale provider s)
  unfolding list_stale_subjects
  listed batch_size cursor s h past =
      let kek = provider.current.id in
      ap (take batch_size) (
        ap sort (stale_after-cursor kek cursor s.store past)
        ∙ sort-IsAscending _ (stale_after-IsAscending kek none s.store h.ordered))

  -- What a sweep adds to the counters when nothing fails.
  abbrev pub after_sweep : ℕ → RewrapStats → RewrapStats
  after_sweep n stats = record stats {
    scanned = stats.scanned + n;
    rewrapped = stats.rewrapped + n;
  }

  abbrev Ends : Swept in_memory → ℕ → RewrapStats → InMemoryKeyStore → Type 0
  Ends swept n stats s =
      (s' : InMemoryKeyStore) × (swept ≡ some (ok (after_sweep n stats, s')))
      × Next provider s s' []

  -- The counters of a turn whose batch has `a` subjects, with `b` left.
  counted_on :
      (a b n : ℕ) (stats : RewrapStats)
      → a + b ≡ n
      → after_sweep b
          (record stats { scanned = stats.scanned + a; rewrapped = stats.rewrapped + a })
        ≡ after_sweep n stats
  counted_on a b n stats h =
      ap₂ (λ x y. record stats { scanned = x; rewrapped = y }) (omega arith) (omega arith)

  nothing_swept : (stats : RewrapStats) → stats ≡ after_sweep 0 stats
  nothing_swept stats =
      ap₂ (λ x y. record stats { scanned = x; rewrapped = y }) (omega arith) (omega arith)

  -- One turn of the loop over a store whose stale subjects are `u ∷ us`.
  sweep_turn :
      (fuel m : ℕ) (cursor : Option Uuid) (stats : RewrapStats) (s s' : InMemoryKeyStore) (u : Uuid)
      (us : List Uuid) (stats' : RewrapStats)
      → list_stale_subjects provider.current.id (suc m) cursor s ≡ u ∷ us
      → run_batch in_memory (u ∷ us) (record stats { scanned = stats.scanned + length (u ∷ us) }) s
        ≡ (stats', s')
      → sweep in_memory (suc fuel) provider.current.id (suc m) cursor stats s
        ≡ sweep in_memory fuel provider.current.id (suc m) (some (last_of u us)) stats' s'
  unfolding sweep in_memory
  sweep_turn fuel m cursor stats s s' u us stats' l r = rw (l, r) refl

  sweep_end :
      (fuel m : ℕ) (cursor : Option Uuid) (stats : RewrapStats) (s : InMemoryKeyStore)
      → list_stale_subjects provider.current.id (suc m) cursor s ≡ []
      → sweep in_memory (suc fuel) provider.current.id (suc m) cursor stats s ≡ some (ok (stats, s))
  unfolding sweep in_memory
  sweep_end fuel m cursor stats s l = rw l refl

  sweep-Ends :
      (fuel m : ℕ) (cursor : Option Uuid) (stats : RewrapStats) (s : InMemoryKeyStore)
      (us : List Uuid)
      → IsSweepable provider s
      → stale provider s ≡ us
      → All (λ v. is_past cursor v ≡ true) us
      → length us < fuel
      → Ends (sweep in_memory fuel provider.current.id (suc m) cursor stats s) (length us) stats s
  sweep-Ends zero m cursor stats s us h e past enough = absurd (omega arith)
  sweep-Ends (suc fuel) m cursor stats s [] h e past enough =
      let l = listed (suc m) cursor s h (subst (All (λ v. is_past cursor v ≡ true)) (sym e) past) in
      (
        s,
        sweep_end fuel m cursor stats s (l ∙ ap (take (suc m)) e)
            ∙ ap (λ st. some (ok (st, s))) (nothing_swept stats),
        record { sweepable = h; fewer = e; keys_kept = λ v. refl },
      )
  sweep-Ends (suc fuel) m cursor stats s (u ∷ us) h e past enough =
      let l = listed (suc m) cursor s h (subst (All (λ v. is_past cursor v ≡ true)) (sym e) past) in
      let batch = u ∷ take m us in
      let (s₁, ran, next) =
        run_batch_first provider batch (drop m us)
          (record stats { scanned = stats.scanned + length batch }) s h
          (e ∙ ap (λ vs. u ∷ vs) (take-drop m us)) in
      let ascending : IsAscending (u ∷ us) =
        subst IsAscending e (stale_after-IsAscending provider.current.id none s.store h.ordered) in
      let counted = length-take-drop m us in
      let stats₁ = record stats {
        scanned = stats.scanned + length batch;
        rewrapped = stats.rewrapped + length batch;
      } in
      let (s₂, swept, last) =
        sweep-Ends fuel m (some (last_of u (take m us))) stats₁ s₁ (drop m us) next.sweepable
          next.fewer (above_last m u us ascending) (omega arith) in
      (
        s₂,
        sweep_turn fuel m cursor stats s s₁ u (take m us) stats₁ (l ∙ ap (take (suc m)) e) ran
            ∙ swept
            ∙ ap (λ st. some (ok (st, s₂)))
                (counted_on (length batch) (length (drop m us)) (length (u ∷ us)) stats
                  (omega arith)),
        Next-trans provider s s₁ s₂ next last,
      )

  -- A sweep of the in-memory store with the worker's provider, a batch size that is not zero and
  -- more fuel than there are stale subjects ends without an error: it has scanned and re-wrapped
  -- each stale subject once, has failed on none, leaves no subject stale and every subject's key
  -- as `get_key` found it.
  pub run_once_lem :
      (fuel batch_size : ℕ) (s : InMemoryKeyStore)
      → IsSweepable provider s
      → 0 < batch_size
      → length (stale provider s) < fuel
      → (s' : InMemoryKeyStore) × (run_once in_memory fuel provider batch_size s
          ≡ some (
              ok (
                record {
                  scanned = length (stale provider s);
                  rewrapped = length (stale provider s);
                  failures = 0;
                },
                s',
              )))
        × Next provider s s' []
  unfolding run_once
  run_once_lem fuel zero s h n enough = absurd (omega arith)
  run_once_lem fuel (suc m) s h n enough =
      let (s', swept, last) =
        sweep-Ends fuel m none no_stats s (stale provider s) h refl (all_past (stale provider s))
          enough in
      (
        s',
        swept
            ∙ ap₂ (λ x y. some (ok (record { scanned = x; rewrapped = y; failures = 0 }, s')))
                (omega arith) (omega arith),
        last,
      )
    where
      all_past : (us : List Uuid) → All (λ v. is_past none v ≡ true) us
      all_past [] = tt
      all_past (u ∷ us) = (refl, all_past us)
