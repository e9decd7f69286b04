-- ===== src/Crypto/Rewrap.antt =====
-- crates/cqrs-es-crypto/src/rewrap.rs: one sweep of the re-wrap worker over a key store. The tasks
-- of a batch take effect one after the other, in the order of the batch; the clock, the pause
-- between batches and the bound on concurrent tasks are left out.
pub mod Batch
pub mod Sweep
use journey_dynamics.Base.{
  ℕ, zero, suc, ◌+◌, Bool, true, false, String, Option, none, some, List, [], ◌∷◌, length, Result,
  ok, err,
}
use journey_dynamics.Json.{Uuid}
use journey_dynamics.Crypto.Kek.{KekProvider}
use journey_dynamics.Crypto.KeyStore.{KeyStoreError, KeyStore}

pub record RewrapStats : Type 0 where
  pub scanned : ℕ
  pub rewrapped : ℕ
  pub failures : ℕ

-- `RewrapStats::default()`
abbrev pub no_stats : RewrapStats
no_stats = record { scanned = 0; rewrapped = 0; failures = 0 }

-- What the join loop counts for a task.
abbrev pub count : Result KeyStoreError Bool → RewrapStats → RewrapStats
count (ok true) stats = record stats { rewrapped = stats.rewrapped + 1 }
count (ok false) stats = stats
count (err e) stats = record stats { failures = stats.failures + 1 }

-- `batch.last()`
abbrev pub last_of : Uuid → List Uuid → Uuid
last_of u [] = u
last_of u (v ∷ vs) = last_of v vs

module _ {S : Type 0} (store : KeyStore S) where
  unfoldable pub run_batch : List Uuid → RewrapStats → S → RewrapStats × S
  run_batch [] stats s = (stats, s)
  run_batch (u ∷ us) stats s =
      run_batch us (count (store.rewrap_key u s).0 stats) (store.rewrap_key u s).1

  abbrev pub Swept : Type 0
  Swept = Option (Result KeyStoreError (RewrapStats × S))

  -- One turn of the loop, on what `list_stale_subjects` returned; `next` is the rest of the loop.
  abbrev pub sweep_batch :
      Result KeyStoreError (List Uuid)
      → RewrapStats
      → S
      → (Option Uuid → RewrapStats → S → Swept)
      → Swept
  sweep_batch (err e) stats s next = some (err e)
  sweep_batch (ok []) stats s next = some (ok (stats, s))
  sweep_batch (ok (u ∷ us)) stats s next =
      let (stats', s') =
        run_batch (u ∷ us) (record stats { scanned = stats.scanned + length (u ∷ us) }) s in
      next (some (last_of u us)) stats' s'

  -- The loop, on fuel: `none` is an end of the fuel.
  unfoldable pub sweep : ℕ → String → ℕ → Option Uuid → RewrapStats → S → Swept
  sweep zero current_id batch_size cursor stats s = none
  sweep (suc fuel) current_id batch_size cursor stats s =
      sweep_batch (store.list_stale_subjects current_id batch_size cursor s) stats s
        (λ cursor' stats' s'. sweep fuel current_id batch_size cursor' stats' s')

  unfoldable pub run_once : ℕ → KekProvider → ℕ → S → Swept
  unfolding sweep
  run_once fuel provider batch_size s = sweep fuel provider.current.id batch_size none no_stats s
