-- ===== src/Examples/Postgres.antt =====
-- The theorems on the store in Postgres at a concrete provider and table.
use journey_dynamics.Base.{
  ◌++◌, true, some, [], ◌∷◌, ok, ok-eq-ok, ◌≡◌, refl, subst, nat_ord, text_ord,
}
use journey_dynamics.Base.BTreeMap.{get, insert, remove}
use journey_dynamics.Crypto.Primitives.{zeros}
use journey_dynamics.Crypto.Cipher.{KeyMaterial}
use journey_dynamics.Crypto.Kek.{
  WrappedDek, StaticKekProvider, kwp_wrap, kwp_unwrap, wrap, unwrap, current, static_provider,
}
use journey_dynamics.Crypto.Kek.Rotation.{unwrap-key_id}
use journey_dynamics.Crypto.KeyStore.{in_memory}
use journey_dynamics.Crypto.Postgres.{
  Row, Table, run, get_or_create_key, do_delete_key, rewrap_row, get_key, rewrap_key, insert_new,
  update_where, postgres, ◌>>=◌,
}
use journey_dynamics.Crypto.Postgres.Related.{Refines, WrapsUnder, Related}
use journey_dynamics.Crypto.Postgres.Refinement.{postgres-Refines}
use journey_dynamics.Crypto.Postgres.Interleaving.{Meets, OpensOwn, OnlyCurrent, Keeps}
use journey_dynamics.Crypto.Postgres.Interleaving.Operations.{IsStored, get_or_create_key-Meets}
use journey_dynamics.Crypto.Postgres.Interleaving.Rewrapping.{IsDone, rewrap_key-Meets}
use journey_dynamics.Examples.Fixtures.{clear}

-- In the middle of a rotation from v1 to v2, a process that still writes v1 and one that writes v2.
abbrev before : StaticKekProvider
before = record { primary = "v1"; keks = ("v1", zeros 32) ∷ ("v2", zeros 32) ∷ [] }

abbrev during : StaticKekProvider
during = record { primary = "v2"; keks = ("v1", zeros 32) ∷ ("v2", zeros 32) ∷ [] }

during-WrapsUnder : WrapsUnder (static_provider clear during)
unfolding static_provider wrap unwrap kwp_wrap kwp_unwrap current get
during-WrapsUnder dek n = (zeros 8 ++ dek.key, refl, refl)

during-OpensOwn : OpensOwn (static_provider clear during)
unfolding static_provider wrap unwrap kwp_wrap kwp_unwrap current get
during-OpensOwn = record {
  wraps = λ dek w e.
      subst
        (λ (x : WrappedDek).
          (x.key_id ≡ dek.key_id) × (x.kek_id ≡ "v2") × (unwrap clear during x ≡ ok dek))
        (ok-eq-ok _ refl e) (refl, refl, refl);
  unwraps = unwrap-key_id clear during;
}

postgres-Refines_example :
    Refines
      (postgres (static_provider clear during) true)
      in_memory
      (Related (static_provider clear during))
postgres-Refines_example = postgres-Refines (static_provider clear during) true during-WrapsUnder

abbrev dek : KeyMaterial
dek = record { key_id = 1; key = zeros 32 }

abbrev fresh : KeyMaterial
fresh = record { key_id = 2; key = 7 ∷ [] }

-- One subject, whose row is stale.
abbrev table : Table
table = (4, record { key_id = 1; wrapped_key = zeros 40; kek_id = "v1" }) ∷ []

get_or_create_key-Meets_example :
    Meets
      (λ t t'. Unit)
      (Keeps (static_provider clear during) 4)
      (IsStored (static_provider clear during) true 4)
      (get_or_create_key (static_provider clear during) true fresh 4)
      table
get_or_create_key-Meets_example =
    get_or_create_key-Meets (static_provider clear during) true 4 (λ t t'. Unit) during-OpensOwn
      fresh table

rewrap_key-Meets_example :
    Meets
      (OnlyCurrent (static_provider clear during) 4)
      (Keeps (static_provider clear during) 4)
      (IsDone (static_provider clear during) true 4)
      (rewrap_key (static_provider clear during) true 4)
      table
rewrap_key-Meets_example =
    rewrap_key-Meets (static_provider clear during) true 4 during-OpensOwn table

-- A re-wrap that has read the row; then a process that still writes v1 deletes the row and creates
-- another, which the compare-and-set takes for the row that was read.
abbrev read : Row
read = record { key_id = 1; wrapped_key = zeros 40; kek_id = "v1" }

abbrev recreated : Table
recreated = (4, record { key_id = 2; wrapped_key = zeros 8 ++ 7 ∷ []; kek_id = "v1" }) ∷ []

recreated_between :
    run
      (get_or_create_key (static_provider clear before) true fresh 4)
      (run (do_delete_key (static_provider clear before) true 4) table).1
    ≡ (ok fresh, recreated)
unfolding run do_delete_key get_or_create_key get_key insert_new ◌>>=◌ get insert remove
    static_provider wrap kwp_wrap current
recreated_between = refl

erased_key_back :
    (run
      (get_key (static_provider clear during) true 4)
      (run (rewrap_row (static_provider clear during) true 4 (some read)) recreated).1).0
    ≡ ok (some (record { key_id = 2; key = zeros 32 }))
unfolding run get_key update_where get insert static_provider wrap unwrap kwp_wrap kwp_unwrap
    current
erased_key_back = refl
