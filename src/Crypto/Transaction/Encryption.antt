-- ===== src/Crypto/Transaction/Encryption.antt =====
-- In a transaction events are encrypted as they are with `PostgresKeyStore`.
use journey_dynamics.Base.{
  ℕ, suc, Bool, not, ◌&&◌, Option, none, some, List, [], ◌∷◌, Result, ok, err, nat_ord, str_eq, ◌≡◌,
  refl, sym, ap, subst, ◌>>=◌,
}
use journey_dynamics.Base.BTreeMap.{get}
use journey_dynamics.Json.{Uuid}
use journey_dynamics.Crypto.Primitives.{Failure, panic, error, expect, Primitives}
use journey_dynamics.Crypto.Cipher.{KeyMaterial}
use journey_dynamics.Crypto.Kek.{WrappedDek, KekError, KekProvider}
use journey_dynamics.Crypto.KeyStore.{KeyStoreError}
use journey_dynamics.Crypto.Events.{
  SerializedEvent, SecretPartition, wrapping_error, codec_error, key_store_error, PiiEventCodec,
  Encodings,
}
use journey_dynamics.Crypto.Envelope.{add_envelope, change_inner, Persisted, boxed, failed}
use journey_dynamics.Crypto.Writing.{
  Draw, seal, and_then, encrypt_parts, encrypt_extracted, encrypt_event, encrypt_events,
}
use journey_dynamics.Crypto.Postgres.{
  Row, Table, dek_of, run, done, on_kek, read_row, insert_wrapped, after_insert, create_unless,
  get_key, get_or_create_key, insert_new, insert_unless, postgres, ◌>>=◌ as ◌then◌,
}
use journey_dynamics.Crypto.Postgres.Refinement.{run-spawn_if_bind}
use journey_dynamics.Crypto.Transaction.{
  opened, inserted, create_in_tx, get_or_create_key_in_tx, encrypt_parts_in_tx,
  encrypt_extracted_in_tx, encrypt_events_in_tx,
}

-- Both fail, or both give the same and leave the same table.
abbrev pub Matches : {A : Type 0} → Persisted (A × Table) → Persisted A × Table → Type 0
Matches (ok (a, t)) (ok b, t') = (a ≡ b) × (t ≡ t')
Matches (ok (a, t)) (err e, t') = ⊥
Matches (err e) (ok b, t') = ⊥
Matches (err e) (err e', t') = Unit

module _ {A B : Type 0} where
  bind-Matches :
      (m : Persisted (A × Table)) (m' : Persisted A × Table) (f : A × Table → Persisted (B × Table))
      (g : A → Table → Persisted B × Table)
      → Matches m m'
      → ((a : A) (t : Table) → Matches (f (a, t)) (g a t))
      → Matches (m >>= f) (and_then m' g)
  bind-Matches (ok (a, t)) (ok b, t') f g (same, tables) next =
      subst (λ x. Matches (f (a, t)) (g x t')) same
        (subst (λ x. Matches (f (a, t)) (g a x)) tables (next a t))
  bind-Matches (ok (a, t)) (err e, t') f g h next = absurd h
  bind-Matches (err e) (ok b, t') f g h next = absurd h
  bind-Matches (err e) (err e', t') f g h next = tt

  -- A step that leaves the table alone.
  pure-Matches :
      (m : Persisted A) (t : Table) (f : A → Persisted (B × Table))
      (g : A → Table → Persisted B × Table)
      → ((a : A) → Matches (f a) (g a t))
      → Matches (m >>= f) (and_then (m, t) g)
  pure-Matches (ok a) t f g next = next a
  pure-Matches (err e) t f g next = tt

abbrev outcome : {A : Type 0} → Result KeyStoreError A × Table → Persisted A × Table
outcome r = (failed key_store_error r.0, r.1)

module _ (provider : KekProvider) (lazy : Bool) (fresh : KeyMaterial) (u : Uuid) (t : Table) where
  opened-Matches :
      (x : Result (Failure KekError) KeyMaterial)
      → Matches (boxed wrapping_error x >>= λ material. ok (material, t)) (
          outcome
            (run (on_kek x (λ m. done (ok (some m))) then create_unless provider lazy fresh u) t))
  unfolding run ◌then◌
  opened-Matches (ok m) = (refl, refl)
  opened-Matches (err panic) = tt
  opened-Matches (err (error e)) = tt

  wrapped-Matches :
      (x : Result (Failure KekError) WrappedDek)
      → get u t ≡ none
      → Matches
          (boxed wrapping_error x >>= λ wrapped. inserted provider fresh u (
            insert_new u
              (record {
                key_id = fresh.key_id;
                wrapped_key = wrapped.wrapped_key;
                kek_id = wrapped.kek_id;
              })
              t))
          (outcome (run (on_kek x (insert_wrapped provider lazy fresh u)) t))
  unfolding run insert_new
  wrapped-Matches (err panic) absent = tt
  wrapped-Matches (err (error e)) absent = tt
  wrapped-Matches (ok w) absent =
      let row : Row = record {
        key_id = fresh.key_id;
        wrapped_key = w.wrapped_key;
        kek_id = w.kek_id;
      } in
      subst
        (λ x.
          Matches (inserted provider fresh u x)
            (outcome (run (after_insert provider lazy fresh u x.0) x.1)))
        (sym (ap (insert_unless u row t) absent)) (refl, refl)

  create-Matches :
      (o : Option Row)
      → get u t ≡ o
      → Matches
          (create_in_tx provider fresh u t o)
          (outcome (run (read_row provider lazy u o then create_unless provider lazy fresh u) t))
  unfolding ◌then◌
  create-Matches none absent = wrapped-Matches (provider.wrap provider.current fresh) absent
  create-Matches (some r) found =
      subst (λ x. Matches (opened provider t r) (outcome x))
        (sym (
          run-spawn_if_bind provider lazy (lazy && not (str_eq r.kek_id provider.current.id)) u
            (on_kek (provider.unwrap (dek_of r)) (λ m. done (ok (some m))))
            (create_unless provider lazy fresh u) t))
        (opened-Matches (provider.unwrap (dek_of r)))

  get_or_create-Matches :
      Matches
        (get_or_create_key_in_tx provider fresh u t)
        (outcome ((postgres provider lazy).get_or_create_key fresh u t))
  unfolding get_or_create_key_in_tx postgres run get_or_create_key get_key ◌then◌
  get_or_create-Matches = create-Matches (get u t) refl

module _ (p : Primitives) (enc : Encodings) (codec : PiiEventCodec) (provider : KekProvider)
    (lazy : Bool) where
  encrypt_parts-Matches :
      (draw : ℕ → Draw) (event : SerializedEvent) (n : ℕ) (parts : List SecretPartition) (t : Table)
      → Matches
          (encrypt_parts_in_tx p enc codec provider draw event n parts t)
          (encrypt_parts p enc codec (postgres provider lazy) draw event n parts t)
  unfolding encrypt_parts_in_tx encrypt_parts
  encrypt_parts-Matches draw event n [] t = (refl, refl)
  encrypt_parts-Matches draw event n (part ∷ parts) t =
      bind-Matches (get_or_create_key_in_tx provider (draw n).key part.subject_id t)
        (outcome ((postgres provider lazy).get_or_create_key (draw n).key part.subject_id t)) _ _
        (get_or_create-Matches provider lazy (draw n).key part.subject_id t)
        (λ dek t₁. pure-Matches (seal p enc codec event part (draw n).nonce dek) t₁ _ _ (λ sealed.
          bind-Matches (encrypt_parts_in_tx p enc codec provider draw event (suc n) parts t₁)
            (encrypt_parts p enc codec (postgres provider lazy) draw event (suc n) parts t₁) _ _
            (encrypt_parts-Matches draw event (suc n) parts t₁) (λ rest t₂. (refl, refl))))

  encrypt_extracted-Matches :
      (draw : ℕ → Draw) (extracted : SerializedEvent × List SecretPartition) (t : Table)
      → Matches
          (encrypt_extracted_in_tx p enc codec provider draw extracted t)
          (encrypt_extracted p enc codec (postgres provider lazy) draw 0 extracted t)
  encrypt_extracted-Matches draw (event, []) t = (refl, refl)
  encrypt_extracted-Matches draw (event, part ∷ parts) t =
      bind-Matches (encrypt_parts_in_tx p enc codec provider draw event 0 (part ∷ parts) t)
        (encrypt_parts p enc codec (postgres provider lazy) draw event 0 (part ∷ parts) t) _ _
        (encrypt_parts-Matches draw event 0 (part ∷ parts) t)
        (λ sealed t₁. changed (expect (change_inner (add_envelope sealed) event)) t₁)
    where
      changed :
          (m : Persisted SerializedEvent) (t₁ : Table)
          → Matches (m >>= λ event'. ok (event', t₁)) (m, t₁)
      changed (ok event') t₁ = (refl, refl)
      changed (err e) t₁ = tt

  first_and_rest :
      (draws : ℕ → ℕ → Draw) (i : ℕ) (events : List SerializedEvent)
      (m : Persisted (SerializedEvent × List SecretPartition)) (t : Table)
      → ((t₁ : Table)
          → Matches
              (encrypt_events_in_tx p enc codec provider draws (suc i) events t₁)
              (encrypt_events p enc codec (postgres provider lazy) draws (suc i) events t₁))
      → Matches
          (m >>= λ extracted.
            encrypt_extracted_in_tx p enc codec provider (draws i) extracted t >>= λ first.
            encrypt_events_in_tx p enc codec provider draws (suc i) events first.1 >>= λ rest.
            ok (first.0 ∷ rest.0, rest.1))
          (and_then
            (and_then (m, t) (encrypt_extracted p enc codec (postgres provider lazy) (draws i) 0))
            (λ first s₁.
              and_then
                (encrypt_events p enc codec (postgres provider lazy) draws (suc i) events s₁)
                (λ rest s₂. (ok (first ∷ rest), s₂))))
  first_and_rest draws i events (err e) t later = tt
  first_and_rest draws i events (ok extracted) t later =
      bind-Matches (encrypt_extracted_in_tx p enc codec provider (draws i) extracted t)
        (encrypt_extracted p enc codec (postgres provider lazy) (draws i) 0 extracted t) _ _
        (encrypt_extracted-Matches (draws i) extracted t)
        (λ first t₁.
          bind-Matches (encrypt_events_in_tx p enc codec provider draws (suc i) events t₁)
            (encrypt_events p enc codec (postgres provider lazy) draws (suc i) events t₁) _ _
            (later t₁) (λ rest t₂. (refl, refl)))

  -- `encrypt_events_in_tx` does what `encrypt_events` does with `PostgresKeyStore` called alone:
  -- on every batch and table both fail, or both give the same encrypted events and leave the same
  -- keys.
  pub encrypt_events_in_tx-Matches :
      (draws : ℕ → ℕ → Draw) (i : ℕ) (events : List SerializedEvent) (t : Table)
      → Matches
          (encrypt_events_in_tx p enc codec provider draws i events t)
          (encrypt_events p enc codec (postgres provider lazy) draws i events t)
  unfolding encrypt_events_in_tx encrypt_events encrypt_event
  encrypt_events_in_tx-Matches draws i [] t = (refl, refl)
  encrypt_events_in_tx-Matches draws i (event ∷ events) t =
      first_and_rest draws i events (boxed codec_error (codec.extract_partitions event)) t
        (λ t₁. encrypt_events_in_tx-Matches draws (suc i) events t₁)
