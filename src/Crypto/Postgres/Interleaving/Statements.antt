-- ===== src/Crypto/Postgres/Interleaving/Statements.antt =====
-- What an INSERT and a compare-and-set UPDATE of a subject's row leave.
use journey_dynamics.Base.{
  false, Option, none, some, ok, nat_ord, str_eq, eq_iff, Bool-cases, ◌≡◌, ◌≢◌, sym, ap, subst, ◌∙◌,
  inl, inr,
}
use journey_dynamics.Base.BTreeMap.{get, insert, get-insert_self, get-insert_ne}
use journey_dynamics.Base.Partial.{some-eq-some}
use journey_dynamics.Json.{Uuid}
use journey_dynamics.Crypto.Cipher.{KeyMaterial}
use journey_dynamics.Crypto.Kek.{WrappedDek, KekProvider}
use journey_dynamics.Crypto.Postgres.{Row, Table, dek_of, insert_unless, update_found}
use journey_dynamics.Crypto.Postgres.Interleaving.{
  OpensOwn, HoldsKey, OnlyCurrent, Keeps, same-Keeps,
}

module _ (provider : KekProvider) (u : Uuid) where
  -- A row in place of one with the same key, or of none.
  insert-Keeps :
      (r : Row) (t : Table)
      → ((m : KeyMaterial) → HoldsKey provider u t m → provider.unwrap (dek_of r) ≡ ok m)
      → r.kek_id ≡ provider.current.id
      → Keeps provider u t (insert u r t)
  insert-Keeps r t opens tag = record {
    keys = λ m h. (r, get-insert_self u r t, opens m h);
    tags = λ r' e.
        inl
          (ap (λ (x : Row). x.kek_id) (sym (some-eq-some (sym (get-insert_self u r t) ∙ e))) ∙ tag);
    others = λ v ne. get-insert_ne v u r t ne;
  }

  no_key : (t : Table) (m : KeyMaterial) → get u t ≡ none → HoldsKey provider u t m → ⊥
  no_key t m absent (r, found, opens) = cc

  pub insert_unless-Keeps :
      (r : Row) (t : Table) (o : Option Row)
      → get u t ≡ o
      → r.kek_id ≡ provider.current.id
      → Keeps provider u t (insert_unless u r t o).1
  insert_unless-Keeps r t (some old) found tag = same-Keeps provider u t
  insert_unless-Keeps r t none absent tag =
      insert-Keeps r t (λ m h. absurd (no_key t m absent h)) tag

  -- The subject's row, if there is one, is wrapped under the current version.
  abbrev pub IsTagged : Table → Type 0
  IsTagged t = (r : Row) → get u t ≡ some r → r.kek_id ≡ provider.current.id

  pub OnlyCurrent-IsTagged : (t t' : Table) → OnlyCurrent provider u t t' → IsTagged t → IsTagged t'
  OnlyCurrent-IsTagged t t' rel tagged r e = elim (rel r e) [
    | inl current ↦ current
    | inr same ↦ tagged r same
  ]

  module _ (own : OpensOwn provider) (r : Row) (m : KeyMaterial) (w : WrappedDek)
      (opens : provider.unwrap (dek_of r) ≡ ok m) (stale : r.kek_id ≢ provider.current.id)
      (wrapped : provider.wrap provider.current m ≡ ok w) where
    -- What is written in place of the row.
    abbrev rewrapped : Row
    rewrapped = record { key_id = r.key_id; wrapped_key = w.wrapped_key; kek_id = w.kek_id }

    rewrapped_opens : provider.unwrap (dek_of rewrapped) ≡ ok m
    rewrapped_opens =
        subst
          (λ (k : Uuid).
            provider.unwrap (record { key_id = k; kek_id = w.kek_id; wrapped_key = w.wrapped_key })
            ≡ ok m)
          ((own.wraps m w wrapped).0 ∙ own.unwraps (dek_of r) m opens) (own.wraps m w wrapped).2

    same_key :
        (t : Table) (n : KeyMaterial)
        → get u t ≡ some r
        → HoldsKey provider u t n
        → ok m ≡ provider.unwrap (dek_of rewrapped)
        → provider.unwrap (dek_of rewrapped) ≡ ok n
    same_key t n found (q, found', opens') e = cc

    written :
        (t : Table)
        → get u t ≡ some r
        → Keeps provider u t (insert u rewrapped t) × IsTagged (insert u rewrapped t)
    written t found =
        let current = (own.wraps m w wrapped).1 in
        (
          insert-Keeps rewrapped t (λ n h. same_key t n found h (sym rewrapped_opens)) current,
          λ q e.
              ap (λ (x : Row). x.kek_id)
                (sym (some-eq-some (sym (get-insert_self u rewrapped t) ∙ e)))
              ∙ current,
        )

    -- The compare-and-set, on a row read before.
    pub update_found_lem :
        (t t' : Table) (o : Option Row)
        → get u t ≡ some r
        → OnlyCurrent provider u t t'
        → get u t' ≡ o
        → Keeps provider u t' (update_found u w.wrapped_key w.kek_id r.kek_id t' o).1
          × IsTagged (update_found u w.wrapped_key w.kek_id r.kek_id t' o).1
    update_found_lem t t' none found rel found' =
        (same-Keeps provider u t', λ q e. absurd (no_row q e found'))
      where
        no_row : (q : Row) → get u t' ≡ some q → get u t' ≡ none → ⊥
        no_row q e e' = cc
    update_found_lem t t' (some q) found rel found' = elim (Bool-cases (str_eq q.kek_id r.kek_id)) [
      | inl same ↦ elim (rel q found') [
        | inl current ↦ absurd (stale (sym ((eq_iff q.kek_id r.kek_id).0 same) ∙ current))
        | inr unchanged ↦
            let is_r = some-eq-some (sym found ∙ unchanged) in
            rw same (
              subst
                (λ (x : Row).
                  Keeps provider u t'
                    (insert u (record x { wrapped_key = w.wrapped_key; kek_id = w.kek_id }) t')
                  × IsTagged
                      (insert u (record x { wrapped_key = w.wrapped_key; kek_id = w.kek_id }) t'))
                is_r (written t' (found' ∙ ap some (sym is_r))))
      ]
      | inr other ↦ rw other (
        same-Keeps provider u t',
        λ p e. elim (rel q found') [
          | inl current ↦ ap (λ (x : Row). x.kek_id) (some-eq-some (sym e ∙ found')) ∙ current
          | inr unchanged ↦ absurd (differs (some-eq-some (sym found ∙ unchanged)) other)
        ],
      )
    ]
      where
        differs : r ≡ q → str_eq q.kek_id r.kek_id ≡ false → ⊥
        differs e n =
            let same = (eq_iff q.kek_id r.kek_id).1 (ap (λ (x : Row). x.kek_id) (sym e)) in cc
