-- ===== src/Crypto/Kek/Rotation.antt =====
-- Wrapping under one key version and unwrapping after a rotation; what the constructors check.
use journey_dynamics.Base.Text.{trim}
use journey_dynamics.Base.{
  Result-cases, ◌-◌, String, not, Option, none, some, [], ◌∷◌, length, ok, err, ok-eq-ok,
  bind-eq-ok, bail_if-eq-ok, map_err, ok_or, text_ord, ◌≡◌, ◌≢◌, refl, sym, ap, ◌∙◌, inl, inr,
  arith, key-cases, Option-cases, ◌==◌,
}
use journey_dynamics.Base.BTreeMap.{BTreeMap, get, insert, get-insert_self, get-insert_ne, get-nil}
use journey_dynamics.Crypto.Primitives.{Bytes, panic, error, expect, zeros, Primitives, KwpUnwraps}
use Prim.Native.String.{◌++◌ as text_append}
use journey_dynamics.Crypto.Cipher.{KeyMaterial}
use journey_dynamics.Crypto.Kek.{
  WrappedDek, KekHandle, unknown_version, not_set, no_keks, is_empty_map, StaticKekProvider,
  Environment, new, read_kek, version_of, add_var, read_vars, from_env, new_from_slice, kwp_wrap,
  kwp_unwrap, wrap, unwrap, by_id,
}

module _ (p : Primitives) where
  -- If AES-KWP unwraps what it wraps, a data key of 32 bytes that is wrapped under a known key
  -- version of 32 bytes keeps its id and records the version; it is unwrapped by every provider
  -- that holds this version with the same bytes, whatever its primary and its other versions, and
  -- a provider without the version answers `unknown_version`.
  pub unwrap-wrap :
      (provider later retired : StaticKekProvider) (kek : KekHandle) (dek : KeyMaterial)
      (kek_bytes : Bytes)
      → KwpUnwraps p
      → get kek.id provider.keks ≡ some kek_bytes
      → get kek.id later.keks ≡ some kek_bytes
      → get kek.id retired.keks ≡ none
      → length kek_bytes ≡ 32
      → length dek.key ≡ 32
      → (wrapped : WrappedDek) × (wrap p provider kek dek ≡ ok wrapped)
        × (wrapped.key_id ≡ dek.key_id)
        × (wrapped.kek_id ≡ kek.id)
        × (unwrap p later wrapped ≡ ok dek)
        × (unwrap p retired wrapped ≡ err (error (unknown_version kek.id)))
  unfolding wrap unwrap kwp_wrap kwp_unwrap
  unwrap-wrap provider later retired kek dek kek_bytes unwraps known kept gone k d =
      let (w, wraps, size, back) = unwraps kek_bytes dek.key k d in
      (
        record { key_id = dek.key_id; kek_id = kek.id; wrapped_key = w },
        ground arith,
        refl,
        refl,
        rw (kept, k, size, back) refl,
        rw gone refl,
      )

  -- The id of a key is not wrapped: it is the one beside the wrapped bytes.
  pub unwrap-key_id :
      (provider : StaticKekProvider) (w : WrappedDek) (m : KeyMaterial)
      → unwrap p provider w ≡ ok m
      → m.key_id ≡ w.key_id
  unfolding unwrap kwp_unwrap
  unwrap-key_id provider w m e =
      let (kek, known, rest) = bind-eq-ok (ok_or (get w.kek_id provider.keks) _) _ e in
      let (cipher, sized, rest') = bind-eq-ok (expect (new_from_slice kek)) _ rest in
      let (key, opened, last) =
        bind-eq-ok (map_err _ (p.unwrap_key cipher w.wrapped_key _)) _ rest' in
      ap (λ (x : KeyMaterial). x.key_id) (sym (ok-eq-ok _ refl last))

-- Every version has 32 bytes.
abbrev pub KeysSized : BTreeMap String Bytes → Type 0
KeysSized keks = (id : String) (bytes : Bytes) → get id keks ≡ some bytes → length bytes ≡ 32

insert-KeysSized :
    (id : String) (bytes : Bytes) (keks : BTreeMap String Bytes)
    → length bytes ≡ 32
    → KeysSized keks
    → KeysSized (insert id bytes keks)
insert-KeysSized id bytes keks n h k b e = elim (key-cases k id) [
  | inl same ↦ ground (arith, get-insert_self id bytes keks)
  | inr other ↦ h k b (sym (get-insert_ne k id bytes keks other) ∙ e)
]

read_kek_sized :
    (env : Environment) (key val : String) {bytes : Bytes}
    → read_kek env key val ≡ ok bytes
    → length bytes ≡ 32
unfolding read_kek
read_kek_sized env key val e =
    let (b, decoded, rest) = bind-eq-ok (map_err _ (env.decode (trim val))) _ e in
    let (sized, last) = bail_if-eq-ok (not (length b == 32)) _ _ rest in ground arith

add_var-KeysSized :
    (env : Environment) (o : Option String) (key val : String) (keks : BTreeMap String Bytes)
    {keks' : BTreeMap String Bytes}
    → add_var env o key val keks ≡ ok keks'
    → KeysSized keks
    → KeysSized keks'
unfolding add_var
add_var-KeysSized env none key val keks e h = rw (sym (ok-eq-ok _ refl e)) h
add_var-KeysSized env (some id) key val keks e h =
    let (bytes, found, last) = bind-eq-ok (read_kek env key val) _ e in
    rw (sym (ok-eq-ok _ refl last))
      (insert-KeysSized id bytes keks (read_kek_sized env key val found) h)

read_vars-KeysSized :
    (env : Environment) (prefix : String) (vars : BTreeMap String String)
    (keks : BTreeMap String Bytes) {keks' : BTreeMap String Bytes}
    → read_vars env prefix vars keks ≡ ok keks'
    → KeysSized keks
    → KeysSized keks'
unfolding read_vars
read_vars-KeysSized env prefix [] keks e h = rw (sym (ok-eq-ok _ refl e)) h
read_vars-KeysSized env prefix ((key, val) ∷ vars) keks e h =
    let (next, first, rest) = bind-eq-ok (add_var env (version_of prefix key) key val keks) _ e in
    read_vars-KeysSized env prefix vars next rest
      (add_var-KeysSized env (version_of prefix key) key val keks first h)

-- A provider that is ready for use: its primary is one of its versions, and all have 32 bytes.
pub record IsReady (provider : StaticKekProvider) : Type 0 where
  pub primary_known : (bytes : Bytes) × (get provider.primary provider.keks ≡ some bytes)
  pub keys_sized : KeysSized provider.keks

new-IsReady :
    (primary : String) (keks : BTreeMap String Bytes) {provider : StaticKekProvider}
    → KeysSized keks
    → new primary keks ≡ ok provider
    → IsReady provider
unfolding new
new-IsReady primary keks h e = elim (Option-cases (get primary keks)) [
  | inl miss ↦ ground arith
  | inr (bytes, found) ↦
      let made : new primary keks ≡ ok (record { primary = primary; keks = keks }) = ground arith in
      rw (sym (ok-eq-ok (new primary keks) made e))
        (record { primary_known = (bytes, found); keys_sized = h })
]

-- A provider that `from_env` makes holds its primary version, and each of its versions has 32
-- bytes.
from_env-IsReady :
    (env : Environment) (prefix : String) {provider : StaticKekProvider}
    → from_env env prefix ≡ ok provider
    → IsReady provider
unfolding from_env
from_env-IsReady env prefix e =
    let (primary, found, e₁) =
      bind-eq-ok
        (ok_or (get (text_append prefix "_PRIMARY") env.vars)
          (not_set (text_append prefix "_PRIMARY")))
        _ e in
    let (keks, read, e₂) = bind-eq-ok (read_vars env prefix env.vars []) _ e₁ in
    let (nonempty, e₃) = bail_if-eq-ok (is_empty_map keks) (no_keks prefix) _ e₂ in
    new-IsReady primary keks
      (read_vars-KeysSized env prefix env.vars [] read (λ k b h. cc (h, get-nil {V = Bytes} k))) e₃

module _ (p : Primitives) (provider : StaticKekProvider) (sized : KeysSized provider.keks) where
  wrap_no_panic : (kek : KekHandle) (dek : KeyMaterial) → wrap p provider kek dek ≢ err panic
  unfolding wrap kwp_wrap
  wrap_no_panic kek dek h = elim (Option-cases (get kek.id provider.keks)) [
    | inl miss ↦ ground arith
    | inr (bytes, found) ↦
        let n = sized kek.id bytes found in
        elim (Result-cases (p.wrap_key bytes dek.key (zeros 40))) [
          | inl (w, done) ↦ ground arith
          | inr (e, failed) ↦ ground arith
        ]
  ]

  unwrap_no_panic : (wrapped : WrappedDek) → unwrap p provider wrapped ≢ err panic
  unfolding unwrap kwp_unwrap
  unwrap_no_panic wrapped h = elim (Option-cases (get wrapped.kek_id provider.keks)) [
    | inl miss ↦ ground arith
    | inr (bytes, found) ↦
        let n = sized wrapped.kek_id bytes found in
        elim (Result-cases
          (p.unwrap_key bytes wrapped.wrapped_key (zeros (length wrapped.wrapped_key - 8)))) [
            | inl (w, done) ↦ ground arith
            | inr (e, failed) ↦ ground arith
          ]
  ]

-- With a provider that `from_env` makes, no wrap and no unwrap panics, and its primary version is
-- one that it can wrap under.
pub from_env_lem :
    (p : Primitives) (env : Environment) (prefix : String) {provider : StaticKekProvider}
    → from_env env prefix ≡ ok provider
    → ((kek : KekHandle) (dek : KeyMaterial) → wrap p provider kek dek ≢ err panic)
      × ((wrapped : WrappedDek) → unwrap p provider wrapped ≢ err panic)
      × (by_id provider provider.primary ≡ some (record { id = provider.primary }))
unfolding by_id
from_env_lem p env prefix {provider} e =
    let ready = from_env-IsReady env prefix e in
    (
      wrap_no_panic p provider ready.keys_sized,
      unwrap_no_panic p provider ready.keys_sized,
      rw (ready.primary_known.1) refl,
    )
