-- ===== src/Base/Order.antt =====
-- `Ord`, as an interface with the laws of a total order, for the keys of a `BTreeMap`.
use Prim.Native.Nat.{ℕ, compare, Ordering}
use Prim.Native.Nat.Ordering.{lt, eq, gt}
use Prim.Native.String.{String}
use Prim.Native.String.compare as compare_text
use Prim.Native.String.{compare as compare_text, then}
use mathlib.Core.Path.{◌≡◌, refl, sym, ◌∙◌}
use mathlib.Core.Logic.{◌≢◌, ◌⊎◌, inl, inr}
use native.Mathlib.Omega.{arith}
use Prim.Native.Char.{code}
use text.Mathlib.TextEquality.{path_by_compare}
use text.Mathlib.TextPositions.{compare_refl}

pub record Ord {ℓ} (K : Type ℓ) : Type ℓ where
  pub cmp : K → K → Ordering
  pub cmp_self : (a : K) → cmp a a ≡ eq
  pub cmp_eq : (a b : K) → cmp a b ≡ eq → a ≡ b
  pub cmp_flip : (a b : K) → cmp a b ≡ gt → cmp b a ≡ lt
  pub cmp_trans : (a b c : K) → cmp a b ≡ lt → cmp b c ≡ lt → cmp a c ≡ lt

pub compare_self : (a : ℕ) → compare a a ≡ eq
compare_self a = ground arith

pub eq_by_compare : (a b : ℕ) → compare a b ≡ eq → a ≡ b
eq_by_compare a b h = ground arith

pub compare_flip : (a b : ℕ) → compare a b ≡ gt → compare b a ≡ lt
compare_flip a b h = ground arith

pub compare_trans : (a b c : ℕ) → compare a b ≡ lt → compare b c ≡ lt → compare a c ≡ lt
compare_trans a b c h k = ground arith

-- Identifiers: a UUID is its 128-bit number, and `Uuid: Ord` is the order of the numbers.
instance abbrev pub nat_ord : Ord ℕ
nat_ord = record {
  cmp = compare;
  cmp_self = compare_self;
  cmp_eq = eq_by_compare;
  cmp_flip = compare_flip;
  cmp_trans = compare_trans;
}

-- One step of the comparison of two texts.
then_flip :
    (c d : ℕ) (o p : Ordering)
    → then (compare c d) o ≡ gt
    → (o ≡ gt → p ≡ lt)
    → then (compare d c) p ≡ lt
then_flip c d o p h k = ground arith

then_trans :
    (c d e : ℕ) (o p q : Ordering)
    → then (compare c d) o ≡ lt
    → then (compare d e) p ≡ lt
    → (o ≡ lt → p ≡ lt → q ≡ lt)
    → then (compare c e) q ≡ lt
then_trans c d e o p q h k i = ground arith

-- Texts: `str: Ord` is the order of the code points, the first difference deciding.
pub text_flip : (s t : String) → compare_text s t ≡ gt → compare_text t s ≡ lt
text_flip String.[] String.[] h = cc
text_flip String.[] (String.◌∷◌ d t) h = cc (h, compare_text.nil-cons d t)
text_flip (String.◌∷◌ c s) String.[] h = compare_text.nil-cons c s
text_flip (String.◌∷◌ c s) (String.◌∷◌ d t) h =
    compare_text.cons-cons d c t s
    ∙ then_flip (code c) (code d) (compare_text s t) (compare_text t s)
        (sym (compare_text.cons-cons c d s t) ∙ h) (text_flip s t)

pub text_trans :
    (s t u : String) → compare_text s t ≡ lt → compare_text t u ≡ lt → compare_text s u ≡ lt
text_trans String.[] t (String.◌∷◌ e u) h k = compare_text.nil-cons e u
text_trans s String.[] String.[] h k = cc
text_trans String.[] (String.◌∷◌ d t) String.[] h k = cc (k, compare_text.cons-nil d t)
text_trans (String.◌∷◌ c s) String.[] (String.◌∷◌ e u) h k = cc (h, compare_text.cons-nil c s)
text_trans (String.◌∷◌ c s) (String.◌∷◌ d t) String.[] h k = cc (k, compare_text.cons-nil d t)
text_trans (String.◌∷◌ c s) (String.◌∷◌ d t) (String.◌∷◌ e u) h k =
    compare_text.cons-cons c e s u
    ∙ then_trans (code c) (code d) (code e) (compare_text s t) (compare_text t u) (compare_text s u)
        (sym (compare_text.cons-cons c d s t) ∙ h) (sym (compare_text.cons-cons d e t u) ∙ k)
        (text_trans s t u)

instance abbrev pub text_ord : Ord String
text_ord = record {
  cmp = compare_text;
  cmp_self = compare_refl;
  cmp_eq = path_by_compare;
  cmp_flip = text_flip;
  cmp_trans = text_trans;
}

module _ {ℓ} {K : Type ℓ} ⦃o : Ord K⦄ where
  pub key-cases : (k j : K) → (k ≡ j) ⊎ (k ≢ j)
  key-cases k j = go (o.cmp k j) refl
    where
      go : (r : Ordering) → o.cmp k j ≡ r → (k ≡ j) ⊎ (k ≢ j)
      go eq e = inl (o.cmp_eq k j e)
      go lt e = inr (λ p. cc (e, o.cmp_self k, p))
      go gt e = inr (λ p. cc (e, o.cmp_self k, p))
