-- ===== src/Base/Text.antt =====
-- `str::strip_prefix`, `str::contains` and `str::trim`.
use Prim.Native.Char.{Char, code}
use Prim.Native.Nat.{ℕ}
use Prim.Native.String.{String}
use mathlib.Core.Bool.{Bool, true, false, ◌||◌, ◌&&◌}
use mathlib.Core.Option.{Option, none, some}
use mathlib.Core.Path.{◌≡◌}
use mathlib.Core.Logic.{◌≢◌, inl, inr}
use text.Mathlib.Text.{◌==◌ as str_eq}
use text.Mathlib.TextEquality.{eq_iff}
use journey_dynamics.Base.Tests.{Bool-cases, leb, ◌==◌, if◌then◌else◌}

unfoldable pub strip_prefix : String → String → Option String
strip_prefix String.[] s = some s
strip_prefix (String.◌∷◌ c p) String.[] = none
strip_prefix (String.◌∷◌ c p) (String.◌∷◌ d s) =
    let rest = strip_prefix p s in if code c == code d then rest else none

abbrev pub is_prefix : String → String → Bool
is_prefix p s = elim (strip_prefix p s) [ none ↦ false | some _ ↦ true ]

-- `str::contains` of a text.
unfoldable pub contains_text : String → String → Bool
unfolding strip_prefix
contains_text String.[] needle = is_prefix needle String.[]
contains_text (String.◌∷◌ c s) needle = is_prefix needle (String.◌∷◌ c s) || contains_text s needle

pub str_ne : (q r : String) → q ≢ r → str_eq q r ≡ false
str_ne q r other = elim (Bool-cases (str_eq q r)) [
  | inl hit ↦ absurd (other ((eq_iff q r).0 hit))
  | inr miss ↦ miss
]

-- `char::is_whitespace`, the Unicode property White_Space.
abbrev pub is_whitespace : ℕ → Bool
is_whitespace c =
    (leb 9 c && leb c 13)
    || c == 32
    || c == 133
    || c == 160
    || c == 5760
    || (leb 8192 c && leb c 8202)
    || c == 8232
    || c == 8233
    || c == 8239
    || c == 8287
    || c == 12288

unfoldable pub trim_start : String → String
trim_start String.[] = String.[]
trim_start (String.◌∷◌ c s) =
    let rest = trim_start s in if is_whitespace (code c) then rest else String.◌∷◌ c s

-- A character before a rest that is all whitespace.
abbrev pub keep_end : Char → String → String
keep_end c String.[] = if is_whitespace (code c) then String.[] else String.◌∷◌ c String.[]
keep_end c (String.◌∷◌ d s) = String.◌∷◌ c (String.◌∷◌ d s)

unfoldable pub trim_end : String → String
trim_end String.[] = String.[]
trim_end (String.◌∷◌ c s) = keep_end c (trim_end s)

-- `str::trim`
unfoldable pub trim : String → String
unfolding trim_start trim_end
trim s = trim_end (trim_start s)
