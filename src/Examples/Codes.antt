-- ===== src/Examples/Codes.antt =====
-- A readable encoding of identifiers and bytes, and a codec of one event, for the examples.
use Prim.Native.Char.{code}
use Prim.Native.String.{String}
use journey_dynamics.Base.{
  ℕ, zero, suc, ◌+◌, some, [], ◌∷◌, ok, ◌==◌, if◌then◌else◌, ◌≡◌, refl, ap, ◌∙◌, arith,
}
use journey_dynamics.Crypto.Primitives.{Bytes}
use journey_dynamics.Crypto.Events.{Encodings}
use journey_dynamics.Crypto.Reading.RoundTrip.Parts.{Decodes}

-- A number is that many strokes.
unfoldable pub strokes : ℕ → String → String
strokes zero rest = rest
strokes (suc n) rest = String.◌∷◌ "x" (strokes n rest)

unfoldable pub number_of : String → ℕ
number_of String.[] = 0
number_of (String.◌∷◌ c s) = suc (number_of s)

unfoldable pub print : Bytes → String
unfolding strokes
print [] = ""
print (b ∷ bs) = strokes b (String.◌∷◌ "," (print bs))

unfoldable pub read_from : ℕ → String → Bytes
read_from n String.[] = []
read_from n (String.◌∷◌ c s) =
    let more = read_from (suc n) s in
    let next = read_from 0 s in if code c == b'x' then more else n ∷ next

number_of-strokes : (n : ℕ) → number_of (strokes n "") ≡ n
unfolding number_of strokes
number_of-strokes zero = refl
number_of-strokes (suc n) = ap suc (number_of-strokes n)

read_from-strokes :
    (n b : ℕ) (rest : String)
    → read_from n (strokes b (String.◌∷◌ "," rest)) ≡ (n + b) ∷ read_from 0 rest
unfolding read_from strokes
read_from-strokes n zero rest = ap (λ m. m ∷ read_from 0 rest) (omega arith)
read_from-strokes n (suc b) rest =
    read_from-strokes (suc n) b rest ∙ ap (λ m. m ∷ read_from 0 rest) (omega arith)

read_from-print : (bs : Bytes) → read_from 0 (print bs) ≡ bs
unfolding read_from print
read_from-print [] = refl
read_from-print (b ∷ bs) =
    read_from-strokes 0 b (print bs)
    ∙ ap (λ m. m ∷ read_from 0 (print bs)) (omega arith)
    ∙ ap (λ cs. b ∷ cs) (read_from-print bs)

abbrev pub stroke_codes : Encodings
stroke_codes = record {
  uuid_to_string = λ u. strokes u "";
  parse_uuid = λ s. some (number_of s);
  encode = print;
  decode = λ s. ok (read_from 0 s);
}

pub stroke_codes-Decodes : Decodes stroke_codes
stroke_codes-Decodes = (λ u. ap some (number_of-strokes u), λ bs. ap ok (read_from-print bs))
