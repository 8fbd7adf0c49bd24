-- ===== src/Strings.antt =====
-- What the program uses of Go's standard library for strings: `strings.HasPrefix`,
-- `strings.TrimPrefix`, `strings.Split` and the decoder
-- `base64.RawURLEncoding.DecodeString`.
use kagenti_operator.Prelude.{
  ℕ, ◌+◌, ◌-◌, ◌*◌, ◌/◌, ◌%◌, ◌≡◌, refl, Bool, true, false, ◌&&◌, ◌||◌, Text, Option, none, some,
  List, [], ◌∷◌, ◌++◌, leb, ◌==◌, if◌then◌else◌, arith,
}

unfoldable pub has_prefix : Text → Text → Bool
has_prefix s [] = true
has_prefix [] (d ∷ p) = false
has_prefix (c ∷ s) (d ∷ p) = c == d && has_prefix s p

unfoldable pub drop_prefix : Text → Text → Text
drop_prefix s [] = s
drop_prefix [] (d ∷ p) = []
drop_prefix (c ∷ s) (d ∷ p) = drop_prefix s p

unfoldable pub trim_prefix : Text → Text → Text
unfolding drop_prefix
trim_prefix s p = if has_prefix s p then drop_prefix s p else s

abbrev extend_first : ℕ → List Text → List Text
extend_first c [] = (c ∷ []) ∷ []
extend_first c (p ∷ ps) = (c ∷ p) ∷ ps

-- strings.Split(s, sep) for a separator of one byte.
unfoldable pub split : ℕ → Text → List Text
split sep [] = [] ∷ []
split sep (c ∷ s) = let rest = split sep s in if c == sep then [] ∷ rest else extend_first c rest

-- The value of a letter of the URL alphabet of base64.
unfoldable pub sextet : ℕ → Option ℕ
sextet c =
    if leb b'A' c && leb c b'Z'
    then some (c - 65)
    else if leb b'a' c && leb c b'z'
    then some (c - 71)
    else if leb b'0' c && leb c b'9'
    then some (c + 4)
    else if c == b'-'
    then some 62
    else if c == b'_'
    then some 63
    else none

abbrev cons_both : Option ℕ → Option Text → Option Text
cons_both none vs = none
cons_both (some v) none = none
cons_both (some v) (some vs) = some (v ∷ vs)

-- Line breaks are skipped; any other byte outside the alphabet is an error, also `=`, since a raw
-- encoding has no padding.
unfoldable pub sextets : Text → Option Text
sextets [] = some []
sextets (c ∷ s) =
    let rest = sextets s in if c == 10 || c == 13 then rest else cons_both (sextet c) rest

abbrev three_bytes : ℕ → ℕ → ℕ → ℕ → Option Text → Option Text
three_bytes a b c d none = none
three_bytes a b c d (some rest) =
    some ((a * 4 + b / 16) ∷ ((b % 16) * 16 + c / 4) ∷ ((c % 4) * 64 + d) ∷ rest)

-- Four letters are three bytes; at the end two letters are one and three are two.
unfoldable pub bytes_of : Text → Option Text
bytes_of [] = some []
bytes_of (a ∷ []) = none
bytes_of (a ∷ b ∷ []) = some ((a * 4 + b / 16) ∷ [])
bytes_of (a ∷ b ∷ c ∷ []) = some ((a * 4 + b / 16) ∷ ((b % 16) * 16 + c / 4) ∷ [])
bytes_of (a ∷ b ∷ c ∷ d ∷ rest) = three_bytes a b c d (bytes_of rest)

unfoldable pub raw_url_decode : Text → Option Text
raw_url_decode s = elim (sextets s) [ none ↦ none | some vs ↦ bytes_of vs ]

sextets-padded : (s rest : Text) → sextets (s ++ b'=' ∷ rest) ≡ none
unfolding sextets sextet
sextets-padded [] rest = refl
sextets-padded (c ∷ s) rest = ground (arith, sextets-padded s rest)

-- A text with padding does not decode.
pub raw_url_decode-padded : (s rest : Text) → raw_url_decode (s ++ b'=' ∷ rest) ≡ none
unfolding raw_url_decode
raw_url_decode-padded s rest = rw (sextets-padded s rest, raw_url_decode)

append-drop_prefix : (s p : Text) → has_prefix s p ≡ true → s ≡ p ++ drop_prefix s p
unfolding has_prefix drop_prefix
append-drop_prefix s [] h = refl
append-drop_prefix [] (d ∷ p) h = ground arith
append-drop_prefix (c ∷ s) (d ∷ p) h = ground (arith, append-drop_prefix s p)

pub has_prefix-append : (p s : Text) → has_prefix (p ++ s) p ≡ true
unfolding has_prefix
has_prefix-append [] s = refl
has_prefix-append (d ∷ p) s = ground (arith, has_prefix-append p s)

pub drop_prefix-append : (p s : Text) → drop_prefix (p ++ s) p ≡ s
unfolding drop_prefix
drop_prefix-append [] s = refl
drop_prefix-append (d ∷ p) s = drop_prefix-append p s

pub trim_prefix_lem : (s p : Text) → has_prefix s p ≡ true → s ≡ p ++ trim_prefix s p
unfolding trim_prefix
trim_prefix_lem s p h = rw (h, trim_prefix) (append-drop_prefix s p h)

pub trim_prefix-append : (p s : Text) → trim_prefix (p ++ s) p ≡ s
unfolding trim_prefix
trim_prefix-append p s = rw (has_prefix-append p s, trim_prefix) (drop_prefix-append p s)
