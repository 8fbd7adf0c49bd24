-- ===== src/TokenBroker/JwtExpiry.antt =====
-- token-broker/internal/cache/jwt_parser.go. A time is its distance in nanoseconds from the Unix
-- epoch; `now`, what `time.Now` returns, lies behind the epoch. `json.Unmarshal` into `JWTClaims` is
-- the parameter `unmarshal_exp`: the claim `exp`, zero if there is none, or `none` on an error. `exp`
-- is taken to lie in the range in which `time.Unix` does not overflow (292 billion years).
use kagenti_operator.Prelude.{
  ℕ, ◌+◌, ◌-◌, ◌*◌, ◌%◌, ◌≡◌, refl, Bool, true, false, Text, lit, Option, none, some, List, [], ◌∷◌,
  ◌++◌, ltb, ◌==◌, ◌⊎◌, inl, inr, if◌then◌else◌, length, ℤ, pos, negsuc, arith,
}
use kagenti_operator.Strings.{split, raw_url_decode, raw_url_decode-padded}

abbrev pub second : ℕ
second = 1000000000

abbrev pub five_minutes : ℕ
five_minutes = 300 * second

-- time.Now().Add(365 * 24 * time.Hour)
abbrev pub year_from : ℕ → ℤ
year_from now = pos (now + 365 * 86400 * second)

-- time.Unix(exp, 0)
abbrev pub unix : ℤ → ℤ
unix (pos n) = pos (n * second)
unix (negsuc n) = negsuc (n * second + (second - 1))

abbrev is_zero : ℤ → Bool
is_zero (pos n) = n == 0
is_zero (negsuc n) = false

-- "Add padding if needed"
unfoldable pub pad : Text → Text
pad payload =
    if length payload % 4 == 2
    then payload ++ lit "=="
    else if length payload % 4 == 3
    then payload ++ lit "="
    else payload

abbrev expiry_of_claim : ℕ → Option ℤ → ℤ
expiry_of_claim now none = year_from now
expiry_of_claim now (some exp) = if is_zero exp then year_from now else unix exp

abbrev expiry_of_payload : (Text → Option ℤ) → ℕ → Option Text → ℤ
expiry_of_payload unmarshal_exp now none = year_from now
expiry_of_payload unmarshal_exp now (some decoded) = expiry_of_claim now (unmarshal_exp decoded)

-- The error that the source returns beside the time is always nil.
abbrev expiry_of_parts : (Text → Option ℤ) → ℕ → List Text → ℤ
expiry_of_parts unmarshal_exp now (header ∷ payload ∷ signature ∷ []) =
    expiry_of_payload unmarshal_exp now (raw_url_decode (pad payload))
expiry_of_parts unmarshal_exp now _ = year_from now

unfoldable pub parse_jwt_expiry : (Text → Option ℤ) → ℕ → Text → ℤ
parse_jwt_expiry unmarshal_exp now token = expiry_of_parts unmarshal_exp now (split b'.' token)

-- now.After(expiresAt)
abbrev pub after : ℕ → ℤ → Bool
after now (pos e) = ltb e now
after now (negsuc e) = true

-- expiresAt.Sub(now) < d. `Sub` stops at 292 years, far above `d`.
abbrev pub remains_less : ℕ → ℤ → ℕ → Bool
remains_less now (pos e) d = ltb e (now + d)
remains_less now (negsuc e) d = true

unfoldable pub is_token_expired : ℕ → ℤ → Bool
is_token_expired now expires_at =
    if after now expires_at
    then true
    else if remains_less now expires_at five_minutes
    then true
    else false

decode-pad :
    (payload : Text)
    → (length payload % 4 ≡ 2) ⊎ (length payload % 4 ≡ 3)
    → raw_url_decode (pad payload) ≡ none
unfolding pad
decode-pad payload (inl two) = rw (two, pad) (raw_url_decode-padded payload (lit "="))
decode-pad payload (inr three) = rw (three, pad) (raw_url_decode-padded payload [])

-- The bug of the padding: a raw decoder refuses `=`, so the claims of a token whose payload the code
-- pads are never read, and the token is kept for a year whatever its `exp` is.
pub padded_payload_never_read :
    (unmarshal_exp : Text → Option ℤ) (now : ℕ) (token header payload signature : Text)
    → split b'.' token ≡ header ∷ payload ∷ signature ∷ []
    → (length payload % 4 ≡ 2) ⊎ (length payload % 4 ≡ 3)
    → (parse_jwt_expiry unmarshal_exp now token ≡ pos (now + 365 * 86400 * second))
      × (is_token_expired now (parse_jwt_expiry unmarshal_exp now token) ≡ false)
unfolding parse_jwt_expiry is_token_expired
padded_payload_never_read unmarshal_exp now token header payload signature parts h =
    rw (parts, decode-pad payload h) (refl, ground arith)
