-- ===== src/Examples/Tokens.antt =====
-- The token cache and the readers of tokens on concrete inputs.
use kagenti_operator.Prelude.{
  ◌+◌, ◌*◌, ◌≡◌, refl, inr, false, ◌&&◌, if◌then◌else◌, beq, Text, lit, Option, none, some, [], ℤ,
  pos,
}
use kagenti_operator.GoMap
use kagenti_operator.Strings.{split, raw_url_decode, sextets, sextet, bytes_of}
use kagenti_operator.TokenBroker.Errors.{ok}
use kagenti_operator.TokenBroker.JwtExpiry.{
  parse_jwt_expiry, is_token_expired, second, padded_payload_never_read,
}
use kagenti_operator.TokenBroker.Cache.{
  TokenCache, new_token_cache, find_entry, get_token, set_token, cleanup_expired_tokens,
  get_cache_size,
}
use kagenti_operator.TokenBroker.Cache.Reads
use kagenti_operator.TokenBroker.Cache.Reads.{
  get_token_iff, get_token-set_token, find_entry-delete_token, IsValid,
}
use kagenti_operator.TokenBroker.Cache.Cleanup.{unexpired, cleanup_expired_tokens_lem}
use kagenti_operator.TokenBroker.Auth.{JwtClaims, parse_jwt_without_validation}
use kagenti_operator.Examples.{k1, k2}

-- A parser that finds in every payload an `exp` of 9.
abbrev exp_9 : Text → Option ℤ
exp_9 decoded = some (pos 9)

abbrev url : Text
url = lit "https://mcp"

abbrev token : Text
token = lit "a.SGk.c"

abbrev one_token : TokenCache
one_token = (set_token exp_9 1 1 new_token_cache k1 url token).0

decodes : raw_url_decode (lit "SGk") ≡ some (lit "Hi")
unfolding raw_url_decode sextets sextet bytes_of
decodes = refl

get_token-set_token_example :
    ((set_token exp_9 1 1 one_token k2 url token).1 ≡ ok tt)
    × (get_token 2 (set_token exp_9 1 1 one_token k2 url token).0 k1 url ≡ (
        if beq k2 k1 && beq url url
        then if is_token_expired 2 (parse_jwt_expiry exp_9 1 token) then none else some token
        else get_token 2 one_token k1 url))
get_token-set_token_example = get_token-set_token exp_9 1 1 2 one_token k2 url token k1 url

one_token-IsValid : IsValid one_token
one_token-IsValid =
    Reads.set_token-IsValid exp_9 1 1 new_token_cache k1 url token
      (record { outer = tt; inner = λ key st e. unfold GoMap.get in cc })

cleanup_expired_tokens_lem_example :
    let c' = (cleanup_expired_tokens 3 one_token).0 in
    ((key url' : Text) → find_entry c' key url' ≡ unexpired 3 (find_entry one_token key url'))
    × ((key url' : Text) → get_token 3 c' key url' ≡ get_token 3 one_token key url')
    × (get_cache_size c' + (cleanup_expired_tokens 3 one_token).1 ≡ get_cache_size one_token)
    × IsValid c'
cleanup_expired_tokens_lem_example = cleanup_expired_tokens_lem 3 one_token one_token-IsValid

padded_payload_never_read_example :
    (parse_jwt_expiry exp_9 1 token ≡ pos (1 + 365 * 86400 * second))
    × (is_token_expired 1 (parse_jwt_expiry exp_9 1 token) ≡ false)
padded_payload_never_read_example =
    padded_payload_never_read exp_9 1 token (lit "a") (lit "SGk") (lit "c") (unfold split in refl)
      (inr refl)

abbrev claims : JwtClaims
claims = record {
  sub = lit "alice";
  jti = lit "j";
  session_uid = lit "";
  iss = lit "";
  aud = [];
  exp = pos 0;
  iat = pos 0;
}

reads : parse_jwt_without_validation (λ decoded. some claims) token ≡ ok claims
unfolding parse_jwt_without_validation split raw_url_decode sextets sextet bytes_of
reads = refl
