-- ===== src/TokenBroker/Cache.antt =====
-- token-broker/internal/cache/token_cache.go. The inner maps are held by reference; a change of one
-- is written back under its session key. `time.Now` is the argument `now`, the injected clock, which
-- only stamps `CreatedAt`, the argument `clock`. A token that is not found is `none` for the source's
-- pair of the empty string and false.
pub mod Reads
pub mod Cleanup
use kagenti_operator.Prelude.{
  ℕ, suc, ◌+◌, Text, Option, none, some, [], ◌∷◌, ◌==◌, if◌then◌else◌, length, ℤ,
}
use kagenti_operator.GoMap
use kagenti_operator.GoMap.{GoMap}
use kagenti_operator.TokenBroker.Errors.{Result, ok}
use kagenti_operator.TokenBroker.JwtExpiry.{parse_jwt_expiry, is_token_expired}

pub record TokenEntry : Type 0 where
  pub access_token : Text
  pub expires_at : ℤ
  pub created_at : ℕ

pub record TokenCache : Type 0 where
  pub tokens : GoMap (GoMap TokenEntry)

abbrev pub new_token_cache : TokenCache
new_token_cache = record { tokens = [] }

-- tc.tokens[sessionKey][resourceURL], with both lookups' `ok`.
unfoldable pub find_entry : TokenCache → Text → Text → Option TokenEntry
find_entry c key url = elim (GoMap.get c.tokens key) [
  | none ↦ none
  | some session_tokens ↦ GoMap.get session_tokens url
]

unfoldable pub get_token : ℕ → TokenCache → Text → Text → Option Text
get_token now c key url = elim (find_entry c key url) [
  | none ↦ none
  | some entry ↦ if is_token_expired now entry.expires_at then none else some entry.access_token
]

abbrev pub session_tokens_of : Option (GoMap TokenEntry) → GoMap TokenEntry
session_tokens_of none = []
session_tokens_of (some session_tokens) = session_tokens

unfoldable pub set_token :
    (Text → Option ℤ) → ℕ → ℕ → TokenCache → Text → Text → Text → TokenCache × Result (Unit {0})
set_token unmarshal_exp now clock c key url token = (
  record c {
    tokens = GoMap.put c.tokens key (
        GoMap.put (session_tokens_of (GoMap.get c.tokens key)) url (record {
          access_token = token;
          expires_at = parse_jwt_expiry unmarshal_exp now token;
          created_at = clock;
        }));
  },
  ok tt,
)

-- Writes an inner map back; an empty one is deleted.
abbrev pub store_back :
    GoMap (GoMap TokenEntry) → Text → GoMap TokenEntry → GoMap (GoMap TokenEntry)
store_back tokens key [] = GoMap.remove tokens key
store_back tokens key (e ∷ es) = GoMap.put tokens key (e ∷ es)

unfoldable pub delete_token : TokenCache → Text → Text → TokenCache
delete_token c key url = elim (GoMap.get c.tokens key) [
  | none ↦ c
  | some session_tokens ↦ record c {
    tokens = store_back c.tokens key (GoMap.remove session_tokens url);
  }
]

-- The loop of `GetCacheSize`.
unfoldable pub count_tokens : ℕ → GoMap (GoMap TokenEntry) → ℕ
count_tokens count [] = count
count_tokens count ((key, session_tokens) ∷ rest) =
    count_tokens (count + length session_tokens) rest

unfoldable pub get_cache_size : TokenCache → ℕ
get_cache_size c = count_tokens 0 c.tokens

unfoldable pub get_session_token_count : TokenCache → Text → ℕ
get_session_token_count c key = elim (GoMap.get c.tokens key) [
  | none ↦ 0
  | some session_tokens ↦ length session_tokens
]

-- The inner range of `CleanupExpiredTokens`, over the entries that the map had when it began.
unfoldable pub clean_session : ℕ → GoMap TokenEntry → ℕ → GoMap TokenEntry → GoMap TokenEntry × ℕ
clean_session now session_tokens removed [] = (session_tokens, removed)
clean_session now session_tokens removed ((url, entry) ∷ rest) =
    let expired = is_token_expired now entry.expires_at in
    clean_session now (if expired then GoMap.remove session_tokens url else session_tokens)
      (if expired then removed + 1 else removed) rest

-- The outer range.
unfoldable pub clean_all :
    ℕ → GoMap (GoMap TokenEntry) → ℕ → GoMap (GoMap TokenEntry) → GoMap (GoMap TokenEntry) × ℕ
clean_all now tokens removed [] = (tokens, removed)
clean_all now tokens removed ((key, session_tokens) ∷ rest) =
    let (left, removed') = clean_session now session_tokens removed session_tokens in
    clean_all now (store_back tokens key left) removed' rest

unfoldable pub cleanup_expired_tokens : ℕ → TokenCache → TokenCache × ℕ
cleanup_expired_tokens now c =
    let (tokens, removed) = clean_all now c.tokens 0 c.tokens in
    (record c { tokens = tokens }, removed)
