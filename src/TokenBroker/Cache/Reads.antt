-- ===== src/TokenBroker/Cache/Reads.antt =====
-- What `GetToken` returns after `SetToken` and `DeleteToken` (cache/token_cache.go), and the
-- well-formedness of the cache.
use kagenti_operator.Prelude.{
  ℕ, ◌+◌, ◌≤◌, ◌<◌, ◌≡◌, ◌↔◌, refl, false, ◌&&◌, Text, beq, beq_iff, Option, none, some,
  Option-cases, Bool-cases, inl, inr, [], ◌∷◌, if◌then◌else◌, length, ℤ, pos, negsuc, arith, ap,
}
use mathlib.Core.Path.{subst}
use kagenti_operator.GoMap
use kagenti_operator.GoMap.{GoMap, get-put, get-remove}
use kagenti_operator.TokenBroker.Errors.{ok}
use kagenti_operator.TokenBroker.JwtExpiry.{parse_jwt_expiry, is_token_expired, five_minutes}
use kagenti_operator.TokenBroker.Cache.{
  TokenEntry, TokenCache, find_entry, get_token, session_tokens_of, set_token, store_back,
  delete_token,
}

-- The inner maps are maps with an entry, and the outer one is a map.
pub record IsValid (c : TokenCache) : Type 0 where
  pub outer : GoMap.IsMap c.tokens
  pub inner :
      (key : Text) (session_tokens : GoMap TokenEntry)
      → GoMap.get c.tokens key ≡ some session_tokens
      → GoMap.IsMap session_tokens × (0 < length session_tokens)

-- A token that is not about to expire has more than five minutes left.
live_iff :
    (now : ℕ) (e : ℤ)
    → (is_token_expired now e ≡ false) ↔ ((n : ℕ) × (e ≡ pos n) × (now + five_minutes ≤ n))
unfolding is_token_expired
live_iff now (pos n) = (λ h. (n, refl, ground arith), λ h. ground (arith, h.1, h.2))
live_iff now (negsuc n) = (λ h. absurd (ground arith), λ h. absurd (ground (arith, h.1)))

-- `GetToken` returns a token exactly if the cache has an entry for it that will not expire within
-- five minutes.
pub get_token_iff :
    (now : ℕ) (c : TokenCache) (key url token : Text)
    → (get_token now c key url ≡ some token) ↔ (
        (entry : TokenEntry) × (expires : ℕ) × (find_entry c key url ≡ some entry)
        × (entry.access_token ≡ token)
        × (entry.expires_at ≡ pos expires)
        × (now + five_minutes ≤ expires))
unfolding get_token
get_token_iff now c key url token = elim (Option-cases (find_entry c key url)) [
  | inl e ↦ (λ h. absurd (ground arith), λ h. absurd (ground (arith, h.2)))
  | inr (entry, e) ↦ (
    λ h.
        let (n, same, left) = (live_iff now entry.expires_at).0 (ground arith) in
        (entry, n, e, ground arith, same, left),
    λ h.
        let eq : h.0 ≡ entry = ground (arith, h.2) in
        let live : is_token_expired now entry.expires_at ≡ false =
          (live_iff now entry.expires_at).1
            (h.1, subst (λ x. x.expires_at ≡ pos h.1) eq h.4, h.5) in
        rw (e, get_token, live) (ap some (subst (λ x. x.access_token ≡ token) eq h.3)),
  )
]

pub find_entry-session_tokens :
    (c : TokenCache) (key url : Text)
    → find_entry c key url ≡ GoMap.get (session_tokens_of (GoMap.get c.tokens key)) url
unfolding find_entry GoMap.get
find_entry-session_tokens c key url = ground arith

pub find_entry-put :
    (c : TokenCache) (key url key' url' : Text) (entry : TokenEntry)
    → find_entry
        (record c {
          tokens =
              GoMap.put c.tokens key
                (GoMap.put (session_tokens_of (GoMap.get c.tokens key)) url entry);
        })
        key'
        url'
      ≡ (if beq key key' && beq url url' then some entry else find_entry c key' url')
find_entry-put c key url key' url' entry =
    simp (find_entry-session_tokens, get-put)
      (ground (
        arith,
        get-put (session_tokens_of (GoMap.get c.tokens key)) url entry url',
        beq_iff key key',
      ))

pub get-store_back :
    (tokens : GoMap (GoMap TokenEntry)) (key k : Text) (left : GoMap TokenEntry) (url : Text)
    → GoMap.get (session_tokens_of (GoMap.get (store_back tokens key left) k)) url ≡ (
        if beq key k
        then GoMap.get left url
        else GoMap.get (session_tokens_of (GoMap.get tokens k)) url)
get-store_back tokens key k [] url = ground (arith, get-remove tokens key k)
get-store_back tokens key k (e ∷ es) url = ground (arith, get-put tokens key (e ∷ es) k)

-- The token that `SetToken` stored is the one that `GetToken` finds under the same session and
-- resource, unless it is about to expire; every other pair of session and resource reads as before.
-- The call never fails.
pub get_token-set_token :
    (unmarshal_exp : Text → Option ℤ) (now clock later : ℕ) (c : TokenCache)
    (key url token key' url' : Text)
    → ((set_token unmarshal_exp now clock c key url token).1 ≡ ok tt)
      × (get_token later (set_token unmarshal_exp now clock c key url token).0 key' url' ≡ (
          if beq key key' && beq url url'
          then if is_token_expired later (parse_jwt_expiry unmarshal_exp now token)
            then none
            else some token
          else get_token later c key' url'))
unfolding get_token set_token
get_token-set_token unmarshal_exp now clock later c key url token key' url' =
    (refl, rw (find_entry-put c key url key' url' _, get_token) (ground arith))

-- `DeleteToken` takes away the entry of its session and resource, and no other.
pub find_entry-delete_token :
    (c : TokenCache) (key url key' url' : Text)
    → find_entry (delete_token c key url) key' url'
      ≡ (if beq key key' && beq url url' then none else find_entry c key' url')
unfolding delete_token
find_entry-delete_token c key url key' url' = elim (Option-cases (GoMap.get c.tokens key)) [
  | inl e ↦ rw (e, delete_token) (unfold find_entry in ground (arith, beq_iff key key'))
  | inr (session_tokens, e) ↦
      rw (e, delete_token)
        (simp (find_entry-session_tokens, get-store_back)
          (ground (arith, get-remove session_tokens url url', beq_iff key key')))
]

pub store_back-IsValid :
    (c : TokenCache) (key : Text) (left : GoMap TokenEntry)
    → IsValid c
    → GoMap.IsMap left
    → IsValid (record c { tokens = store_back c.tokens key left })
store_back-IsValid c key [] v h = record {
  outer = GoMap.remove-IsMap c.tokens key v.outer;
  inner = λ k st e. ground (arith, get-remove c.tokens key k, v.inner k st);
}
store_back-IsValid c key (e ∷ es) v h = record {
  outer = GoMap.put-IsMap c.tokens key (e ∷ es) v.outer;
  inner = λ k st f. ground (arith, get-put c.tokens key (e ∷ es) k, v.inner k st);
}

put-IsValid :
    (c : TokenCache) (key : Text) (session_tokens : GoMap TokenEntry)
    → IsValid c
    → GoMap.IsMap session_tokens
    → 0 < length session_tokens
    → IsValid (record c { tokens = GoMap.put c.tokens key session_tokens })
put-IsValid c key session_tokens v h l = record {
  outer = GoMap.put-IsMap c.tokens key session_tokens v.outer;
  inner = λ k st f. elim (Bool-cases (beq key k)) [
    | inl same ↦
        let new : session_tokens ≡ st = ground (arith, get-put c.tokens key session_tokens k) in
        subst (λ st. GoMap.IsMap st × (0 < length st)) new (h, l)
    | inr other ↦ v.inner k st (ground (arith, get-put c.tokens key session_tokens k))
  ];
}

session-IsMap :
    (c : TokenCache) (key : Text)
    → IsValid c
    → GoMap.IsMap (session_tokens_of (GoMap.get c.tokens key))
session-IsMap c key v = elim (Option-cases (GoMap.get c.tokens key)) [
  | inl e ↦ rw e tt
  | inr (st, e) ↦ rw e (v.inner key st e).0
]

pub set_token-IsValid :
    (unmarshal_exp : Text → Option ℤ) (now clock : ℕ) (c : TokenCache) (key url token : Text)
    → IsValid c
    → IsValid (set_token unmarshal_exp now clock c key url token).0
unfolding set_token
set_token-IsValid unmarshal_exp now clock c key url token v =
    put-IsValid c key _ v (GoMap.put-IsMap _ url _ (session-IsMap c key v))
      (GoMap.length-pos _ url _)

pub delete_token-IsValid :
    (c : TokenCache) (key url : Text) → IsValid c → IsValid (delete_token c key url)
unfolding delete_token
delete_token-IsValid c key url v = elim (Option-cases (GoMap.get c.tokens key)) [
  | inl e ↦ rw (e, delete_token) v
  | inr (session_tokens, e) ↦
      rw (e, delete_token)
        (store_back-IsValid c key (GoMap.remove session_tokens url) v
          (GoMap.remove-IsMap session_tokens url (v.inner key session_tokens e).0))
]
