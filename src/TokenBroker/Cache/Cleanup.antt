-- ===== src/TokenBroker/Cache/Cleanup.antt =====
-- `CleanupExpiredTokens` of cache/token_cache.go: two nested ranges that delete from the maps that
-- they range over.
use kagenti_operator.Prelude.{
  ℕ, ◌+◌, ◌≡◌, refl, false, Text, beq, beq_iff, Option, none, some, Bool-cases, inl, inr, [], ◌∷◌,
  if◌then◌else◌, length, arith, ◌∙◌,
}
use kagenti_operator.GoMap
use kagenti_operator.GoMap.{GoMap, get-put, get-remove, length-remove}
use kagenti_operator.TokenBroker.JwtExpiry.{is_token_expired}
use kagenti_operator.TokenBroker.Cache.{
  TokenEntry, TokenCache, find_entry, get_token, session_tokens_of, store_back, count_tokens,
  get_cache_size, clean_session, clean_all, cleanup_expired_tokens,
}
use kagenti_operator.TokenBroker.Cache.Reads.{
  IsValid, find_entry-session_tokens, get-store_back, store_back-IsValid,
}

-- What is left of an entry: `ranged` is what the range saw under the key.
abbrev swept : ℕ → Option TokenEntry → Option TokenEntry → Option TokenEntry
swept now none entry = entry
swept now (some e) entry = if is_token_expired now e.expires_at then none else entry

get-clean_session :
    (now : ℕ) (m : GoMap TokenEntry) (removed : ℕ) (es : GoMap TokenEntry) (u : Text)
    → GoMap.IsMap es
    → GoMap.get (clean_session now m removed es).0 u ≡ swept now (GoMap.get es u) (GoMap.get m u)
unfolding clean_session GoMap.get
get-clean_session now m removed [] u h = refl
get-clean_session now m removed ((url, entry) ∷ es) u h =
    let expired = is_token_expired now entry.expires_at in
    get-clean_session now (if expired then GoMap.remove m url else m)
      (if expired then removed + 1 else removed) es u h.1
    ∙ ground (arith, beq_iff url u, get-remove m url u, h.0)

clean_session-IsMap :
    (now : ℕ) (m : GoMap TokenEntry) (removed : ℕ) (es : GoMap TokenEntry)
    → GoMap.IsMap m
    → GoMap.IsMap (clean_session now m removed es).0
unfolding clean_session
clean_session-IsMap now m removed [] h = h
clean_session-IsMap now m removed ((url, entry) ∷ es) h =
    let expired = is_token_expired now entry.expires_at in
    clean_session-IsMap now (if expired then GoMap.remove m url else m)
      (if expired then removed + 1 else removed) es
      (elim (Bool-cases (is_token_expired now entry.expires_at)) [
        | inl e ↦ rw e (GoMap.remove-IsMap m url h)
        | inr e ↦ rw e h
      ])

abbrev Agrees {ℓ} : {V : Type ℓ} → GoMap V → GoMap V → Type ℓ
Agrees {V = V} es m = (k : Text) (v : V) → GoMap.get es k ≡ some v → GoMap.get m k ≡ some v

count-clean_session :
    (now : ℕ) (m : GoMap TokenEntry) (removed : ℕ) (es : GoMap TokenEntry)
    → GoMap.IsMap m
    → GoMap.IsMap es
    → Agrees es m
    → (clean_session now m removed es).1 + length (clean_session now m removed es).0
      ≡ removed + length m
unfolding clean_session
count-clean_session now m removed [] h d a = refl
count-clean_session now m removed ((url, entry) ∷ es) h d a =
    let shift : (k : Text) (v : TokenEntry)
        → GoMap.get es k ≡ some v
        → GoMap.get {V = TokenEntry} ((url, entry) ∷ es) k ≡ some v =
      λ k v f. unfold GoMap.get in ground (arith, beq_iff url k, d.0) in
    elim (Bool-cases (is_token_expired now entry.expires_at)) [
      | inl e ↦
          rw (e, clean_session)
            (omega (
              arith,
              count-clean_session now (GoMap.remove m url) (removed + 1) es
                  (GoMap.remove-IsMap m url h) d.1
                  (λ k v f.
                    ground (arith, get-remove m url k, beq_iff url k, a k v (shift k v f), d.0)),
              length-remove m url entry h
                  (a url entry (unfold GoMap.get in ground (arith, beq_iff url url))),
            ))
      | inr e ↦
          rw (e, clean_session)
            (count-clean_session now m removed es h d.1 (λ k v f. a k v (shift k v f)))
    ]

find_tokens : GoMap (GoMap TokenEntry) → Text → Text → Option TokenEntry
find_tokens tokens key url = GoMap.get (session_tokens_of (GoMap.get tokens key)) url

-- The number of tokens.
size : GoMap (GoMap TokenEntry) → ℕ
size [] = 0
size ((key, st) ∷ m) = length st + size m

count_tokens-size :
    (count : ℕ) (m : GoMap (GoMap TokenEntry)) → count_tokens count m ≡ count + size m
unfolding count_tokens size
count_tokens-size count [] = omega arith
count_tokens-size count ((key, st) ∷ m) = omega (arith, count_tokens-size (count + length st) m)

size-absent :
    (m : GoMap (GoMap TokenEntry)) (key : Text)
    → GoMap.has m key ≡ false
    → size (GoMap.remove m key) ≡ size m
unfolding size GoMap.get GoMap.remove
size-absent [] key h = refl
size-absent ((k, st) ∷ m) key h = ground (arith, size-absent m key)

size-remove :
    (m : GoMap (GoMap TokenEntry)) (key : Text) (st : GoMap TokenEntry)
    → GoMap.IsMap m
    → GoMap.get m key ≡ some st
    → size m ≡ length st + size (GoMap.remove m key)
unfolding size GoMap.get GoMap.remove
size-remove [] key st h e = cc
size-remove ((k, st') ∷ m) key st h e =
    ground (arith, size-remove m key st h.1, size-absent m key, beq_iff k key)

size-put :
    (m : GoMap (GoMap TokenEntry)) (key : Text) (st left : GoMap TokenEntry)
    → GoMap.get m key ≡ some st
    → size (GoMap.put m key left) + length st ≡ size m + length left
unfolding size GoMap.get GoMap.put
size-put [] key st left e = cc
size-put ((k, st') ∷ m) key st left e = ground (arith, size-put m key st left, beq_iff k key)

size-store_back :
    (m : GoMap (GoMap TokenEntry)) (key : Text) (st left : GoMap TokenEntry)
    → GoMap.IsMap m
    → GoMap.get m key ≡ some st
    → size (store_back m key left) + length st ≡ size m + length left
size-store_back m key st [] h e = omega (arith, size-remove m key st h e)
size-store_back m key st (x ∷ xs) h e = size-put m key st (x ∷ xs) e

-- What the ranges rely on while they run.
record Ranging (tokens es : GoMap (GoMap TokenEntry)) : Type 0 where
  valid : IsValid (record { tokens = tokens })
  distinct : GoMap.IsMap es
  agrees : Agrees es tokens

get-store_back_other :
    (tokens : GoMap (GoMap TokenEntry)) (key k : Text) (left : GoMap TokenEntry)
    → beq key k ≡ false
    → GoMap.get (store_back tokens key left) k ≡ GoMap.get tokens k
get-store_back_other tokens key k [] h = ground (arith, get-remove tokens key k)
get-store_back_other tokens key k (e ∷ es) h = ground (arith, get-put tokens key (e ∷ es) k)

module _ (now : ℕ) (tokens : GoMap (GoMap TokenEntry)) (removed : ℕ) (key : Text)
    (st : GoMap TokenEntry) (es : GoMap (GoMap TokenEntry))
    (r : Ranging tokens ((key, st) ∷ es)) where
  abbrev left : GoMap TokenEntry
  left = (clean_session now st removed st).0

  here : GoMap.get tokens key ≡ some st
  unfolding GoMap.get
  here = r.agrees key st (ground (arith, beq_iff key key))

  st-IsMap : GoMap.IsMap st
  st-IsMap = (r.valid.inner key st here).0

  other : (k : Text) (v : GoMap TokenEntry) → GoMap.get es k ≡ some v → beq key k ≡ false
  other k v e = ground (arith, beq_iff key k, r.distinct.0)

  later : Ranging (store_back tokens key left) es
  later = record {
    valid =
        store_back-IsValid (record { tokens = tokens }) key left r.valid
          (clean_session-IsMap now st removed st st-IsMap);
    distinct = r.distinct.1;
    agrees = λ k v e.
        get-store_back_other tokens key k left (other k v e)
        ∙ r.agrees k v (unfold GoMap.get in ground (arith, other k v e));
  }

  find_left : (url : Text) → GoMap.get left url ≡ swept now (GoMap.get st url) (GoMap.get st url)
  find_left url = get-clean_session now st removed st url st-IsMap

  count_left : (clean_session now st removed st).1 + length left ≡ removed + length st
  count_left = count-clean_session now st removed st st-IsMap st-IsMap (λ k v e. e)

-- The outer range: what it leaves under `key` and `url`.
find-clean_all :
    (now : ℕ) (tokens : GoMap (GoMap TokenEntry)) (removed : ℕ) (es : GoMap (GoMap TokenEntry))
    (key url : Text)
    → Ranging tokens es
    → find_tokens (clean_all now tokens removed es).0 key url ≡ (
        if GoMap.has es key
        then swept now (find_tokens tokens key url) (find_tokens tokens key url)
        else find_tokens tokens key url)
unfolding clean_all GoMap.get find_tokens
find-clean_all now tokens removed [] key url r = refl
find-clean_all now tokens removed ((k, st) ∷ es) key url r =
    find-clean_all now (store_back tokens k (left now tokens removed k st es r))
      (clean_session now st removed st).1 es key url (later now tokens removed k st es r)
    ∙ ground (
      arith,
      get-store_back tokens k key (left now tokens removed k st es r) url,
      find_left now tokens removed k st es r url,
      here now tokens removed k st es r,
      beq_iff k key,
      r.distinct.0,
    )

count-clean_all :
    (now : ℕ) (tokens : GoMap (GoMap TokenEntry)) (removed : ℕ) (es : GoMap (GoMap TokenEntry))
    → Ranging tokens es
    → (clean_all now tokens removed es).1 + size (clean_all now tokens removed es).0
      ≡ removed + size tokens
unfolding clean_all
count-clean_all now tokens removed [] r = refl
count-clean_all now tokens removed ((k, st) ∷ es) r =
    let l = left now tokens removed k st es r in
    omega (
      arith,
      count-clean_all now (store_back tokens k l) (clean_session now st removed st).1 es
          (later now tokens removed k st es r),
      size-store_back tokens k st l r.valid.outer (here now tokens removed k st es r),
      count_left now tokens removed k st es r,
    )

clean_all-IsValid :
    (now : ℕ) (tokens : GoMap (GoMap TokenEntry)) (removed : ℕ) (es : GoMap (GoMap TokenEntry))
    → Ranging tokens es
    → IsValid (record { tokens = (clean_all now tokens removed es).0 })
unfolding clean_all
clean_all-IsValid now tokens removed [] r = r.valid
clean_all-IsValid now tokens removed ((k, st) ∷ es) r =
    clean_all-IsValid now (store_back tokens k (left now tokens removed k st es r))
      (clean_session now st removed st).1 es (later now tokens removed k st es r)

initial : (c : TokenCache) → IsValid c → Ranging c.tokens c.tokens
initial c v = record { valid = v; distinct = v.outer; agrees = λ k t e. e }

-- An entry that has more than five minutes to live.
abbrev pub unexpired : ℕ → Option TokenEntry → Option TokenEntry
unexpired now none = none
unexpired now (some e) = if is_token_expired now e.expires_at then none else some e

find_entry-cleanup :
    (now : ℕ) (c : TokenCache) (key url : Text)
    → IsValid c
    → find_entry (cleanup_expired_tokens now c).0 key url ≡ unexpired now (find_entry c key url)
unfolding cleanup_expired_tokens find_tokens
find_entry-cleanup now c key url v =
    find_entry-session_tokens (cleanup_expired_tokens now c).0 key url
    ∙ find-clean_all now c.tokens 0 c.tokens key url (initial c v)
    ∙ (unfold find_entry GoMap.get in ground arith)

-- `CleanupExpiredTokens` takes away exactly the tokens that are expired or about to expire, so that
-- every `GetToken` at that moment returns what it returned before; it returns the number of tokens
-- that the cache has lost; and it leaves no session with an empty map.
pub cleanup_expired_tokens_lem :
    (now : ℕ) (c : TokenCache)
    → IsValid c
    → let c' = (cleanup_expired_tokens now c).0 in
      ((key url : Text) → find_entry c' key url ≡ unexpired now (find_entry c key url))
      × ((key url : Text) → get_token now c' key url ≡ get_token now c key url)
      × (get_cache_size c' + (cleanup_expired_tokens now c).1 ≡ get_cache_size c)
      × IsValid c'
unfolding cleanup_expired_tokens
cleanup_expired_tokens_lem now c v = (
  λ key url. find_entry-cleanup now c key url v,
  λ key url. unfold get_token in ground (arith, find_entry-cleanup now c key url v),
  unfold get_cache_size in
      omega (
        arith,
        count-clean_all now c.tokens 0 c.tokens (initial c v),
        count_tokens-size 0 c.tokens,
        count_tokens-size 0 (clean_all now c.tokens 0 c.tokens).0,
      ),
  clean_all-IsValid now c.tokens 0 c.tokens (initial c v),
)
