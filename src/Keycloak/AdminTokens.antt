-- ===== src/Keycloak/AdminTokens.antt =====
-- operator/internal/keycloak/token_cache.go. `time.Now` is the argument `now` in nanoseconds; `answer` is what
-- `adminToken`, a request to Keycloak, returns where it is asked: a token with the moment at which it
-- expires, or `none` for an error. `entries` is nil exactly where it is empty here.
use kagenti_operator.Prelude.{
  ℕ, ◌+◌, ◌<◌, ◌≡◌, ◌⊎◌, inl, inr, refl, ◌&&◌, Text, beq, beq_iff, is_empty, Option, none, some,
  Option-cases, Bool-cases, List, [], ◌∷◌, ◌++◌, ◌==◌, ltb, if◌then◌else◌, arith,
}
use kagenti_operator.GoMap
use kagenti_operator.GoMap.{GoMap}
use kagenti_operator.Webhook.Preset.{trim_space}

pub record TokenEntry : Type 0 where
  pub token : Text
  pub expires_at : ℕ

abbrev pub Entries : Type 0
Entries = GoMap TokenEntry

-- 60 * time.Second
abbrev pub token_cache_skew : ℕ
token_cache_skew = 60000000000

-- strings.TrimRight(s, "/")
unfoldable pub trim_slashes : Text → Text
trim_slashes [] = []
trim_slashes (c ∷ s) =
    let rest = trim_slashes s in if c == b'/' && is_empty rest then [] else c ∷ rest

unfoldable pub admin_token_cache_key : (base_url username : Text) → Text
unfolding trim_slashes
admin_token_cache_key base_url username = trim_slashes (trim_space base_url) ++ 0 ∷ username

-- The loop that drops what has expired.
unfoldable pub prune : ℕ → Entries → Entries
prune now [] = []
prune now ((k, e) ∷ m) =
    let rest = prune now m in if ltb now e.expires_at then (k, e) ∷ rest else rest

-- The entry that is not near its expiry.
unfoldable pub fresh_entry : ℕ → Option TokenEntry → Option Text
fresh_entry now none = none
fresh_entry now (some e) = if ltb (now + token_cache_skew) e.expires_at then some e.token else none

unfoldable pub token :
    ℕ → (base_url username : Text) → (answer : Option (Text × ℕ)) → Entries → Entries × Option Text
unfolding prune fresh_entry
token now base_url username answer entries =
    let key = admin_token_cache_key base_url username in
    let kept = prune now entries in
    elim (fresh_entry now (GoMap.get kept key)) [
      | some t ↦ (kept, some t)
      | none ↦ elim answer [
        | none ↦ (kept, none)
        | some (t, expires_at) ↦
            (GoMap.put kept key (record { token = t; expires_at = expires_at }), some t)
      ]
    ]

pub record Call : Type 0 where
  pub now : ℕ
  pub base_url : Text
  pub username : Text
  pub answer : Option (Text × ℕ)

abbrev pub key_of_call : Call → Text
key_of_call c = admin_token_cache_key c.base_url c.username

-- The entries after the calls, the last of which stands first.
unfoldable pub entries_after : List Call → Entries
unfolding token
entries_after [] = []
entries_after (c ∷ past) = (token c.now c.base_url c.username c.answer (entries_after past)).0

abbrev pub Made : Call → List Call → Type 0
Made c [] = ⊥
Made c (d ∷ past) = (c ≡ d) ⊎ Made c past

-- Where an entry comes from.
abbrev pub CameFrom : List Call → Text → TokenEntry → Type 0
CameFrom past k e =
    (c : Call) × Made c past × (key_of_call c ≡ k) × (c.answer ≡ some (e.token, e.expires_at))

-- The map has no key twice, so what is left after the loop was there before it.
prune-get :
    (now : ℕ) (m : Entries) (k : Text) (e : TokenEntry)
    → GoMap.IsMap m
    → GoMap.get (prune now m) k ≡ some e
    → GoMap.get m k ≡ some e
unfolding prune GoMap.get
prune-get now [] k e d h = h
prune-get now ((j, x) ∷ m) k e d h = elim (Bool-cases (ltb now x.expires_at)) [
  | inl young ↦ ground (arith, prune-get now m k e d.1)
  | inr old ↦
      let before = prune-get now m k e d.1 (ground arith) in ground (arith, beq_iff j k, d.0)
]

prune-absent :
    (now : ℕ) (m : Entries) (k : Text) → GoMap.get m k ≡ none → GoMap.get (prune now m) k ≡ none
unfolding prune GoMap.get
prune-absent now [] k h = refl
prune-absent now ((j, x) ∷ m) k h = ground (arith, prune-absent now m k)

prune-IsMap : (now : ℕ) (m : Entries) → GoMap.IsMap m → GoMap.IsMap (prune now m)
unfolding prune
prune-IsMap now [] d = tt
prune-IsMap now ((j, x) ∷ m) d = elim (Bool-cases (ltb now x.expires_at)) [
  | inl young ↦
      let gone : GoMap.get (prune now m) j ≡ none = prune-absent now m j (ground (arith, d.0)) in
      rw (young, prune) (rw gone refl, prune-IsMap now m d.1)
  | inr old ↦ rw (old, prune) (prune-IsMap now m d.1)
]

-- The entries of one call, one key at a time.
module _ (now : ℕ) (base_url username : Text) (answer : Option (Text × ℕ)) (m : Entries)
    (d : GoMap.IsMap m) where
  abbrev key : Text
  key = admin_token_cache_key base_url username

  token-IsMap : GoMap.IsMap (token now base_url username answer m).0
  unfolding token
  token-IsMap = elim (Option-cases (fresh_entry now (GoMap.get (prune now m) key))) [
    | inr (t, e) ↦ rw (e, token) (prune-IsMap now m d)
    | inl e ↦ elim (Option-cases answer) [
      | inl e' ↦ rw (e, token) (rw e' (prune-IsMap now m d))
      | inr ((t, expires_at), e') ↦
          rw (e, token) (rw e' (GoMap.put-IsMap (prune now m) key _ (prune-IsMap now m d)))
    ]
  ]

  token-entry :
      (k : Text) (e : TokenEntry)
      → GoMap.get (token now base_url username answer m).0 k ≡ some e
      → (GoMap.get m k ≡ some e) ⊎ ((key ≡ k) × (answer ≡ some (e.token, e.expires_at)))
  unfolding token
  token-entry k x h = elim (Option-cases (fresh_entry now (GoMap.get (prune now m) key))) [
    | inr (t, e) ↦ inl (prune-get now m k x d (ground arith))
    | inl e ↦ elim (Option-cases answer) [
      | inl e' ↦ inl (prune-get now m k x d (ground arith))
      | inr ((t, expires_at), e') ↦
          let new : TokenEntry = record { token = t; expires_at = expires_at } in
          let stored : GoMap.get (GoMap.put (prune now m) key new) k ≡ some x = ground arith in
          elim (Bool-cases (beq key k)) [
            | inl same ↦
                let here : new ≡ x = cc (rw (GoMap.get-put, same) at stored) in
                inr ((beq_iff key k).0 same, rw (← here) e')
            | inr other ↦ inl (prune-get now m k x d (rw (GoMap.get-put, other) at stored))
          ]
    ]
  ]

  token-answer :
      (t : Text)
      → (token now base_url username answer m).1 ≡ some t
      → ((expires_at : ℕ) × (answer ≡ some (t, expires_at)))
        ⊎ ((e : TokenEntry) × (GoMap.get m key ≡ some e)
            × (e.token ≡ t)
            × (now + token_cache_skew < e.expires_at))
  unfolding token fresh_entry
  token-answer t h = elim (Option-cases (GoMap.get (prune now m) key)) [
    | inl e ↦ elim (Option-cases answer) [
      | inl e' ↦ absurd (ground arith)
      | inr ((t', expires_at), e') ↦ inl (expires_at, ground arith)
    ]
    | inr (x, e) ↦ elim (Bool-cases (ltb (now + token_cache_skew) x.expires_at)) [
      | inl young ↦ inr (x, prune-get now m key x d e, ground arith, ground arith)
      | inr old ↦ elim (Option-cases answer) [
        | inl e' ↦ absurd (ground arith)
        | inr ((t', expires_at), e') ↦ inl (expires_at, ground arith)
      ]
    ]
  ]

entries_after-IsMap : (past : List Call) → GoMap.IsMap (entries_after past)
unfolding entries_after
entries_after-IsMap [] = tt
entries_after-IsMap (c ∷ past) =
    token-IsMap c.now c.base_url c.username c.answer (entries_after past) (entries_after-IsMap past)

entries_after-CameFrom :
    (past : List Call) (k : Text) (e : TokenEntry)
    → GoMap.get (entries_after past) k ≡ some e
    → CameFrom past k e
unfolding entries_after GoMap.get
entries_after-CameFrom [] k e h = absurd (ground arith)
entries_after-CameFrom (c ∷ past) k e h =
    elim (token-entry c.now c.base_url c.username c.answer (entries_after past)
      (entries_after-IsMap past) k e h) [
        | inl before ↦
            let (d, made, same, answer) = entries_after-CameFrom past k e before in
            (d, inr made, same, answer)
        | inr (same, answer) ↦ (c, inl refl, same, answer)
      ]

-- A token that a call returns is the one that Keycloak has just answered with, or one that it answered
-- with to an earlier call of the same cache key, and which lasts for more than a minute from now.
pub token_served :
    (past : List Call) (now : ℕ) (base_url username : Text) (answer : Option (Text × ℕ)) (t : Text)
    → (token now base_url username answer (entries_after past)).1 ≡ some t
    → ((expires_at : ℕ) × (answer ≡ some (t, expires_at)))
      ⊎ ((c : Call) × (expires_at : ℕ) × Made c past
          × (key_of_call c ≡ admin_token_cache_key base_url username)
          × (c.answer ≡ some (t, expires_at))
          × (now + token_cache_skew < expires_at))
token_served past now base_url username answer t h =
    elim (token-answer now base_url username answer (entries_after past) (entries_after-IsMap past)
      t h) [
        | inl new ↦ inl new
        | inr (e, there, same, young) ↦
            let (c, made, key_same, came) = entries_after-CameFrom past _ e there in
            inr (c, e.expires_at, made, key_same, rw (← same) came, young)
      ]
