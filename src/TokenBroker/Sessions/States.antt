-- ===== src/TokenBroker/Sessions/States.antt =====
-- `GetSessionByState` of session/manager.go: the split of the OAuth state at its last `.`.
use kagenti_operator.Prelude.{
  ℕ, zero, suc, ◌∙◌, ◌<◌, ◌≡◌, refl, Bool, false, ◌||◌, Text, beq_iff, Option, none, some,
  Option-cases, Bool-cases, inl, inr, [], ◌∷◌, ◌++◌, ◌==◌, length, length-append, get_elem?, take,
  arith, dec_lt, ap,
}
use kagenti_operator.TokenBroker.Errors.{ok}
use kagenti_operator.TokenBroker.Session.{Session, Pointer, OAuthTransaction}
use kagenti_operator.TokenBroker.Sessions.{
  SessionManager, find_session, last_dot, matching_session, get_session_by_state,
}
use kagenti_operator.TokenBroker.Sessions.Invariant.{IsValid, found}

-- Whether a text has a `.`.
unfoldable pub has_dot : Text → Bool
has_dot [] = false
has_dot (c ∷ s) = c == b'.' || has_dot s

abbrev IsDot : Text → ℕ → Type 0
IsDot state i = get_elem? state i ≡ some b'.'

-- What the loop finds among the first `n` bytes: the last `.`, or that there is none.
abbrev LastDot : Text → ℕ → Option ℕ → Type 0
LastDot state n none = (j : ℕ) → j < n → ¬ IsDot state j
LastDot state n (some i) = (i < n) × IsDot state i × ((j : ℕ) → i < j → j < n → ¬ IsDot state j)

LastDot-suc_dot : (state : Text) (n : ℕ) → IsDot state n → LastDot state (suc n) (some n)
LastDot-suc_dot state n h = (omega arith, h, λ j a b. absurd (omega arith))

LastDot-suc_other :
    (state : Text) (n : ℕ) (r : Option ℕ)
    → ¬ IsDot state n
    → LastDot state n r
    → LastDot state (suc n) r
LastDot-suc_other state n none h a = λ j b. elim (dec_lt j n) [
  | yes c ↦ a j c
  | no c ↦ λ d. h (let e : n ≡ j = omega arith in rw e d)
]
LastDot-suc_other state n (some i) h a = (
  omega arith,
  a.1,
  λ j b b'. elim (dec_lt j n) [
    | yes c ↦ a.2 j b c
    | no c ↦ λ d. h (let e : n ≡ j = omega arith in rw e d)
  ],
)

last_dot-LastDot : (state : Text) (n : ℕ) → LastDot state n (last_dot state n)
unfolding last_dot
last_dot-LastDot state zero = λ j h. absurd (omega arith)
last_dot-LastDot state (suc n) = elim (Option-cases (get_elem? state n)) [
  | inl e ↦
      rw (e, last_dot)
        (LastDot-suc_other state n (last_dot state n) (λ d. ground arith)
          (last_dot-LastDot state n))
  | inr (c, e) ↦ elim (Bool-cases (c == b'.')) [
    | inl dot ↦ rw (e, last_dot, dot) (LastDot-suc_dot state n (ground arith))
    | inr other ↦
        rw (e, last_dot, other)
          (LastDot-suc_other state n (last_dot state n) (λ d. ground arith)
            (last_dot-LastDot state n))
  ]
]

has_dot-get_elem? : (nonce : Text) (j : ℕ) → has_dot nonce ≡ false → ¬ IsDot nonce j
unfolding has_dot
has_dot-get_elem? [] j h d = cc
has_dot-get_elem? (c ∷ s) zero h d = ground arith
has_dot-get_elem? (c ∷ s) (suc j) h d = has_dot-get_elem? s j (ground arith) d

undotted : (nonce : Text) → ((j : ℕ) → j < length nonce → ¬ IsDot nonce j) → has_dot nonce ≡ false
unfolding has_dot
undotted [] h = refl
undotted (c ∷ s) h = ground (
  arith,
  undotted s (λ j l. h (suc j) (omega arith)),
  λ (e : c ≡ b'.'). h 0 (omega arith) (ap some e),
)

IsDot-append : (key nonce : Text) → IsDot (key ++ b'.' ∷ nonce) (length key)
IsDot-append [] nonce = refl
IsDot-append (c ∷ key) nonce = IsDot-append key nonce

no-IsDot-append :
    (key nonce : Text) (j : ℕ)
    → has_dot nonce ≡ false
    → length key < j
    → ¬ IsDot (key ++ b'.' ∷ nonce) j
no-IsDot-append [] nonce zero h l d = absurd (omega arith)
no-IsDot-append [] nonce (suc j) h l d = has_dot-get_elem? nonce j h d
no-IsDot-append (c ∷ key) nonce zero h l d = absurd (omega arith)
no-IsDot-append (c ∷ key) nonce (suc j) h l d = no-IsDot-append key nonce j h (omega arith) d

take-append : (key rest : Text) → take (length key) (key ++ rest) ≡ key
take-append [] rest = refl
take-append (c ∷ key) rest = ap (λ (t : Text). c ∷ t) (take-append key rest)

-- The split finds the key that a state was built from.
last_dot-append :
    (key nonce : Text)
    → has_dot nonce ≡ false
    → last_dot (key ++ b'.' ∷ nonce) (length (key ++ b'.' ∷ nonce)) ≡ some (length key)
last_dot-append key nonce h = go _ refl (last_dot-LastDot state (length state))
  where
    state : Text
    state = key ++ b'.' ∷ nonce

    go :
        (r : Option ℕ)
        → last_dot state (length state) ≡ r
        → LastDot state (length state) r
        → last_dot state (length state) ≡ some (length key)
    go none e a =
        absurd (
          a (length key) (omega (arith, length-append key (b'.' ∷ nonce))) (IsDot-append key nonce))
    go (some i) e a = elim (dec_lt i (length key)) [
      | yes before ↦ absurd (
          a.2 (length key) before (omega (arith, length-append key (b'.' ∷ nonce)))
            (IsDot-append key nonce))
      | no c ↦ elim (dec_lt (length key) i) [
        | yes behind ↦ absurd (no-IsDot-append key nonce i h behind a.1)
        | no d ↦ e ∙ ap some (omega arith)
      ]
    ]

-- A state that is made of a session key and a nonce without `.`, as the broker makes them, is looked
-- up under that key, whatever bytes the key has, and then compared with the session's transaction.
pub get_session_by_state-append :
    (m : SessionManager) (key nonce : Text)
    → has_dot nonce ≡ false
    → get_session_by_state m (key ++ b'.' ∷ nonce)
      ≡ matching_session (find_session m key) (key ++ b'.' ∷ nonce)
unfolding get_session_by_state
get_session_by_state-append m key nonce h =
    rw (last_dot-append key nonce h, get_session_by_state) (rw take-append)

split_at_dot :
    (state : Text) (i : ℕ)
    → IsDot state i
    → ((j : ℕ) → i < j → j < length state → ¬ IsDot state j)
    → (nonce : Text) × (state ≡ take i state ++ b'.' ∷ nonce) × (has_dot nonce ≡ false)
split_at_dot [] i d h = absurd (ground arith)
split_at_dot (c ∷ s) zero d h =
    (s, ground arith, undotted s (λ j l. h (suc j) (omega arith) (omega arith)))
split_at_dot (c ∷ s) (suc i) d h =
    let (nonce, e, u) = split_at_dot s i d (λ j a b. h (suc j) (omega arith) (omega arith)) in
    (nonce, ap (λ (t : Text). c ∷ t) e, u)

matched_inv :
    (m : SessionManager) (key state : Text) (p : Pointer) (s : Session)
    → matching_session (find_session m key) state ≡ ok (p, s)
    → (tx : OAuthTransaction) × (find_session m key ≡ some (p, s))
      × (s.active_oauth_tx ≡ some tx)
      × (tx.state ≡ state)
matched_inv m key state p s h = elim (Option-cases (find_session m key)) [
  | inl e ↦ absurd (ground arith)
  | inr ((q, t), e) ↦ elim (Option-cases t.active_oauth_tx) [
    | inl none_active ↦ absurd (ground arith)
    | inr (tx, active) ↦ (
      tx,
      ground (arith, beq_iff tx.state state),
      ground (arith, beq_iff tx.state state),
      ground (arith, beq_iff tx.state state),
    )
  ]
]

abbrev pub Accepted : SessionManager → Text → Pointer → Session → Type 0
Accepted m state p s =
    (nonce : Text) × (tx : OAuthTransaction) × (state ≡ s.session_key ++ b'.' ∷ nonce)
    × (has_dot nonce ≡ false)
    × (find_session m s.session_key ≡ some (p, s))
    × (s.active_oauth_tx ≡ some tx)
    × (tx.state ≡ state)

-- A state that is accepted names its session: it is the session's key, a `.` and a nonce without
-- `.`, the session stands under that key, and it has a transaction in flight with that very state.
pub get_session_by_state_sound :
    (m : SessionManager) (state : Text) (p : Pointer) (s : Session)
    → IsValid m
    → get_session_by_state m state ≡ ok (p, s)
    → Accepted m state p s
unfolding get_session_by_state
get_session_by_state_sound m state p s v h = go _ refl (last_dot-LastDot state (length state))
  where
    go :
        (r : Option ℕ)
        → last_dot state (length state) ≡ r
        → LastDot state (length state) r
        → Accepted m state p s
    go none e a = absurd (ground arith)
    go (some i) e a =
        let (nonce, split, undotted) = split_at_dot state i a.1 a.2 in
        let matched : matching_session (find_session m (take i state)) state ≡ ok (p, s) =
          ground arith in
        let (tx, there, active, same) = matched_inv m (take i state) state p s matched in
        let (here, object) = found m (take i state) p s there in
        let keyed = (v.live (take i state) p s here object).keyed in
        (nonce, tx, rw keyed split, undotted, ap (find_session m) keyed ∙ there, active, same)
