-- ===== src/TokenBroker/Broker/Termination.antt =====
-- broker.go: how long a call of `AcquireToken` goes on.
use kagenti_operator.Prelude.{
  ℕ, ◌+◌, ◌<◌, ◌≤◌, ◌≡◌, ◌≢◌, ◌⊎◌, inl, inr, refl, sym, ap, ◌∙◌, Text, Option, none, some,
  Option-cases, Bool-cases, List, [], ◌∷◌, length, ltb, arith, ℤ,
}
use kagenti_operator.TokenBroker.Errors.{err, message, library_error}
use kagenti_operator.TokenBroker.Semaphore.{acquire, AcquireArm}
use kagenti_operator.TokenBroker.Session.{Session, Pointer}
use kagenti_operator.TokenBroker.Cache.{TokenCache}
use kagenti_operator.TokenBroker.Broker
use kagenti_operator.TokenBroker.Broker.Sharing.{advance_at}

-- How many moves a goroutine can still make.
abbrev pub moves_left : Broker.Pc → ℕ
moves_left Broker.started = 15
moves_left Broker.checking = 14
moves_left Broker.looking_up = 13
moves_left (Broker.waiting p) = 12
moves_left (Broker.acquired p) = 11
moves_left (Broker.discovering p) = 10
moves_left (Broker.generating p auth_endpoint token_endpoint scopes) = 9
moves_left (Broker.building p pkce) = 8
moves_left (Broker.publishing p auth_url) = 7
moves_left (Broker.awaiting p) = 6
moves_left (Broker.exchanging p code) = 5
moves_left (Broker.caching p token) = 4
moves_left (Broker.unblocking p token) = 3
moves_left (Broker.clearing p token) = 2
moves_left (Broker.releasing p result) = 1
moves_left (Broker.returned result) = 0
moves_left Broker.crashed = 0

abbrev Falls : Broker.Pc → Broker.Pc → Type 0
Falls pc pc' = (pc' ≡ pc) ⊎ (moves_left pc' < moves_left pc)

module _ (unmarshal_exp : Text → Option ℤ) (callback_url : Text) where
  session_step-Falls :
      (now : ℕ) (c : TokenCache) (r : Broker.Request) (p : Pointer) (s : Session) (pc : Broker.Pc)
      (input : Broker.Input)
      → Broker.points_to pc ≡ some p
      → Falls pc (Broker.session_step unmarshal_exp callback_url now c r p s pc input).2
  unfolding Broker.session_step acquire
  session_step-Falls now c r p s (Broker.waiting _) (Broker.takes arm) e = ground arith
  session_step-Falls now c r p s (Broker.acquired _) Broker.proceeds e = ground arith
  session_step-Falls now c r p s (Broker.discovering _) (Broker.discovered result) e = ground arith
  session_step-Falls now c r p s (Broker.generating _ auth_endpoint token_endpoint scopes)
        (Broker.generated pkce) e =
      ground arith
  session_step-Falls now c r p s (Broker.building _ pkce) (Broker.built url) e = ground arith
  session_step-Falls now c r p s (Broker.publishing _ auth_url) Broker.sends e = ground arith
  session_step-Falls now c r p s (Broker.publishing _ auth_url) Broker.finds_no_room e =
      ground arith
  session_step-Falls now c r p s (Broker.publishing _ auth_url) (Broker.cancelled c') e =
      ground arith
  session_step-Falls now c r p s (Broker.awaiting _) Broker.receives e = ground arith
  session_step-Falls now c r p s (Broker.awaiting _) Broker.times_out e = ground arith
  session_step-Falls now c r p s (Broker.awaiting _) Broker.sees_done e = ground arith
  session_step-Falls now c r p s (Broker.awaiting _) (Broker.cancelled c') e = ground arith
  session_step-Falls now c r p s (Broker.exchanging _ code) (Broker.exchanged result) e =
      ground arith
  session_step-Falls now c r p s (Broker.caching _ token) Broker.proceeds e = ground arith
  session_step-Falls now c r p s (Broker.unblocking _ token) Broker.proceeds e = ground arith
  session_step-Falls now c r p s (Broker.clearing _ token) Broker.proceeds e = ground arith
  session_step-Falls now c r p s (Broker.releasing _ result) Broker.proceeds e = ground arith
  session_step-Falls now c r p s _ _ e = ground arith

  abbrev pub to_pc : ℕ → Broker.Shared → Broker.Request → Broker.Input → Broker.Pc
  to_pc now w r input = (Broker.advance unmarshal_exp callback_url now w r input).1

  advance-Falls :
      (now : ℕ) (w : Broker.Shared) (r : Broker.Request) (input : Broker.Input) (pc : Broker.Pc)
      → r.pc ≡ pc
      → Falls pc (to_pc now w r input)
  unfolding Broker.advance
  advance-Falls now w r input Broker.started e = ground arith
  advance-Falls now w r input Broker.checking e = ground arith
  advance-Falls now w r input Broker.looking_up e = ground arith
  advance-Falls now w r input (Broker.returned result) e = ground arith
  advance-Falls now w r input Broker.crashed e = ground arith
  advance-Falls now w r input pc e = elim (Option-cases (Broker.points_to pc)) [
    | inl f ↦ absurd (ground arith)
    | inr (p, f) ↦ elim (Option-cases (w.manager.heap p)) [
      | inl g ↦ ground arith
      | inr (s, g) ↦
          let same =
            ap (λ (t : Broker.Shared × Broker.Pc). t.1)
              (advance_at unmarshal_exp callback_url now w r input pc p s e f g) in
          rw same (session_step-Falls now w.cache r p s pc input f)
    ]
  ]

  -- A turn of a goroutine: the clock, what is shared at that moment, and what the environment decides.
  abbrev pub Turn : Type 0
  Turn = ℕ × Broker.Shared × Broker.Input

  -- The request after its turns.
  unfoldable pub after_turns : Broker.Request → List Turn → Broker.Request
  after_turns r [] = r
  after_turns r ((now, w, input) ∷ turns) =
      after_turns (record r { pc = to_pc now w r input }) turns

  -- Every turn moves the program counter.
  abbrev pub Moves : Broker.Request → List Turn → Type 0
  Moves r [] = Unit {0}
  Moves r ((now, w, input) ∷ turns) =
      (to_pc now w r input ≢ r.pc) × Moves (record r { pc = to_pc now w r input }) turns

  length-Moves :
      (r : Broker.Request) (turns : List Turn)
      → Moves r turns
      → length turns + moves_left (after_turns r turns).pc ≤ moves_left r.pc
  unfolding after_turns
  length-Moves r [] h = omega arith
  length-Moves r ((now, w, input) ∷ turns) h =
      let rest = length-Moves (record r { pc = to_pc now w r input }) turns h.1 in
      elim (advance-Falls now w r input r.pc refl) [
        | inl same ↦ absurd (h.0 same)
        | inr falls ↦ omega (arith, rest, falls)
      ]

  moves_left-bound : (pc : Broker.Pc) → moves_left pc ≤ 15
  moves_left-bound pc = ground arith

  abbrev Lowers :
      ℕ → TokenCache → Broker.Request → Pointer → Session → Broker.Pc → Broker.Input → Type 0
  Lowers now c r p s pc input =
      moves_left (Broker.session_step unmarshal_exp callback_url now c r p s pc input).2
      < moves_left pc

  -- At every program counter that points to a session there is an input that moves it, the cancellation
  -- of the request or a time-out where it waits.
  session_moves :
      (now : ℕ) (c : TokenCache) (r : Broker.Request) (p : Pointer) (s : Session) (pc : Broker.Pc)
      → Broker.points_to pc ≡ some p
      → (input : Broker.Input) × Lowers now c r p s pc input
  unfolding Broker.session_step acquire
  session_moves now c r p s (Broker.waiting _) e =
      (Broker.takes (AcquireArm.cancelled (message library_error)), ground arith)
  session_moves now c r p s (Broker.acquired _) e = (Broker.proceeds, ground arith)
  session_moves now c r p s (Broker.discovering _) e =
      (Broker.discovered (err (message library_error)), ground arith)
  session_moves now c r p s (Broker.generating _ auth_endpoint token_endpoint scopes) e =
      (Broker.generated none, ground arith)
  session_moves now c r p s (Broker.building _ pkce) e = (Broker.built none, ground arith)
  session_moves now c r p s (Broker.publishing _ auth_url) e =
      (Broker.cancelled (message library_error), ground arith)
  session_moves now c r p s (Broker.awaiting _) e = (Broker.times_out, ground arith)
  session_moves now c r p s (Broker.exchanging _ code) e =
      (Broker.exchanged (err (message library_error)), ground arith)
  session_moves now c r p s (Broker.caching _ token) e = (Broker.proceeds, ground arith)
  session_moves now c r p s (Broker.unblocking _ token) e = (Broker.proceeds, ground arith)
  session_moves now c r p s (Broker.clearing _ token) e = (Broker.proceeds, ground arith)
  session_moves now c r p s (Broker.releasing _ result) e = (Broker.proceeds, ground arith)
  session_moves now c r p s Broker.started e = absurd (ground arith)
  session_moves now c r p s Broker.checking e = absurd (ground arith)
  session_moves now c r p s Broker.looking_up e = absurd (ground arith)
  session_moves now c r p s (Broker.returned result) e = absurd (ground arith)
  session_moves now c r p s Broker.crashed e = absurd (ground arith)

  lower_moves : (pc pc' : Broker.Pc) → moves_left pc' < moves_left pc → pc' ≢ pc
  lower_moves pc pc' h e = absurd (omega (arith, h, ap moves_left e))

  abbrev pub CanMove : ℕ → Broker.Shared → Broker.Request → Type 0
  CanMove now w r = (input : Broker.Input) × (to_pc now w r input ≢ r.pc)

  can_move :
      (now : ℕ) (w : Broker.Shared) (r : Broker.Request) (pc : Broker.Pc)
      → r.pc ≡ pc
      → 0 < moves_left pc
      → CanMove now w r
  unfolding Broker.advance
  can_move now w r Broker.started e h = (Broker.proceeds, λ m. absurd (ground arith))
  can_move now w r Broker.checking e h = (Broker.proceeds, λ m. absurd (ground arith))
  can_move now w r Broker.looking_up e h = (Broker.proceeds, λ m. absurd (ground arith))
  can_move now w r (Broker.returned result) e h = absurd (omega (arith, h))
  can_move now w r Broker.crashed e h = absurd (omega (arith, h))
  can_move now w r pc e h = elim (Option-cases (Broker.points_to pc)) [
    | inl f ↦ absurd (ground arith)
    | inr (p, f) ↦ elim (Option-cases (w.manager.heap p)) [
      | inl g ↦ (Broker.proceeds, λ m. absurd (ground arith))
      | inr (s, g) ↦
          let (input, lowers) = session_moves now w.cache r p s pc f in
          let same =
            ap (λ (t : Broker.Shared × Broker.Pc). t.1)
              (advance_at unmarshal_exp callback_url now w r input pc p s e f g) in
          (
            input,
            λ m.
                lower_moves pc
                  (Broker.session_step unmarshal_exp callback_url now w.cache r p s pc input).2
                  lowers (sym same ∙ m ∙ e),
          )
    ]
  ]

  -- Whatever other goroutines do in between, a call of `AcquireToken` moves its program counter at most 15
  -- times. After any moves it has returned or crashed, or in any shared state there is an input, at the
  -- latest the cancellation of the request or a time-out, that moves it.
  pub acquire_token_terminates :
      (r : Broker.Request) (turns : List Turn)
      → Moves r turns
      → (length turns ≤ 15)
        × ((moves_left (after_turns r turns).pc ≡ 0)
            ⊎ ((now : ℕ) (w : Broker.Shared) → CanMove now w (after_turns r turns)))
  acquire_token_terminates r turns h =
      let last = after_turns r turns in
      (
        omega (arith, length-Moves r turns h, moves_left-bound r.pc),
        elim (Bool-cases (ltb 0 (moves_left last.pc))) [
          | inl more ↦ inr (λ now w. can_move now w last last.pc refl (ground arith))
          | inr over ↦ inl (ground arith)
        ],
      )
