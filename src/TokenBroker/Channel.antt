-- ===== src/TokenBroker/Channel.antt =====
-- Go's buffered channels as the broker uses them: a `select` with a `default` arm makes a send that
-- does not block, and `close` ends a channel. A send on a closed channel and a second `close` panic.
use kagenti_operator.Prelude.{
  ◌≡◌, ◌⊎◌, inl, inr, refl, ℕ, Bool, List, [], ◌∷◌, ◌++◌, ltb, if◌then◌else◌, length,
}

-- Whether a channel was closed. One that carries nothing but its closing is its `Signal`.
pub data Signal : Type 0 where
  opened closed panicked : Signal

pub Signal-cases : (s : Signal) → (s ≡ opened) ⊎ (s ≡ closed) ⊎ (s ≡ panicked)
Signal-cases opened = inl refl
Signal-cases closed = inr (inl refl)
Signal-cases panicked = inr (inr refl)

abbrev pub close_signal : Signal → Signal
close_signal opened = closed
close_signal closed = panicked
close_signal panicked = panicked

pub record Channel {ℓ} (A : Type ℓ) : Type ℓ where
  pub capacity : ℕ
  pub buffer : List A
  pub signal : Signal

module _ {ℓ} {A : Type ℓ} where
  abbrev pub make_channel : ℕ → Channel A
  make_channel capacity = record { capacity = capacity; buffer = []; signal = opened }

  -- Whether a send can be made at once.
  abbrev pub has_room : Channel A → Bool
  has_room ch = ltb (length ch.buffer) ch.capacity

  -- select { case ch <- v: default: }
  abbrev pub try_send : Channel A → A → Channel A
  try_send ch v = elim ch.signal [
    | opened ↦ if has_room ch then record ch { buffer = ch.buffer ++ v ∷ [] } else ch
    | _ ↦ record ch { signal = panicked }
  ]

  abbrev pub close_channel : Channel A → Channel A
  close_channel ch = record ch { signal = close_signal ch.signal }
