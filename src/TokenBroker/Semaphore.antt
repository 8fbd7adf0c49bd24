-- ===== src/TokenBroker/Semaphore.antt =====
-- token-broker/internal/session/semaphore.go. The channel of empty structs is the number of values in
-- it. `Acquire` blocks: it is the pair of its two arms, and who calls it chooses one that is ready.
use kagenti_operator.Prelude.{
  ℕ, ◌+◌, ◌-◌, ◌≤◌, Bool, true, false, Option, none, some, ltb, if◌then◌else◌,
}
use kagenti_operator.TokenBroker.Errors.{
  Error, Result, ok, err, wrap, semaphore_acquisition_cancelled,
}

pub record SimpleSemaphore : Type 0 where
  pub capacity : ℕ
  pub held : ℕ

abbrev pub new_semaphore : ℕ → SimpleSemaphore
new_semaphore capacity = record { capacity = capacity; held = 0 }

-- The arm of `Acquire` that the environment lets run.
pub data AcquireArm : Type 0 where
  sent : AcquireArm
  cancelled : Error → AcquireArm

-- `none` while the chosen arm is not ready: the send waits for room, and the call goes on blocking.
unfoldable pub acquire : SimpleSemaphore → AcquireArm → Option (SimpleSemaphore × Result (Unit {0}))
acquire s sent =
    if ltb s.held s.capacity then some (record s { held = s.held + 1 }, ok tt) else none
acquire s (cancelled e) = some (s, err (wrap semaphore_acquisition_cancelled e))

unfoldable pub release : SimpleSemaphore → SimpleSemaphore
release s = if ltb 0 s.held then record s { held = s.held - 1 } else s

unfoldable pub try_acquire : SimpleSemaphore → SimpleSemaphore × Bool
try_acquire s = if ltb s.held s.capacity then (record s { held = s.held + 1 }, true) else (s, false)

abbrev pub WithinCapacity : SimpleSemaphore → Type 0
WithinCapacity s = s.held ≤ s.capacity
