-- ===== src/TokenBroker/Discovery/Failures.antt =====
-- The errors of oauth/discovery.go and of `ExchangeToken` (oauth/client.go), as core/broker.go passes
-- them on and api/handlers.go answers them.
use kagenti_operator.GoMap
use kagenti_operator.TokenBroker.Errors.{Result, ok, err}
use kagenti_operator.TokenBroker.Session.{Session}
use kagenti_operator.TokenBroker.Broker
use kagenti_operator.TokenBroker.Handlers.Answers.{IsForeign}

-- A result whose error, if it is one, is none of the broker's own.
abbrev FailsForeign {ℓ} : {A : Type ℓ} → Result A → Type 0
FailsForeign (ok a) = Unit {0}
FailsForeign (err e) = IsForeign e
