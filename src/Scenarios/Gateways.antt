-- ===== src/Scenarios/Gateways.antt =====
-- Commands that the gateway sends, and signals that reach the optimizer.
use adaptive_advertisement.Common.{true, some, [], ◌∷◌}
use adaptive_advertisement.Decision.Gateway.{Gateway, Network, Payload, freezing}

abbrev pub network : Network
network = record { uuid = λ n. "fresh"; iter_errors = λ c. []; delivers = λ ws. true }

abbrev pub gateway : Gateway
gateway = record { connections = 7 ∷ 8 ∷ []; sequence = 3 }

abbrev hold_still : Payload
hold_still = freezing (some "cv_degraded")
