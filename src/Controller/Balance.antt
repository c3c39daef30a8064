-- ===== src/Controller/Balance.antt =====
-- All agents get the same bias, once (src/controller/main.cpp).
use thread_haul_daemon.Base.{ℕ, not, keep_if, ◌≡◌, true, List, All, Real, same}
use thread_haul_daemon.Controller.{Agent}

module _ {D : Type 0} ⦃r : Real D⦄ where
  -- Every agent was told the bias.
  abbrev IsTold : D → List (Agent D) → Type 0
  IsTold bias agents = All (λ a. same a.bias_sent bias ≡ true) agents

  -- The agents that were told another bias last, or none.
  abbrev pub untold : D → List (Agent D) → List (Agent D)
  untold bias agents = keep_if (λ (a : Agent D). not (same a.bias_sent bias)) agents

  -- What of an agent is not the bias that it was told.
  abbrev pub seen_of : Agent D → ℕ × List ℕ × D
  seen_of a = (a.id, a.host, a.pressure)
