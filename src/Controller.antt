-- ===== src/Controller.antt =====
-- src/controller/main.cpp: the failed handshakes of an address, the table of agents, and the bias that
-- all agents get when enough of them are hot. A time is what `GetTickCount64` returns.
pub mod Lockout
pub mod Balance
use thread_haul_daemon.Base.{
  ℕ, suc, ◌+◌, ◌-◌, Bool, true, false, not, ◌&&◌, List, [], ◌∷◌, ◌++◌, Option, none, some, ◌==◌,
  leb, ltb, if◌then◌else◌, length, eq_text, Real, ge, same,
}
use thread_haul_daemon.Telemetry.Adaptive.{Arithmetic}

-- An entry of `g_failures`: how many, and since when.
pub record Failures : Type 0 where
  pub count : ℕ
  pub since : ℕ

unfoldable pub find_failures : List ℕ → List (List ℕ × Failures) → Option Failures
find_failures peer [] = none
find_failures peer ((p, f) ∷ rest) = if eq_text p peer then some f else find_failures peer rest

-- `operator[]` and an assignment
unfoldable pub put_failures :
    List ℕ → Failures → List (List ℕ × Failures) → List (List ℕ × Failures)
put_failures peer f [] = (peer, f) ∷ []
put_failures peer f ((p, g) ∷ rest) =
    if eq_text p peer then (p, f) ∷ rest else (p, g) ∷ put_failures peer f rest

unfoldable pub erase_failures : List ℕ → List (List ℕ × Failures) → List (List ℕ × Failures)
erase_failures peer [] = []
erase_failures peer ((p, g) ∷ rest) =
    if eq_text p peer then rest else (p, g) ∷ erase_failures peer rest

-- Has the window of the entry passed?
abbrev pub is_old : ℕ → Failures → Bool
is_old now f = ltb 60000 (now - f.since)

abbrev pub judged_found :
    ℕ → List ℕ → List (List ℕ × Failures) → Option Failures → Bool × List (List ℕ × Failures)
judged_found now peer fs none = (false, fs)
judged_found now peer fs (some f) =
    if is_old now f then (false, erase_failures peer fs) else (leb 5 f.count, fs)

-- `LockedOut`: the answer and the table after it.
unfoldable pub locked_out : ℕ → List ℕ → List (List ℕ × Failures) → Bool × List (List ℕ × Failures)
unfolding find_failures erase_failures
locked_out now peer fs = judged_found now peer fs (find_failures peer fs)

-- The entry that `operator[]` finds or makes.
abbrev pub entry_of : Option Failures → Failures
entry_of none = record { count = 0; since = 0 }
entry_of (some f) = f

-- One more failure; a new window starts where the old one has passed.
abbrev pub failed_at : ℕ → Failures → Failures
failed_at now f =
    let g : Failures = if is_old now f then record { count = 0; since = now } else f in
    record g { count = g.count + 1 }

-- `RecordFailure`, with one reading of the clock.
unfoldable pub record_failure : ℕ → List ℕ → List (List ℕ × Failures) → List (List ℕ × Failures)
unfolding find_failures put_failures
record_failure now peer fs = put_failures peer (failed_at now (entry_of (find_failures peer fs))) fs

-- `id` tells the objects apart; `pressure` is that of the last heartbeat, 0.0 without one.
pub record Agent (D : Type 0) : Type 0 where
  pub id : ℕ
  pub host : List ℕ
  pub pressure : D
  pub bias_sent : D

-- `g_pressureThreshold`, `g_clusterPercent` and `g_bias`
pub record Policy (D : Type 0) : Type 0 where
  pub threshold : D
  pub cluster_percent : D
  pub bias : D

-- A bias message and the agent it goes to.
pub record Sent (D : Type 0) : Type 0 where
  pub to_ : List ℕ
  pub offset : D

pub record Balanced (D : Type 0) : Type 0 where
  pub agents : List (Agent D)
  pub sent : List (Sent D)

module _ {D : Type 0} ⦃r : Real D⦄ where
  unfoldable pub count_hot : D → List (Agent D) → ℕ
  count_hot threshold [] = 0
  count_hot threshold (a ∷ as_) =
      let n = count_hot threshold as_ in if ge a.pressure threshold then n + 1 else n

  -- The loop that tells the agents.
  unfoldable pub tell_all : D → List (Agent D) → Balanced D
  tell_all bias [] = record { agents = []; sent = [] }
  tell_all bias (a ∷ as_) =
      let rest = tell_all bias as_ in
      let told : Agent D = record a { bias_sent = bias } in
      if same a.bias_sent bias then record rest { agents = a ∷ rest.agents } else record {
        agents = told ∷ rest.agents;
        sent = record { to_ = a.host; offset = bias } ∷ rest.sent;
      }

module _ {D : Type 0} ⦃r : Real D⦄ (ar : Arithmetic D) where
  -- The bias for the agents as they are.
  unfoldable pub wanted_bias : Policy D → List (Agent D) → D
  unfolding count_hot
  wanted_bias policy agents =
      let hot = ar.nat (count_hot policy.threshold agents) in
      let hot_percent = ar.over (ar.times (ar.nat 100) hot) (ar.nat (length agents)) in
      if ge hot_percent policy.cluster_percent then policy.bias else ar.nat 0

  -- `Rebalance`
  unfoldable pub rebalance : Policy D → List (Agent D) → Balanced D
  unfolding wanted_bias tell_all
  rebalance policy [] = record { agents = []; sent = [] }
  rebalance policy (a ∷ as_) = tell_all (wanted_bias policy (a ∷ as_)) (a ∷ as_)

module _ {D : Type 0} where
  -- `g_agents[host] = agent`
  unfoldable pub register : Agent D → List (Agent D) → List (Agent D)
  register a [] = a ∷ []
  register a (b ∷ bs) = if eq_text b.host a.host then a ∷ bs else b ∷ register a bs

  -- The erasure when a connection ends: only if the entry is still this agent.
  unfoldable pub unregister : List ℕ → ℕ → List (Agent D) → List (Agent D)
  unregister host id [] = []
  unregister host id (b ∷ bs) =
      if eq_text b.host host then if b.id == id then bs else b ∷ bs else b ∷ unregister host id bs

  -- The last heartbeat of an agent; one that is no longer in the table is not seen by the others.
  unfoldable pub heard : ℕ → D → List (Agent D) → List (Agent D)
  heard id pressure [] = []
  heard id pressure (b ∷ bs) =
      (if b.id == id then record b { pressure = pressure } else b) ∷ heard id pressure bs

-- What happens on the connections.
pub data Message (D : Type 0) : Type 0 where
  -- the handshake succeeded, under a new object
  connected : ℕ → List ℕ → Message D
  heartbeat : ℕ → D → Message D
  disconnected : ℕ → List ℕ → Message D

module _ {D : Type 0} ⦃r : Real D⦄ (ar : Arithmetic D) (policy : Policy D) where
  -- The parts of `ServeAgent`; a new agent has had no bias and is not balanced yet.
  unfoldable pub receive_message : Message D → List (Agent D) → Balanced D
  unfolding rebalance register unregister heard
  receive_message (connected id host) agents =
      let fresh : Agent D = record {
        id = id;
        host = host;
        pressure = ar.nat 0;
        bias_sent = ar.nat 0;
      } in
      record { agents = register fresh agents; sent = [] }
  receive_message (heartbeat id pressure) agents = rebalance ar policy (heard id pressure agents)
  receive_message (disconnected id host) agents = rebalance ar policy (unregister host id agents)
