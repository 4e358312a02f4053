-- ===== src/Agent/Supervisor.antt =====
-- aqap/agent/supervisor.py. An agent object is given by its `start` and `stop`, which change the
-- world `W` and may raise. Times are whole units of the clock.
pub mod Health
pub mod Monitor
use aqap.Prelude.{
  ℕ, ◌+◌, ◌-◌, String, Bool, true, false, not, Option, none, some, List, [], ◌∷◌, ◌++◌,
  if◌then◌else◌, ltb, Dict, get, has, put, length, Result, ok, err, Exec,
}

pub record Member (W : Type 0) : Type 0 where
  pub start : Exec W (Unit {0})
  pub stop : Exec W (Unit {0})

pub record Supervisor (W : Type 0) : Type 0 where
  pub agents : Dict (Member W)
  pub heartbeat_timeout : ℕ
  pub last_heartbeat : Dict ℕ
  pub running : Bool
  -- the order in which the process goes through the texts of a set
  pub set_order : List String → List String

pub data Status : Type 0 where
  unknown : Status
  stale : ℕ → ℕ → Status
  healthy : ℕ → Status

unfoldable pub keys_of : {V : Type 0} → Dict V → List String
keys_of [] = []
keys_of ((k, v) ∷ d) = k ∷ keys_of d

-- the keys of the second dict that the first does not have
unfoldable pub new_keys : {V : Type 0} → Dict V → List String → List String
new_keys d [] = []
new_keys d (k ∷ ks) = if has k d then new_keys d ks else k ∷ new_keys d ks

-- one pass of the loop in `health_check`
unfoldable pub status_of : ℕ → ℕ → Option ℕ → Status
status_of now timeout none = unknown
status_of now timeout (some beat) =
    if ltb (beat + timeout) now then stale beat (now - beat) else healthy (now - beat)

-- `except Exception`: the world is as the call left it
abbrev ignoring : {W : Type 0} → Exec W (Unit {0}) → W → W
ignoring m w = (m w).1

abbrev pub is_stale : Status → Bool
is_stale (stale beat elapsed) = true
is_stale _ = false

module _ {W : Type 0} where
  unfoldable pub register : String → Member W → Supervisor W → Supervisor W
  register agent_id a s = record s { agents = put agent_id a s.agents }

  unfoldable pub record_heartbeat : String → ℕ → Supervisor W → Supervisor W
  record_heartbeat agent_id now s = record s { last_heartbeat = put agent_id now s.last_heartbeat }

  unfoldable start_each : Dict (Member W) → W → W
  start_each [] w = w
  start_each ((agent_id, a) ∷ rest) w = start_each rest (ignoring a.start w)

  unfoldable pub start_all : Supervisor W → W → Supervisor W × W
  unfolding start_each
  start_all s w = (record s { running = true }, start_each s.agents w)

  unfoldable stop_each : Dict (Member W) → W → W
  stop_each [] w = w
  stop_each ((agent_id, a) ∷ rest) w = stop_each rest (ignoring a.stop w)

  unfoldable pub stop_all : Supervisor W → W → Supervisor W × W
  unfolding stop_each
  stop_all s w = (record s { running = false }, stop_each s.agents w)

  unfoldable pub restart_agent : String → Supervisor W → W → W
  restart_agent agent_id s w = elim (get agent_id s.agents) [
    | none ↦ w
    | some a ↦ ignoring a.start (ignoring a.stop w)
  ]

  -- the members of the set of identifiers, each once
  unfoldable pub all_ids : Supervisor W → List String
  unfolding keys_of new_keys
  all_ids s = keys_of s.agents ++ new_keys s.agents (keys_of s.last_heartbeat)

  unfoldable pub statuses : ℕ → Supervisor W → List String → Dict Status
  unfolding status_of
  statuses now s [] = []
  statuses now s (k ∷ ks) =
      (k, status_of now s.heartbeat_timeout (get k s.last_heartbeat)) ∷ statuses now s ks

  unfoldable pub health_check : ℕ → Supervisor W → Dict Status × ℕ
  unfolding statuses all_ids
  health_check now s = (statuses now s (s.set_order (all_ids s)), length (all_ids s))

  -- the second loop of a round of `_monitor_loop`
  unfoldable pub restart_stale : Dict Status → Supervisor W → W → W
  unfolding restart_agent
  restart_stale [] s w = w
  restart_stale ((agent_id, status) ∷ rest) s w =
      restart_stale rest s (if is_stale status then restart_agent agent_id s w else w)

  unfoldable pub monitor_round : ℕ → Supervisor W → W → W
  unfolding restart_stale health_check
  monitor_round now s w = restart_stale (health_check now s).0 s w
