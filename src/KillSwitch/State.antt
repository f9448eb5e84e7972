-- ===== src/KillSwitch/State.antt =====
-- The records of python/src/artzain/kill_switch.py. A run id, a user id and a callback are only
-- compared or passed on, so a number stands for each. A clock reading is a number of ticks, and
-- a window in seconds is counted in the same ticks.
use cognexus_tools.Common.{ℕ, String, Bool, Option, List, Dict}

-- `reason` is a text of the caller's, or the text that the auto-panic detector formats.
pub data Reason : Type 0 where
  text : String → Reason
  auto_panic : (trips window : ℕ) → Reason

-- One entry of `matches`, as `ActionScreenResult.to_dict` writes it.
pub record Match : Type 0 where
  pub rule_id : String
  pub severity : String
  pub excerpt : String

pub record KillRecord : Type 0 where
  pub run_id : Option ℕ
  pub user_id : Option ℕ
  pub agent_id : Option String
  pub reason : Reason
  pub severity : String
  pub surface : String
  pub source : String
  pub tripped_at : ℕ
  pub payload_sha256 : Option String
  pub matches : List Match
  pub manual : Bool

-- `AgentKilledError`.
pub record AgentKilledError : Type 0 where
  pub run_id : Option ℕ
  pub reason : Reason
  pub severity : String

-- A call returns, or raises `AgentKilledError`.
pub data Outcome {ℓ} (A : Type ℓ) : Type ℓ where
  returned : A → Outcome A
  raised : AgentKilledError → Outcome A

-- The detector's two settings, each at least 1 (`_env_int`).
pub record Config : Type 0 where
  pub panic_threshold : ℕ
  pub panic_window : ℕ

-- The module's variables, and in `fired` the calls of `on_kill` callbacks so far, oldest first.
pub record State : Type 0 where
  pub recent : List KillRecord
  pub killed_runs : Dict ℕ KillRecord
  pub global_panic : Option KillRecord
  pub default_on_kill : Option ℕ
  pub panic_times : List ℕ
  pub fired : List (ℕ × KillRecord)

-- What the clocks read during one call: the wall clock and the monotonic clock.
pub record Reading : Type 0 where
  pub wall : ℕ
  pub monotonic : ℕ

-- The arguments of `trip`.
pub record Trip : Type 0 where
  pub run_id : Option ℕ
  pub reason : Reason
  pub severity : String
  pub user_id : Option ℕ
  pub agent_id : Option String
  pub surface : String
  pub source : String
  pub payload_sha256 : Option String
  pub matches : List Match
  pub manual : Bool
  pub raise_after_trip : Bool
  pub on_kill : Option ℕ

-- The part of `ActionScreenResult` that the kill switch reads. `destructive` is its property
-- `is_destructive`.
pub record ScreenResult : Type 0 where
  pub severity : String
  pub destructive : Bool
  pub explanation : String
  pub payload_sha256 : String
  pub matches : List Match
