-- ===== src/KillSwitch/History.antt =====
-- A history of calls of the kill switch, one after the other as its locks order them.
use cognexus_tools.Common.{ℕ, String, Bool, Option, List, [], ◌∷◌}
use cognexus_tools.KillSwitch.State.{Reason, Config, State, Reading, Trip, ScreenResult}
use cognexus_tools.KillSwitch.Operations.{
  set_default_on_kill, trip, trip_global, clear_global_panic, clear_run, screen_agent_action,
}

pub data Call : Type 0 where
  trips : Trip → Call
  trips_global : (reason : Reason) (source : String) (manual : Bool) (on_kill : Option ℕ) → Call
  clears_global : Call
  clears_run : ℕ → Call
  sets_default : Option ℕ → Call
  screens :
      (payload : String) (run user : Option ℕ) (agent : Option String) (source : String)
      (raise_on_critical : Bool) (on_kill : Option ℕ)
      → Call

module _ (cfg : Config) (screen : String → String → ScreenResult) where
  -- The state after a call, returned from or raised out of.
  unfoldable pub step : Reading × Call → State → State
  step (t, trips c) s = (trip cfg c t s).1
  step (t, trips_global reason source manual on_kill) s =
      (trip_global reason source manual on_kill t s).1
  step (t, clears_global) s = (clear_global_panic s).1
  step (t, clears_run run) s = (clear_run run s).1
  step (t, sets_default callback) s = set_default_on_kill callback s
  step (t, screens payload run user agent source raise_on_critical on_kill) s =
      (screen_agent_action cfg screen payload run user agent source raise_on_critical on_kill t s).1

  unfoldable pub run : List (Reading × Call) → State → State
  run [] s = s
  run (c ∷ cs) s = run cs (step c s)
