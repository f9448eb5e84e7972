-- ===== src/KillSwitch/Tests.antt =====
-- Runs of the kill switch, and its theorems at concrete inputs.
use cognexus_tools.Common.{
  or_else, ℕ, ◌≤◌, ◌≡◌, refl, String, true, false, none, some, [], ◌∷◌, ◌++◌, arith, is_some, leb,
  codes, ◌⊎◌,
}
use cognexus_tools.KillSwitch.State.{
  text, AgentKilledError, Config, State, Reading, Trip, ScreenResult, raised, returned,
}
use cognexus_tools.KillSwitch.Operations.{
  trip, trip_state, record_trip, auto_panic_check, is_killed, kill_record, raise_if_killed, loaded,
  is_critical, screen_agent_action, window_cap, in_window, kill_record_of, is_global_panic_active,
}
use cognexus_tools.KillSwitch.History.{trips, clears_global, clears_run, run}
use cognexus_tools.KillSwitch.Flags.{
  told, own_record, is_killed_iff, run-trip-is_killed, screen_agent_action_branches,
}
use cognexus_tools.KillSwitch.Panic.{trip-refines-history}
use cognexus_tools.KillSwitch.Window.{last_of}
use cognexus_tools.KillSwitch.Callbacks.{trip-fired, reports}
use cognexus_tools.KillSwitch.Settings.{settings, settings_pos}

abbrev cfg : Config
cfg = record { panic_threshold = 2; panic_window = 60 }

abbrev at : ℕ → Reading
at n = record { wall = n; monotonic = n }

abbrev call : ℕ → Trip
call j = record {
  run_id = some j;
  reason = text "drop table";
  severity = "critical";
  user_id = none;
  agent_id = none;
  surface = "agent_action";
  source = "internal";
  payload_sha256 = none;
  matches = [];
  manual = false;
  raise_after_trip = true;
  on_kill = none;
}

abbrev once : State
once = record loaded { default_on_kill = some 9; panic_times = 10 ∷ [] }

-- A verdict that is critical for one payload only.
abbrev screen : String → String → ScreenResult
screen payload source = record {
  severity = "critical";
  destructive = true;
  explanation = "drop";
  payload_sha256 = "";
  matches = [];
}

-- Two critical trips in a window of sixty ticks set the global panic; at a distance they do not.
two_trips :
    (is_global_panic_active (trip cfg (call 7) (at 20) once).1 ≡ true)
    × (is_global_panic_active (trip cfg (call 7) (at 99) once).1 ≡ false)
unfolding trip trip_state record_trip auto_panic_check is_global_panic_active
two_trips = (refl, refl)

-- A run killed at 12, under a panic from 15.
abbrev doomed : State
doomed = record once {
  global_panic = some (kill_record_of (call 8) (at 15));
  killed_runs = (7, kill_record_of (call 7) (at 12)) ∷ [];
}

is_killed_iff_example :
    (is_killed (some 7) doomed ≡ is_some (kill_record (some 7) doomed))
    × (is_killed (some 7) doomed ≡ is_some (raise_if_killed (some 7) doomed))
    × (raise_if_killed (some 7) doomed
        ≡ told (some 7) doomed.global_panic (own_record (some 7) doomed.killed_runs))
    × (kill_record (some 7) doomed
        ≡ or_else (own_record (some 7) doomed.killed_runs) doomed.global_panic)
is_killed_iff_example = is_killed_iff (some 7) doomed

run-trip-is_killed_example :
    is_killed (some 7) (
      run cfg screen
        ((at 30, clears_global) ∷ (at 31, clears_run 8) ∷ (at 32, trips (call 7)) ∷ [])
        (trip cfg (call 7) (at 20) once).1)
    ≡ true
run-trip-is_killed_example =
    run-trip-is_killed cfg screen 7 (call 7) (at 20) once
      ((at 30, clears_global) ∷ (at 31, clears_run 8) ∷ (at 32, trips (call 7)) ∷ []) refl
      (tt, (λ e. absurd (omega arith), (tt, tt)))

screen_agent_action_branches_example :
    let (out, s') =
      screen_agent_action cfg screen "DROP TABLE t"
        (some 7)
        none
        none
        "sql"
        true
        none
        (at 20)
        once in
    let result = screen "DROP TABLE t" "sql" in
    ((is_killed (some 7) once ≡ true)
      × (s' ≡ once)
      × ((e : AgentKilledError) × (raise_if_killed (some 7) once ≡ some e) × (out ≡ raised e)))
    ⊎ ((is_killed (some 7) once ≡ false)
        × (is_critical result.severity ≡ true)
        × (is_killed (some 7) s' ≡ true)
        × (out
            ≡ raised (record {
              run_id = some 7;
              reason = text result.explanation;
              severity = "critical";
            })))
    ⊎ ((is_killed (some 7) once ≡ false)
        × (is_critical result.severity ≡ false)
        × (s' ≡ once)
        × (out ≡ returned result))
screen_agent_action_branches_example =
    screen_agent_action_branches cfg screen "DROP TABLE t" 7 none none "sql" true none (at 20) once

trip-refines-history_example :
    let s' = (trip cfg (call 7) (at 20) once).1 in
    (s'.panic_times ≡ last_of (window_cap cfg) (10 ∷ 20 ∷ []))
    × (is_some s'.global_panic ≡ leb 2 (in_window cfg 20 (10 ∷ 20 ∷ [])))
trip-refines-history_example =
    trip-refines-history cfg (call 7) (at 20) once (10 ∷ []) refl (omega arith, tt, tt)

trip-fired_example :
    let s' = (trip cfg (call 7) (at 20) once).1 in
    s'.fired
    ≡ ([] ++ reports (some 9) (some (kill_record_of (call 7) (at 20))))
      ++ reports (some 9) s'.global_panic
trip-fired_example = trip-fired cfg (call 7) (at 20) once

settings_pos_example :
    (1 ≤ (settings (some (codes "0")) none 1000).panic_threshold)
    × (1000 ≤ (settings (some (codes "0")) none 1000).panic_window)
settings_pos_example = settings_pos (some (codes "0")) none 1000
