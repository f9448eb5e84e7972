-- ===== src/KillSwitch/Callbacks.antt =====
-- Which callbacks a trip makes.
use mathlib.Core.List.{append-nil}
use cognexus_tools.Common.{
  Dict, contains, nat_key, ℕ, ◌≡◌, refl, Option, none, some, List, [], ◌∷◌, ◌++◌, arith,
  if◌then◌else◌, is_none, or_else,
}
use cognexus_tools.KillSwitch.State.{KillRecord, Config, State, Reading, Trip}
use cognexus_tools.KillSwitch.Operations.{
  kill_record_of, record_trip, auto_panic_check, trip_state, trip, first_trip,
}
use cognexus_tools.KillSwitch.History.{run}

-- The call that reports a record, if a callback is set and there is a record.
abbrev pub reports : Option ℕ → Option KillRecord → List (ℕ × KillRecord)
reports (some callback) (some r) = (callback, r) ∷ []
reports (some callback) none = []
reports none r = []

-- The record that a trip reports: none for a run with a mark from before.
abbrev pub newly_killed : Option ℕ → Dict ℕ KillRecord → KillRecord → Option KillRecord
newly_killed none marks r = some r
newly_killed (some run) marks r = if contains run marks then none else some r

newly_killed-first_trip :
    (run : Option ℕ) (s : State) (r : KillRecord)
    → (if first_trip run s then some r else none) ≡ newly_killed run s.killed_runs r
newly_killed-first_trip none s r = refl
newly_killed-first_trip (some run) s r = ground arith

record_trip-fired :
    (c : Trip) (t : Reading) (s : State)
    → ((record_trip c t s).fired
        ≡ s.fired
          ++ reports
              (or_else c.on_kill s.default_on_kill)
              (if first_trip c.run_id s then some (kill_record_of c t) else none))
      × ((record_trip c t s).global_panic ≡ s.global_panic)
      × ((record_trip c t s).default_on_kill ≡ s.default_on_kill)
unfolding record_trip
record_trip-fired c t s = ground (arith, append-nil s.fired)

auto_panic_check-fired :
    (cfg : Config) (on_kill : Option ℕ) (t : Reading) (s : State)
    → let s' = auto_panic_check cfg on_kill t s in
      s'.fired
      ≡ s.fired
        ++ reports
            (or_else on_kill s.default_on_kill)
            (if is_none s.global_panic then s'.global_panic else none)
unfolding auto_panic_check
auto_panic_check-fired cfg on_kill t s = ground (arith, append-nil s.fired)

-- A trip calls back once for a run that has no mark from before, or for no run, and not at all for
-- one that has; and once more, with the panic's record, when the trip sets the global panic.
-- The trip's own callback takes the place of the default one.
pub trip-fired :
    (cfg : Config) (c : Trip) (t : Reading) (s : State)
    → let s' = (trip cfg c t s).1 in
      let target = or_else c.on_kill s.default_on_kill in
      s'.fired
      ≡ (s.fired ++ reports target (newly_killed c.run_id s.killed_runs (kill_record_of c t)))
        ++ reports target (if is_none s.global_panic then s'.global_panic else none)
unfolding trip trip_state
trip-fired cfg c t s = ground (
  arith,
  record_trip-fired c t s,
  newly_killed-first_trip c.run_id s (kill_record_of c t),
  auto_panic_check-fired cfg c.on_kill t (record_trip c t s),
  append-nil (record_trip c t s).fired,
)
