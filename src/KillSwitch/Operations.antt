-- ===== src/KillSwitch/Operations.antt =====
-- The operations of python/src/artzain/kill_switch.py, each a function of the module's state.
use cognexus_tools.Common.{
  ℕ, ◌-◌, ◌*◌, String, Bool, true, false, not, ◌&&◌, Option, none, some, List, [], ◌∷◌, ◌++◌,
  reverse, max, min, leb, if◌then◌else◌, is_some, is_none, or_else, take, push, count, lookup,
  contains, insert, erase, ◌==◌, string_key, nat_key,
}
use cognexus_tools.KillSwitch.State.{
  Reason, text, auto_panic, KillRecord, AgentKilledError, Outcome, returned, raised, Config, State,
  Reading, Trip, ScreenResult,
}

abbrev pub is_critical : String → Bool
is_critical severity = severity == "critical"

-- `deque(maxlen=200)`.
abbrev pub recent_cap : ℕ
recent_cap = 200

-- `deque(maxlen=max(1, _PANIC_THRESHOLD * 4))`.
abbrev pub window_cap : Config → ℕ
window_cap cfg = max 1 (cfg.panic_threshold * 4)

-- `set_default_on_kill`.
unfoldable pub set_default_on_kill : Option ℕ → State → State
set_default_on_kill callback s = record s { default_on_kill = callback }

-- `_fire_on_kill`. What a callback raises is caught, so the call itself is all that is left of it.
abbrev pub fire_on_kill : KillRecord → Option ℕ → State → State
fire_on_kill r override s = elim (or_else override s.default_on_kill) [
  | none ↦ s
  | some callback ↦ record s { fired = s.fired ++ (callback, r) ∷ [] }
]

abbrev note_recent : KillRecord → State → State
note_recent r s = record s { recent = push recent_cap r s.recent }

-- `_global_panic_record`.
abbrev pub global_panic_record : Reason → String → Bool → Reading → KillRecord
global_panic_record reason source manual t = record {
  run_id = none;
  user_id = none;
  agent_id = none;
  reason = reason;
  severity = "critical";
  surface = "global_panic";
  source = source;
  tripped_at = t.wall;
  payload_sha256 = none;
  matches = [];
  manual = manual;
}

-- `_announce_global_panic`, less its log line.
abbrev pub announce_global_panic : KillRecord → Option ℕ → State → State
announce_global_panic r on_kill s = fire_on_kill r on_kill (note_recent r s)

-- The record that `trip` makes.
abbrev pub kill_record_of : Trip → Reading → KillRecord
kill_record_of c t = record {
  run_id = c.run_id;
  user_id = c.user_id;
  agent_id = c.agent_id;
  reason = c.reason;
  severity = c.severity;
  surface = c.surface;
  source = c.source;
  tripped_at = t.wall;
  payload_sha256 = c.payload_sha256;
  matches = c.matches;
  manual = c.manual;
}

-- The entry under `_killed_lock`; a trip with no run id marks none.
abbrev mark_killed : Option ℕ → KillRecord → State → State
mark_killed none r s = s
mark_killed (some run) r s = record s { killed_runs = insert run r s.killed_runs }

abbrev pub first_trip : Option ℕ → State → Bool
first_trip none s = true
first_trip (some run) s = not (contains run s.killed_runs)

-- How many of the times lie within the window that ends now.
abbrev pub in_window : Config → ℕ → List ℕ → ℕ
in_window cfg now = count (λ ts. leb (now - ts) cfg.panic_window)

-- The state and the record of the trip, up to the callback.
unfoldable pub record_trip : Trip → Reading → State → State
record_trip c t s =
    let r = kill_record_of c t in
    let marked = note_recent r (mark_killed c.run_id r s) in
    if first_trip c.run_id s then fire_on_kill r c.on_kill marked else marked

-- The auto-panic detector at the end of `trip`, for a critical trip that is not manual.
unfoldable pub auto_panic_check : Config → Option ℕ → Reading → State → State
auto_panic_check cfg on_kill t s =
    let times = push (window_cap cfg) t.monotonic s.panic_times in
    let trips = in_window cfg t.monotonic times in
    let r =
      global_panic_record (auto_panic trips cfg.panic_window) "kill_switch.auto_panic" false t in
    let counted = record s { panic_times = times } in
    if leb cfg.panic_threshold trips && is_none s.global_panic
    then announce_global_panic r on_kill (record counted { global_panic = some r })
    else counted

-- The state that `trip` leaves.
unfoldable pub trip_state : Config → Trip → Reading → State → State
trip_state cfg c t s =
    if is_critical c.severity && not c.manual
    then auto_panic_check cfg c.on_kill t (record_trip c t s)
    else record_trip c t s

-- `trip`.
unfoldable pub trip : Config → Trip → Reading → State → Outcome KillRecord × State
trip cfg c t s = (
  if c.raise_after_trip
      then raised (record { run_id = c.run_id; reason = c.reason; severity = c.severity })
      else returned (kill_record_of c t),
  trip_state cfg c t s,
)

-- `trip_global`.
unfoldable pub trip_global :
    Reason → String → Bool → Option ℕ → Reading → State → KillRecord × State
trip_global reason source manual on_kill t s =
    let r = global_panic_record reason source manual t in
    (r, announce_global_panic r on_kill (record s { global_panic = some r }))

-- `clear_global_panic`.
unfoldable pub clear_global_panic : State → Bool × State
clear_global_panic s = (is_some s.global_panic, record s { global_panic = none })

-- `clear_run`.
unfoldable pub clear_run : ℕ → State → Bool × State
clear_run run s = (contains run s.killed_runs, record s { killed_runs = erase run s.killed_runs })

-- The lookup under an optional run id, which finds nothing without one.
abbrev pub run_record : Option ℕ → State → Option KillRecord
run_record none s = none
run_record (some run) s = lookup run s.killed_runs

-- `is_killed`.
unfoldable pub is_killed : Option ℕ → State → Bool
is_killed run s = if is_some s.global_panic then true else is_some (run_record run s)

-- `kill_record`.
unfoldable pub kill_record : Option ℕ → State → Option KillRecord
kill_record none s = s.global_panic
kill_record (some run) s = or_else (lookup run s.killed_runs) s.global_panic

-- `raise_if_killed`: the error it raises, if it raises one.
unfoldable pub raise_if_killed : Option ℕ → State → Option AgentKilledError
raise_if_killed run s = elim (or_else s.global_panic (run_record run s)) [
  | none ↦ none
  | some r ↦ some (record { run_id = run; reason = r.reason; severity = r.severity })
]

-- `recent_activations`: newest first, and at least one when there is one.
unfoldable pub recent_activations : ℕ → State → List KillRecord
recent_activations limit s = take (max 1 (min limit recent_cap)) (reverse s.recent)

-- `is_global_panic_active`.
unfoldable pub is_global_panic_active : State → Bool
is_global_panic_active s = is_some s.global_panic

-- The `trip` that `screen_agent_action` makes of a critical result.
abbrev pub screened_trip :
    Option ℕ → Option ℕ → Option String → String → Option ℕ → ScreenResult → Trip
screened_trip run user agent source on_kill result = record {
  run_id = run;
  reason = text result.explanation;
  severity = "critical";
  user_id = user;
  agent_id = agent;
  surface = "agent_action";
  source = source;
  payload_sha256 = some result.payload_sha256;
  matches = result.matches;
  manual = false;
  raise_after_trip = false;
  on_kill = on_kill;
}

-- `screen_agent_action`, for a guard `screen`. The events it mirrors to the cloud are left out:
-- what sending them raises is caught, and nothing here reads them.
unfoldable pub screen_agent_action :
    Config
    → (String → String → ScreenResult)
    → (payload : String) (run user : Option ℕ) (agent : Option String) (source : String)
    → (raise_on_critical : Bool) (on_kill : Option ℕ) → Reading
    → State
    → Outcome ScreenResult × State
screen_agent_action cfg screen payload run user agent source raise_on_critical on_kill t s =
    elim (raise_if_killed run s) [
      | some e ↦ (raised e, s)
      | none ↦
          let result = screen payload source in
          let call = screened_trip run user agent source on_kill result in
          if is_critical result.severity
          then (
            if raise_on_critical
                then raised (record {
                  run_id = run;
                  reason = text result.explanation;
                  severity = "critical";
                })
                else returned result,
            (trip cfg call t s).1,
          )
          else (returned result, s)
    ]

-- `_reset_for_tests`, and the state when the module is loaded. The calls made stay made.
abbrev pub reset : State → State
reset s = record s {
  recent = [];
  killed_runs = [];
  global_panic = none;
  default_on_kill = none;
  panic_times = [];
}

abbrev pub loaded : State
loaded = record {
  recent = [];
  killed_runs = [];
  global_panic = none;
  default_on_kill = none;
  panic_times = [];
  fired = [];
}
