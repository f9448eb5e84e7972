-- ===== src/KillSwitch/Flags.antt =====
-- What is killed, and what stays killed.
use cognexus_tools.Common.{
  lookup, or_else, ℕ, ◌≡◌, ◌≢◌, String, Bool, true, false, Option, none, some, List, [], ◌∷◌, arith,
  nat_key, if◌then◌else◌, contains, insert, lookup-insert, lookup-erase, All, Dict, ◌⊎◌, not, ◌&&◌,
  ◌∙◌, ap, Option-cases, Bool-cases, inl, inr, refl, is_some,
}
use cognexus_tools.KillSwitch.State.{
  KillRecord, AgentKilledError, Config, State, Reading, Trip, ScreenResult, raised, returned, text,
}
use cognexus_tools.KillSwitch.Operations.{
  is_critical, screened_trip, kill_record_of, trip_state, record_trip, auto_panic_check, trip,
  trip_global, clear_global_panic, clear_run, is_killed, kill_record, raise_if_killed,
  screen_agent_action, set_default_on_kill,
}
use cognexus_tools.KillSwitch.History.{
  Call, trips, trips_global, clears_global, clears_run, sets_default, screens, step, run,
}

-- What the poll raises for a run, by the panic and the run's own record: the panic comes first.
abbrev pub told : Option ℕ → (panic own : Option KillRecord) → Option AgentKilledError
told run (some r) own = some (record { run_id = run; reason = r.reason; severity = r.severity })
told run none (some r) = some (record { run_id = run; reason = r.reason; severity = r.severity })
told run none none = none

-- The record of a run's own kill.
abbrev pub own_record : Option ℕ → Dict ℕ KillRecord → Option KillRecord
own_record none marks = none
own_record (some run) marks = lookup run marks

-- The three ways to ask agree: a run is killed, has a kill record, and makes the poll raise, all
-- or none; the error carries the reason and the severity of the panic if there is one, and else
-- those of the run's own kill, while the kill record is the run's own if it has one.
pub is_killed_iff :
    (run : Option ℕ) (s : State)
    → (is_killed run s ≡ is_some (kill_record run s))
      × (is_killed run s ≡ is_some (raise_if_killed run s))
      × (raise_if_killed run s ≡ told run s.global_panic (own_record run s.killed_runs))
      × (kill_record run s ≡ or_else (own_record run s.killed_runs) s.global_panic)
unfolding is_killed kill_record raise_if_killed
is_killed_iff none s = ground arith
is_killed_iff (some run) s = ground arith

abbrev marked : Option ℕ → KillRecord → Dict ℕ KillRecord → Dict ℕ KillRecord
marked none r d = d
marked (some run) r d = insert run r d

record_trip-killed :
    (c : Trip) (t : Reading) (s : State)
    → (record_trip c t s).killed_runs ≡ marked c.run_id (kill_record_of c t) s.killed_runs
unfolding record_trip
record_trip-killed c t s = ground arith

auto_panic_check-killed :
    (cfg : Config) (on_kill : Option ℕ) (t : Reading) (s : State)
    → (auto_panic_check cfg on_kill t s).killed_runs ≡ s.killed_runs
unfolding auto_panic_check
auto_panic_check-killed cfg on_kill t s = ground arith

pub trip_state-killed :
    (cfg : Config) (c : Trip) (t : Reading) (s : State)
    → (trip_state cfg c t s).killed_runs ≡ marked c.run_id (kill_record_of c t) s.killed_runs
unfolding trip_state
trip_state-killed cfg c t s =
    ground
      (arith, record_trip-killed c t s, auto_panic_check-killed cfg c.on_kill t (record_trip c t s))

marked-contains :
    (j : ℕ) (run : Option ℕ) (r : KillRecord) (d : Dict ℕ KillRecord)
    → contains j d ≡ true
    → contains j (marked run r d) ≡ true
marked-contains j none r d h = h
marked-contains j (some k) r d h = ground (arith, lookup-insert j k r d)

-- Only `clear_run j` lifts the kill of run `j`.
abbrev pub Keeps : ℕ → Call → Type 0
Keeps j (clears_run k) = j ≢ k
Keeps j _ = Unit {0}

-- Screening changes the state only by the trip of a critical result on a run not killed before.
pub screen_agent_action-state :
    (cfg : Config) (screen : String → String → ScreenResult) (payload : String) (r user : Option ℕ)
    (agent : Option String) (source : String) (b : Bool) (cb : Option ℕ) (t : Reading) (s : State)
    → (screen_agent_action cfg screen payload r user agent source b cb t s).1 ≡ (
        if not (is_killed r s) && is_critical (screen payload source).severity
        then trip_state cfg (screened_trip r user agent source cb (screen payload source)) t s
        else s)
unfolding screen_agent_action is_killed trip raise_if_killed
screen_agent_action-state cfg screen payload r user agent source b cb t s = ground arith

step-killed :
    (cfg : Config) (screen : String → String → ScreenResult) (j : ℕ) (t : Reading) (c : Call)
    (s : State)
    → Keeps j c
    → contains j s.killed_runs ≡ true
    → contains j (step cfg screen (t, c) s).killed_runs ≡ true
unfolding step trip trip_global clear_global_panic clear_run set_default_on_kill
step-killed cfg screen j t (trips c) s k h =
    rw (trip_state-killed cfg c t s)
      (marked-contains j c.run_id (kill_record_of c t) s.killed_runs h)
step-killed cfg screen j t (trips_global r src m cb) s k h = ground arith
step-killed cfg screen j t clears_global s k h = h
step-killed cfg screen j t (clears_run i) s k h = ground (arith, lookup-erase j i s.killed_runs)
step-killed cfg screen j t (sets_default cb) s k h = h
step-killed cfg screen j t (screens p r u a src b cb) s k h =
    let c = screened_trip r u a src cb (screen p src) in
    ground (
      arith,
      screen_agent_action-state cfg screen p r u a src b cb t s,
      trip_state-killed cfg c t s,
      marked-contains j r (kill_record_of c t) s.killed_runs,
    )

run-contains :
    (cfg : Config) (screen : String → String → ScreenResult) (j : ℕ) (cs : List (Reading × Call))
    (s : State)
    → All (λ c. Keeps j c.1) cs
    → contains j s.killed_runs ≡ true
    → contains j (run cfg screen cs s).killed_runs ≡ true
unfolding run
run-contains cfg screen j [] s k h = h
run-contains cfg screen j ((t, c) ∷ cs) s k h =
    run-contains cfg screen j cs (step cfg screen (t, c) s) k.1
      (step-killed cfg screen j t c s k.0 h)

contains-is_killed :
    (j : ℕ) (s : State) → contains j s.killed_runs ≡ true → is_killed (some j) s ≡ true
unfolding is_killed
contains-is_killed j s h = ground arith

-- A run that was tripped stays killed through any history of calls, other trips, screenings and
-- the lifting of a global panic included, that does not call `clear_run` on that run.
pub run-trip-is_killed :
    (cfg : Config) (screen : String → String → ScreenResult) (j : ℕ) (c : Trip) (t : Reading)
    (s : State) (cs : List (Reading × Call))
    → c.run_id ≡ some j
    → All (λ d. Keeps j d.1) cs
    → is_killed (some j) (run cfg screen cs (trip cfg c t s).1) ≡ true
unfolding trip
run-trip-is_killed cfg screen j c t s cs e k = contains-is_killed j _ (
    run-contains cfg screen j cs (trip_state cfg c t s) k (
      rw (trip_state-killed cfg c t s, e, marked, contains)
        (ground (arith, lookup-insert j j (kill_record_of c t) s.killed_runs))))

trip_state-is_killed :
    (cfg : Config) (j : ℕ) (c : Trip) (t : Reading) (s : State)
    → c.run_id ≡ some j
    → is_killed (some j) (trip_state cfg c t s) ≡ true
trip_state-is_killed cfg j c t s e = contains-is_killed j (trip_state cfg c t s) (
    rw (trip_state-killed cfg c t s, e, marked)
      (ground (arith, lookup-insert j j (kill_record_of c t) s.killed_runs)))

-- What screening does, on every branch. On a run that is killed already, or under a global panic,
-- the guard's verdict makes no difference: the call raises what the poll raises and the state stays. A critical verdict
-- kills the run and raises, or returns the verdict if the caller asked for no error. Any other
-- verdict is returned, and the state stays.
pub screen_agent_action_branches :
    (cfg : Config) (screen : String → String → ScreenResult) (payload : String) (j : ℕ)
    (user : Option ℕ) (agent : Option String) (source : String) (b : Bool) (cb : Option ℕ)
    (t : Reading) (s : State)
    → let (out, s') = screen_agent_action cfg screen payload (some j) user agent source b cb t s in
      let result = screen payload source in
      ((is_killed (some j) s ≡ true)
        × (s' ≡ s)
        × ((e : AgentKilledError) × (raise_if_killed (some j) s ≡ some e) × (out ≡ raised e)))
      ⊎ ((is_killed (some j) s ≡ false)
          × (is_critical result.severity ≡ true)
          × (is_killed (some j) s' ≡ true)
          × (out ≡ (
              if b
              then raised (record {
                run_id = some j;
                reason = text result.explanation;
                severity = "critical";
              })
              else returned result)))
      ⊎ ((is_killed (some j) s ≡ false)
          × (is_critical result.severity ≡ false)
          × (s' ≡ s)
          × (out ≡ returned result))
unfolding screen_agent_action trip
screen_agent_action_branches cfg screen payload j user agent source b cb t s =
    elim (Option-cases (raise_if_killed (some j) s)) [
      | inr (e, q) ↦
          rw (q, screen_agent_action)
            (inl ((is_killed_iff (some j) s).1 ∙ ap is_some q, refl, (e, refl, refl)))
      | inl q ↦
          let c = screened_trip (some j) user agent source cb (screen payload source) in
          let killed = trip_state-is_killed cfg j c t s refl in
          let free : is_killed (some j) s ≡ false = (is_killed_iff (some j) s).1 ∙ ap is_some q in
          rw (q, screen_agent_action)
            (elim (Bool-cases (is_critical (screen payload source).severity)) [
              | inl crit ↦ rw crit (inr (inl (free, refl, killed, refl)))
              | inr mild ↦ rw mild (inr (inr (free, refl, refl, refl)))
            ])
    ]
