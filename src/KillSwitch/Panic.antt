-- ===== src/KillSwitch/Panic.antt =====
-- When the auto-panic detector trips, and which callbacks a trip makes.
use cognexus_tools.Common.{
  ℕ, ◌-◌, ◌≤◌, ◌≡◌, refl, Bool, not, ◌&&◌, ◌||◌, Option, List, [], ◌∷◌, ◌++◌, arith, leb,
  if◌then◌else◌, is_some, length, drop, push, count, length-drop, count-le-length, Bool-cases, inl,
  inr, ◌∙◌,
}
use cognexus_tools.KillSwitch.State.{Config, State, Reading, Trip}
use cognexus_tools.KillSwitch.Operations.{
  is_critical, window_cap, in_window, record_trip, auto_panic_check, trip_state, trip,
}
use cognexus_tools.KillSwitch.Window.{
  last_of, count-drop-ge, count-drop-le, push-last_of, Ascends, Ascends-Rising, Ascends-append_now,
}

-- A number of times of at least the threshold is seen in the deque exactly when it is there.
leb_iff : (a b c : ℕ) → c ≤ b → (a ≤ b → a ≤ c) → leb a c ≡ leb a b
leb_iff a b c h k = grind arith

window_suffices :
    (cfg : Config) (now : ℕ) (hist : List ℕ)
    → Ascends now hist
    → leb cfg.panic_threshold (in_window cfg now (last_of (window_cap cfg) hist))
      ≡ leb cfg.panic_threshold (in_window cfg now hist)
window_suffices cfg now hist asc =
    let p = λ (x : ℕ). leb (now - x) cfg.panic_window in
    let k = length hist - window_cap cfg in
    leb_iff cfg.panic_threshold (count p hist) (count p (drop k hist)) (count-drop-le p k hist) λ h.
      count-drop-ge p cfg.panic_threshold k hist (Ascends-Rising cfg.panic_window now hist asc)
        (omega (arith, length-drop k hist, count-le-length p hist, h)) h

-- A critical trip that is not manual: the ones that the detector counts.
abbrev pub counts : Trip → Bool
counts c = is_critical c.severity && not c.manual

record_trip-panic :
    (c : Trip) (t : Reading) (s : State)
    → ((record_trip c t s).global_panic ≡ s.global_panic)
      × ((record_trip c t s).panic_times ≡ s.panic_times)
unfolding record_trip
record_trip-panic c t s = ground arith

abbrev overdue : Config → Reading → State → Bool
overdue cfg t s =
    leb cfg.panic_threshold
      (in_window cfg t.monotonic (push (window_cap cfg) t.monotonic s.panic_times))

auto_panic_check-panic :
    (cfg : Config) (on_kill : Option ℕ) (t : Reading) (s : State)
    → let s' = auto_panic_check cfg on_kill t s in
      (s'.panic_times ≡ push (window_cap cfg) t.monotonic s.panic_times)
      × (is_some s'.global_panic ≡ (is_some s.global_panic || overdue cfg t s))
unfolding auto_panic_check
auto_panic_check-panic cfg on_kill t s = elim (Bool-cases (overdue cfg t s)) [
  | inl e ↦ rw (e, auto_panic_check) (ground arith)
  | inr e ↦ rw (e, auto_panic_check) (ground arith)
]

-- The detector keeps at most four times the threshold of the times of the critical trips, and yet
-- decides as if it kept them all: with `hist` the times of all counted trips so far, in order, the
-- global panic is set after a trip exactly when it was set before, or when the trip counts and at
-- least the threshold of all trips, this one included, lie in the window. Trips that are manual or
-- not critical leave the detector alone.
pub trip-refines-history :
    (cfg : Config) (c : Trip) (t : Reading) (s : State) (hist : List ℕ)
    → s.panic_times ≡ last_of (window_cap cfg) hist
    → Ascends t.monotonic hist
    → let s' = (trip cfg c t s).1 in
      let hist' = if counts c then hist ++ t.monotonic ∷ [] else hist in
      (s'.panic_times ≡ last_of (window_cap cfg) hist')
      × (is_some s'.global_panic ≡ (
          is_some s.global_panic
          || counts c && leb cfg.panic_threshold (in_window cfg t.monotonic hist')))
unfolding trip trip_state
trip-refines-history cfg c t s hist kept asc =
    let now = t.monotonic in
    let cap = window_cap cfg in
    let s1 = record_trip c t s in
    let pushed : push cap now s1.panic_times ≡ last_of cap (hist ++ now ∷ []) =
      rw ((record_trip-panic c t s).1, kept) (push-last_of cap now hist (omega arith)) in
    elim (Bool-cases (counts c)) [
      | inl e ↦ rw e (
        (auto_panic_check-panic cfg c.on_kill t s1).0 ∙ pushed,
        (auto_panic_check-panic cfg c.on_kill t s1).1
            ∙ rw
                (
                  (record_trip-panic c t s).0,
                  pushed,
                  window_suffices cfg now (hist ++ now ∷ []) (Ascends-append_now now hist asc),
                )
                refl,
      )
      | inr e ↦
          rw e ((record_trip-panic c t s).1 ∙ kept, ground (arith, (record_trip-panic c t s).0))
    ]
