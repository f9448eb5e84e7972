-- ===== src/Guards/Combined.antt =====
-- What the combination of screens keeps: python/src/artzain/destructive_action_guard.py.
use cognexus_tools.Common.{
  max, ℕ, ap, sym, insert_by, IsDescending, All-always, ◌≤◌, ◌≡◌, refl, ◌∙◌, Bool, true, false, not,
  ◌||◌, List, [], ◌∷◌, Text, text_key, ◌==◌, any, sort_by, All, arith, sort_by-IsDescending,
  All-sort_by,
}
use cognexus_tools.Guards.Screens.{
  Severity, none_found, low, medium, high, critical, severity_order, Match, Screen, guard_error,
  is_nil, set_default, merge_match, merge_matches, is_failure, merge_screens, by_severity,
  all_matches, first_hash, first_surface, combined, combine_screens,
}

-- A match that counts: of no disabled rule.
abbrev pub counts : List Text → Match → Bool
counts disabled m = not (any (λ d. m.rule_id == d) disabled)

-- Whether a screen failed, or stands for one that did.
abbrev pub failed_in : Screen → Bool
failed_in r = is_failure r || any (λ m. m.rule_id == guard_error) r.matches

-- Whether a screen has something to say once the disabled rules are left out.
abbrev pub alarms : List Text → Screen → Bool
alarms disabled r = failed_in r || any (λ m. counts disabled m) r.matches

-- Whether the loops have kept something.
abbrev alarmed : List Match × Bool → Bool
alarmed (merged, failed) = failed || not (is_nil merged)

severity_order-le : (s : Severity) → severity_order s ≤ 4
severity_order-le none_found = omega arith
severity_order-le low = omega arith
severity_order-le medium = omega arith
severity_order-le high = omega arith
severity_order-le critical = omega arith

by_severity-le : (m : Match) → by_severity m ≤ 4
by_severity-le m = severity_order-le m.severity

set_default_kept : (m : Match) (merged : List Match) → is_nil (set_default m merged) ≡ false
set_default_kept m [] = refl
set_default_kept m (x ∷ xs) = ground arith

merge_match-alarmed :
    (disabled : List Text) (m : Match) (s : List Match × Bool)
    → alarmed (merge_match disabled m s)
      ≡ (alarmed s || m.rule_id == guard_error || counts disabled m)
merge_match-alarmed disabled m (merged, failed) = ground (arith, set_default_kept m merged)

merge_matches-alarmed :
    (disabled : List Text) (ms : List Match) (s : List Match × Bool)
    → alarmed (merge_matches disabled ms s)
      ≡ (alarmed s || any (λ m. m.rule_id == guard_error) ms || any (λ m. counts disabled m) ms)
unfolding merge_matches
merge_matches-alarmed disabled [] s = ground arith
merge_matches-alarmed disabled (m ∷ ms) s =
    merge_matches-alarmed disabled ms (merge_match disabled m s)
    ∙ ground (arith, merge_match-alarmed disabled m s)

merge_screens-alarmed :
    (disabled : List Text) (rs : List Screen) (s : List Match × Bool)
    → alarmed (merge_screens disabled rs s) ≡ (alarmed s || any (alarms disabled) rs)
unfolding merge_screens
merge_screens-alarmed disabled [] s = ground arith
merge_screens-alarmed disabled (r ∷ rs) (merged, failed) =
    let next = merge_matches disabled r.matches (merged, failed || is_failure r) in
    merge_screens-alarmed disabled rs next
    ∙ ground (arith, merge_matches-alarmed disabled r.matches (merged, failed || is_failure r))

is_nil-insert_by : (m : Match) (ms : List Match) → is_nil (insert_by by_severity m ms) ≡ false
is_nil-insert_by m [] = refl
is_nil-insert_by m (x ∷ xs) = ground arith

is_nil-sort_by : (ms : List Match) → is_nil (sort_by by_severity ms) ≡ is_nil ms
is_nil-sort_by [] = refl
is_nil-sort_by (m ∷ ms) = is_nil-insert_by m (sort_by by_severity ms)

combined-destructive :
    (ms : List Match) (hash surface : Text)
    → (combined ms hash surface).is_destructive ≡ not (is_nil ms)
combined-destructive [] hash surface = refl
combined-destructive (m ∷ ms) hash surface = refl

all_matches-alarmed : (s : List Match × Bool) → not (is_nil (all_matches s)) ≡ alarmed s
all_matches-alarmed (merged, failed) = ground (arith, is_nil-sort_by merged)

-- A payload read in several ways is destructive exactly when one reading failed, carries the mark
-- of one that did, or matched a rule that is not disabled: disabling rules never hides a failure.
pub combine_screens_iff :
    (rs : List Screen) (disabled : List Text)
    → (combine_screens rs disabled).is_destructive ≡ any (alarms disabled) rs
unfolding combine_screens
combine_screens_iff rs disabled =
    let s = merge_screens disabled rs ([], false) in
    combined-destructive (all_matches s) (first_hash rs) (first_surface rs)
    ∙ all_matches-alarmed s
    ∙ merge_screens-alarmed disabled rs ([], false)

all_matches-IsDescending : (s : List Match × Bool) → IsDescending by_severity (all_matches s)
all_matches-IsDescending (merged, false) = sort_by-IsDescending by_severity merged
all_matches-IsDescending (merged, true) = (
  All-sort_by by_severity (λ m. by_severity m ≤ 4) merged (All-always by_severity-le merged),
  sort_by-IsDescending by_severity merged,
)

-- The worst severity among matches.
abbrev pub worst_of : List Match → ℕ
worst_of [] = 0
worst_of (m ∷ ms) = max (by_severity m) (worst_of ms)

worst_of-le : (n : ℕ) (ms : List Match) → All (λ m. by_severity m ≤ n) ms → worst_of ms ≤ n
worst_of-le n [] a = omega arith
worst_of-le n (m ∷ ms) a = omega (arith, a.0, worst_of-le n ms a.1)

combined-worst :
    (ms : List Match) (hash surface : Text)
    → IsDescending by_severity ms
    → (severity_order (combined ms hash surface).severity ≡ worst_of ms)
      × ((combined ms hash surface).matches ≡ ms)
combined-worst [] hash surface d = (refl, refl)
combined-worst (m ∷ ms) hash surface d = (omega (arith, worst_of-le (by_severity m) ms d.0), refl)

-- The severity of the combination is exactly the worst of its matches', and none where it has none.
pub combine_screens-severity :
    (rs : List Screen) (disabled : List Text)
    → severity_order (combine_screens rs disabled).severity
      ≡ worst_of (combine_screens rs disabled).matches
unfolding combine_screens
combine_screens-severity rs disabled =
    let s = merge_screens disabled rs ([], false) in
    let (worst, same) =
      combined-worst (all_matches s) (first_hash rs) (first_surface rs)
        (all_matches-IsDescending s) in
    worst ∙ ap worst_of (sym same)
