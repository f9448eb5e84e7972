-- ===== src/Guards/Screens.antt =====
-- `combine_screens` of python/src/artzain/destructive_action_guard.py.
use cognexus_tools.Common.{
  ℕ, Bool, true, false, ◌&&◌, ◌||◌, List, [], ◌∷◌, ◌++◌, Text, codes, text_key, ◌==◌, any, length,
  sort_by, if◌then◌else◌,
}

-- `ActionSeverity`.
pub data Severity : Type 0 where
  none_found low medium high critical : Severity

-- `_SEVERITY_ORDER`.
abbrev pub severity_order : Severity → ℕ
severity_order none_found = 0
severity_order low = 1
severity_order medium = 2
severity_order high = 3
severity_order critical = 4

-- `ActionMatch`.
pub record Match : Type 0 where
  pub rule_id : Text
  pub name : Text
  pub severity : Severity
  pub owasp : Text
  pub excerpt : Text

-- The texts of `explanation`: one given, or the two that `combine_screens` writes, with what the
-- second quotes.
pub data Explanation : Type 0 where
  given : Text → Explanation
  nothing_matched : Explanation
  detected : (name : Text) (severity : Severity) (rule : Text) (patterns : ℕ) → Explanation

-- `ActionScreenResult`.
pub record Screen : Type 0 where
  pub is_destructive : Bool
  pub severity : Severity
  pub matches : List Match
  pub explanation : Explanation
  pub payload_sha256 : Text
  pub surface : Text

-- `GUARD_ERROR_RULE_ID`.
abbrev pub guard_error : Text
guard_error = codes "guard.error"

abbrev pub error_match : Match
error_match = record {
  rule_id = guard_error;
  name = codes "guard internal error";
  severity = critical;
  owasp = codes "LLM06";
  excerpt = codes "a screen failed internally; failing closed";
}

abbrev pub is_nil : {A : Type 0} → List A → Bool
is_nil [] = true
is_nil (x ∷ xs) = false

-- `merged.setdefault(rule_id, match)`: the matches in the order of their rules' first ones.
abbrev pub set_default : Match → List Match → List Match
set_default m merged = if any (λ x. m.rule_id == x.rule_id) merged then merged else merged ++ m ∷ []

-- The inner loop, over the matches of one screen.
abbrev pub merge_match : List Text → Match → List Match × Bool → List Match × Bool
merge_match disabled m (merged, failed) =
    if m.rule_id == guard_error
    then (merged, true)
    else (if any (λ d. m.rule_id == d) disabled then merged else set_default m merged, failed)

unfoldable pub merge_matches : List Text → List Match → List Match × Bool → List Match × Bool
merge_matches disabled [] s = s
merge_matches disabled (m ∷ ms) s = merge_matches disabled ms (merge_match disabled m s)

-- `result.is_destructive and not result.matches`.
abbrev pub is_failure : Screen → Bool
is_failure r = r.is_destructive && is_nil r.matches

-- The outer loop, over the screens.
unfoldable pub merge_screens : List Text → List Screen → List Match × Bool → List Match × Bool
merge_screens disabled [] s = s
merge_screens disabled (r ∷ rs) (merged, failed) =
    merge_screens disabled rs (merge_matches disabled r.matches (merged, failed || is_failure r))

abbrev pub by_severity : Match → ℕ
by_severity m = severity_order m.severity

-- The matches of the result, worst first.
abbrev pub all_matches : List Match × Bool → List Match
all_matches (merged, failed) =
    if failed then error_match ∷ sort_by by_severity merged else sort_by by_severity merged

abbrev pub first_hash : List Screen → Text
first_hash [] = []
first_hash (r ∷ rs) = r.payload_sha256

abbrev pub first_surface : List Screen → Text
first_surface [] = codes "agent_action"
first_surface (r ∷ rs) = r.surface

abbrev pub combined : List Match → Text → Text → Screen
combined [] hash surface = record {
  is_destructive = false;
  severity = none_found;
  matches = [];
  explanation = nothing_matched;
  payload_sha256 = hash;
  surface = surface;
}
combined (worst ∷ ms) hash surface = record {
  is_destructive = true;
  severity = worst.severity;
  matches = worst ∷ ms;
  explanation = detected worst.name worst.severity worst.rule_id (length (worst ∷ ms));
  payload_sha256 = hash;
  surface = surface;
}

-- `combine_screens`.
unfoldable pub combine_screens : List Screen → List Text → Screen
combine_screens results disabled =
    combined (all_matches (merge_screens disabled results ([], false))) (first_hash results)
      (first_surface results)
