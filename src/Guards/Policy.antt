-- ===== src/Guards/Policy.antt =====
-- `combine_policy_reports` of python/src/artzain/tool_call_contract.py, and `should_block` of
-- python/src/artzain/policy_enforcement.py.
use cognexus_tools.Common.{
  ℕ, Bool, true, false, not, ◌&&◌, Option, none, some, List, [], ◌∷◌, ◌++◌, Text, codes, text_key,
  ◌==◌, any, length, ltb, if◌then◌else◌, add_new, add_all_new,
}

-- `PolicyEnforcementFinding`.
pub record Finding : Type 0 where
  pub rule_id : Text
  pub rule_title : Text
  pub category : Text
  pub severity : Text
  pub matched_pattern : Text
  pub summary : Text
  pub suppressed_by_approval_marker : Bool
  pub approval_marker : Text

-- `PolicyEnforcementReport`.
pub record Report : Type 0 where
  pub violation_count : ℕ
  pub findings : List Finding
  pub rules_checked : ℕ
  pub text_hash : Text
  pub suppressed : List Finding

-- Equality of `_rule_key`.
unfoldable pub same_rule : Finding → Finding → Bool
same_rule f g =
    f.rule_id == g.rule_id
    && f.rule_title == g.rule_title
    && f.category == g.category
    && f.severity == g.severity
    && f.summary == g.summary

-- Equality of the rule's key and the pattern.
abbrev pub same_pattern : Finding → Finding → Bool
same_pattern f g = same_rule f g && f.matched_pattern == g.matched_pattern

abbrev pub all_findings : List Report → List Finding
all_findings [] = []
all_findings (r ∷ rs) = r.findings ++ all_findings rs

abbrev pub all_suppressed : List Report → List Finding
all_suppressed [] = []
all_suppressed (r ∷ rs) = r.suppressed ++ all_suppressed rs

-- The loop over the suppressed entries; `recorded` holds the keys of those that are kept.
abbrev pub record_suppressed : List Finding → List Finding → List Finding → List Finding
record_suppressed found [] kept = kept
record_suppressed found (entry ∷ entries) kept =
    record_suppressed found entries
      (if any (same_pattern entry) found then kept else add_new same_pattern entry kept)

-- Several readings; `reported` holds the keys of the findings that are kept.
abbrev pub combined_report : Report → List Report → Report
combined_report first rest =
    let findings = add_all_new same_rule (all_findings rest) first.findings in
    let found = all_findings (first ∷ rest) in
    record {
      violation_count = length findings;
      findings = findings;
      rules_checked = first.rules_checked;
      text_hash = first.text_hash;
      suppressed = record_suppressed found (all_suppressed (first ∷ rest)) [];
    }

-- `combine_policy_reports`; of no reports at all it raises a ValueError, which is none.
unfoldable pub combine_policy_reports : List Report → Option Report
combine_policy_reports [] = none
combine_policy_reports (first ∷ []) = some first
combine_policy_reports (first ∷ second ∷ rest) = some (combined_report first (second ∷ rest))

-- `block_on_high` and `block_on_critical` of the evaluator's configuration.
pub record Blocking : Type 0 where
  pub block_on_high : Bool
  pub block_on_critical : Bool

abbrev pub has_violations : Report → Bool
has_violations r = ltb 0 r.violation_count

-- Whether one finding blocks.
unfoldable pub blocks : Blocking → Finding → Bool
blocks config f =
    if f.severity == codes "critical" && config.block_on_critical
    then true
    else f.severity == codes "high" && config.block_on_high

-- `should_block`.
unfoldable pub should_block : Blocking → Report → Bool
should_block config r = if not (has_violations r) then false else any (blocks config) r.findings
