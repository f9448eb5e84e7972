-- ===== src/Guards/Tests.antt =====
-- Combinations at concrete inputs.
use cognexus_tools.Common.{
  ◌≡◌, refl, length, true, false, List, [], ◌∷◌, codes, Text, text_key, list_beq, any,
}
use cognexus_tools.Guards.Screens.{
  Match, Screen, given, high, none_found, severity_order, combine_screens,
}
use cognexus_tools.Guards.Combined.{worst_of, combine_screens_iff, combine_screens-severity}
use cognexus_tools.Guards.Again.{combine_screens_again}
use cognexus_tools.Guards.Policy.{
  Finding, Report, Blocking, same_rule, same_pattern, combined_report, combine_policy_reports,
  should_block, blocks,
}
use cognexus_tools.Guards.Readings.{blocked, combine_policy_reports-blocked}
use cognexus_tools.Guards.Suppressed.{combined_report-suppressed}

abbrev delete : Match
delete = record {
  rule_id = codes "sql.delete";
  name = codes "delete";
  severity = high;
  owasp = codes "LLM06";
  excerpt = codes "DELETE";
}

abbrev screens : List Screen
screens =
    record {
      is_destructive = true;
      severity = high;
      matches = delete ∷ [];
      explanation = given [];
      payload_sha256 = codes "h";
      surface = codes "sdk";
    }
    ∷ record {
      is_destructive = true;
      severity = none_found;
      matches = [];
      explanation = given [];
      payload_sha256 = codes "h2";
      surface = codes "sdk";
    }
    ∷ []

-- A screen whose worst match is high.
abbrev plain_screen : Screen
plain_screen = record {
  is_destructive = true;
  severity = high;
  matches = delete ∷ [];
  explanation = given [];
  payload_sha256 = codes "h";
  surface = codes "sdk";
}

abbrev disabled : List Text
disabled = codes "sql.delete" ∷ []

combine_screens_iff_example : (combine_screens screens disabled).is_destructive ≡ true
unfolding list_beq
combine_screens_iff_example = combine_screens_iff screens disabled

combine_screens-severity_example :
    severity_order (combine_screens (plain_screen ∷ []) []).severity
    ≡ worst_of (combine_screens (plain_screen ∷ []) []).matches
combine_screens-severity_example = combine_screens-severity (plain_screen ∷ []) []

combine_screens_again_example :
    combine_screens (combine_screens screens disabled ∷ []) [] ≡ combine_screens screens disabled
combine_screens_again_example = combine_screens_again screens disabled

abbrev finding : Finding
finding = record {
  rule_id = codes "pay";
  rule_title = codes "payments";
  category = codes "conduct";
  severity = codes "critical";
  matched_pattern = codes "wire";
  summary = [];
  suppressed_by_approval_marker = false;
  approval_marker = [];
}

abbrev reading : List Finding → List Finding → Report
reading found suppressed = record {
  violation_count = length found;
  findings = found;
  rules_checked = 3;
  text_hash = codes "h";
  suppressed = suppressed;
}

abbrev blocking : Blocking
blocking = record { block_on_high = false; block_on_critical = true }

abbrev readings : List Report
readings = reading [] (finding ∷ []) ∷ reading (finding ∷ []) [] ∷ []

combine_policy_reports-blocked_example : blocked blocking (combine_policy_reports readings) ≡ true
unfolding should_block blocks list_beq
combine_policy_reports-blocked_example =
    combine_policy_reports-blocked blocking readings (refl, (refl, tt))

combined_report-suppressed_example :
    any
      (same_pattern finding)
      (combined_report (reading [] (finding ∷ [])) (reading (finding ∷ []) [] ∷ [])).suppressed
    ≡ false
unfolding same_rule list_beq
combined_report-suppressed_example =
    combined_report-suppressed finding (reading [] (finding ∷ [])) (reading (finding ∷ []) [] ∷ [])
