-- ===== src/Decide/Tests.antt =====
-- The lineage fields at a concrete input.
use cognexus_tools.Decide.Body.{Lineage, lineage_body, add_bounded}
use cognexus_tools.Common.{
  some, Dict, ◌≡◌, true, false, refl, List, [], ◌∷◌, Text, codes, strip, is_space, text_key,
  list_beq,
}
use cognexus_tools.Decide.Request.{collect_parents, bounded_text}
use cognexus_tools.Decide.Parents.{AreParents, parent_ids-AreParents}
use cognexus_tools.Decide.Votes.{
  Vote, voted, raised, deny, Detection, verdict_rank, is_allow, resolve, decide_offline,
  injection_vote, destructive_vote, policy_vote, is_output_kind, severity_rank, worst_severity,
}
use cognexus_tools.Decide.Outcome.{resolve-rank, resolve-reasons, decide_offline-raised}
use cognexus_tools.Decide.Offline.{decide_offline-allowed}
use cognexus_tools.Guards.Screens.{
  Screen, given, low, none_found, is_nil, combine_screens, merge_screens, merge_matches,
}
use cognexus_tools.Guards.Policy.{Finding, Report, Blocking, should_block, blocks}

abbrev ids : List Text
ids = codes " a " ∷ codes "" ∷ codes "a" ∷ codes "b" ∷ []

parent_ids-AreParents_example : AreParents (codes "a" ∷ codes "b" ∷ [])
unfolding collect_parents bounded_text strip is_space list_beq
parent_ids-AreParents_example = parent_ids-AreParents ids (codes "a" ∷ codes "b" ∷ []) refl

abbrev detection : Detection
detection = record {
  is_injection = true;
  threat_level = low;
  confidence = 400;
  matched_patterns = codes "ignore previous" ∷ [];
}

abbrev screen : Screen
screen = record {
  is_destructive = false;
  severity = none_found;
  matches = [];
  explanation = given [];
  payload_sha256 = [];
  surface = codes "sdk";
}

abbrev finding : Finding
finding = record {
  rule_id = codes "pay";
  rule_title = codes "payments";
  category = codes "conduct";
  severity = codes "high";
  matched_pattern = codes "wire";
  summary = [];
  suppressed_by_approval_marker = false;
  approval_marker = [];
}

abbrev report : Report
report = record {
  violation_count = 1;
  findings = finding ∷ [];
  rules_checked = 3;
  text_hash = [];
  suppressed = [];
}

abbrev blocking : Blocking
blocking = record { block_on_high = false; block_on_critical = true }

decide_offline-allowed_example :
    is_allow
      (decide_offline
        (voted (injection_vote detection))
        (voted (destructive_vote (codes "tool_call") screen))
        (voted (policy_vote blocking report))).outcome
    ≡ false
unfolding is_output_kind severity_rank should_block blocks list_beq combine_screens merge_screens
    merge_matches
decide_offline-allowed_example =
    decide_offline-allowed detection (codes "tool_call") screen blocking report

decide_offline-raised_example :
    (decide_offline
      (voted (injection_vote detection))
      (raised (codes "ValueError") [])
      (voted (policy_vote blocking report))).outcome
    ≡ deny
decide_offline-raised_example =
    decide_offline-raised (voted (injection_vote detection)) (raised (codes "ValueError") [])
      (voted (policy_vote blocking report)) refl

abbrev votes : List Vote
votes = injection_vote detection ∷ policy_vote blocking report ∷ []

resolve-reasons_example : is_nil (resolve votes).reasons ≡ is_allow (resolve votes).outcome
resolve-reasons_example = resolve-reasons votes

resolve-rank_example : verdict_rank (resolve votes).outcome ≡ 1
unfolding injection_vote policy_vote worst_severity severity_rank should_block blocks list_beq
resolve-rank_example = resolve-rank votes

abbrev lineage : Lineage
lineage = record {
  workload_id = codes " w ";
  model_id = [];
  parent_decision_ids = ids;
  session_id = codes "s";
  trace_id = [];
  span_id = [];
  tool_call_id = [];
  on_behalf_of = [];
  approver_did = [];
}

abbrev carried : Dict Text Text
carried = (codes "workload_id", codes "w") ∷ (codes "session_id", codes "s") ∷ []

lineage_body-carried : lineage_body lineage ≡ some (carried, codes "a" ∷ codes "b" ∷ [])
unfolding lineage_body add_bounded collect_parents bounded_text strip is_space list_beq
lineage_body-carried = refl
