-- ===== src/Decide/Votes.antt =====
-- The offline decision of python/src/artzain/decide.py: the votes of the three guards and what is
-- made of them.
use cognexus_tools.Common.{
  ℕ, Bool, true, false, not, ◌&&◌, ◌||◌, Option, none, some, List, [], ◌∷◌, ◌++◌, map, Text,
  text_key, ◌==◌, codes, take, ltb, is_empty, sort_by, if◌then◌else◌,
}
use cognexus_tools.Guards.Screens.{
  Severity, none_found, low, medium, high, critical, Match, Screen, combine_screens,
}
use cognexus_tools.Guards.Policy.{Finding, Report, Blocking, has_violations, should_block}

-- The three verdicts, which the source writes as texts.
pub data Verdict : Type 0 where
  allow review deny : Verdict

-- `_VERDICT_RANK`.
abbrev pub verdict_rank : Verdict → ℕ
verdict_rank allow = 0
verdict_rank review = 1
verdict_rank deny = 2

-- `ActionSeverity` and `ThreatLevel` as texts.
abbrev pub severity_text : Severity → Text
severity_text none_found = codes "none"
severity_text low = codes "low"
severity_text medium = codes "medium"
severity_text high = codes "high"
severity_text critical = codes "critical"

-- `_vote`; a score is in thousandths.
pub record Vote : Type 0 where
  pub name : Text
  pub verdict : Verdict
  pub severity : Text
  pub score : Option ℕ
  pub findings : List Text
  pub error : Text

-- What a guard's vote is, or the kind of the exception that it raised and the text that names it.
pub data Voted : Type 0 where
  voted : Vote → Voted
  raised : (kind error : Text) → Voted

-- `_guarded_vote`.
unfoldable pub guarded_vote : Text → Voted → Vote
guarded_vote name (voted v) = v
guarded_vote name (raised kind error) = record {
  name = name;
  verdict = deny;
  severity = codes "critical";
  score = none;
  findings = (name ++ codes " raised " ++ kind) ∷ [];
  error = kind ++ codes ": " ++ error;
}

-- What the detector says of a payload; its confidence in thousandths.
pub record Detection : Type 0 where
  pub is_injection : Bool
  pub threat_level : Severity
  pub confidence : ℕ
  pub matched_patterns : List Text

abbrev pub threat_verdict : Severity → Verdict
threat_verdict high = deny
threat_verdict critical = deny
threat_verdict medium = review
threat_verdict _ = allow

-- `_offline_injection_vote`, of what the detector says.
unfoldable pub injection_vote : Detection → Vote
injection_vote d =
    if not d.is_injection
    then record {
      name = codes "prompt-injection";
      verdict = allow;
      severity = codes "none";
      score = some d.confidence;
      findings = [];
      error = [];
    }
    else record {
      name = codes "prompt-injection";
      verdict = threat_verdict d.threat_level;
      severity = severity_text d.threat_level;
      score = some d.confidence;
      findings = take 8 d.matched_patterns;
      error = [];
    }

-- `_SEVERITY_VERDICT`.
abbrev pub severity_verdict : Severity → Verdict
severity_verdict critical = deny
severity_verdict high = review
severity_verdict _ = allow

-- `kind in _OUTPUT_KINDS`.
unfoldable pub is_output_kind : Text → Bool
is_output_kind kind = kind == codes "model_output" || kind == codes "tool_call"

abbrev pub match_line : Match → Text
match_line m = m.rule_id ++ codes ": " ++ m.excerpt

-- `severity` of `_offline_destructive_vote`.
abbrev pub screen_severity : Screen → Severity
screen_severity r = if r.is_destructive then r.severity else none_found

-- `_offline_destructive_vote`, of the screen that an output kind gives.
unfoldable pub destructive_vote : Text → Screen → Vote
destructive_vote kind screen =
    let result = combine_screens (screen ∷ []) [] in
    if not (is_output_kind kind)
    then record {
      name = codes "destructive-action";
      verdict = allow;
      severity = codes "none";
      score = none;
      findings = (codes "skipped (payload_kind=" ++ kind ++ codes ")") ∷ [];
      error = [];
    }
    else record {
      name = codes "destructive-action";
      verdict = severity_verdict (screen_severity result);
      severity = severity_text (screen_severity result);
      score = none;
      findings = map match_line (take 8 result.matches);
      error = [];
    }

-- `rank.get(severity, 1)`.
unfoldable pub severity_rank : Text → ℕ
severity_rank s =
    if s == codes "critical"
    then 4
    else if s == codes "high"
    then 3
    else if s == codes "medium"
    then 2
    else 1

-- The loop for `worst`.
unfoldable pub worst_severity : List Finding → Text → Text
worst_severity [] worst = worst
worst_severity (f ∷ fs) worst =
    worst_severity fs
      (if ltb (severity_rank worst) (severity_rank f.severity) then f.severity else worst)

abbrev pub by_rank : Finding → ℕ
by_rank f = severity_rank f.severity

abbrev pub finding_line : Finding → Text
finding_line f = f.rule_id ++ codes ": " ++ f.rule_title

-- The verdict of a report with findings.
abbrev pub policy_verdict : Blocking → Report → Verdict
policy_verdict config r =
    let worst = worst_severity r.findings (codes "low") in
    if should_block config r
    then deny
    else if worst == codes "high" || worst == codes "critical"
    then review
    else allow

-- `_offline_policy_vote`, of the evaluator's report.
unfoldable pub policy_vote : Blocking → Report → Vote
policy_vote config r =
    if not (has_violations r)
    then record {
      name = codes "policy-enforcement";
      verdict = allow;
      severity = codes "none";
      score = none;
      findings = [];
      error = [];
    }
    else record {
      name = codes "policy-enforcement";
      verdict = policy_verdict config r;
      severity = worst_severity r.findings (codes "low");
      score = none;
      findings = map finding_line (take 8 (sort_by by_rank r.findings));
      error = [];
    }

-- `v.get("error")`.
abbrev pub has_error : Vote → Bool
has_error v = not (is_empty v.error)

-- The loop for the outcome, which ends at a vote with an error.
unfoldable pub strictest : Verdict → List Vote → Verdict
strictest outcome [] = outcome
strictest outcome (v ∷ votes) =
    let rest =
      strictest (if ltb (verdict_rank outcome) (verdict_rank v.verdict) then v.verdict else outcome)
        votes in
    if has_error v then deny else rest

abbrev pub is_allow : Verdict → Bool
is_allow allow = true
is_allow _ = false

abbrev pub head_of : Vote → Text
head_of v = elim v.findings [ [] ↦ v.severity | f ∷ fs ↦ f ]

-- The loop for the reasons.
unfoldable pub all_reasons : List Vote → List Text
all_reasons [] = []
all_reasons (v ∷ votes) =
    if is_allow v.verdict && not (has_error v)
    then all_reasons votes
    else (v.name ++ codes " (" ++ v.severity ++ codes "): " ++ head_of v) ∷ all_reasons votes

-- What `_decide_offline` returns besides its constants and ids.
pub record Offline : Type 0 where
  pub outcome : Verdict
  pub contributing_agents : List Vote
  pub reasons : List Text

-- The part of `_decide_offline` behind the votes.
abbrev pub resolve : List Vote → Offline
resolve votes =
    let outcome = strictest allow votes in
    record {
      outcome = outcome;
      contributing_agents = votes;
      reasons = if is_allow outcome then [] else all_reasons votes;
    }

-- `_decide_offline`, of what the three guards do.
unfoldable pub decide_offline : (injection destructive policy : Voted) → Offline
decide_offline injection destructive policy = resolve (
    guarded_vote (codes "prompt-injection") injection
    ∷ guarded_vote (codes "destructive-action") destructive
    ∷ guarded_vote (codes "policy-enforcement") policy
    ∷ [])
