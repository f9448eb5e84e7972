-- ===== src/Decide/Offline.antt =====
-- When an offline decision allows: python/src/artzain/decide.py.
use cognexus_tools.Common.{
  ◌≡◌, refl, ◌∙◌, Bool, false, not, ◌&&◌, ◌||◌, List, [], ◌∷◌, Text, text_key, ◌==◌, list_beq,
  codes, any, ltb, leb, Bool-cases, inl, inr, arith,
}
use cognexus_tools.Guards.Screens.{
  Severity, none_found, low, medium, high, critical, Screen, combine_screens, severity_order,
}
use cognexus_tools.Guards.Policy.{Finding, Report, Blocking, has_violations, should_block}
use cognexus_tools.Decide.Votes.{
  voted, guarded_vote, has_error, is_allow, decide_offline, Detection, threat_verdict,
  injection_vote, severity_verdict, is_output_kind, screen_severity, destructive_vote,
  severity_rank, worst_severity, by_rank, policy_vote,
}
use cognexus_tools.Decide.Outcome.{resolve-allowed}

-- A finding that counts as high or critical.
abbrev pub is_serious : Finding → Bool
is_serious f = leb 3 (by_rank f)

worst_severity-rank :
    (fs : List Finding) (worst : Text)
    → leb 3 (severity_rank (worst_severity fs worst))
      ≡ (leb 3 (severity_rank worst) || any is_serious fs)
unfolding worst_severity
worst_severity-rank [] worst = ground arith
worst_severity-rank (f ∷ fs) worst =
    elim (Bool-cases (ltb (severity_rank worst) (severity_rank f.severity))) [
      | inl t ↦ rw t (worst_severity-rank fs f.severity ∙ ground (arith, t))
      | inr t ↦ rw t (worst_severity-rank fs worst ∙ ground (arith, t))
    ]

severity_rank-serious :
    (s : Text) → leb 3 (severity_rank s) ≡ (s == codes "high" || s == codes "critical")
unfolding severity_rank
severity_rank-serious s = ground arith

low_rank : leb 3 (severity_rank (codes "low")) ≡ false
unfolding severity_rank list_beq
low_rank = refl

policy_vote-passes :
    (config : Blocking) (r : Report)
    → (is_allow (policy_vote config r).verdict && not (has_error (policy_vote config r)))
      ≡ (not (has_violations r) || not (should_block config r) && not (any is_serious r.findings))
unfolding policy_vote
policy_vote-passes config r = ground (
  arith,
  severity_rank-serious (worst_severity r.findings (codes "low")),
  worst_severity-rank r.findings (codes "low"),
  low_rank,
)

threat_verdict-order : (s : Severity) → is_allow (threat_verdict s) ≡ not (leb 2 (severity_order s))
threat_verdict-order none_found = refl
threat_verdict-order low = refl
threat_verdict-order medium = refl
threat_verdict-order high = refl
threat_verdict-order critical = refl

severity_verdict-order :
    (s : Severity) → is_allow (severity_verdict s) ≡ not (leb 3 (severity_order s))
severity_verdict-order none_found = refl
severity_verdict-order low = refl
severity_verdict-order medium = refl
severity_verdict-order high = refl
severity_verdict-order critical = refl

-- An injection rated medium or worse.
abbrev pub is_injected : Detection → Bool
is_injected d = d.is_injection && leb 2 (severity_order d.threat_level)

-- An action of the model rated high or worse.
abbrev pub is_ruinous : Text → Screen → Bool
is_ruinous kind screen =
    is_output_kind kind
    && leb 3 (severity_order (screen_severity (combine_screens (screen ∷ []) [])))

-- A report that blocks, or has a high or critical finding that does not.
abbrev pub is_breach : Blocking → Report → Bool
is_breach config r = has_violations r && (should_block config r || any is_serious r.findings)

injection_vote-passes :
    (d : Detection)
    → (is_allow (injection_vote d).verdict && not (has_error (injection_vote d)))
      ≡ not (is_injected d)
unfolding injection_vote
injection_vote-passes d = ground (arith, threat_verdict-order d.threat_level)

destructive_vote-passes :
    (kind : Text) (screen : Screen)
    → (is_allow (destructive_vote kind screen).verdict
        && not (has_error (destructive_vote kind screen)))
      ≡ not (is_ruinous kind screen)
unfolding destructive_vote
destructive_vote-passes kind screen =
    ground (arith, severity_verdict-order (screen_severity (combine_screens (screen ∷ []) [])))

-- When no guard raises, an offline decision allows exactly when there is no injection rated medium or
-- worse, no action of the model rated high or worse, and no report that blocks or has a high or
-- critical finding.
pub decide_offline-allowed :
    (d : Detection) (kind : Text) (screen : Screen) (config : Blocking) (r : Report)
    → is_allow
        (decide_offline
          (voted (injection_vote d))
          (voted (destructive_vote kind screen))
          (voted (policy_vote config r))).outcome
      ≡ (not (is_injected d) && not (is_ruinous kind screen) && not (is_breach config r))
unfolding decide_offline guarded_vote
decide_offline-allowed d kind screen config r =
    resolve-allowed (injection_vote d ∷ destructive_vote kind screen ∷ policy_vote config r ∷ [])
    ∙ ground (
      arith,
      injection_vote-passes d,
      destructive_vote-passes kind screen,
      policy_vote-passes config r,
    )
