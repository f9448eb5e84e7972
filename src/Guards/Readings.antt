-- ===== src/Guards/Readings.antt =====
-- What a combination of policy reports finds, suppresses and blocks:
-- python/src/artzain/tool_call_contract.py and python/src/artzain/policy_enforcement.py.
use cognexus_tools.Common.{
  ℕ, ◌≡◌, refl, sym, ◌∙◌, Bool, true, false, not, Option, none, some, List, [], ◌∷◌, text_key,
  list_beq_iff, any, length, ltb, if◌then◌else◌, Respects, any-add_all_new, any-append, All, arith,
}
use cognexus_tools.Guards.Policy.{
  Finding, Report, same_rule, all_findings, combined_report, combine_policy_reports, Blocking,
  blocks, should_block,
}

-- A report that counts its findings, as every one of `evaluate` does.
abbrev pub IsCounted : Report → Type 0
IsCounted r = r.violation_count ≡ length r.findings

same_rule-severity : (f g : Finding) → same_rule f g ≡ true → f.severity ≡ g.severity
unfolding same_rule
same_rule-severity f g h = ground (arith, h, list_beq_iff f.severity g.severity)

blocks-Respects : (config : Blocking) → Respects same_rule (blocks config)
unfolding blocks
blocks-Respects config f g h = rw (same_rule-severity f g h) refl

any-all_findings :
    (p : Finding → Bool) (rs : List Report)
    → any p (all_findings rs) ≡ any (λ r. any p r.findings) rs
any-all_findings p [] = refl
any-all_findings p (r ∷ rs) =
    any-append p r.findings (all_findings rs) ∙ ground (arith, any-all_findings p rs)

any-combined :
    (p : Finding → Bool) (first : Report) (rest : List Report)
    → Respects same_rule p
    → any p (combined_report first rest).findings ≡ any (λ r. any p r.findings) (first ∷ rest)
any-combined p first rest r =
    any-add_all_new same_rule p r (all_findings rest) first.findings
    ∙ ground (arith, any-all_findings p rest)

counted_blocks :
    (config : Blocking) (n : ℕ) (fs : List Finding)
    → n ≡ length fs
    → (if not (ltb 0 n) then false else any (blocks config) fs) ≡ any (blocks config) fs
counted_blocks config n [] h = ground (arith, h)
counted_blocks config n (f ∷ fs) h = ground (arith, h)

should_block_counted :
    (config : Blocking) (r : Report)
    → IsCounted r
    → should_block config r ≡ any (blocks config) r.findings
unfolding should_block
should_block_counted config r h = counted_blocks config r.violation_count r.findings h

any-should_block :
    (config : Blocking) (rs : List Report)
    → All IsCounted rs
    → any (should_block config) rs ≡ any (λ r. any (blocks config) r.findings) rs
any-should_block config [] h = refl
any-should_block config (r ∷ rs) h =
    ground (arith, should_block_counted config r h.0, any-should_block config rs h.1)

abbrev pub blocked : Blocking → Option Report → Bool
blocked config none = false
blocked config (some r) = should_block config r

-- When every report counts its findings, the combination of several readings is blocked exactly
-- when one of the readings is.
pub combine_policy_reports-blocked :
    (config : Blocking) (rs : List Report)
    → All IsCounted rs
    → blocked config (combine_policy_reports rs) ≡ any (should_block config) rs
unfolding combine_policy_reports
combine_policy_reports-blocked config [] h = refl
combine_policy_reports-blocked config (first ∷ []) h = ground arith
combine_policy_reports-blocked config (first ∷ second ∷ rest) h =
    should_block_counted config (combined_report first (second ∷ rest)) refl
    ∙ any-combined (blocks config) first (second ∷ rest) (blocks-Respects config)
    ∙ sym (any-should_block config (first ∷ second ∷ rest) h)
