-- ===== src/Guards/Suppressed.antt =====
-- What a combination of policy reports records as suppressed:
-- python/src/artzain/tool_call_contract.py.
use cognexus_tools.Common.{
  ◌≡◌, refl, sym, ap, ◌∙◌, Bool, true, false, not, ◌&&◌, ◌||◌, List, [], ◌∷◌, text_key,
  list_beq_iff, any, add_new, Respects, any-add_new, Bool-cases, inl, inr, arith,
}
use cognexus_tools.Guards.Policy.{
  Finding, Report, same_rule, same_pattern, all_findings, all_suppressed, record_suppressed,
  combined_report,
}

same_rule-left : (f g h : Finding) → same_rule f g ≡ true → same_rule f h ≡ same_rule g h
unfolding same_rule
same_rule-left f g h t =
    let id : f.rule_id ≡ g.rule_id = ground (arith, t, list_beq_iff f.rule_id g.rule_id) in
    let title : f.rule_title ≡ g.rule_title =
      ground (arith, t, list_beq_iff f.rule_title g.rule_title) in
    let category : f.category ≡ g.category =
      ground (arith, t, list_beq_iff f.category g.category) in
    let severity : f.severity ≡ g.severity =
      ground (arith, t, list_beq_iff f.severity g.severity) in
    let summary : f.summary ≡ g.summary = ground (arith, t, list_beq_iff f.summary g.summary) in
    rw (id, title, category, severity, summary) refl

same_rule_refl : (f : Finding) → same_rule f f ≡ true
unfolding same_rule
same_rule_refl f =
    rw
      (
        (list_beq_iff f.rule_id f.rule_id).1 refl,
        (list_beq_iff f.rule_title f.rule_title).1 refl,
        (list_beq_iff f.category f.category).1 refl,
        (list_beq_iff f.severity f.severity).1 refl,
        (list_beq_iff f.summary f.summary).1 refl,
      )
      refl

same_rule_sym : (f g : Finding) → same_rule f g ≡ true → same_rule g f ≡ true
same_rule_sym f g t = sym (same_rule-left f g f t) ∙ same_rule_refl f

same_pattern-left :
    (f g h : Finding) → same_pattern f g ≡ true → same_pattern f h ≡ same_pattern g h
same_pattern-left f g h t =
    let pattern : f.matched_pattern ≡ g.matched_pattern =
      ground (arith, t, list_beq_iff f.matched_pattern g.matched_pattern) in
    rw (same_rule-left f g h (ground (arith, t)), pattern) refl

same_pattern_sym : (f g : Finding) → same_pattern f g ≡ true → same_pattern g f ≡ true
same_pattern_sym f g t =
    let pattern : f.matched_pattern ≡ g.matched_pattern =
      ground (arith, t, list_beq_iff f.matched_pattern g.matched_pattern) in
    ground (
      arith,
      same_rule_sym f g (ground (arith, t)),
      list_beq_iff g.matched_pattern f.matched_pattern,
      pattern,
    )

same_pattern-right :
    (s f g : Finding) → same_pattern f g ≡ true → same_pattern s f ≡ same_pattern s g
same_pattern-right s f g t = elim (Bool-cases (same_pattern s f)) [
  | inl a ↦ a ∙ sym t ∙ sym (same_pattern-left s f g a)
  | inr a ↦ elim (Bool-cases (same_pattern s g)) [
    | inl b ↦ same_pattern-left s g f b ∙ same_pattern_sym f g t ∙ sym b
    | inr b ↦ a ∙ sym b
  ]
]

in_found-Respects : (found : List Finding) → Respects same_pattern (λ x. any (same_pattern x) found)
in_found-Respects [] x y h = refl
in_found-Respects (f ∷ fs) x y h = rw (same_pattern-left x y f h, in_found-Respects fs x y h) refl

-- The entry is found, so that what is like it is found too.
inner :
    (k es e found : Bool)
    → (e ≡ true → found ≡ true)
    → (k || es && not found) ≡ (k || (e || es) && not found)
inner k es false found h = refl
inner k es true found h = rw (h refl) ground arith

-- The entry is not found.
outer :
    (k es e found : Bool)
    → (e ≡ true → found ≡ false)
    → ((k || e) || es && not found) ≡ (k || (e || es) && not found)
outer k es false found h = ground arith
outer k es true found h = rw (h refl) ground arith

record_suppressed-any :
    (s : Finding) (found entries kept : List Finding)
    → any (same_pattern s) (record_suppressed found entries kept) ≡ (
        any (same_pattern s) kept
        || any (same_pattern s) entries && not (any (same_pattern s) found))
record_suppressed-any s found [] kept = ground arith
record_suppressed-any s found (e ∷ es) kept = elim (Bool-cases (any (same_pattern e) found)) [
  | inl t ↦ rw t (
      record_suppressed-any s found es kept
      ∙ inner (any (same_pattern s) kept) (any (same_pattern s) es) (same_pattern s e)
          (any (same_pattern s) found) (λ h. in_found-Respects found s e h ∙ t))
  | inr t ↦ rw t (
      record_suppressed-any s found es (add_new same_pattern e kept)
      ∙ ap (λ b. b || any (same_pattern s) es && not (any (same_pattern s) found))
          (any-add_new same_pattern (same_pattern s) (same_pattern-right s) e kept)
      ∙ outer (any (same_pattern s) kept) (any (same_pattern s) es) (same_pattern s e)
          (any (same_pattern s) found) (λ h. in_found-Respects found s e h ∙ t))
]

-- A pattern is recorded as suppressed by the combination of several readings exactly when one of
-- them suppresses it and none reports it as a finding.
pub combined_report-suppressed :
    (s : Finding) (first : Report) (rest : List Report)
    → any (same_pattern s) (combined_report first rest).suppressed ≡ (
        any (same_pattern s) (all_suppressed (first ∷ rest))
        && not (any (same_pattern s) (all_findings (first ∷ rest))))
combined_report-suppressed s first rest =
    record_suppressed-any s (all_findings (first ∷ rest)) (all_suppressed (first ∷ rest)) []
    ∙ ground arith
