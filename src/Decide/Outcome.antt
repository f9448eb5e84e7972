-- ===== src/Decide/Outcome.antt =====
-- What an offline decision rests on: python/src/artzain/decide.py.
use cognexus_tools.Common.{
  ℕ, ◌≡◌, refl, sym, ap, ◌∙◌, Bool, true, false, not, ◌&&◌, ◌||◌, List, [], ◌∷◌, Text, text_key,
  codes, any, nat_beq, ltb, max, if◌then◌else◌, Bool-cases, inl, inr, arith,
}
use cognexus_tools.Guards.Screens.{is_nil}
use cognexus_tools.Decide.Votes.{
  Verdict, allow, review, deny, verdict_rank, Vote, Voted, voted, raised, guarded_vote, has_error,
  strictest, is_allow, all_reasons, resolve, decide_offline,
}

-- The strictest rank among votes.
abbrev pub top_rank : List Vote → ℕ
top_rank [] = 0
top_rank (v ∷ votes) = max (verdict_rank v.verdict) (top_rank votes)

strictest-rank :
    (outcome : Verdict) (votes : List Vote)
    → verdict_rank (strictest outcome votes)
      ≡ (if any has_error votes then 2 else max (verdict_rank outcome) (top_rank votes))
unfolding strictest
strictest-rank outcome [] = ground arith
strictest-rank outcome (v ∷ votes) =
    elim (Bool-cases (ltb (verdict_rank outcome) (verdict_rank v.verdict))) [
      | inl t ↦ rw t (ground (arith, strictest-rank v.verdict votes, t))
      | inr t ↦ rw t (ground (arith, strictest-rank outcome votes, t))
    ]

is_nil-all_reasons :
    (votes : List Vote)
    → is_nil (all_reasons votes)
      ≡ not (any (λ v. not (is_allow v.verdict && not (has_error v))) votes)
unfolding all_reasons
is_nil-all_reasons [] = refl
is_nil-all_reasons (v ∷ votes) = ground (arith, is_nil-all_reasons votes)

-- The outcome is the strictest verdict, and a deny as soon as one vote has an error.
pub resolve-rank :
    (votes : List Vote)
    → verdict_rank (resolve votes).outcome ≡ (if any has_error votes then 2 else top_rank votes)
resolve-rank votes = ground (arith, strictest-rank allow votes)

is_allow-rank : (v : Verdict) → is_allow v ≡ nat_beq (verdict_rank v) 0
is_allow-rank allow = refl
is_allow-rank review = refl
is_allow-rank deny = refl

alarm_rank :
    (votes : List Vote)
    → nat_beq (if any has_error votes then 2 else top_rank votes) 0
      ≡ not (any (λ v. not (is_allow v.verdict && not (has_error v))) votes)
alarm_rank [] = refl
alarm_rank (v ∷ votes) = ground (arith, alarm_rank votes, is_allow-rank v.verdict)

-- The outcome is allow exactly when no vote has an error or another verdict.
pub resolve-allowed :
    (votes : List Vote)
    → is_allow (resolve votes).outcome
      ≡ not (any (λ v. not (is_allow v.verdict && not (has_error v))) votes)
resolve-allowed votes =
    is_allow-rank (strictest allow votes)
    ∙ ap (λ n. nat_beq n 0) (resolve-rank votes)
    ∙ alarm_rank votes

-- A decision that is no allow says why, and an allow has no reasons.
pub resolve-reasons :
    (votes : List Vote) → is_nil (resolve votes).reasons ≡ is_allow (resolve votes).outcome
resolve-reasons votes = elim (Bool-cases (is_allow (strictest allow votes))) [
  | inl t ↦ rw t refl
  | inr t ↦ rw t (is_nil-all_reasons votes ∙ sym (resolve-allowed votes) ∙ t)
]

guarded_vote-error :
    (name kind error : Text) → has_error (guarded_vote name (raised kind error)) ≡ true
unfolding guarded_vote
guarded_vote-error name [] error = refl
guarded_vote-error name (c ∷ kind) error = refl

abbrev pub did_raise : Voted → Bool
did_raise (voted v) = false
did_raise (raised kind error) = true

guarded_vote-has_error :
    (name : Text) (g : Voted) → did_raise g ≡ true → has_error (guarded_vote name g) ≡ true
guarded_vote-has_error name (voted v) h = cc
guarded_vote-has_error name (raised kind error) h = guarded_vote-error name kind error

rank_deny : (v : Verdict) → verdict_rank v ≡ 2 → v ≡ deny
rank_deny allow h = cc
rank_deny review h = cc
rank_deny deny h = refl

strictest-deny :
    (a b c : Vote)
    → (has_error a || has_error b || has_error c) ≡ true
    → strictest allow (a ∷ b ∷ c ∷ []) ≡ deny
strictest-deny a b c h =
    rank_deny (strictest allow (a ∷ b ∷ c ∷ []))
      (strictest-rank allow (a ∷ b ∷ c ∷ []) ∙ ground (arith, h))

-- An offline decision is a deny as soon as one guard raised, whatever the other two say.
pub decide_offline-raised :
    (injection destructive policy : Voted)
    → (did_raise injection || did_raise destructive || did_raise policy) ≡ true
    → (decide_offline injection destructive policy).outcome ≡ deny
unfolding decide_offline
decide_offline-raised injection destructive policy h =
    let a = guarded_vote (codes "prompt-injection") injection in
    let b = guarded_vote (codes "destructive-action") destructive in
    let c = guarded_vote (codes "policy-enforcement") policy in
    strictest-deny a b c (
      ground (
        arith,
        h,
        guarded_vote-has_error (codes "prompt-injection") injection,
        guarded_vote-has_error (codes "destructive-action") destructive,
        guarded_vote-has_error (codes "policy-enforcement") policy,
      ))
