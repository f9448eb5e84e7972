-- ===== src/Guards/Again.antt =====
-- Combining a combination again: python/src/artzain/destructive_action_guard.py.
use mathlib.Core.List.{append-nil, append_assoc}
use cognexus_tools.Common.{
  list_beq, ◌≡◌, refl, sym, ap, ◌∙◌, subst, Bool, true, false, ◌||◌, List, [], ◌∷◌, ◌++◌, Text,
  text_key, list_beq_iff, ◌==◌, any, sort_by, insert_by, Bool-cases, inl, inr, arith,
  sort_by-IsDescending, any-sort_by, sort_by_sorted, any-append, any-insert_by, leb,
}
use cognexus_tools.Guards.Screens.{
  Match, Screen, guard_error, error_match, set_default, merge_match, merge_matches, is_failure,
  merge_screens, by_severity, all_matches, first_hash, first_surface, combined, combine_screens,
}

abbrev has_rule : Match → List Match → Bool
has_rule m ms = any (λ x. m.rule_id == x.rule_id) ms

-- No two of one rule, and none the mark of a failure.
abbrev AreFresh : List Match → Type 0
AreFresh [] = Unit
AreFresh (m ∷ ms) = (has_rule m ms ≡ false) × ((m.rule_id == guard_error) ≡ false) × AreFresh ms

has_rule_sym : (m x : Match) → (m.rule_id == x.rule_id) ≡ (x.rule_id == m.rule_id)
has_rule_sym m x =
    ground (arith, list_beq_iff m.rule_id x.rule_id, list_beq_iff x.rule_id m.rule_id)

AreFresh-append :
    (m : Match) (ms : List Match)
    → AreFresh ms
    → has_rule m ms ≡ false
    → (m.rule_id == guard_error) ≡ false
    → AreFresh (ms ++ m ∷ [])
AreFresh-append m [] f h e = (refl, e, tt)
AreFresh-append m (x ∷ xs) f h e = (
  any-append (λ y. x.rule_id == y.rule_id) xs (m ∷ []) ∙ ground (arith, f.0, h, has_rule_sym m x),
  f.1,
  AreFresh-append m xs f.2 (ground (arith, h)) e,
)

set_default-AreFresh :
    (m : Match) (ms : List Match)
    → AreFresh ms
    → (m.rule_id == guard_error) ≡ false
    → AreFresh (set_default m ms)
set_default-AreFresh m ms f e = elim (Bool-cases (has_rule m ms)) [
  | inl t ↦ rw t f
  | inr t ↦ rw t (AreFresh-append m ms f t e)
]

merge_match-AreFresh :
    (disabled : List Text) (m : Match) (s : List Match × Bool)
    → AreFresh s.0
    → AreFresh (merge_match disabled m s).0
merge_match-AreFresh disabled m (merged, failed) f = elim (Bool-cases (m.rule_id == guard_error)) [
  | inl t ↦ rw (merge_match, t) f
  | inr t ↦ elim (Bool-cases (any (λ d. m.rule_id == d) disabled)) [
    | inl off ↦ rw (merge_match, t, off) f
    | inr on ↦ rw (merge_match, t, on) (set_default-AreFresh m merged f t)
  ]
]

merge_matches-AreFresh :
    (disabled : List Text) (ms : List Match) (s : List Match × Bool)
    → AreFresh s.0
    → AreFresh (merge_matches disabled ms s).0
unfolding merge_matches
merge_matches-AreFresh disabled [] s f = f
merge_matches-AreFresh disabled (m ∷ ms) s f =
    merge_matches-AreFresh disabled ms (merge_match disabled m s)
      (merge_match-AreFresh disabled m s f)

merge_screens-AreFresh :
    (disabled : List Text) (rs : List Screen) (s : List Match × Bool)
    → AreFresh s.0
    → AreFresh (merge_screens disabled rs s).0
unfolding merge_screens
merge_screens-AreFresh disabled [] s f = f
merge_screens-AreFresh disabled (r ∷ rs) (merged, failed) f =
    merge_screens-AreFresh disabled rs
      (merge_matches disabled r.matches (merged, failed || is_failure r))
      (merge_matches-AreFresh disabled r.matches (merged, failed || is_failure r) f)

insert_by-AreFresh :
    (m : Match) (ms : List Match)
    → AreFresh ms
    → has_rule m ms ≡ false
    → (m.rule_id == guard_error) ≡ false
    → AreFresh (insert_by by_severity m ms)
insert_by-AreFresh m [] f h e = (refl, e, tt)
insert_by-AreFresh m (x ∷ xs) f h e = elim (Bool-cases (leb (by_severity x) (by_severity m))) [
  | inl t ↦ rw t (h, e, f)
  | inr t ↦ rw t (
    any-insert_by by_severity (λ y. x.rule_id == y.rule_id) m xs
        ∙ ground (arith, f.0, h, has_rule_sym m x),
    f.1,
    insert_by-AreFresh m xs f.2 (ground (arith, h)) e,
  )
]

sort_by-AreFresh : (ms : List Match) → AreFresh ms → AreFresh (sort_by by_severity ms)
sort_by-AreFresh [] f = tt
sort_by-AreFresh (m ∷ ms) f =
    insert_by-AreFresh m (sort_by by_severity ms) (sort_by-AreFresh ms f.2)
      (any-sort_by by_severity (λ y. m.rule_id == y.rule_id) ms ∙ f.0) f.1

AreFresh-middle :
    (m : Match) (seen ms : List Match)
    → AreFresh (seen ++ m ∷ ms)
    → (has_rule m seen ≡ false) × ((m.rule_id == guard_error) ≡ false)
AreFresh-middle m [] ms f = (refl, f.1)
AreFresh-middle m (x ∷ xs) ms f =
    let apart : has_rule x (xs ++ m ∷ ms) ≡ false = f.0 in
    let (rest, own) = AreFresh-middle m xs ms f.2 in
    (
      ground (
        arith,
        rest,
        apart,
        any-append (λ y. x.rule_id == y.rule_id) xs (m ∷ ms),
        has_rule_sym m x,
      ),
      own,
    )

merge_match_fresh :
    (m : Match) (seen : List Match) (failed : Bool)
    → has_rule m seen ≡ false
    → (m.rule_id == guard_error) ≡ false
    → merge_match [] m (seen, failed) ≡ (seen ++ m ∷ [], failed)
merge_match_fresh m seen failed h e = rw (merge_match, e, h) refl

-- Fresh matches are all kept, in their order, behind those that are there.
merge_fresh :
    (ms seen : List Match) (failed : Bool)
    → AreFresh (seen ++ ms)
    → merge_matches [] ms (seen, failed) ≡ (seen ++ ms, failed)
unfolding merge_matches
merge_fresh [] seen failed f = ap (λ x. (x, failed)) (sym (append-nil seen))
merge_fresh (m ∷ ms) seen failed f =
    let (h, e) = AreFresh-middle m seen ms f in
    let joined : seen ++ m ∷ [] ++ ms ≡ seen ++ m ∷ ms = append_assoc seen (m ∷ []) ms in
    ap (merge_matches [] ms) (merge_match_fresh m seen failed h e)
    ∙ merge_fresh ms (seen ++ m ∷ []) failed (subst AreFresh (sym joined) f)
    ∙ ap (λ x. (x, failed)) joined

-- The combination of `combined` with itself, whose matches are these again.
again :
    (ms : List Match) (hash surface : Text)
    → all_matches (merge_matches [] ms ([], false)) ≡ ms
    → combine_screens (combined ms hash surface ∷ []) [] ≡ combined ms hash surface
unfolding combine_screens merge_screens merge_matches
again [] hash surface q = refl
again (m ∷ ms) hash surface q = ap (λ x. combined x hash surface) q

error_merged : merge_match [] error_match ([], false) ≡ ([], true)
unfolding list_beq
error_merged = refl

remerged :
    (merged : List Match) (failed : Bool)
    → AreFresh merged
    → all_matches (merge_matches [] (all_matches (merged, failed)) ([], false))
      ≡ all_matches (merged, failed)
unfolding merge_matches
remerged merged false f =
    let sorted = sort_by by_severity merged in
    ap all_matches (merge_fresh sorted [] false (sort_by-AreFresh merged f))
    ∙ sort_by_sorted by_severity sorted (sort_by-IsDescending by_severity merged)
remerged merged true f =
    let sorted = sort_by by_severity merged in
    ap (λ x. all_matches (merge_matches [] sorted x)) error_merged
    ∙ ap all_matches (merge_fresh sorted [] true (sort_by-AreFresh merged f))
    ∙ ap (λ x. error_match ∷ x)
        (sort_by_sorted by_severity sorted (sort_by-IsDescending by_severity merged))

-- Combining a combination again changes nothing, whatever was combined and disabled.
pub combine_screens_again :
    (rs : List Screen) (disabled : List Text)
    → combine_screens (combine_screens rs disabled ∷ []) [] ≡ combine_screens rs disabled
unfolding combine_screens
combine_screens_again rs disabled =
    again (all_matches (merge_screens disabled rs ([], false))) (first_hash rs) (first_surface rs) (
      remerged (merge_screens disabled rs ([], false)).0 (merge_screens disabled rs ([], false)).1
        (merge_screens-AreFresh disabled rs ([], false) tt))
