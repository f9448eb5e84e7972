-- ===== src/Decide/Parents.antt =====
-- What the parents of a request are, python/src/artzain/decide.py.
use cognexus_tools.Common.{
  ℕ, ◌≤◌, ◌<◌, ◌≡◌, refl, true, false, none, some, List, [], ◌∷◌, ◌++◌, Text, strip, take,
  has_control, has_control-take, length-take, length-append, is_empty, length, nat_beq, Bool-cases,
  inl, inr, arith, >>=-eq-some, some-injective, if-true, if-false, none-some_absurd, sym, ◌∙◌,
  subst, list_beq_iff, All, if◌then◌else◌,
}
use cognexus_tools.Decide.Request.{bounded_text, is_among, add_parent, collect_parents, parent_ids}

-- A text as the request carries it: at most so many characters, none of them a control.
pub record IsBounded (width : ℕ) (t : Text) : Type 0 where
  pub short : length t ≤ width
  pub printable : has_control t ≡ false

bounded_text_control :
    (value : Text) (width : ℕ) → has_control (strip value) ≡ true → bounded_text value width ≡ none
unfolding bounded_text
bounded_text_control value width bad = rw bad refl

bounded_text_printable :
    (value : Text) (width : ℕ)
    → has_control (strip value) ≡ false
    → bounded_text value width ≡ some (take width (strip value))
unfolding bounded_text
bounded_text_printable value width good = rw good refl

pub bounded_text-IsBounded :
    (value : Text) (width : ℕ) (t : Text) → bounded_text value width ≡ some t → IsBounded width t
bounded_text-IsBounded value width t q = elim (Bool-cases (has_control (strip value))) [
  | inl bad ↦ none-some_absurd t (sym (bounded_text_control value width bad) ∙ q)
  | inr good ↦
      subst (IsBounded width)
        (some-injective _ _ (sym (bounded_text_printable value width good) ∙ q))
        (record {
          short = omega (arith, length-take width (strip value));
          printable = has_control-take width (strip value) good;
        })
]

abbrev pub AllDistinct : List Text → Type 0
AllDistinct [] = Unit
AllDistinct (t ∷ ts) = (is_among t ts ≡ false) × AllDistinct ts

is_among-append :
    (t u : Text) (ts : List Text)
    → is_among t ts ≡ false
    → is_among u (t ∷ ts) ≡ false
    → is_among t (ts ++ u ∷ []) ≡ false
is_among-append t u [] h k = ground (arith, list_beq_iff t u, list_beq_iff u t)
is_among-append t u (v ∷ ts) h k =
    ground (arith, list_beq_iff t u, list_beq_iff u t, is_among-append t u ts)

AllDistinct-append :
    (u : Text) (ts : List Text)
    → AllDistinct ts
    → is_among u ts ≡ false
    → AllDistinct (ts ++ u ∷ [])
AllDistinct-append u [] d k = (refl, tt)
AllDistinct-append u (t ∷ ts) (h, d) k =
    (is_among-append t u ts h k, AllDistinct-append u ts d (ground arith))

-- A parent as the request carries it: bounded, and not empty.
abbrev pub IsParent : Text → Type 0
IsParent t = IsBounded 64 t × (is_empty t ≡ false)

-- At most 16 parents, no two the same, each bounded and not empty.
abbrev pub AreParents : List Text → Type 0
AreParents ts = (length ts ≤ 16) × AllDistinct ts × All IsParent ts

All-append :
    (t : Text) (ts : List Text) → All IsParent ts → IsParent t → All IsParent (ts ++ t ∷ [])
All-append t [] all p = (p, tt)
All-append t (u ∷ ts) (q, all) p = (q, All-append t ts all p)

add_parent-AreParents :
    (t : Text) (ts : List Text)
    → IsBounded 64 t
    → AreParents ts
    → length ts < 16
    → AreParents (add_parent t ts)
add_parent-AreParents t ts b (short, d, all) room = elim (Bool-cases (is_empty t)) [
  | inl bare ↦ rw bare (short, d, all)
  | inr solid ↦ elim (Bool-cases (is_among t ts)) [
    | inl old ↦ rw (solid, old) (short, d, all)
    | inr new ↦
        rw (solid, new)
          (
            omega (arith, room, length-append ts (t ∷ [])),
            AllDistinct-append t ts d new,
            All-append t ts all (b, solid),
          )
  ]
]

collect_parents-AreParents :
    (items ts ps : List Text)
    → AreParents ts
    → length ts < 16
    → collect_parents items ts ≡ some ps
    → AreParents ps
unfolding collect_parents
collect_parents-AreParents [] ts ps a room q = subst AreParents (some-injective _ _ q) a
collect_parents-AreParents (item ∷ items) ts ps a room q =
    let (t, q1, r1) =
      >>=-eq-some (bounded_text item 64)
        (λ t.
          if nat_beq (length (add_parent t ts)) 16
          then some (add_parent t ts)
          else collect_parents items (add_parent t ts))
        q in
    let next = add_parent-AreParents t ts (bounded_text-IsBounded item 64 t q1) a room in
    elim (Bool-cases (nat_beq (length (add_parent t ts)) 16)) [
      | inl full ↦
          subst AreParents
            (some-injective _ _ (
              sym (
                if-true (nat_beq (length (add_parent t ts)) 16) (some (add_parent t ts))
                  (collect_parents items (add_parent t ts)) full)
              ∙ r1))
            next
      | inr left ↦
          collect_parents-AreParents items (add_parent t ts) ps next (ground (arith, next.0)) (
            sym (
              if-false (nat_beq (length (add_parent t ts)) 16) (some (add_parent t ts))
                (collect_parents items (add_parent t ts)) left)
            ∙ r1)
    ]

-- Whatever parents a caller names, `_parent_ids` raises, or answers with at most 16 ids, no two
-- the same, each of 1 to 64 characters with no control character.
pub parent_ids-AreParents : (items ps : List Text) → parent_ids items ≡ some ps → AreParents ps
parent_ids-AreParents items ps q =
    collect_parents-AreParents items [] ps (omega arith, tt, tt) (omega arith) q
