-- ===== src/Ledger/Replace.antt =====
-- What a listing of the gateway makes of the ledger: `replace_all` of
-- python/src/artzain/openshell/state.py.
use cognexus_tools.Common.{
  ℕ, ◌≤◌, ◌≡◌, refl, sym, ap, ◌∙◌, subst, Bool, true, false, Option, none, some, List, [], ◌∷◌,
  Dict, lookup, contains, insert_all, keep, Text, text_key, pair_key, length, Bool-cases,
  Option-cases, inl, inr, arith, Distinct, lookup-refilled, length-le-length, lookup-trim,
  trim_fits, insert_all-Distinct, keep-Distinct, list_beq_iff, is_some, none-some_absurd,
}
use cognexus_tools.Journal.Entry.{Json}
use cognexus_tools.Ledger.Operations.{Named}
use cognexus_tools.Ledger.Views.{Config, is_id, has_items, dict_equal, wanted_of, replaced}
use cognexus_tools.Ledger.Gateway.{Gateway, replace_all}
use cognexus_tools.Ledger.Tidy.{wanted_of-Distinct}
use cognexus_tools.Ledger.Sound.{IsBounded, save-memory}

is_id-eq-some : (id : Text) (o : Option Text) → is_id id o ≡ true → o ≡ some id
is_id-eq-some id none t = ground (arith, t)
is_id-eq-some id (some before) t = ap some ((list_beq_iff before id).0 t)

has_items-lookup :
    (k : Named) (id : Text) (c d : Dict Named Text)
    → has_items c d ≡ true
    → lookup k c ≡ some id
    → lookup k d ≡ some id
has_items-lookup k id [] d t q = none-some_absurd id q
has_items-lookup k id ((i, v) ∷ c) d t q = elim (Bool-cases (pair_key.same k i)) [
  | inl s ↦
      let there : lookup i d ≡ some v = is_id-eq-some v (lookup i d) (ground (arith, t)) in
      let same : v ≡ id = ground (arith, q, s) in
      subst (λ x. lookup x d ≡ some id) (sym ((pair_key.same_iff k i).0 s)) (there ∙ ap some same)
  | inr s ↦ has_items-lookup k id c d (ground (arith, t)) (ground (arith, q, s))
]

-- Two dicts that are equal in Python look up alike.
dict_equal-lookup :
    (k : Named) (c d : Dict Named Text) → dict_equal c d ≡ true → lookup k c ≡ lookup k d
dict_equal-lookup k c d t = elim (Option-cases (lookup k c)) [
  | inr (id, q) ↦ q ∙ sym (has_items-lookup k id c d (ground (arith, t)) q)
  | inl gone ↦ elim (Option-cases (lookup k d)) [
    | inl none_there ↦ gone ∙ sym none_there
    | inr (id, q) ↦ has_items-lookup k id d c (ground (arith, t)) q ∙ sym q
  ]
]

module _ (cap : ℕ) (wanted sandboxes : Dict Named Text) (dw : Distinct wanted)
    (ds : Distinct sandboxes) where
  abbrev refilled : Dict Named Text
  refilled = insert_all wanted (keep (λ e. contains e.0 wanted) sandboxes)

  refilled-Distinct : Distinct refilled
  refilled-Distinct =
      insert_all-Distinct wanted (keep (λ e. contains e.0 wanted) sandboxes)
        (keep-Distinct (λ e. contains e.0 wanted) sandboxes ds)

  -- No sandbox stays that the listing does not have.
  replaced-wanted :
      (k : Named) (id : Text)
      → lookup k (replaced cap wanted sandboxes) ≡ some id
      → lookup k wanted ≡ some id
  replaced-wanted k id q =
      sym (lookup-refilled k wanted sandboxes dw)
      ∙ lookup-trim k id cap refilled refilled-Distinct q

  replaced-lookup :
      length wanted ≤ cap → (k : Named) → lookup k (replaced cap wanted sandboxes) ≡ lookup k wanted
  replaced-lookup fits k =
      let short : length refilled ≤ length wanted =
        length-le-length refilled wanted refilled-Distinct
          (λ i t. ap is_some (sym (lookup-refilled i wanted sandboxes dw)) ∙ t) in
      ap (lookup k) (trim_fits cap refilled (omega (arith, short, fits)))
      ∙ lookup-refilled k wanted sandboxes dw

module _ (j : Json) (cfg : Config) where
  replace_all_names :
      (w : Bool) (listed : List (Named × Text)) (g : Gateway j)
      → dict_equal g.memory.sandboxes (wanted_of listed []) ≡ false
      → (replace_all j cfg w listed g).memory.sandboxes
        ≡ replaced cfg.limits.max_sandboxes (wanted_of listed []) g.memory.sandboxes
  unfolding replace_all
  replace_all_names w listed g t = rw t (ap (λ m. m.sandboxes) (save-memory j cfg w _))

  replace_all_same :
      (w : Bool) (listed : List (Named × Text)) (g : Gateway j)
      → dict_equal g.memory.sandboxes (wanted_of listed []) ≡ true
      → replace_all j cfg w listed g ≡ g
  unfolding replace_all
  replace_all_same w listed g t = rw t refl

  -- After a listing of the whole gateway that is within the bound, the ledger maps each name as
  -- the listing does, and no other name: a sandbox that is not listed is gone.
  pub replace_all-lookup :
      (w : Bool) (listed : List (Named × Text)) (g : Gateway j)
      → IsBounded j cfg g
      → length (wanted_of listed []) ≤ cfg.limits.max_sandboxes
      → (k : Named)
      → lookup k (replace_all j cfg w listed g).memory.sandboxes ≡ lookup k (wanted_of listed [])
  replace_all-lookup w listed g s fits k =
      let wanted = wanted_of listed [] in
      elim (Bool-cases (dict_equal g.memory.sandboxes wanted)) [
        | inl t ↦
            ap (λ r. lookup k r.memory.sandboxes) (replace_all_same w listed g t)
            ∙ dict_equal-lookup k g.memory.sandboxes wanted t
        | inr t ↦
            ap (lookup k) (replace_all_names w listed g t)
            ∙ replaced-lookup cfg.limits.max_sandboxes wanted g.memory.sandboxes
                (wanted_of-Distinct listed [] tt) s.tidy.distinct fits k
      ]

  -- However long the listing is, every sandbox known after it is one that it names, with the id
  -- that it gives.
  pub replace_all-wanted :
      (w : Bool) (listed : List (Named × Text)) (g : Gateway j)
      → IsBounded j cfg g
      → (k : Named) (id : Text) → lookup k (replace_all j cfg w listed g).memory.sandboxes ≡ some id
      → lookup k (wanted_of listed []) ≡ some id
  replace_all-wanted w listed g s k id q =
      let wanted = wanted_of listed [] in
      elim (Bool-cases (dict_equal g.memory.sandboxes wanted)) [
        | inl t ↦
            sym (
              ap (λ r. lookup k r.memory.sandboxes) (replace_all_same w listed g t)
              ∙ dict_equal-lookup k g.memory.sandboxes wanted t)
            ∙ q
        | inr t ↦
            replaced-wanted cfg.limits.max_sandboxes wanted g.memory.sandboxes
              (wanted_of-Distinct listed [] tt) s.tidy.distinct k id
              (sym (ap (lookup k) (replace_all_names w listed g t)) ∙ q)
      ]
