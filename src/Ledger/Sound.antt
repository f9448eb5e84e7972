-- ===== src/Ledger/Sound.antt =====
-- The bounds of a gateway's ledger, kept by every call: interceptor.py and state.py of
-- python/src/artzain/openshell.
use cognexus_tools.Common.{
  list_beq_iff, lookup-All, erase_absent, ℕ, ◌≤◌, ◌≡◌, refl, sym, ap, subst, Bool, true, false,
  ◌||◌, Option, none, some, List, [], Dict, lookup, erase, put_last, insert, trim, Text, text_key,
  pair_key, is_empty, ltb, length, Bool-cases, Option-cases, inl, inr, arith, length-trim-le,
  length-erase-le,
}
use cognexus_tools.Journal.Entry.{Json}
use cognexus_tools.Ledger.Operations.{
  Limits, Memory, Decided, Named, remember_review, cited_review, forget_review, remember, decided,
  learn_sandbox, forget_sandbox, or_default,
}
use cognexus_tools.Ledger.Views.{
  Config, prune, is_id, is_known, text_of, dict_equal, wanted_of, wanted_in, in_workspace,
}
use cognexus_tools.Ledger.Gateway.{
  Gateway, save, changed, mark_complete, gateway_learn, gateway_forget, note_policy_hash,
  replace_all, replace_workspace, with_sandboxes,
}
use cognexus_tools.Ledger.Tidy.{
  relearn-AreKnown, insert-AreKnown, IsSolid, IsTidy, AreKnown, prune-AreKnown, put_last-IsTidy,
  erase-IsTidy, replaced-IsTidy, replaced_in-IsTidy, erase-AreKnown,
}

-- Every map is within its bound, a sandbox's name occurs once, and a hash is some sandbox's.
pub record IsSound (l : Limits) (m : Memory) (hashes : Dict Text Text) : Type 0 where
  pub tidy : IsTidy l.max_sandboxes m.sandboxes
  pub known : AreKnown m.sandboxes hashes
  pub decisions_fit : length m.decisions ≤ l.max_decisions
  pub reviews_fit : length m.reviews ≤ l.max_reviews

module _ (l : Limits) where
  with_decisions :
      (d : Dict Text Decided) (m : Memory) (hs : Dict Text Text)
      → IsSound l m hs
      → length d ≤ l.max_decisions
      → IsSound l (record m { decisions = d }) hs
  with_decisions d m hs s fits = record {
    tidy = s.tidy;
    known = s.known;
    decisions_fit = fits;
    reviews_fit = s.reviews_fit;
  }

  with_reviews :
      (d : Dict Text (Text × ℕ)) (m : Memory) (hs : Dict Text Text)
      → IsSound l m hs
      → length d ≤ l.max_reviews
      → IsSound l (record m { reviews = d }) hs
  with_reviews d m hs s fits = record {
    tidy = s.tidy;
    known = s.known;
    decisions_fit = s.decisions_fit;
    reviews_fit = fits;
  }

  pub with_names :
      (d : Dict Named Text) (m : Memory) (hs hs' : Dict Text Text)
      → IsSound l m hs
      → IsTidy l.max_sandboxes d
      → AreKnown d hs'
      → IsSound l (record m { sandboxes = d }) hs'
  with_names d m hs hs' s tidy known = record {
    tidy = tidy;
    known = known;
    decisions_fit = s.decisions_fit;
    reviews_fit = s.reviews_fit;
  }

  pub remember-IsSound :
      (id method digest sandbox : Text) (base : Bool) (now : ℕ) (m : Memory) (hs : Dict Text Text)
      → IsSound l m hs
      → IsSound l (remember l id method digest sandbox base now m) hs
  unfolding remember
  remember-IsSound id method digest sandbox base now m hs s = elim (Bool-cases (is_empty id)) [
    | inl t ↦ rw t s
    | inr t ↦ rw t (with_decisions _ m hs s (length-trim-le l.max_decisions _))
  ]

  pub remember_review-IsSound :
      (key id : Text) (now : ℕ) (m : Memory) (hs : Dict Text Text)
      → IsSound l m hs
      → IsSound l (remember_review l key id now m) hs
  unfolding remember_review
  remember_review-IsSound key id now m hs s = elim (Bool-cases (is_empty key || is_empty id)) [
    | inl t ↦ rw t s
    | inr t ↦ rw t (with_reviews _ m hs s (length-trim-le l.max_reviews _))
  ]

  pub decided-IsSound :
      (id : Text) (now : ℕ) (m : Memory) (hs : Dict Text Text)
      → IsSound l m hs
      → IsSound l (decided id now m).1 hs
  unfolding decided
  decided-IsSound id now m hs s = elim (Option-cases (lookup id m.decisions)) [
    | inl gone ↦ rw (decided, gone) s
    | inr (entry, there) ↦ elim (Bool-cases (ltb entry.expires now)) [
      | inl old ↦
          rw (decided, there, old)
            (with_decisions _ m hs s
              (omega (arith, length-erase-le id m.decisions, s.decisions_fit)))
      | inr young ↦ rw (decided, there, young) s
    ]
  ]

  pub cited_review-IsSound :
      (key : Text) (now : ℕ) (m : Memory) (hs : Dict Text Text)
      → IsSound l m hs
      → IsSound l (cited_review key now m).1 hs
  unfolding cited_review
  cited_review-IsSound key now m hs s = elim (Option-cases (lookup key m.reviews)) [
    | inl gone ↦ rw (cited_review, gone) s
    | inr (entry, there) ↦ elim (Bool-cases (ltb entry.1 now)) [
      | inl old ↦
          rw (cited_review, there, old)
            (with_reviews _ m hs s (omega (arith, length-erase-le key m.reviews, s.reviews_fit)))
      | inr young ↦ rw (cited_review, there, young) s
    ]
  ]

  pub forget_review-IsSound :
      (key : Text) (m : Memory) (hs : Dict Text Text)
      → IsSound l m hs
      → IsSound l (forget_review key m) hs
  unfolding forget_review
  forget_review-IsSound key m hs s =
      with_reviews _ m hs s (omega (arith, length-erase-le key m.reviews, s.reviews_fit))

module _ (j : Json) (cfg : Config) where
  abbrev pub IsBounded : Gateway j → Type 0
  IsBounded g = IsSound cfg.limits g.memory g.hashes

  pub save-memory : (w : Bool) (g : Gateway j) → (save j cfg w g).memory ≡ g.memory
  unfolding save
  save-memory w g = ground arith

  save-hashes : (w : Bool) (g : Gateway j) → (save j cfg w g).hashes ≡ g.hashes
  unfolding save
  save-hashes w g = ground arith

  pub changed-IsBounded : (w : Bool) (g : Gateway j) → IsBounded g → IsBounded (changed j cfg w g)
  changed-IsBounded w g s =
      subst (λ m. IsSound cfg.limits m (changed j cfg w g).hashes) (sym (save-memory w _))
        (subst (IsSound cfg.limits g.memory) (sym (save-hashes w _)) s)

  with_sandboxes-IsBounded :
      (w : Bool) (d : Dict Named Text) (g : Gateway j)
      → IsBounded g
      → IsTidy cfg.limits.max_sandboxes d
      → IsBounded (changed j cfg w (with_sandboxes j d g))
  with_sandboxes-IsBounded w d g s t = changed-IsBounded w _ (
      with_names cfg.limits d g.memory g.hashes (prune d g.hashes) s t
        (prune-AreKnown d g.hashes s.known.distinct))

  -- The three ways `learn_sandbox` goes.
  learn_names :
      (workspace name id : Text) (m : Memory)
      → (is_empty name || is_empty id) ≡ false
      → learn_sandbox cfg.limits workspace name id m ≡ record m {
        sandboxes =
            trim cfg.limits.max_sandboxes (put_last (or_default workspace, name) id m.sandboxes);
      }
  unfolding learn_sandbox
  learn_names workspace name id m t = rw t refl

  is_id-eq-some : (id : Text) (o : Option Text) → is_id id o ≡ true → o ≡ some id
  is_id-eq-some id none t = ground (arith, t)
  is_id-eq-some id (some before) t = ap some ((list_beq_iff before id).0 t)

  pub gateway_learn-IsBounded :
      (w : Bool) (workspace name id : Text) (g : Gateway j)
      → IsBounded g
      → IsBounded (gateway_learn j cfg w workspace name id g)
  unfolding gateway_learn
  gateway_learn-IsBounded w workspace name id g s =
      let cap = cfg.limits.max_sandboxes in
      let k : Named = (or_default workspace, name) in
      let d = g.memory.sandboxes in
      elim (Bool-cases (is_empty name || is_empty id)) [
        | inl t ↦ rw t s
        | inr t ↦
            let tidy = put_last-IsTidy cap k id d s.tidy (ground (arith, t)) in
            elim (Bool-cases (is_id id (lookup k d))) [
              | inl same ↦
                  rw (t, same, learn_names workspace name id g.memory t)
                    (with_names cfg.limits _ g.memory g.hashes g.hashes s tidy (
                      relearn-AreKnown cap k id d g.hashes s.tidy
                        (is_id-eq-some id (lookup k d) same) s.known))
              | inr other ↦
                  rw (t, other, learn_names workspace name id g.memory t)
                    (with_sandboxes-IsBounded w _ g s tidy)
            ]
      ]

  pub gateway_forget-IsBounded :
      (w : Bool) (workspace name : Text) (g : Gateway j)
      → IsBounded g
      → IsBounded (gateway_forget j cfg w workspace name g)
  unfolding gateway_forget forget_sandbox
  gateway_forget-IsBounded w workspace name g s =
      let k : Named = (or_default workspace, name) in
      let d = g.memory.sandboxes in
      let tidy = erase-IsTidy cfg.limits.max_sandboxes k d s.tidy in
      elim (Option-cases (lookup k d)) [
        | inl gone ↦ rw gone (
            subst (λ x. IsSound cfg.limits (record g.memory { sandboxes = x }) g.hashes)
              (sym (erase_absent k d gone)) s)
        | inr (id, there) ↦
            rw (there, lookup-All IsSolid k id d s.tidy.solid there)
              (changed-IsBounded w _ (
                with_names cfg.limits (erase k d) g.memory g.hashes (erase id g.hashes) s tidy
                  (erase-AreKnown id k d g.hashes s.tidy.distinct there s.known)))
      ]

  pub note_policy_hash-IsBounded :
      (w : Bool) (id hash : Text) (g : Gateway j)
      → IsBounded g
      → IsBounded (note_policy_hash j cfg w id hash g)
  unfolding note_policy_hash
  note_policy_hash-IsBounded w id hash g s =
      let i = text_of id in
      let h = text_of hash in
      elim (Bool-cases (is_empty i || is_empty h)) [
        | inl t ↦ rw t s
        | inr t ↦ elim (Bool-cases (is_known i g.memory.sandboxes)) [
          | inr strange ↦ rw (t, strange) s
          | inl known ↦ elim (Bool-cases (is_id h (lookup i g.hashes))) [
            | inl same ↦ rw (t, known, same) s
            | inr other ↦
                rw (t, known, other)
                  (changed-IsBounded w _ (
                    with_names cfg.limits g.memory.sandboxes g.memory g.hashes (insert i h g.hashes)
                      s s.tidy (insert-AreKnown i h g.memory.sandboxes g.hashes known s.known)))
          ]
        ]
      ]

  pub mark_complete-IsBounded :
      (w complete : Bool) (g : Gateway j)
      → IsBounded g
      → IsBounded (mark_complete j cfg w complete g)
  unfolding mark_complete
  mark_complete-IsBounded w true g s = elim (Bool-cases g.complete) [
    | inl t ↦ rw t s
    | inr t ↦ rw t (changed-IsBounded w _ s)
  ]
  mark_complete-IsBounded w false g s = elim (Bool-cases g.complete) [
    | inl t ↦ rw t (changed-IsBounded w _ s)
    | inr t ↦ rw t s
  ]

  pub replace_all-IsBounded :
      (w : Bool) (listed : List (Named × Text)) (g : Gateway j)
      → IsBounded g
      → IsBounded (replace_all j cfg w listed g)
  unfolding replace_all
  replace_all-IsBounded w listed g s =
      elim (Bool-cases (dict_equal g.memory.sandboxes (wanted_of listed []))) [
        | inl t ↦ rw t s
        | inr t ↦ rw t (
            with_sandboxes-IsBounded w _ g s
              (replaced-IsTidy cfg.limits.max_sandboxes listed g.memory.sandboxes s.tidy))
      ]

  pub replace_workspace-IsBounded :
      (w : Bool) (workspace : Text) (listed : List (Text × Text)) (g : Gateway j)
      → IsBounded g
      → IsBounded (replace_workspace j cfg w workspace listed g)
  unfolding replace_workspace
  replace_workspace-IsBounded w workspace listed g s =
      let ws = or_default workspace in
      elim (Bool-cases (dict_equal (in_workspace ws g.memory.sandboxes) (wanted_in ws listed []))) [
        | inl t ↦ rw t s
        | inr t ↦ rw t (
            with_sandboxes-IsBounded w _ g s
              (replaced_in-IsTidy cfg.limits.max_sandboxes ws listed g.memory.sandboxes s.tidy))
      ]
