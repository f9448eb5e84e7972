-- ===== src/Ledger/Provenance.antt =====
-- Where a remembered allow comes from: `remember` and `decided` of
-- python/src/artzain/openshell/interceptor.py.
use cognexus_tools.Common.{
  ℕ, ◌+◌, ◌≤◌, ◌≡◌, refl, sym, ap, ◌∙◌, subst, Bool, true, false, Option, none, some, List, [], ◌∷◌,
  Dict, lookup, Text, text_key, is_empty, ltb, Bool-cases, Option-cases, inl, inr, arith, All,
  All-erase, All-put_last, All-trim, lookup-All, none-some_absurd, some-injective,
}
use cognexus_tools.Journal.Entry.{Json}
use cognexus_tools.Journal.Operations.{File}
use cognexus_tools.Ledger.Operations.{
  Limits, Memory, Decided, remember, decided, remember_review, cited_review, forget_review,
  learn_sandbox, forget_sandbox, Named,
}
use cognexus_tools.Ledger.Views.{Config}
use cognexus_tools.Ledger.Gateway.{
  Gateway, finish_learning, finish_forgetting, save, mark_complete, gateway_learn, gateway_forget,
  note_policy_hash, replace_all, replace_workspace,
}
use cognexus_tools.Ledger.Loading.{open_ledger, filled, read_file}
use cognexus_tools.Ledger.Bounds.{open_with_path}
use cognexus_tools.Ledger.History.{
  puts, ends_learning, drops, ends_forgetting, Call, remembers, asks, reviews, cites, releases,
  learns, forgets, notes, completes, lists_all, lists, step, run,
}

module _ (l : Limits) (Q : Text × Decided → Type 0) where
  -- What a call may add to the decisions.
  abbrev pub Adds : Call → Type 0
  Adds (remembers id method digest sandbox base now) = Q (
    id,
    record {
      method = method;
      digest = digest;
      sandbox_id = sandbox;
      base_applied = base;
      expires = now + l.ttl;
    },
  )
  Adds _ = Unit

  remember-All :
      (id method digest sandbox : Text) (base : Bool) (now : ℕ) (m : Memory)
      → Adds (remembers id method digest sandbox base now)
      → All Q m.decisions
      → All Q (remember l id method digest sandbox base now m).decisions
  unfolding remember
  remember-All id method digest sandbox base now m a h = elim (Bool-cases (is_empty id)) [
    | inl t ↦ rw t h
    | inr t ↦ rw t (All-trim Q l.max_decisions _ (All-put_last Q id _ m.decisions h a))
  ]

  decided-All :
      (id : Text) (now : ℕ) (m : Memory) → All Q m.decisions → All Q (decided id now m).1.decisions
  unfolding decided
  decided-All id now m h = elim (Option-cases (lookup id m.decisions)) [
    | inl gone ↦ rw (decided, gone) h
    | inr (e, there) ↦ elim (Bool-cases (ltb e.expires now)) [
      | inl old ↦ rw (decided, there, old) (All-erase Q id m.decisions h)
      | inr young ↦ rw (decided, there, young) h
    ]
  ]

-- What `decided` gives is in the map, and has not expired.
pub decided-lookup :
    (id : Text) (now : ℕ) (m : Memory) (e : Decided)
    → (decided id now m).0 ≡ some e
    → (lookup id m.decisions ≡ some e) × (now ≤ e.expires)
unfolding decided
decided-lookup id now m e q = elim (Option-cases (lookup id m.decisions)) [
  | inl gone ↦
      let nothing : (decided id now m).0 ≡ none = rw (decided, gone) refl in
      none-some_absurd e (sym nothing ∙ q)
  | inr (f, there) ↦ elim (Bool-cases (ltb f.expires now)) [
    | inl old ↦
        let nothing : (decided id now m).0 ≡ none = rw (decided, there, old) refl in
        none-some_absurd e (sym nothing ∙ q)
    | inr young ↦
        let found : (decided id now m).0 ≡ some f = rw (decided, there, young) refl in
        let same : f ≡ e = some-injective f e (sym found ∙ q) in
        (there ∙ ap some same, subst (λ x. now ≤ x.expires) same (ground (arith, young)))
  ]
]

module _ (j : Json) (cfg : Config) where
  abbrev decisions_of : Gateway j → Dict Text Decided
  decisions_of g = g.memory.decisions

  save-decisions : (w : Bool) (g : Gateway j) → decisions_of (save j cfg w g) ≡ decisions_of g
  unfolding save
  save-decisions w g = ground arith

  cited_review-decisions :
      (key : Text) (now : ℕ) (m : Memory) → (cited_review key now m).1.decisions ≡ m.decisions
  unfolding cited_review
  cited_review-decisions key now m = ground arith

  gateway_learn-decisions :
      (w : Bool) (workspace name id : Text) (g : Gateway j)
      → decisions_of (gateway_learn j cfg w workspace name id g) ≡ decisions_of g
  unfolding gateway_learn learn_sandbox save
  gateway_learn-decisions w workspace name id g = ground arith

  gateway_forget-decisions :
      (w : Bool) (workspace name : Text) (g : Gateway j)
      → decisions_of (gateway_forget j cfg w workspace name g) ≡ decisions_of g
  unfolding gateway_forget forget_sandbox save
  gateway_forget-decisions w workspace name g = ground arith

  learn_sandbox-decisions :
      (workspace name id : Text) (m : Memory)
      → (learn_sandbox cfg.limits workspace name id m).decisions ≡ m.decisions
  unfolding learn_sandbox
  learn_sandbox-decisions workspace name id m = ground arith

  finish_learning-decisions :
      (w : Bool) (id : Text) (before : Option Text) (g : Gateway j)
      → decisions_of (finish_learning j cfg w id before g) ≡ decisions_of g
  unfolding finish_learning save
  finish_learning-decisions w id before g = ground arith

  finish_forgetting-decisions :
      (w : Bool) (gone : Option Text) (g : Gateway j)
      → decisions_of (finish_forgetting j cfg w gone g) ≡ decisions_of g
  unfolding save
  finish_forgetting-decisions w none g = refl
  finish_forgetting-decisions w (some gone) g = ground arith

  note_policy_hash-decisions :
      (w : Bool) (id hash : Text) (g : Gateway j)
      → decisions_of (note_policy_hash j cfg w id hash g) ≡ decisions_of g
  unfolding note_policy_hash save
  note_policy_hash-decisions w id hash g = ground arith

  replace_all-decisions :
      (w : Bool) (listed : List (Named × Text)) (g : Gateway j)
      → decisions_of (replace_all j cfg w listed g) ≡ decisions_of g
  unfolding replace_all save
  replace_all-decisions w listed g = ground arith

  replace_workspace-decisions :
      (w : Bool) (workspace : Text) (listed : List (Text × Text)) (g : Gateway j)
      → decisions_of (replace_workspace j cfg w workspace listed g) ≡ decisions_of g
  unfolding replace_workspace save
  replace_workspace-decisions w workspace listed g = ground arith

  mark_complete-decisions :
      (w complete : Bool) (g : Gateway j)
      → decisions_of (mark_complete j cfg w complete g) ≡ decisions_of g
  unfolding mark_complete save
  mark_complete-decisions w true g = ground arith
  mark_complete-decisions w false g = ground arith

  module _ (Q : Text × Decided → Type 0) where
    keeps : (d e : Dict Text Decided) → e ≡ d → All Q d → All Q e
    keeps d e q h = subst (All Q) (sym q) h

    step-All :
        (c : Call) (g : Gateway j)
        → Adds cfg.limits Q c
        → All Q (decisions_of g)
        → All Q (decisions_of (step j cfg c g))
    unfolding step remember_review forget_review forget_sandbox
    step-All (remembers id method digest sandbox base now) g a h =
        remember-All cfg.limits Q id method digest sandbox base now g.memory a h
    step-All (asks id now) g a h = decided-All cfg.limits Q id now g.memory h
    step-All (reviews key id now) g a h = keeps _ _ (ground arith) h
    step-All (cites key now) g a h = keeps _ _ (cited_review-decisions key now g.memory) h
    step-All (releases key) g a h = h
    step-All (learns w workspace name id) g a h =
        keeps _ _ (gateway_learn-decisions w workspace name id g) h
    step-All (forgets w workspace name) g a h =
        keeps _ _ (gateway_forget-decisions w workspace name g) h
    step-All (puts workspace name id) g a h =
        keeps _ _ (learn_sandbox-decisions workspace name id g.memory) h
    step-All (ends_learning w id before) g a h =
        keeps _ _ (finish_learning-decisions w id before g) h
    step-All (drops workspace name) g a h = h
    step-All (ends_forgetting w seen) g a h = keeps _ _ (finish_forgetting-decisions w seen g) h
    step-All (notes w id hash) g a h = keeps _ _ (note_policy_hash-decisions w id hash g) h
    step-All (completes w complete) g a h = keeps _ _ (mark_complete-decisions w complete g) h
    step-All (lists_all w listed) g a h = keeps _ _ (replace_all-decisions w listed g) h
    step-All (lists w workspace listed) g a h =
        keeps _ _ (replace_workspace-decisions w workspace listed g) h

    run-All :
        (cs : List Call) (g : Gateway j)
        → All (Adds cfg.limits Q) cs
        → All Q (decisions_of g)
        → All Q (decisions_of (run j cfg cs g))
    unfolding run
    run-All [] g a h = h
    run-All (c ∷ cs) g a h = run-All cs (step j cfg c g) a.1 (step-All c g a.0 h)

    filled-All :
        (o : Option (Dict Named Text × Dict Text Text × Bool)) (f : File j)
        → All Q (decisions_of (filled j o f))
    filled-All none f = tt
    filled-All (some (sandboxes, hashes, complete)) f = tt

    open_ledger-All : (f : File j) → All Q (decisions_of (open_ledger j cfg f))
    unfolding open_ledger
    open_ledger-All f = elim (Bool-cases cfg.has_path) [
      | inl path ↦
          subst (λ g. All Q (decisions_of g)) (sym (open_with_path j cfg path f))
            (filled-All (read_file j cfg f) f)
      | inr no_path ↦ rw no_path tt
    ]

    -- Whatever the file held, an allow that `decided` finds was put there by a `remember` of the
    -- history, under that id and with that method, digest and sandbox, and its time is not up: a
    -- property that every remembered allow has, the one found has.
    pub run-decided :
        (f : File j) (cs : List Call)
        → All (Adds cfg.limits Q) cs
        → (id : Text) (now : ℕ) (e : Decided)
        → (decided id now (run j cfg cs (open_ledger j cfg f)).memory).0 ≡ some e
        → Q (id, e) × (now ≤ e.expires)
    run-decided f cs a id now e q =
        let g = run j cfg cs (open_ledger j cfg f) in
        let (there, young) = decided-lookup id now g.memory e q in
        (
          lookup-All Q id e (decisions_of g)
              (run-All cs (open_ledger j cfg f) a (open_ledger-All f)) there,
          young,
        )
