-- ===== src/Ledger/Overlap.antt =====
-- The ledger when calls overlap: `learn_sandbox` and `forget_sandbox` of
-- python/src/artzain/openshell/state.py release the lock between their parts.
use cognexus_tools.Common.{
  ◌≡◌, refl, sym, subst, Bool, true, false, ◌||◌, Option, none, some, List, [], ◌∷◌, Dict, Text,
  text_key, pair_key, is_empty, Bool-cases, inl, inr, arith,
}
use cognexus_tools.Journal.Entry.{Json}
use cognexus_tools.Journal.Operations.{File}
use cognexus_tools.Ledger.Operations.{Memory, Named, or_default, learn_sandbox, forget_sandbox}
use cognexus_tools.Ledger.Views.{Config, dict_equal, wanted_of, wanted_in, in_workspace}
use cognexus_tools.Ledger.Gateway.{
  Gateway, save, mark_complete, gateway_learn, gateway_forget, finish_learning, finish_forgetting,
  note_policy_hash, replace_all, replace_workspace,
}
use cognexus_tools.Ledger.Loading.{open_ledger}
use cognexus_tools.Ledger.Tidy.{
  AreKnown, IsTidy, put_last-IsTidy, erase-IsTidy, replaced-IsTidy, replaced_in-IsTidy,
}
use cognexus_tools.Ledger.Sound.{
  IsSound, save-memory, with_names, remember-IsSound, remember_review-IsSound, decided-IsSound,
  cited_review-IsSound, forget_review-IsSound,
}
use cognexus_tools.Ledger.Bounds.{open_ledger-IsBounded}
use cognexus_tools.Ledger.History.{
  Call, puts, ends_learning, drops, ends_forgetting, remembers, asks, reviews, cites, releases,
  learns, forgets, notes, completes, lists_all, lists, step, run,
}

module _ (j : Json) (cfg : Config) where
  -- Every map of the memory is within its bound, and no sandbox is named twice or without an id:
  -- soundness with no hash kept.
  abbrev pub IsFit : Memory → Type 0
  IsFit m = IsSound cfg.limits m []

  no_hash : (d : Dict Named Text) → AreKnown d []
  no_hash d = record { distinct = tt; known = tt }

  renamed :
      (d : Dict Named Text) (m : Memory)
      → IsFit m
      → IsTidy cfg.limits.max_sandboxes d
      → IsFit (record m { sandboxes = d })
  renamed d m s t = with_names cfg.limits d m [] [] s t (no_hash d)

  learn_sandbox-IsFit :
      (workspace name id : Text) (m : Memory)
      → IsFit m
      → IsFit (learn_sandbox cfg.limits workspace name id m)
  unfolding learn_sandbox
  learn_sandbox-IsFit workspace name id m s = elim (Bool-cases (is_empty name || is_empty id)) [
    | inl t ↦ rw t s
    | inr t ↦ rw t (
        renamed _ m s (
          put_last-IsTidy cfg.limits.max_sandboxes (or_default workspace, name) id m.sandboxes
            s.tidy (ground (arith, t))))
  ]

  forget_sandbox-IsFit :
      (workspace name : Text) (m : Memory) → IsFit m → IsFit (forget_sandbox workspace name m)
  unfolding forget_sandbox
  forget_sandbox-IsFit workspace name m s =
      renamed _ m s (erase-IsTidy cfg.limits.max_sandboxes _ m.sandboxes s.tidy)

  finish_learning-memory :
      (w : Bool) (id : Text) (before : Option Text) (g : Gateway j)
      → (finish_learning j cfg w id before g).memory ≡ g.memory
  unfolding finish_learning save
  finish_learning-memory w id before g = ground arith

  finish_forgetting-memory :
      (w : Bool) (gone : Option Text) (g : Gateway j)
      → (finish_forgetting j cfg w gone g).memory ≡ g.memory
  unfolding save
  finish_forgetting-memory w none g = refl
  finish_forgetting-memory w (some gone) g = ground arith

  gateway_learn-memory :
      (w : Bool) (workspace name id : Text) (g : Gateway j)
      → (gateway_learn j cfg w workspace name id g).memory
        ≡ learn_sandbox cfg.limits workspace name id g.memory
  unfolding gateway_learn learn_sandbox save
  gateway_learn-memory w workspace name id g = ground arith

  gateway_forget-memory :
      (w : Bool) (workspace name : Text) (g : Gateway j)
      → (gateway_forget j cfg w workspace name g).memory ≡ forget_sandbox workspace name g.memory
  unfolding gateway_forget
  gateway_forget-memory w workspace name g = finish_forgetting-memory w _ _

  note_policy_hash-memory :
      (w : Bool) (id hash : Text) (g : Gateway j)
      → (note_policy_hash j cfg w id hash g).memory ≡ g.memory
  unfolding note_policy_hash save
  note_policy_hash-memory w id hash g = ground arith

  mark_complete-memory :
      (w complete : Bool) (g : Gateway j) → (mark_complete j cfg w complete g).memory ≡ g.memory
  unfolding mark_complete save
  mark_complete-memory w true g = ground arith
  mark_complete-memory w false g = ground arith

  replace_all-IsFit :
      (w : Bool) (listed : List (Named × Text)) (g : Gateway j)
      → IsFit g.memory
      → IsFit (replace_all j cfg w listed g).memory
  unfolding replace_all
  replace_all-IsFit w listed g s =
      elim (Bool-cases (dict_equal g.memory.sandboxes (wanted_of listed []))) [
        | inl t ↦ rw t s
        | inr t ↦ rw t (
            subst IsFit (sym (save-memory j cfg w _)) (
              renamed _ g.memory s
                (replaced-IsTidy cfg.limits.max_sandboxes listed g.memory.sandboxes s.tidy)))
      ]

  replace_workspace-IsFit :
      (w : Bool) (workspace : Text) (listed : List (Text × Text)) (g : Gateway j)
      → IsFit g.memory
      → IsFit (replace_workspace j cfg w workspace listed g).memory
  unfolding replace_workspace
  replace_workspace-IsFit w workspace listed g s =
      let ws = or_default workspace in
      elim (Bool-cases (dict_equal (in_workspace ws g.memory.sandboxes) (wanted_in ws listed []))) [
        | inl t ↦ rw t s
        | inr t ↦ rw t (
            subst IsFit (sym (save-memory j cfg w _)) (
              renamed _ g.memory s
                (replaced_in-IsTidy cfg.limits.max_sandboxes ws listed g.memory.sandboxes s.tidy)))
      ]

  same_memory : (m n : Memory) → n ≡ m → IsFit m → IsFit n
  same_memory m n q s = subst IsFit (sym q) s

  step-IsFit : (c : Call) (g : Gateway j) → IsFit g.memory → IsFit (step j cfg c g).memory
  unfolding step
  step-IsFit (remembers id method digest sandbox base now) g s =
      remember-IsSound cfg.limits id method digest sandbox base now g.memory [] s
  step-IsFit (asks id now) g s = decided-IsSound cfg.limits id now g.memory [] s
  step-IsFit (reviews key id now) g s = remember_review-IsSound cfg.limits key id now g.memory [] s
  step-IsFit (cites key now) g s = cited_review-IsSound cfg.limits key now g.memory [] s
  step-IsFit (releases key) g s = forget_review-IsSound cfg.limits key g.memory [] s
  step-IsFit (learns w workspace name id) g s =
      same_memory _ _ (gateway_learn-memory w workspace name id g)
        (learn_sandbox-IsFit workspace name id g.memory s)
  step-IsFit (forgets w workspace name) g s =
      same_memory _ _ (gateway_forget-memory w workspace name g)
        (forget_sandbox-IsFit workspace name g.memory s)
  step-IsFit (puts workspace name id) g s = learn_sandbox-IsFit workspace name id g.memory s
  step-IsFit (ends_learning w id before) g s =
      same_memory _ _ (finish_learning-memory w id before g) s
  step-IsFit (drops workspace name) g s = forget_sandbox-IsFit workspace name g.memory s
  step-IsFit (ends_forgetting w seen) g s = same_memory _ _ (finish_forgetting-memory w seen g) s
  step-IsFit (notes w id hash) g s = same_memory _ _ (note_policy_hash-memory w id hash g) s
  step-IsFit (completes w complete) g s = same_memory _ _ (mark_complete-memory w complete g) s
  step-IsFit (lists_all w listed) g s = replace_all-IsFit w listed g s
  step-IsFit (lists w workspace listed) g s = replace_workspace-IsFit w workspace listed g s

  run-fits : (cs : List Call) (g : Gateway j) → IsFit g.memory → IsFit (run j cfg cs g).memory
  unfolding run
  run-fits [] g s = s
  run-fits (c ∷ cs) g s = run-fits cs (step j cfg c g) (step-IsFit c g s)

  -- Whatever file a ledger is opened on, and after any history of calls and of parts of learnings and
  -- forgettings in any order, with any id as the one read before, each map of the memory is within its
  -- bound and no sandbox is named twice or without an id.
  pub run-IsFit : (f : File j) (cs : List Call) → IsFit (run j cfg cs (open_ledger j cfg f)).memory
  run-IsFit f cs =
      let s = open_ledger-IsBounded j cfg f in
      run-fits cs (open_ledger j cfg f) (record {
        tidy = s.tidy;
        known = no_hash _;
        decisions_fit = s.decisions_fit;
        reviews_fit = s.reviews_fit;
      })
