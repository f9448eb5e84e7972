-- ===== src/Ledger/Bounds.antt =====
-- The bounds hold after any history, whatever the file held: state.py and interceptor.py of
-- python/src/artzain/openshell.
use cognexus_tools.Common.{
  if◌then◌else◌, ◌≡◌, sym, subst, true, false, ◌||◌, none, some, List, [], ◌∷◌, Dict, lookup,
  insert, Text, text_key, pair_key, is_empty, Bool-cases, Option-cases, inl, inr, arith,
  insert-Distinct, All-insert, All, Distinct, length-trim-le, trim-Distinct, All-trim, ◌>>=◌, ltb,
}
use cognexus_tools.Journal.Entry.{Json}
use cognexus_tools.Journal.Operations.{File, absent, unreadable, holds_value}
use cognexus_tools.Ledger.Operations.{Named, or_default, or_empty}
use cognexus_tools.Ledger.Views.{Config, text_of, k_name, k_id, k_hash, k_workspace}
use cognexus_tools.Ledger.Gateway.{Gateway}
use cognexus_tools.Ledger.Loading.{
  load_fields, load_entry, load_entries, entries_of, is_ours, read_ledger, read_value, read_file,
  filled, open_ledger, max_state_bytes,
}
use cognexus_tools.Ledger.Tidy.{IsSolid, prune-AreKnown}
use cognexus_tools.Ledger.History.{
  Call, is_whole, puts, ends_learning, drops, ends_forgetting, remembers, asks, reviews, cites,
  releases, learns, forgets, notes, completes, lists_all, lists, step, run,
}
use cognexus_tools.Ledger.Sound.{
  IsBounded, remember-IsSound, remember_review-IsSound, decided-IsSound, cited_review-IsSound,
  forget_review-IsSound, gateway_learn-IsBounded, gateway_forget-IsBounded,
  note_policy_hash-IsBounded, mark_complete-IsBounded, replace_all-IsBounded,
  replace_workspace-IsBounded,
}

-- What `_load`'s loop keeps of the two dicts that it fills.
abbrev pub AreFilled : Dict Named Text × Dict Text Text → Type 0
AreFilled (sandboxes, hashes) = Distinct sandboxes × All IsSolid sandboxes × Distinct hashes

module _ (j : Json) where
  insert_hash-Distinct :
      (id hash : Text) (hashes : Dict Text Text)
      → Distinct hashes
      → Distinct (if is_empty hash then hashes else insert id hash hashes)
  insert_hash-Distinct id hash hashes d = elim (Bool-cases (is_empty hash)) [
    | inl t ↦ rw t d
    | inr t ↦ rw t (insert-Distinct id hash hashes d)
  ]

  load_fields-AreFilled :
      (d : Dict Text j.Value) (sandboxes : Dict Named Text) (hashes : Dict Text Text)
      → AreFilled (sandboxes, hashes)
      → AreFilled (load_fields j d (sandboxes, hashes))
  load_fields-AreFilled d sandboxes hashes (ds, solid, dh) =
      let field = λ (k : Text). text_of (or_empty (lookup k d >>= j.as_text)) in
      elim (Bool-cases (is_empty (field k_name) || is_empty (field k_id))) [
        | inl t ↦ rw (load_fields, t) (ds, solid, dh)
        | inr t ↦
            let key : Named = (or_default (field k_workspace), field k_name) in
            rw (load_fields, t)
              (
                insert-Distinct key (field k_id) sandboxes ds,
                All-insert IsSolid key (field k_id) sandboxes solid (ground (arith, t)),
                insert_hash-Distinct (field k_id) (field k_hash) hashes dh,
              )
      ]

  load_entry-AreFilled :
      (v : j.Value) (s : Dict Named Text × Dict Text Text)
      → AreFilled s
      → AreFilled (load_entry j v s)
  load_entry-AreFilled v s h = elim (Option-cases (j.as_object v)) [
    | inl bad ↦ rw (load_entry, bad) h
    | inr (d, good) ↦ rw (load_entry, good) (load_fields-AreFilled d s.0 s.1 h)
  ]

  pub load_entries-AreFilled :
      (vs : List j.Value) (s : Dict Named Text × Dict Text Text)
      → AreFilled s
      → AreFilled (load_entries j vs s)
  unfolding load_entries
  load_entries-AreFilled [] s h = h
  load_entries-AreFilled (v ∷ vs) s h =
      load_entries-AreFilled vs (load_entry j v s) (load_entry-AreFilled v s h)

module _ (j : Json) (cfg : Config) where
  filled-none-IsBounded : (f : File j) → IsBounded j cfg (filled j none f)
  filled-none-IsBounded f = record {
    tidy = record { fits = omega arith; distinct = tt; solid = tt };
    known = record { distinct = tt; known = tt };
    decisions_fit = omega arith;
    reviews_fit = omega arith;
  }

  filled_ledger-IsBounded :
      (doc : Dict Text j.Value) (f : File j)
      → IsBounded j cfg (filled j (some (read_ledger j cfg doc)) f)
  filled_ledger-IsBounded doc f =
      let read = load_entries j (entries_of j doc) ([], []) in
      let (ds, solid, dh) = load_entries-AreFilled j (entries_of j doc) ([], []) (tt, tt, tt) in
      record {
        tidy = record {
          fits = length-trim-le cfg.limits.max_sandboxes read.0;
          distinct = trim-Distinct cfg.limits.max_sandboxes read.0 ds;
          solid = All-trim IsSolid cfg.limits.max_sandboxes read.0 solid;
        };
        known = prune-AreKnown _ read.1 dh;
        decisions_fit = omega arith;
        reviews_fit = omega arith;
      }

  filled_value-IsBounded :
      (v : j.Value) (f : File j) → IsBounded j cfg (filled j (read_value j cfg v) f)
  unfolding read_value
  filled_value-IsBounded v f = elim (Bool-cases (ltb max_state_bytes (j.bytes v))) [
    | inl large ↦ rw large (filled-none-IsBounded f)
    | inr small ↦ elim (Option-cases (j.as_object v)) [
      | inl bad ↦ rw (small, bad) (filled-none-IsBounded f)
      | inr (doc, good) ↦ elim (Bool-cases (is_ours j cfg doc)) [
        | inl ours ↦ rw (small, good, ours) (filled_ledger-IsBounded doc f)
        | inr other ↦ rw (small, good, other) (filled-none-IsBounded f)
      ]
    ]
  ]

  filled_file-IsBounded : (f : File j) → IsBounded j cfg (filled j (read_file j cfg f) f)
  filled_file-IsBounded absent = filled-none-IsBounded absent
  filled_file-IsBounded unreadable = filled-none-IsBounded unreadable
  filled_file-IsBounded (holds_value v) = filled_value-IsBounded v (holds_value v)

  pub open_with_path :
      cfg.has_path ≡ true → (f : File j) → open_ledger j cfg f ≡ filled j (read_file j cfg f) f
  unfolding open_ledger
  open_with_path path f = ground (arith, path)

  open_without_path : cfg.has_path ≡ false → (f : File j) → open_ledger j cfg f ≡ filled j none f
  unfolding open_ledger
  open_without_path no_path f = ground (arith, no_path)

  pub open_ledger-IsBounded : (f : File j) → IsBounded j cfg (open_ledger j cfg f)
  open_ledger-IsBounded f = elim (Bool-cases cfg.has_path) [
    | inl path ↦ subst (IsBounded j cfg) (sym (open_with_path path f)) (filled_file-IsBounded f)
    | inr no_path ↦
        subst (IsBounded j cfg) (sym (open_without_path no_path f)) (filled-none-IsBounded f)
  ]

  step-IsBounded :
      (c : Call) (g : Gateway j)
      → is_whole c ≡ true
      → IsBounded j cfg g
      → IsBounded j cfg (step j cfg c g)
  unfolding step
  step-IsBounded (remembers id method digest sandbox base now) g h s =
      remember-IsSound cfg.limits id method digest sandbox base now g.memory g.hashes s
  step-IsBounded (asks id now) g h s = decided-IsSound cfg.limits id now g.memory g.hashes s
  step-IsBounded (reviews key id now) g h s =
      remember_review-IsSound cfg.limits key id now g.memory g.hashes s
  step-IsBounded (cites key now) g h s = cited_review-IsSound cfg.limits key now g.memory g.hashes s
  step-IsBounded (releases key) g h s = forget_review-IsSound cfg.limits key g.memory g.hashes s
  step-IsBounded (learns w workspace name id) g h s =
      gateway_learn-IsBounded j cfg w workspace name id g s
  step-IsBounded (forgets w workspace name) g h s =
      gateway_forget-IsBounded j cfg w workspace name g s
  step-IsBounded (notes w id hash) g h s = note_policy_hash-IsBounded j cfg w id hash g s
  step-IsBounded (completes w complete) g h s = mark_complete-IsBounded j cfg w complete g s
  step-IsBounded (lists_all w listed) g h s = replace_all-IsBounded j cfg w listed g s
  step-IsBounded (lists w workspace listed) g h s =
      replace_workspace-IsBounded j cfg w workspace listed g s
  step-IsBounded (puts workspace name id) g h s = cc
  step-IsBounded (ends_learning w id before) g h s = cc
  step-IsBounded (drops workspace name) g h s = cc
  step-IsBounded (ends_forgetting w seen) g h s = cc

  run-keeps :
      (cs : List Call) (g : Gateway j)
      → All (λ c. is_whole c ≡ true) cs
      → IsBounded j cfg g
      → IsBounded j cfg (run j cfg cs g)
  unfolding run
  run-keeps [] g h s = s
  run-keeps (c ∷ cs) g h s = run-keeps cs (step j cfg c g) h.1 (step-IsBounded c g h.0 s)

  -- Whatever file a ledger is opened on, and after any history of calls in which nothing comes between
  -- the parts of a learning or a forgetting, each of its maps is within its bound, no sandbox is named
  -- twice or without an id, and every policy hash it keeps is that of a sandbox it knows.
  pub run-IsBounded :
      (f : File j) (cs : List Call)
      → All (λ c. is_whole c ≡ true) cs
      → IsBounded j cfg (run j cfg cs (open_ledger j cfg f))
  run-IsBounded f cs h = run-keeps cs (open_ledger j cfg f) h (open_ledger-IsBounded f)
