-- ===== src/Journal/History.antt =====
-- A history of the journal's operations: the chain holds throughout, and a file that was written
-- holds the journal.
use cognexus_tools.Common.{
  sym, subst, ℕ, ◌≡◌, ap, ◌∙◌, Bool, true, false, List, [], ◌∷◌, Dict, Text, Option-cases, inl, inr,
}
use cognexus_tools.Journal.Entry.{Json}
use cognexus_tools.Journal.Operations.{
  Config, Journal, File, append, settle, settle_through, open_journal,
}
use cognexus_tools.Journal.Saving.{
  contents, IsIntact, Fits, IsSound, append_plain-IsSound, settle_list-IsSound,
  settle_through-IsSound,
}
use cognexus_tools.Journal.Durable.{append_taken, append_refused}
use cognexus_tools.Journal.Opening.{open_journal-contents, open_journal-IsSound}

-- A call, and whether each save it may make succeeds.
pub data Call (j : Json) : Type 0 where
  appends :
      (kind : Text) (body : Dict Text j.Value) (durable : Bool) (at_ms : ℕ) (first second : Bool)
      → Call j
  settles settles_through : (seq : ℕ) (writable : Bool) → Call j

module _ (j : Json) (cfg : Config) where
  unfoldable pub step : Call j → Journal j → Journal j
  step (appends kind body durable at_ms first second) s =
      (append j cfg kind body durable at_ms first second s).1
  step (settles seq writable) s = (settle j cfg seq writable s).1
  step (settles_through seq writable) s = (settle_through j cfg seq writable s).1

  unfoldable pub run : List (Call j) → Journal j → Journal j
  run [] s = s
  run (c ∷ cs) s = run cs (step c s)

  module _ (path : cfg.has_path ≡ true) where
    append-IsSound :
        (kind : Text) (body : Dict Text j.Value) (durable : Bool) (at_ms : ℕ) (w v : Bool)
        (s : Journal j)
        → (IsSound j cfg) s
        → (IsSound j cfg) (append j cfg kind body durable at_ms w v s).1
    append-IsSound kind body durable at_ms w v s i = elim (Option-cases (j.plain body)) [
      | inl bad ↦
          subst (IsSound j cfg)
            (sym (ap (λ r. r.1) (append_refused j cfg kind body durable at_ms w v s bad))) i
      | inr (plain, q) ↦
          subst (IsSound j cfg)
            (sym (ap (λ r. r.1) (append_taken j cfg kind body plain durable at_ms w v s q)))
            ((append_plain-IsSound j cfg path) kind plain durable at_ms w v s i)
    ]

    step-IsSound : (c : Call j) (s : Journal j) → (IsSound j cfg) s → (IsSound j cfg) (step c s)
    unfolding step settle
    step-IsSound (appends kind body durable at_ms w v) s i =
        append-IsSound kind body durable at_ms w v s i
    step-IsSound (settles seq w) s i = (settle_list-IsSound j cfg path) seq w s.entries s i.0.1 i
    step-IsSound (settles_through seq w) s i = (settle_through-IsSound j cfg path) seq w s i

    run-IsSound :
        (cs : List (Call j)) (s : Journal j) → (IsSound j cfg) s → (IsSound j cfg) (run cs s)
    unfolding run
    run-IsSound [] s i = i
    run-IsSound (c ∷ cs) s i = run-IsSound cs (step c s) (step-IsSound c s i)

  -- Whatever file a journal with a path is opened on, and whatever saves fail, the base is a hash
  -- and the entries that wait follow it and one another, in number and in hash, after any history
  -- of appends and settlings.
  pub run-IsIntact :
      (path : cfg.has_path ≡ true) (moves : Bool) (f : File j) (cs : List (Call j))
      → (IsIntact j cfg) (run cs (open_journal j cfg moves f))
  run-IsIntact path moves f cs =
      (run-IsSound path cs (open_journal j cfg moves f)
        ((open_journal-IsSound j cfg) path moves f)).0

  -- After any history whose last save did not fail, and whose file is no larger than `_load`
  -- takes, a restart on the file gives back the base and the entries that waited: none is lost,
  -- added or reordered.
  pub run-reopened :
      (path : cfg.has_path ≡ true) (moves again : Bool) (f : File j) (cs : List (Call j))
      → let s = run cs (open_journal j cfg moves f) in
        s.save_failed ≡ false
        → (Fits j cfg) s.file
        → (contents j cfg) (open_journal j cfg again s.file) ≡ (contents j cfg) s
  run-reopened path moves again f cs ok fits =
      let s = run cs (open_journal j cfg moves f) in
      (open_journal-contents j cfg) path again s.file
      ∙ (run-IsSound path cs (open_journal j cfg moves f)
            ((open_journal-IsSound j cfg) path moves f)).1
          ok fits
