-- ===== src/Journal/Opening.antt =====
-- What opening a journal on a file gives, whatever the file holds.
use cognexus_tools.Common.{
  sym, subst, ◌≡◌, refl, ap, ◌∙◌, Bool, true, false, Dict, Text, ltb, Bool-cases, Option-cases, inl,
  inr, arith,
}
use cognexus_tools.Journal.Entry.{Json, is_hash, genesis}
use cognexus_tools.Journal.Reading.{max_file_bytes, verified}
use cognexus_tools.Journal.Operations.{
  Config, File, absent, unreadable, holds_value, open_journal, read_value, Loaded, replayed,
  anothers, damaged, load_value, read_document, version_holds, gateway_holds,
}
use cognexus_tools.Journal.Chaining.{verified-IsChained}
use cognexus_tools.Journal.Saving.{contents, Holds, replay, reopened, IsSound}

genesis-is_hash : is_hash genesis ≡ true
genesis-is_hash = refl

module _ (j : Json) (cfg : Config) (path : cfg.has_path ≡ true) where
  load_value-contents :
      (r : Loaded j) (moves : Bool) (f : File j)
      → (contents j cfg) (load_value j r moves f) ≡ (replay j cfg) r
  load_value-contents (replayed ((n, h), es)) moves f = refl
  load_value-contents anothers moves f = refl
  load_value-contents damaged moves f = refl

  open_journal-value :
      (moves : Bool) (v : j.Value)
      → open_journal j cfg moves (holds_value v)
        ≡ load_value j (read_value j cfg v) moves (holds_value v)
  unfolding open_journal
  open_journal-value moves v = ground arith

  pub open_journal-contents :
      (moves : Bool) (f : File j)
      → (contents j cfg) (open_journal j cfg moves f) ≡ (reopened j cfg) f
  unfolding open_journal
  open_journal-contents moves absent = ground arith
  open_journal-contents moves unreadable = ground arith
  open_journal-contents moves (holds_value v) =
      ap (contents j cfg) (open_journal-value moves v)
      ∙ load_value-contents (read_value j cfg v) moves (holds_value v)

  read_document-Holds :
      (doc : Dict Text j.Value) → (Holds j cfg) ((replay j cfg) (read_document j cfg doc))
  read_document-Holds doc = elim (Bool-cases (version_holds j doc)) [
    | inr old ↦ rw old (genesis-is_hash, tt)
    | inl new ↦ elim (Bool-cases (gateway_holds j cfg doc)) [
      | inr other ↦ rw (new, other) (genesis-is_hash, tt)
      | inl own ↦ elim (Option-cases (verified j doc)) [
        | inl bad ↦ rw (new, own, bad) (genesis-is_hash, tt)
        | inr (((n, h), es), good) ↦ rw (new, own, good) (verified-IsChained j doc n h es good)
      ]
    ]
  ]

  read_value-Holds : (v : j.Value) → (Holds j cfg) ((replay j cfg) (read_value j cfg v))
  unfolding read_value
  read_value-Holds v = elim (Bool-cases (ltb max_file_bytes (j.bytes v))) [
    | inl large ↦ rw large (genesis-is_hash, tt)
    | inr small ↦ elim (Option-cases (j.as_object v)) [
      | inl none_there ↦ rw (small, none_there) (genesis-is_hash, tt)
      | inr (doc, q) ↦ rw (small, q) (read_document-Holds doc)
    ]
  ]

  reopened-Holds : (f : File j) → (Holds j cfg) ((reopened j cfg) f)
  reopened-Holds absent = (genesis-is_hash, tt)
  reopened-Holds unreadable = (genesis-is_hash, tt)
  reopened-Holds (holds_value v) = read_value-Holds v

  load_value-reopened :
      (r : Loaded j) (moves : Bool) (v : j.Value)
      → read_value j cfg v ≡ r
      → (reopened j cfg) (load_value j r moves (holds_value v)).file ≡ (replay j cfg) r
  load_value-reopened (replayed r) moves v q = ap (replay j cfg) q
  load_value-reopened anothers moves v q = ap (replay j cfg) q
  load_value-reopened damaged true v q = refl
  load_value-reopened damaged false v q = ap (replay j cfg) q

  open_journal-reopened :
      (moves : Bool) (f : File j)
      → (reopened j cfg) (open_journal j cfg moves f).file ≡ (reopened j cfg) f
  unfolding open_journal
  open_journal-reopened moves absent = ground arith
  open_journal-reopened moves unreadable = ground arith
  open_journal-reopened moves (holds_value v) =
      ap (λ s. (reopened j cfg) s.file) (open_journal-value moves v)
      ∙ load_value-reopened (read_value j cfg v) moves v refl

  pub open_journal-IsSound :
      (moves : Bool) (f : File j) → (IsSound j cfg) (open_journal j cfg moves f)
  open_journal-IsSound moves f =
      let same = open_journal-contents moves f in
      (
        subst (Holds j cfg) (sym same) (reopened-Holds f),
        λ ok fits. open_journal-reopened moves f ∙ sym same,
      )
