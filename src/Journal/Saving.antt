-- ===== src/Journal/Saving.antt =====
-- What a save of the journal leaves in its file, and that no operation breaks the chain.
use cognexus_tools.Common.{
  take, sym, subst, ℕ, suc, ◌≡◌, refl, ap, Bool, true, false, none, some, List, [], ◌∷◌, Dict, Text,
  length, leb, nat_beq, ◌≤◌, Bool-cases, inl, inr, arith, not, ◌&&◌,
}
use cognexus_tools.Journal.Entry.{Json, Entry, IsChained, is_hash, genesis}
use cognexus_tools.Journal.Reading.{max_file_bytes}
use cognexus_tools.Journal.Operations.{
  Config, Journal, File, absent, unreadable, holds_value, save, append_plain, settle_through,
  settle_list, with_entry, in_range, document_of, head, read_value, Loaded, replayed, anothers,
  damaged,
}
use cognexus_tools.Journal.Chaining.{
  IsChained-append, IsChained-drop, last_of-is_hash, Follows-is_hash,
}
use cognexus_tools.Journal.RoundTrip.{read_value-document}

module _ (j : Json) (cfg : Config) where
  -- What the journal holds, less the file.
  abbrev pub contents : Journal j → (ℕ × Text) × List (Entry j)
  contents s = ((s.base_seq, s.base_hash), s.entries)

  -- The base is a hash, and the entries follow it and one another.
  abbrev pub Holds : (ℕ × Text) × List (Entry j) → Type 0
  Holds ((n, h), es) = (is_hash h ≡ true) × IsChained j n h es

  abbrev pub IsIntact : Journal j → Type 0
  IsIntact s = Holds (contents s)

  abbrev pub Fits : File j → Type 0
  Fits absent = Unit
  Fits unreadable = Unit
  Fits (holds_value v) = j.bytes v ≤ max_file_bytes

  -- What opening the file again gives.
  abbrev pub replay : Loaded j → (ℕ × Text) × List (Entry j)
  replay (replayed r) = r
  replay anothers = ((0, genesis), [])
  replay damaged = ((0, genesis), [])

  abbrev pub reopened : File j → (ℕ × Text) × List (Entry j)
  reopened absent = ((0, genesis), [])
  reopened unreadable = ((0, genesis), [])
  reopened (holds_value v) = replay (read_value j cfg v)

  abbrev pub IsSaved : Journal j → Type 0
  IsSaved s = s.save_failed ≡ false → Fits s.file → reopened s.file ≡ contents s

  abbrev pub IsSound : Journal j → Type 0
  IsSound s = IsIntact s × IsSaved s

  pub save-contents : (w : Bool) (s : Journal j) → contents (save j cfg w s) ≡ contents s
  unfolding save
  save-contents w s = ground arith

  module _ (path : cfg.has_path ≡ true) where
    pub save_written :
        (s : Journal j)
        → save j cfg true s
          ≡ record s { file = holds_value (document_of j cfg s); save_failed = false }
    unfolding save
    save_written s = ground arith

    pub save_lost : (s : Journal j) → save j cfg false s ≡ record s { save_failed = true }
    unfolding save
    save_lost s = ground arith

    pub save-IsSound : (w : Bool) (s : Journal j) → IsIntact s → IsSound (save j cfg w s)
    save-IsSound true s i = subst IsSound (sym (save_written s)) (
      i,
      λ ok fits.
          ap replay (read_value-document j cfg s.base_seq s.base_hash s.entries i.0 i.1 fits),
    )
    save-IsSound false s i = subst IsSound (sym (save_lost s)) (i, λ failed. ground arith)

    pub save_withdrawn :
        (w : Bool) (t : Journal j) (es : List (Entry j))
        → contents (record (save j cfg w t) { entries = es }) ≡ ((t.base_seq, t.base_hash), es)
    unfolding save
    save_withdrawn w t es = ground arith

    keeps_file : (durable : Bool) → (durable && not cfg.has_path) ≡ false
    keeps_file durable = ground (arith, path)

    pub append_plain_withdrawn :
        (kind : Text) (plain : Dict Text j.Value) (durable : Bool) (at_ms : ℕ) (w v : Bool)
        (s : Journal j)
        → leb cfg.max_pending (length s.entries) ≡ false
        → (durable && (save j cfg w (with_entry j kind plain at_ms s)).save_failed) ≡ true
        → append_plain j cfg kind plain durable at_ms w v s ≡ (
          none,
          save j cfg v
              (record (save j cfg w (with_entry j kind plain at_ms s)) { entries = s.entries }),
        )
    unfolding append_plain
    append_plain_withdrawn kind plain durable at_ms w v s room failed =
        rw (room, keeps_file durable, failed) refl

    pub append_plain_kept :
        (kind : Text) (plain : Dict Text j.Value) (durable : Bool) (at_ms : ℕ) (w v : Bool)
        (s : Journal j)
        → leb cfg.max_pending (length s.entries) ≡ false
        → (durable && (save j cfg w (with_entry j kind plain at_ms s)).save_failed) ≡ false
        → append_plain j cfg kind plain durable at_ms w v s
          ≡ (some (suc (head j s).0), save j cfg w (with_entry j kind plain at_ms s))
    unfolding append_plain
    append_plain_kept kind plain durable at_ms w v s room kept =
        rw (room, keeps_file durable, kept) refl

    pub append_plain-IsSound :
        (kind : Text) (plain : Dict Text j.Value) (durable : Bool) (at_ms : ℕ) (w v : Bool)
        (s : Journal j)
        → IsSound s
        → IsSound (append_plain j cfg kind plain durable at_ms w v s).1
    unfolding append_plain
    append_plain-IsSound kind plain durable at_ms w v s i =
        let t = with_entry j kind plain at_ms s in
        let added = save j cfg w t in
        elim (Bool-cases (leb cfg.max_pending (length s.entries))) [
          | inl full ↦ rw full i
          | inr room ↦ elim (Bool-cases (durable && added.save_failed)) [
            | inl failed ↦
                subst IsSound
                  (sym (
                    ap (λ r. r.1)
                      (append_plain_withdrawn kind plain durable at_ms w v s room failed)))
                  (save-IsSound v _ (subst Holds (sym (save_withdrawn w t s.entries)) i.0))
            | inr kept ↦
                subst IsSound
                  (sym (ap (λ r. r.1) (append_plain_kept kind plain durable at_ms w v s room kept)))
                  (save-IsSound w t (
                    i.0.0,
                    IsChained-append j s.base_seq s.base_hash s.entries at_ms (take 40 kind) plain
                        i.0.1,
                  ))
          ]
        ]

    pub settle_list-IsSound :
        (seq : ℕ) (w : Bool) (es : List (Entry j)) (s : Journal j)
        → IsChained j s.base_seq s.base_hash es
        → IsSound s
        → IsSound (settle_list j cfg seq w es s).1
    settle_list-IsSound seq w [] s c i = i
    settle_list-IsSound seq w (e ∷ es) s c i = elim (Bool-cases (nat_beq e.seq seq)) [
      | inl t ↦ rw t (save-IsSound w _ (Follows-is_hash j s.base_seq s.base_hash e c.0, c.1))
      | inr t ↦ rw t i
    ]

    pub settle_through-IsSound :
        (seq : ℕ) (w : Bool) (s : Journal j) → IsSound s → IsSound (settle_through j cfg seq w s).1
    unfolding settle_through
    settle_through-IsSound seq w s i = elim (Bool-cases (in_range j seq s s.entries)) [
      | inl t ↦ rw t (
          save-IsSound w _ (
            last_of-is_hash j seq s.base_seq s.base_hash s.entries i.0.0 i.0.1,
            IsChained-drop j seq s.base_seq s.base_hash s.entries i.0.1,
          ))
      | inr t ↦ rw t i
    ]
