-- ===== src/Journal/Operations.antt =====
-- `Journal` of python/src/artzain/openshell/journal.py: its state and its operations, each under
-- the lock, one after the other.
use cognexus_tools.Common.{
  ℕ, suc, Bool, true, false, not, ◌&&◌, Option, none, some, List, [], ◌∷◌, ◌++◌, Dict, lookup, Text,
  text_key, ◌==◌, leb, ltb, nat_beq, any, keep, length, take, drop, if◌then◌else◌, ◌>>=◌,
}
use cognexus_tools.Journal.Entry.{Json, Entry, entry_hash, genesis}
use cognexus_tools.Journal.Reading.{document, verified, max_file_bytes, k_version, k_gateway_id}

-- The constructor's arguments; `has_path` is whether a path was given.
pub record Config : Type 0 where
  pub has_path : Bool
  pub gateway_id : Text
  pub max_pending : ℕ

module _ (j : Json) where
  open j use {Value, as_text, as_object}

  -- The file: missing, not readable as JSON, or the value it holds.
  pub data File : Type 0 where
    absent unreadable : File
    holds_value : Value → File

  pub record Journal : Type 0 where
    pub base_seq : ℕ
    pub base_hash : Text
    pub entries : List (Entry j)
    pub save_failed : Bool
    pub file : File

  abbrev pub empty : File → Journal
  empty f = record {
    base_seq = 0;
    base_hash = genesis;
    entries = [];
    save_failed = false;
    file = f;
  }

  -- The last of a list, or where it starts.
  abbrev pub last_of : ℕ → Text → List (Entry j) → ℕ × Text
  last_of n h [] = (n, h)
  last_of n h (e ∷ es) = last_of e.seq e.fields.hash es

  -- `_head`.
  abbrev pub head : Journal → ℕ × Text
  head s = last_of s.base_seq s.base_hash s.entries

  abbrev pub document_of : Config → Journal → Value
  document_of cfg s = document j cfg.gateway_id s.base_seq s.base_hash s.entries

  -- `_save`, where the file can or cannot be replaced.
  unfoldable pub save : Config → (writable : Bool) → Journal → Journal
  save cfg writable s =
      if cfg.has_path
      then (if writable
          then record s { file = holds_value (document_of cfg s); save_failed = false }
          else record s { save_failed = true })
      else s

  -- The entry that `append` makes of a body already read back.
  abbrev pub new_entry : ℕ × Text → ℕ → Text → Dict Text Value → Entry j
  new_entry (seq, prev) at_ms kind plain = record {
    seq = suc seq;
    fields = record {
      written = j.count (suc seq);
      at_ms = at_ms;
      kind = kind;
      body = plain;
      prev = prev;
      hash = entry_hash j (j.count (suc seq)) at_ms kind plain prev;
    };
  }

  abbrev pub with_entry : Text → Dict Text Value → ℕ → Journal → Journal
  with_entry kind plain at_ms s = record s {
    entries = s.entries ++ new_entry (head s) at_ms (take 40 kind) plain ∷ [];
  }

  -- `append`, from the lock on. `first` and `second` are whether its saves succeed.
  unfoldable pub append_plain :
      Config
      → Text
      → Dict Text Value
      → (durable : Bool) → (at_ms : ℕ) → (first second : Bool) → Journal
      → Option ℕ × Journal
  append_plain cfg kind plain durable at_ms first second s =
      let added = save cfg first (with_entry kind plain at_ms s) in
      if leb cfg.max_pending (length s.entries)
      then (none, s)
      else if durable && not cfg.has_path
      then (none, s)
      else if durable && added.save_failed
      then (none, save cfg second (record added { entries = s.entries }))
      else (some (suc (head s).0), added)

  -- `append`.
  unfoldable pub append :
      Config
      → Text
      → Dict Text Value
      → (durable : Bool) → (at_ms : ℕ) → (first second : Bool) → Journal
      → Option ℕ × Journal
  append cfg kind body durable at_ms first second s = elim (j.plain body) [
    | none ↦ (none, s)
    | some plain ↦ append_plain cfg kind plain durable at_ms first second s
  ]

  -- `settle`.
  abbrev pub settle_list :
      Config → ℕ → (writable : Bool) → List (Entry j) → Journal → Bool × Journal
  settle_list cfg seq writable [] s = (false, s)
  settle_list cfg seq writable (e ∷ es) s =
      if nat_beq e.seq seq
      then (
        true,
        save cfg writable (record s { base_seq = e.seq; base_hash = e.fields.hash; entries = es }),
      )
      else (false, s)

  unfoldable pub settle : Config → ℕ → (writable : Bool) → Journal → Bool × Journal
  settle cfg seq writable s = settle_list cfg seq writable s.entries s

  -- The entries that `settle_through` takes.
  abbrev pub taken : ℕ → List (Entry j) → List (Entry j)
  taken seq es = keep (λ e. leb e.seq seq) es

  abbrev pub in_range : ℕ → Journal → List (Entry j) → Bool
  in_range seq s [] = false
  in_range seq s (e ∷ es) = leb e.seq seq && leb seq (head s).0

  -- `settle_through`.
  unfoldable pub settle_through : Config → ℕ → (writable : Bool) → Journal → ℕ × Journal
  settle_through cfg seq writable s =
      let gone = taken seq s.entries in
      let base = last_of s.base_seq s.base_hash gone in
      if in_range seq s s.entries
      then (
        length gone,
        save cfg writable (record s {
          base_seq = base.0;
          base_hash = base.1;
          entries = drop (length gone) s.entries;
        }),
      )
      else (0, s)

  -- `holds`.
  unfoldable pub holds : ℕ → Journal → Bool
  holds seq s = any (λ e. nat_beq e.seq seq) s.entries

  -- What `_load` makes of the value in the file: a journal, another gateway's file, or damage.
  pub data Loaded : Type 0 where
    replayed : ((ℕ × Text) × List (Entry j)) → Loaded
    anothers damaged : Loaded

  abbrev pub version_holds : Dict Text Value → Bool
  version_holds doc = elim (lookup k_version doc) [ none ↦ false | some v ↦ j.equals v 1 ]

  abbrev pub gateway_holds : Config → Dict Text Value → Bool
  gateway_holds cfg doc = elim (lookup k_gateway_id doc >>= as_text) [
    | none ↦ false
    | some t ↦ t == cfg.gateway_id
  ]

  abbrev pub read_document : Config → Dict Text Value → Loaded
  read_document cfg doc =
      if not (version_holds doc)
      then damaged
      else if not (gateway_holds cfg doc)
      then anothers
      else elim (verified j doc) [ none ↦ damaged | some r ↦ replayed r ]

  unfoldable pub read_value : Config → Value → Loaded
  read_value cfg v =
      if ltb max_file_bytes (j.bytes v)
      then damaged
      else elim (as_object v) [ none ↦ damaged | some doc ↦ read_document cfg doc ]

  -- `_load` of a file there is; one that is damaged is renamed away, if it can be.
  abbrev pub load_value : Loaded → (moves : Bool) → File → Journal
  load_value (replayed ((n, h), es)) moves f = record {
    base_seq = n;
    base_hash = h;
    entries = es;
    save_failed = false;
    file = f;
  }
  load_value anothers moves f = empty f
  load_value damaged moves f = empty (if moves then absent else f)

  -- The constructor.
  unfoldable pub open_journal : Config → (moves : Bool) → File → Journal
  open_journal cfg moves f = if not cfg.has_path then empty f else elim f [
    | absent ↦ empty absent
    | unreadable ↦ empty (if moves then absent else unreadable)
    | holds_value v ↦ load_value (read_value cfg v) moves (holds_value v)
  ]
