-- ===== src/Ledger/Loading.antt =====
-- What `GatewayLedger` reads from its file, python/src/artzain/openshell/state.py.
use cognexus_tools.Common.{
  ℕ, Bool, false, ◌&&◌, ◌||◌, Option, none, some, List, [], ◌∷◌, Dict, lookup, insert, trim, Text,
  text_key, pair_key, is_empty, ltb, ◌==◌, if◌then◌else◌, ◌>>=◌,
}
use cognexus_tools.Journal.Entry.{Json}
use cognexus_tools.Journal.Operations.{File, absent, unreadable, holds_value}
use cognexus_tools.Journal.Reading.{k_version, k_gateway_id}
use cognexus_tools.Ledger.Operations.{Named, no_memory, or_default, or_empty}
use cognexus_tools.Ledger.Views.{
  Config, text_of, k_complete, k_sandboxes, k_workspace, k_name, k_id, k_hash, prune,
}
use cognexus_tools.Ledger.Gateway.{Gateway}

-- `_MAX_STATE_BYTES`.
abbrev pub max_state_bytes : ℕ
max_state_bytes = 16777216

module _ (j : Json) where
  open j use {Value, count, text, object, array, flag, as_text, as_object, as_array, is_true}

  -- One entry of `_load`'s loop: what the file says of a sandbox goes into the two dicts.
  abbrev pub load_fields :
      Dict Text Value → Dict Named Text × Dict Text Text → Dict Named Text × Dict Text Text
  load_fields d (sandboxes, hashes) =
      let field = λ (k : Text). text_of (or_empty (lookup k d >>= as_text)) in
      let id = field k_id in
      if is_empty (field k_name) || is_empty id then (sandboxes, hashes) else (
        insert (or_default (field k_workspace), field k_name) id sandboxes,
        if is_empty (field k_hash) then hashes else insert id (field k_hash) hashes,
      )

  abbrev pub load_entry :
      Value → Dict Named Text × Dict Text Text → Dict Named Text × Dict Text Text
  load_entry v s = elim (as_object v) [ none ↦ s | some d ↦ load_fields d s ]

  unfoldable pub load_entries :
      List Value → Dict Named Text × Dict Text Text → Dict Named Text × Dict Text Text
  load_entries [] s = s
  load_entries (v ∷ vs) s = load_entries vs (load_entry v s)

  abbrev pub entries_of : Dict Text Value → List Value
  entries_of doc = elim (lookup k_sandboxes doc >>= as_array) [ none ↦ [] | some vs ↦ vs ]

  abbrev pub is_ours : Config → Dict Text Value → Bool
  is_ours cfg doc =
      elim (lookup k_version doc) [ none ↦ false | some v ↦ j.equals v 1 ]
      && text_of (or_empty (lookup k_gateway_id doc >>= as_text)) == cfg.gateway_id

  -- What a file of this gateway's fills the ledger with.
  abbrev pub read_ledger : Config → Dict Text Value → Dict Named Text × Dict Text Text × Bool
  read_ledger cfg doc =
      let read = load_entries (entries_of doc) ([], []) in
      let sandboxes = trim cfg.limits.max_sandboxes read.0 in
      (
        sandboxes,
        prune sandboxes read.1,
        elim (lookup k_complete doc) [ none ↦ false | some v ↦ is_true v ],
      )

  -- What `_load` takes from a file: none where it starts with nothing.
  unfoldable pub read_value : Config → Value → Option (Dict Named Text × Dict Text Text × Bool)
  read_value cfg v = if ltb max_state_bytes (j.bytes v) then none else elim (as_object v) [
    | none ↦ none
    | some doc ↦ if is_ours cfg doc then some (read_ledger cfg doc) else none
  ]

  abbrev pub read_file : Config → File j → Option (Dict Named Text × Dict Text Text × Bool)
  read_file cfg absent = none
  read_file cfg unreadable = none
  read_file cfg (holds_value v) = read_value cfg v

  abbrev pub filled : Option (Dict Named Text × Dict Text Text × Bool) → File j → Gateway j
  filled none f = record {
    memory = no_memory;
    hashes = [];
    complete = false;
    revision = 0;
    save_failed = false;
    file = f;
  }
  filled (some (sandboxes, hashes, complete)) f = record {
    memory = record no_memory { sandboxes = sandboxes };
    hashes = hashes;
    complete = complete;
    revision = 0;
    save_failed = false;
    file = f;
  }

  -- The constructor.
  unfoldable pub open_ledger : Config → File j → Gateway j
  open_ledger cfg f = if cfg.has_path then filled (read_file cfg f) f else filled none f
