-- ===== src/Ledger/Gateway.antt =====
-- `GatewayLedger` of python/src/artzain/openshell/state.py, over an `OperationLedger`.
use cognexus_tools.Common.{
  ℕ, suc, Bool, true, false, not, ◌||◌, Option, none, some, List, [], ◌∷◌, Dict, lookup, insert,
  erase, map, Text, text_key, pair_key, is_empty, if◌then◌else◌,
}
use cognexus_tools.Journal.Entry.{Json}
use cognexus_tools.Journal.Operations.{File, holds_value}
use cognexus_tools.Journal.Reading.{k_version, k_gateway_id}
use cognexus_tools.Ledger.Operations.{Memory, Named, or_default, learn_sandbox, forget_sandbox}
use cognexus_tools.Ledger.Views.{
  Config, text_of, k_complete, k_sandboxes, k_workspace, k_name, k_id, k_hash, is_known, prune,
  hash_for, is_id, wanted_of, dict_equal, replaced, wanted_in, in_workspace, replaced_in,
}

module _ (j : Json) where
  open j use {Value, count, text, object, array, flag, as_text, as_object, as_array, is_true}

  pub record Gateway : Type 0 where
    pub memory : Memory
    pub hashes : Dict Text Text
    pub complete : Bool
    pub revision : ℕ
    pub save_failed : Bool
    pub file : File j

  abbrev pub with_sandboxes : Dict Named Text → Gateway → Gateway
  with_sandboxes sandboxes g = record g {
    memory = record g.memory { sandboxes = sandboxes };
    hashes = prune sandboxes g.hashes;
  }

  abbrev pub sandbox_value : Dict Text Text → Named × Text → Value
  sandbox_value hashes ((workspace, name), id) = object (
      (k_workspace, text workspace)
      ∷ (k_name, text name)
      ∷ (k_id, text id)
      ∷ (k_hash, text (hash_for id hashes))
      ∷ [])

  -- `_document`.
  abbrev pub written_ledger : Text → Bool → Dict Named Text → Dict Text Text → Dict Text Value
  written_ledger gateway complete sandboxes hashes =
      (k_version, count 1)
      ∷ (k_gateway_id, text gateway)
      ∷ (k_complete, flag complete)
      ∷ (k_sandboxes, array (map (sandbox_value hashes) sandboxes))
      ∷ []

  abbrev pub ledger_value : Config → Gateway → Value
  ledger_value cfg g = object (written_ledger cfg.gateway_id g.complete g.memory.sandboxes g.hashes)

  -- `_save`, where the file can or cannot be replaced.
  unfoldable pub save : Config → (writable : Bool) → Gateway → Gateway
  save cfg writable g =
      if cfg.has_path
      then (if writable
          then record g { file = holds_value (ledger_value cfg g); save_failed = false }
          else record g { save_failed = true })
      else g

  -- `_changed`.
  abbrev pub changed : Config → (writable : Bool) → Gateway → Gateway
  changed cfg writable g = save cfg writable (record g { revision = suc g.revision })

  -- `mark_complete`.
  unfoldable pub mark_complete : Config → (writable complete : Bool) → Gateway → Gateway
  mark_complete cfg writable true g =
      if g.complete then g else changed cfg writable (record g { complete = true })
  mark_complete cfg writable false g =
      if g.complete then changed cfg writable (record g { complete = false }) else g

  -- The first region under the lock of `learn_sandbox` and of `forget_sandbox`: the id that a name has.
  abbrev pub id_of : (workspace name : Text) → Gateway → Option Text
  id_of workspace name g = lookup (or_default workspace, name) g.memory.sandboxes

  -- `super().learn_sandbox`, under the lock of its own.
  abbrev pub stored : Config → (workspace name id : Text) → Gateway → Gateway
  stored cfg workspace name id g = record g {
    memory = learn_sandbox cfg.limits workspace name id g.memory;
  }

  -- The last region of `learn_sandbox`, with the id that the first one read.
  unfoldable pub finish_learning :
      Config → (writable : Bool) → (id : Text) → (before : Option Text) → Gateway → Gateway
  finish_learning cfg writable id before g =
      if is_id id before
      then g
      else changed cfg writable (record g { hashes = prune g.memory.sandboxes g.hashes })

  -- `learn_sandbox`, when no other call comes between its regions.
  unfoldable pub gateway_learn :
      Config → (writable : Bool) → (workspace name id : Text) → Gateway → Gateway
  unfolding finish_learning
  gateway_learn cfg writable workspace name id g =
      if is_empty name || is_empty id
      then g
      else finish_learning cfg writable id (id_of workspace name g) (stored cfg workspace name id g)

  -- `super().forget_sandbox`, under the lock of its own.
  abbrev pub dropped : (workspace name : Text) → Gateway → Gateway
  dropped workspace name g = record g { memory = forget_sandbox workspace name g.memory }

  -- The last region of `forget_sandbox`: `if gone:`, of the id that the first one read.
  abbrev pub finish_forgetting :
      Config → (writable : Bool) → (gone : Option Text) → Gateway → Gateway
  finish_forgetting cfg writable none g = g
  finish_forgetting cfg writable (some gone) g =
      if is_empty gone then g else changed cfg writable (record g { hashes = erase gone g.hashes })

  -- `forget_sandbox`, when no other call comes between its regions.
  unfoldable pub gateway_forget :
      Config → (writable : Bool) → (workspace name : Text) → Gateway → Gateway
  gateway_forget cfg writable workspace name g =
      finish_forgetting cfg writable (id_of workspace name g) (dropped workspace name g)

  -- `note_policy_hash`.
  unfoldable pub note_policy_hash :
      Config → (writable : Bool) → (sandbox_id policy_hash : Text) → Gateway → Gateway
  note_policy_hash cfg writable sandbox_id policy_hash g =
      let id = text_of sandbox_id in
      let hash = text_of policy_hash in
      if is_empty id || is_empty hash
      then g
      else if not (is_known id g.memory.sandboxes)
      then g
      else if is_id hash (lookup id g.hashes)
      then g
      else changed cfg writable (record g { hashes = insert id hash g.hashes })

  -- `policy_hash`.
  unfoldable pub policy_hash : Text → Gateway → Text
  policy_hash id g = hash_for id g.hashes

  -- `sandboxes`: workspace and name, id, and hash.
  unfoldable pub sandboxes_of : Gateway → List (Named × Text × Text)
  sandboxes_of g = map (λ e. (e.0, e.1, hash_for e.1 g.hashes)) g.memory.sandboxes

  -- `replace_all`.
  unfoldable pub replace_all :
      Config → (writable : Bool) → (listed : List (Named × Text)) → Gateway → Gateway
  replace_all cfg writable listed g =
      let wanted = wanted_of listed [] in
      if dict_equal g.memory.sandboxes wanted
      then g
      else changed cfg writable
          (with_sandboxes (replaced cfg.limits.max_sandboxes wanted g.memory.sandboxes) g)

  -- `replace_workspace`.
  unfoldable pub replace_workspace :
      Config
      → (writable : Bool) → (workspace : Text) (listed : List (Text × Text)) → Gateway
      → Gateway
  replace_workspace cfg writable workspace listed g =
      let ws = or_default workspace in
      let wanted = wanted_in ws listed [] in
      if dict_equal (in_workspace ws g.memory.sandboxes) wanted
      then g
      else changed cfg writable
          (with_sandboxes (replaced_in cfg.limits.max_sandboxes ws wanted g.memory.sandboxes) g)
