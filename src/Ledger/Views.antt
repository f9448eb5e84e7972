-- ===== src/Ledger/Views.antt =====
-- What the ledger makes of names, listings and hashes, python/src/artzain/openshell/state.py.
use cognexus_tools.Common.{
  ℕ, Bool, false, not, ◌&&◌, ◌||◌, Option, none, some, List, [], ◌∷◌, Dict, lookup, contains,
  insert, insert_all, trim, keep, any, all, Text, codes, text_key, pair_key, strip, take, is_empty,
  ◌==◌, if◌then◌else◌,
}
use cognexus_tools.Ledger.Operations.{Limits, Named, or_default, or_empty}

pub record Config : Type 0 where
  pub has_path : Bool
  pub gateway_id : Text
  pub limits : Limits

-- `_text` of a text.
unfoldable pub text_of : Text → Text
text_of value = take 200 (strip value)

abbrev pub k_complete : Text
k_complete = codes "complete"

abbrev pub k_sandboxes : Text
k_sandboxes = codes "sandboxes"

abbrev pub k_workspace : Text
k_workspace = codes "workspace"

abbrev pub k_name : Text
k_name = codes "name"

abbrev pub k_id : Text
k_id = codes "id"

abbrev pub k_hash : Text
k_hash = codes "effective_policy_hash"

-- `sandbox_id in self._sandboxes.values()`.
abbrev pub is_known : Text → Dict Named Text → Bool
is_known id sandboxes = any (λ e. id == e.1) sandboxes

-- `_prune_hashes`.
abbrev pub prune : Dict Named Text → Dict Text Text → Dict Text Text
prune sandboxes hashes = keep (λ e. is_known e.0 sandboxes) hashes

abbrev pub hash_for : Text → Dict Text Text → Text
hash_for id hashes = or_empty (lookup id hashes)

-- `before == sandbox_id`, where nothing may have been known before.
abbrev pub is_id : Text → Option Text → Bool
is_id id none = false
is_id id (some before) = before == id

-- What a listing names: `{(workspace, name): id for ... if name and id}`.
unfoldable pub wanted_of : List (Named × Text) → Dict Named Text → Dict Named Text
wanted_of [] w = w
wanted_of (((workspace, name), id) ∷ listed) w = wanted_of listed (
    if is_empty (text_of name) || is_empty (text_of id)
    then w
    else insert (or_default (text_of workspace), text_of name) (text_of id) w)

-- Whether one dict has the items of another.
abbrev pub has_items : Dict Named Text → Dict Named Text → Bool
has_items c d = all (λ e. is_id e.1 (lookup e.0 d)) c

-- `c == d` of two dicts.
abbrev pub dict_equal : Dict Named Text → Dict Named Text → Bool
dict_equal c d = has_items c d && has_items d c

abbrev pub replaced : ℕ → Dict Named Text → Dict Named Text → Dict Named Text
replaced cap wanted sandboxes =
    trim cap (insert_all wanted (keep (λ e. contains e.0 wanted) sandboxes))

-- What a listing of one workspace names.
unfoldable pub wanted_in : Text → List (Text × Text) → Dict Named Text → Dict Named Text
wanted_in workspace [] w = w
wanted_in workspace ((name, id) ∷ listed) w = wanted_in workspace listed (
    if is_empty (text_of name) || is_empty (text_of id)
    then w
    else insert (workspace, text_of name) (text_of id) w)

-- The sandboxes of one workspace.
abbrev pub in_workspace : Text → Dict Named Text → Dict Named Text
in_workspace workspace sandboxes = keep (λ e. e.0.0 == workspace) sandboxes

-- The dict after a listing of one workspace: its sandboxes that are not listed go.
abbrev pub replaced_in : ℕ → Text → Dict Named Text → Dict Named Text → Dict Named Text
replaced_in cap workspace wanted sandboxes =
    trim cap
      (insert_all wanted (keep (λ e. not (e.0.0 == workspace) || contains e.0 wanted) sandboxes))
