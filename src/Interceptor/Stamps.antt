-- ===== src/Interceptor/Stamps.antt =====
-- The patches, the stamp of a decision and the digest of an operation, of
-- python/src/artzain/openshell/interceptor.py.
use cognexus_tools.Common.{
  ℕ, Bool, true, false, not, ◌&&◌, Option, none, some, List, [], ◌∷◌, ◌++◌, insert, erase, Text,
  text_key, ◌==◌, codes, strip, is_empty, is_some, nat_beq, if◌then◌else◌,
}
use cognexus_tools.Ledger.Operations.{Decided, decided, remember}
use cognexus_tools.Interceptor.Values.{
  Python, Members, get, is_truthy, str_or_empty, as_members, get_in,
}
use cognexus_tools.Interceptor.Methods.{create_sandbox, update_config}
use cognexus_tools.Interceptor.Subject.{is_global, sandbox_of}
use cognexus_tools.Interceptor.Deciding.{Patch, Ledger}

-- `STAMP_KEY`.
abbrev pub stamp_key : Text
stamp_key = codes "artzain.cognexuslabs.ai/decision-id"

abbrev pub k_annotations : Text
k_annotations = codes "annotations"

abbrev pub k_spec : Text
k_spec = codes "spec"

abbrev pub k_policy : Text
k_policy = codes "policy"

-- `_pointer`.
unfoldable pub pointer : Text → Text
pointer [] = []
pointer (c ∷ t) =
    if nat_beq c 126
    then 126 ∷ 48 ∷ pointer t
    else if nat_beq c 47
    then 126 ∷ 49 ∷ pointer t
    else c ∷ pointer t

module _ (p : Python) where
  -- `_create_carries_policy`.
  unfoldable pub create_carries_policy : Members p → Bool
  create_carries_policy body = elim (as_members p (get p k_spec body)) [
    | none ↦ false
    | some spec ↦ is_truthy p (get p k_policy spec)
  ]

  -- `_create_patches`.
  unfoldable pub create_patches : Members p → Members p → List (Patch p)
  create_patches body base_policy =
      if create_carries_policy body
      then []
      else if is_some (as_members p (get p k_spec body))
      then record { path = codes "/spec/policy"; value = p.json.object base_policy } ∷ []
      else record {
        path = codes "/spec";
        value = p.json.object ((k_policy, p.json.object base_policy) ∷ []);
      }
        ∷ []

  -- Truth of a dict.
  abbrev pub has_members : Members p → Bool
  has_members [] = false
  has_members (x ∷ d) = true

  -- `_base_missing`; no base policy and an empty one count the same.
  unfoldable pub base_missing : Text → Members p → Members p → Bool → Bool
  base_missing method body base_policy base_required =
      base_required
      && not (has_members base_policy)
      && method == create_sandbox
      && not (create_carries_policy body)

  -- `stampable`.
  unfoldable pub stampable : Text → Members p → Bool
  stampable method body =
      if method == create_sandbox then true else method == update_config && not (is_global p body)

  -- `_stamp_patch`.
  unfoldable pub stamp_patch : Members p → Text → Patch p
  stamp_patch body decision_id =
      if is_some (as_members p (get p k_annotations body))
      then record {
        path = codes "/annotations/" ++ pointer stamp_key;
        value = p.json.text decision_id;
      }
      else record {
        path = codes "/annotations";
        value = p.json.object ((stamp_key, p.json.text decision_id) ∷ []);
      }

  -- `stamped_decision_id`.
  unfoldable pub stamped_decision_id : Option p.json.Value → Text
  stamped_decision_id annotations = strip (str_or_empty p (get_in p stamp_key annotations))

  abbrev pub less_inner : (outer inner : Text) → Members p → Option (Members p) → Members p
  less_inner outer inner view none = view
  less_inner outer inner view (some d) =
      if has_members (erase inner d)
      then insert outer (p.json.object (erase inner d)) view
      else erase outer view

  -- A member of a dict without one of its own; the member goes when nothing is left of it.
  unfoldable pub without_inner : (outer inner : Text) → Members p → Members p
  without_inner outer inner view = less_inner outer inner view (as_members p (get p outer view))

  -- The operation as the caller sent it.
  abbrev pub caller_view : Members p → Bool → Members p
  caller_view body base_applied =
      let view = without_inner k_annotations stamp_key body in
      if base_applied then without_inner k_spec k_policy view else view

  -- `_operation_digest`.
  unfoldable pub operation_digest : Members p → Bool → Text
  operation_digest body base_applied =
      p.json.sha256 (p.compact (p.json.object (caller_view body base_applied)))

  -- Whether an allow that is remembered is this operation's.
  abbrev pub agrees : Text → Members p → Decided → Bool
  agrees method body entry =
      entry.method == method && entry.digest == operation_digest body entry.base_applied

  abbrev pub confirmed_id : Text → Text → Members p → Option Decided → Text
  confirmed_id id method body none = []
  confirmed_id id method body (some entry) = if agrees method body entry then id else []

  -- `_confirmed`.
  unfoldable pub confirmed : (now : ℕ) → Text → Members p → Option Ledger → Text × Option Ledger
  confirmed now method body none = ([], none)
  confirmed now method body (some l) =
      let id = stamped_decision_id (get p k_annotations body) in
      let (entry, memory) = decided id now l.memory in
      if is_empty id
      then ([], some l)
      else (confirmed_id id method body entry, some (record l { memory = memory }))

  -- What `modify_operation` remembers of an allow.
  unfoldable pub remember_allow :
      (now : ℕ) → Members p → Text → Members p → Text → Bool → Option Ledger → Option Ledger
  remember_allow now request method body id base_applied none = none
  remember_allow now request method body id base_applied (some l) = some (record l {
    memory =
        remember l.limits id method (operation_digest body false)
          (sandbox_of p request method body (some l.memory)).uuid base_applied now l.memory;
  })

  -- `committed_decision_id`.
  unfoldable pub committed_decision_id : Text → Members p → Text
  committed_decision_id method committed = stamped_decision_id (
      if method == create_sandbox
      then get_in p k_annotations (get_in p (codes "metadata") (get p (codes "sandbox") committed))
      else get p k_annotations committed)
