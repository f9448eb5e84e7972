-- ===== src/Ledger/Operations.antt =====
-- `OperationLedger` of python/src/artzain/openshell/interceptor.py: the decisions, sandboxes and
-- reviews that the sidecar remembers, each operation under the lock.
use cognexus_tools.Common.{
  ℕ, ◌+◌, Bool, ◌||◌, Option, none, some, [], Dict, lookup, erase, put_last, trim, Text, codes,
  text_key, pair_key, is_empty, ltb, if◌then◌else◌,
}

-- The constructor's arguments; times are seconds of the clock `now`.
pub record Limits : Type 0 where
  pub ttl : ℕ
  pub max_decisions : ℕ
  pub max_sandboxes : ℕ
  pub review_ttl : ℕ
  pub max_reviews : ℕ

-- What is kept of an allow.
pub record Decided : Type 0 where
  pub method : Text
  pub digest : Text
  pub sandbox_id : Text
  pub base_applied : Bool
  pub expires : ℕ

-- A workspace and a name.
abbrev pub Named : Type 0
Named = Text × Text

pub record Memory : Type 0 where
  pub decisions : Dict Text Decided
  pub sandboxes : Dict Named Text
  pub reviews : Dict Text (Text × ℕ)

abbrev pub no_memory : Memory
no_memory = record { decisions = []; sandboxes = []; reviews = [] }

-- `DEFAULT_WORKSPACE`.
abbrev pub default_workspace : Text
default_workspace = codes "default"

-- `workspace or DEFAULT_WORKSPACE`.
abbrev pub or_default : Text → Text
or_default workspace = if is_empty workspace then default_workspace else workspace

-- `dict.get(k, "")`.
abbrev pub or_empty : Option Text → Text
or_empty none = []
or_empty (some t) = t

-- `remember_review`.
unfoldable pub remember_review : Limits → (key decision_id : Text) → (now : ℕ) → Memory → Memory
remember_review l key decision_id now m =
    if is_empty key || is_empty decision_id then m else record m {
      reviews = trim l.max_reviews (put_last key (decision_id, now + l.review_ttl) m.reviews);
    }

-- `cited_review`.
unfoldable pub cited_review : (key : Text) → (now : ℕ) → Memory → Text × Memory
cited_review key now m = elim (lookup key m.reviews) [
  | none ↦ ([], m)
  | some entry ↦
      if ltb entry.1 now then ([], record m { reviews = erase key m.reviews }) else (entry.0, m)
]

-- `forget_review`.
unfoldable pub forget_review : (key : Text) → Memory → Memory
forget_review key m = record m { reviews = erase key m.reviews }

-- `remember`.
unfoldable pub remember :
    Limits
    → (decision_id method digest sandbox_id : Text) (base_applied : Bool) → (now : ℕ) → Memory
    → Memory
remember l decision_id method digest sandbox_id base_applied now m =
    let entry : Decided = record {
      method = method;
      digest = digest;
      sandbox_id = sandbox_id;
      base_applied = base_applied;
      expires = now + l.ttl;
    } in
    if is_empty decision_id
    then m
    else record m { decisions = trim l.max_decisions (put_last decision_id entry m.decisions) }

-- `decided`.
unfoldable pub decided : (decision_id : Text) → (now : ℕ) → Memory → Option Decided × Memory
decided decision_id now m = elim (lookup decision_id m.decisions) [
  | none ↦ (none, m)
  | some entry ↦
      if ltb entry.expires now
      then (none, record m { decisions = erase decision_id m.decisions })
      else (some entry, m)
]

-- `learn_sandbox`.
unfoldable pub learn_sandbox : Limits → (workspace name sandbox_id : Text) → Memory → Memory
learn_sandbox l workspace name sandbox_id m =
    if is_empty name || is_empty sandbox_id then m else record m {
      sandboxes =
          trim l.max_sandboxes (put_last (or_default workspace, name) sandbox_id m.sandboxes);
    }

-- `sandbox_id`.
unfoldable pub sandbox_id_of : (workspace name : Text) → Memory → Text
sandbox_id_of workspace name m = or_empty (lookup (or_default workspace, name) m.sandboxes)

-- `forget_sandbox`.
unfoldable pub forget_sandbox : (workspace name : Text) → Memory → Memory
forget_sandbox workspace name m = record m {
  sandboxes = erase (or_default workspace, name) m.sandboxes;
}
