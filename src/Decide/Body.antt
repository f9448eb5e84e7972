-- ===== src/Decide/Body.antt =====
-- The lineage of a decision request's body, `_online_body` of python/src/artzain/decide.py.
use cognexus_tools.Common.{
  ℕ, Option, some, List, [], ◌∷◌, ◌++◌, Dict, Text, text_key, codes, is_empty, ◌>>=◌, if◌then◌else◌,
}
use cognexus_tools.Decide.Request.{bounded_text, dimension_id, parent_ids}

-- The lineage arguments of `_online_body`.
pub record Lineage : Type 0 where
  pub workload_id : Text
  pub model_id : Text
  pub parent_decision_ids : List Text
  pub session_id : Text
  pub trace_id : Text
  pub span_id : Text
  pub tool_call_id : Text
  pub on_behalf_of : Text
  pub approver_did : Text

-- A text that is in the body only when it is not empty.
abbrev pub add_text : Text → Text → Dict Text Text → Dict Text Text
add_text name t d = if is_empty t then d else d ++ (name, t) ∷ []

-- The loop over names, widths and raw values.
unfoldable pub add_bounded : List (Text × ℕ × Text) → Dict Text Text → Option (Dict Text Text)
add_bounded [] d = some d
add_bounded ((name, width, raw) ∷ fields) d = do
  text ← bounded_text raw width
  add_bounded fields (add_text name text d)

abbrev pub bounded_fields : Lineage → List (Text × ℕ × Text)
bounded_fields l =
    (codes "session_id", 128, l.session_id)
    ∷ (codes "trace_id", 64, l.trace_id)
    ∷ (codes "span_id", 32, l.span_id)
    ∷ (codes "tool_call_id", 128, l.tool_call_id)
    ∷ (codes "on_behalf_of", 160, l.on_behalf_of)
    ∷ (codes "approver_did", 160, l.approver_did)
    ∷ []

-- What `_online_body` adds to its fixed fields: the texts, and the parents, left out when there are
-- none. None is its ValueError.
unfoldable pub lineage_body : Lineage → Option (Dict Text Text × List Text)
lineage_body l = do
  workload ← dimension_id l.workload_id
  model ← dimension_id l.model_id
  parents ← parent_ids l.parent_decision_ids
  texts ←
      add_bounded (bounded_fields l)
        (add_text (codes "model_id") model (add_text (codes "workload_id") workload []))
  some (texts, parents)
