-- ===== src/Interceptor/Facts.antt =====
-- The facts of a write and the request for its decision, of
-- python/src/artzain/openshell/interceptor.py.
use cognexus_tools.Common.{
  true, not, ◌&&◌, ◌||◌, Option, none, some, List, [], ◌∷◌, ◌++◌, map, lookup, keep, Text, text_key,
  ◌==◌, codes, strip, take, is_empty, if◌then◌else◌,
}
use cognexus_tools.Ledger.Operations.{Memory}
use cognexus_tools.Interceptor.Values.{
  Python, Members, get, field, or_null, is_exactly_true, str_or_empty, first_true, as_members,
  text_within, whole, strip_secrets, is_request_id,
}
use cognexus_tools.Interceptor.Methods.{
  action_policy, action_setting, create_sandbox, update_config, actions, is_provider_write,
  is_profile_write, is_draft_method, is_service_method, is_provider_method,
}
use cognexus_tools.Interceptor.Subject.{
  workspace_of, is_global, is_setting_write, setting_facts, sandbox_of, provider_name, array_or_nil,
  profile_ids,
}

-- What the engine is asked; its surface and the kind of its payload are always the same. `cites` is
-- the review in its context, empty for no context.
pub record Asked : Type 0 where
  pub agent_did : Text
  pub action : Text
  pub target : Text
  pub payload : Text
  pub request_id : Text
  pub cites : Text

abbrev pub or_else_text : Text → Text → Text
or_else_text given default = if is_empty given then default else given

module _ (p : Python) where
  -- A fact that is there only when its text is not empty.
  abbrev pub text_fact : Text → Text → Members p
  text_fact name t = if is_empty t then [] else (name, p.json.text t) ∷ []

  -- A fact that is there only when its field is `True`.
  abbrev pub flag_fact : Text → Members p → Members p
  flag_fact name body =
      if is_exactly_true p (field p body name) then (name, p.json.flag true) ∷ [] else []

  abbrev pub policy_of : Members p → Option p.json.Value
  policy_of body = elim (as_members p (get p (codes "spec") body)) [
    | some spec ↦ get p (codes "policy") spec
    | none ↦ get p (codes "policy") body
  ]

  abbrev pub policy_facts : Members p → Text → Members p → Members p
  policy_facts request method body =
      (if method == update_config && is_setting_write p body
        then []
        else (codes "policy", or_null p (policy_of body))
          ∷ (codes "merge_operations", or_null p (field p body (codes "merge_operations")))
          ∷ (
            codes "prover",
            or_null p (first_true p (get p (codes "prover") request) (get p (codes "prover") body)),
          )
          ∷ [])
      ++ (if method == update_config then setting_facts p body else [])

  -- The chunk that an item of `approvals` names; an item that is no dict is left out.
  abbrev pub chunks_of : List p.json.Value → List Text
  chunks_of [] = []
  chunks_of (item ∷ items) = elim (p.json.as_object item) [
    | some d ↦ text_within p 200 (field p d (codes "chunk_id")) ∷ chunks_of items
    | none ↦ chunks_of items
  ]

  abbrev pub chunk_ids_fact : List Text → Members p
  chunk_ids_fact [] = []
  chunk_ids_fact (c ∷ cs) =
      (codes "chunk_ids", p.json.array (map p.json.text (keep (λ t. not (is_empty t)) (c ∷ cs))))
      ∷ []

  abbrev pub rule_fact : Members p → Members p
  rule_fact body = elim (as_members p (field p body (codes "proposed_rule"))) [
    | some d ↦ (codes "proposed_rule", or_null p (field p body (codes "proposed_rule"))) ∷ []
    | none ↦ []
  ]

  abbrev pub draft_facts : Text → Members p → Members p
  draft_facts method body =
      text_fact (codes "chunk_id") (text_within p 200 (field p body (codes "chunk_id")))
      ++ (if method == codes "RejectDraftChunk"
          then text_fact (codes "reason") (text_within p 500 (get p (codes "reason") body))
          else [])
      ++ (if method == codes "EditDraftChunk" then rule_fact body else [])
      ++ (if method == codes "ApproveAllDraftChunks"
          then chunk_ids_fact (chunks_of (array_or_nil p (get p (codes "approvals") body)))
            ++ flag_fact (codes "include_security_flagged") body
          else [])

  abbrev pub service_facts : Text → Members p → Members p
  service_facts method body =
      (codes "service", p.json.text (text_within p 200 (get p (codes "name") body)))
      ∷ (if method == codes "ExposeService"
          then (codes "target_port", whole p (or_null p (field p body (codes "target_port"))))
            ∷ (if is_exactly_true p (get p (codes "domain") body)
                then (codes "domain", p.json.flag true) ∷ []
                else [])
          else [])

  -- `_sandbox_facts`.
  unfoldable pub sandbox_facts : Members p → Text → Members p → Members p
  sandbox_facts request method body =
      if method == create_sandbox || method == update_config
      then policy_facts request method body
      else if is_draft_method method
      then draft_facts method body
      else (if is_provider_method method
          then (codes "provider", p.json.text (text_within p 200 (get p (codes "provider") body)))
            ∷ []
          else [])
        ++ (if is_service_method method then service_facts method body else [])

  abbrev pub provider_subject : Text → Members p → Text × Members p
  provider_subject method body =
      let workspace = workspace_of p body in
      let (name, kind) = provider_name p method body in
      (
        codes "provider:" ++ workspace ++ codes "/" ++ name,
        (codes "workspace", p.json.text workspace)
            ∷ (codes "provider", p.json.text name)
            ∷ text_fact (codes "provider_type") kind,
      )

  abbrev pub first_or_empty : List Text → Text
  first_or_empty [] = []
  first_or_empty (t ∷ ts) = t

  abbrev pub profile_subject : Text → Members p → Text × Members p
  profile_subject method body =
      let workspace = workspace_of p body in
      let ids = profile_ids p method body in
      (
        (if method == codes "ImportProviderProfiles"
            then codes "provider-profiles:" ++ workspace
            else codes "provider-profile:" ++ workspace ++ codes "/" ++ first_or_empty ids),
        (codes "workspace", p.json.text workspace)
            ∷ (codes "profiles", p.json.array (map p.json.text ids))
            ∷ [],
      )

  abbrev pub sandbox_subject : Members p → Text → Members p → Option Memory → Text × Members p
  sandbox_subject request method body ledger =
      let s = sandbox_of p request method body ledger in
      (
        s.segment,
        (codes "sandbox_id", p.json.text s.uuid)
            ∷ (codes "sandbox_name", p.json.text s.name)
            ∷ (codes "workspace", p.json.text s.workspace)
            ∷ sandbox_facts request method body,
      )

  -- `_subject`, before `allow_missing`.
  abbrev pub plain_subject : Members p → Text → Members p → Option Memory → Text × Members p
  plain_subject request method body ledger =
      if is_provider_write method
      then provider_subject method body
      else if is_profile_write method
      then profile_subject method body
      else if method == codes "RevokeSshSession"
      then (codes "ssh-session", [])
      else if method == update_config && is_global p body
      then (codes "gateway", (codes "global", p.json.flag true) ∷ setting_facts p body)
      else sandbox_subject request method body ledger

  -- `_subject`.
  unfoldable pub subject : Members p → Text → Members p → Option Memory → Text × Members p
  subject request method body ledger =
      let (target, facts) = plain_subject request method body ledger in
      (target, facts ++ flag_fact (codes "allow_missing") body)

  -- `action_for`.
  unfoldable pub action_for : Text → Members p → Text
  action_for method body =
      if method == update_config && is_setting_write p body
      then action_setting
      else elim (lookup method actions) [ none ↦ action_policy | some action ↦ action ]

  -- `_request_id`.
  unfoldable pub request_id_of : Option p.json.Value → Text
  request_id_of raw =
      let t = strip (str_or_empty p raw) in
      if is_request_id t then t else if is_empty t then [] else take 32 (p.json.sha256 t)

  -- The payload of a decision.
  abbrev pub payload_of : Text → Members p → Text
  payload_of method facts =
      take 200000
        (p.dumps (strip_secrets p 9 (p.json.object ((codes "method", p.json.text method) ∷ facts))))

  -- `_decision_request`.
  unfoldable pub decision_request : Members p → Text → Members p → Option Memory → Asked
  decision_request request method body ledger =
      let gateway_id =
        take 80
          (or_else_text (str_or_empty p (get p (codes "gateway_id") request)) (codes "gateway")) in
      let (target, facts) = subject request method body ledger in
      record {
        agent_did = take 160 (
            or_else_text (str_or_empty p (get p (codes "agent_did") request))
              (codes "openshell:" ++ gateway_id));
        action = action_for method body;
        target = take 300 (codes "openshell:" ++ gateway_id ++ codes ":" ++ target);
        payload = payload_of method facts;
        request_id =
            request_id_of
              (first_true p (get p (codes "request_id") request) (get p (codes "request_id") body));
        cites = [];
      }
