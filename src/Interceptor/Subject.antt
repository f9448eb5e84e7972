-- ===== src/Interceptor/Subject.antt =====
-- What a write is about, of python/src/artzain/openshell/interceptor.py: the subject of a decision
-- and its facts.
use cognexus_tools.Common.{
  Bool, true, not, ◌&&◌, ◌||◌, Option, none, some, List, [], ◌∷◌, ◌++◌, map, keep, Text, text_key,
  ◌==◌, codes, strip, is_empty, is_some, if◌then◌else◌, add_all_new,
}
use cognexus_tools.Ledger.Operations.{Memory, sandbox_id_of, default_workspace}
use cognexus_tools.Interceptor.Values.{
  Python, Members, get, field, is_truthy, is_exactly_true, str_or_empty, first_true, as_members,
  get_in, text_within, whole,
}
use cognexus_tools.Interceptor.Methods.{create_sandbox, is_service_method}

-- What `_sandbox` returns.
pub record Sandbox : Type 0 where
  pub segment : Text
  pub uuid : Text
  pub name : Text
  pub workspace : Text

module _ (p : Python) where
  open p use {json}

  abbrev pub text_value : Text → p.json.Value
  text_value t = p.json.text t

  -- `_workspace`.
  unfoldable pub workspace_of : Members p → Text
  workspace_of body =
      let name =
        str_or_empty p (get_in p (codes "workspace") (field p body (codes "workspace_scope"))) in
      if is_empty name then default_workspace else name

  -- `_is_global`.
  unfoldable pub is_global : Members p → Bool
  is_global body =
      is_exactly_true p (get p (codes "global") body)
      || is_exactly_true p (get p (codes "global_") body)

  -- `_setting_key`.
  abbrev pub setting_key : Members p → Text
  setting_key body = text_within p 120 (field p body (codes "setting_key"))

  -- `_carries_policy`.
  unfoldable pub carries_policy : Members p → Bool
  carries_policy body =
      is_some (get p (codes "policy") body) || is_truthy p (field p body (codes "merge_operations"))

  -- `is_setting_write`.
  unfoldable pub is_setting_write : Members p → Bool
  is_setting_write body = not (is_empty (setting_key body)) && not (carries_policy body)

  -- The value of a one-of, or its kind.
  abbrev pub setting_value : Members p → Members p
  setting_value raw = elim (field p raw (codes "string_value")) [
    | some v ↦ (codes "setting_value", v) ∷ []
    | none ↦ elim (field p raw (codes "bool_value")) [
      | some v ↦ (codes "setting_value", v) ∷ []
      | none ↦ elim (field p raw (codes "int_value")) [
        | some v ↦ (codes "setting_value", whole p v) ∷ []
        | none ↦
            if is_some (field p raw (codes "bytes_value"))
            then (codes "setting_value_kind", text_value (codes "bytes")) ∷ []
            else []
      ]
    ]
  ]

  -- The value as it is given: a dict, or a text or a whole number or a Boolean.
  abbrev pub given_value : p.json.Value → Members p
  given_value v = elim (p.json.as_object v) [
    | some raw ↦ setting_value raw
    | none ↦
        if is_some (p.json.as_text v) || p.is_int v then (codes "setting_value", v) ∷ [] else []
  ]

  -- `_setting_facts`. Facts are kept in the order they are set, with no key twice.
  unfoldable pub setting_facts : Members p → Members p
  setting_facts body =
      let key : Text × p.json.Value = (codes "setting_key", text_value (setting_key body)) in
      if is_empty (setting_key body)
      then []
      else if is_exactly_true p (field p body (codes "delete_setting"))
      then key ∷ (codes "delete_setting", p.json.flag true) ∷ []
      else elim (field p body (codes "setting_value")) [
        | none ↦ key ∷ []
        | some v ↦ key ∷ given_value v
      ]

  -- `explicit` of `_sandbox`.
  abbrev pub explicit_id : Members p → Members p → Text
  explicit_id request body = strip (
      str_or_empty p
        (first_true p (get p (codes "sandbox_id") request) (get p (codes "sandbox_id") body)))

  -- `name` of `_sandbox`.
  abbrev pub sandbox_name : Text → Members p → Text
  sandbox_name method body =
      let named = get p (codes "sandbox") body in
      strip (
        str_or_empty p (
          if not (is_truthy p named) && not (is_service_method method)
          then get p (codes "name") body
          else named))

  -- `known` of `_sandbox`.
  abbrev pub known_id : Option Memory → Text → Text → Text → Text
  known_id none method workspace name = []
  known_id (some m) method workspace name =
      if method == create_sandbox then [] else sandbox_id_of workspace name m

  -- `_sandbox`; none for no ledger.
  unfoldable pub sandbox_of : Members p → Text → Members p → Option Memory → Sandbox
  sandbox_of request method body ledger =
      let workspace = workspace_of body in
      let explicit = explicit_id request body in
      let name = sandbox_name method body in
      let known = known_id ledger method workspace name in
      if not (is_empty explicit)
      then record { segment = explicit; uuid = explicit; name = name; workspace = workspace }
      else if is_empty name
      then record { segment = codes "pending"; uuid = []; name = []; workspace = workspace }
      else if not (is_empty known)
      then record { segment = known; uuid = known; name = name; workspace = workspace }
      else record {
        segment = codes "name:" ++ workspace ++ codes "/" ++ name;
        uuid = [];
        name = name;
        workspace = workspace;
      }

  -- `_provider_name`.
  unfoldable pub provider_name : Text → Members p → Text × Text
  provider_name method body =
      let provider = get p (codes "provider") body in
      elim (as_members p provider) [
        | some d ↦ (
          text_within p 200 (get_in p (codes "name") (get p (codes "metadata") d)),
          text_within p 200 (get p (codes "type") d),
        )
        | none ↦
            if method == codes "DeleteProvider"
            then (text_within p 200 (get p (codes "name") body), [])
            else (text_within p 200 provider, [])
      ]

  abbrev pub array_or_nil : Option p.json.Value → List p.json.Value
  array_or_nil none = []
  array_or_nil (some v) = elim (p.json.as_array v) [ none ↦ [] | some vs ↦ vs ]

  -- The id of the profile that one item names, or nothing.
  abbrev pub profile_id : Option p.json.Value → Text
  profile_id item = text_within p 200 (get_in p (codes "id") (get_in p (codes "profile") item))

  -- The ids before those that are empty or there already are left out.
  abbrev pub named_profiles : Text → Members p → List Text
  named_profiles method body =
      if method == codes "ImportProviderProfiles"
      then map (λ v. profile_id (some v)) (array_or_nil (get p (codes "profiles") body))
      else text_within p 200 (get p (codes "id") body)
        ∷ profile_id (get p (codes "profile") body)
        ∷ []

  -- `_profile_ids`.
  unfoldable pub profile_ids : Text → Members p → List Text
  profile_ids method body =
      add_all_new (λ a b. a == b) (keep (λ t. not (is_empty t)) (named_profiles method body)) []
