-- ===== src/Interceptor/Methods.antt =====
-- The methods and actions of python/src/artzain/openshell/interceptor.py.
use cognexus_tools.Common.{
  Bool, ◌||◌, List, [], ◌∷◌, Dict, Text, text_key, ◌==◌, codes, strip, any, contains,
}
use cognexus_tools.Interceptor.Values.{after_last}

-- `PHASE_MODIFY` and `PHASE_POST`.
abbrev pub phase_modify : Text
phase_modify = codes "modify_operation"

abbrev pub phase_post : Text
phase_post = codes "post_commit"

abbrev pub action_policy : Text
action_policy = codes "openshell_policy_change"

abbrev pub action_setting : Text
action_setting = codes "openshell_setting_change"

abbrev pub action_provider_attach : Text
action_provider_attach = codes "openshell_provider_attach"

abbrev pub action_provider : Text
action_provider = codes "openshell_provider_change"

abbrev pub action_sandbox_delete : Text
action_sandbox_delete = codes "openshell_sandbox_delete"

abbrev pub action_service : Text
action_service = codes "openshell_service_change"

abbrev pub action_ssh : Text
action_ssh = codes "openshell_ssh_session"

abbrev pub create_sandbox : Text
create_sandbox = codes "CreateSandbox"

abbrev pub update_config : Text
update_config = codes "UpdateConfig"

abbrev pub delete_sandbox : Text
delete_sandbox = codes "DeleteSandbox"

-- `_ACTIONS`.
unfoldable pub actions : Dict Text Text
actions =
    (create_sandbox, action_policy)
    ∷ (update_config, action_policy)
    ∷ (codes "ApproveDraftChunk", action_policy)
    ∷ (codes "RejectDraftChunk", action_policy)
    ∷ (codes "ApproveAllDraftChunks", action_policy)
    ∷ (codes "EditDraftChunk", action_policy)
    ∷ (codes "UndoDraftChunk", action_policy)
    ∷ (codes "ClearDraftChunks", action_policy)
    ∷ (codes "AttachSandboxProvider", action_provider_attach)
    ∷ (codes "DetachSandboxProvider", action_provider_attach)
    ∷ (delete_sandbox, action_sandbox_delete)
    ∷ (codes "ExposeService", action_service)
    ∷ (codes "DeleteService", action_service)
    ∷ (codes "CreateSshSession", action_ssh)
    ∷ (codes "RevokeSshSession", action_ssh)
    ∷ (codes "CreateProvider", action_provider)
    ∷ (codes "UpdateProvider", action_provider)
    ∷ (codes "ConfigureProviderRefresh", action_provider)
    ∷ (codes "RotateProviderCredential", action_provider)
    ∷ (codes "DeleteProviderRefresh", action_provider)
    ∷ (codes "DeleteProvider", action_provider)
    ∷ (codes "ImportProviderProfiles", action_provider)
    ∷ (codes "UpdateProviderProfiles", action_provider)
    ∷ (codes "DeleteProviderProfile", action_provider)
    ∷ []

abbrev pub is_one_of : List Text → Text → Bool
is_one_of names method = any (λ n. method == n) names

-- `method in BOUND_VALIDATE`.
abbrev pub bound_validate : Text → Bool
bound_validate method = contains method actions

-- `method in BOUND_MODIFY`, and in `BOUND_POST`.
unfoldable pub bound_modify : Text → Bool
bound_modify method = method == create_sandbox || method == update_config

-- `_PROVIDER_WRITES`.
unfoldable pub is_provider_write : Text → Bool
is_provider_write = is_one_of (
    codes "CreateProvider"
    ∷ codes "UpdateProvider"
    ∷ codes "ConfigureProviderRefresh"
    ∷ codes "RotateProviderCredential"
    ∷ codes "DeleteProviderRefresh"
    ∷ codes "DeleteProvider"
    ∷ [])

-- `_PROFILE_WRITES`.
unfoldable pub is_profile_write : Text → Bool
is_profile_write = is_one_of (
    codes "ImportProviderProfiles"
    ∷ codes "UpdateProviderProfiles"
    ∷ codes "DeleteProviderProfile"
    ∷ [])

-- `_DRAFT_METHODS`.
unfoldable pub is_draft_method : Text → Bool
is_draft_method = is_one_of (
    codes "ApproveDraftChunk"
    ∷ codes "RejectDraftChunk"
    ∷ codes "ApproveAllDraftChunks"
    ∷ codes "EditDraftChunk"
    ∷ codes "UndoDraftChunk"
    ∷ codes "ClearDraftChunks"
    ∷ [])

-- `_SERVICE_METHODS`.
unfoldable pub is_service_method : Text → Bool
is_service_method = is_one_of (codes "ExposeService" ∷ codes "DeleteService" ∷ [])

-- `PROVIDER_METHODS`.
unfoldable pub is_provider_method : Text → Bool
is_provider_method = is_one_of (codes "AttachSandboxProvider" ∷ codes "DetachSandboxProvider" ∷ [])

-- `method_name`.
unfoldable pub method_name : Text → Text
method_name method = after_last 46 (after_last 47 (strip method))
