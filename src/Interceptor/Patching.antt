-- ===== src/Interceptor/Patching.antt =====
-- What the gateway does with the stamp's patch: python/src/artzain/openshell/interceptor.py.
use cognexus_tools.Common.{
  ℕ, false, ◌≡◌, ◌∙◌, Option, some, List, [], ◌∷◌, insert, Text, text_key, codes, is_empty,
  Option-cases, inl, inr,
}
use cognexus_tools.Interceptor.Values.{Python, Members, get, as_members}
use cognexus_tools.Interceptor.Deciding.{Patch, Ledger}
use cognexus_tools.Interceptor.Stamps.{pointer, stamp_key, k_annotations, stamp_patch}
use cognexus_tools.Interceptor.Evaluate.{Setup, base_patches, stamped}
use cognexus_tools.Interceptor.Confirmed.{with_stamp}

-- The gateway, which applies the patches of an answer to the operation in their order. What is relied
-- on is `add` of RFC 6902 at two paths: at a member of the operation it puts or replaces the member,
-- and at a member of its annotations, which are an object, it puts or replaces that one, where `~1` in
-- the path stands for a slash.
pub record Patcher (p : Python) : Type 0 where
  pub apply : List (Patch p) → Members p → Members p
  pub apply-nil : (body : Members p) → apply [] body ≡ body
  pub add_annotations :
      (v : p.json.Value) (rest : List (Patch p)) (body : Members p)
      → apply (record { path = codes "/annotations"; value = v } ∷ rest) body
        ≡ apply rest (insert (codes "annotations") v body)
  pub add_decision_id :
      (v : p.json.Value) (d : Members p) (rest : List (Patch p)) (body : Members p)
      → as_members p (get p (codes "annotations") body) ≡ some d
      → apply
          (record { path = codes "/annotations/artzain.cognexuslabs.ai~1decision-id"; value = v }
            ∷ rest)
          body
        ≡ apply rest (
            insert
              (codes "annotations")
              (p.json.object (insert (codes "artzain.cognexuslabs.ai/decision-id") v d))
              body)

module _ (p : Python) (g : Patcher p) where
  -- The patch puts the stamp on.
  apply-stamp_patch :
      (body : Members p) (id : Text)
      → g.apply (stamp_patch p body id ∷ []) body ≡ with_stamp p body id
  unfolding stamp_patch pointer
  apply-stamp_patch body id = elim (Option-cases (as_members p (get p k_annotations body))) [
    | inl gone ↦ rw gone (
        g.add_annotations (p.json.object ((stamp_key, p.json.text id) ∷ [])) [] body
        ∙ g.apply-nil _)
    | inr (d, there) ↦ rw there (g.add_decision_id (p.json.text id) d [] body there ∙ g.apply-nil _)
  ]

  -- The operation as the gateway has it after an allow in `modify_operation`, without the base policy.
  pub apply-stamped :
      (setup : Setup p) (now : ℕ) (request : Members p) (method : Text) (body : Members p)
      (id : Text) (l : Option Ledger)
      → base_patches p setup method body ≡ []
      → is_empty id ≡ false
      → g.apply (stamped p setup now request method body id l).0.patches body ≡ with_stamp p body id
  unfolding stamped
  apply-stamped setup now request method body id l plain solid =
      rw (solid, plain) (apply-stamp_patch body id)
