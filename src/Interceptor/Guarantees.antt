-- ===== src/Interceptor/Guarantees.antt =====
-- What `evaluate` guarantees of the writes it lets through:
-- python/src/artzain/openshell/interceptor.py.
use cognexus_tools.Common.{
  sym, ◌≡◌, refl, sym, subst, true, false, some, Text, text_key, ◌==◌, list_beq, list_beq_iff,
  if◌then◌else◌, Bool-cases, inl, inr, arith,
}
use cognexus_tools.Interceptor.Values.{Python, Members}
use cognexus_tools.Interceptor.Methods.{
  actions, bound_modify, bound_validate, phase_modify, phase_post, update_config,
}
use cognexus_tools.Interceptor.Subject.{is_global, is_setting_write, carries_policy}
use cognexus_tools.Interceptor.Deciding.{
  Answer, refused_locally, global_policy_refused, no_setting_refused,
}
use cognexus_tools.Interceptor.Evaluate.{
  Setup, World, Moment, modify_operation, validate, evaluate, method_of, phase_of, body_of,
}
use cognexus_tools.Interceptor.FailClosed.{IsGrounded, validate-IsGrounded}

module _ (p : Python) (setup : Setup p) (m : Moment p) (request : Members p) (w : World p) where
  -- For a write that is let through in `validate`, or in a phase of any name but `post_commit` and
  -- `modify_operation`, the ledger remembers an allow that has not expired, under the id of the
  -- write's stamp, of the same method and with the digest of the operation; or the engine allows it
  -- now; or the engine is down, the write is not gateway-wide, and an open window has an entry in the
  -- journal's file that describes the write.
  pub evaluate-IsGrounded :
      (phase_of p request == phase_post) ≡ false
      → (phase_of p request == phase_modify) ≡ false
      → (evaluate p setup m request w).0.allowed ≡ true
      → IsGrounded p setup m request (method_of p request) (body_of p request) w
  unfolding evaluate
  evaluate-IsGrounded post modify h =
      validate-IsGrounded p setup m request (method_of p request) (body_of p request) w
        (ground (arith, post, modify, h))

  refused_global :
      (method : Text) (body : Members p)
      → (method == update_config) ≡ true
      → is_global p body ≡ true
      → is_setting_write p body ≡ false
      → (a : Answer p) × (refused_locally p method body ≡ some a) × (a.allowed ≡ false)
  unfolding refused_locally
  refused_global method body u g s = (
    (if carries_policy p body then global_policy_refused p else no_setting_refused p),
    rw (u, g, s) refl,
    ground arith,
  )

  bound_update :
      (method : Text)
      → (method == update_config) ≡ true
      → (bound_modify method ≡ true) × (bound_validate method ≡ true)
  unfolding bound_modify actions list_beq
  bound_update method u =
      subst (λ x. (bound_modify x ≡ true) × (bound_validate x ≡ true))
        (sym ((list_beq_iff method update_config).0 u)) (refl, refl)

  -- A gateway-wide update that writes no setting alone is denied before the engine or break-glass is
  -- asked, in every phase but `post_commit`, and changes nothing.
  pub evaluate-global :
      (phase_of p request == phase_post) ≡ false
      → (method_of p request == update_config) ≡ true
      → is_global p (body_of p request) ≡ true
      → is_setting_write p (body_of p request) ≡ false
      → ((evaluate p setup m request w).0.allowed ≡ false) × ((evaluate p setup m request w).1 ≡ w)
  unfolding evaluate modify_operation validate
  evaluate-global post u g s =
      let (a, refused, denied) = refused_global (method_of p request) (body_of p request) u g s in
      let (modify, bound) = bound_update (method_of p request) u in
      elim (Bool-cases (phase_of p request == phase_modify)) [
        | inl t ↦ rw (post, t, modify, refused) (denied, refl)
        | inr t ↦ rw (post, t, bound, refused) (denied, refl)
      ]
