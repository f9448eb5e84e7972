-- ===== src/Interceptor/Twice.antt =====
-- A write that `modify_operation` allowed is not decided twice:
-- python/src/artzain/openshell/interceptor.py.
use cognexus_tools.Common.{
  ℕ, ◌+◌, ◌≤◌, ◌≡◌, refl, sym, ap, ◌∙◌, subst, true, false, Option, none, some, [], ◌∷◌, insert,
  Text, text_key, ◌==◌, lookup-insert, strip, is_empty, list_beq, list_beq_iff, Bool-cases, inl,
  inr, arith, codes,
}
use cognexus_tools.Interceptor.Values.{Python, Members, get, present, as_members}
use cognexus_tools.Interceptor.Methods.{
  actions, bound_modify, bound_validate, create_sandbox, update_config,
}
use cognexus_tools.Interceptor.Subject.{is_global}
use cognexus_tools.Interceptor.Deciding.{Ledger, allow, refused_locally}
use cognexus_tools.Interceptor.Stamps.{k_annotations, stampable, confirmed, remember_allow}
use cognexus_tools.Interceptor.Evaluate.{
  Setup, World, Moment, base_patches, stamped, confirmation, validate, k_decision_id, has_patches,
}
use cognexus_tools.Interceptor.Confirmed.{with_stamp, stamped_notes, HasNotes}
use cognexus_tools.Interceptor.Patching.{Patcher, apply-stamped}
use cognexus_tools.Interceptor.Remembered.{confirmed-remember_allow}

module _ (p : Python) where
  get-insert_other :
      (k j : Text) (v : p.json.Value) (body : Members p)
      → (k == j) ≡ false
      → get p k (insert j v body) ≡ get p k body
  get-insert_other k j v body h = ap (present p) (lookup-insert k j v body ∙ rw h refl)

  is_global-with_stamp :
      (body : Members p) (id : Text) → is_global p (with_stamp p body id) ≡ is_global p body
  unfolding is_global list_beq
  is_global-with_stamp body id =
      let v = p.json.object (stamped_notes p id (as_members p (get p k_annotations body))) in
      rw
        (
          get-insert_other (codes "global") k_annotations v body refl,
          get-insert_other (codes "global_") k_annotations v body refl,
        )
        refl

  stampable-with_stamp :
      (method : Text) (body : Members p) (id : Text)
      → stampable p method (with_stamp p body id) ≡ stampable p method body
  unfolding stampable
  stampable-with_stamp method body id = rw (is_global-with_stamp body id) refl

  bound_modify_valid : (method : Text) → bound_modify method ≡ true → bound_validate method ≡ true
  unfolding bound_modify actions list_beq
  bound_modify_valid method h = elim (Bool-cases (method == create_sandbox)) [
    | inl t ↦
        subst (λ x. bound_validate x ≡ true) (sym ((list_beq_iff method create_sandbox).0 t)) refl
    | inr t ↦
        let u : (method == update_config) ≡ true = ground (arith, h, t) in
        subst (λ x. bound_validate x ≡ true) (sym ((list_beq_iff method update_config).0 u)) refl
  ]

  created : (method : Text) → (method == create_sandbox) ≡ true → (method == update_config) ≡ false
  unfolding list_beq
  created method t =
      subst (λ x. (x == update_config) ≡ false) (sym ((list_beq_iff method create_sandbox).0 t))
        refl

  -- What the gateway takes a stamp on is never refused without the engine.
  stampable_unrefused :
      (method : Text) (body : Members p)
      → stampable p method body ≡ true
      → refused_locally p method body ≡ none
  unfolding stampable refused_locally
  stampable_unrefused method body h = elim (Bool-cases (method == create_sandbox)) [
    | inl t ↦ rw (created method t) refl
    | inr t ↦ ground (arith, h, t)
  ]

  validate-confirmed :
      (setup : Setup p) (m : Moment p) (request : Members p) (method : Text) (body : Members p)
      (w : World p) (id : Text)
      → bound_modify method ≡ true
      → stampable p method body ≡ true
      → is_empty id ≡ false
      → (confirmed p m.now method body w.ledger).0 ≡ id
      → (validate p setup m request method body w).0
        ≡ allow p (codes "decided in modify_operation") [] ((k_decision_id p, id) ∷ [])
  unfolding validate confirmation
  validate-confirmed setup m request method body w id b s h q =
      rw (bound_modify_valid method b, stampable_unrefused method body s, b, s, q, h) refl

  stamped-remembers :
      (setup : Setup p) (now : ℕ) (request : Members p) (method : Text) (body : Members p)
      (id : Text) (l : Option Ledger)
      → base_patches p setup method body ≡ []
      → is_empty id ≡ false
      → (stamped p setup now request method body id l).1
        ≡ remember_allow p now request method body id false l
  unfolding stamped
  stamped-remembers setup now request method body id l plain h =
      rw h (ap (λ b. remember_allow p now request method body id (has_patches p b) l) plain)

  -- A write that was allowed as it came, without the base policy, and got its stamp by the patches of
  -- the answer, passes `validate` on that decision, whatever the engine and break-glass would say then:
  -- when it is one that the gateway takes a stamp on, its annotations were absent or a dict, the
  -- decision's id is not empty and has no space around it, the ledger keeps at least one decision and
  -- the decision has not expired.
  pub stamped-validate :
      (g : Patcher p) (setup next : Setup p) (m later : Moment p) (request again : Members p)
      (method : Text) (body : Members p) (id : Text) (l : Ledger) (w : World p)
      → bound_modify method ≡ true
      → stampable p method body ≡ true
      → base_patches p setup method body ≡ []
      → HasNotes p body
      → is_empty id ≡ false
      → strip id ≡ id
      → 1 ≤ l.limits.max_decisions
      → later.now ≤ m.now + l.limits.ttl
      → let (answer, ledger) = stamped p setup m.now request method body id (some l) in
        (validate p next later again method
          (g.apply answer.patches body)
          (record w { ledger = ledger })).0
        ≡ allow p (codes "decided in modify_operation") [] ((k_decision_id p, id) ∷ [])
  stamped-validate g setup next m later request again method body id l w b s plain notes h t room
        time =
      let ledger = (stamped p setup m.now request method body id (some l)).1 in
      let kept : ledger ≡ remember_allow p m.now request method body id false (some l) =
        stamped-remembers setup m.now request method body id (some l) plain h in
      ap (λ x. (validate p next later again method x (record w { ledger = ledger })).0)
        (apply-stamped p g setup m.now request method body id (some l) plain h)
      ∙ validate-confirmed next later again method (with_stamp p body id)
          (record w { ledger = ledger }) id b (stampable-with_stamp method body id ∙ s) h
          (ap (λ x. (confirmed p later.now method (with_stamp p body id) x).0) kept
            ∙ confirmed-remember_allow p l m.now later.now request method body id notes h t room
                time)
