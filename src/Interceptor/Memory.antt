-- ===== src/Interceptor/Memory.antt =====
-- What a confirmation by the ledger says of a write:
-- python/src/artzain/openshell/interceptor.py.
use cognexus_tools.Common.{
  ℕ, ◌≡◌, refl, sym, ap, ◌∙◌, subst, true, false, ◌&&◌, Option, none, some, lookup, Text, text_key,
  list_beq_iff, ltb, is_empty, Bool-cases, Option-cases, inl, inr, arith, none-some_absurd,
  some-injective,
}
use cognexus_tools.Ledger.Operations.{Decided, Memory, decided}
use cognexus_tools.Interceptor.Values.{Python, Members, get}
use cognexus_tools.Interceptor.Methods.{bound_modify}
use cognexus_tools.Interceptor.Deciding.{Ledger}
use cognexus_tools.Interceptor.Stamps.{
  k_annotations, stampable, stamped_decision_id, operation_digest, confirmed, confirmed_id, agrees,
}
use cognexus_tools.Interceptor.Evaluate.{Moment, confirmation}

decided_inverted :
    (id : Text) (now : ℕ) (memory : Memory) (entry : Decided)
    → (decided id now memory).0 ≡ some entry
    → (lookup id memory.decisions ≡ some entry) × (ltb entry.expires now ≡ false)
unfolding decided
decided_inverted id now memory entry q = elim (Option-cases (lookup id memory.decisions)) [
  | inl gone ↦
      let e : (decided id now memory).0 ≡ none = rw (decided, gone) refl in
      none-some_absurd entry (sym e ∙ q)
  | inr (found, there) ↦ elim (Bool-cases (ltb found.expires now)) [
    | inl old ↦
        let e : (decided id now memory).0 ≡ none = rw (decided, there, old) refl in
        none-some_absurd entry (sym e ∙ q)
    | inr young ↦
        let e : (decided id now memory).0 ≡ some found = rw (decided, there, young) refl in
        let same = some-injective found entry (sym e ∙ q) in
        (there ∙ ap some same, subst (λ x. ltb x.expires now ≡ false) same young)
  ]
]

module _ (p : Python) (m : Moment p) (method : Text) (body : Members p) where
  -- The ledger remembers an allow of this very write: under the id of the write's stamp, of the same
  -- method, with the digest of the operation, and not expired.
  pub record IsRemembered (o : Option Ledger) : Type 0 where
    pub ledger : Ledger
    pub there : o ≡ some ledger
    pub id : Text
    pub stamped_with : stamped_decision_id p (get p k_annotations body) ≡ id
    pub solid : is_empty id ≡ false
    pub entry : Decided
    pub found : lookup id ledger.memory.decisions ≡ some entry
    pub fresh : ltb entry.expires m.now ≡ false
    pub same_method : entry.method ≡ method
    pub same_digest : entry.digest ≡ operation_digest p body entry.base_applied
    pub takes_stamp : (bound_modify method && stampable p method body) ≡ true

  confirmed_id_inverted :
      (id : Text) (o : Option Decided)
      → is_empty (confirmed_id p id method body o) ≡ false
      → (entry : Decided) × (o ≡ some entry)
        × (entry.method ≡ method)
        × (entry.digest ≡ operation_digest p body entry.base_applied)
  confirmed_id_inverted id none h = cc
  confirmed_id_inverted id (some entry) h =
      let same : agrees p method body entry ≡ true = ground (arith, h) in
      (
        entry,
        refl,
        (list_beq_iff entry.method method).0 (ground (arith, same)),
        (list_beq_iff entry.digest (operation_digest p body entry.base_applied)).0
            (ground (arith, same)),
      )

  confirmed_inverted :
      (l : Ledger)
      → is_empty (confirmed p m.now method body (some l)).0 ≡ false
      → (bound_modify method && stampable p method body) ≡ true
      → IsRemembered (some l)
  unfolding confirmed
  confirmed_inverted l h takes =
      let id = stamped_decision_id p (get p k_annotations body) in
      elim (Bool-cases (is_empty id)) [
        | inl bare ↦
            let e : is_empty (confirmed p m.now method body (some l)).0 ≡ true = rw bare refl in
            let absurd : true ≡ false = sym e ∙ h in cc
        | inr solid ↦
            let e : (confirmed p m.now method body (some l)).0
                ≡ confirmed_id p id method body (decided id m.now l.memory).0 =
              rw solid refl in
            let (entry, q, same_method, same_digest) =
              confirmed_id_inverted id (decided id m.now l.memory).0 (sym (ap is_empty e) ∙ h) in
            let (found, fresh) = decided_inverted id m.now l.memory entry q in
            record {
              ledger = l;
              there = refl;
              id = id;
              stamped_with = refl;
              solid = solid;
              entry = entry;
              found = found;
              fresh = fresh;
              same_method = same_method;
              same_digest = same_digest;
              takes_stamp = takes;
            }
      ]

  confirmed_without : is_empty (confirmed p m.now method body none).0 ≡ true
  unfolding confirmed
  confirmed_without = refl

  confirmed-IsRemembered :
      (o : Option Ledger)
      → is_empty (confirmed p m.now method body o).0 ≡ false
      → (bound_modify method && stampable p method body) ≡ true
      → IsRemembered o
  confirmed-IsRemembered none h takes = let absurd : true ≡ false = sym confirmed_without ∙ h in cc
  confirmed-IsRemembered (some l) h takes = confirmed_inverted l h takes

  -- What is confirmed is remembered.
  pub confirmation-IsRemembered :
      (o : Option Ledger) → is_empty (confirmation p m method body o).0 ≡ false → IsRemembered o
  unfolding confirmation
  confirmation-IsRemembered o h =
      elim (Bool-cases (bound_modify method && stampable p method body)) [
        | inl takes ↦
            let e : (confirmation p m method body o).0 ≡ (confirmed p m.now method body o).0 =
              rw takes refl in
            confirmed-IsRemembered o (sym (ap is_empty e) ∙ h) takes
        | inr shut ↦
            let e : is_empty (confirmation p m method body o).0 ≡ true = rw shut refl in
            let absurd : true ≡ false = sym e ∙ h in cc
      ]
