-- ===== src/Interceptor/Remembered.antt =====
-- A write that `modify_operation` allowed and stamped passes `validate` on that decision:
-- python/src/artzain/openshell/interceptor.py.
use cognexus_tools.Common.{
  ℕ, ◌+◌, ◌≤◌, ◌≡◌, refl, ap, ◌∙◌, Bool, true, false, Option, none, some, [], ◌∷◌, lookup, insert,
  erase, put_last, trim, Text, text_key, lookup-insert, lookup-erase, strip, is_empty, list_beq_iff,
  arith,
}
use cognexus_tools.Ledger.Operations.{Limits, Decided, Memory, decided, remember}
use cognexus_tools.Interceptor.Values.{
  Python, Members, get, present, as_members, get_in, member_of, str_or_empty,
}
use cognexus_tools.Interceptor.Subject.{sandbox_of}
use cognexus_tools.Interceptor.Deciding.{Ledger}
use cognexus_tools.Interceptor.Stamps.{
  stamp_key, k_annotations, stamped_decision_id, operation_digest, confirmed, confirmed_id,
  remember_allow, agrees,
}
use cognexus_tools.Interceptor.Confirmed.{
  with_stamp, stamped_notes, HasNotes, get-insert-object, without_inner-with_stamp,
  lookup-trim-last,
}

decided-remember :
    (l : Limits) (id method digest uuid : Text) (base : Bool) (now later : ℕ) (memory : Memory)
    → is_empty id ≡ false
    → 1 ≤ l.max_decisions
    → later ≤ now + l.ttl
    → (decided id later (remember l id method digest uuid base now memory)).0
      ≡ some (record {
        method = method;
        digest = digest;
        sandbox_id = uuid;
        base_applied = base;
        expires = now + l.ttl;
      })
unfolding decided remember
decided-remember l id method digest uuid base now later memory h room time =
    let entry : Decided = record {
      method = method;
      digest = digest;
      sandbox_id = uuid;
      base_applied = base;
      expires = now + l.ttl;
    } in
    let gone : lookup id (erase id memory.decisions) ≡ none =
      lookup-erase id id memory.decisions ∙ rw ((list_beq_iff id id).1 refl) refl in
    let found : lookup id (trim l.max_decisions (put_last id entry memory.decisions)) ≡ some entry =
      lookup-trim-last id entry l.max_decisions (erase id memory.decisions) room gone in
    ground (arith, h, found, time)

module _ (p : Python) where
  get-stamped_notes :
      (id : Text) (o : Option (Members p))
      → get p stamp_key (stamped_notes p id o) ≡ some (p.json.text id)
  get-stamped_notes id none =
      let there : lookup stamp_key ((stamp_key, p.json.text id) ∷ []) ≡ some (p.json.text id) =
        rw ((list_beq_iff stamp_key stamp_key).1 refl) refl in
      ap (present p) there ∙ rw (p.is_null-text id) refl
  get-stamped_notes id (some d) =
      let there : lookup stamp_key (insert stamp_key (p.json.text id) d) ≡ some (p.json.text id) =
        lookup-insert stamp_key stamp_key (p.json.text id) d
        ∙ rw ((list_beq_iff stamp_key stamp_key).1 refl) refl in
      ap (present p) there ∙ rw (p.is_null-text id) refl

  stamped_decision_id-with_stamp :
      (body : Members p) (id : Text)
      → is_empty id ≡ false
      → strip id ≡ id
      → stamped_decision_id p (get p k_annotations (with_stamp p body id)) ≡ id
  unfolding stamped_decision_id
  stamped_decision_id-with_stamp body id h s =
      let notes = stamped_notes p id (as_members p (get p k_annotations body)) in
      let inside : get_in p stamp_key (get p k_annotations (with_stamp p body id))
          ≡ some (p.json.text id) =
        ap (get_in p stamp_key) (get-insert-object p k_annotations notes body)
        ∙ ap (member_of p stamp_key) (p.json.as_object-object notes)
        ∙ get-stamped_notes id (as_members p (get p k_annotations body)) in
      ap (λ v. strip (str_or_empty p v)) inside ∙ rw (p.truthy-text id, h, p.str-text id) s

  operation_digest-with_stamp :
      (body : Members p) (id : Text)
      → HasNotes p body
      → operation_digest p (with_stamp p body id) false ≡ operation_digest p body false
  unfolding operation_digest
  operation_digest-with_stamp body id notes =
      ap (λ v. p.json.sha256 (p.compact (p.json.object v)))
        (without_inner-with_stamp p body id notes)

  agrees_stamped :
      (method : Text) (body : Members p) (id : Text) (entry : Decided)
      → HasNotes p body
      → entry.method ≡ method
      → entry.digest ≡ operation_digest p body false
      → entry.base_applied ≡ false
      → agrees p method (with_stamp p body id) entry ≡ true
  agrees_stamped method body id entry notes m d b =
      rw
        (
          m,
          d,
          b,
          operation_digest-with_stamp body id notes,
          (list_beq_iff method method).1 refl,
          (list_beq_iff (operation_digest p body false) (operation_digest p body false)).1 refl,
        )
        refl

  confirmed_by :
      (l : Ledger) (later : ℕ) (method : Text) (body : Members p) (id : Text) (entry : Decided)
      → stamped_decision_id p (get p k_annotations body) ≡ id
      → is_empty id ≡ false
      → (decided id later l.memory).0 ≡ some entry
      → agrees p method body entry ≡ true
      → (confirmed p later method body (some l)).0 ≡ id
  unfolding confirmed
  confirmed_by l later method body id entry stamp h found same =
      let test : confirmed_id p id method body (some entry) ≡ id = rw same refl in
      rw (stamp, h, found) test

  -- A write that carries the stamp of an allow, remembered for the write without it and not expired,
  -- is confirmed under that decision.
  pub confirmed-remember_allow :
      (l : Ledger) (now later : ℕ) (request : Members p) (method : Text) (body : Members p)
      (id : Text)
      → HasNotes p body
      → is_empty id ≡ false
      → strip id ≡ id
      → 1 ≤ l.limits.max_decisions
      → later ≤ now + l.limits.ttl
      → (confirmed p later method
          (with_stamp p body id)
          (remember_allow p now request method body id false (some l))).0
        ≡ id
  unfolding remember_allow
  confirmed-remember_allow l now later request method body id notes h s room time =
      let uuid = (sandbox_of p request method body (some l.memory)).uuid in
      let digest = operation_digest p body false in
      let after : Ledger = record l {
        memory = remember l.limits id method digest uuid false now l.memory;
      } in
      let entry : Decided = record {
        method = method;
        digest = digest;
        sandbox_id = uuid;
        base_applied = false;
        expires = now + l.limits.ttl;
      } in
      confirmed_by after later method (with_stamp p body id) id entry
        (stamped_decision_id-with_stamp body id h s) h
        (decided-remember l.limits id method digest uuid false now later l.memory h room time)
        (agrees_stamped method body id entry notes refl refl refl)
