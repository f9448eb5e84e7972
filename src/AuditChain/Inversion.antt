-- ===== src/AuditChain/Inversion.antt =====
-- The only ways for `verify_chain` to go on past a line.
use cognexus_tools.Common.{
  ℕ, suc, ◌≡◌, ◌≢◌, refl, ◌⊎◌, inl, inr, Bool, true, false, some, Option-cases, Bool-cases, lookup,
  text_key, Text, strip, is_empty, pos, int_beq, int_beq_iff, arith, ◌∙◌, ap,
}
use cognexus_tools.AuditChain.Entry.{
  Value, Record, object, other, k_seq, k_prev_hash, k_entry_hash, k_sig, body, Codec,
}
use cognexus_tools.AuditChain.Verify.{
  Progress, going, done, returned, intact, seq_of, int_of, check_chained, check_entry, check_line,
}
use cognexus_tools.AuditChain.Line.{
  Continues, IsLegacy, equals_text-eq, get_or_empty-eq, verify_signature-eq, check_hashes-going,
}

seq_of-some : (d : Record) (v : Value) → seq_of d ≡ some v → lookup k_seq d ≡ some v
seq_of-some d v h = elim (Option-cases (lookup k_seq d)) [
  | inl e ↦ ground (arith, h, e)
  | inr (w, e) ↦ ground (arith, h, e)
]

⊎-cases {ℓ κ} :
    {A : Type ℓ} {B : Type κ} (x : A ⊎ B) → ((a : A) × (x ≡ inl a)) ⊎ ((b : B) × (x ≡ inr b))
⊎-cases (inl a) = inl (a, refl)
⊎-cases (inr b) = inr (b, refl)

module _ (c : Codec) (key line prev : Text) (seq : ℕ) (solid : is_empty prev ≡ false) where
  -- How a line that is not blank was let through.
  abbrev Passed : Bool → Progress → Type 0
  Passed seen r =
      (IsLegacy c line × (seen ≡ false) × (r ≡ going (c.sha256 line) (suc seq) false))
      ⊎ (Continues c key prev seq line × (r ≡ going (c.sha256 line) (suc seq) true))

  chained-going :
      (entry : Record) (v : Value) (seen : Bool) {p : Text} {n : ℕ} {s : Bool}
      → is_empty (strip line) ≡ false
      → c.loads line ≡ some (object entry)
      → lookup k_seq entry ≡ some v
      → check_chained c key line entry v prev seq ≡ going p n s
      → Passed seen (going p n s)
  unfolding check_chained
  chained-going entry v seen visible parsed numbered h = elim (⊎-cases (int_of c v)) [
    | inl (e, q) ↦ ground (arith, h, q)
    | inr (n, q) ↦ elim (Bool-cases (int_beq n (pos (suc seq)))) [
      | inr b ↦ ground (arith, h, q, b)
      | inl b ↦
          let g = rw (q, check_chained, b) at h in
          let d = c.sha256 (c.canonical (body entry)) in
          let (linked, hashed, signed, ends) = check_hashes-going c key line entry prev seq g in
          inr (
            record {
              entry = entry;
              solid = visible;
              parsed = parsed;
              number = v;
              numbered = numbered;
              counted = q ∙ ap inr ((int_beq_iff n (pos (suc seq))).0 b);
              linked = get_or_empty-eq k_prev_hash entry prev (equals_text-eq _ prev linked) solid;
              hashed =
                  get_or_empty-eq k_entry_hash entry d (equals_text-eq _ d hashed)
                    (c.sha256_solid (c.canonical (body entry)));
              signed =
                  get_or_empty-eq k_sig entry (c.hmac key d) (verify_signature-eq c key d _ signed)
                    (c.hmac_solid key d);
            },
            ends,
          )
    ]
  ]

  entry-going :
      (entry : Record) (seen : Bool) {p : Text} {n : ℕ} {s : Bool}
      → is_empty (strip line) ≡ false
      → c.loads line ≡ some (object entry)
      → check_entry c key line entry prev seq seen ≡ going p n s
      → Passed seen (going p n s)
  unfolding check_entry
  entry-going entry seen visible parsed h = elim (Option-cases (seq_of entry)) [
    | inl e ↦ inl (
      record { entry = entry; solid = visible; parsed = parsed; unnumbered = e },
      ground (arith, h, e),
      ground (arith, h, e),
    )
    | inr (v, e) ↦
        chained-going entry v seen visible parsed (seq_of-some entry v e) (rw (e, check_entry) at h)
  ]

  -- A line that the loop goes past is blank, or from before the chain and stands before every
  -- chained line, or continues the chain.
  pub check_line-going :
      (seen : Bool) {p : Text} {n : ℕ} {s : Bool}
      → check_line c key line prev seq seen ≡ going p n s
      → ((is_empty (strip line) ≡ true) × (going p n s ≡ going prev seq seen))
        ⊎ Passed seen (going p n s)
  unfolding check_line
  check_line-going seen h = elim (Bool-cases (is_empty (strip line))) [
    | inl e ↦ inl (e, ground (arith, h, e))
    | inr e ↦ elim (Option-cases (c.loads line)) [
      | inl q ↦ ground (arith, h, e, q)
      | inr (other v, q) ↦ ground (arith, h, e, q)
      | inr (object entry, q) ↦ inr (entry-going entry seen e q (rw (e, q, check_line) at h))
    ]
  ]

  -- The loop's body never ends the loop with a verdict of its own that all is well.
  pub check_line-ne-intact :
      (seen : Bool) (n : ℕ) → check_line c key line prev seq seen ≢ done (returned (intact n))
  unfolding check_line check_entry check_chained
  check_line-ne-intact seen n h = ground arith
