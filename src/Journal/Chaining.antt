-- ===== src/Journal/Chaining.antt =====
-- What is read from a file is chained.
use cognexus_tools.Common.{
  Dict, ◌++◌, drop, length, leb, Bool-cases, inl, inr, ◌≤◌, ◌<◌, ℕ, suc, ◌≡◌, refl, ◌∙◌, ap, true,
  some, List, [], ◌∷◌, Text, >>=-eq-some, require-eq-some, list_beq_iff, arith, ◌>>=◌, ◌>>◌,
  require, subst, some-injective,
}
use cognexus_tools.Journal.Entry.{Json, Fields, Entry, hash_of, is_hash, Follows, IsChained}
use cognexus_tools.Journal.Reading.{
  read_fields, read_parts, continues, read_entry, read_entries, verified,
}
use cognexus_tools.Journal.Operations.{new_entry, last_of, taken}

module _ (j : Json) where
  continues-Follows :
      (n : ℕ) (h : Text) (f : Fields j)
      → continues j n h f ≡ true
      → Follows j n h (record { seq = suc n; fields = f })
  continues-Follows n h f t = record {
    seq_eq = refl;
    written_eq = ground arith;
    prev_eq = ground (arith, list_beq_iff f.prev h);
    hash_eq = ground (arith, list_beq_iff f.hash (hash_of j f));
  }

  read_entry-Follows :
      (n : ℕ) (h : Text) (v : j.Value) (e : Entry j) → read_entry j n h v ≡ some e → Follows j n h e
  unfolding read_entry
  read_entry-Follows n h v e q =
      let (f, q1, r1) =
        >>=-eq-some (read_fields j v)
          (λ f. require (continues j n h f) >> some (record { seq = suc n; fields = f })) q in
      let (t, r2) =
        require-eq-some (continues j n h f) (some (record { seq = suc n; fields = f })) r1 in
      subst (Follows j n h) (some-injective _ _ r2) (continues-Follows n h f t)

  pub read_entries-IsChained :
      (n : ℕ) (h : Text) (vs : List j.Value) (es : List (Entry j))
      → read_entries j n h vs ≡ some es
      → IsChained j n h es
  unfolding read_entries
  read_entries-IsChained n h [] es q = subst (IsChained j n h) (some-injective _ _ q) tt
  read_entries-IsChained n h (v ∷ vs) es q =
      let (e, q1, r1) =
        >>=-eq-some (read_entry j n h v)
          (λ e. read_entries j e.seq e.fields.hash vs >>= λ es. some (e ∷ es)) q in
      let (rest, q2, r2) =
        >>=-eq-some (read_entries j e.seq e.fields.hash vs) (λ es. some (e ∷ es)) r1 in
      subst (IsChained j n h) (some-injective _ _ r2)
        (read_entry-Follows n h v e q1, read_entries-IsChained e.seq e.fields.hash vs rest q2)

  -- The chain goes on from its last entry.
  pub IsChained-append :
      (n : ℕ) (h : Text) (es : List (Entry j)) (at_ms : ℕ) (kind : Text) (plain : Dict Text j.Value)
      → IsChained j n h es
      → IsChained j n h (es ++ new_entry j (last_of j n h es) at_ms kind plain ∷ [])
  IsChained-append n h [] at_ms kind plain c = (
    record { seq_eq = refl; written_eq = j.equals-count (suc n); prev_eq = refl; hash_eq = refl },
    tt,
  )
  IsChained-append n h (e ∷ es) at_ms kind plain (f, c) =
      (f, IsChained-append e.seq e.fields.hash es at_ms kind plain c)

  pub Follows-is_hash :
      (n : ℕ) (h : Text) (e : Entry j) → Follows j n h e → is_hash e.fields.hash ≡ true
  Follows-is_hash n h e f = ap is_hash f.hash_eq ∙ j.sha256-is_hash _

  -- Nothing that waits behind `n` has a number up to `n`.
  pub taken_none :
      (seq n : ℕ) (h : Text) (es : List (Entry j))
      → seq ≤ n
      → IsChained j n h es
      → taken j seq es ≡ []
  taken_none seq n h [] le c = refl
  taken_none seq n h (e ∷ es) le (f, c) =
      let later : seq < e.seq = omega (arith, f.seq_eq, le) in
      ground (arith, taken_none seq e.seq e.fields.hash es (omega (arith, later)) c)

  pub IsChained-drop :
      (seq n : ℕ) (h : Text) (es : List (Entry j))
      → IsChained j n h es
      → let gone = taken j seq es in
        let base = last_of j n h gone in IsChained j base.0 base.1 (drop (length gone) es)
  IsChained-drop seq n h [] c = tt
  IsChained-drop seq n h (e ∷ es) (f, c) = elim (Bool-cases (leb e.seq seq)) [
    | inl t ↦ rw t (IsChained-drop seq e.seq e.fields.hash es c)
    | inr t ↦ rw (t, taken_none seq e.seq e.fields.hash es (ground arith) c) (f, c)
  ]

  -- `is_hash` holds of the base after the entries are taken, too.
  pub last_of-is_hash :
      (seq n : ℕ) (h : Text) (es : List (Entry j))
      → is_hash h ≡ true
      → IsChained j n h es
      → is_hash (last_of j n h (taken j seq es)).1 ≡ true
  last_of-is_hash seq n h [] t c = t
  last_of-is_hash seq n h (e ∷ es) t (f, c) = elim (Bool-cases (leb e.seq seq)) [
    | inl u ↦ rw u (last_of-is_hash seq e.seq e.fields.hash es (Follows-is_hash n h e f) c)
    | inr u ↦ rw (u, taken_none seq e.seq e.fields.hash es (ground arith) c) t
  ]

  -- A document that verifies has a base that is a hash, and a chain from it.
  pub verified-IsChained :
      (doc : Dict Text j.Value) (n : ℕ) (h : Text) (es : List (Entry j))
      → verified j doc ≡ some ((n, h), es)
      → (is_hash h ≡ true) × IsChained j n h es
  unfolding verified
  verified-IsChained doc n h es q =
      let (p, q1, r1) =
        >>=-eq-some (read_parts j doc)
          (λ p.
            require (is_hash p.0.1) >> (read_entries j p.0.0 p.0.1 p.1 >>= λ es. some (p.0, es)))
          q in
      let (t, r2) =
        require-eq-some (is_hash p.0.1) (read_entries j p.0.0 p.0.1 p.1 >>= λ es. some (p.0, es))
          r1 in
      let (read, q3, r3) = >>=-eq-some (read_entries j p.0.0 p.0.1 p.1) (λ es. some (p.0, es)) r2 in
      subst (λ r. (is_hash r.0.1 ≡ true) × IsChained j r.0.0 r.0.1 r.1) (some-injective _ _ r3)
        (t, read_entries-IsChained p.0.0 p.0.1 p.1 read q3)
