-- ===== src/Journal/Settling.antt =====
-- Which entries a settling takes, and what a durable append leaves, of
-- python/src/artzain/openshell/journal.py.
use cognexus_tools.Common.{
  ℕ, ◌+◌, ◌-◌, min, ◌≡◌, refl, ap, ◌∙◌, ◌↔◌, Bool, true, List, [], ◌∷◌, Text, length, drop, leb,
  nat_beq, any, ◌≤◌, ◌<◌, Bool-cases, inl, inr, arith, if◌then◌else◌,
}
use cognexus_tools.Journal.Entry.{Json, Entry, IsChained}
use cognexus_tools.Journal.Operations.{
  Config, Journal, settle_through, holds, head, last_of, taken, in_range,
}
use cognexus_tools.Journal.Chaining.{taken_none}
use cognexus_tools.Journal.Saving.{IsIntact, save-contents}

module _ (j : Json) where
  last_of-seq :
      (n : ℕ) (h : Text) (es : List (Entry j))
      → IsChained j n h es
      → (last_of j n h es).0 ≡ n + length es
  last_of-seq n h [] c = omega arith
  last_of-seq n h (e ∷ es) (f, c) = omega (arith, f.seq_eq, last_of-seq e.seq e.fields.hash es c)

  any-seq_iff :
      (m n : ℕ) (h : Text) (es : List (Entry j))
      → IsChained j n h es
      → (any (λ e. nat_beq e.seq m) es ≡ true) ↔ ((n < m) × (m ≤ n + length es))
  any-seq_iff m n h [] c = (λ t. cc, λ r. ground (arith, r))
  any-seq_iff m n h (e ∷ es) (f, c) =
      let rest = any-seq_iff m e.seq e.fields.hash es c in
      (λ t. ground (arith, f.seq_eq, rest), λ r. ground (arith, f.seq_eq, rest))

  length-taken :
      (m n : ℕ) (h : Text) (es : List (Entry j))
      → IsChained j n h es
      → length (taken j m es) ≡ min (length es) (m - n)
  length-taken m n h [] c = omega arith
  length-taken m n h (e ∷ es) (f, c) = elim (Bool-cases (leb e.seq m)) [
    | inl t ↦
        let low : e.seq ≤ m = ground arith in
        rw t (omega (arith, f.seq_eq, low, length-taken m e.seq e.fields.hash es c))
    | inr t ↦
        let high : m < e.seq = ground arith in
        rw (t, taken_none j m e.seq e.fields.hash es (omega (arith, high)) c)
          (omega (arith, f.seq_eq, high))
  ]

  last_of-taken :
      (m n : ℕ) (h : Text) (es : List (Entry j))
      → IsChained j n h es
      → (last_of j n h (taken j m es)).0 ≡ n + length (taken j m es)
  last_of-taken m n h [] c = omega arith
  last_of-taken m n h (e ∷ es) (f, c) = elim (Bool-cases (leb e.seq m)) [
    | inl t ↦ rw t (omega (arith, f.seq_eq, last_of-taken m e.seq e.fields.hash es c))
    | inr t ↦
        let high : m < e.seq = ground arith in
        rw (t, taken_none j m e.seq e.fields.hash es (omega (arith, high)) c) (omega arith)
  ]

  in_range-any :
      (m n : ℕ) (h : Text) (es : List (Entry j)) (s : Journal j)
      → IsChained j n h es
      → (head j s).0 ≡ n + length es
      → in_range j m s es ≡ any (λ e. nat_beq e.seq m) es
  in_range-any m n h [] s c q = refl
  in_range-any m n h (e ∷ es) s (f, c) q =
      ground (arith, f.seq_eq, q, any-seq_iff m e.seq e.fields.hash es c)

module _ (j : Json) (cfg : Config) where
  -- In a journal whose chain holds, exactly the numbers behind the base up to the head wait.
  pub holds_iff :
      (seq : ℕ) (s : Journal j)
      → IsIntact j cfg s
      → (holds j seq s ≡ true) ↔ ((s.base_seq < seq) × (seq ≤ (head j s).0))
  unfolding holds
  holds_iff seq s i =
      rw (last_of-seq j s.base_seq s.base_hash s.entries i.1)
        (any-seq_iff j seq s.base_seq s.base_hash s.entries i.1)

  -- In a journal whose chain holds, `settle_through` of a number that waits takes every entry up
  -- to it and no other: as many as it reports, from the front, and the base moves to that number,
  -- whether or not the file can be written. Of any other number it takes nothing.
  pub settle_through-takes :
      (seq : ℕ) (w : Bool) (s : Journal j)
      → IsIntact j cfg s
      → let r = settle_through j cfg seq w s in
        if holds j seq s
        then (r.0 ≡ seq - s.base_seq)
          × (r.1.base_seq ≡ seq)
          × (r.1.entries ≡ drop (seq - s.base_seq) s.entries)
        else (r ≡ (0, s))
  unfolding settle_through holds
  settle_through-takes seq w s i =
      let n = s.base_seq in
      let h = s.base_hash in
      let es = s.entries in
      let range = in_range-any j seq n h es s i.1 (last_of-seq j n h es i.1) in
      elim (Bool-cases (any (λ e. nat_beq e.seq seq) es)) [
        | inl t ↦
            let (low, high) = (any-seq_iff j seq n h es i.1).0 t in
            let many : length (taken j seq es) ≡ seq - n =
              omega (arith, length-taken j seq n h es i.1, low, high) in
            rw (t, range ∙ t)
              (
                many,
                ap (λ c. c.0.0) (save-contents j cfg w _)
                    ∙ omega (arith, last_of-taken j seq n h es i.1, many, low),
                ap (λ c. c.1) (save-contents j cfg w _) ∙ ap (λ k. drop k es) many,
              )
        | inr t ↦ rw (t, range ∙ t) refl
      ]
