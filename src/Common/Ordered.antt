-- ===== src/Common/Ordered.antt =====
-- Laws of the dict operations that move, trim and fill: what they leave, and in which bounds.
use Prim.Native.Nat.{ℕ, suc, ◌≤◌}
use mathlib.Core.Path.{◌≡◌, refl, sym, ◌∙◌, subst}
use mathlib.Core.Logic.{inl, inr}
use mathlib.Core.Bool.{Bool, true}
use mathlib.Core.List.{[], ◌∷◌, ◌++◌}
use mathlib.Core.Option.{none, some}
use native.Mathlib.Omega.{arith}
use cognexus_tools.Common.Tests.{if◌then◌else◌, is_some, leb, Bool-cases}
use cognexus_tools.Common.Lists.{length, All, keep}
use cognexus_tools.Common.Equality.{Key, ◌==◌}
use cognexus_tools.Common.Optional.{none-some_absurd}
use cognexus_tools.Common.Maps.{
  Dict, lookup, insert, erase, put_last, trim, insert_all, Distinct, lookup-erase, lookup-insert,
  insert-Distinct,
}

module _ {ℓ κ} {K : Type ℓ} {V : Type κ} ⦃e : Key K⦄ where
  pub lookup-append :
      (j : K) (c d : Dict K V)
      → lookup j (c ++ d) ≡ (if is_some (lookup j c) then lookup j c else lookup j d)
  lookup-append j [] d = refl
  lookup-append j ((i, w) ∷ c) d = ground (arith, lookup-append j c d)

  pub lookup-put_last :
      (j k : K) (v : V) (d : Dict K V)
      → lookup j (put_last k v d) ≡ (if j == k then some v else lookup j d)
  lookup-put_last j k v d =
      ground (arith, lookup-append j (erase k d) ((k, v) ∷ []), lookup-erase j k d)

  pub length-erase-le : (k : K) (d : Dict K V) → length (erase k d) ≤ length d
  length-erase-le k [] = omega arith
  length-erase-le k ((i, w) ∷ d) = ground (arith, length-erase-le k d)

  pub erase-Distinct : (k : K) (d : Dict K V) → Distinct d → Distinct (erase k d)
  erase-Distinct k [] h = tt
  erase-Distinct k ((i, w) ∷ d) h =
      ground (arith, erase-Distinct k d h.1, lookup-erase i k d, e.same_iff i k, e.same_iff k i)

  append-Distinct :
      (k : K) (v : V) (d : Dict K V) → Distinct d → lookup k d ≡ none → Distinct (d ++ (k, v) ∷ [])
  append-Distinct k v [] h q = (refl, tt)
  append-Distinct k v ((i, w) ∷ d) h q = ground (
    arith,
    append-Distinct k v d h.1,
    lookup-append i d ((k, v) ∷ []),
    e.same_iff i k,
    e.same_iff k i,
  )

  pub put_last-Distinct : (k : K) (v : V) (d : Dict K V) → Distinct d → Distinct (put_last k v d)
  put_last-Distinct k v d h =
      append-Distinct k v (erase k d) (erase-Distinct k d h)
        (lookup-erase k k d ∙ rw ((e.same_iff k k).1 refl) refl)

  pub length-trim-le : (cap : ℕ) (d : Dict K V) → length (trim cap d) ≤ cap
  length-trim-le cap [] = omega arith
  length-trim-le cap (x ∷ d) = ground (arith, length-trim-le cap d)

  -- What fits is left as it is.
  pub trim_fits : (cap : ℕ) (d : Dict K V) → length d ≤ cap → trim cap d ≡ d
  trim_fits cap [] h = refl
  trim_fits cap (x ∷ d) h = ground (arith, h)

  pub trim-Distinct : (cap : ℕ) (d : Dict K V) → Distinct d → Distinct (trim cap d)
  trim-Distinct cap [] h = tt
  trim-Distinct cap ((i, w) ∷ d) h = ground (arith, h, trim-Distinct cap d h.1)

  -- Trimming only takes away.
  pub lookup-trim :
      (j : K) (v : V) (cap : ℕ) (d : Dict K V)
      → Distinct d
      → lookup j (trim cap d) ≡ some v
      → lookup j d ≡ some v
  lookup-trim j v cap [] h q = q
  lookup-trim j v cap ((i, w) ∷ d) h q = elim (Bool-cases (leb (suc (length d)) cap)) [
    | inl t ↦ subst (λ x. lookup j x ≡ some v) (trim_fits cap ((i, w) ∷ d) (ground arith)) q
    | inr t ↦
        let deeper : lookup j d ≡ some v = lookup-trim j v cap d h.1 (ground arith) in
        ground (arith, deeper, h.0, e.same_iff j i)
  ]

  pub insert_all-Distinct : (w d : Dict K V) → Distinct d → Distinct (insert_all w d)
  insert_all-Distinct [] d h = h
  insert_all-Distinct ((k, v) ∷ w) d h =
      insert_all-Distinct w (insert k v d) (insert-Distinct k v d h)

  pub lookup-insert_all :
      (j : K) (w d : Dict K V)
      → Distinct w
      → lookup j (insert_all w d) ≡ (if is_some (lookup j w) then lookup j w else lookup j d)
  lookup-insert_all j [] d h = refl
  lookup-insert_all j ((k, v) ∷ w) d h =
      ground (
        arith,
        lookup-insert_all j w (insert k v d) h.1,
        lookup-insert j k v d,
        e.same_iff j k,
        h.0,
      )

  -- A property of every entry is kept.
  module _ {μ} (P : K × V → Type μ) where
    pub All-erase : (k : K) (d : Dict K V) → All P d → All P (erase k d)
    All-erase k [] h = tt
    All-erase k ((i, w) ∷ d) h = elim (Bool-cases (k == i)) [
      | inl t ↦ rw t (All-erase k d h.1)
      | inr t ↦ rw t (h.0, All-erase k d h.1)
    ]

    pub All-last : (x : K × V) (d : Dict K V) → All P d → P x → All P (d ++ x ∷ [])
    All-last x [] h p = (p, tt)
    All-last x (y ∷ d) h p = (h.0, All-last x d h.1 p)

    pub All-put_last : (k : K) (v : V) (d : Dict K V) → All P d → P (k, v) → All P (put_last k v d)
    All-put_last k v d h p = All-last (k, v) (erase k d) (All-erase k d h) p

    pub All-trim : (cap : ℕ) (d : Dict K V) → All P d → All P (trim cap d)
    All-trim cap [] h = tt
    All-trim cap (x ∷ d) h = elim (Bool-cases (leb (suc (length d)) cap)) [
      | inl t ↦ rw t h
      | inr t ↦ rw t (All-trim cap d h.1)
    ]

    pub lookup-All : (k : K) (v : V) (d : Dict K V) → All P d → lookup k d ≡ some v → P (k, v)
    lookup-All k v [] h q = none-some_absurd v q
    lookup-All k v ((i, w) ∷ d) h q = elim (Bool-cases (k == i)) [
      | inl t ↦
          let same : w ≡ v = ground (arith, q, t) in
          subst (λ x. P (x, v)) (sym ((e.same_iff k i).0 t)) (subst (λ y. P (i, y)) same h.0)
      | inr t ↦ lookup-All k v d h.1 (ground (arith, q, t))
    ]

    pub All-keep : (p : K × V → Bool) (d : Dict K V) → All P d → All P (keep p d)
    All-keep p [] h = tt
    All-keep p (x ∷ d) h = elim (Bool-cases (p x)) [
      | inl t ↦ rw t (h.0, All-keep p d h.1)
      | inr t ↦ rw t (All-keep p d h.1)
    ]

    -- The entry that an insertion puts there has the key it found.
    pub All-insert : (k : K) (v : V) (d : Dict K V) → All P d → P (k, v) → All P (insert k v d)
    All-insert k v [] h p = (p, tt)
    All-insert k v ((i, w) ∷ d) h p = elim (Bool-cases (k == i)) [
      | inl t ↦ rw t (subst (λ x. P (x, v)) ((e.same_iff k i).0 t) p, h.1)
      | inr t ↦ rw t (h.0, All-insert k v d h.1 p)
    ]

    pub All-insert_all : (w d : Dict K V) → All P w → All P d → All P (insert_all w d)
    All-insert_all [] d hw h = h
    All-insert_all ((k, v) ∷ w) d hw h =
        All-insert_all w (insert k v d) hw.1 (All-insert k v d h hw.0)

  lookup-keep-none :
      (k : K) (p : K × V → Bool) (d : Dict K V) → lookup k d ≡ none → lookup k (keep p d) ≡ none
  lookup-keep-none k p [] h = refl
  lookup-keep-none k p ((i, w) ∷ d) h = elim (Bool-cases (p (i, w))) [
    | inl t ↦ rw t (ground (arith, h, lookup-keep-none k p d))
    | inr t ↦ rw t (ground (arith, h, lookup-keep-none k p d))
  ]

  pub keep-Distinct : (p : K × V → Bool) (d : Dict K V) → Distinct d → Distinct (keep p d)
  keep-Distinct p [] h = tt
  keep-Distinct p ((i, w) ∷ d) h = elim (Bool-cases (p (i, w))) [
    | inl t ↦ rw t (lookup-keep-none i p d h.0, keep-Distinct p d h.1)
    | inr t ↦ rw t (keep-Distinct p d h.1)
  ]

  -- Every entry that is kept passes the test.
  pub keep-passes : (p : K × V → Bool) (d : Dict K V) → All (λ x. p x ≡ true) (keep p d)
  keep-passes p [] = tt
  keep-passes p (x ∷ d) = elim (Bool-cases (p x)) [
    | inl t ↦ rw t (t, keep-passes p d)
    | inr t ↦ rw t (keep-passes p d)
  ]

  pub erase_absent : (k : K) (d : Dict K V) → lookup k d ≡ none → erase k d ≡ d
  erase_absent k [] h = refl
  erase_absent k ((i, w) ∷ d) h = ground (arith, h, erase_absent k d)

  pub length-erase-lt :
      (k : K) (v : V) (d : Dict K V) → lookup k d ≡ some v → suc (length (erase k d)) ≤ length d
  length-erase-lt k v [] q = ground (arith, q)
  length-erase-lt k v ((i, w) ∷ d) q = ground (arith, q, length-erase-le k d, length-erase-lt k v d)
