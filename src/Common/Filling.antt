-- ===== src/Common/Filling.antt =====
-- Laws of dicts that are filled up from one another.
use Prim.Native.Nat.{◌≤◌}
use mathlib.Core.Path.{ap, ◌≡◌, refl, ◌∙◌}
use mathlib.Core.Logic.{inl, inr}
use mathlib.Core.Bool.{true}
use mathlib.Core.List.{[], ◌∷◌}
use mathlib.Core.Option.{none}
use native.Mathlib.Omega.{arith}
use cognexus_tools.Common.Tests.{Option-cases, if◌then◌else◌, is_some, Bool-cases}
use cognexus_tools.Common.Lists.{length, keep}
use cognexus_tools.Common.Equality.{Key, ◌==◌}
use cognexus_tools.Common.Maps.{contains, Dict, lookup, erase, insert_all, Distinct, lookup-erase}
use cognexus_tools.Common.Ordered.{length-erase-lt, lookup-insert_all}

module _ {ℓ κ} {K : Type ℓ} {V : Type κ} ⦃e : Key K⦄ where
  -- A dict with no key twice is no longer than one that has all its keys.
  pub length-le-length :
      (d w : Dict K V)
      → Distinct d
      → ((k : K) → is_some (lookup k d) ≡ true → is_some (lookup k w) ≡ true)
      → length d ≤ length w
  length-le-length [] w h f = omega arith
  length-le-length ((i, v) ∷ d) w h f = elim (Option-cases (lookup i w)) [
    | inl gone ↦
        let there : is_some (lookup i w) ≡ true = f i (rw ((e.same_iff i i).1 refl) refl) in
        ground (arith, there, gone)
    | inr (u, there) ↦
        let rest : length d ≤ length (erase i w) =
          length-le-length d (erase i w) h.1
            (λ k t. ground (arith, t, h.0, f k, lookup-erase k i w, e.same_iff k i)) in
        omega (arith, rest, length-erase-lt i u w there)
  ]

  pub lookup-keep_keys :
      (k : K) (w d : Dict K V)
      → lookup k (keep (λ x. contains x.0 w) d) ≡ (if contains k w then lookup k d else none)
  lookup-keep_keys k w [] = ground arith
  lookup-keep_keys k w ((i, v) ∷ d) = elim (Bool-cases (k == i)) [
    | inl t ↦
        let same : contains k w ≡ contains i w = ap (λ x. contains x w) ((e.same_iff k i).0 t) in
        elim (Bool-cases (contains i w)) [
          | inl there ↦ rw there (ground (arith, t, same, there, lookup-keep_keys k w d))
          | inr gone ↦ rw gone (ground (arith, t, same, gone, lookup-keep_keys k w d))
        ]
    | inr t ↦ elim (Bool-cases (contains i w)) [
      | inl there ↦ rw there (ground (arith, t, lookup-keep_keys k w d))
      | inr gone ↦ rw gone (ground (arith, t, lookup-keep_keys k w d))
    ]
  ]

  -- Filling up what was kept of the wanted keys gives just what is wanted.
  pub lookup-refilled :
      (k : K) (w d : Dict K V)
      → Distinct w
      → lookup k (insert_all w (keep (λ x. contains x.0 w) d)) ≡ lookup k w
  lookup-refilled k w d h =
      lookup-insert_all k w (keep (λ x. contains x.0 w) d) h
      ∙ ground (arith, lookup-keep_keys k w d)
