-- ===== src/Common/Fresh.antt =====
-- A list that takes only items unlike those it holds, and what a test finds in it.
use mathlib.Core.Path.{◌≡◌, ◌∙◌}
use mathlib.Core.Logic.{inl, inr}
use mathlib.Core.Bool.{Bool, true, ◌||◌}
use mathlib.Core.List.{List, [], ◌∷◌, ◌++◌}
use native.Mathlib.Omega.{arith}
use cognexus_tools.Common.Tests.{if◌then◌else◌, Bool-cases}
use cognexus_tools.Common.Lists.{any, any-append}

module _ {ℓ} {A : Type ℓ} (same : A → A → Bool) where
  abbrev pub add_new : A → List A → List A
  add_new x kept = if any (same x) kept then kept else kept ++ x ∷ []

  abbrev pub add_all_new : List A → List A → List A
  add_all_new [] kept = kept
  add_all_new (x ∷ xs) kept = add_all_new xs (add_new x kept)

  -- A test that does not tell like items apart.
  abbrev pub Respects : (A → Bool) → Type ℓ
  Respects p = (x y : A) → same x y ≡ true → p x ≡ p y

  module _ (p : A → Bool) (r : Respects p) where
    pub any-same : (x : A) (xs : List A) → any (same x) xs ≡ true → p x ≡ true → any p xs ≡ true
    any-same x [] h q = h
    any-same x (y ∷ ys) h q = elim (Bool-cases (same x y)) [
      | inl t ↦ ground (arith, r x y t, q)
      | inr t ↦ ground (arith, any-same x ys (ground (arith, t, h)) q)
    ]

    pub any-add_new : (x : A) (kept : List A) → any p (add_new x kept) ≡ (any p kept || p x)
    any-add_new x kept = elim (Bool-cases (any (same x) kept)) [
      | inl t ↦ elim (Bool-cases (p x)) [
        | inl q ↦ rw t (ground (arith, any-same x kept t q, q))
        | inr q ↦ rw t (ground (arith, q))
      ]
      | inr t ↦ rw t (any-append p kept (x ∷ []) ∙ ground arith)
    ]

    pub any-add_all_new :
        (xs kept : List A) → any p (add_all_new xs kept) ≡ (any p kept || any p xs)
    any-add_all_new [] kept = ground arith
    any-add_all_new (x ∷ xs) kept =
        any-add_all_new xs (add_new x kept) ∙ ground (arith, any-add_new x kept)
