-- ===== src/Common/Sorting.antt =====
-- Python's stable `sorted` with a key that puts the largest first, and what it leaves.
use Prim.Native.Nat.{ℕ, suc, ◌≤◌}
use mathlib.Core.Path.{◌≡◌, refl, ap, ◌∙◌}
use mathlib.Core.Logic.{inl, inr}
use mathlib.Core.Bool.{Bool, ◌||◌}
use mathlib.Core.List.{List, [], ◌∷◌}
use native.Mathlib.Omega.{arith}
use cognexus_tools.Common.Tests.{if◌then◌else◌, leb, Bool-cases}
use cognexus_tools.Common.Lists.{All, any, length}

module _ {ℓ} {A : Type ℓ} (rank : A → ℕ) where
  -- An item goes before those of its rank, which come from behind it.
  abbrev pub insert_by : A → List A → List A
  insert_by x [] = x ∷ []
  insert_by x (y ∷ ys) = if leb (rank y) (rank x) then x ∷ y ∷ ys else y ∷ insert_by x ys

  -- `sorted(xs, key=lambda x: -rank(x))`
  abbrev pub sort_by : List A → List A
  sort_by [] = []
  sort_by (x ∷ xs) = insert_by x (sort_by xs)

  abbrev pub IsDescending : List A → Type 0
  IsDescending [] = Unit
  IsDescending (x ∷ xs) = All (λ y. rank y ≤ rank x) xs × IsDescending xs

  All-weaken : (m n : ℕ) (xs : List A) → m ≤ n → All (λ y. rank y ≤ m) xs → All (λ y. rank y ≤ n) xs
  All-weaken m n [] h a = tt
  All-weaken m n (x ∷ xs) h a = (omega (arith, h, a.0), All-weaken m n xs h a.1)

  pub All-insert_by {κ} :
      (P : A → Type κ) (x : A) (xs : List A) → P x → All P xs → All P (insert_by x xs)
  All-insert_by P x [] p a = (p, tt)
  All-insert_by P x (y ∷ ys) p a = elim (Bool-cases (leb (rank y) (rank x))) [
    | inl t ↦ rw t (p, a)
    | inr t ↦ rw t (a.0, All-insert_by P x ys p a.1)
  ]

  pub All-sort_by {κ} : (P : A → Type κ) (xs : List A) → All P xs → All P (sort_by xs)
  All-sort_by P [] a = tt
  All-sort_by P (x ∷ xs) a = All-insert_by P x (sort_by xs) a.0 (All-sort_by P xs a.1)

  insert_by-IsDescending : (x : A) (xs : List A) → IsDescending xs → IsDescending (insert_by x xs)
  insert_by-IsDescending x [] d = (tt, tt)
  insert_by-IsDescending x (y ∷ ys) d = elim (Bool-cases (leb (rank y) (rank x))) [
    | inl t ↦
        let le : rank y ≤ rank x = ground (arith, t) in
        rw t ((le, All-weaken (rank y) (rank x) ys le d.0), d)
    | inr t ↦ rw t (
      All-insert_by (λ z. rank z ≤ rank y) x ys (ground (arith, t)) d.0,
      insert_by-IsDescending x ys d.1,
    )
  ]

  pub sort_by-IsDescending : (xs : List A) → IsDescending (sort_by xs)
  sort_by-IsDescending [] = tt
  sort_by-IsDescending (x ∷ xs) = insert_by-IsDescending x (sort_by xs) (sort_by-IsDescending xs)

  insert_by_first : (x : A) (xs : List A) → All (λ y. rank y ≤ rank x) xs → insert_by x xs ≡ x ∷ xs
  insert_by_first x [] a = refl
  insert_by_first x (y ∷ ys) a = ground (arith, a.0)

  -- What is in order stays as it is.
  pub sort_by_sorted : (xs : List A) → IsDescending xs → sort_by xs ≡ xs
  sort_by_sorted [] d = refl
  sort_by_sorted (x ∷ xs) d = ap (insert_by x) (sort_by_sorted xs d.1) ∙ insert_by_first x xs d.0

  pub length-insert_by : (x : A) (xs : List A) → length (insert_by x xs) ≡ suc (length xs)
  length-insert_by x [] = refl
  length-insert_by x (y ∷ ys) = ground (arith, length-insert_by x ys)

  pub length-sort_by : (xs : List A) → length (sort_by xs) ≡ length xs
  length-sort_by [] = refl
  length-sort_by (x ∷ xs) = length-insert_by x (sort_by xs) ∙ ap suc (length-sort_by xs)

  pub any-insert_by :
      (p : A → Bool) (x : A) (xs : List A) → any p (insert_by x xs) ≡ (p x || any p xs)
  any-insert_by p x [] = refl
  any-insert_by p x (y ∷ ys) = ground (arith, any-insert_by p x ys)

  -- Sorting neither loses nor adds an item.
  pub any-sort_by : (p : A → Bool) (xs : List A) → any p (sort_by xs) ≡ any p xs
  any-sort_by p [] = refl
  any-sort_by p (x ∷ xs) = any-insert_by p x (sort_by xs) ∙ ap (λ b. p x || b) (any-sort_by p xs)
