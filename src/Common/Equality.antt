-- ===== src/Common/Equality.antt =====
-- Equality tests as an interface: numbers, native texts, and lists of numbers have one.
use Prim.Native.Nat.{ℕ}
use Prim.Native.String.{String}
use mathlib.Core.Path.{◌≡◌, refl}
use mathlib.Core.Logic.{◌↔◌}
use mathlib.Core.Bool.{Bool, true, false, ◌&&◌}
use mathlib.Core.List.{List, [], ◌∷◌}
use native.Mathlib.Omega.{arith}
use text.Mathlib.Text.{◌==◌ as string_beq}
use text.Mathlib.TextEquality.{eq_iff as string_beq_iff}
use cognexus_tools.Common.Tests.{nat_beq, nat_beq_iff}

-- Shut, so that a proof about a record does not compare the names of its fields letter by letter.
unfoldable pub list_beq : List ℕ → List ℕ → Bool
list_beq [] [] = true
list_beq [] (y ∷ ys) = false
list_beq (x ∷ xs) [] = false
list_beq (x ∷ xs) (y ∷ ys) = nat_beq x y && list_beq xs ys

pub list_beq_iff : (xs ys : List ℕ) → (list_beq xs ys ≡ true) ↔ (xs ≡ ys)
unfolding list_beq
list_beq_iff [] [] = (λ h. refl, λ h. refl)
list_beq_iff [] (y ∷ ys) = (λ h. cc, λ h. cc)
list_beq_iff (x ∷ xs) [] = (λ h. cc, λ h. cc)
list_beq_iff (x ∷ xs) (y ∷ ys) =
    (λ h. ground (arith, list_beq_iff xs ys), λ h. ground (arith, list_beq_iff xs ys))

-- A type whose values a Python dict takes as keys.
pub record Key {ℓ} (K : Type ℓ) : Type ℓ where
  pub same : K → K → Bool
  pub same_iff : (j k : K) → (same j k ≡ true) ↔ (j ≡ k)

instance abbrev pub text_key : Key (List ℕ)
text_key = record { same = list_beq; same_iff = list_beq_iff }

infix 45 ◌==◌
abbrev pub ◌==◌ {ℓ} : {K : Type ℓ} ⦃key : Key K⦄ → K → K → Bool
◌==◌ ⦃key⦄ j k = key.same j k

instance abbrev pub string_key : Key String
string_key = record { same = string_beq; same_iff = string_beq_iff }

instance abbrev pub nat_key : Key ℕ
nat_key = record { same = nat_beq; same_iff = nat_beq_iff }

-- A pair of texts is a key, part by part.
abbrev pub same_pair : List ℕ × List ℕ → List ℕ × List ℕ → Bool
same_pair (a, b) (c, d) = list_beq a c && list_beq b d

pub same_pair_iff : (j k : List ℕ × List ℕ) → (same_pair j k ≡ true) ↔ (j ≡ k)
same_pair_iff (a, b) (c, d) = (
  λ h. ground (arith, list_beq_iff a c, list_beq_iff b d, h),
  λ h. ground (arith, list_beq_iff a c, list_beq_iff b d, h),
)

instance abbrev pub pair_key : Key (List ℕ × List ℕ)
pair_key = record { same = same_pair; same_iff = same_pair_iff }
