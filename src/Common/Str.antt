-- ===== src/Common/Str.antt =====
-- Python's `str` as its code points, a lone surrogate included, and the methods in use.
use Prim.Native.Nat.{ℕ, zero, suc}
use Prim.Native.Char.{code}
use Prim.Native.String.{String}
use mathlib.Core.Path.{◌≡◌, refl}
use mathlib.Core.Bool.{Bool, true, false, ◌&&◌, ◌||◌}
use mathlib.Core.List.{List, [], ◌∷◌}
use native.Mathlib.Omega.{arith}
use cognexus_tools.Common.Tests.{ltb, leb, nat_beq, if◌then◌else◌}
use cognexus_tools.Common.Lists.{take, any}

abbrev pub Text : Type 0
Text = List ℕ

-- The code points of a literal.
abbrev pub codes : String → Text
codes String.[] = []
codes (String.◌∷◌ c s) = code c ∷ codes s

-- `str.isspace` of one character: what `strip` takes off.
unfoldable pub is_space : ℕ → Bool
is_space c =
    leb 9 c && leb c 13
    || leb 28 c && leb c 32
    || nat_beq c 0x85
    || nat_beq c 0xa0
    || nat_beq c 0x1680
    || leb 0x2000 c && leb c 0x200a
    || nat_beq c 0x2028
    || nat_beq c 0x2029
    || nat_beq c 0x202f
    || nat_beq c 0x205f
    || nat_beq c 0x3000

abbrev pub lstrip : Text → Text
lstrip [] = []
lstrip (c ∷ s) = if is_space c then lstrip s else c ∷ s

abbrev pub rstrip : Text → Text
rstrip [] = []
rstrip (c ∷ s) =
    let t = rstrip s in elim t [ [] ↦ if is_space c then [] else c ∷ [] | d ∷ r ↦ c ∷ d ∷ r ]

-- `text.strip()`.
unfoldable pub strip : Text → Text
strip s = rstrip (lstrip s)

-- Truth of a text.
abbrev pub is_empty : Text → Bool
is_empty [] = true
is_empty (c ∷ s) = false

-- `any(ord(ch) < 32 for ch in text)`.
abbrev pub has_control : Text → Bool
has_control = any (λ c. ltb c 32)

pub has_control-take : (n : ℕ) (s : Text) → has_control s ≡ false → has_control (take n s) ≡ false
has_control-take zero s h = refl
has_control-take (suc n) [] h = refl
has_control-take (suc n) (c ∷ s) h = ground (arith, has_control-take n s)
