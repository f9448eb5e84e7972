-- ===== src/Journal/Sample.antt =====
-- A concrete `Json`. It shows that what the journal relies on can be met; the digest is a short
-- sum, not SHA-256.
use mathlib.Core.Option.{map as map_option}
use cognexus_tools.Common.{
  ℕ, ◌+◌, ◌%◌, ◌≡◌, refl, Bool, true, false, Option, none, some, List, [], ◌∷◌, ◌++◌, Text, length,
  Dict, nat_beq, arith, drop,
}
use cognexus_tools.Journal.Entry.{Json, is_hash, genesis}

pub data Tree : Type 0 where
  nothing yes no no_values no_members : Tree
  number : ℕ → Tree
  letters : Text → Tree
  value_then : Tree → Tree → Tree
  member_then : Text → Tree → Tree → Tree

unfoldable pub array_of : List Tree → Tree
array_of [] = no_values
array_of (v ∷ vs) = value_then v (array_of vs)

unfoldable pub values_of : Tree → Option (List Tree)
values_of no_values = some []
values_of (value_then v t) = map_option (λ vs. v ∷ vs) (values_of t)
values_of _ = none

pub values_of-array_of : (vs : List Tree) → values_of (array_of vs) ≡ some vs
unfolding values_of array_of
values_of-array_of [] = refl
values_of-array_of (v ∷ vs) = rw (values_of-array_of vs)

unfoldable pub object_of : Dict Text Tree → Tree
object_of [] = no_members
object_of ((k, v) ∷ d) = member_then k v (object_of d)

unfoldable pub members_of : Tree → Option (Dict Text Tree)
members_of no_members = some []
members_of (member_then k v t) = map_option (λ d. (k, v) ∷ d) (members_of t)
members_of _ = none

pub members_of-object_of : (d : Dict Text Tree) → members_of (object_of d) ≡ some d
unfolding members_of object_of
members_of-object_of [] = refl
members_of-object_of ((k, v) ∷ d) = rw (members_of-object_of d)

abbrev pub number_of : Tree → Option ℕ
number_of (number n) = some n
number_of _ = none

abbrev pub letters_of : Tree → Option Text
letters_of (letters t) = some t
letters_of _ = none

abbrev pub equals_number : Tree → ℕ → Bool
equals_number yes n = nat_beq n 1
equals_number no n = nat_beq n 0
equals_number (number m) n = nat_beq m n
equals_number _ n = false

abbrev pub flag_of : Bool → Tree
flag_of true = yes
flag_of false = no

abbrev pub is_yes : Tree → Bool
is_yes yes = true
is_yes _ = false

pub is_yes-flag_of : (b : Bool) → is_yes (flag_of b) ≡ b
is_yes-flag_of true = refl
is_yes-flag_of false = refl

unfoldable pub written : Tree → Text
written nothing = 6 ∷ []
written yes = 1 ∷ []
written no = 0 ∷ []
written no_values = 2 ∷ []
written no_members = 3 ∷ []
written (number n) = 4 ∷ n ∷ []
written (letters t) = 5 ∷ t
written (value_then v t) = written v ++ written t
written (member_then k v t) = k ++ written v ++ written t

unfoldable pub total : Text → ℕ
total [] = 0
total (c ∷ s) = c + total s

abbrev pub digest : Text → Text
digest s = (48 + total s % 10) ∷ drop 1 genesis

pub digest-is_hash : (s : Text) → is_hash (digest s) ≡ true
digest-is_hash s = ground arith

pub equals_number-number : (n : ℕ) → equals_number (number n) n ≡ true
equals_number-number n = ground arith

abbrev pub sample : Json
sample = record {
  Value = Tree;
  count = number;
  text = letters;
  object = object_of;
  array = array_of;
  flag = flag_of;
  as_count = number_of;
  as_text = letters_of;
  as_object = members_of;
  as_array = values_of;
  is_true = is_yes;
  equals = equals_number;
  sorted = written;
  sha256 = digest;
  bytes = λ v. length (written v);
  plain = λ d. some d;
  as_count-count = λ n. refl;
  as_text-text = λ t. refl;
  as_object-object = members_of-object_of;
  as_array-array = values_of-array_of;
  is_true-flag = is_yes-flag_of;
  equals-count = equals_number-number;
  sha256-is_hash = digest-is_hash;
}
