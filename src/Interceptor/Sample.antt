-- ===== src/Interceptor/Sample.antt =====
-- A concrete `Python`, over the sample of the journal's JSON. It shows that what the interceptor
-- relies on can be met.
use cognexus_tools.Common.{
  ◌≡◌, refl, Bool, true, false, not, none, List, [], ◌∷◌, Dict, Text, is_empty, ltb,
}
use cognexus_tools.Journal.Sample.{
  Tree, nothing, yes, no, no_values, no_members, number, letters, array_of, values_of, object_of,
  members_of, written, total, sample,
}
use cognexus_tools.Interceptor.Values.{Python}

abbrev is_nothing : Tree → Bool
is_nothing nothing = true
is_nothing _ = false

abbrev is_true_value : Tree → Bool
is_true_value nothing = false
is_true_value no = false
is_true_value no_values = false
is_true_value no_members = false
is_true_value (number n) = ltb 0 n
is_true_value (letters t) = not (is_empty t)
is_true_value _ = true

abbrev text_of_tree : Tree → Text
text_of_tree (letters t) = t
text_of_tree v = written v

abbrev is_whole : Tree → Bool
is_whole yes = true
is_whole no = true
is_whole (number n) = true
is_whole _ = false

pub is_nothing-object_of : (d : Dict Text Tree) → is_nothing (object_of d) ≡ false
unfolding object_of
is_nothing-object_of [] = refl
is_nothing-object_of (x ∷ d) = refl

pub members_of-array_of : (vs : List Tree) → members_of (array_of vs) ≡ none
unfolding members_of array_of
members_of-array_of [] = refl
members_of-array_of (v ∷ vs) = refl

pub values_of-object_of : (d : Dict Text Tree) → values_of (object_of d) ≡ none
unfolding values_of object_of
values_of-object_of [] = refl
values_of-object_of (x ∷ d) = refl

pub members_of-nothing : members_of nothing ≡ none
unfolding members_of
members_of-nothing = refl

pub values_of-nothing : values_of nothing ≡ none
unfolding values_of
values_of-nothing = refl

pub members_of-letters : (t : Text) → members_of (letters t) ≡ none
unfolding members_of
members_of-letters t = refl

pub values_of-letters : (t : Text) → values_of (letters t) ≡ none
unfolding values_of
values_of-letters t = refl

abbrev pub python : Python
python = record {
  json = sample;
  null = nothing;
  is_null = is_nothing;
  truthy = is_true_value;
  str = text_of_tree;
  is_int = is_whole;
  integral = λ v. none;
  parsed = λ t. number (total t);
  dumps = written;
  compact = written;
  is_null-object = is_nothing-object_of;
  is_null-text = λ t. refl;
  truthy-text = λ t. refl;
  str-text = λ t. refl;
  as_object-null = members_of-nothing;
  as_array-null = values_of-nothing;
  as_object-text = members_of-letters;
  as_array-text = values_of-letters;
  as_object-array = members_of-array_of;
  as_array-object = values_of-object_of;
}
