-- ===== src/Interceptor/Values.antt =====
-- What python/src/artzain/openshell/interceptor.py reads of a request's values, and what it takes
-- from Python's json and from `str`, `bool` and `int`.
use cognexus_tools.Common.{
  ℕ, zero, suc, ◌+◌, ◌-◌, ◌≡◌, Bool, true, false, not, ◌&&◌, ◌||◌, Option, none, some, List, [],
  ◌∷◌, map, Dict, lookup, insert, Text, text_key, codes, strip, is_empty, length, take, any, all,
  leb, nat_beq, or_else, if◌then◌else◌,
}
use cognexus_tools.Journal.Entry.{Json}

-- `json` has the readings of a value: `as_text` is isinstance str, `as_object` dict, `as_array`
-- list; the others are None, numbers and Booleans. `truthy` is `bool(v)`, `str` is `str(v)`,
-- `is_int` an isinstance of int or bool, `integral` the `int` of a float that is whole, and
-- `parsed` the `int` of digits. `dumps` is `json.dumps` with sorted keys and `compact` that with
-- the short separators.
pub record Python : Type 1 where
  pub json : Json
  pub null : json.Value
  pub is_null : json.Value → Bool
  pub truthy : json.Value → Bool
  pub str : json.Value → Text
  pub is_int : json.Value → Bool
  pub integral : json.Value → Option json.Value
  pub parsed : Text → json.Value
  pub dumps : json.Value → Text
  pub compact : json.Value → Text
  pub is_null-object : (d : Dict Text json.Value) → is_null (json.object d) ≡ false
  pub is_null-text : (t : Text) → is_null (json.text t) ≡ false
  pub truthy-text : (t : Text) → truthy (json.text t) ≡ not (is_empty t)
  pub str-text : (t : Text) → str (json.text t) ≡ t
  pub as_object-null : json.as_object null ≡ none
  pub as_array-null : json.as_array null ≡ none
  pub as_object-text : (t : Text) → json.as_object (json.text t) ≡ none
  pub as_array-text : (t : Text) → json.as_array (json.text t) ≡ none
  pub as_object-array : (vs : List json.Value) → json.as_object (json.array vs) ≡ none
  pub as_array-object : (d : Dict Text json.Value) → json.as_array (json.object d) ≡ none

-- The letters that `re.I` takes for those of the pattern, small and capital, and the four outside
-- ASCII that it folds to i, s and k.
abbrev pub fold : ℕ → ℕ
fold c =
    if leb 65 c && leb c 90
    then c + 32
    else if nat_beq c 0x130 || nat_beq c 0x131
    then 105
    else if nat_beq c 0x17f
    then 115
    else if nat_beq c 0x212a
    then 107
    else c

abbrev pub starts_folded : Text → Text → Bool
starts_folded [] t = true
starts_folded (c ∷ word) [] = false
starts_folded (c ∷ word) (d ∷ t) = nat_beq c (fold d) && starts_folded word t

abbrev pub holds_folded : Text → Text → Bool
holds_folded word [] = starts_folded word []
holds_folded word (d ∷ t) = starts_folded word (d ∷ t) || holds_folded word t

abbrev pub secret_words : List Text
secret_words =
    codes "secret"
    ∷ codes "token"
    ∷ codes "credential"
    ∷ codes "password"
    ∷ codes "authorization"
    ∷ []

-- `_SECRET_KEY.search`.
unfoldable pub is_secret_key : Text → Bool
is_secret_key key = any (λ word. holds_folded word key) secret_words

abbrev pub is_digit : ℕ → Bool
is_digit c = leb 48 c && leb c 57

abbrev pub is_id_char : ℕ → Bool
is_id_char c =
    leb 65 c && leb c 90 || leb 97 c && leb c 122 || is_digit c || nat_beq c 95 || nat_beq c 45

abbrev pub sized : ℕ → (ℕ → Bool) → Text → Bool
sized limit ok t = leb 1 (length t) && leb (length t) limit && all ok t

-- `_DECISION_ID_RE`, of a text that `strip` gave.
abbrev pub is_decision_id : Text → Bool
is_decision_id t = sized 64 is_id_char t

-- `_REQUEST_ID_RE`, of a text that `strip` gave.
abbrev pub is_request_id : Text → Bool
is_request_id t = sized 64 (λ c. is_id_char c || nat_beq c 46 || nat_beq c 58) t

abbrev pub unsigned : Text → Text
unsigned [] = []
unsigned (c ∷ t) = if nat_beq c 45 then t else c ∷ t

-- The text without a line end that closes it: where `$` matches too.
abbrev pub without_line_end : Text → Text
without_line_end [] = []
without_line_end (c ∷ []) = if nat_beq c 10 then [] else c ∷ []
without_line_end (c ∷ d ∷ t) = c ∷ without_line_end (d ∷ t)

-- `_INTEGER_RE`.
abbrev pub is_integer_text : Text → Bool
is_integer_text t = sized 19 is_digit (unsigned (without_line_end t))

abbrev pub upper : ℕ → ℕ
upper c = if leb 97 c && leb c 122 then c - 32 else c

-- The other spelling of a name of small letters: `allow_missing` becomes `allowMissing`.
abbrev pub camel : Text → Text
camel [] = []
camel (c ∷ []) = if nat_beq c 95 then [] else c ∷ []
camel (c ∷ d ∷ t) = if nat_beq c 95 then upper d ∷ camel t else c ∷ camel (d ∷ t)

-- `text.rsplit(c, 1)[-1]`, the whole text where `c` is not in it.
abbrev pub after_last : ℕ → Text → Text
after_last c [] = []
after_last c (d ∷ t) =
    if any (λ x. nat_beq x c) t then after_last c t else if nat_beq d c then t else d ∷ t

module _ (p : Python) where
  abbrev pub Members : Type 0
  Members = Dict Text p.json.Value

  -- None is no value.
  abbrev pub present : Option p.json.Value → Option p.json.Value
  present none = none
  present (some v) = if p.is_null v then none else some v

  -- `body.get(name)`, where an absent key is None.
  abbrev pub get : Text → Members → Option p.json.Value
  get name body = present (lookup name body)

  -- `_field`.
  unfoldable pub field : Members → Text → Option p.json.Value
  field body name = or_else (get name body) (get (camel name) body)

  abbrev pub or_null : Option p.json.Value → p.json.Value
  or_null none = p.null
  or_null (some v) = v

  abbrev pub is_truthy : Option p.json.Value → Bool
  is_truthy none = false
  is_truthy (some v) = p.truthy v

  abbrev pub is_exactly_true : Option p.json.Value → Bool
  is_exactly_true none = false
  is_exactly_true (some v) = p.json.is_true v

  -- `str(v or "")`.
  abbrev pub str_or_empty : Option p.json.Value → Text
  str_or_empty none = []
  str_or_empty (some v) = if p.truthy v then p.str v else []

  -- `a or b`.
  abbrev pub first_true : Option p.json.Value → Option p.json.Value → Option p.json.Value
  first_true a b = if is_truthy a then a else b

  abbrev pub as_members : Option p.json.Value → Option Members
  as_members none = none
  as_members (some v) = p.json.as_object v

  abbrev pub member_of : Text → Option Members → Option p.json.Value
  member_of name none = none
  member_of name (some d) = get name d

  -- A member of a value that may be no dict.
  abbrev pub get_in : Text → Option p.json.Value → Option p.json.Value
  get_in name v = member_of name (as_members v)

  -- `_text`.
  unfoldable pub text_within : ℕ → Option p.json.Value → Text
  text_within limit none = []
  text_within limit (some v) = elim (p.json.as_text v) [ none ↦ [] | some t ↦ take limit (strip t) ]

  -- `_whole`; a Boolean is no float and no text.
  unfoldable pub whole : p.json.Value → p.json.Value
  whole v = elim (p.integral v) [
    | some n ↦ n
    | none ↦ elim (p.json.as_text v) [
      | none ↦ v
      | some t ↦ if is_integer_text t then p.parsed t else v
    ]
  ]

  -- The loop of `_strip_secrets` over the members of a dict, `inner` for one value.
  abbrev pub strip_members : (p.json.Value → p.json.Value) → Members → Members → Members
  strip_members inner [] out = out
  strip_members inner ((key, item) ∷ d) out =
      if is_secret_key key
      then strip_members inner d out
      else strip_members inner d (insert (take 80 key) (inner item) out)

  -- One level of `_strip_secrets`: a value, with what it is read as, and `inner` for a value in it.
  abbrev pub stripped :
      (p.json.Value → p.json.Value)
      → Option Members
      → Option (List p.json.Value)
      → Option Text
      → p.json.Value
      → p.json.Value
  stripped inner (some d) items t v = p.json.object (strip_members inner d [])
  stripped inner none (some vs) t v = p.json.array (map inner (take 40 vs))
  stripped inner none none (some t) v = p.json.text (take 500 t)
  stripped inner none none none v = v

  -- `_strip_secrets`; `left` is how many levels are still read, 9 less the depth.
  unfoldable pub strip_secrets : (left : ℕ) → p.json.Value → p.json.Value
  strip_secrets zero v = p.null
  strip_secrets (suc left) v =
      stripped (strip_secrets left) (p.json.as_object v) (p.json.as_array v) (p.json.as_text v) v
