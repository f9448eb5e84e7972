-- ===== src/Decide/Request.antt =====
-- The lineage fields of a decision request, python/src/artzain/decide.py. A value that is no text
-- has become one by `str` before.
use cognexus_tools.Common.{
  ℕ, Bool, not, ◌&&◌, Option, none, some, List, [], ◌∷◌, ◌++◌, Text, strip, take, has_control,
  is_empty, length, any, nat_beq, if◌then◌else◌, ◌==◌, text_key, ◌>>=◌,
}

-- `_bounded_text`: none is its ValueError.
unfoldable pub bounded_text : Text → ℕ → Option Text
bounded_text value width =
    let text = strip value in if has_control text then none else some (take width text)

-- `_dimension_id`.
abbrev pub dimension_id : Text → Option Text
dimension_id value = bounded_text value 80

-- `text in parents`.
abbrev pub is_among : Text → List Text → Bool
is_among text parents = any (λ p. text == p) parents

-- What one item adds.
abbrev pub add_parent : Text → List Text → List Text
add_parent text parents =
    if not (is_empty text) && not (is_among text parents) then parents ++ text ∷ [] else parents

-- The loop of `_parent_ids`, which ends at 16.
unfoldable pub collect_parents : List Text → List Text → Option (List Text)
collect_parents [] parents = some parents
collect_parents (item ∷ items) parents = do
  text ← bounded_text item 64
  if nat_beq (length (add_parent text parents)) 16
      then some (add_parent text parents)
      else collect_parents items (add_parent text parents)

-- `_parent_ids`, of a list that is there.
abbrev pub parent_ids : List Text → Option (List Text)
parent_ids value = collect_parents value []

-- `_replayed`.
unfoldable pub replayed : Text → Bool
replayed request_id =
    let key = strip request_id in not (is_empty key) && not (any (λ c. nat_beq c 0x1f) key)
