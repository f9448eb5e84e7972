-- ===== src/Journal/Entry.antt =====
-- An entry of python/src/artzain/openshell/journal.py, its hash, and what the module takes from
-- Python's json and hashlib.
use cognexus_tools.Common.{
  ℕ, suc, ◌≡◌, Bool, true, ◌&&◌, ◌||◌, Option, some, List, [], ◌∷◌, Dict, Text, codes, length, all,
  leb, nat_beq,
}

abbrev pub is_hex : ℕ → Bool
is_hex c = leb 48 c && leb c 57 || leb 97 c && leb c 102

-- `_is_hash` of a text.
abbrev pub is_hash : Text → Bool
is_hash t = nat_beq (length t) 64 && all is_hex t

-- `GENESIS`.
abbrev pub genesis : Text
genesis = codes "0000000000000000000000000000000000000000000000000000000000000000"

-- JSON values, with a constructor and a reading of each kind that the module tells apart. `count`
-- is a whole number from 0 up and `as_count` the test `_is_count`; `equals` is `v == n`, which
-- `true` and `1.0` pass too, and `is_true` is `v is True`. `sorted` is `json.dumps` with sorted keys, `bytes` the size of the
-- file that holds a value, and `plain` a body written and read back, none where that raises or
-- exceeds `MAX_BODY_BYTES`.
pub record Json : Type 1 where
  pub Value : Type 0
  pub count : ℕ → Value
  pub text : Text → Value
  pub object : Dict Text Value → Value
  pub array : List Value → Value
  pub flag : Bool → Value
  pub as_count : Value → Option ℕ
  pub as_text : Value → Option Text
  pub as_object : Value → Option (Dict Text Value)
  pub as_array : Value → Option (List Value)
  pub is_true : Value → Bool
  pub equals : Value → ℕ → Bool
  pub sorted : Value → Text
  pub sha256 : Text → Text
  pub bytes : Value → ℕ
  pub plain : Dict Text Value → Option (Dict Text Value)
  pub as_count-count : (n : ℕ) → as_count (count n) ≡ some n
  pub as_text-text : (t : Text) → as_text (text t) ≡ some t
  pub as_object-object : (d : Dict Text Value) → as_object (object d) ≡ some d
  pub as_array-array : (vs : List Value) → as_array (array vs) ≡ some vs
  pub is_true-flag : (b : Bool) → is_true (flag b) ≡ b
  pub equals-count : (n : ℕ) → equals (count n) n ≡ true
  pub sha256-is_hash : (t : Text) → is_hash (sha256 t) ≡ true

module _ (j : Json) where
  open j use {Value, count, text, object, array, sorted, sha256}

  -- `entry_hash`, of a sequence number as the file writes it.
  abbrev pub entry_hash : Value → ℕ → Text → Dict Text Value → Text → Text
  entry_hash seq at_ms kind body prev =
      sha256 (sorted (array (seq ∷ count at_ms ∷ text kind ∷ object body ∷ text prev ∷ [])))

  -- What an entry holds. `written` is its sequence number as the file writes it.
  pub record Fields : Type 0 where
    pub written : Value
    pub at_ms : ℕ
    pub kind : Text
    pub body : Dict Text Value
    pub prev : Text
    pub hash : Text

  -- An entry, with the sequence number that the code computes with.
  pub record Entry : Type 0 where
    pub seq : ℕ
    pub fields : Fields

  abbrev pub hash_of : Fields → Text
  hash_of f = entry_hash f.written f.at_ms f.kind f.body f.prev

  -- Whether an entry follows the entry with this number and hash.
  pub record Follows (n : ℕ) (h : Text) (e : Entry) : Type 0 where
    pub seq_eq : e.seq ≡ suc n
    pub written_eq : j.equals e.fields.written e.seq ≡ true
    pub prev_eq : e.fields.prev ≡ h
    pub hash_eq : e.fields.hash ≡ hash_of e.fields

  -- The chain from a base on.
  abbrev pub IsChained : ℕ → Text → List Entry → Type 0
  IsChained n h [] = Unit
  IsChained n h (e ∷ es) = Follows n h e × IsChained e.seq e.fields.hash es
