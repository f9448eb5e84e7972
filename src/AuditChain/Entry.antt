-- ===== src/AuditChain/Entry.antt =====
-- A JSON record of the audit log, as python/src/artzain/audit_chain.py looks at one, and what the
-- module takes from Python's json, hashlib and hmac.
use cognexus_tools.Common.{
  ◌≡◌, Bool, true, false, not, ◌||◌, Option, none, some, [], Dict, lookup, Distinct, keep, ◌==◌,
  text_key, Text, codes, strip, is_empty, ltb, all, ℤ, pos, negsuc, nat_beq,
}

-- A float carries its integer part, which `nan` and the infinities lack, and whether it is zero; an
-- array or object whether it is empty. Their text tells two such values apart.
pub data Value : Type 0 where
  null : Value
  boolean : Bool → Value
  int : ℤ → Value
  float : (written : Text) (landed : Option ℤ) (zero : Bool) → Value
  str : Text → Value
  nested : (written : Text) (empty : Bool) → Value

abbrev pub Record : Type 0
Record = Dict Text Value

-- What a line holds, once parsed: an object, or any other JSON value.
pub data Json : Type 0 where
  object : Record → Json
  other : Value → Json

abbrev pub k_seq : Text
k_seq = codes "seq"

abbrev pub k_prev_hash : Text
k_prev_hash = codes "prev_hash"

abbrev pub k_entry_hash : Text
k_entry_hash = codes "entry_hash"

abbrev pub k_sig : Text
k_sig = codes "sig"

-- `_GENESIS_HASH`, "0" * 64.
abbrev pub genesis : Text
genesis = codes "0000000000000000000000000000000000000000000000000000000000000000"

-- Truth of a value, in Python.
abbrev pub truthy : Value → Bool
truthy null = false
truthy (boolean b) = b
truthy (int (pos n)) = not (nat_beq n 0)
truthy (int (negsuc n)) = true
truthy (float _ _ zero) = not zero
truthy (str s) = not (is_empty s)
truthy (nested _ empty) = not empty

abbrev pub is_ascii : Text → Bool
is_ascii = all (λ c. ltb c 128)

-- `v == s` for a text `s`.
abbrev pub equals_text : Value → Text → Bool
equals_text (str t) s = t == s
equals_text _ s = false

-- `entry.get(k, "")`.
abbrev pub get_or_empty : Text → Record → Value
get_or_empty k d = elim (lookup k d) [ none ↦ str [] | some v ↦ v ]

abbrev pub is_reserved : Text → Bool
is_reserved k = (k_entry_hash == k) || (k_sig == k)

-- `{k: v for k, v in entry.items() if k not in ("entry_hash", "sig")}`.
abbrev pub body : Record → Record
body = keep (λ e. not (is_reserved e.0))

-- The libraries that the module calls, with what it relies on: a record that was written is read
-- back as it was, its line is not blank and has no space at its ends, and a digest is a text that
-- is not empty and is ASCII. `to_int` is Python's `int` of a text. `clean` is
-- `without_unpaired_surrogates`.
pub record Codec : Type 0 where
  pub loads : Text → Option Json
  pub dumps : Record → Text
  pub canonical : Record → Text
  pub sha256 : Text → Text
  pub hmac : (key data_text : Text) → Text
  pub to_int : Text → Option ℤ
  pub clean : Record → Record
  pub loads-dumps : (d : Record) → Distinct d → loads (dumps d) ≡ some (object d)
  pub strip-dumps : (d : Record) → strip (dumps d) ≡ dumps d
  pub sha256_solid : (t : Text) → is_empty (sha256 t) ≡ false
  pub dumps_solid : (d : Record) → is_empty (dumps d) ≡ false
  pub hmac_solid : (k t : Text) → is_empty (hmac k t) ≡ false
  pub hmac_ascii : (k t : Text) → is_ascii (hmac k t) ≡ true
