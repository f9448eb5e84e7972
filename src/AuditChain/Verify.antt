-- ===== src/AuditChain/Verify.antt =====
-- `verify_chain` of python/src/artzain/audit_chain.py. A log is its lines, without line breaks.
use cognexus_tools.Common.{
  ℕ, suc, Bool, true, false, not, Option, none, some, List, [], ◌∷◌, if◌then◌else◌, lookup, ◌==◌,
  text_key, Text, strip, is_empty, ℤ, pos, int_beq, ◌⊎◌, inl, inr,
}
use cognexus_tools.AuditChain.Entry.{
  Value, null, boolean, int, float, str, nested, Record, object, other, k_seq, k_prev_hash,
  k_entry_hash, k_sig, genesis, truthy, is_ascii, equals_text, get_or_empty, body, Codec,
}

-- The texts of `VerifyResult.error`, with the numbers that they quote.
pub data Fault : Type 0 where
  parse_error : Fault
  unchained : (after : ℕ) → Fault
  sequence_gap : (expected : ℕ) (got : ℤ) → Fault
  prev_hash_mismatch entry_hash_mismatch missing_signature hmac_mismatch : (at : ℤ) → Fault

-- `VerifyResult`.
pub data VerifyResult : Type 0 where
  intact : (entries_checked : ℕ) → VerifyResult
  broken : (entries_checked : ℕ) (first_bad_seq : ℤ) (error : Fault) → VerifyResult

-- What the body of the loop raises and the function does not catch: `.get` of a value that is no
-- object, `int` of a `seq` that is no number, a `sig` that `compare_digest` does not take.
pub data Exception : Type 0 where
  attribute_error value_error type_error : Exception

pub data Outcome : Type 0 where
  returned : VerifyResult → Outcome
  raised : Exception → Outcome

-- The loop's variables, or how the loop ended.
pub data Progress : Type 0 where
  going : (prev_hash : Text) (seq : ℕ) (chained_seen : Bool) → Progress
  done : Outcome → Progress

abbrev fail : ℕ → ℤ → Fault → Progress
fail seq bad f = done (returned (broken seq bad f))

abbrev pub is_null : Value → Bool
is_null null = true
is_null _ = false

-- The `seq`; a null is as good as missing.
abbrev pub seq_of : Record → Option Value
seq_of entry = elim (lookup k_seq entry) [
  | none ↦ none
  | some v ↦ if is_null v then none else some v
]

module _ (c : Codec) where
  -- `int(entry_seq)`, or what it raises.
  abbrev pub int_of : Value → Exception ⊎ ℤ
  int_of null = inl type_error
  int_of (boolean b) = inr (pos (if b then 1 else 0))
  int_of (int n) = inr n
  int_of (float _ landed _) = elim landed [ none ↦ inl value_error | some n ↦ inr n ]
  int_of (str s) = elim (c.to_int s) [ none ↦ inl value_error | some n ↦ inr n ]
  int_of (nested _ _) = inl type_error

module _ (c : Codec) (key : Text) where
  -- `_HMACSigner.verify`: none is the TypeError of `hmac.compare_digest`.
  abbrev pub verify_signature : Text → Value → Option Bool
  verify_signature stored (str s) = if is_ascii s then some (c.hmac key stored == s) else none
  verify_signature stored _ = none

  -- The checks of a chained entry, from `prev_hash` on.
  abbrev pub check_hashes : Text → Record → Text → ℕ → Progress
  check_hashes line entry prev seq =
      let at = pos (suc seq) in
      let expected_hash = c.sha256 (c.canonical (body entry)) in
      let stored_sig = get_or_empty k_sig entry in
      if not (equals_text (get_or_empty k_prev_hash entry) prev)
      then fail seq at (prev_hash_mismatch at)
      else if not (equals_text (get_or_empty k_entry_hash entry) expected_hash)
      then fail seq at (entry_hash_mismatch at)
      else if not (truthy stored_sig)
      then fail seq at (missing_signature at)
      else elim (verify_signature expected_hash stored_sig) [
        | none ↦ done (raised type_error)
        | some false ↦ fail seq at (hmac_mismatch at)
        | some true ↦ going (c.sha256 line) (suc seq) true
      ]

  -- The checks of an entry with a `seq`.
  unfoldable pub check_chained : Text → Record → Value → Text → ℕ → Progress
  check_chained line entry entry_seq prev seq = elim (int_of c entry_seq) [
    | inl e ↦ done (raised e)
    | inr n ↦
        if int_beq n (pos (suc seq))
        then check_hashes line entry prev seq
        else fail seq n (sequence_gap (suc seq) n)
  ]

  unfoldable pub check_entry : Text → Record → Text → ℕ → Bool → Progress
  check_entry line entry prev seq seen = elim (seq_of entry) [
    | none ↦
        if seen
        then fail seq (pos (suc seq)) (unchained seq)
        else going (c.sha256 line) (suc seq) false
    | some v ↦ check_chained line entry v prev seq
  ]

  -- The body of the loop, for one line.
  unfoldable pub check_line : Text → Text → ℕ → Bool → Progress
  check_line line prev seq seen =
      if is_empty (strip line) then going prev seq seen else elim (c.loads line) [
        | none ↦ fail seq (pos (suc seq)) parse_error
        | some (other _) ↦ done (raised attribute_error)
        | some (object entry) ↦ check_entry line entry prev seq seen
      ]

  -- The loop.
  unfoldable pub check_lines : List Text → Progress → Progress
  check_lines lines (done o) = done o
  check_lines [] (going prev seq seen) = going prev seq seen
  check_lines (line ∷ lines) (going prev seq seen) =
      check_lines lines (check_line line prev seq seen)

  abbrev pub conclude : Progress → Outcome
  conclude (going prev seq seen) = returned (intact seq)
  conclude (done o) = o

  -- `verify_chain` of a file, none when it does not exist.
  unfoldable pub verify_chain : Option (List Text) → Outcome
  verify_chain none = returned (intact 0)
  verify_chain (some lines) = conclude (check_lines lines (going genesis 0 false))
