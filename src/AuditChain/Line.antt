-- ===== src/AuditChain/Line.antt =====
-- What `verify_chain` accepts in one line: each check as a property of the entry.
use cognexus_tools.Common.{
  ℕ, suc, ◌≡◌, refl, inl, inr, Bool, true, false, none, some, Option-cases, ap, lookup,
  list_beq_iff, text_key, Text, strip, is_empty, pos, int_beq_iff, arith,
}
use cognexus_tools.AuditChain.Entry.{
  Value, null, boolean, float, nested, equals_text, get_or_empty, int, str, Record, object, k_seq,
  k_prev_hash, k_entry_hash, k_sig, body, Codec,
}
use cognexus_tools.AuditChain.Verify.{
  check_chained, check_entry, check_hashes, verify_signature, seq_of, int_of, going, check_line,
}

-- A line that continues a chain at `prev` as entry number `suc seq`, written by whoever holds the
-- key: it is the text of an object with that number (as `int` reads it), that previous hash, the hash of its own body
-- and the signature of that hash.
pub record Continues (c : Codec) (key : Text) (prev : Text) (seq : ℕ) (line : Text) : Type 0 where
  pub entry : Record
  pub solid : is_empty (strip line) ≡ false
  pub parsed : c.loads line ≡ some (object entry)
  pub number : Value
  pub numbered : lookup k_seq entry ≡ some number
  pub counted : int_of c number ≡ inr (pos (suc seq))
  pub linked : lookup k_prev_hash entry ≡ some (str prev)
  pub hashed : lookup k_entry_hash entry ≡ some (str (c.sha256 (c.canonical (body entry))))
  pub signed : lookup k_sig entry ≡ some (str (c.hmac key (c.sha256 (c.canonical (body entry)))))

-- A line from before the chain: an object with no number.
pub record IsLegacy (c : Codec) (line : Text) : Type 0 where
  pub entry : Record
  pub solid : is_empty (strip line) ≡ false
  pub parsed : c.loads line ≡ some (object entry)
  pub unnumbered : seq_of entry ≡ none

pub equals_text-eq : (v : Value) (t : Text) → equals_text v t ≡ true → v ≡ str t
equals_text-eq (str s) t h = ap str ((list_beq_iff s t).0 h)
equals_text-eq null t h = cc
equals_text-eq (boolean b) t h = cc
equals_text-eq (int n) t h = cc
equals_text-eq (float w n z) t h = cc
equals_text-eq (nested w e) t h = cc

-- A text that is not empty was there.
pub get_or_empty-eq :
    (k : Text) (d : Record) (t : Text)
    → get_or_empty k d ≡ str t
    → is_empty t ≡ false
    → lookup k d ≡ some (str t)
get_or_empty-eq k d t h solid = elim (Option-cases (lookup k d)) [
  | inl e ↦ ground (arith, h, e)
  | inr (v, e) ↦ ground (arith, h, e)
]

module _ (c : Codec) (key : Text) where
  pub verify_signature-eq :
      (t : Text) (v : Value) → verify_signature c key t v ≡ some true → v ≡ str (c.hmac key t)
  verify_signature-eq t (str s) h = ground (arith, list_beq_iff (c.hmac key t) s)
  verify_signature-eq t null h = cc
  verify_signature-eq t (boolean b) h = cc
  verify_signature-eq t (int n) h = cc
  verify_signature-eq t (float w n z) h = cc
  verify_signature-eq t (nested w e) h = cc

  -- What the checks from `prev_hash` on let through.
  pub check_hashes-going :
      (line : Text) (entry : Record) (prev : Text) (seq : ℕ) {p : Text} {n : ℕ} {s : Bool}
      → check_hashes c key line entry prev seq ≡ going p n s
      → let d = c.sha256 (c.canonical (body entry)) in
        (equals_text (get_or_empty k_prev_hash entry) prev ≡ true)
        × (equals_text (get_or_empty k_entry_hash entry) d ≡ true)
        × (verify_signature c key d (get_or_empty k_sig entry) ≡ some true)
        × (going p n s ≡ going (c.sha256 line) (suc seq) true)
  check_hashes-going line entry prev seq h = ground arith

  -- Such a line passes.
  pub Continues-check_line :
      (line prev : Text) (seq : ℕ) (seen : Bool)
      → Continues c key prev seq line
      → check_line c key line prev seq seen ≡ going (c.sha256 line) (suc seq) true
  unfolding check_line check_entry check_chained
  Continues-check_line line prev seq seen h =
      let d = c.sha256 (c.canonical (body h.entry)) in
      rw (h.solid, h.parsed)
        (ground (
          arith,
          h.numbered,
          h.counted,
          h.linked,
          h.hashed,
          h.signed,
          (list_beq_iff prev prev).1 refl,
          (list_beq_iff d d).1 refl,
          (list_beq_iff (c.hmac key d) (c.hmac key d)).1 refl,
          c.hmac_solid key d,
          c.hmac_ascii key d,
          int_beq_iff (pos (suc seq)) (pos (suc seq)),
        ))

  pub blank-check_line :
      (line prev : Text) (seq : ℕ) (seen : Bool)
      → is_empty (strip line) ≡ true
      → check_line c key line prev seq seen ≡ going prev seq seen
  unfolding check_line
  blank-check_line line prev seq seen h = rw h

  pub IsLegacy-check_line :
      (line prev : Text) (seq : ℕ)
      → IsLegacy c line
      → check_line c key line prev seq false ≡ going (c.sha256 line) (suc seq) false
  unfolding check_line check_entry
  IsLegacy-check_line line prev seq h = ground (arith, h.solid, h.parsed, h.unnumbered)

  pub Continues-not-IsLegacy :
      {line prev : Text} {seq : ℕ} → Continues c key prev seq line → ¬ IsLegacy c line
  Continues-not-IsLegacy {seq = seq} h l =
      not_null h.entry h.number seq h.numbered h.counted (cc (h.parsed, l.parsed, l.unnumbered))
    where
      not_null :
          (d : Record) (v : Value) (n : ℕ)
          → lookup k_seq d ≡ some v
          → int_of c v ≡ inr (pos (suc n))
          → ¬ (seq_of d ≡ none)
      not_null d null n e f g = cc
      not_null d (boolean b) n e f g = ground (arith, e, g)
      not_null d (int i) n e f g = ground (arith, e, g)
      not_null d (float w i z) n e f g = ground (arith, e, g)
      not_null d (str t) n e f g = ground (arith, e, g)
      not_null d (nested w b) n e f g = ground (arith, e, g)
