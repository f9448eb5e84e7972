-- ===== src/AuditChain/RoundTrip.antt =====
-- What `append` writes, `verify_chain` accepts, over restarts and failed writes too.
use mathlib.Core.List.{append_assoc, append-nil}
use cognexus_tools.Common.{
  suc, ◌≡◌, refl, ap, ◌∙◌, true, false, none, some, [], ◌∷◌, ◌++◌, lookup, insert, insert_new,
  lookup-insert, insert-Distinct, Distinct, text_key, list_beq, list_beq_iff, Text, is_empty, pos,
  arith,
}
use cognexus_tools.AuditChain.Entry.{
  int, str, Record, k_seq, k_prev_hash, k_entry_hash, k_sig, body, Codec,
}
use cognexus_tools.AuditChain.Line.{Continues}
use cognexus_tools.AuditChain.Append.{ChainState, chained, entry_hash, sealed}

-- A record that has the names of no field that is added after hashing.
pub record IsChainable (r : Record) : Type 0 where
  pub distinct : Distinct r
  pub no_hash : lookup k_entry_hash r ≡ none
  pub no_sig : lookup k_sig r ≡ none

-- The four names differ.
names_differ :
    (list_beq k_seq k_prev_hash ≡ false)
    × (list_beq k_seq k_entry_hash ≡ false)
    × (list_beq k_seq k_sig ≡ false)
    × (list_beq k_prev_hash k_entry_hash ≡ false)
    × (list_beq k_prev_hash k_sig ≡ false)
    × (list_beq k_entry_hash k_sig ≡ false)
    × (list_beq k_entry_hash k_seq ≡ false)
    × (list_beq k_entry_hash k_prev_hash ≡ false)
    × (list_beq k_sig k_seq ≡ false)
    × (list_beq k_sig k_prev_hash ≡ false)
    × (list_beq k_sig k_entry_hash ≡ false)
unfolding list_beq
names_differ = (refl, refl, refl, refl, refl, refl, refl, refl, refl, refl, refl)

same : (t : Text) → list_beq t t ≡ true
same t = (list_beq_iff t t).1 refl

body-unreserved : (d : Record) → lookup k_entry_hash d ≡ none → lookup k_sig d ≡ none → body d ≡ d
body-unreserved [] h k = refl
body-unreserved ((j, v) ∷ d) h k = ground (arith, body-unreserved d)

body-append : (d e : Record) → body (d ++ e) ≡ body d ++ body e
body-append [] e = refl
body-append ((j, v) ∷ d) e = ground (arith, body-append d e)

module _ (c : Codec) (key : Text) (r : Record) (s : ChainState) (ok : IsChainable r) where
  chained-no_hash : lookup k_entry_hash (chained c r s) ≡ none
  chained-no_hash = rw (lookup-insert, lookup-insert, names_differ.7, names_differ.6) ok.no_hash

  chained-no_sig : lookup k_sig (chained c r s) ≡ none
  chained-no_sig = rw (lookup-insert, lookup-insert, names_differ.9, names_differ.8) ok.no_sig

  sealed-append :
      sealed c key r s
      ≡ chained c r s
        ++ (k_entry_hash, str (entry_hash c r s))
          ∷ (k_sig, str (c.hmac key (entry_hash c r s)))
          ∷ []
  sealed-append =
      let v = str (entry_hash c r s) in
      let w = str (c.hmac key (entry_hash c r s)) in
      let no_sig : lookup k_sig (insert k_entry_hash v (chained c r s)) ≡ none =
        rw (lookup-insert, names_differ.10) chained-no_sig in
      insert_new k_sig w (insert k_entry_hash v (chained c r s)) no_sig
      ∙ rw (insert_new k_entry_hash v (chained c r s) chained-no_hash)
          (append_assoc (chained c r s) ((k_entry_hash, v) ∷ []) ((k_sig, w) ∷ []))

  body-sealed : body (sealed c key r s) ≡ chained c r s
  body-sealed =
      rw
        (
          sealed-append,
          body-append,
          body-unreserved (chained c r s) chained-no_hash chained-no_sig,
          same k_entry_hash,
          same k_sig,
          names_differ.5,
        )
        (append-nil (chained c r s))

  sealed-Distinct : Distinct (sealed c key r s)
  sealed-Distinct = insert-Distinct k_sig _ _ (
      insert-Distinct k_entry_hash _ _
        (insert-Distinct k_prev_hash _ _ (insert-Distinct k_seq _ r ok.distinct)))

  sealed_fields :
      (lookup k_seq (sealed c key r s) ≡ some (int (pos (suc s.seq))))
      × (lookup k_prev_hash (sealed c key r s) ≡ some (str s.tip_hash))
      × (lookup k_entry_hash (sealed c key r s) ≡ some (str (entry_hash c r s)))
      × (lookup k_sig (sealed c key r s) ≡ some (str (c.hmac key (entry_hash c r s))))
  sealed_fields =
      let n = names_differ in
      (
        rw (lookup-insert, n.2, lookup-insert, n.1, lookup-insert, n.0, lookup-insert, same k_seq),
        rw (lookup-insert, n.4, lookup-insert, n.3, lookup-insert, same k_prev_hash),
        rw (lookup-insert, n.5, lookup-insert, same k_entry_hash),
        rw (lookup-insert, same k_sig),
      )

  -- The new line continues the chain.
  pub sealed-Continues : Continues c key s.tip_hash s.seq (c.dumps (sealed c key r s))
  sealed-Continues =
      let digest : entry_hash c r s ≡ c.sha256 (c.canonical (body (sealed c key r s))) =
        rw body-sealed in
      record {
        entry = sealed c key r s;
        solid = ap is_empty (c.strip-dumps (sealed c key r s)) ∙ c.dumps_solid (sealed c key r s);
        parsed = c.loads-dumps (sealed c key r s) sealed-Distinct;
        number = int (pos (suc s.seq));
        numbered = sealed_fields.0;
        counted = refl;
        linked = sealed_fields.1;
        hashed = rw (← digest) sealed_fields.2;
        signed = rw (← digest) sealed_fields.3;
      }
