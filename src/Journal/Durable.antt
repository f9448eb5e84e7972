-- ===== src/Journal/Durable.antt =====
-- What a durable append promises, of python/src/artzain/openshell/journal.py.
use cognexus_tools.Common.{
  ℕ, suc, ◌≡◌, refl, sym, ap, ◌∙◌, subst, Bool, true, false, Option, none, some, [], ◌∷◌, ◌++◌,
  Dict, Text, length, take, leb, Bool-cases, Option-cases, inl, inr, arith,
}
use cognexus_tools.Journal.Entry.{Json, Entry}
use cognexus_tools.Journal.Operations.{
  Config, Journal, holds_value, save, append, append_plain, head, document_of, with_entry,
  new_entry,
}
use cognexus_tools.Journal.Saving.{
  contents, save-contents, save_withdrawn, save_written, save_lost, append_plain_withdrawn,
  append_plain_kept,
}

module _ (j : Json) (cfg : Config) where
  -- What a durable append leaves: nothing but the file changed, or the entry added, with its number,
  -- its kind cut to 40 characters and its body as json reads it back, and in the file.
  abbrev pub Promised : Text → Dict Text j.Value → ℕ → Journal j → Option ℕ × Journal j → Type 0
  Promised kind body at_ms s (none, r) = contents j cfg r ≡ contents j cfg s
  Promised kind body at_ms s (some seq, r) =
      (seq ≡ suc (head j s).0)
      × ((e : Entry j) × (r.entries ≡ s.entries ++ e ∷ [])
          × (e.seq ≡ seq)
          × (e.fields.kind ≡ take 40 kind)
          × (j.plain body ≡ some e.fields.body))
      × (r.file ≡ holds_value (document_of j cfg r))

  save_kept :
      cfg.has_path ≡ true
      → (w : Bool) (t : Journal j) → (save j cfg w t).save_failed ≡ false
      → (save j cfg w t).file ≡ holds_value (document_of j cfg t)
  save_kept path true t ok = ap (λ r. r.file) (save_written j cfg path t)
  save_kept path false t ok = let lost = ap (λ r. r.save_failed) (save_lost j cfg path t) in cc

  document_of-save :
      (w : Bool) (t : Journal j) → document_of j cfg (save j cfg w t) ≡ document_of j cfg t
  unfolding save
  document_of-save w t = ground arith

  append_plain_full :
      (kind : Text) (plain : Dict Text j.Value) (durable : Bool) (at_ms : ℕ) (w v : Bool)
      (s : Journal j)
      → leb cfg.max_pending (length s.entries) ≡ true
      → append_plain j cfg kind plain durable at_ms w v s ≡ (none, s)
  unfolding append_plain
  append_plain_full kind plain durable at_ms w v s full = rw full refl

  without_file :
      cfg.has_path ≡ false
      → (kind : Text) (plain : Dict Text j.Value) (at_ms : ℕ) (w v : Bool) (s : Journal j)
      → append_plain j cfg kind plain true at_ms w v s ≡ (none, s)
  unfolding append_plain
  without_file none_there kind plain at_ms w v s = ground arith

  append_plain-Promised :
      cfg.has_path ≡ true
      → (kind : Text) (body plain : Dict Text j.Value) (at_ms : ℕ) (w v : Bool) (s : Journal j)
      → j.plain body ≡ some plain
      → Promised kind body at_ms s (append_plain j cfg kind plain true at_ms w v s)
  append_plain-Promised path kind body plain at_ms w v s read =
      let t = with_entry j kind plain at_ms s in
      elim (Bool-cases (leb cfg.max_pending (length s.entries))) [
        | inl full ↦ rw (append_plain_full kind plain true at_ms w v s full) refl
        | inr room ↦ elim (Bool-cases (save j cfg w t).save_failed) [
          | inl failed ↦
              subst (Promised kind body at_ms s)
                (sym (append_plain_withdrawn j cfg path kind plain true at_ms w v s room failed))
                (save-contents j cfg v _ ∙ save_withdrawn j cfg path w t s.entries)
          | inr ok ↦
              subst (Promised kind body at_ms s)
                (sym (append_plain_kept j cfg path kind plain true at_ms w v s room ok))
                (
                  refl,
                  (
                    new_entry j (head j s) at_ms (take 40 kind) plain,
                    ap (λ c. c.1) (save-contents j cfg w t),
                    refl,
                    refl,
                    read,
                  ),
                  save_kept path w t ok ∙ ap holds_value (sym (document_of-save w t)),
                )
        ]
      ]

  pub append_taken :
      (kind : Text) (body plain : Dict Text j.Value) (durable : Bool) (at_ms : ℕ) (w v : Bool)
      (s : Journal j)
      → j.plain body ≡ some plain
      → append j cfg kind body durable at_ms w v s
        ≡ append_plain j cfg kind plain durable at_ms w v s
  unfolding append append_plain
  append_taken kind body plain durable at_ms w v s q = rw (append, q) refl

  pub append_refused :
      (kind : Text) (body : Dict Text j.Value) (durable : Bool) (at_ms : ℕ) (w v : Bool)
      (s : Journal j)
      → j.plain body ≡ none
      → append j cfg kind body durable at_ms w v s ≡ (none, s)
  unfolding append
  append_refused kind body durable at_ms w v s q = rw (append, q) refl

  -- A durable append, whatever the body and whichever saves fail: when it returns a number, that
  -- is the next one, an entry with that number, the kind cut to 40 characters and the body as json
  -- reads it back stands behind those that waited, and the file holds the journal with it; when it returns none, as it does without a path, the entries and the base are as
  -- they were.
  pub append-Promised :
      (kind : Text) (body : Dict Text j.Value) (at_ms : ℕ) (w v : Bool) (s : Journal j)
      → Promised kind body at_ms s (append j cfg kind body true at_ms w v s)
  append-Promised kind body at_ms w v s = elim (Option-cases (j.plain body)) [
    | inl bad ↦
        subst (Promised kind body at_ms s) (sym (append_refused kind body true at_ms w v s bad))
          refl
    | inr (plain, q) ↦
        subst (Promised kind body at_ms s) (sym (append_taken kind body plain true at_ms w v s q))
          (elim (Bool-cases cfg.has_path) [
            | inl path ↦ append_plain-Promised path kind body plain at_ms w v s q
            | inr no_path ↦
                subst (Promised kind body at_ms s)
                  (sym (without_file no_path kind plain at_ms w v s)) refl
          ])
  ]
