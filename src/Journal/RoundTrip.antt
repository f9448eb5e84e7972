-- ===== src/Journal/RoundTrip.antt =====
-- What `_document` writes, `_verified` reads back.
use cognexus_tools.Common.{
  sym, ap, ℕ, ◌≡◌, refl, true, some, List, [], ◌∷◌, map, Text, list_beq, list_beq_iff, arith, Dict,
  text_key, ltb, ◌≤◌, false,
}
use cognexus_tools.Journal.Entry.{Json, Fields, Entry, hash_of, is_hash, Follows, IsChained}
use cognexus_tools.Journal.Reading.{
  read_fields, continues, read_entry, read_entries, verified, read_parts, entry_value, document,
  base_value, k_base, k_entries, k_version, k_gateway_id, max_file_bytes,
}
use cognexus_tools.Journal.Operations.{Config, replayed, read_document, read_value}

module _ (j : Json) where
  read_fields-entry_value : (f : Fields j) → read_fields j (entry_value j f) ≡ some f
  unfolding read_fields list_beq
  read_fields-entry_value f = rw (
    j.as_object-object,
    j.as_count-count f.at_ms,
    j.as_text-text f.kind,
    j.as_object-object f.body,
    j.as_text-text f.prev,
    j.as_text-text f.hash,
  )

  Follows-continues :
      (n : ℕ) (h : Text) (e : Entry j) → Follows j n h e → continues j n h e.fields ≡ true
  Follows-continues n h e f = ground (
    arith,
    f.seq_eq,
    f.written_eq,
    f.prev_eq,
    f.hash_eq,
    list_beq_iff e.fields.prev h,
    list_beq_iff e.fields.hash (hash_of j e.fields),
  )

  read_entry-entry_value :
      (n : ℕ) (h : Text) (e : Entry j)
      → Follows j n h e
      → read_entry j n h (entry_value j e.fields) ≡ some e
  unfolding read_entry
  read_entry-entry_value n h e f =
      rw (read_fields-entry_value e.fields, Follows-continues n h e f)
        (ap (λ k. some (record { seq = k; fields = e.fields })) (sym f.seq_eq))

  read_entries-map :
      (n : ℕ) (h : Text) (es : List (Entry j))
      → IsChained j n h es
      → read_entries j n h (map (λ e. entry_value j e.fields) es) ≡ some es
  unfolding read_entries
  read_entries-map n h [] c = refl
  read_entries-map n h (e ∷ es) (f, c) =
      rw (read_entry-entry_value n h e f, read_entries-map e.seq e.fields.hash es c)

  -- The document, as `json.loads` gives it.
  abbrev pub written_document : Text → ℕ → Text → List (Entry j) → Dict Text j.Value
  written_document gateway n h es =
      (k_version, j.count 1)
      ∷ (k_gateway_id, j.text gateway)
      ∷ (k_base, base_value j n h)
      ∷ (k_entries, j.array (map (λ e. entry_value j e.fields) es))
      ∷ []

  verified-document :
      (gateway : Text) (n : ℕ) (h : Text) (es : List (Entry j))
      → is_hash h ≡ true
      → IsChained j n h es
      → verified j (written_document gateway n h es) ≡ some ((n, h), es)
  unfolding verified read_parts list_beq
  verified-document gateway n h es t c = rw (
    j.as_object-object,
    j.as_array-array,
    j.as_count-count n,
    j.as_text-text h,
    t,
    read_entries-map n h es c,
  )

  read_document-written_document :
      (cfg : Config) (n : ℕ) (h : Text) (es : List (Entry j))
      → is_hash h ≡ true
      → IsChained j n h es
      → read_document j cfg (written_document cfg.gateway_id n h es) ≡ replayed ((n, h), es)
  unfolding list_beq
  read_document-written_document cfg n h es t c = rw (
    j.equals-count 1,
    j.as_text-text cfg.gateway_id,
    (list_beq_iff cfg.gateway_id cfg.gateway_id).1 refl,
    verified-document cfg.gateway_id n h es t c,
  )

  pub read_value-document :
      (cfg : Config) (n : ℕ) (h : Text) (es : List (Entry j))
      → is_hash h ≡ true
      → IsChained j n h es
      → j.bytes (document j cfg.gateway_id n h es) ≤ max_file_bytes
      → read_value j cfg (document j cfg.gateway_id n h es) ≡ replayed ((n, h), es)
  unfolding read_value
  read_value-document cfg n h es t c fits =
      let small : ltb max_file_bytes (j.bytes (document j cfg.gateway_id n h es)) ≡ false =
        ground arith in
      rw (
        small,
        j.as_object-object (written_document cfg.gateway_id n h es),
        read_document-written_document cfg n h es t c,
      )
