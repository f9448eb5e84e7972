-- ===== src/Journal/Reading.antt =====
-- `Journal._verified` and the document it reads, python/src/artzain/openshell/journal.py.
use cognexus_tools.Common.{
  ℕ, suc, Bool, ◌&&◌, Option, some, List, [], ◌∷◌, map, Dict, lookup, contains, Text, codes,
  text_key, ◌==◌, all, any, ◌>>=◌, ◌>>◌, require,
}
use cognexus_tools.Journal.Entry.{Json, Fields, Entry, hash_of, is_hash}

abbrev pub k_version : Text
k_version = codes "version"

abbrev pub k_gateway_id : Text
k_gateway_id = codes "gateway_id"

abbrev pub k_base : Text
k_base = codes "base"

abbrev pub k_entries : Text
k_entries = codes "entries"

abbrev pub k_seq : Text
k_seq = codes "seq"

abbrev pub k_at_ms : Text
k_at_ms = codes "at_ms"

abbrev pub k_kind : Text
k_kind = codes "kind"

abbrev pub k_body : Text
k_body = codes "body"

abbrev pub k_prev : Text
k_prev = codes "prev"

abbrev pub k_hash : Text
k_hash = codes "hash"

abbrev pub entry_keys : List Text
entry_keys = k_seq ∷ k_at_ms ∷ k_kind ∷ k_body ∷ k_prev ∷ k_hash ∷ []

-- `set(d) == {...}`.
abbrev pub has_exactly : {V : Type 0} → List Text → Dict Text V → Bool
has_exactly keys d = all (λ k. contains k d) keys && all (λ e. any (λ k. e.0 == k) keys) d

-- `_MAX_FILE_BYTES`.
abbrev pub max_file_bytes : ℕ
max_file_bytes = 16777216

module _ (j : Json) where
  open j use {Value, count, text, object, array, as_count, as_text, as_object, as_array}

  abbrev pub entry_value : Fields j → Value
  entry_value e = object (
      (k_seq, e.written)
      ∷ (k_at_ms, count e.at_ms)
      ∷ (k_kind, text e.kind)
      ∷ (k_body, object e.body)
      ∷ (k_prev, text e.prev)
      ∷ (k_hash, text e.hash)
      ∷ [])

  abbrev pub base_value : ℕ → Text → Value
  base_value n h = object ((k_seq, count n) ∷ (k_hash, text h) ∷ [])

  -- `_document`.
  abbrev pub document : Text → ℕ → Text → List (Entry j) → Value
  document gateway n h es = object (
      (k_version, count 1)
      ∷ (k_gateway_id, text gateway)
      ∷ (k_base, base_value n h)
      ∷ (k_entries, array (map (λ e. entry_value e.fields) es))
      ∷ [])

  -- The fields of an entry, each of its kind; none is `not an entry`.
  unfoldable pub read_fields : Value → Option (Fields j)
  read_fields v = do
    d ← as_object v
    require (has_exactly entry_keys d)
    at_ms ← lookup k_at_ms d >>= as_count
    kind ← lookup k_kind d >>= as_text
    body ← lookup k_body d >>= as_object
    seq ← lookup k_seq d
    prev ← lookup k_prev d >>= as_text
    hash ← lookup k_hash d >>= as_text
    some (record {
      written = seq;
      at_ms = at_ms;
      kind = kind;
      body = body;
      prev = prev;
      hash = hash;
    })

  -- The tests of the chain and of the hash.
  abbrev pub continues : ℕ → Text → Fields j → Bool
  continues n h f = j.equals f.written (suc n) && f.prev == h && f.hash == hash_of j f

  -- The body of `_verified`'s loop. Each refusal is a ValueError, so their order does not show.
  unfoldable pub read_entry : ℕ → Text → Value → Option (Entry j)
  read_entry n h v = do
    f ← read_fields v
    require (continues n h f)
    some (record { seq = suc n; fields = f })

  unfoldable pub read_entries : ℕ → Text → List Value → Option (List (Entry j))
  read_entries n h [] = some []
  read_entries n h (v ∷ vs) = do
    e ← read_entry n h v
    es ← read_entries e.seq e.fields.hash vs
    some (e ∷ es)

  -- The base of a document and its entries, not yet read.
  unfoldable pub read_parts : Dict Text Value → Option ((ℕ × Text) × List Value)
  read_parts doc = do
    base ← lookup k_base doc >>= as_object
    vs ← lookup k_entries doc >>= as_array
    n ← lookup k_seq base >>= as_count
    h ← lookup k_hash base >>= as_text
    some ((n, h), vs)

  -- `_verified`: none is its ValueError.
  unfoldable pub verified : Dict Text Value → Option ((ℕ × Text) × List (Entry j))
  verified doc = do
    p ← read_parts doc
    require (is_hash p.0.1)
    es ← read_entries p.0.0 p.0.1 p.1
    some (p.0, es)
