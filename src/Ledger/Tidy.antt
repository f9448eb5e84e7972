-- ===== src/Ledger/Tidy.antt =====
-- What holds of the sandboxes and hashes of a ledger, and that each change keeps it:
-- python/src/artzain/openshell/interceptor.py and state.py.
use cognexus_tools.Common.{
  any-append, All-map, length-append, length-erase-lt, trim_fits, ℕ, ◌≤◌, ◌≡◌, sym, ◌∙◌, subst,
  Bool, true, false, ◌||◌, none, some, List, [], ◌∷◌, Dict, lookup, insert, insert_all, erase,
  put_last, trim, keep, Text, text_key, pair_key, is_empty, ◌==◌, list_beq_iff, length, All,
  Distinct, Bool-cases, inl, inr, arith, length-trim-le, trim-Distinct, put_last-Distinct,
  insert_all-Distinct, insert-Distinct, keep-Distinct, keep-passes, All-trim, All-put_last,
  All-insert, All-insert_all, All-keep, All-erase, erase-Distinct, erase_absent, length-erase-le,
}
use cognexus_tools.Ledger.Operations.{Named, or_default}
use cognexus_tools.Ledger.Views.{
  is_known, prune, wanted_of, wanted_in, replaced, replaced_in, text_of,
}

abbrev pub IsSolid : Named × Text → Type 0
IsSolid e = is_empty e.1 ≡ false

-- At most so many sandboxes, each name once, each with an id.
pub record IsTidy (cap : ℕ) (sandboxes : Dict Named Text) : Type 0 where
  pub fits : length sandboxes ≤ cap
  pub distinct : Distinct sandboxes
  pub solid : All IsSolid sandboxes

-- A hash is kept for ids that some sandbox has, once each.
pub record AreKnown (sandboxes : Dict Named Text) (hashes : Dict Text Text) : Type 0 where
  pub distinct : Distinct hashes
  pub known : All (λ e. is_known e.0 sandboxes ≡ true) hashes

pub prune-AreKnown :
    (sandboxes : Dict Named Text) (hashes : Dict Text Text)
    → Distinct hashes
    → AreKnown sandboxes (prune sandboxes hashes)
prune-AreKnown sandboxes hashes d = record {
  distinct = keep-Distinct _ hashes d;
  known = keep-passes (λ e. is_known e.0 sandboxes) hashes;
}

pub put_last-IsTidy :
    (cap : ℕ) (k : Named) (id : Text) (d : Dict Named Text)
    → IsTidy cap d
    → is_empty id ≡ false
    → IsTidy cap (trim cap (put_last k id d))
put_last-IsTidy cap k id d t s = record {
  fits = length-trim-le cap (put_last k id d);
  distinct = trim-Distinct cap (put_last k id d) (put_last-Distinct k id d t.distinct);
  solid = All-trim IsSolid cap (put_last k id d) (All-put_last IsSolid k id d t.solid s);
}

pub erase-IsTidy :
    (cap : ℕ) (k : Named) (d : Dict Named Text) → IsTidy cap d → IsTidy cap (erase k d)
erase-IsTidy cap k d t = record {
  fits = omega (arith, length-erase-le k d, t.fits);
  distinct = erase-Distinct k d t.distinct;
  solid = All-erase IsSolid k d t.solid;
}

wanted_of-AllSolid :
    (listed : List (Named × Text)) (w : Dict Named Text)
    → All IsSolid w
    → All IsSolid (wanted_of listed w)
unfolding wanted_of
wanted_of-AllSolid [] w s = s
wanted_of-AllSolid (((workspace, name), id) ∷ listed) w s =
    elim (Bool-cases (is_empty (text_of name) || is_empty (text_of id))) [
      | inl t ↦ rw t (wanted_of-AllSolid listed w s)
      | inr t ↦ rw t (
          wanted_of-AllSolid listed _ (
            All-insert IsSolid (or_default (text_of workspace), text_of name) (text_of id) w s
              (ground (arith, t))))
    ]

pub wanted_of-Distinct :
    (listed : List (Named × Text)) (w : Dict Named Text)
    → Distinct w
    → Distinct (wanted_of listed w)
unfolding wanted_of
wanted_of-Distinct [] w d = d
wanted_of-Distinct (((workspace, name), id) ∷ listed) w d =
    elim (Bool-cases (is_empty (text_of name) || is_empty (text_of id))) [
      | inl t ↦ rw t (wanted_of-Distinct listed w d)
      | inr t ↦ rw t (
          wanted_of-Distinct listed _
            (insert-Distinct (or_default (text_of workspace), text_of name) (text_of id) w d))
    ]

wanted_in-AllSolid :
    (ws : Text) (listed : List (Text × Text)) (w : Dict Named Text)
    → All IsSolid w
    → All IsSolid (wanted_in ws listed w)
unfolding wanted_in
wanted_in-AllSolid ws [] w s = s
wanted_in-AllSolid ws ((name, id) ∷ listed) w s =
    elim (Bool-cases (is_empty (text_of name) || is_empty (text_of id))) [
      | inl t ↦ rw t (wanted_in-AllSolid ws listed w s)
      | inr t ↦ rw t (
          wanted_in-AllSolid ws listed _
            (All-insert IsSolid (ws, text_of name) (text_of id) w s (ground (arith, t))))
    ]

-- Filling up after a test, then trimming.
filled-IsTidy :
    (cap : ℕ) (p : Named × Text → Bool) (w d : Dict Named Text)
    → All IsSolid w
    → IsTidy cap d
    → IsTidy cap (trim cap (insert_all w (keep p d)))
filled-IsTidy cap p w d s t = record {
  fits = length-trim-le cap (insert_all w (keep p d));
  distinct =
      trim-Distinct cap (insert_all w (keep p d))
        (insert_all-Distinct w (keep p d) (keep-Distinct p d t.distinct));
  solid =
      All-trim IsSolid cap (insert_all w (keep p d))
        (All-insert_all IsSolid w (keep p d) s (All-keep IsSolid p d t.solid));
}

pub replaced-IsTidy :
    (cap : ℕ) (listed : List (Named × Text)) (d : Dict Named Text)
    → IsTidy cap d
    → IsTidy cap (replaced cap (wanted_of listed []) d)
replaced-IsTidy cap listed d t =
    filled-IsTidy cap _ (wanted_of listed []) d (wanted_of-AllSolid listed [] tt) t

pub replaced_in-IsTidy :
    (cap : ℕ) (ws : Text) (listed : List (Text × Text)) (d : Dict Named Text)
    → IsTidy cap d
    → IsTidy cap (replaced_in cap ws (wanted_in ws listed []) d)
replaced_in-IsTidy cap ws listed d t =
    filled-IsTidy cap _ (wanted_in ws listed []) d (wanted_in-AllSolid ws listed [] tt) t

-- Forgetting a sandbox leaves every other id as known as it was.
pub is_known-erase :
    (h gone : Text) (k : Named) (d : Dict Named Text)
    → Distinct d
    → lookup k d ≡ some gone
    → is_known h d ≡ true
    → (h == gone) ≡ false
    → is_known h (erase k d) ≡ true
is_known-erase h gone k [] dist q known other = known
is_known-erase h gone k ((i, id) ∷ d) dist q known other = elim (Bool-cases (k == i)) [
  | inl t ↦
      let same : id ≡ gone = ground (arith, q, t) in
      let absent : lookup k d ≡ none =
        subst (λ x. lookup x d ≡ none) (sym ((pair_key.same_iff k i).0 t)) dist.0 in
      let deeper : is_known h d ≡ true = ground (arith, known, same, other) in
      rw (t, erase_absent k d absent) deeper
  | inr t ↦ rw t (ground (arith, known, is_known-erase h gone k d dist.1 (ground (arith, q, t))))
]

erase-known :
    (gone : Text) (k : Named) (d : Dict Named Text) (hashes : Dict Text Text)
    → Distinct d
    → lookup k d ≡ some gone
    → All (λ e. is_known e.0 d ≡ true) hashes
    → All (λ e. is_known e.0 (erase k d) ≡ true) (erase gone hashes)
erase-known gone k d [] dist q a = tt
erase-known gone k d ((h, v) ∷ hashes) dist q a = elim (Bool-cases (gone == h)) [
  | inl t ↦ rw t (erase-known gone k d hashes dist q a.1)
  | inr t ↦ rw t (
    is_known-erase h gone k d dist q a.0
        (ground (arith, t, list_beq_iff h gone, list_beq_iff gone h)),
    erase-known gone k d hashes dist q a.1,
  )
]

pub erase-AreKnown :
    (gone : Text) (k : Named) (d : Dict Named Text) (hashes : Dict Text Text)
    → Distinct d
    → lookup k d ≡ some gone
    → AreKnown d hashes
    → AreKnown (erase k d) (erase gone hashes)
erase-AreKnown gone k d hashes dist q a = record {
  distinct = erase-Distinct gone hashes a.distinct;
  known = erase-known gone k d hashes dist q a.known;
}

-- A name that is learnt again with the id it had keeps every id known.
is_known-put_last :
    (h id : Text) (k : Named) (d : Dict Named Text)
    → Distinct d
    → lookup k d ≡ some id
    → is_known h d ≡ true
    → is_known h (put_last k id d) ≡ true
is_known-put_last h id k d dist q known =
    any-append (λ e. h == e.1) (erase k d) ((k, id) ∷ []) ∙ elim (Bool-cases (h == id)) [
      | inl t ↦ ground (arith, t)
      | inr t ↦ ground (arith, is_known-erase h id k d dist q known t)
    ]

pub relearn-AreKnown :
    (cap : ℕ) (k : Named) (id : Text) (d : Dict Named Text) (hashes : Dict Text Text)
    → IsTidy cap d
    → lookup k d ≡ some id
    → AreKnown d hashes
    → AreKnown (trim cap (put_last k id d)) hashes
relearn-AreKnown cap k id d hashes t q a =
    let fits : length (put_last k id d) ≤ cap =
      omega (arith, length-append (erase k d) ((k, id) ∷ []), length-erase-lt k id d q, t.fits) in
    subst (λ x. AreKnown x hashes) (sym (trim_fits cap (put_last k id d) fits))
      (record {
        distinct = a.distinct;
        known = All-map hashes (λ e. is_known-put_last e.0 id k d t.distinct q) a.known;
      })

pub insert-AreKnown :
    (id hash : Text) (sandboxes : Dict Named Text) (hashes : Dict Text Text)
    → is_known id sandboxes ≡ true
    → AreKnown sandboxes hashes
    → AreKnown sandboxes (insert id hash hashes)
insert-AreKnown id hash sandboxes hashes known a = record {
  distinct = insert-Distinct id hash hashes a.distinct;
  known = All-insert (λ e. is_known e.0 sandboxes ≡ true) id hash hashes a.known known;
}
