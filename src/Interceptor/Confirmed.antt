-- ===== src/Interceptor/Confirmed.antt =====
-- A write decided in `modify_operation` is confirmed in `validate`:
-- python/src/artzain/openshell/interceptor.py.
use cognexus_tools.Common.{
  ℕ, ◌≤◌, ◌≡◌, refl, sym, ap, ◌∙◌, ◌⊎◌, Option, none, some, [], ◌∷◌, ◌++◌, Dict, lookup, insert,
  erase, trim, Text, text_key, Key, lookup-insert, lookup-append, erase_absent, list_beq_iff, inl,
  inr, arith,
}
use cognexus_tools.Interceptor.Values.{Python, Members, get, present, as_members}
use cognexus_tools.Interceptor.Stamps.{stamp_key, k_annotations, without_inner, less_inner}

module _ {ℓ κ} {K : Type ℓ} {V : Type κ} ⦃e : Key K⦄ where
  erase-insert : (k : K) (v : V) (d : Dict K V) → erase k (insert k v d) ≡ erase k d
  erase-insert k v [] = ground (arith, e.same_iff k k)
  erase-insert k v ((i, w) ∷ d) = ground (arith, erase-insert k v d, e.same_iff k i)

  insert-insert : (k : K) (u v : V) (d : Dict K V) → insert k u (insert k v d) ≡ insert k u d
  insert-insert k u v [] = ground (arith, e.same_iff k k)
  insert-insert k u v ((i, w) ∷ d) = ground (arith, insert-insert k u v d, e.same_iff k i)

  -- The entry put last is not trimmed away.
  pub lookup-trim-last :
      (k : K) (v : V) (cap : ℕ) (d : Dict K V)
      → 1 ≤ cap
      → lookup k d ≡ none
      → lookup k (trim cap (d ++ (k, v) ∷ [])) ≡ some v
  lookup-trim-last k v cap [] h q = ground (arith, h, e.same_iff k k)
  lookup-trim-last k v cap ((i, w) ∷ d) h q =
      ground
        (arith, h, q, lookup-trim-last k v cap d h, lookup-append k d ((k, v) ∷ []), e.same_iff k k)

module _ (p : Python) where
  abbrev pub stamped_notes : Text → Option (Members p) → Members p
  stamped_notes id none = (stamp_key, p.json.text id) ∷ []
  stamped_notes id (some d) = insert stamp_key (p.json.text id) d

  -- The operation with the stamp of a decision: `add` of RFC 6902 as the patch says it.
  abbrev pub with_stamp : Members p → Text → Members p
  with_stamp body id =
      insert k_annotations
        (p.json.object (stamped_notes id (as_members p (get p k_annotations body)))) body

  -- Annotations that are absent or a dict; a null or a list is neither.
  abbrev pub HasNotes : Members p → Type 0
  HasNotes body =
      (lookup k_annotations body ≡ none)
      ⊎ (v : p.json.Value) × (d : Members p) × (get p k_annotations body ≡ some v)
        × (p.json.as_object v ≡ some d)

  pub get-insert-object :
      (k : Text) (d body : Members p)
      → get p k (insert k (p.json.object d) body) ≡ some (p.json.object d)
  get-insert-object k d body =
      let there : lookup k (insert k (p.json.object d) body) ≡ some (p.json.object d) =
        lookup-insert k k (p.json.object d) body ∙ rw ((list_beq_iff k k).1 refl) refl in
      ap (present p) there ∙ rw (p.is_null-object d) refl

  -- Replacing the member first changes nothing of what is left.
  without_inner_replaced :
      (outer inner : Text) (view d : Members p)
      → without_inner p outer inner (insert outer (p.json.object d) view)
        ≡ less_inner p outer inner view (some d)
  unfolding without_inner
  without_inner_replaced outer inner view d =
      let there : as_members p (get p outer (insert outer (p.json.object d) view)) ≡ some d =
        ap (as_members p) (get-insert-object outer d view) ∙ p.json.as_object-object d in
      ap (less_inner p outer inner (insert outer (p.json.object d) view)) there
      ∙ rw
          (
            insert-insert outer (p.json.object (erase inner d)) (p.json.object d) view,
            erase-insert outer (p.json.object d) view,
          )
          refl

  between :
      (body : Members p) (id : Text) (o : Option (Members p))
      → as_members p (get p k_annotations body) ≡ o
      → less_inner p k_annotations stamp_key body (some (stamped_notes id o))
        ≡ less_inner p k_annotations stamp_key body o
      → without_inner p k_annotations stamp_key (with_stamp body id)
        ≡ without_inner p k_annotations stamp_key body
  unfolding without_inner
  between body id o notes same =
      without_inner_replaced k_annotations stamp_key body
        (stamped_notes id (as_members p (get p k_annotations body)))
      ∙ ap (λ x. less_inner p k_annotations stamp_key body (some (stamped_notes id x))) notes
      ∙ same
      ∙ sym (ap (less_inner p k_annotations stamp_key body) notes)

  -- Taking the stamp off again gives what taking it off gives without it.
  pub without_inner-with_stamp :
      (body : Members p) (id : Text)
      → HasNotes body
      → without_inner p k_annotations stamp_key (with_stamp body id)
        ≡ without_inner p k_annotations stamp_key body
  without_inner-with_stamp body id (inl absent) =
      let notes : as_members p (get p k_annotations body) ≡ none =
        ap (λ o. as_members p (present p o)) absent in
      let gone : less_inner p k_annotations stamp_key body (some (stamped_notes id none)) ≡ body =
        rw ((list_beq_iff stamp_key stamp_key).1 refl) (erase_absent k_annotations body absent) in
      between body id none notes gone
  without_inner-with_stamp body id (inr (v, d, g, o)) =
      let notes : as_members p (get p k_annotations body) ≡ some d = ap (as_members p) g ∙ o in
      between body id (some d) notes (rw (erase-insert stamp_key (p.json.text id) d) refl)
