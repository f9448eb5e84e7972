-- ===== src/Interceptor/Secrets.antt =====
-- No secret-shaped key is left in a decision's payload:
-- python/src/artzain/openshell/interceptor.py.
use cognexus_tools.Common.{
  ℕ, zero, suc, ◌≡◌, refl, sym, ◌∙◌, subst, false, Option, none, some, List, [], ◌∷◌, map, insert,
  Text, text_key, take, any, is_empty, codes, All, All-insert, Bool-cases, inl, inr, arith,
  none-some_absurd, some-injective,
}
use cognexus_tools.Ledger.Operations.{Memory}
use cognexus_tools.Interceptor.Facts.{subject, decision_request}
use cognexus_tools.Interceptor.Values.{
  Python, Members, starts_folded, holds_folded, secret_words, is_secret_key, strip_members,
  stripped, strip_secrets,
}

-- A word that a text does not hold, no shorter part of it from the start holds either.
starts_folded-take :
    (word : Text) (n : ℕ) (t : Text)
    → starts_folded word t ≡ false
    → starts_folded word (take n t) ≡ false
starts_folded-take [] n t h = h
starts_folded-take (c ∷ word) zero t h = refl
starts_folded-take (c ∷ word) (suc n) [] h = refl
starts_folded-take (c ∷ word) (suc n) (d ∷ t) h = ground (arith, starts_folded-take word n t, h)

holds_folded-take :
    (c : ℕ) (word : Text) (n : ℕ) (t : Text)
    → holds_folded (c ∷ word) t ≡ false
    → holds_folded (c ∷ word) (take n t) ≡ false
holds_folded-take c word zero t h = refl
holds_folded-take c word (suc n) [] h = refl
holds_folded-take c word (suc n) (d ∷ t) h =
    ground (arith, h, starts_folded-take (c ∷ word) (suc n) (d ∷ t), holds_folded-take c word n t)

any-holds_folded-take :
    (words : List Text) (n : ℕ) (t : Text)
    → All (λ word. is_empty word ≡ false) words
    → any (λ word. holds_folded word t) words ≡ false
    → any (λ word. holds_folded word (take n t)) words ≡ false
any-holds_folded-take [] n t full h = refl
any-holds_folded-take ([] ∷ words) n t full h = cc
any-holds_folded-take ((c ∷ word) ∷ words) n t full h =
    ground (arith, h, holds_folded-take c word n t, any-holds_folded-take words n t full.1)

is_secret_key-take : (n : ℕ) (t : Text) → is_secret_key t ≡ false → is_secret_key (take n t) ≡ false
unfolding is_secret_key
is_secret_key-take n t h =
    any-holds_folded-take secret_words n t (refl, (refl, (refl, (refl, (refl, tt))))) h

module _ (p : Python) where
  -- No dict in the first `n` levels of a value has a key that looks like a secret's.
  abbrev pub IsClean : ℕ → p.json.Value → Type 0
  IsClean zero v = Unit
  IsClean (suc n) v =
      ((d : Members p)
        → p.json.as_object v ≡ some d
        → All (λ x. (is_secret_key x.0 ≡ false) × IsClean n x.1) d)
      × ((vs : List p.json.Value) → p.json.as_array v ≡ some vs → All (λ x. IsClean n x) vs)

  abbrev IsCleanEntry : ℕ → Text × p.json.Value → Type 0
  IsCleanEntry n x = (is_secret_key x.0 ≡ false) × IsClean n x.1

  object-IsClean :
      (n : ℕ) (d : Members p) → All (λ x. IsCleanEntry n x) d → IsClean (suc n) (p.json.object d)
  object-IsClean n d h = (
    λ e q.
        subst (All (λ x. IsCleanEntry n x))
          (some-injective d e (sym (p.json.as_object-object d) ∙ q)) h,
    λ vs q. none-some_absurd vs (sym (p.as_array-object d) ∙ q),
  )

  array-IsClean :
      (n : ℕ) (vs : List p.json.Value)
      → All (λ x. IsClean n x) vs
      → IsClean (suc n) (p.json.array vs)
  array-IsClean n vs h = (
    λ d q. none-some_absurd d (sym (p.as_object-array vs) ∙ q),
    λ us q.
        subst (All (λ x. IsClean n x)) (some-injective vs us (sym (p.json.as_array-array vs) ∙ q))
          h,
  )

  plain-IsClean :
      (n : ℕ) (v : p.json.Value)
      → p.json.as_object v ≡ none
      → p.json.as_array v ≡ none
      → IsClean n v
  plain-IsClean zero v o a = tt
  plain-IsClean (suc n) v o a =
      (λ d q. none-some_absurd d (sym o ∙ q), λ vs q. none-some_absurd vs (sym a ∙ q))

  module _ (n : ℕ) (inner : p.json.Value → p.json.Value)
      (clean : (v : p.json.Value) → IsClean n (inner v)) where
    strip_members-All :
        (d out : Members p)
        → All (λ x. IsCleanEntry n x) out
        → All (λ x. IsCleanEntry n x) (strip_members p inner d out)
    strip_members-All [] out h = h
    strip_members-All ((key, item) ∷ d) out h = elim (Bool-cases (is_secret_key key)) [
      | inl t ↦ rw t (strip_members-All d out h)
      | inr t ↦ rw t (
          strip_members-All d (insert (take 80 key) (inner item) out) (
            All-insert (λ x. IsCleanEntry n x) (take 80 key) (inner item) out h
              (is_secret_key-take 80 key t, clean item)))
    ]

    map-All : (vs : List p.json.Value) → All (λ x. IsClean n x) (map inner vs)
    map-All [] = tt
    map-All (v ∷ vs) = (clean v, map-All vs)

    stripped-IsClean :
        (o : Option (Members p)) (a : Option (List p.json.Value)) (t : Option Text)
        (v : p.json.Value)
        → p.json.as_object v ≡ o
        → p.json.as_array v ≡ a
        → IsClean (suc n) (stripped p inner o a t v)
    stripped-IsClean (some d) a t v q r =
        object-IsClean n (strip_members p inner d []) (strip_members-All d [] tt)
    stripped-IsClean none (some vs) t v q r =
        array-IsClean n (map inner (take 40 vs)) (map-All (take 40 vs))
    stripped-IsClean none none (some t) v q r =
        plain-IsClean (suc n) (p.json.text (take 500 t)) (p.as_object-text (take 500 t))
          (p.as_array-text (take 500 t))
    stripped-IsClean none none none v q r = plain-IsClean (suc n) v q r

  -- A stripped value has no dict with a secret-shaped key in it, however deep one looks and however
  -- many levels were read, keys that were cut short included.
  pub strip_secrets-IsClean : (n left : ℕ) (v : p.json.Value) → IsClean n (strip_secrets p left v)
  unfolding strip_secrets
  strip_secrets-IsClean n zero v = plain-IsClean n p.null p.as_object-null p.as_array-null
  strip_secrets-IsClean zero (suc left) v = tt
  strip_secrets-IsClean (suc n) (suc left) v =
      stripped-IsClean n (strip_secrets p left) (strip_secrets-IsClean n left) (p.json.as_object v)
        (p.json.as_array v) (p.json.as_text v) v refl refl

  -- The payload of a decision is written from a value with no secret-shaped key in it, however deep
  -- one looks, and is cut to 200000 characters.
  pub decision_request-IsClean :
      (request : Members p) (method : Text) (body : Members p) (ledger : Option Memory)
      → (v : p.json.Value) × ((decision_request p request method body ledger).payload
          ≡ take 200000 (p.dumps v))
        × ((n : ℕ) → IsClean n v)
  unfolding decision_request
  decision_request-IsClean request method body ledger =
      let (target, facts) = subject p request method body ledger in
      let diff = p.json.object ((codes "method", p.json.text method) ∷ facts) in
      (strip_secrets p 9 diff, refl, λ n. strip_secrets-IsClean n 9 diff)
