-- ===== src/AuditChain/Binding.antt =====
-- The last line of an intact log binds all the lines before it:
-- python/src/artzain/audit_chain.py.
use mathlib.Core.Bool.{false≢true}
use cognexus_tools.Common.{
  ap, Option, none, Bool-cases, inl, inr, ◌⊎◌, ◌≢◌, ◌==◌, list_beq_iff, none-some_absurd,
  some-injective, ℕ, suc, ◌+◌, ◌≡◌, refl, sym, ◌∙◌, Bool, false, some, List, [], ◌∷◌, Text, strip,
  is_empty, arith, All, text_key, length, subst,
}
use cognexus_tools.AuditChain.Entry.{genesis, Codec}
use cognexus_tools.AuditChain.Verify.{returned, intact, verify_chain}
use cognexus_tools.AuditChain.Line.{Continues, IsLegacy}
use cognexus_tools.AuditChain.Intact.{IsIntact, end, blank, legacy, link, verify_chain_iff}

module _ (c : Codec) where
  -- The hash of the last line.
  abbrev pub tip : Text → List Text → Text
  tip prev [] = prev
  tip prev (line ∷ log) = tip (c.sha256 line) log

  -- A log with no blank line and no line from before the chain.
  abbrev pub IsDense : List Text → Type 0
  IsDense = All (λ line. (is_empty (strip line) ≡ false) × ¬ IsLegacy c line)

-- The last line of a log.
abbrev pub last_line : List Text → Option Text
last_line [] = none
last_line (line ∷ []) = some line
last_line (line ∷ next ∷ log) = last_line (next ∷ log)

module _ (c : Codec) (key : Text) where
  -- Two texts that are not the same and have one hash.
  abbrev pub Collision : Type 0
  Collision = (a : Text) × (b : Text) × (a ≢ b) × (c.sha256 a ≡ c.sha256 b)

  -- Each line continues the chain.
  Links : Text → ℕ → List Text → Type 0
  Links prev seq [] = Unit
  Links prev seq (line ∷ log) = Continues c key prev seq line × Links (c.sha256 line) (suc seq) log

  -- A line names one previous hash, and one number.
  Continues-prev :
      {p q line : Text} {n m : ℕ} → Continues c key p n line → Continues c key q m line → p ≡ q
  Continues-prev h k = cc (h.parsed, k.parsed, h.linked, k.linked)

  Continues-number :
      {p q line : Text} {n m : ℕ} → Continues c key p n line → Continues c key q m line → n ≡ m
  Continues-number h k = cc (h.parsed, k.parsed, h.numbered, k.numbered, h.counted, k.counted)

  last_line-Continues :
      (xs : List Text) (p line : Text) (n : ℕ)
      → Links p n xs
      → last_line xs ≡ some line
      → (k : ℕ) × (length xs ≡ suc k)
        × (tip c p xs ≡ c.sha256 line)
        × ((q : Text) × Continues c key q (n + k) line)
  unfolding Links
  last_line-Continues [] p line n h e = none-some_absurd line e
  last_line-Continues (x ∷ []) p line n h e =
      let same = some-injective x line e in
      (
        0,
        refl,
        ap c.sha256 same,
        (
          p,
          subst (λ z. Continues c key p z line) (omega arith)
              (subst (Continues c key p n) same h.0),
        ),
      )
  last_line-Continues (x ∷ y ∷ xs) p line n h e =
      let (k, long, t, (q, last)) = last_line-Continues (y ∷ xs) (c.sha256 x) line (suc n) h.1 e in
      (suc k, omega (arith, long), t, (q, subst (λ z. Continues c key q z line) (omega arith) last))

  Links-eq :
      (xs ys : List Text) (p q : Text) (n : ℕ)
      → Links p n xs
      → Links q n ys
      → length xs ≡ length ys
      → tip c p xs ≡ tip c q ys
      → ((p ≡ q) × (xs ≡ ys)) ⊎ Collision
  unfolding Links
  Links-eq [] [] p q n h k e t = inl (t, refl)
  Links-eq [] (y ∷ ys) p q n h k e t = absurd (omega arith)
  Links-eq (x ∷ xs) [] p q n h k e t = absurd (omega arith)
  Links-eq (x ∷ xs) (y ∷ ys) p q n h k e t =
      elim (Links-eq xs ys (c.sha256 x) (c.sha256 y) (suc n) h.1 k.1 (omega (arith, e)) t) [
        | inr clash ↦ inr clash
        | inl (hashes, rest) ↦ elim (Bool-cases (x == y)) [
          | inl same ↦
              let e' = (list_beq_iff x y).0 same in
              inl (
                Continues-prev h.0 (subst (λ z. Continues c key q n z) (sym e') k.0),
                cc (e', rest),
              )
          | inr other ↦ inr (x, y, λ e'. false≢true (sym other ∙ (list_beq_iff x y).1 e'), hashes)
        ]
      ]

  IsIntact-Links :
      {prev : Text} {seq : ℕ} {seen : Bool} {log : List Text} {n : ℕ}
      → IsIntact c key prev seq seen log n
      → IsDense c log
      → Links prev seq log × (n ≡ seq + length log)
  unfolding Links
  IsIntact-Links end d = (tt, omega arith)
  IsIntact-Links (blank e h) d = absurd (false≢true (sym d.0.0 ∙ e))
  IsIntact-Links (legacy f l h) d = absurd (d.0.1 l)
  IsIntact-Links (link l h) d = let (ls, m) = IsIntact-Links h d.1 in ((l, ls), omega (arith, m))

  -- Two logs that verify and end in the same line are the same log, with as many entries, or two
  -- different texts have one hash: so nothing before the last line can be changed, dropped, added or
  -- moved in a log that verifies without a collision. Blank lines and lines from before the chain are
  -- not bound in this way, and the logs have none.
  pub verify_chain-binds :
      (xs ys : List Text) (n m : ℕ) (line : Text)
      → IsDense c xs
      → IsDense c ys
      → verify_chain c key (some xs) ≡ returned (intact n)
      → verify_chain c key (some ys) ≡ returned (intact m)
      → last_line xs ≡ some line
      → last_line ys ≡ some line
      → (xs ≡ ys) ⊎ Collision
  verify_chain-binds xs ys n m line dx dy hx hy ex ey =
      let (lx, mx) = IsIntact-Links ((verify_chain_iff c key xs n).0 hx) dx in
      let (ly, my) = IsIntact-Links ((verify_chain_iff c key ys m).0 hy) dy in
      let (i, long, t, (p, a)) = last_line-Continues xs genesis line 0 lx ex in
      let (j, wide, u, (q, b)) = last_line-Continues ys genesis line 0 ly ey in
      let even = Continues-number a b in
      elim (Links-eq xs ys genesis genesis 0 lx ly (omega (arith, long, wide, even)) (t ∙ sym u)) [
        | inl same ↦ inl same.1
        | inr clash ↦ inr clash
      ]
