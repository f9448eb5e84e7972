-- ===== src/AuditChain/Intact.antt =====
-- An intact log, said without the loop, and the agreement of `verify_chain` with it.
use cognexus_tools.Common.{
  ℕ, suc, ◌≡◌, refl, ◌↔◌, inl, inr, Bool, true, false, some, List, [], ◌∷◌, Text, strip, is_empty,
  arith, subst,
}
use cognexus_tools.AuditChain.Entry.{genesis, Codec}
use cognexus_tools.AuditChain.Verify.{
  Progress, going, done, Outcome, returned, raised, intact, broken, check_line, check_lines,
  conclude, verify_chain,
}
use cognexus_tools.AuditChain.Line.{
  Continues, IsLegacy, Continues-check_line, IsLegacy-check_line, blank-check_line,
}
use cognexus_tools.AuditChain.Inversion.{check_line-going, check_line-ne-intact}

-- `IsIntact c key prev seq seen log n`: after `seq` entries that end in the hash `prev`, the rest of
-- the log is blank lines, then lines from before the chain while no chained line was seen, then
-- lines that each continue the chain; `n` entries in all.
pub data IsIntact (c : Codec) (key : Text) : Text → ℕ → Bool → List Text → ℕ → Type 0 where
  end : {prev : Text} {seq : ℕ} {seen : Bool} → IsIntact c key prev seq seen [] seq
  blank :
      {prev : Text} {seq : ℕ} {seen : Bool} {line : Text} {log : List Text} {n : ℕ}
      → is_empty (strip line) ≡ true
      → IsIntact c key prev seq seen log n
      → IsIntact c key prev seq seen (line ∷ log) n
  legacy :
      {prev : Text} {seq : ℕ} {seen : Bool} {line : Text} {log : List Text} {n : ℕ}
      → seen ≡ false
      → IsLegacy c line
      → IsIntact c key (c.sha256 line) (suc seq) false log n
      → IsIntact c key prev seq seen (line ∷ log) n
  link :
      {prev : Text} {seq : ℕ} {seen : Bool} {line : Text} {log : List Text} {n : ℕ}
      → Continues c key prev seq line
      → IsIntact c key (c.sha256 line) (suc seq) true log n
      → IsIntact c key prev seq seen (line ∷ log) n

module _ (c : Codec) (key : Text) where
  pub check_lines-done : (log : List Text) (o : Outcome) → check_lines c key log (done o) ≡ done o
  unfolding check_lines
  check_lines-done [] o = refl
  check_lines-done (line ∷ log) o = refl

  IsIntact-check_lines :
      {prev : Text} {seq : ℕ} {seen : Bool} {log : List Text} {n : ℕ}
      → IsIntact c key prev seq seen log n
      → conclude c key (check_lines c key log (going prev seq seen)) ≡ returned (intact n)
  unfolding check_lines
  IsIntact-check_lines end = refl
  IsIntact-check_lines {prev} {seq} {seen} (blank {line = line} e h) =
      rw (blank-check_line c key line prev seq seen e, conclude) (IsIntact-check_lines h)
  IsIntact-check_lines {prev} {seq} {seen} (legacy {line = line} f e h) =
      rw (f, IsLegacy-check_line c key line prev seq e, conclude) (IsIntact-check_lines h)
  IsIntact-check_lines {prev} {seq} {seen} (link {line = line} e h) =
      rw (Continues-check_line c key line prev seq seen e, conclude) (IsIntact-check_lines h)

  -- One line, given the induction hypothesis for the rest of the log.
  check_line-IsIntact :
      (line : Text) (log : List Text) (r : Progress) (prev : Text) (seq : ℕ) (seen : Bool) (n : ℕ)
      → ((p : Text) (k : ℕ) (s : Bool)
          → is_empty p ≡ false
          → conclude c key (check_lines c key log (going p k s)) ≡ returned (intact n)
          → IsIntact c key p k s log n)
      → is_empty prev ≡ false
      → check_line c key line prev seq seen ≡ r
      → conclude c key (check_lines c key log r) ≡ returned (intact n)
      → IsIntact c key prev seq seen (line ∷ log) n
  check_line-IsIntact line log (done (raised e)) prev seq seen n rest solid e' h =
      cc (check_lines-done log (raised e))
  check_line-IsIntact line log (done (returned (broken m b f))) prev seq seen n rest solid e' h =
      cc (check_lines-done log (returned (broken m b f)))
  check_line-IsIntact line log (done (returned (intact m))) prev seq seen n rest solid e h =
      absurd (check_line-ne-intact c key line prev seq solid seen m e)
  check_line-IsIntact line log (going p k s) prev seq seen n rest solid e h =
      let run = λ (q : Progress). conclude c key (check_lines c key log q) ≡ returned (intact n) in
      elim (check_line-going c key line prev seq solid seen e) [
        | inl (b, q) ↦ blank b (rest prev seq seen solid (subst run q h))
        | inr (inl (l, f, q)) ↦
            legacy f l (rest (c.sha256 line) (suc seq) false (c.sha256_solid line) (subst run q h))
        | inr (inr (l, q)) ↦
            link l (rest (c.sha256 line) (suc seq) true (c.sha256_solid line) (subst run q h))
      ]

  check_lines-IsIntact :
      (log : List Text) (prev : Text) (seq : ℕ) (seen : Bool) (n : ℕ)
      → is_empty prev ≡ false
      → conclude c key (check_lines c key log (going prev seq seen)) ≡ returned (intact n)
      → IsIntact c key prev seq seen log n
  unfolding check_lines
  check_lines-IsIntact [] prev seq seen n solid h =
      let e : seq ≡ n = ground (arith, h) in subst (λ m. IsIntact c key prev seq seen [] m) e end
  check_lines-IsIntact (line ∷ log) prev seq seen n solid h =
      check_line-IsIntact line log (check_line c key line prev seq seen) prev seq seen n
        (λ p k s. check_lines-IsIntact log p k s n) solid refl h

  -- `verify_chain` answers that a log is intact, with `n` entries, exactly when it is: blank lines
  -- aside, its lines are objects without a number first, and from the first numbered one on each
  -- has the next number, the hash of the line before it, the hash of its own content and a
  -- signature by the key.
  pub verify_chain_iff :
      (log : List Text) (n : ℕ)
      → (verify_chain c key (some log) ≡ returned (intact n)) ↔ IsIntact c key genesis 0 false log n
  unfolding verify_chain
  verify_chain_iff log n = (check_lines-IsIntact log genesis 0 false n refl, IsIntact-check_lines)
