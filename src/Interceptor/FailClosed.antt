-- ===== src/Interceptor/FailClosed.antt =====
-- When `validate` lets a write through: python/src/artzain/openshell/interceptor.py.
use cognexus_tools.Common.{
  ◌≡◌, refl, sym, ◌∙◌, subst, ◌⊎◌, Bool, true, false, not, ◌&&◌, ◌||◌, Option, none, some, Text,
  text_key, is_empty, is_none, Bool-cases, Option-cases, inl, inr, arith,
}
use cognexus_tools.Interceptor.Values.{Python, Members}
use cognexus_tools.Interceptor.Methods.{bound_validate}
use cognexus_tools.Interceptor.Facts.{Asked}
use cognexus_tools.Interceptor.Deciding.{Answer, Ruling, refused_locally}
use cognexus_tools.Interceptor.Stamps.{base_missing}
use cognexus_tools.Interceptor.Evaluate.{
  Setup, World, Moment, breakglass_covers, breakglass_facts, journal_write, write_journaled,
  overridden, validated, undecided, validate, confirmation, ruled,
}
use cognexus_tools.Interceptor.Window.{under_window, IsJournaled, under_window-IsJournaled}
use cognexus_tools.Interceptor.Memory.{IsRemembered, confirmation-IsRemembered}
use cognexus_tools.Interceptor.Rulings.{
  IsAllow, IsDown, Answered, question, decide-IsAllow, decide-IsDown, slips, decide-slips,
}

module _ (p : Python) (setup : Setup p) (m : Moment p) (request : Members p) (method : Text)
    (body : Members p) where
  refused_locally-denied :
      (a : Answer p) → refused_locally p method body ≡ some a → a.allowed ≡ false
  unfolding refused_locally
  refused_locally-denied a h = ground (arith, h)

  write_journaled-allowed :
      (asked : Asked) (w : World p)
      → (write_journaled p setup m request method body asked w).0.allowed
        ≡ not (
            is_empty
              (journal_write p setup.journal m
                (breakglass_facts p request method body asked)
                w.glass).0)
  unfolding write_journaled
  write_journaled-allowed asked w = ground arith

  -- Whether a ruling, made on a world, lets the write through.
  abbrev passes : Option Asked → Bool → World p → Bool
  passes none down w = false
  passes (some asked) down w = down && under_window p setup m request method body asked w

  overridden-allowed :
      (ruling : Ruling p) (denied : Answer p) (w : World p)
      → denied.allowed ≡ false
      → (overridden p setup m request method body ruling denied w).0.allowed
        ≡ passes ruling.asked ruling.engine_down w
  unfolding overridden
  overridden-allowed ruling denied w h = elim (Option-cases ruling.asked) [
    | inl q ↦ rw q h
    | inr (asked, q) ↦ rw q (
        ground (
          arith,
          h,
          write_journaled-allowed asked (record w {
            glass = (breakglass_covers p setup.journal m.asks method body w.glass).1;
          }),
        ))
  ]

  validated-allowed :
      (ruling : Ruling p) (w : World p)
      → slips p ruling.denied ≡ false
      → (validated p setup m request method body ruling w).0.allowed
        ≡ (is_none ruling.denied || passes ruling.asked ruling.engine_down w)
  unfolding validated overridden
  validated-allowed ruling w h = elim (Option-cases ruling.denied) [
    | inl q ↦ rw q (ground arith)
    | inr (denied, q) ↦
        rw q (overridden-allowed ruling denied w (subst (λ o. slips p o ≡ false) q h))
  ]

  -- The ruling on a write and the world with the ledger that it leaves.
  abbrev after_ruling : World p → Ruling p × World p
  after_ruling w = ruled p setup m request method body w

  -- Without the base policy that a create needs, nothing passes.
  undecided-allowed :
      (w : World p)
      → (undecided p setup m request method body w).0.allowed ≡ (
          not (base_missing p method body setup.base_policy setup.base_required)
          && (is_none (after_ruling w).0.denied
              || passes (after_ruling w).0.asked (after_ruling w).0.engine_down (after_ruling w).1))
  unfolding undecided
  undecided-allowed w =
      elim (Bool-cases (base_missing p method body setup.base_policy setup.base_required)) [
        | inl t ↦ rw t refl
        | inr t ↦ rw t (
            validated-allowed (after_ruling w).0 (after_ruling w).1
              (decide-slips p setup.engine m.now request method body w.ledger).0)
      ]

  -- The world after the ledger was asked for a decision that is remembered.
  abbrev pub looked : World p → World p
  looked w = record w { ledger = (confirmation p m method body w.ledger).1 }

  -- Whether the ledger remembers a decision on this very write.
  abbrev pub is_confirmed : World p → Bool
  is_confirmed w = not (is_empty (confirmation p m method body w.ledger).0)

  validate-allowed :
      (w : World p)
      → (validate p setup m request method body w).0.allowed ≡ (
          bound_validate method
          && is_none (refused_locally p method body)
          && (is_confirmed w || (undecided p setup m request method body (looked w)).0.allowed))
  unfolding validate
  validate-allowed w = elim (Bool-cases (bound_validate method)) [
    | inl b ↦ elim (Option-cases (refused_locally p method body)) [
      | inl q ↦ rw (b, q) (ground arith)
      | inr (a, q) ↦ rw (b, q) (refused_locally-denied a q)
    ]
    | inr b ↦ rw b refl
  ]

  -- The question about a write that is not confirmed.
  abbrev pub asked_about : World p → Asked
  asked_about w = question p m.now request method body (looked w).ledger

  -- What stands behind a write that is let through: an allow of this very write that the ledger
  -- remembers, an allow of the engine, or an engine that is down and an entry in the journal under
  -- an open window.
  abbrev pub IsGrounded : World p → Type 0
  IsGrounded w =
      IsRemembered p m method body w.ledger
      ⊎ Answered setup.engine (asked_about w) IsAllow
      ⊎ Answered setup.engine (asked_about w) IsDown
        × IsJournaled p setup m request method body (asked_about w) w

  passes_inverted :
      (o : Option Asked) (down : Bool) (w : World p)
      → passes o down w ≡ true
      → (a : Asked) × (o ≡ some a)
        × (down ≡ true)
        × (under_window p setup m request method body a w ≡ true)
  passes_inverted none down w h = cc
  passes_inverted (some a) true w h = (a, refl, refl, h)
  passes_inverted (some a) false w h = cc

  passes-IsGrounded :
      (w : World p)
      → passes
          (after_ruling (looked w)).0.asked
          (after_ruling (looked w)).0.engine_down
          (after_ruling (looked w)).1
        ≡ true
      → IsGrounded w
  passes-IsGrounded w h =
      let (ruling, after) = after_ruling (looked w) in
      let (a, q, down, under) = passes_inverted ruling.asked ruling.engine_down after h in
      let l = (looked w).ledger in
      let same : asked_about w ≡ a =
        (decide-slips p setup.engine m.now request method body l).1 a q in
      inr (
        inr (
          decide-IsDown p setup.engine m.now request method body l down,
          under_window-IsJournaled p setup m request method body (asked_about w) w
              (subst (λ x. under_window p setup m request method body x w ≡ true) (sym same) under),
        ))

  -- A write passes only when it is confirmed or its ruling lets it through.
  validate-passes :
      (w : World p)
      → (validate p setup m request method body w).0.allowed ≡ true
      → (is_confirmed w
          || is_none (after_ruling (looked w)).0.denied
          || passes
              (after_ruling (looked w)).0.asked
              (after_ruling (looked w)).0.engine_down
              (after_ruling (looked w)).1)
        ≡ true
  validate-passes w h =
      let answer = sym (validate-allowed w) ∙ h in
      ground (arith, answer, undecided-allowed (looked w))

  or_cases : (a b c : Bool) → (a || b || c) ≡ true → (a ≡ true) ⊎ (b ≡ true) ⊎ (c ≡ true)
  or_cases true b c h = inl refl
  or_cases false true c h = inr (inl refl)
  or_cases false false c h = inr (inr h)

  is_none-eq : {A : Type 0} (o : Option A) → is_none o ≡ true → o ≡ none
  is_none-eq none h = refl
  is_none-eq (some a) h = cc

  -- A write that `validate` lets through was decided before, or the engine allows it now, or the
  -- engine is down and an open window has the write's entry in its journal.
  pub validate-IsGrounded :
      (w : World p) → (validate p setup m request method body w).0.allowed ≡ true → IsGrounded w
  validate-IsGrounded w h =
      let (ruling, after) = after_ruling (looked w) in
      elim (or_cases (is_confirmed w) (is_none ruling.denied)
        (passes ruling.asked ruling.engine_down after) (validate-passes w h)) [
          | inl confirmed ↦
              inl (confirmation-IsRemembered p m method body w.ledger (ground (arith, confirmed)))
          | inr (inl allowed) ↦ inr (
              inl (
                decide-IsAllow p setup.engine m.now request method body (looked w).ledger
                  (is_none-eq ruling.denied allowed)))
          | inr (inr window) ↦ passes-IsGrounded w window
        ]
