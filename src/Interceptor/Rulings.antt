-- ===== src/Interceptor/Rulings.antt =====
-- What a ruling of the engine says of its answer: python/src/artzain/openshell/interceptor.py.
use cognexus_tools.Common.{
  ℕ, ◌≡◌, refl, sym, ◌∙◌, subst, Bool, true, false, ◌||◌, Option, none, some, Text, text_key, ◌==◌,
  codes, is_empty, nat_beq, Bool-cases, inl, inr, arith, none-some_absurd, some-injective,
}
use cognexus_tools.Interceptor.Values.{Python, Members}
use cognexus_tools.Interceptor.Facts.{Asked, decision_request}
use cognexus_tools.Interceptor.Deciding.{
  Answer, Decision, Engine, Ledger, rule, ask, decide, cited_by, citing, memory_of, fetch_fails,
  answered, fetch_refusal,
}

-- An answer that releases a write.
abbrev pub IsAllow : Decision → Type 0
IsAllow d =
    (nat_beq d.http_status 429 ≡ false)
    × (nat_beq d.http_status 503 ≡ false)
    × ((d.outcome == codes "allow") ≡ true)

-- An answer that the sidecar's client marked as no answer of the engine.
abbrev pub IsDown : Decision → Type 0
IsDown d =
    (d.down ≡ true)
    × (nat_beq d.http_status 429 ≡ false)
    × ((nat_beq d.http_status 503 || is_empty d.outcome) ≡ true)

-- The engine answered a question in a way.
abbrev pub Answered : Engine → Asked → (Decision → Type 0) → Type 0
Answered engine asked P = (d : Decision) × (engine.decide asked ≡ some d) × P d

module _ (p : Python) where
  rule-IsAllow :
      (asked : Asked) (cited : Text) (now : ℕ) (d : Decision) (l : Option Ledger)
      → (rule p asked cited now d l).0.denied ≡ none
      → IsAllow d
  unfolding rule
  rule-IsAllow asked cited now d l h = ground (arith, h)

  rule-IsDown :
      (asked : Asked) (cited : Text) (now : ℕ) (d : Decision) (l : Option Ledger)
      → (rule p asked cited now d l).0.engine_down ≡ true
      → IsDown d
  unfolding rule
  rule-IsDown asked cited now d l h = ground (arith, h)

  -- The question that the engine is asked about a write, with the review that the ledger has.
  abbrev pub question : (now : ℕ) → Members p → Text → Members p → Option Ledger → Asked
  question now request method body ledger =
      let asked = decision_request p request method body (memory_of p ledger) in
      citing p (cited_by p asked now ledger).0 asked

  -- Whether a refusal would let a write through.
  abbrev pub slips : Option (Answer p) → Bool
  slips none = false
  slips (some a) = a.allowed

  rule-slips :
      (asked : Asked) (cited : Text) (now : ℕ) (d : Decision) (l : Option Ledger)
      → (slips (rule p asked cited now d l).0.denied ≡ false)
        × ((rule p asked cited now d l).0.asked ≡ some asked)
  unfolding rule
  rule-slips asked cited now d l = (ground arith, ground arith)

  answered-slips :
      (asked : Asked) (cited : Text) (now : ℕ) (o : Option Decision) (l : Option Ledger)
      → (slips (answered p asked cited now o l).0.denied ≡ false)
        × ((answered p asked cited now o l).0.asked ≡ some asked)
  answered-slips asked cited now none l = (refl, refl)
  answered-slips asked cited now (some d) l = rule-slips asked cited now d l

  answered-IsAllow :
      (asked : Asked) (cited : Text) (now : ℕ) (o : Option Decision) (l : Option Ledger)
      → (answered p asked cited now o l).0.denied ≡ none
      → (d : Decision) × (o ≡ some d) × IsAllow d
  answered-IsAllow asked cited now none l h = none-some_absurd _ (sym h)
  answered-IsAllow asked cited now (some d) l h = (d, refl, rule-IsAllow asked cited now d l h)

  answered-IsDown :
      (asked : Asked) (cited : Text) (now : ℕ) (o : Option Decision) (l : Option Ledger)
      → (answered p asked cited now o l).0.engine_down ≡ true
      → (d : Decision) × (o ≡ some d) × IsDown d
  answered-IsDown asked cited now none l h = cc
  answered-IsDown asked cited now (some d) l h = (d, refl, rule-IsDown asked cited now d l h)

  ask-IsAllow :
      (engine : Engine) (now : ℕ) (asked : Asked) (l : Option Ledger)
      → (ask p engine now asked l).0.denied ≡ none
      → Answered engine (citing p (cited_by p asked now l).0 asked) IsAllow
  unfolding ask
  ask-IsAllow engine now asked l h =
      let (cited, read) = cited_by p asked now l in
      answered-IsAllow (citing p cited asked) cited now (engine.decide (citing p cited asked)) read
        h

  ask-IsDown :
      (engine : Engine) (now : ℕ) (asked : Asked) (l : Option Ledger)
      → (ask p engine now asked l).0.engine_down ≡ true
      → Answered engine (citing p (cited_by p asked now l).0 asked) IsDown
  unfolding ask
  ask-IsDown engine now asked l h =
      let (cited, read) = cited_by p asked now l in
      answered-IsDown (citing p cited asked) cited now (engine.decide (citing p cited asked)) read h

  ask-slips :
      (engine : Engine) (now : ℕ) (asked : Asked) (l : Option Ledger)
      → (slips (ask p engine now asked l).0.denied ≡ false)
        × ((ask p engine now asked l).0.asked ≡ some (citing p (cited_by p asked now l).0 asked))
  unfolding ask
  ask-slips engine now asked l =
      let (cited, read) = cited_by p asked now l in
      answered-slips (citing p cited asked) cited now (engine.decide (citing p cited asked)) read

  module _ (engine : Engine) (now : ℕ) (request : Members p) (method : Text)
      (body : Members p) where
    decide_closed :
        (l : Option Ledger)
        → fetch_fails p engine request method body ≡ true
        → decide p engine now request method body l ≡ (fetch_refusal p, l)
    unfolding decide
    decide_closed l t = rw t refl

    decide_asked :
        (l : Option Ledger)
        → fetch_fails p engine request method body ≡ false
        → decide p engine now request method body l
          ≡ ask p engine now (decision_request p request method body (memory_of p l)) l
    unfolding decide
    decide_asked l t = rw t refl

    -- A ruling without a refusal has an allow of the engine behind it.
    pub decide-IsAllow :
        (l : Option Ledger)
        → (decide p engine now request method body l).0.denied ≡ none
        → Answered engine (question now request method body l) IsAllow
    decide-IsAllow l h = elim (Bool-cases (fetch_fails p engine request method body)) [
      | inl t ↦ none-some_absurd _ (sym (subst (λ x. x.0.denied ≡ none) (decide_closed l t) h))
      | inr t ↦
          ask-IsAllow engine now (decision_request p request method body (memory_of p l)) l
            (subst (λ x. x.0.denied ≡ none) (decide_asked l t) h)
    ]

    -- A ruling that the engine is down has an answer that says so behind it.
    pub decide-IsDown :
        (l : Option Ledger)
        → (decide p engine now request method body l).0.engine_down ≡ true
        → Answered engine (question now request method body l) IsDown
    decide-IsDown l h = elim (Bool-cases (fetch_fails p engine request method body)) [
      | inl t ↦
          let closed : false ≡ true = subst (λ x. x.0.engine_down ≡ true) (decide_closed l t) h in
          cc
      | inr t ↦
          ask-IsDown engine now (decision_request p request method body (memory_of p l)) l
            (subst (λ x. x.0.engine_down ≡ true) (decide_asked l t) h)
    ]

    -- A refusal refuses, and the question of a ruling is the one of the write.
    pub decide-slips :
        (l : Option Ledger)
        → (slips (decide p engine now request method body l).0.denied ≡ false)
          × ((a : Asked)
              → (decide p engine now request method body l).0.asked ≡ some a
              → question now request method body l ≡ a)
    decide-slips l =
        let asked = decision_request p request method body (memory_of p l) in
        let (denied, same) = ask-slips engine now asked l in
        elim (Bool-cases (fetch_fails p engine request method body)) [
          | inl t ↦ rw (decide_closed l t) (refl, λ a h. none-some_absurd a h)
          | inr t ↦ rw (decide_asked l t) (denied, λ a h. some-injective _ a (sym same ∙ h))
        ]
