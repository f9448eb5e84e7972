-- ===== src/Interceptor/Window.antt =====
-- What stands behind a write that passes under a window:
-- python/src/artzain/openshell/interceptor.py over python/src/artzain/openshell/breakglass.py.
use cognexus_tools.Common.{
  ◌≡◌, refl, sym, ap, ◌∙◌, subst, Bool, true, false, not, ◌&&◌, Option, none, some, lookup,
  Distinct, Text, text_key, ◌==◌, list_beq, codes, is_empty, Option-cases, inl, inr, arith,
}
use cognexus_tools.BreakGlass.State.{State}
use cognexus_tools.BreakGlass.Operations.{current_window, record_write}
use cognexus_tools.BreakGlass.Writes.{IsCovered, Carries, record_write-IsCovered}
use cognexus_tools.Ledger.Operations.{or_empty}
use cognexus_tools.Interceptor.Values.{Python, Members}
use cognexus_tools.Interceptor.Methods.{bound_validate, update_config}
use cognexus_tools.Interceptor.Subject.{is_global}
use cognexus_tools.Interceptor.Facts.{Asked}
use cognexus_tools.Interceptor.Deciding.{Ledger}
use cognexus_tools.Interceptor.Stamps.{operation_digest}
use cognexus_tools.Interceptor.Evaluate.{
  Setup, World, Moment, breakglass_covers, breakglass_facts, journal_write,
}

module _ (p : Python) (setup : Setup p) (m : Moment p) (request : Members p) (method : Text)
    (body : Members p) where
  -- Whether an open window covers the write and its entry is in the journal's file.
  abbrev pub under_window : Asked → World p → Bool
  under_window asked w =
      let (covered, glass) = breakglass_covers p setup.journal m.asks method body w.glass in
      covered
      && not (
          is_empty
            (journal_write p setup.journal m (breakglass_facts p request method body asked)
              glass).0)

  -- Break-glass once it was asked for its window.
  abbrev pub seen : State p.json → State p.json
  seen s = (current_window p.json setup.journal m.asks s).1

  -- What the entry of a write says: the write, what the engine was asked about it, the operation's
  -- digest, and the window.
  pub record Describes (asked : Asked) (id : Text) (entry : Members p) : Type 0 where
    pub method_eq : lookup (codes "method") entry ≡ some (p.json.text method)
    pub action_eq : lookup (codes "action") entry ≡ some (p.json.text asked.action)
    pub target_eq : lookup (codes "target") entry ≡ some (p.json.text asked.target)
    pub payload_eq :
        lookup (codes "payload_sha256") entry ≡ some (p.json.text (p.json.sha256 asked.payload))
    pub digest_eq :
        lookup (codes "digest") entry ≡ some (p.json.text (operation_digest p body false))
    pub request_eq : lookup (codes "request_id") entry ≡ some (p.json.text asked.request_id)
    pub window_eq : lookup (codes "window") entry ≡ some (p.json.text id)

  -- A bound write that is not gateway-wide, under a window open by both clocks, which counts it, with
  -- an entry in the journal's file that describes it.
  abbrev pub IsJournaled : Asked → World p → Type 0
  IsJournaled asked w =
      (bound_validate method ≡ true)
      × ((method == update_config && is_global p body) ≡ false)
      × ((s : State p.json) × (id : Text) × (w.glass ≡ some s)
          × (c : IsCovered p.json setup.journal m.first id (seen s)
              (record_write p.json setup.journal (breakglass_facts p request method body asked)
                m.first m.second (seen s)).1)
          × Describes asked id c.body)

  facts-Distinct : (asked : Asked) → Distinct (breakglass_facts p request method body asked)
  unfolding breakglass_facts list_beq
  facts-Distinct asked = (refl, (refl, (refl, (refl, (refl, (refl, (refl, tt)))))))

  facts-Describes :
      (asked : Asked) (id : Text) (entry : Members p)
      → Carries p.json setup.journal (breakglass_facts p request method body asked) id entry
      → Describes asked id entry
  unfolding breakglass_facts list_beq
  facts-Describes asked id entry carries = record {
    method_eq = carries (codes "method");
    action_eq = carries (codes "action");
    target_eq = carries (codes "target");
    payload_eq = carries (codes "payload_sha256");
    digest_eq = carries (codes "digest");
    request_eq = carries (codes "request_id");
    window_eq = carries (codes "window");
  }

  covers_some :
      (s : State p.json)
      → (breakglass_covers p setup.journal m.asks method body (some s)).0 ≡ true
      → (bound_validate method ≡ true)
        × ((method == update_config && is_global p body) ≡ false)
        × ((breakglass_covers p setup.journal m.asks method body (some s)).1 ≡ some (seen s))
  unfolding breakglass_covers
  covers_some s h = (ground (arith, h), ground (arith, h), ground (arith, h))

  journal_write-some :
      (facts : Members p) (s : State p.json)
      → is_empty (journal_write p setup.journal m facts (some s)).0 ≡ false
      → (id : Text) × ((record_write p.json setup.journal facts m.first m.second s).0 ≡ some id)
  unfolding journal_write
  journal_write-some facts s h =
      elim (Option-cases (record_write p.json setup.journal facts m.first m.second s).0) [
        | inl q ↦ let empty : true ≡ false = ap (λ o. is_empty (or_empty o)) (sym q) ∙ h in cc
        | inr (id, q) ↦ (id, q)
      ]

  covers_none : (breakglass_covers p setup.journal m.asks method body none).0 ≡ false
  unfolding breakglass_covers
  covers_none = refl

  glass-IsJournaled :
      (asked : Asked) (l : Option Ledger) (o : Option (State p.json))
      → under_window asked (record { ledger = l; glass = o }) ≡ true
      → IsJournaled asked (record { ledger = l; glass = o })
  glass-IsJournaled asked l none h =
      let shut = covers_none in let absurd : false ≡ true = ground (arith, h, shut) in cc
  glass-IsJournaled asked l (some s) h =
      let facts = breakglass_facts p request method body asked in
      let (bound, narrow, same) = covers_some s (ground (arith, h)) in
      let told : is_empty
            (journal_write p setup.journal m facts
              (breakglass_covers p setup.journal m.asks method body (some s)).1).0
          ≡ false =
        ground (arith, h) in
      let (id, q) =
        journal_write-some facts (seen s)
          (subst (λ g. is_empty (journal_write p setup.journal m facts g).0 ≡ false) same told) in
      let (c, carries) =
        record_write-IsCovered p.json setup.journal facts m.first m.second (seen s) id
          (facts-Distinct asked) q in
      (bound, narrow, (s, id, refl, c, facts-Describes asked id c.body carries))

  -- A write that passes under a window is journaled.
  pub under_window-IsJournaled :
      (asked : Asked) (w : World p) → under_window asked w ≡ true → IsJournaled asked w
  under_window-IsJournaled asked w h = glass-IsJournaled asked w.ledger w.glass h
