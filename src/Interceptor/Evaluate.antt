-- ===== src/Interceptor/Evaluate.antt =====
-- `evaluate` of python/src/artzain/openshell/interceptor.py, over the ledger and break-glass.
use cognexus_tools.Common.{
  ℕ, Bool, true, false, not, ◌&&◌, ◌||◌, Option, none, some, List, [], ◌∷◌, ◌++◌, Dict, Text,
  text_key, ◌==◌, codes, is_empty, is_some, take, if◌then◌else◌,
}
use cognexus_tools.Journal.Operations.{Config}
use cognexus_tools.BreakGlass.State.{Turn, State}
use cognexus_tools.BreakGlass.Operations.{current_window, record_write}
use cognexus_tools.Ledger.Operations.{forget_sandbox, or_empty}
use cognexus_tools.Interceptor.Values.{
  Python, Members, get, str_or_empty, first_true, as_members, text_within,
}
use cognexus_tools.Interceptor.Methods.{
  phase_modify, phase_post, create_sandbox, update_config, delete_sandbox, bound_validate,
  bound_modify, method_name,
}
use cognexus_tools.Interceptor.Subject.{is_global, sandbox_of}
use cognexus_tools.Interceptor.Facts.{Asked}
use cognexus_tools.Interceptor.Deciding.{
  said, Patch, Answer, deny, allow, refused_locally, Engine, unavailable, Ledger, Ruling, decide,
}
use cognexus_tools.Interceptor.Stamps.{
  create_patches, has_members, base_missing, stampable, stamp_patch, operation_digest, confirmed,
  remember_allow, committed_decision_id,
}

module _ (p : Python) where
  -- The arguments of `evaluate` besides the request. No base policy is an empty one; `journal` is
  -- the configuration of the journal behind break-glass.
  pub record Setup : Type 0 where
    pub engine : Engine
    pub base_policy : Members p
    pub base_required : Bool
    pub journal : Config

  -- What the parts keep: the ledger and break-glass, each where there is one.
  pub record World : Type 0 where
    pub ledger : Option Ledger
    pub glass : Option (State p.json)

  -- What one call reads of the clocks and the disk: the ledger's clock, and the turns in which the
  -- window is asked for and in which a write is recorded.
  pub record Moment : Type 0 where
    pub now : ℕ
    pub asks : Turn
    pub first : Turn
    pub second : Turn

  -- `_breakglass_covers`.
  unfoldable pub breakglass_covers :
      Config → Turn → Text → Members p → Option (State p.json) → Bool × Option (State p.json)
  breakglass_covers cfg t method body none = (false, none)
  breakglass_covers cfg t method body (some s) =
      let (window, asked) = current_window p.json cfg t s in
      if not (bound_validate method) || method == update_config && is_global p body
      then (false, some s)
      else (is_some window, some asked)

  abbrev pub who_fact : Text → Members p → Members p
  who_fact key principal =
      let t = text_within p 200 (get p key principal) in
      if is_empty t then [] else (key, p.json.text t) ∷ []

  abbrev pub who : Option (Members p) → Members p
  who none = []
  who (some principal) =
      who_fact (codes "subject") principal
      ++ who_fact (codes "kind") principal
      ++ who_fact (codes "provider") principal

  -- `_breakglass_facts`.
  unfoldable pub breakglass_facts : Members p → Text → Members p → Asked → Members p
  breakglass_facts request method body asked =
      (codes "method", p.json.text method)
      ∷ (codes "action", p.json.text asked.action)
      ∷ (codes "target", p.json.text asked.target)
      ∷ (codes "payload_sha256", p.json.text (p.json.sha256 asked.payload))
      ∷ (codes "digest", p.json.text (operation_digest p body false))
      ∷ (codes "principal", p.json.object (who (as_members p (get p (codes "principal") request))))
      ∷ (codes "request_id", p.json.text asked.request_id)
      ∷ []

  abbrev pub k_decision_id : Text
  k_decision_id = codes "decision_id"

  abbrev pub id_note : Text → Dict Text Text
  id_note id = if is_empty id then [] else (k_decision_id, id) ∷ []

  -- The `post_commit` phase.
  unfoldable pub post_commit : Members p → Text → Members p → Answer p
  post_commit request method body =
      let policy_hash =
        str_or_empty p
          (first_true p (get p (codes "policy_hash") body) (get p (codes "policyHash") body)) in
      let given = str_or_empty p (get p k_decision_id request) in
      let id = if is_empty given then committed_decision_id p method body else given in
      if not (bound_modify method)
      then allow p (codes "post_commit is not bound for this method") [] []
      else allow p (codes "post_commit is not authoritative") [] (
          (if is_empty policy_hash then [] else (codes "policy_hash", take 128 policy_hash) ∷ [])
          ++ id_note (take 64 id))

  -- The base policy for a create that brings none.
  abbrev pub base_patches : Setup → Text → Members p → List (Patch p)
  base_patches setup method body =
      if method == create_sandbox && has_members p setup.base_policy
      then create_patches p body setup.base_policy
      else []

  abbrev pub has_patches : List (Patch p) → Bool
  has_patches [] = false
  has_patches (x ∷ xs) = true

  -- `modify_operation`, after an allow of the engine.
  unfoldable pub stamped :
      Setup → ℕ → Members p → Text → Members p → Text → Option Ledger → Answer p × Option Ledger
  stamped setup now request method body id ledger =
      let patches = base_patches setup method body in
      if is_empty id then (allow p (codes "decision allow") patches [], ledger) else (
        allow p (codes "decision allow") (patches ++ stamp_patch p body id ∷ []) (id_note id),
        remember_allow p now request method body id (has_patches patches) ledger,
      )

  -- `modify_operation`, after the engine's ruling.
  unfoldable pub modified :
      Setup → Moment → Members p → Text → Members p → Ruling p → World → Answer p × World
  modified setup m request method body ruling w = elim ruling.denied [
    | none ↦
        let (answer, ledger) =
          stamped setup m.now request method body ruling.decision_id w.ledger in
        (answer, record w { ledger = ledger })
    | some denied ↦
        let (covered, glass) = breakglass_covers setup.journal m.asks method body w.glass in
        if not ruling.engine_down then (denied, w) else (
          (if covered
              then allow p (codes "break-glass: journaled in validate")
                  (base_patches setup method body) []
              else denied),
          record w { glass = glass },
        )
  ]

  -- The engine's ruling, and the world with the ledger that it leaves.
  abbrev pub ruled : Setup → Moment → Members p → Text → Members p → World → Ruling p × World
  ruled setup m request method body w =
      let (ruling, ledger) = decide p setup.engine m.now request method body w.ledger in
      (ruling, record w { ledger = ledger })

  -- The `modify_operation` phase.
  unfoldable pub modify_operation :
      Setup → Moment → Members p → Text → Members p → World → Answer p × World
  modify_operation setup m request method body w =
      let (ruling, after) = ruled setup m request method body w in
      if not (bound_modify method)
      then (allow p (codes "modify_operation is not bound for this method") [] [], w)
      else elim (refused_locally p method body) [
        | some refused ↦ (refused, w)
        | none ↦
            if base_missing p method body setup.base_policy setup.base_required
            then (deny p (said (codes "base policy unavailable")) 503 [], w)
            else if not (stampable p method body)
            then (allow p (codes "decided in validate") [] [], w)
            else modified setup m request method body ruling after
      ]

  -- An allowed delete forgets the sandbox's name.
  abbrev pub forgotten : Members p → Text → Members p → Option Ledger → Option Ledger
  forgotten request method body none = none
  forgotten request method body (some l) =
      let s = sandbox_of p request method body (some l.memory) in
      if method == delete_sandbox
      then some (record l { memory = forget_sandbox s.workspace s.name l.memory })
      else some l

  -- `breakglass.record_write(...) or ""`.
  unfoldable pub journal_write :
      Config → Moment → Members p → Option (State p.json) → Text × Option (State p.json)
  journal_write cfg m facts none = ([], none)
  journal_write cfg m facts (some s) =
      let (id, after) = record_write p.json cfg facts m.first m.second s in
      (or_empty id, some after)

  -- The end of `validate`: what was allowed, by a decision or under a window.
  abbrev pub passed : (window id : Text) → Members p → Text → Members p → World → Answer p × World
  passed window id request method body w = (
    (if is_empty window
        then allow p (codes "decision allow") [] (id_note id)
        else allow p (codes "break-glass write (window " ++ window ++ codes ")") []
            ((codes "break_glass", window) ∷ [])),
    record w { ledger = forgotten request method body w.ledger },
  )

  -- A write that an open window may let through, once its entry is in the file.
  unfoldable pub write_journaled :
      Setup → Moment → Members p → Text → Members p → Asked → World → Answer p × World
  write_journaled setup m request method body asked w =
      let facts = breakglass_facts request method body asked in
      let (window, glass) = journal_write setup.journal m facts w.glass in
      let after = record w { glass = glass } in
      if is_empty window
      then (deny p (said (unavailable ++ codes "; break-glass write not journaled")) 503 [], after)
      else passed window [] request method body after

  -- A write that the engine denied.
  unfoldable pub overridden :
      Setup → Moment → Members p → Text → Members p → Ruling p → Answer p → World → Answer p × World
  overridden setup m request method body ruling denied w = elim ruling.asked [
    | none ↦ (denied, w)
    | some asked ↦
        let (covered, glass) = breakglass_covers setup.journal m.asks method body w.glass in
        if not ruling.engine_down
        then (denied, w)
        else if covered
        then write_journaled setup m request method body asked (record w { glass = glass })
        else (denied, record w { glass = glass })
  ]

  -- `validate`, after the engine's ruling.
  unfoldable pub validated :
      Setup → Moment → Members p → Text → Members p → Ruling p → World → Answer p × World
  validated setup m request method body ruling w = elim ruling.denied [
    | none ↦ passed [] ruling.decision_id request method body w
    | some denied ↦ overridden setup m request method body ruling denied w
  ]

  -- What the ledger has of a write that `modify_operation` may have decided.
  unfoldable pub confirmation : Moment → Text → Members p → Option Ledger → Text × Option Ledger
  confirmation m method body ledger =
      if bound_modify method && stampable p method body
      then confirmed p m.now method body ledger
      else ([], ledger)

  -- The rest of `validate` for a write that is not confirmed.
  unfoldable pub undecided :
      Setup → Moment → Members p → Text → Members p → World → Answer p × World
  undecided setup m request method body w =
      let (ruling, after) = ruled setup m request method body w in
      if base_missing p method body setup.base_policy setup.base_required
      then (deny p (said (codes "base policy unavailable")) 503 [], w)
      else validated setup m request method body ruling after

  -- The `validate` phase, and any phase of another name.
  unfoldable pub validate : Setup → Moment → Members p → Text → Members p → World → Answer p × World
  validate setup m request method body w =
      let (id, ledger) = confirmation m method body w.ledger in
      let after = record w { ledger = ledger } in
      if not (bound_validate method)
      then (
        deny p
            (said (
              (if is_empty method then codes "unknown" else method)
              ++ codes " is not an interceptable binding"))
            403 [],
        w,
      )
      else elim (refused_locally p method body) [
        | some refused ↦ (refused, w)
        | none ↦ if is_empty id then undecided setup m request method body after else (
          allow p (codes "decided in modify_operation") [] ((k_decision_id, id) ∷ []),
          after,
        )
      ]

  abbrev pub method_of : Members p → Text
  method_of request = method_name (str_or_empty p (get p (codes "method") request))

  -- A request without a phase is validated.
  abbrev pub phase_of : Members p → Text
  phase_of request = str_or_empty p (get p (codes "phase") request)

  abbrev pub body_of : Members p → Members p
  body_of request = elim (as_members p (get p (codes "body") request)) [ none ↦ [] | some d ↦ d ]

  -- `evaluate`.
  unfoldable pub evaluate : Setup → Moment → Members p → World → Answer p × World
  evaluate setup m request w =
      if phase_of request == phase_post
      then (post_commit request (method_of request) (body_of request), w)
      else if phase_of request == phase_modify
      then modify_operation setup m request (method_of request) (body_of request) w
      else validate setup m request (method_of request) (body_of request) w
