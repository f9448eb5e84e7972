-- ===== src/Interceptor/Deciding.antt =====
-- The engine's decision on a write, of python/src/artzain/openshell/interceptor.py.
use cognexus_tools.Common.{
  ℕ, Bool, true, false, not, ◌&&◌, ◌||◌, Option, none, some, List, [], ◌∷◌, ◌++◌, Dict, Text,
  text_key, ◌==◌, codes, strip, is_empty, nat_beq, ltb, ℤ, pos, if◌then◌else◌,
}
use cognexus_tools.Ledger.Operations.{Limits, Memory, cited_review, remember_review, forget_review}
use cognexus_tools.Interceptor.Values.{
  Python, Members, get, str_or_empty, first_true, is_decision_id,
}
use cognexus_tools.Interceptor.Methods.{update_config}
use cognexus_tools.Interceptor.Subject.{is_global, is_setting_write, carries_policy}
use cognexus_tools.Interceptor.Facts.{Asked, decision_request}

-- Why an answer is given: a text, or the refusal of a rate limit with its two numbers, which the
-- source writes into its text when they are not 0.
pub data AnswerReason : Type 0 where
  said : Text → AnswerReason
  rate_limited : (limit wait : ℕ) → AnswerReason

module _ (p : Python) where
  -- A patch of RFC 6902; every one is an `add`.
  pub record Patch : Type 0 where
    pub path : Text
    pub value : p.json.Value

  pub record Answer : Type 0 where
    pub allowed : Bool
    pub reason : AnswerReason
    pub status_code : ℕ
    pub patches : List Patch
    pub log_annotations : Dict Text Text

  -- `_deny`.
  abbrev pub deny : AnswerReason → ℕ → Dict Text Text → Answer
  deny reason status_code annotations = record {
    allowed = false;
    reason = reason;
    status_code = status_code;
    patches = [];
    log_annotations = annotations;
  }

  -- `_allow`.
  abbrev pub allow : Text → List Patch → Dict Text Text → Answer
  allow reason patches annotations = record {
    allowed = true;
    reason = said reason;
    status_code = 200;
    patches = patches;
    log_annotations = annotations;
  }

  abbrev pub global_policy_refused : Answer
  global_policy_refused =
      deny (said (codes "a gateway global policy replaces every sandbox policy")) 403 []

  abbrev pub no_setting_refused : Answer
  no_setting_refused =
      deny (said (codes "a gateway global update that names no setting is refused")) 403 []

  -- `_refused_locally`.
  unfoldable pub refused_locally : Text → Members p → Option Answer
  refused_locally method body =
      if not (method == update_config) || not (is_global p body) || is_setting_write p body
      then none
      else some (if carries_policy p body then global_policy_refused else no_setting_refused)

-- What `_decide` reads of the engine's answer, `status_code` or else `status` as a number, and
-- the two numbers where they are whole numbers and no Booleans; `down` is the mark of
-- `mark_engine_down`.
pub record Decision : Type 0 where
  pub http_status : ℕ
  pub outcome : Text
  pub decision_id : Text
  pub limit_per_hour : Option ℤ
  pub retry_after : Option ℤ
  pub down : Bool

-- The engine, and the fetch of a sandbox's policy, which gives a dict or fails.
pub record Engine : Type 0 where
  pub decide : Asked → Option Decision
  pub fetch_policy : Option (Text → Bool)

-- `_decision_id`.
unfoldable pub decision_id_of : Text → Text
decision_id_of raw = let t = strip raw in if is_decision_id t then t else []

-- `whole` of `_rate_limit_reason`.
abbrev pub small_number : Option ℤ → ℕ
small_number (some (pos n)) = if ltb n 1000000000 then n else 0
small_number _ = 0

-- `_UNAVAILABLE`.
abbrev pub unavailable : Text
unavailable = codes "decision unavailable"

-- `_review_key`; what `sha256` and `dumps` make of the four texts.
abbrev pub review_key : Python → Asked → Text
review_key p asked = p.json.sha256 (
    p.dumps (
      p.json.array (
        p.json.text asked.agent_did
        ∷ p.json.text asked.action
        ∷ p.json.text asked.target
        ∷ p.json.text asked.payload
        ∷ [])))

-- The configuration of the ledger; without one there is none.
pub record Ledger : Type 0 where
  pub limits : Limits
  pub memory : Memory

module _ (p : Python) where
  -- `_Decided`.
  pub record Ruling : Type 0 where
    pub denied : Option (Answer p)
    pub decision_id : Text
    pub engine_down : Bool
    pub asked : Option Asked

  abbrev pub refusal : Answer p → Bool → Option Asked → Ruling
  refusal answer down asked = record {
    denied = some answer;
    decision_id = [];
    engine_down = down;
    asked = asked;
  }

  -- The ledger's reading of the review, and its key.
  abbrev pub cited_by : Asked → ℕ → Option Ledger → Text × Option Ledger
  cited_by asked now none = ([], none)
  cited_by asked now (some l) =
      let (cited, memory) = cited_review (review_key p asked) now l.memory in
      (cited, some (record l { memory = memory }))

  abbrev pub note_review : Asked → Text → ℕ → Option Ledger → Option Ledger
  note_review asked id now none = none
  note_review asked id now (some l) =
      some (record l { memory = remember_review l.limits (review_key p asked) id now l.memory })

  abbrev pub drop_review : Asked → Option Ledger → Option Ledger
  drop_review asked none = none
  drop_review asked (some l) =
      some (record l { memory = forget_review (review_key p asked) l.memory })

  -- The refusal of a decision that is no allow.
  abbrev pub refuse : (outcome id cited : Text) → Answer p
  refuse outcome id cited =
      let review = outcome == codes "review" in
      let reason = if review then codes "decision review" else codes "decision deny" in
      let told = reason ++ codes " (" ++ id ++ codes ")" in
      if is_empty id
      then deny p (said reason) 403 []
      else deny p
          (said (
            if not (is_empty cited) && not review
            then told ++ codes "; review " ++ cited ++ codes " has not released this write"
            else told))
          403 ((codes "decision_id", id) ∷ [])

  -- What `_decide` makes of an answer of the engine.
  unfoldable pub rule :
      Asked → (cited : Text) → (now : ℕ) → Decision → Option Ledger → Ruling × Option Ledger
  rule asked cited now d ledger =
      let id = decision_id_of d.decision_id in
      if nat_beq d.http_status 429
      then (
        refusal
            (deny p (rate_limited (small_number d.limit_per_hour) (small_number d.retry_after)) 429
              [])
            false (some asked),
        ledger,
      )
      else if nat_beq d.http_status 503 || is_empty d.outcome
      then (
        refusal (deny p (said unavailable) (if nat_beq d.http_status 503 then 503 else 403) [])
            d.down (some asked),
        ledger,
      )
      else if not (d.outcome == codes "allow")
      then (
        refusal (refuse d.outcome id cited) false (some asked),
        (if d.outcome == codes "review" && not (is_empty id)
            then note_review asked id now ledger
            else ledger),
      )
      else (
        record { denied = none; decision_id = id; engine_down = false; asked = some asked },
        (if not (is_empty cited) then drop_review asked ledger else ledger),
      )

  -- The question with the review that it cites, if any.
  abbrev pub citing : Text → Asked → Asked
  citing cited asked = record asked { cites = cited }

  -- An engine that cannot be asked refuses.
  abbrev pub answered :
      Asked → (cited : Text) → (now : ℕ) → Option Decision → Option Ledger → Ruling × Option Ledger
  answered asked cited now none ledger =
      (refusal (deny p (said unavailable) 503 []) false (some asked), ledger)
  answered asked cited now (some d) ledger = rule asked cited now d ledger

  unfoldable pub ask : Engine → (now : ℕ) → Asked → Option Ledger → Ruling × Option Ledger
  ask engine now asked ledger =
      let (cited, read) = cited_by asked now ledger in
      answered (citing cited asked) cited now (engine.decide (citing cited asked)) read

  -- Whether the sandbox's policy is to be fetched and the fetch fails.
  unfoldable pub fetch_fails : Engine → Members p → Text → Members p → Bool
  fetch_fails engine request method body =
      let sandbox_id = strip (
        str_or_empty p (
          first_true p (get p (codes "sandbox_id") request)
            (first_true p (get p (codes "sandbox_id") body) (get p (codes "sandbox") body)))) in
      elim engine.fetch_policy [
        | none ↦ false
        | some fetch ↦
            not (is_empty sandbox_id) && method == update_config && not (fetch sandbox_id)
      ]

  abbrev pub memory_of : Option Ledger → Option Memory
  memory_of none = none
  memory_of (some l) = some l.memory

  abbrev pub fetch_refusal : Ruling
  fetch_refusal = refusal (deny p (said (codes "effective policy fetch failed")) 503 []) false none

  -- `_decide`.
  unfoldable pub decide :
      Engine → (now : ℕ) → Members p → Text → Members p → Option Ledger → Ruling × Option Ledger
  decide engine now request method body ledger =
      if fetch_fails engine request method body
      then (fetch_refusal, ledger)
      else ask engine now (decision_request p request method body (memory_of ledger)) ledger
