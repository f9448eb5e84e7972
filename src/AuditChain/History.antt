-- ===== src/AuditChain/History.antt =====
-- A chain over its life: appends, failed writes, restarts and lost sidecar files.
use cognexus_tools.Common.{
  length, leb, ℕ, suc, ◌+◌, ◌≡◌, refl, sym, subst, ap, ◌∙◌, Bool, true, false, Option, none, some,
  List, [], ◌∷◌, ◌++◌, Text, strip, is_empty, arith, All, Bool-cases, Option-cases, inl, inr,
}
use mathlib.Core.List.{append-nil}
use cognexus_tools.AuditChain.Entry.{Record, genesis, Codec}
use cognexus_tools.AuditChain.Verify.{
  check_line, Progress, going, done, returned, intact, check_lines, verify_chain, conclude,
}
use cognexus_tools.AuditChain.Line.{Continues-check_line}
use cognexus_tools.AuditChain.Intact.{check_lines-done}
use cognexus_tools.AuditChain.Append.{
  Chain, Write, landed, cut, file_of, file_lines, put, scan, rebuild, load_state, current, sealed,
  append, restart,
}
use cognexus_tools.AuditChain.RoundTrip.{IsChainable, sealed-Continues}

-- What happens to a chain whose sidecar can be written: an append, whose write to the log may fail, a
-- new process, and a sidecar file that is lost or unreadable.
pub data Event : Type 0 where
  appends : Record → Write → Event
  restarts : Event
  loses_sidecar : Event

module _ (c : Codec) (key : Text) where
  unfoldable pub step : Event → Chain → Chain
  step (appends r write) h = (append c key r write true h).1
  step restarts h = restart c h
  step loses_sidecar h = record h { sidecar = none; state = none }

  unfoldable pub run : List Event → Chain → Chain
  run [] h = h
  run (e ∷ es) h = run es (step e h)

  -- How many entries the events write.
  abbrev pub written : List Event → ℕ
  written [] = 0
  written (appends r landed ∷ es) = suc (written es)
  written (_ ∷ es) = written es

  -- Every record is one that can be chained, once it is cleaned, and a write that fails leaves nothing
  -- in the file.
  abbrev pub Appendable : Event → Type 0
  Appendable (appends r landed) = IsChainable (c.clean r)
  Appendable (appends r (cut n)) = n ≡ 0
  Appendable restarts = Unit {0}
  Appendable loses_sidecar = Unit {0}

  -- The loop of `verify_chain` over the log ends where the chain's state is, by whichever way the
  -- state is found.
  pub record IsSound (h : Chain) : Type 0 where
    pub ended : h.tail ≡ []
    pub seen : Bool
    pub reached :
        check_lines c key (file_lines h) (going genesis 0 false)
        ≡ going (current c h).tip_hash (current c h).seq seen
    pub loaded : load_state c h.sidecar (file_lines h) ≡ current c h
    pub rebuilt : rebuild c (file_lines h) ≡ current c h

  -- What a line is added to when the file ends with a newline.
  pub put_ended :
      (line : Text) (h : Chain) → h.tail ≡ [] → (put landed line h).log ≡ file_lines h ++ line ∷ []
  put_ended line h ended =
      subst (λ t. h.log ++ (t ++ line) ∷ [] ≡ file_of h.log t ++ line ∷ []) (sym ended) refl

  pub check_lines-append :
      (xs ys : List Text) (r : Progress)
      → check_lines c key (xs ++ ys) r ≡ check_lines c key ys (check_lines c key xs r)
  unfolding check_lines
  check_lines-append xs ys (done o) = sym (check_lines-done c key ys o)
  check_lines-append [] ys (going p n s) = refl
  check_lines-append (x ∷ xs) ys (going p n s) = check_lines-append xs ys (check_line c key x p n s)

  scan-append :
      (xs : List Text) (line : Text) (last : Option Text) (seq : ℕ)
      → is_empty (strip line) ≡ false
      → scan c (xs ++ line ∷ []) last seq ≡ (some (strip line), suc (scan c xs last seq).1)
  unfolding scan
  scan-append [] line last seq h = rw h
  scan-append (x ∷ xs) line last seq h = scan-append xs line _ _ h

  check_lines-nil : (r : Progress) → check_lines c key [] r ≡ r
  unfolding check_lines
  check_lines-nil (done o) = refl
  check_lines-nil (going p n s) = refl

  pub check_lines-snoc :
      (log : List Text) (line : Text) (start r : Progress) {p : Text} {n : ℕ} {s : Bool}
      → check_lines c key log start ≡ going p n s
      → check_line c key line p n s ≡ r
      → check_lines c key (log ++ line ∷ []) start ≡ r
  unfolding check_lines
  check_lines-snoc log line start r e f =
      check_lines-append log (line ∷ []) start
      ∙ ap (check_lines c key (line ∷ [])) e
      ∙ ap (check_lines c key []) f
      ∙ check_lines-nil r

  scan-none :
      (xs : List Text) (last : Option Text) (seq : ℕ)
      → (scan c xs last seq).0 ≡ none
      → (last ≡ none) × ((scan c xs last seq).1 ≡ seq)
  unfolding scan
  scan-none [] last seq h = (h, refl)
  scan-none (x ∷ xs) last seq h = elim (Bool-cases (is_empty (strip x))) [
    | inl e ↦ ground (arith, h, e, scan-none xs last seq)
    | inr e ↦ ground (arith, h, e, scan-none xs (some (strip x)) (suc seq))
  ]

  -- The number that a rebuilt state has is the number of lines that are not blank.
  rebuild-seq : (log : List Text) → (rebuild c log).seq ≡ (scan c log none 0).1
  rebuild-seq log = elim (Option-cases (scan c log none 0).0) [
    | inl e ↦ ground (arith, e, scan-none log none 0 e)
    | inr (line, e) ↦ ground (arith, e)
  ]

  append-IsSound :
      (r : Record) (h : Chain)
      → IsChainable (c.clean r)
      → IsSound h
      → IsSound (append c key r landed true h).1
  unfolding append
  append-IsSound r h ok v =
      let s = current c h in
      let line = c.dumps (sealed c key (c.clean r) s) in
      let stripped = c.strip-dumps (sealed c key (c.clean r) s) in
      let solid = ap is_empty stripped ∙ c.dumps_solid (sealed c key (c.clean r) s) in
      let passes =
        Continues-check_line c key line s.tip_hash s.seq v.seen
          (sealed-Continues c key (c.clean r) s ok) in
      let same = put_ended line h v.ended in
      record {
        ended = refl;
        seen = true;
        reached =
            ap (λ l. check_lines c key l (going genesis 0 false)) same
            ∙ check_lines-snoc (file_lines h) line (going genesis 0 false) _ v.reached passes;
        loaded = refl;
        rebuilt =
            rw
              (
                same,
                scan-append (file_lines h) line none 0 solid,
                stripped,
                ← rebuild-seq (file_lines h),
                v.rebuilt,
              )
              refl;
      }

  put_nothing : (line : Text) (h : Chain) → put (cut 0) line h ≡ h
  put_nothing line h =
      let small : leb 0 (length line) ≡ true = ground arith in
      rw small (ap (λ (t : Text). record h { tail = t }) (append-nil h.tail))

  -- A failed write that leaves nothing leaves the log, and the state that it was based on.
  failed-IsSound : (r : Record) (h : Chain) → IsSound h → IsSound (append c key r (cut 0) true h).1
  unfolding append
  failed-IsSound r h v =
      let line = c.dumps (sealed c key (c.clean r) (current c h)) in
      subst (λ x. IsSound (record x { state = some (current c h) })) (sym (put_nothing line h))
        (record {
          ended = v.ended;
          seen = v.seen;
          reached = v.reached;
          loaded = v.loaded;
          rebuilt = v.rebuilt;
        })

  pub step-IsSound : (e : Event) (h : Chain) → Appendable e → IsSound h → IsSound (step e h)
  unfolding step restart
  step-IsSound (appends r landed) h ok v = append-IsSound r h ok v
  step-IsSound (appends r (cut n)) h ok v =
      subst (λ m. IsSound (append c key r (cut m) true h).1) (sym ok) (failed-IsSound r h v)
  step-IsSound restarts h ok v = record {
    ended = v.ended;
    seen = v.seen;
    reached = rw v.loaded v.reached;
    loaded = refl;
    rebuilt = rw v.loaded v.rebuilt;
  }
  step-IsSound loses_sidecar h ok v = record {
    ended = v.ended;
    seen = v.seen;
    reached = rw v.rebuilt v.reached;
    loaded = refl;
    rebuilt = refl;
  }

  step-seq :
      (e : Event) (h : Chain)
      → IsSound h
      → (current c (step e h)).seq ≡ (current c h).seq + written (e ∷ [])
  unfolding step restart append
  step-seq (appends r landed) h v = omega arith
  step-seq (appends r (cut n)) h v = omega arith
  step-seq restarts h v = rw v.loaded (omega arith)
  step-seq loses_sidecar h v = rw v.rebuilt (omega arith)

  written-cons : (e : Event) (es : List Event) → written (e ∷ es) ≡ written (e ∷ []) + written es
  written-cons (appends r landed) es = omega arith
  written-cons (appends r (cut n)) es = omega arith
  written-cons restarts es = omega arith
  written-cons loses_sidecar es = omega arith

  run-IsSound :
      (es : List Event) (h : Chain)
      → All Appendable es
      → IsSound h
      → IsSound (run es h) × ((current c (run es h)).seq ≡ (current c h).seq + written es)
  unfolding run
  run-IsSound [] h ok v = (v, omega arith)
  run-IsSound (e ∷ es) h ok v =
      let (sound, grown) = run-IsSound es (step e h) ok.1 (step-IsSound e h ok.0 v) in
      (sound, omega (arith, grown, step-seq e h v, written-cons e es))

  abbrev pub empty : Chain
  empty = record { log = []; tail = []; sidecar = none; state = none }

  pub empty-IsSound : IsSound empty
  unfolding check_lines scan
  empty-IsSound = record {
    ended = refl;
    seen = false;
    reached = refl;
    loaded = refl;
    rebuilt = refl;
  }

  -- A log that a chain wrote from the start with one key, over any appends, failed writes, restarts
  -- and lost sidecar files, verifies with that key, with as many entries as were written, so long as
  -- no record has a field `entry_hash` or `sig` of its own, a write that fails leaves nothing in the
  -- file and every save of the sidecar succeeds.
  pub run-verify_chain :
      (es : List Event)
      → All Appendable es
      → verify_chain c key (some (file_lines (run es empty))) ≡ returned (intact (written es))
  unfolding verify_chain scan
  run-verify_chain es ok =
      let (v, grown) = run-IsSound es empty ok empty-IsSound in
      ap (conclude c key) v.reached ∙ ap (λ (n : ℕ). returned (intact n)) (grown ∙ omega arith)
