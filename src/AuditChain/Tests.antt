-- ===== src/AuditChain/Tests.antt =====
-- The theorems of the audit chain at concrete inputs.
use cognexus_tools.Common.{
  ◌⊎◌, ◌≡◌, refl, true, false, some, List, [], ◌∷◌, Text, codes, strip, is_space, pos, ◌↔◌,
  text_key, list_beq, ℕ, suc, length, arith,
}
use cognexus_tools.AuditChain.Entry.{str, nested, Record, genesis}
use cognexus_tools.AuditChain.Verify.{
  returned, raised, intact, broken, attribute_error, sequence_gap, verify_chain, check_lines,
}
use cognexus_tools.AuditChain.Line.{Continues, Continues-not-IsLegacy}
use cognexus_tools.AuditChain.Append.{
  Chain, current, landed, cut, write_error, file_lines, ChainState, fresh, sealed, append, restart,
  scan,
}
use cognexus_tools.AuditChain.RoundTrip.{IsChainable, sealed-Continues}
use cognexus_tools.AuditChain.Intact.{IsIntact, verify_chain_iff}
use cognexus_tools.AuditChain.History.{
  Event, appends, restarts, loses_sidecar, IsSound, run, empty, run-verify_chain, step-IsSound,
  empty-IsSound, step,
}
use cognexus_tools.AuditChain.Faults.{
  failed_flush_breaks, stale_sidecar_breaks, verify_chain-raises,
}
use cognexus_tools.AuditChain.Binding.{verify_chain-binds, IsDense, Collision}
use cognexus_tools.AuditChain.Sample.{sample, dumps, loads}

abbrev key : Text
key = codes "k"

abbrev decision : Record
decision = (codes "outcome", str (codes "deny")) ∷ []

decision-IsChainable : IsChainable decision
unfolding list_beq
decision-IsChainable = record { distinct = (refl, tt); no_hash = refl; no_sig = refl }

abbrev life : List Event
life =
    appends decision landed
    ∷ appends decision (cut 0)
    ∷ restarts
    ∷ appends decision landed
    ∷ loses_sidecar
    ∷ appends decision landed
    ∷ []

run-verify_chain_example :
    verify_chain sample key (some (file_lines (run sample key life (empty sample key))))
    ≡ returned (intact 3)
run-verify_chain_example =
    let ok = decision-IsChainable in
    run-verify_chain sample key life (ok, (refl, (tt, (ok, (tt, (ok, tt))))))

-- A chain with one entry, its sidecar in step.
abbrev started : Chain
started = step sample key (appends decision landed) (empty sample key)

started-IsSound : IsSound sample key started
started-IsSound =
    step-IsSound sample key (appends decision landed) (empty sample key) decision-IsChainable
      (empty-IsSound sample key)

stale_sidecar_breaks_example :
    let h1 = (append sample key decision landed false started).1 in
    let h2 = (append sample key decision landed true (restart sample h1)).1 in
    verify_chain sample key (some (file_lines h2))
    ≡ returned (broken 2 (pos 2) (sequence_gap 3 (pos 2)))
unfolding step append scan
stale_sidecar_breaks_example =
    stale_sidecar_breaks sample key started decision decision started-IsSound refl
      decision-IsChainable decision-IsChainable

-- The characters of the second line, and its newline.
abbrev flushed : ℕ
flushed = suc (length (dumps (sealed sample key decision (current sample started))))

failed_flush_breaks_example :
    let (told, h1) = append sample key decision (cut flushed) true started in
    let h2 = (append sample key decision landed true h1).1 in
    (told ≡ write_error)
    × (verify_chain sample key (some (file_lines h2))
        ≡ returned (broken 2 (pos 2) (sequence_gap 3 (pos 2))))
unfolding step append scan
failed_flush_breaks_example =
    failed_flush_breaks sample key started decision decision flushed true started-IsSound
      decision-IsChainable decision-IsChainable (omega arith)

verify_chain-raises_example :
    verify_chain sample key (some ((codes "[") ∷ started.log)) ≡ raised attribute_error
unfolding check_lines strip is_space loads
verify_chain-raises_example =
    verify_chain-raises sample key [] started.log (codes "[") (nested (codes "[") true) refl refl
      refl

verify_chain_iff_example :
    (verify_chain sample key (some started.log) ≡ returned (intact 1))
    ↔ IsIntact sample key genesis 0 false started.log 1
verify_chain_iff_example = verify_chain_iff sample key started.log 1

first_line-Continues : Continues sample key genesis 0 (dumps (sealed sample key decision fresh))
first_line-Continues = sealed-Continues sample key decision fresh decision-IsChainable

-- The state after the first entry, and a log of two.
abbrev second : ChainState
second = record { seq = 1; tip_hash = sample.sha256 (dumps (sealed sample key decision fresh)) }

second_line-Continues :
    Continues sample key second.tip_hash 1 (dumps (sealed sample key decision second))
second_line-Continues = sealed-Continues sample key decision second decision-IsChainable

abbrev longer : List Text
longer =
    (run sample key (appends decision landed ∷ appends decision landed ∷ []) (empty sample key)).log

longer-IsDense : IsDense sample longer
unfolding run step append scan
longer-IsDense = (
  (first_line-Continues.solid, Continues-not-IsLegacy sample key first_line-Continues),
  ((second_line-Continues.solid, Continues-not-IsLegacy sample key second_line-Continues), tt),
)

longer-verifies : verify_chain sample key (some longer) ≡ returned (intact 2)
unfolding run step append
longer-verifies =
    run-verify_chain sample key (appends decision landed ∷ appends decision landed ∷ [])
      (decision-IsChainable, (decision-IsChainable, tt))

verify_chain-binds_example : (longer ≡ longer) ⊎ Collision sample key
unfolding run step append scan
verify_chain-binds_example =
    verify_chain-binds sample key longer longer 2 2 (dumps (sealed sample key decision second))
      longer-IsDense longer-IsDense longer-verifies longer-verifies refl refl
