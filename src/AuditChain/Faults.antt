-- ===== src/AuditChain/Faults.antt =====
-- Three ways for the chain to fail: a sidecar file that is behind, a line that a failed flush left, and
-- a line that is no object.
use cognexus_tools.Common.{
  ℕ, suc, ◌≡◌, ap, ◌∙◌, Bool, true, false, Option, some, List, [], ◌∷◌, ◌++◌, Text, strip, is_empty,
  pos, arith, length, ◌<◌, leb, refl,
}
use cognexus_tools.AuditChain.Entry.{Value, Record, other, genesis, Codec}
use cognexus_tools.AuditChain.Verify.{
  going, done, returned, raised, attribute_error, broken, sequence_gap, check_line, check_entry,
  check_chained, check_lines, verify_chain, conclude,
}
use cognexus_tools.AuditChain.Line.{Continues, Continues-check_line}
use cognexus_tools.AuditChain.Append.{
  ChainState, Chain, landed, cut, write_error, file_lines, load_state, current, sealed, append,
  restart,
}
use cognexus_tools.AuditChain.RoundTrip.{IsChainable, sealed-Continues}
use cognexus_tools.AuditChain.Intact.{check_lines-done}
use cognexus_tools.AuditChain.History.{IsSound, check_lines-append, check_lines-snoc, put_ended}

module _ (c : Codec) (key : Text) where
  -- A line whose number the last line has already is a gap.
  repeated_number :
      (prev tip line : Text) (seq : ℕ) (seen : Bool)
      → Continues c key prev seq line
      → check_line c key line tip (suc seq) seen
        ≡ done (
            returned
              (broken (suc seq) (pos (suc seq)) (sequence_gap (suc (suc seq)) (pos (suc seq)))))
  unfolding check_line check_entry check_chained
  repeated_number prev tip line seq seen h =
      rw (h.solid, h.parsed) (ground (arith, h.numbered, h.counted))

  -- Two entries made from one state, one after the other in the log.
  same_state_twice :
      (log : List Text) (s : ChainState) (r1 r2 : Record) (seen : Bool)
      → check_lines c key log (going genesis 0 false) ≡ going s.tip_hash s.seq seen
      → IsChainable r1
      → IsChainable r2
      → (s2 : ChainState) → s2 ≡ s
      → let n = s.seq in
        check_lines c key
          ((log ++ c.dumps (sealed c key r1 s) ∷ []) ++ c.dumps (sealed c key r2 s2) ∷ [])
          (going genesis 0 false)
        ≡ done (returned (broken (suc n) (pos (suc n)) (sequence_gap (suc (suc n)) (pos (suc n)))))
  same_state_twice log s r1 r2 seen reached ok1 ok2 s2 e =
      let line1 = c.dumps (sealed c key r1 s) in
      let passes =
        Continues-check_line c key line1 s.tip_hash s.seq seen (sealed-Continues c key r1 s ok1) in
      let before = check_lines-snoc c key log line1 (going genesis 0 false) _ reached passes in
      rw e (
        check_lines-snoc c key (log ++ line1 ∷ []) (c.dumps (sealed c key r2 s))
          (going genesis 0 false) _ before
          (repeated_number s.tip_hash (c.sha256 line1) (c.dumps (sealed c key r2 s)) s.seq true
            (sealed-Continues c key r2 s ok2)))

  -- One save of the sidecar that fails, then a restart, and the log is broken for good: the next
  -- process goes on from the older state that the file holds, gives its first entry the number of
  -- the entry that is there, and `verify_chain` reports a sequence gap at that number. The log up
  -- to the failed save was sound, and every append succeeded.
  pub stale_sidecar_breaks :
      (h : Chain) (r1 r2 : Record)
      → IsSound c key h
      → h.sidecar ≡ some (current c h)
      → IsChainable (c.clean r1)
      → IsChainable (c.clean r2)
      → let n = (current c h).seq in
        let h1 = (append c key r1 landed false h).1 in
        let h2 = (append c key r2 landed true (restart c h1)).1 in
        verify_chain c key (some (file_lines h2))
        ≡ returned (broken (suc n) (pos (suc n)) (sequence_gap (suc (suc n)) (pos (suc n))))
  unfolding verify_chain append restart
  stale_sidecar_breaks h r1 r2 v saved ok1 ok2 =
      let s = current c h in
      let line1 = c.dumps (sealed c key (c.clean r1) s) in
      rw (put_ended c key line1 h v.ended) (
        ap (conclude c key) (
          same_state_twice (file_lines h) s (c.clean r1) (c.clean r2) v.seen v.reached ok1 ok2 _
            (ap (λ (o : Option ChainState). load_state c o (file_lines h ++ line1 ∷ [])) saved)))

  -- A flush that fails after the whole line reached the file, then another append, and the log is
  -- broken for good: the failed call left its line with its newline and did not move the state on, so
  -- the next entry takes its number again, and `verify_chain` reports a sequence gap at that number.
  -- The log was sound before, and neither record has a field `entry_hash` or `sig` of its own.
  pub failed_flush_breaks :
      (h : Chain) (r1 r2 : Record) (n : ℕ) (saves : Bool)
      → IsSound c key h
      → IsChainable (c.clean r1)
      → IsChainable (c.clean r2)
      → length (c.dumps (sealed c key (c.clean r1) (current c h))) < n
      → let k = (current c h).seq in
        let (told, h1) = append c key r1 (cut n) saves h in
        let h2 = (append c key r2 landed true h1).1 in
        (told ≡ write_error)
        × (verify_chain c key (some (file_lines h2))
            ≡ returned (broken (suc k) (pos (suc k)) (sequence_gap (suc (suc k)) (pos (suc k)))))
  unfolding verify_chain append
  failed_flush_breaks h r1 r2 n saves v ok1 ok2 long =
      let s = current c h in
      let line1 = c.dumps (sealed c key (c.clean r1) s) in
      let over : leb n (length line1) ≡ false = ground (arith, long) in
      (
        refl,
        rw (over, put_ended c key line1 h v.ended)
            (ap (conclude c key) (
              same_state_twice (file_lines h) s (c.clean r1) (c.clean r2) v.seen v.reached ok1 ok2 s
                refl)),
      )

  -- A line that is not blank and holds a JSON value which is no object makes `verify_chain` raise
  -- instead of answering, wherever the log was in order before it, whatever follows.
  pub verify_chain-raises :
      (log rest : List Text) (line : Text) (v : Value) {p : Text} {n : ℕ} {s : Bool}
      → check_lines c key log (going genesis 0 false) ≡ going p n s
      → is_empty (strip line) ≡ false
      → c.loads line ≡ some (other v)
      → verify_chain c key (some (log ++ line ∷ rest)) ≡ raised attribute_error
  unfolding verify_chain check_line check_lines
  verify_chain-raises log rest line v {p} {n} {s} before visible parsed =
      let stop : check_lines c key (line ∷ rest) (going p n s) ≡ done (raised attribute_error) =
        ground (arith, visible, parsed, check_lines-done c key rest (raised attribute_error)) in
      ap (conclude c key) (
        check_lines-append c key log (line ∷ rest) (going genesis 0 false)
        ∙ ap (check_lines c key (line ∷ rest)) before
        ∙ stop)
