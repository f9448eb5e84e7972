-- ===== src/BreakGlass/Limits.antt =====
-- How long after its opening a window lets a write through:
-- python/src/artzain/openshell/breakglass.py.
use cognexus_tools.Common.{
  Bool, ℕ, ◌+◌, ◌*◌, ◌≤◌, ◌<◌, ◌≡◌, subst, Option, some, List, Dict, Text, arith,
}
use cognexus_tools.Journal.Entry.{Json}
use cognexus_tools.Journal.Operations.{Config, Journal}
use cognexus_tools.BreakGlass.State.{Window, Turn, max_minutes}
use cognexus_tools.BreakGlass.Operations.{record_write, restart}
use cognexus_tools.BreakGlass.Windows.{IsProper, AllProper}
use cognexus_tools.BreakGlass.Writes.{record_write_stands}
use cognexus_tools.BreakGlass.History.{Call, run, run-restart-AllProper}

module _ (j : Json) (cfg : Config) where
  within :
      (w : Window) (now : ℕ)
      → IsProper w
      → now < w.until_ms
      → now < w.opened_ms + max_minutes * 60000
  within w now p h = omega (arith, h, p.ends, p.at_most)

  -- From any restart and after any history, a write that is allowed stands under the open window,
  -- at a wall-clock time not before its opening and less than 240 minutes after it.
  pub run-record_write_bound :
      (at : Turn) (journal : Journal j) (file : Option Window) (ours unlinks : Bool)
      (cs : List (Call j)) (facts : Dict Text j.Value) (t u : Turn) (id : Text)
      → (record_write j cfg facts t u (run j cfg cs (restart j cfg at journal file ours unlinks))).0
        ≡ some id
      → (w : Window) × ((run j cfg cs (restart j cfg at journal file ours unlinks)).window ≡ some w)
        × (w.opened_ms ≤ t.now_ms)
        × (t.now_ms < w.opened_ms + max_minutes * 60000)
  run-record_write_bound at journal file ours unlinks cs facts t u id q =
      let s = run j cfg cs (restart j cfg at journal file ours unlinks) in
      let c = (record_write_stands j cfg facts t u s id q).0 in
      let proper =
        subst AllProper c.was_open (run-restart-AllProper j cfg at journal file ours unlinks cs) in
      (c.window, c.was_open, c.opened_before, within c.window t.now_ms proper c.not_over)
