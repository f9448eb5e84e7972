-- ===== src/BreakGlass/Tests.antt =====
-- Break-glass at concrete inputs.
use cognexus_tools.Common.{
  Dict, Text, ℕ, ◌+◌, ◌*◌, ◌≤◌, ◌<◌, ◌≡◌, refl, true, none, some, List, [], ◌∷◌, codes, strip,
  is_space, text_key,
}
use cognexus_tools.Journal.Operations.{
  Config, Journal, absent, open_journal, append, append_plain, save,
}
use cognexus_tools.Journal.Sample.{sample, Tree, letters}
use cognexus_tools.BreakGlass.State.{Refused, refused, Window, Turn, State, max_minutes, one_line}
use cognexus_tools.BreakGlass.Operations.{record_write, restart, open_window, expire}
use cognexus_tools.BreakGlass.Windows.{AllProper}
use cognexus_tools.BreakGlass.Writes.{IsCovered, Carries, record_write-IsCovered}
use cognexus_tools.BreakGlass.History.{
  Call, opens, run, step, run-restart-AllProper, open_window_open,
}
use cognexus_tools.BreakGlass.Limits.{run-record_write_bound}

abbrev config : Config
config = record { has_path = true; gateway_id = codes "gw"; max_pending = 10 }

abbrev turn : ℕ → Turn
turn now = record { now_ms = now; monotonic = now; first = true; second = true; saved = true }

abbrev journal : Journal sample
journal = open_journal sample config true absent

abbrev calls : List (Call sample)
calls = opens (codes "w1") 5 (codes "engine is down") (codes "root") (turn 1000) (turn 1001) ∷ []

abbrev state : State sample
state = run sample config calls (restart sample config (turn 900) journal none true true)

abbrev first_window : Window
first_window = record {
  id = codes "w1";
  opened_ms = 1001;
  until_ms = 301001;
  minutes = 5;
  reason = codes "engine is down";
  opened_by = codes "root";
  writes = 0;
}

state-window : state.window ≡ some first_window
unfolding run step open_window expire restart open_journal append append_plain save one_line strip
    is_space
state-window = refl

run-restart-AllProper_example : AllProper state.window
run-restart-AllProper_example =
    run-restart-AllProper sample config (turn 900) journal none true true calls

abbrev facts : Dict Text Tree
facts = (codes "method", letters (codes "DeleteSandbox")) ∷ []

record_write-IsCovered_example :
    (c : IsCovered sample config
      (turn 2000)
      (codes "w1")
      state
      (record_write sample config facts (turn 2000) (turn 2001) state).1)
    × Carries sample config facts (codes "w1") c.body
unfolding run step open_window expire restart open_journal append append_plain save one_line strip
    is_space record_write
record_write-IsCovered_example =
    record_write-IsCovered sample config facts (turn 2000) (turn 2001) state (codes "w1") (refl, tt)
      refl

run-record_write_bound_example :
    (w : Window) × (state.window ≡ some w)
    × (w.opened_ms ≤ 2000)
    × (2000 < w.opened_ms + max_minutes * 60000)
unfolding run step open_window expire restart open_journal append append_plain save one_line strip
    is_space record_write
run-record_write_bound_example =
    run-record_write_bound sample config (turn 900) journal none true true calls [] (turn 2000)
      (turn 2001) (codes "w1") refl

open_window_open_example :
    (why : Refused) × (open_window sample config
        (codes "w2")
        5
        (codes "again")
        []
        (turn 3000)
        (turn 3001)
        state
      ≡ (refused why, state))
unfolding run step open_window expire restart open_journal append append_plain save one_line strip
    is_space
open_window_open_example =
    open_window_open sample config (codes "w2") 5 (codes "again") [] (turn 3000) (turn 3001) state
      first_window refl refl
