-- ===== src/BreakGlass/History.antt =====
-- A history of calls of `BreakGlass`, python/src/artzain/openshell/breakglass.py, from a restart on.
use cognexus_tools.Common.{
  Bool, none-some_absurd, ℕ, ◌≡◌, sym, ap, ◌∙◌, Option, some, List, [], ◌∷◌, Dict, Text, inl, inr,
}
use cognexus_tools.Journal.Entry.{Json}
use cognexus_tools.Journal.Operations.{Config, Journal}
use cognexus_tools.BreakGlass.State.{
  Window, Turn, State, Refused, already_open, refused, max_reason_chars, max_opened_by_chars,
  one_line,
}
use cognexus_tools.BreakGlass.Operations.{
  expire, current_window, open_window, close_window, record_write, restart,
}
use cognexus_tools.BreakGlass.Windows.{AllProper, expire_cases}
use cognexus_tools.BreakGlass.Proper.{
  expire-AllProper, close_if_open-AllProper, write_if_open-AllProper, open_window-AllProper,
  restart-AllProper, open_window_cases, open_with_open,
}

pub data Call (j : Json) : Type 0 where
  looks : Turn → Call j
  opens : (id : Text) (minutes : ℕ) (reason opened_by : Text) (t u : Turn) → Call j
  closes : (why : Text) (t u : Turn) → Call j
  writes_under : (facts : Dict Text j.Value) (t u : Turn) → Call j

module _ (j : Json) (cfg : Config) where
  unfoldable pub step : Call j → State j → State j
  step (looks t) s = (current_window j cfg t s).1
  step (opens id minutes reason opened_by t u) s =
      (open_window j cfg id minutes reason opened_by t u s).1
  step (closes why t u) s = (close_window j cfg why t u s).1
  step (writes_under facts t u) s = (record_write j cfg facts t u s).1

  unfoldable pub run : List (Call j) → State j → State j
  run [] s = s
  run (c ∷ cs) s = run cs (step c s)

  step-AllProper : (c : Call j) (s : State j) → AllProper s.window → AllProper (step c s).window
  unfolding step current_window close_window record_write
  step-AllProper (looks t) s p = (expire-AllProper j cfg) t s p
  step-AllProper (opens id minutes reason who t u) s p =
      (open_window-AllProper j cfg) id minutes reason who t u s p
  step-AllProper (closes why t u) s p =
      (close_if_open-AllProper j cfg) why u (expire j cfg t s) ((expire-AllProper j cfg) t s p)
  step-AllProper (writes_under facts t u) s p =
      (write_if_open-AllProper j cfg) facts u (expire j cfg t s) ((expire-AllProper j cfg) t s p)

  run-AllProper :
      (cs : List (Call j)) (s : State j) → AllProper s.window → AllProper (run cs s).window
  unfolding run
  run-AllProper [] s p = p
  run-AllProper (c ∷ cs) s p = run-AllProper cs (step c s) (step-AllProper c s p)

  -- Whatever window file a restart reads, and after any history, the open window has 1 to 240
  -- minutes and ends that long after it was opened.
  pub run-restart-AllProper :
      (t : Turn) (journal : Journal j) (file : Option Window) (ours unlinks : Bool)
      (cs : List (Call j))
      → AllProper (run cs (restart j cfg t journal file ours unlinks)).window
  run-restart-AllProper t journal file ours unlinks cs =
      run-AllProper cs (restart j cfg t journal file ours unlinks)
        ((restart-AllProper j cfg) t journal file ours unlinks)

  -- While a window is open and its time is not up, no other opens: the call is refused, and the
  -- window, the journal and the file stay as they are.
  pub open_window_open :
      (id : Text) (minutes : ℕ) (reason who : Text) (t u : Turn) (s : State j) (w : Window)
      → s.window ≡ some w
      → (expire j cfg t s).window ≡ some w
      → (why : Refused) × (open_window j cfg id minutes reason who t u s ≡ (refused why, s))
  open_window_open id minutes reason who t u s w there still = elim (expire_cases j cfg t s) [
    | inl shut ↦ none-some_absurd w (sym shut ∙ still)
    | inr (v, open_then, same, before, over, passed) ↦
        elim ((open_window_cases j cfg) id minutes reason who t u s) [
          | inl kept ↦ kept
          | inr (low, high, e) ↦ (
            already_open,
            e
                ∙ (open_with_open j cfg) id minutes (one_line max_reason_chars reason)
                    (one_line max_opened_by_chars who) u w (expire j cfg t s) still
                ∙ ap (λ x. (refused already_open, x)) same,
          )
        ]
  ]
