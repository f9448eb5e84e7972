-- ===== src/BreakGlass/Proper.antt =====
-- Each operation of python/src/artzain/openshell/breakglass.py leaves a window of a proper length.
use cognexus_tools.Common.{
  Bool, ◌⊎◌, ℕ, suc, ◌≤◌, ◌≡◌, refl, sym, subst, true, ◌&&◌, Option, none, some, Dict, Text, leb,
  is_empty, Bool-cases, Option-cases, inl, inr, arith,
}
use cognexus_tools.Journal.Entry.{Json}
use cognexus_tools.Journal.Operations.{Config, Journal}
use cognexus_tools.BreakGlass.State.{
  Window, Turn, State, Refused, not_enabled, bad_minutes, no_reason, refused, max_minutes,
  max_reason_chars, max_opened_by_chars, one_line, already_open,
}
use cognexus_tools.BreakGlass.Operations.{
  expire, new_window, start_window, open_with, open_window, write_under, write_if_open,
  close_if_open, window_holds, restart, journal_append, kind_open, open_body,
}
use cognexus_tools.BreakGlass.Windows.{
  IsProper, AllProper, expire_cases, save_window-window, end_window-window,
}
use cognexus_tools.BreakGlass.Writes.{write_append, write_if_open_shut, write_if_open_there}

counted-IsProper : (w : Window) → IsProper w → IsProper (record w { writes = suc w.writes })
counted-IsProper w p = record { at_least = p.at_least; at_most = p.at_most; ends = p.ends }

module _ (j : Json) (cfg : Config) where
  pub expire-AllProper :
      (t : Turn) (s : State j) → AllProper s.window → AllProper (expire j cfg t s).window
  expire-AllProper t s p = elim (expire_cases j cfg t s) [
    | inl shut ↦ subst AllProper (sym shut) tt
    | inr (w, there, same, before, over, passed) ↦ subst (λ r. AllProper r.window) (sym same) p
  ]

  window_holds-IsProper : (w : Window) → window_holds w ≡ true → IsProper w
  unfolding window_holds
  window_holds-IsProper w h = record {
    at_least = ground arith;
    at_most = ground arith;
    ends = ground arith;
  }

  start_window-AllProper :
      (w : Window) (t : Turn) (s : State j)
      → IsProper w
      → AllProper s.window
      → AllProper (start_window j cfg w t s).1.window
  start_window-AllProper w t s proper p =
      elim (Option-cases (journal_append j cfg kind_open (open_body j cfg w) t s).0) [
        | inl bad ↦ rw (start_window, bad) p
        | inr (n, good) ↦
            rw (start_window, good) (subst AllProper (sym (save_window-window j cfg t _)) proper)
      ]

  write_under-AllProper :
      (facts : Dict Text j.Value) (t : Turn) (w : Window) (s : State j)
      → IsProper w
      → AllProper s.window
      → AllProper (write_under j cfg facts t w s).1.window
  write_under-AllProper facts t w s proper p =
      elim (Option-cases (write_append j cfg facts t w s).0) [
        | inl bad ↦ rw (write_under, bad) p
        | inr (n, good) ↦
            rw (write_under, good)
              (subst AllProper (sym (save_window-window j cfg t _)) (counted-IsProper w proper))
      ]

  pub write_if_open-AllProper :
      (facts : Dict Text j.Value) (t : Turn) (s : State j)
      → AllProper s.window
      → AllProper (write_if_open j cfg facts t s).1.window
  write_if_open-AllProper facts t s p = elim (Option-cases s.window) [
    | inl shut ↦ subst (λ r. AllProper r.1.window) (sym (write_if_open_shut j cfg facts t s shut)) p
    | inr (w, there) ↦
        subst (λ r. AllProper r.1.window) (sym (write_if_open_there j cfg facts t w s there))
          (write_under-AllProper facts t w s (subst AllProper there p) p)
  ]

  pub close_if_open-AllProper :
      (why : Text) (t : Turn) (s : State j)
      → AllProper s.window
      → AllProper (close_if_open j cfg why t s).1.window
  close_if_open-AllProper why t s p = elim (Option-cases s.window) [
    | inl shut ↦ rw (close_if_open, shut) p
    | inr (w, there) ↦
        rw (close_if_open, there) (subst AllProper (sym (end_window-window j cfg why t w s)) tt)
  ]

  open_with_shut :
      (id : Text) (minutes : ℕ) (reason who : Text) (t : Turn) (s : State j)
      → s.window ≡ none
      → open_with j cfg id minutes reason who t s
        ≡ start_window j cfg (new_window j cfg id minutes reason who t) t s
  open_with_shut id minutes reason who t s q = rw q refl

  pub open_with_open :
      (id : Text) (minutes : ℕ) (reason who : Text) (t : Turn) (w : Window) (s : State j)
      → s.window ≡ some w
      → open_with j cfg id minutes reason who t s ≡ (refused already_open, s)
  open_with_open id minutes reason who t w s q = rw q refl

  open_with-AllProper :
      (id : Text) (minutes : ℕ) (reason who : Text) (t : Turn) (s : State j)
      → 1 ≤ minutes
      → minutes ≤ max_minutes
      → AllProper s.window
      → AllProper (open_with j cfg id minutes reason who t s).1.window
  open_with-AllProper id minutes reason who t s low high p = elim (Option-cases s.window) [
    | inl shut ↦
        subst (λ r. AllProper r.1.window) (sym (open_with_shut id minutes reason who t s shut))
          (start_window-AllProper (new_window j cfg id minutes reason who t) t s
            (record { at_least = low; at_most = high; ends = refl }) p)
    | inr (w, there) ↦
        subst (λ r. AllProper r.1.window) (sym (open_with_open id minutes reason who t w s there)) p
  ]

  -- `open` either refuses and changes nothing, or goes on with minutes in their range.
  pub open_window_cases :
      (id : Text) (minutes : ℕ) (reason who : Text) (t u : Turn) (s : State j)
      → ((why : Refused) × (open_window j cfg id minutes reason who t u s ≡ (refused why, s)))
        ⊎ ((1 ≤ minutes)
            × (minutes ≤ max_minutes)
            × (open_window j cfg id minutes reason who t u s
                ≡ open_with j cfg id minutes
                    (one_line max_reason_chars reason)
                    (one_line max_opened_by_chars who)
                    u
                    (expire j cfg t s)))
  unfolding open_window
  open_window_cases id minutes reason who t u s = elim (Bool-cases cfg.has_path) [
    | inr no_path ↦ inl (not_enabled, rw no_path refl)
    | inl path ↦ elim (Bool-cases (leb 1 minutes && leb minutes max_minutes)) [
      | inr bad ↦ inl (bad_minutes, ground arith)
      | inl good ↦ elim (Bool-cases (is_empty (one_line max_reason_chars reason))) [
        | inl bare ↦ inl (no_reason, ground arith)
        | inr told ↦ inr (ground arith, ground arith, ground arith)
      ]
    ]
  ]

  pub open_window-AllProper :
      (id : Text) (minutes : ℕ) (reason who : Text) (t u : Turn) (s : State j)
      → AllProper s.window
      → AllProper (open_window j cfg id minutes reason who t u s).1.window
  open_window-AllProper id minutes reason who t u s p =
      elim (open_window_cases id minutes reason who t u s) [
        | inl (why, same) ↦ subst (λ r. AllProper r.1.window) (sym same) p
        | inr (low, high, e) ↦
            subst (λ r. AllProper r.1.window) (sym e)
              (open_with-AllProper id minutes (one_line max_reason_chars reason)
                (one_line max_opened_by_chars who) u (expire j cfg t s) low high
                (expire-AllProper t s p))
      ]

  pub restart-AllProper :
      (t : Turn) (journal : Journal j) (file : Option Window) (ours unlinks : Bool)
      → AllProper (restart j cfg t journal file ours unlinks).window
  unfolding restart
  restart-AllProper t journal none ours unlinks = elim (Bool-cases cfg.has_path) [
    | inl path ↦ rw path tt
    | inr no_path ↦ rw no_path tt
  ]
  restart-AllProper t journal (some w) ours unlinks = elim (Bool-cases cfg.has_path) [
    | inr no_path ↦ rw no_path tt
    | inl path ↦ elim (Bool-cases (ours && window_holds w)) [
      | inl good ↦ rw (path, good) (window_holds-IsProper w (ground (arith, good)))
      | inr bad ↦ elim (Bool-cases unlinks) [
        | inl gone ↦ rw (path, bad, gone) tt
        | inr kept ↦ rw (path, bad, kept) tt
      ]
    ]
  ]
