-- ===== src/BreakGlass/Windows.antt =====
-- Which windows there are, and what a write under one takes:
-- python/src/artzain/openshell/breakglass.py.
use cognexus_tools.Common.{
  ◌⊎◌, ◌+◌, ◌*◌, ◌≤◌, ◌<◌, ◌≡◌, refl, ap, ◌∙◌, false, Option, none, some, Text, ltb, Bool-cases,
  Option-cases, inl, inr, arith,
}
use cognexus_tools.Journal.Entry.{Json}
use cognexus_tools.Journal.Operations.{Config}
use cognexus_tools.BreakGlass.State.{Window, Turn, State, max_minutes}
use cognexus_tools.BreakGlass.Operations.{
  save_window, end_window, expire_window, expire, time_is_up, deadline_passed,
}

-- A window of 1 to 240 minutes, which ends that many minutes after it was opened.
pub record IsProper (w : Window) : Type 0 where
  pub at_least : 1 ≤ w.minutes
  pub at_most : w.minutes ≤ max_minutes
  pub ends : w.until_ms ≡ w.opened_ms + w.minutes * 60000

abbrev pub AllProper : Option Window → Type 0
AllProper none = Unit
AllProper (some w) = IsProper w

module _ (j : Json) (cfg : Config) where
  pub save_window-window : (t : Turn) (s : State j) → (save_window j cfg t s).window ≡ s.window
  save_window-window t s = ground arith

  pub save_window-journal : (t : Turn) (s : State j) → (save_window j cfg t s).journal ≡ s.journal
  save_window-journal t s = ground arith

  pub end_window-window :
      (why : Text) (t : Turn) (w : Window) (s : State j)
      → (end_window j cfg why t w s).window ≡ none
  unfolding end_window
  end_window-window why t w s = save_window-window t _

  expire_shut : (t : Turn) (s : State j) → s.window ≡ none → expire j cfg t s ≡ s
  unfolding expire
  expire_shut t s shut = rw shut refl

  expire_open :
      (t : Turn) (w : Window) (s : State j)
      → s.window ≡ some w
      → expire j cfg t s ≡ expire_window j cfg t w s
  unfolding expire
  expire_open t w s there = rw there refl

  -- After `_expire` the window is the one that was open, whose time is not up, or there is none.
  pub expire_cases :
      (t : Turn) (s : State j)
      → ((expire j cfg t s).window ≡ none)
        ⊎ ((w : Window) × (s.window ≡ some w)
            × (expire j cfg t s ≡ s)
            × (w.opened_ms ≤ t.now_ms)
            × (t.now_ms < w.until_ms)
            × (deadline_passed j cfg t s.deadline ≡ false))
  expire_cases t s = elim (Option-cases s.window) [
    | inl shut ↦ inl (ap (λ r. r.window) (expire_shut t s shut) ∙ shut)
    | inr (w, there) ↦ elim (Bool-cases (ltb t.now_ms w.opened_ms)) [
      | inl early ↦
          inl (ap (λ r. r.window) (expire_open t w s there) ∙ rw early (end_window-window _ t w s))
      | inr on_time ↦ elim (Bool-cases (time_is_up j cfg t w s.deadline)) [
        | inl up ↦ inl (
            ap (λ r. r.window) (expire_open t w s there)
            ∙ rw (on_time, up) (end_window-window _ t w s))
        | inr left ↦ inr (
          w,
          there,
          expire_open t w s there ∙ rw (on_time, left) refl,
          ground arith,
          ground arith,
          ground arith,
        )
      ]
    ]
  ]
