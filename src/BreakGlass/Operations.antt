-- ===== src/BreakGlass/Operations.antt =====
-- The operations of `BreakGlass`, python/src/artzain/openshell/breakglass.py, each under its lock.
use cognexus_tools.Common.{
  ℕ, suc, ◌+◌, ◌-◌, ◌*◌, Bool, true, false, not, ◌&&◌, ◌||◌, Option, none, some, [], ◌∷◌, Dict,
  insert, Text, text_key, codes, length, nat_beq, leb, ltb, is_empty, if◌then◌else◌,
}
use cognexus_tools.Journal.Entry.{Json}
use cognexus_tools.Journal.Operations.{Config, Journal, append}
use cognexus_tools.BreakGlass.State.{
  Window, Turn, State, not_enabled, bad_minutes, no_reason, already_open, not_journaled, Opened,
  opened, refused, max_minutes, max_reason_chars, max_opened_by_chars, one_line,
}

abbrev pub kind_open : Text
kind_open = codes "breakglass_open"

abbrev pub kind_write : Text
kind_write = codes "breakglass_write"

abbrev pub kind_close : Text
kind_close = codes "breakglass_close"

abbrev pub k_window : Text
k_window = codes "window"

-- `{**d, **facts}`.
abbrev pub updated : {V : Type 0} → Dict Text V → Dict Text V → Dict Text V
updated d [] = d
updated d ((k, v) ∷ facts) = updated (insert k v d) facts

-- `_holds`, of a window whose fields are of their kinds.
unfoldable pub window_holds : Window → Bool
window_holds w =
    nat_beq (length w.id) 32
    && leb 1 w.minutes
    && leb w.minutes max_minutes
    && nat_beq w.until_ms (w.opened_ms + w.minutes * 60000)
    && not (is_empty (one_line max_reason_chars w.reason))

module _ (j : Json) (cfg : Config) where
  open j use {Value, text, count}

  abbrev pub open_body : Window → Dict Text Value
  open_body w =
      (k_window, text w.id)
      ∷ (codes "minutes", count w.minutes)
      ∷ (codes "until_ms", count w.until_ms)
      ∷ (codes "reason", text w.reason)
      ∷ (codes "opened_by", text w.opened_by)
      ∷ []

  abbrev pub close_body : Window → Text → Dict Text Value
  close_body w why =
      (k_window, text w.id) ∷ (codes "closed", text why) ∷ (codes "writes", count w.writes) ∷ []

  -- A durable append to the journal.
  abbrev pub journal_append : Text → Dict Text Value → Turn → State j → Option ℕ × Journal j
  journal_append kind body t s = append j cfg kind body true t.now_ms t.first t.second s.journal

  -- `_save_window`.
  abbrev pub save_window : Turn → State j → State j
  save_window t s = if cfg.has_path && t.saved then record s { window_file = s.window } else s

  -- `_end`, of the open window.
  unfoldable pub end_window : Text → Turn → Window → State j → State j
  end_window why t w s = save_window t (record s {
    journal = (journal_append kind_close (close_body w why) t s).1;
    window = none;
    deadline = none;
  })

  abbrev pub deadline_passed : Turn → Option ℕ → Bool
  deadline_passed t none = false
  deadline_passed t (some d) = leb d t.monotonic

  -- Whether the window's time is up, on either clock.
  abbrev pub time_is_up : Turn → Window → Option ℕ → Bool
  time_is_up t w deadline = leb w.until_ms t.now_ms || deadline_passed t deadline

  abbrev pub expire_window : Turn → Window → State j → State j
  expire_window t w s =
      if ltb t.now_ms w.opened_ms
      then end_window (codes "clock") t w s
      else if time_is_up t w s.deadline
      then end_window (codes "expired") t w s
      else s

  -- `_expire`.
  unfoldable pub expire : Turn → State j → State j
  expire t s = elim s.window [ none ↦ s | some w ↦ expire_window t w s ]

  -- `window`.
  unfoldable pub current_window : Turn → State j → Option Window × State j
  current_window t s = ((expire t s).window, expire t s)

  abbrev pub new_window : Text → ℕ → Text → Text → Turn → Window
  new_window id minutes reason who t = record {
    id = id;
    opened_ms = t.now_ms;
    until_ms = t.now_ms + minutes * 60000;
    minutes = minutes;
    reason = reason;
    opened_by = who;
    writes = 0;
  }

  -- `open` once the window is made: it is opened only if its entry is in the journal.
  abbrev pub start_window : Window → Turn → State j → Opened × State j
  start_window w t s =
      let (seq, journal) = journal_append kind_open (open_body w) t s in
      let written = record s { journal = journal } in
      elim seq [
        | none ↦ (refused not_journaled, written)
        | some n ↦ (
          opened w,
          save_window t (record written {
            window = some w;
            deadline = some (t.monotonic + w.minutes * 60000);
          }),
        )
      ]

  abbrev pub open_with : Text → ℕ → Text → Text → Turn → State j → Opened × State j
  open_with id minutes reason who t s = elim s.window [
    | some w ↦ (refused already_open, s)
    | none ↦ start_window (new_window id minutes reason who t) t s
  ]

  -- `open`, with the id that `uuid4` gives. `t` is the turn of `_expire`, `u` of the rest.
  -- `minutes` that are no whole number, or below 0, are refused as 0 is, and a reason that is no
  -- text as the empty one.
  unfoldable pub open_window :
      (id : Text) (minutes : ℕ) (reason opened_by : Text) (t u : Turn) → State j → Opened × State j
  open_window id minutes reason opened_by t u s =
      let line = one_line max_reason_chars reason in
      if not cfg.has_path
      then (refused not_enabled, s)
      else if not (leb 1 minutes && leb minutes max_minutes)
      then (refused bad_minutes, s)
      else if is_empty line
      then (refused no_reason, s)
      else open_with id minutes line (one_line max_opened_by_chars opened_by) u (expire t s)

  abbrev pub close_if_open : Text → Turn → State j → Option Window × State j
  close_if_open why t s = elim s.window [
    | none ↦ (none, s)
    | some w ↦ (some w, end_window why t w s)
  ]

  -- `close`.
  unfoldable pub close_window : Text → (t u : Turn) → State j → Option Window × State j
  close_window why t u s = close_if_open why u (expire t s)

  abbrev pub write_under : Dict Text Value → Turn → Window → State j → Option Text × State j
  write_under facts t w s =
      let (seq, journal) =
        journal_append kind_write (updated ((k_window, text w.id) ∷ []) facts) t s in
      let written = record s { journal = journal } in
      elim seq [
        | none ↦ (none, written)
        | some n ↦ (
          some w.id,
          save_window t (record written { window = some (record w { writes = suc w.writes }) }),
        )
      ]

  abbrev pub write_if_open : Dict Text Value → Turn → State j → Option Text × State j
  write_if_open facts t s = elim s.window [ none ↦ (none, s) | some w ↦ write_under facts t w s ]

  -- `record_write`.
  unfoldable pub record_write : Dict Text Value → (t u : Turn) → State j → Option Text × State j
  record_write facts t u s = write_if_open facts u (expire t s)

  -- The constructor: `_load`, on the window in the file, with a journal that was opened. `ours` is
  -- whether the file has the version and the gateway's id, `unlinks` whether a file that does not hold
  -- can be removed.
  unfoldable pub restart : Turn → Journal j → Option Window → (ours unlinks : Bool) → State j
  restart t journal file ours unlinks =
      let closed : State j = record {
        journal = journal;
        window = none;
        deadline = none;
        window_file = none;
      } in
      if not cfg.has_path then record closed { window_file = file } else elim file [
        | none ↦ closed
        | some w ↦
            if ours && window_holds w
            then record {
              journal = journal;
              window = some w;
              deadline = some (t.monotonic + (w.until_ms - t.now_ms));
              window_file = some w;
            }
            else if unlinks
            then closed
            else record closed { window_file = some w }
      ]
