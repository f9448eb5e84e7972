-- ===== src/BreakGlass/State.antt =====
-- The state of `BreakGlass`, python/src/artzain/openshell/breakglass.py.
use cognexus_tools.Common.{
  ℕ, Bool, true, false, Option, Text, any, nat_beq, ltb, length, strip, is_empty, ◌||◌, [],
  if◌then◌else◌,
}
use cognexus_tools.Journal.Entry.{Json}
use cognexus_tools.Journal.Operations.{Journal}

-- The open window.
pub record Window : Type 0 where
  pub id : Text
  pub opened_ms : ℕ
  pub until_ms : ℕ
  pub minutes : ℕ
  pub reason : Text
  pub opened_by : Text
  pub writes : ℕ

-- The two clocks, in milliseconds, when an operation reads them, and what the disk does then:
-- whether the journal's first and second save succeed, and the window file's. A clock that the
-- source reads again within the same part of an operation shows the same time here.
pub record Turn : Type 0 where
  pub now_ms : ℕ
  pub monotonic : ℕ
  pub first : Bool
  pub second : Bool
  pub saved : Bool

-- `_window`, `_deadline`, the journal, and the window that the file holds: none for a file that is
-- missing, does not parse, or holds no window of the kinds of value that `_holds` asks for.
pub record State (j : Json) : Type 0 where
  pub journal : Journal j
  pub window : Option Window
  pub deadline : Option ℕ
  pub window_file : Option Window

-- Why a window is not opened, with the HTTP status that the route answers with.
pub data Refused : Type 0 where
  not_enabled bad_minutes no_reason already_open not_journaled : Refused

abbrev pub status : Refused → ℕ
status not_enabled = 409
status bad_minutes = 400
status no_reason = 400
status already_open = 409
status not_journaled = 503

pub data Opened : Type 0 where
  opened : Window → Opened
  refused : Refused → Opened

-- `MAX_MINUTES`, `MAX_REASON_CHARS` and `MAX_OPENED_BY_CHARS`.
abbrev pub max_minutes : ℕ
max_minutes = 240

abbrev pub max_reason_chars : ℕ
max_reason_chars = 500

abbrev pub max_opened_by_chars : ℕ
max_opened_by_chars = 64

abbrev pub fits_line : ℕ → Text → Bool
fits_line limit text =
    if is_empty text || ltb limit (length text) || any (λ c. ltb c 32 || nat_beq c 127) text
    then false
    else true

-- `_one_line` of a text.
unfoldable pub one_line : ℕ → Text → Text
one_line limit value = if fits_line limit (strip value) then strip value else []
