-- ===== src/KillSwitch/Settings.antt =====
-- `_env_int` of python/src/artzain/kill_switch.py, which reads the detector's two settings. Of
-- Python's `int` the ASCII digits are modelled; other digits of Unicode are refused here.
use cognexus_tools.Common.{
  ℕ, ◌+◌, ◌-◌, ◌*◌, ◌≤◌, ◌≡◌, refl, Bool, true, false, not, ◌&&◌, Option, none, some, [], ◌∷◌,
  arith, max, leb, nat_beq, if◌then◌else◌, count, Text, codes, strip, is_empty, Option-cases, inl,
  inr, is_space,
}
use cognexus_tools.KillSwitch.State.{Config}

abbrev is_digit : ℕ → Bool
is_digit c = leb b'0' c && leb c b'9'

-- The digits, with single underscores between them; `due` where a digit has to come.
abbrev digits : ℕ → Bool → Text → Option ℕ
digits acc due [] = if due then none else some acc
digits acc due (c ∷ s) =
    let next = digits (acc * 10 + (c - b'0')) false s in
    let gap = digits acc true s in
    if is_digit c then next else if nat_beq c b'_' && not due then gap else none

-- `int` takes at most 4300 digits.
abbrev max_digits : ℕ
max_digits = 4300

-- `int(raw, 10)` of a stripped text: whether it has a minus sign, and its magnitude.
pub parse_int : Text → Option (Bool × ℕ)
parse_int [] = none
parse_int (c ∷ s) =
    let body = if nat_beq c b'-' then s else if nat_beq c b'+' then s else c ∷ s in
    if leb (count is_digit body) max_digits
    then elim (digits 0 true body) [ none ↦ none | some n ↦ some (nat_beq c b'-', n) ]
    else none

-- `max(1, value)`.
abbrev at_least_one : Bool × ℕ → ℕ
at_least_one (true, n) = 1
at_least_one (false, n) = max 1 n

abbrev or_empty : Option Text → Text
or_empty none = []
or_empty (some s) = s

-- `_env_int`, of what the environment holds under the name.
pub env_int : Option Text → ℕ → ℕ
env_int held default =
    let raw = strip (or_empty held) in
    if is_empty raw
    then max 1 default
    else elim (parse_int raw) [ none ↦ max 1 default | some value ↦ at_least_one value ]

-- `_PANIC_THRESHOLD` and `_PANIC_WINDOW_SECONDS`, at a number of clock ticks to the second.
pub settings : Option Text → Option Text → ℕ → Config
settings threshold window ticks = record {
  panic_threshold = env_int threshold 5;
  panic_window = env_int window 60 * ticks;
}

env_int-pos : (held : Option Text) (default : ℕ) → 1 ≤ env_int held default
unfolding env_int
env_int-pos held default = elim (Option-cases (parse_int (strip (or_empty held)))) [
  | inl e ↦ rw (e, env_int) (ground arith)
  | inr ((true, n), e) ↦ ground arith
  | inr ((false, n), e) ↦ ground arith
]

-- Whatever the environment holds, the detector's threshold is at least one trip, and its window at
-- least one second.
pub settings_pos :
    (threshold window : Option Text) (ticks : ℕ)
    → (1 ≤ (settings threshold window ticks).panic_threshold)
      × (ticks ≤ (settings threshold window ticks).panic_window)
unfolding settings
settings_pos threshold window ticks =
    (env_int-pos threshold 5, grind (arith, env_int-pos window 60))

settings_run :
    (env_int (some (codes " 1_2 ")) 5 ≡ 12)
    × (env_int (some (codes "-3")) 5 ≡ 1)
    × (env_int (some (codes "1__2")) 5 ≡ 5)
    × (env_int (some (codes "five")) 5 ≡ 5)
    × (env_int none 0 ≡ 1)
unfolding env_int strip parse_int is_space
settings_run = (refl, refl, refl, refl, refl)
