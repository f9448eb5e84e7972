-- ===== src/Journal/Tests.antt =====
-- The journal at concrete inputs.
use cognexus_tools.Common.{
  Dict, Text, ℕ, ◌≡◌, refl, true, List, [], ◌∷◌, codes, text_key, if◌then◌else◌, ◌-◌, drop, ◌↔◌,
  ◌<◌, ◌≤◌, leb→le,
}
use cognexus_tools.Journal.Operations.{
  Config, Journal, unreadable, open_journal, append, save, settle, settle_through, holds,
  append_plain, head,
}
use cognexus_tools.Journal.Sample.{Tree, number, sample, written, array_of, object_of, total}
use cognexus_tools.Journal.Saving.{contents, IsIntact, Fits}
use cognexus_tools.Journal.History.{Call, appends, settles, run, step, run-IsIntact, run-reopened}
use cognexus_tools.Journal.Settling.{settle_through-takes, holds_iff}
use cognexus_tools.Journal.Durable.{append-Promised, Promised}

abbrev config : Config
config = record { has_path = true; gateway_id = codes "gw"; max_pending = 3 }

abbrev report : ℕ → Call sample
report at_ms = appends (codes "report") [] true at_ms true true

-- Three reports, of which the first is settled, and one that the full journal refuses.
abbrev calls : List (Call sample)
calls = report 1 ∷ report 2 ∷ report 3 ∷ report 4 ∷ settles 1 true ∷ []

abbrev opened : Journal sample
opened = open_journal sample config true unreadable

abbrev after : Journal sample
after = run sample config calls opened

run-IsIntact_example : IsIntact sample config after
run-IsIntact_example = run-IsIntact sample config refl true unreadable calls

after-Fits : Fits sample config after.file
unfolding run step append append_plain save settle open_journal written array_of object_of total
after-Fits = leb→le _ _ refl

run-reopened_example :
    contents sample config (open_journal sample config true after.file)
    ≡ contents sample config after
unfolding run step append append_plain save settle open_journal written
run-reopened_example = run-reopened sample config refl true true unreadable calls refl after-Fits

settle_through-takes_example :
    let r = settle_through sample config 2 true after in
    if holds sample 2 after
    then (r.0 ≡ 2 - after.base_seq)
      × (r.1.base_seq ≡ 2)
      × (r.1.entries ≡ drop (2 - after.base_seq) after.entries)
    else (r ≡ (0, after))
settle_through-takes_example = settle_through-takes sample config 2 true after run-IsIntact_example

holds_iff_example :
    (holds sample 2 after ≡ true) ↔ ((after.base_seq < 2) × (2 ≤ (head sample after).0))
holds_iff_example = holds_iff sample config 2 after run-IsIntact_example

abbrev body : Dict Text Tree
body = (codes "n", number 3) ∷ []

append-Promised_example :
    Promised sample config
      (codes "report")
      body
      5
      after
      (append sample config (codes "report") body true 5 true true after)
append-Promised_example = append-Promised sample config (codes "report") body 5 true true after
