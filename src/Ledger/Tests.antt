-- ===== src/Ledger/Tests.antt =====
-- The ledger at concrete inputs.
use cognexus_tools.Common.{
  ◌≤◌, ◌≡◌, refl, true, false, some, List, [], ◌∷◌, codes, Text, text_key, pair_key, strip,
  is_space, list_beq, lookup, leb→le,
}
use cognexus_tools.Journal.Operations.{absent}
use cognexus_tools.Journal.Sample.{sample}
use cognexus_tools.Ledger.Operations.{
  Decided, Named, remember, decided, learn_sandbox, forget_sandbox,
}
use cognexus_tools.Ledger.Views.{Config, text_of, wanted_of}
use cognexus_tools.Ledger.Gateway.{
  Gateway, replace_all, gateway_learn, finish_learning, policy_hash, note_policy_hash, save,
}
use cognexus_tools.Ledger.Loading.{open_ledger}
use cognexus_tools.Ledger.History.{
  Call, puts, ends_learning, drops, ends_forgetting, remembers, learns, notes, run, step,
}
use cognexus_tools.Ledger.Sound.{IsBounded}
use cognexus_tools.Ledger.Bounds.{run-IsBounded}
use cognexus_tools.Ledger.Overlap.{IsFit, run-IsFit}
use cognexus_tools.Ledger.Replace.{replace_all-lookup, replace_all-wanted}
use cognexus_tools.Ledger.Provenance.{run-decided}

abbrev config : Config
config = record {
  has_path = true;
  gateway_id = codes "gw";
  limits = record {
    ttl = 300;
    max_decisions = 2;
    max_sandboxes = 2;
    review_ttl = 86400;
    max_reviews = 2;
  };
}

abbrev calls : List Call
calls =
    learns true [] (codes "a") (codes "id1")
    ∷ notes true (codes "id1") (codes "h1")
    ∷ learns true [] (codes "b") (codes "id2")
    ∷ remembers (codes "d1") (codes "CreateSandbox") (codes "x") (codes "id1") false 10
    ∷ []

abbrev ledger : Gateway sample
ledger = run sample config calls (open_ledger sample config absent)

abbrev listing : List (Named × Text)
listing = (([], codes " b "), codes "id2") ∷ (([], codes "c"), codes "id3") ∷ []

run-IsBounded_example : IsBounded sample config ledger
run-IsBounded_example = run-IsBounded sample config absent calls (refl, (refl, (refl, (refl, tt))))

-- Between the read of the id of `a` and its forgetting, the name is learnt anew and its hash is noted.
abbrev overlapped : List Call
overlapped =
    learns true [] (codes "a") (codes "id1")
    ∷ puts [] (codes "a") (codes "id2")
    ∷ ends_learning true (codes "id2") (some (codes "id1"))
    ∷ notes true (codes "id2") (codes "h2")
    ∷ drops [] (codes "a")
    ∷ ends_forgetting true (some (codes "id1"))
    ∷ []

run-IsFit_example :
    IsFit sample config (run sample config overlapped (open_ledger sample config absent)).memory
run-IsFit_example = run-IsFit sample config absent overlapped

-- A hash of a sandbox that is not known is left.
overlapped_leaves :
    let g = run sample config overlapped (open_ledger sample config absent) in
    (g.memory.sandboxes ≡ []) × (policy_hash sample (codes "id2") g ≡ codes "h2")
unfolding run step gateway_learn finish_learning learn_sandbox forget_sandbox note_policy_hash
    policy_hash save open_ledger text_of strip is_space list_beq
overlapped_leaves = (refl, refl)

replace_all-lookup_example :
    lookup
      (codes "default", codes "a")
      (replace_all sample config true listing ledger).memory.sandboxes
    ≡ lookup (codes "default", codes "a") (wanted_of listing [])
unfolding wanted_of text_of strip is_space list_beq
replace_all-lookup_example =
    replace_all-lookup sample config true listing ledger run-IsBounded_example (leb→le _ _ refl)
      (codes "default", codes "a")

replace_all-wanted_example :
    lookup (codes "default", codes "c") (wanted_of listing []) ≡ some (codes "id3")
unfolding run step gateway_learn learn_sandbox note_policy_hash remember save open_ledger wanted_of
    text_of strip is_space list_beq replace_all
replace_all-wanted_example =
    replace_all-wanted sample config true listing ledger run-IsBounded_example
      (codes "default", codes "c") (codes "id3") refl

abbrev allowed : Decided
allowed = record {
  method = codes "CreateSandbox";
  digest = codes "x";
  sandbox_id = codes "id1";
  base_applied = false;
  expires = 310;
}

run-decided_example : (codes "CreateSandbox" ≡ codes "CreateSandbox") × (100 ≤ 310)
unfolding run step gateway_learn learn_sandbox note_policy_hash remember save open_ledger decided
    text_of strip is_space list_beq
run-decided_example =
    run-decided sample config (λ e. e.1.method ≡ codes "CreateSandbox") absent calls
      (tt, (tt, (tt, (refl, tt)))) (codes "d1") 100 allowed refl
