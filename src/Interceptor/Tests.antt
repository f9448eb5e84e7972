-- ===== src/Interceptor/Tests.antt =====
-- The interceptor at concrete inputs.
use cognexus_tools.Common.{
  ℕ, take, insert, ◌==◌, text_key, if◌then◌else◌, List, ◌≡◌, refl, true, false, none, some, [], ◌∷◌,
  inl, codes, strip, is_space, list_beq, leb→le,
}
use cognexus_tools.Journal.Sample.{sample, yes, letters, object_of, members_of}
use cognexus_tools.BreakGlass.State.{State, Turn}
use cognexus_tools.BreakGlass.Operations.{restart}
use cognexus_tools.Ledger.Operations.{no_memory, cited_review}
use cognexus_tools.Interceptor.Values.{Members, get, as_members, field, text_within}
use cognexus_tools.Interceptor.Methods.{method_name, actions, bound_modify}
use cognexus_tools.Interceptor.Subject.{is_global, is_setting_write, carries_policy}
use cognexus_tools.Interceptor.Deciding.{
  Patch, Engine, Ledger, decision_id_of, rule, ask, decide, fetch_fails, refused_locally, allow,
}
use cognexus_tools.Interceptor.Stamps.{stamp_key, k_annotations, base_missing, stampable}
use cognexus_tools.Interceptor.Evaluate.{
  Setup, World, Moment, evaluate, validate, undecided, validated, confirmation, stamped, method_of,
  body_of, k_decision_id,
}
use cognexus_tools.Interceptor.FailClosed.{IsGrounded}
use cognexus_tools.Interceptor.Guarantees.{evaluate-IsGrounded, evaluate-global}
use cognexus_tools.Interceptor.Patching.{Patcher}
use cognexus_tools.Interceptor.Twice.{stamped-validate}
use cognexus_tools.Interceptor.Facts.{decision_request}
use cognexus_tools.Interceptor.Sample.{python}
use cognexus_tools.Interceptor.Secrets.{IsClean, decision_request-IsClean}
use cognexus_tools.Journal.Operations.{absent, open_journal}
use cognexus_tools.BreakGlass.History.{Call, opens, run}

abbrev engine : Engine
engine = record {
  decide = λ asked. some (record {
    http_status = 200;
    outcome = codes "allow";
    decision_id = codes "d1";
    limit_per_hour = none;
    retry_after = none;
    down = false;
  });
  fetch_policy = none;
}

abbrev setup : Setup python
setup = record {
  engine = engine;
  base_policy = [];
  base_required = false;
  journal = record { has_path = true; gateway_id = codes "gw"; max_pending = 10 };
}

abbrev turn : Turn
turn = record { now_ms = 1; monotonic = 1; first = true; second = true; saved = true }

abbrev moment : Moment python
moment = record { now = 10; asks = turn; first = turn; second = turn }

abbrev ledger : Ledger
ledger = record {
  limits = record {
    ttl = 300;
    max_decisions = 2;
    max_sandboxes = 2;
    review_ttl = 86400;
    max_reviews = 2;
  };
  memory = no_memory;
}

abbrev world : World python
world = record { ledger = some ledger; glass = none }

abbrev delete_request : Members python
delete_request = (codes "method", letters (codes "openshell.v1.OpenShell/DeleteSandbox")) ∷ []

evaluate-IsGrounded_example :
    IsGrounded python setup moment delete_request
      (method_of python delete_request)
      (body_of python delete_request)
      world
unfolding evaluate validate undecided validated confirmation refused_locally method_name strip
    is_space list_beq actions bound_modify base_missing stampable decide ask rule fetch_fails
    cited_review decision_id_of
evaluate-IsGrounded_example =
    evaluate-IsGrounded python setup moment delete_request world refl refl refl

abbrev global_request : Members python
global_request =
    (codes "method", letters (codes "UpdateConfig"))
    ∷ (codes "body", object_of ((codes "global", yes) ∷ (codes "policy", object_of []) ∷ []))
    ∷ []

evaluate-global_example :
    ((evaluate python setup moment global_request world).0.allowed ≡ false)
    × ((evaluate python setup moment global_request world).1 ≡ world)
unfolding method_name strip is_space list_beq object_of members_of is_global is_setting_write
    carries_policy field text_within
evaluate-global_example =
    evaluate-global python setup moment global_request world refl refl refl refl

abbrev body : Members python
body = (codes "name", letters (codes "box")) ∷ []

-- A gateway that knows the two paths of the stamp alone.
unfoldable add : Patch python → Members python → Members python
add x op =
    if x.path == codes "/annotations"
    then insert k_annotations x.value op
    else if x.path == codes "/annotations/artzain.cognexuslabs.ai~1decision-id"
    then elim (as_members python (get python k_annotations op)) [
      | none ↦ op
      | some d ↦ insert k_annotations (python.json.object (insert stamp_key x.value d)) op
    ]
    else op

unfoldable add_all : List (Patch python) → Members python → Members python
add_all [] op = op
add_all (x ∷ xs) op = add_all xs (add x op)

add_decision_id_lem :
    (v : python.json.Value) (d : Members python) (rest : List (Patch python)) (op : Members python)
    → as_members python (get python k_annotations op) ≡ some d
    → add_all
        (record { path = codes "/annotations/artzain.cognexuslabs.ai~1decision-id"; value = v }
          ∷ rest)
        op
      ≡ add_all rest (insert k_annotations (python.json.object (insert stamp_key v d)) op)
unfolding add_all add list_beq
add_decision_id_lem v d rest op there = rw there refl

add_annotations_lem :
    (v : python.json.Value) (rest : List (Patch python)) (op : Members python)
    → add_all (record { path = codes "/annotations"; value = v } ∷ rest) op
      ≡ add_all rest (insert k_annotations v op)
unfolding add_all add list_beq
add_annotations_lem v rest op = refl

add_all-nil : (op : Members python) → add_all [] op ≡ op
unfolding add_all
add_all-nil op = refl

abbrev gateway : Patcher python
gateway = record {
  apply = add_all;
  apply-nil = add_all-nil;
  add_annotations = add_annotations_lem;
  add_decision_id = add_decision_id_lem;
}

stamped-validate_example :
    let (answer, l) =
      stamped python setup 10 [] (codes "CreateSandbox") body (codes "d1") (some ledger) in
    (validate python setup moment []
      (codes "CreateSandbox")
      (gateway.apply answer.patches body)
      (record world { ledger = l })).0
    ≡ allow python
        (codes "decided in modify_operation")
        []
        ((k_decision_id python, codes "d1") ∷ [])
unfolding bound_modify list_beq stampable strip is_space
stamped-validate_example =
    stamped-validate python gateway setup setup moment moment [] [] (codes "CreateSandbox") body
      (codes "d1") ledger world refl refl refl (inl refl) refl refl (leb→le _ _ refl)
      (leb→le _ _ refl)

decision_request-IsClean_example :
    (v : python.json.Value) × ((decision_request python delete_request
        (codes "DeleteSandbox")
        body
        none).payload
      ≡ take 200000 (python.dumps v))
    × ((n : ℕ) → IsClean python n v)
decision_request-IsClean_example =
    decision_request-IsClean python delete_request (codes "DeleteSandbox") body none

abbrev at : ℕ → Turn
at now = record { now_ms = now; monotonic = now; first = true; second = true; saved = true }

abbrev openings : List (Call sample)
openings = opens (codes "w1") 5 (codes "engine is down") (codes "root") (at 1000) (at 1001) ∷ []

abbrev glass : State sample
glass = run sample setup.journal openings (
    restart sample setup.journal (at 900) (open_journal sample setup.journal true absent) none true
      true)

abbrev late : Moment python
late = record { now = 10; asks = at 2000; first = at 2001; second = at 2002 }

abbrev unreachable : Engine
unreachable = record {
  decide = λ asked. some (record {
    http_status = 503;
    outcome = [];
    decision_id = [];
    limit_per_hour = none;
    retry_after = none;
    down = true;
  });
  fetch_policy = none;
}

abbrev cut_off : Setup python
cut_off = record setup { engine = unreachable }

abbrev guarded : World python
guarded = record { ledger = none; glass = some glass }
