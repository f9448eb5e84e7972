-- ===== src/Ledger/History.antt =====
-- A history of calls of a gateway's ledger, from its construction on: interceptor.py and state.py
-- of python/src/artzain/openshell.
use cognexus_tools.Common.{ℕ, Bool, true, false, Option, List, [], ◌∷◌, Text, text_key, pair_key}
use cognexus_tools.Journal.Entry.{Json}
use cognexus_tools.Ledger.Operations.{
  Memory, Named, remember_review, cited_review, forget_review, remember, decided,
}
use cognexus_tools.Ledger.Views.{Config}
use cognexus_tools.Ledger.Gateway.{
  Gateway, stored, finish_learning, dropped, finish_forgetting, mark_complete, gateway_learn,
  gateway_forget, note_policy_hash, replace_all, replace_workspace,
}

-- A call, or a part of one that other calls can come between; `w` is whether the file can be written.
pub data Call : Type 0 where
  remembers : (decision_id method digest sandbox_id : Text) (base_applied : Bool) (now : ℕ) → Call
  asks : (decision_id : Text) (now : ℕ) → Call
  reviews : (key decision_id : Text) (now : ℕ) → Call
  cites : (key : Text) (now : ℕ) → Call
  releases : (key : Text) → Call
  learns : (w : Bool) (workspace name id : Text) → Call
  forgets : (w : Bool) (workspace name : Text) → Call
  -- A part of a learning or a forgetting under one lock, which other calls come before and after. Its
  -- last part has the id that the first part read, at any time before.
  puts : (workspace name id : Text) → Call
  ends_learning : (w : Bool) (id : Text) (before : Option Text) → Call
  drops : (workspace name : Text) → Call
  ends_forgetting : (w : Bool) (gone : Option Text) → Call
  notes : (w : Bool) (id hash : Text) → Call
  completes : (w complete : Bool) → Call
  lists_all : (w : Bool) (listed : List (Named × Text)) → Call
  lists : (w : Bool) (workspace : Text) (listed : List (Text × Text)) → Call

-- A call that no other comes between.
abbrev pub is_whole : Call → Bool
is_whole (puts workspace name id) = false
is_whole (ends_learning w id before) = false
is_whole (drops workspace name) = false
is_whole (ends_forgetting w seen) = false
is_whole _ = true

module _ (j : Json) (cfg : Config) where
  abbrev pub on_memory : (Memory → Memory) → Gateway j → Gateway j
  on_memory f g = record g { memory = f g.memory }

  unfoldable pub step : Call → Gateway j → Gateway j
  step (remembers id method digest sandbox base now) =
      on_memory (remember cfg.limits id method digest sandbox base now)
  step (asks id now) = on_memory (λ m. (decided id now m).1)
  step (reviews key id now) = on_memory (remember_review cfg.limits key id now)
  step (cites key now) = on_memory (λ m. (cited_review key now m).1)
  step (releases key) = on_memory (forget_review key)
  step (learns w workspace name id) = gateway_learn j cfg w workspace name id
  step (forgets w workspace name) = gateway_forget j cfg w workspace name
  step (puts workspace name id) = stored j cfg workspace name id
  step (ends_learning w id before) = finish_learning j cfg w id before
  step (drops workspace name) = dropped j workspace name
  step (ends_forgetting w seen) = finish_forgetting j cfg w seen
  step (notes w id hash) = note_policy_hash j cfg w id hash
  step (completes w complete) = mark_complete j cfg w complete
  step (lists_all w listed) = replace_all j cfg w listed
  step (lists w workspace listed) = replace_workspace j cfg w workspace listed

  unfoldable pub run : List Call → Gateway j → Gateway j
  run [] g = g
  run (c ∷ cs) g = run cs (step c g)
