-- ===== src/AuditChain/Append.antt =====
-- `MerkleAuditChain` of python/src/artzain/audit_chain.py: the state, how it is found again, and
-- `append`.
use cognexus_tools.Common.{
  ℕ, suc, Bool, Option, none, some, List, [], ◌∷◌, ◌++◌, if◌then◌else◌, insert, Text, text_key,
  strip, is_empty, pos, take, length, leb,
}
use cognexus_tools.AuditChain.Entry.{
  int, str, Record, k_seq, k_prev_hash, k_entry_hash, k_sig, genesis, Codec,
}

-- `_ChainState`.
pub record ChainState : Type 0 where
  pub seq : ℕ
  pub tip_hash : Text

abbrev pub fresh : ChainState
fresh = record { seq = 0; tip_hash = genesis }

-- What a write to the log does: the line and its newline are in the file, or an OSError of the write,
-- the flush or the fsync leaves that many of their characters there.
pub data Write : Type 0 where
  landed : Write
  cut : (left : ℕ) → Write

-- The log's lines that end with a newline, and what the file holds after the last of them, a line
-- that a failed write left without its end; what the sidecar file holds if it can be read, and the
-- state in memory.
pub record Chain : Type 0 where
  pub log : List Text
  pub tail : Text
  pub sidecar : Option ChainState
  pub state : Option ChainState

pub data Appended : Type 0 where
  wrote : (line : Text) → Appended
  write_error : Appended

-- The lines that reading the file gives.
abbrev pub file_of : List Text → Text → List Text
file_of log [] = log
file_of log (x ∷ tail) = log ++ (x ∷ tail) ∷ []

abbrev pub file_lines : Chain → List Text
file_lines h = file_of h.log h.tail

-- The file after an append of a line: what is written goes on the last line, if that has no end.
abbrev pub put : Write → Text → Chain → Chain
put landed line h = record h { log = h.log ++ (h.tail ++ line) ∷ []; tail = [] }
put (cut n) line h =
    if leb n (length line)
    then record h { tail = h.tail ++ take n line }
    else record h { log = h.log ++ (h.tail ++ line) ∷ []; tail = [] }

module _ (c : Codec) where
  -- The loop of `_load_state` over the log: the last line that is not blank, and how many are not.
  unfoldable pub scan : List Text → Option Text → ℕ → Option Text × ℕ
  scan [] last seq = (last, seq)
  scan (raw ∷ lines) last seq =
      let stripped = strip raw in
      let kept = is_empty stripped in
      scan lines (if kept then last else some stripped) (if kept then seq else suc seq)

  abbrev rebuilt_from : Option Text × ℕ → ChainState
  rebuilt_from (none, seq) = fresh
  rebuilt_from (some line, seq) = record { seq = seq; tip_hash = c.sha256 line }

  abbrev pub rebuild : List Text → ChainState
  rebuild log = rebuilt_from (scan log none 0)

  -- `_load_state`.
  abbrev pub load_state : Option ChainState → List Text → ChainState
  load_state (some s) log = s
  load_state none log = rebuild log

  -- The state that the next `append` works from.
  abbrev pub current : Chain → ChainState
  current h = elim h.state [ none ↦ load_state h.sidecar (file_lines h) | some s ↦ s ]

  -- `chained`, before it is hashed.
  abbrev pub chained : Record → ChainState → Record
  chained r s = insert k_prev_hash (str s.tip_hash) (insert k_seq (int (pos (suc s.seq))) r)

  abbrev pub entry_hash : Record → ChainState → Text
  entry_hash r s = c.sha256 (c.canonical (chained r s))

  -- `chained` with its hash and its signature.
  abbrev pub sealed : Text → Record → ChainState → Record
  sealed key r s =
      insert k_sig (str (c.hmac key (entry_hash r s)))
        (insert k_entry_hash (str (entry_hash r s)) (chained r s))

  -- After the write: an OSError is raised before the state moves on.
  abbrev written_to :
      Write → (line : Text) → (s next : ChainState) → Bool → Chain → Appended × Chain
  written_to landed line s next saves h =
      (wrote line, record h { sidecar = if saves then some next else h.sidecar; state = some next })
  written_to (cut n) line s next saves h = (write_error, record h { state = some s })

  -- `append`. The first argument after the record is what the write to the log does, `saves` is
  -- whether the sidecar can be written.
  unfoldable pub append : Text → Record → Write → (saves : Bool) → Chain → Appended × Chain
  append key r write saves h =
      let s = current h in
      let line = c.dumps (sealed key (c.clean r) s) in
      let next : ChainState = record { seq = suc s.seq; tip_hash = c.sha256 line } in
      written_to write line s next saves (put write line h)

  -- A new process starts with no state in memory.
  unfoldable pub restart : Chain → Chain
  restart h = record h { state = none }
