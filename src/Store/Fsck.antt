-- ===== src/Store/Fsck.antt =====
-- internal/store/fsck.go: the check I15, which walks the events of each run and of each step in the order
-- they were written and reports those that do not pick up where the one before left off.
pub mod Unbroken
pub mod Chains
use pulseq.Prelude.{
  Bool, true, false, not, ◌&&◌, String, List, [], ◌∷◌, ◌++◌, Option, none, some, str_eq,
  if◌then◌else◌,
}
use pulseq.Store.Rows.{RunEvent, Db, or_empty}
use pulseq.Store.Invariant.{told}

-- `PARTITION BY run_id, COALESCE(step_name, '')`.
abbrev pub same_partition : RunEvent → RunEvent → Bool
same_partition e d =
    str_eq e.run_id d.run_id && str_eq (or_empty e.step_name) (or_empty d.step_name)

-- `COALESCE(from_state, '<start>')`.
abbrev from_or_start : Option String → String
from_or_start none = "<start>"
from_or_start (some s) = s

-- `prev_to IS NOT NULL AND COALESCE(from_state, '<start>') <> prev_to`, where `prev_to` is what the
-- last event of the partition says among the earlier ones.
abbrev differs : String → Option String → Bool
differs from none = false
differs from (some prev) = not (str_eq from prev)

unfoldable pub breaks : List RunEvent → RunEvent → Bool
unfolding told
breaks earlier e = differs (from_or_start e.from_state) (told (same_partition e) none earlier)

-- The rows of the query, behind so many earlier events.
unfoldable pub chain_breaks : List RunEvent → List RunEvent → List RunEvent
unfolding breaks
chain_breaks earlier [] = []
chain_breaks earlier (e ∷ es) =
    let later = chain_breaks (earlier ++ e ∷ []) es in if breaks earlier e then e ∷ later else later

-- What the check reports.
unfoldable pub broken_chains : Db → List RunEvent
unfolding chain_breaks
broken_chains db = chain_breaks [] db.events
