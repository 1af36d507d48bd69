-- ===== src/Runner.antt =====
-- internal/runner/signal.go: the escalation of SIGTERM to SIGKILL against one process group, as a
-- state with the moves of the goroutines that share it: the channels are flags that say whether they
-- are closed, `sync.Once` is the flag `fired`, and the goroutine of `escalate` is the group that it
-- waits to kill. A delivery is recorded, whatever it answers, since the source ignores the answer.
pub mod Classify
pub mod Delivered
use pulseq.Prelude.{
  ℕ, Bool, true, false, not, List, [], ◌∷◌, ◌++◌, Option, none, some, if◌then◌else◌, ◌==◌,
}

pub data Signal : Type 0 where
  sigterm sigkill : Signal

-- A signal to a whole process group.
pub record Delivery : Type 0 where
  pub group : ℕ
  pub signal : Signal

pub record Escalation : Type 0 where
  pub group : ℕ
  pub fired : Bool
  pub done : Bool
  pub exited : Bool
  pub escalating : Option ℕ
  pub delivered : List Delivery

-- `newEscalation`.
abbrev pub new_escalation : Escalation
new_escalation = record {
  group = 0;
  fired = false;
  done = false;
  exited = false;
  escalating = none;
  delivered = [];
}

abbrev pub deliver : ℕ → Signal → Escalation → Escalation
deliver group signal e = record e {
  delivered = e.delivered ++ record { group = group; signal = signal } ∷ [];
}

-- `setGroup`.
abbrev pub set_group : ℕ → Escalation → Escalation
set_group pgid e = record e { group = pgid }

-- `fire`.
unfoldable pub fire : Escalation → Escalation
fire e =
    if e.fired
    then e
    else if e.group == 0
    then record e { fired = true; exited = true }
    else record (deliver e.group sigterm e) { fired = true; escalating = some e.group }

-- `escalate`, when its timer fires, and when it sees that the runner is finished. When both are
-- ready, either may come.
unfoldable pub grace_ends : Escalation → Escalation
grace_ends e = elim e.escalating [
  | none ↦ e
  | some pgid ↦ record (deliver pgid sigkill e) { escalating = none; exited = true }
]

unfoldable pub done_seen : Escalation → Escalation
done_seen e =
    if not e.done
    then e
    else elim e.escalating [ none ↦ e | some pgid ↦ record e { escalating = none; exited = true } ]

-- The beginning of `stop`, and whether what it waits for has come.
abbrev pub stop_begins : Escalation → Escalation
stop_begins e = record e { done = true }

unfoldable pub stop_returns : Escalation → Bool
stop_returns e = if e.fired then e.exited else true

pub data Move : Type 0 where
  starts : ℕ → Move
  fires times_out sees_done stops : Move

unfoldable pub move : Move → Escalation → Escalation
unfolding fire grace_ends done_seen
move (starts pgid) e = set_group pgid e
move fires e = fire e
move times_out e = grace_ends e
move sees_done e = done_seen e
move stops e = stop_begins e

unfoldable pub moves : List Move → Escalation → Escalation
unfolding move
moves [] e = e
moves (m ∷ rest) e = moves rest (move m e)
