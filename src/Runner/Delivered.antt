-- ===== src/Runner/Delivered.antt =====
-- Which signals an escalation of internal/runner/signal.go delivers.
use pulseq.Prelude.{ℕ, ◌≡◌, ◌≢◌, ◌⊎◌, Bool, true, false, List, [], ◌∷◌, none, some}
use pulseq.Runner.{Signal, sigterm, sigkill, Delivery, Escalation, stop_returns, Move, moves}

abbrev pub to : ℕ → Signal → Delivery
to group signal = record { group = group; signal = signal }

-- Nothing, a SIGTERM to one group, or that and then a SIGKILL to the same group.
pub data Escalated : List Delivery → Type 0 where
  untouched : Escalated []
  terminated : (g : ℕ) → g ≢ 0 → Escalated (to g sigterm ∷ [])
  killed : (g : ℕ) → g ≢ 0 → Escalated (to g sigterm ∷ to g sigkill ∷ [])

-- Where an escalation stands: not fired, waiting out the grace of a group, or over.
pub data Stands : Escalation → Type 0 where
  idle :
      (g : ℕ) (d : Bool)
      → Stands (record {
        group = g;
        fired = false;
        done = d;
        exited = false;
        escalating = none;
        delivered = [];
      })
  waits :
      (g t : ℕ) (d : Bool)
      → t ≢ 0
      → Stands (record {
        group = g;
        fired = true;
        done = d;
        exited = false;
        escalating = some t;
        delivered = to t sigterm ∷ [];
      })
  over :
      (g : ℕ) (d : Bool) (l : List Delivery)
      → Escalated l
      → Stands (record {
        group = g;
        fired = true;
        done = d;
        exited = true;
        escalating = none;
        delivered = l;
      })

-- What is delivered, and that it is final unless the escalation was not fired or `stop` still waits.
abbrev Final : List Move → Escalation → Type 0
Final later e =
    Escalated e.delivered
    × ((e.fired ≡ false) ⊎ ((stop_returns e ≡ false) ⊎ ((moves later e).delivered ≡ e.delivered)))
