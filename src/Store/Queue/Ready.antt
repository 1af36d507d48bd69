-- ===== src/Store/Queue/Ready.antt =====
-- What `NextRunnableStep` of internal/store answers: the first step that is ready.
use mathlib.Core.List.{Memᴰ}
use pulseq.Prelude.{
  ◌≡◌, ◌≢◌, refl, sym, subst, ◌∙◌, inl, inr, ℕ, ◌≤◌, true, false, String, Option, none, some,
  eq_iff, arith, Bool-cases, Option-cases,
}
use pulseq.Model.State.{StepState, step_pending, step_succeeded}
use pulseq.Store.Table.{select}
use pulseq.Store.Rows.{Step, StepDep, Db}
use pulseq.Store.Writes.{order_by_idx}
use pulseq.Store.Queue.{
  is_succeeded, exists_row, past_gate, holds_back, blocked, runnable, first_of, next_runnable_step,
}
use pulseq.Store.Queue.Selected.{
  exists_row-true, select-Mem, Mem-select, Mem-order, first-order, first-Mem, exists_row-some,
  Lowest,
}

-- A step that may start: pending, past its retry's gate, and behind no upstream that has not
-- succeeded.
pub record Ready (now : ℕ) (id : String) (db : Db) (s : Step) : Type 0 where
  pub listed : Memᴰ s db.steps
  pub of_run : s.run_id ≡ id
  pub is_waiting : s.state ≡ step_pending
  pub due : (at : ℕ) → s.next_attempt_at ≡ some at → at ≤ now
  pub upstream :
      (d : StepDep) (up : Step)
      → Memᴰ d db.deps
      → Memᴰ up db.steps
      → d.run_id ≡ id
      → d.step_name ≡ s.name
      → up.run_id ≡ id
      → up.name ≡ d.depends_on
      → up.state ≡ step_succeeded

succeeded : (t : StepState) → is_succeeded t ≡ true → t ≡ step_succeeded
succeeded t h = ground arith

-- A row that holds a step back blocks it.
held-blocked :
    (db : Db) (s up : Step) (d : StepDep)
    → Memᴰ d db.deps
    → Memᴰ up db.steps
    → d.run_id ≡ s.run_id
    → d.step_name ≡ s.name
    → up.run_id ≡ s.run_id
    → up.name ≡ d.depends_on
    → is_succeeded up.state ≡ false
    → blocked db s ≡ true
held-blocked db s up d md mu dr dn ur un open_up =
    let held : holds_back s d up ≡ true = ground (
      arith,
      eq_iff up.run_id d.run_id,
      eq_iff up.name d.depends_on,
      eq_iff d.run_id s.run_id,
      eq_iff d.step_name s.name,
    ) in
    exists_row-true (λ x. exists_row (holds_back s x) db.steps) db.deps d md
      (exists_row-true (holds_back s d) db.steps up mu held)

runnable-Ready :
    (now : ℕ) (id : String) (db : Db) (s : Step)
    → Memᴰ s db.steps
    → runnable now id db s ≡ true
    → Ready now id db s
unfolding runnable
runnable-Ready now id db s m h =
    let own : s.run_id ≡ id = ground (arith, eq_iff s.run_id id) in
    record {
      listed = m;
      of_run = own;
      is_waiting = ground arith;
      due = λ at e. ground arith;
      upstream = λ d up md mu dr dn ur un.
          let free : blocked db s ≡ false = ground arith in
          elim (Bool-cases (is_succeeded up.state)) [
            | inl e ↦ succeeded up.state e
            | inr e ↦ absurd (
                let held = held-blocked db s up d md mu (dr ∙ sym own) dn (ur ∙ sym own) un e in cc)
          ];
    }

past_due :
    (now : ℕ) (gate : Option ℕ) → ((at : ℕ) → gate ≡ some at → at ≤ now) → past_gate now gate ≡ true
past_due now none h = refl
past_due now (some at) h = let le = h at refl in ground arith

Ready-free : (now : ℕ) (id : String) (db : Db) (s : Step) → Ready now id db s → blocked db s ≢ true
Ready-free now id db s k b =
    let (d, (md, e)) = exists_row-some (λ x. exists_row (holds_back s x) db.steps) db.deps b in
    let (up, (mu, held)) = exists_row-some (holds_back s d) db.steps e in
    let own = k.of_run in
    let dr : d.run_id ≡ id = ground (arith, eq_iff d.run_id s.run_id) in
    let dn : d.step_name ≡ s.name = ground (arith, eq_iff d.step_name s.name) in
    let ur : up.run_id ≡ id = ground (arith, eq_iff up.run_id d.run_id) in
    let un : up.name ≡ d.depends_on = ground (arith, eq_iff up.name d.depends_on) in
    let done = k.upstream d up md mu dr dn ur un in absurd (ground arith)

Ready-runnable :
    (now : ℕ) (id : String) (db : Db) (s : Step) → Ready now id db s → runnable now id db s ≡ true
unfolding runnable
Ready-runnable now id db s k =
    let own = k.of_run in
    let waits = k.is_waiting in
    let gate : past_gate now s.next_attempt_at ≡ true = past_due now s.next_attempt_at k.due in
    let free : blocked db s ≡ false = elim (Bool-cases (blocked db s)) [
      | inr e ↦ e
      | inl e ↦ absurd (Ready-free now id db s k e)
    ] in
    ground (arith, eq_iff s.run_id id)

-- What an answer of `NextRunnableStep` has to mean.
abbrev pub Answers : ℕ → String → Db → Option String → Type 0
Answers now id db none = (t : Step) → Ready now id db t → ⊥
Answers now id db (some name) =
    (s : Step) × Ready now id db s
    × (s.name ≡ name)
    × ((t : Step) → Ready now id db t → s.idx ≤ t.idx)

-- `NextRunnableStep` names a ready step of the run with the lowest index, and says that there is
-- none exactly when no step of the run is ready.
pub next_runnable_step_lem :
    (now : ℕ) (id : String) (db : Db) → Answers now id db (next_runnable_step now id db)
unfolding next_runnable_step
next_runnable_step_lem now id db =
    let rows = order_by_idx (select (runnable now id db) db.steps) in
    let low : (t : Step) → Ready now id db t → Lowest (first_of rows) t.idx = λ t k.
      first-order (select (runnable now id db) db.steps) t
        (Mem-select (runnable now id db) db.steps t k.listed (Ready-runnable now id db t k)) in
    elim (Option-cases (first_of rows)) [
      | inl e ↦ rw e (λ t k. subst (λ x. Lowest x t.idx) e (low t k))
      | inr (s, e) ↦
          let (m, h) =
            select-Mem (runnable now id db) db.steps s
              ((Mem-order (select (runnable now id db) db.steps) s).0 (first-Mem rows s e)) in
          rw e (
            (
              s,
              runnable-Ready now id db s m h,
              refl,
              λ t k. subst (λ x. Lowest x t.idx) e (low t k),
            ))
    ]
