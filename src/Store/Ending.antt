-- ===== src/Store/Ending.antt =====
-- How a run ends through internal/store: what `FinishRun` needs and decides, and that the first
-- cancel request stands.
use pulseq.Prelude.{
  ◌⊎◌, ◌≡◌, refl, sym, ap, ◌∙◌, ℕ, String, List, [], ◌∷◌, Option, none, some, arith, Option-cases,
  inl, inr,
}
use pulseq.Model.Guards.{Guards}
use pulseq.Store.Table.{find, update}
use pulseq.Store.Rows.{Run, Db, has_id, find_run, or_empty, null_if_empty}
use pulseq.Store.Tx.{done}
use pulseq.Store.Finish.{request_cancel, CancelRequest, cancel_requested_row, coalesce}

find-update_id :
    (id : String) (f : Run → Run) (rows : List Run) (r : Run)
    → ((q : Run) → (f q).id ≡ q.id)
    → find (has_id id) rows ≡ some r
    → find (has_id id) (update (has_id id) f rows) ≡ some (f r)
unfolding find update
find-update_id id f [] r keeps h = cc
find-update_id id f (x ∷ rows) r keeps h = ground (arith, keeps x, find-update_id id f rows r keeps)

request_inversion :
    (now : ℕ) (id by why : String) (db db' : Db) (a : CancelRequest)
    → request_cancel now id by why db ≡ done a db'
    → (r : Run) × (find_run db id ≡ some r)
      × (let row = cancel_requested_row now by why r in
          (find_run db' id ≡ some row)
          × (a.requested_at ≡ row.cancel_requested_at)
          × (a.requested_by ≡ or_empty row.cancel_requested_by)
          × (a.reason ≡ or_empty row.cancel_reason))
unfolding request_cancel find_run
request_inversion now id by why db db' a h = elim (Option-cases (find_run db id)) [
  | inl nobody ↦ absurd (ground arith)
  | inr (r, found) ↦
      let row : Run → Run = cancel_requested_row now by why in
      let there = find-update_id id row db.runs r (λ q. refl) found in
      let runs : db'.runs ≡ update (has_id id) row db.runs = ground arith in
      (r, found, (rw runs there, ground arith, ground arith, ground arith))
]

-- `COALESCE` keeps the value that a column has.
twice :
    {A : Type 0} (column : Option A) (a : A) (d : Option A)
    → coalesce (coalesce column (some a)) d ≡ coalesce column (some a)
twice none a d = refl
twice (some b) a d = refl

stays :
    (column a d : Option String)
    → (or_empty (coalesce column a) ≡ "")
      ⊎ (or_empty (coalesce (coalesce column a) d) ≡ or_empty (coalesce column a))
stays none none d = inl refl
stays none (some a) d = inr refl
stays (some c) a d = inr refl

-- Asking twice to cancel a run answers with the time and the reason of the first request, and with
-- its author unless the first one named nobody.
pub request_cancel_once :
    (t u : ℕ) (id by why by' why' : String) (db mid db' : Db) (a b : CancelRequest)
    → request_cancel t id by why db ≡ done a mid
    → request_cancel u id by' why' mid ≡ done b db'
    → (b.requested_at ≡ a.requested_at)
      × (b.reason ≡ a.reason)
      × ((a.requested_by ≡ "") ⊎ (b.requested_by ≡ a.requested_by))
unfolding null_if_empty
request_cancel_once t u id by why by' why' db mid db' a b first second =
    let (r, found, (kept, at, who, because)) = request_inversion t id by why db mid a first in
    let (q, there, (_, at', who', because')) = request_inversion u id by' why' mid db' b second in
    let same : q ≡ cancel_requested_row t by why r = ground arith in
    let at'' = rw same at at' in
    let who'' = rw same at who' in
    let because'' = rw same at because' in
    (
      at'' ∙ twice r.cancel_requested_at t (some u) ∙ sym at,
      because'' ∙ ap or_empty (twice r.cancel_reason why (some why')) ∙ sym because,
      elim (stays r.cancel_requested_by (null_if_empty by) (null_if_empty by')) [
        | inl nobody ↦ inl (who ∙ nobody)
        | inr kept_name ↦ inr (who'' ∙ kept_name ∙ sym who)
      ],
    )
