-- ===== src/Store/Fsck/Unbroken.antt =====
-- The check I15 of internal/store/fsck.go finds nothing in tables that calls of the store have made.
use pulseq.Prelude.{
  ◌≡◌, ◌≢◌, refl, sym, subst, ◌⊎◌, inl, inr, Bool, false, String, List, [], ◌∷◌, ◌++◌, Option, none,
  some, eq_iff, eq_refl, if◌then◌else◌, arith, Bool-cases,
}
use mathlib.Core.List.{append-nil, append_assoc}
use pulseq.Store.Rows.{RunEvent}
use pulseq.Store.Invariant.{told, tells_run, tells_step}
use pulseq.Store.Fsck.{same_partition, breaks, chain_breaks}

-- No event is of a step without a name.
abbrev pub Plain : List RunEvent → Type 0
Plain [] = Unit {0}
Plain (e ∷ es) = (e.step_name ≢ some "") × Plain es

pub Plain-append :
    (es : List RunEvent) (e : RunEvent) → Plain es → e.step_name ≢ some "" → Plain (es ++ e ∷ [])
Plain-append [] e p h = (h, tt)
Plain-append (d ∷ es) e p h = (p.0, Plain-append es e p.1 h)

partition_of_run :
    (e d : RunEvent)
    → e.step_name ≡ none
    → d.step_name ≢ some ""
    → same_partition e d ≡ tells_run e.run_id d
partition_of_run e d run plain = split d.step_name refl
  where
    split : (o : Option String) → d.step_name ≡ o → same_partition e d ≡ tells_run e.run_id d
    split none is = rw (run, is) (ground arith)
    split (some n) is = rw (run, is) (ground (arith, eq_iff "" n))

partition_of_step :
    (e d : RunEvent) (name : String)
    → e.step_name ≡ some name
    → name ≢ ""
    → same_partition e d ≡ tells_step e.run_id name d
partition_of_step e d name step named = split d.step_name refl
  where
    split : (o : Option String) → d.step_name ≡ o → same_partition e d ≡ tells_step e.run_id name d
    split none is = rw (step, is) (ground (arith, eq_iff name ""))
    split (some n) is = rw (step, is) refl

-- Two readings of the events that agree on each event tell the same.
pub told_run :
    (e : RunEvent) (start : Option String) (es : List RunEvent)
    → e.step_name ≡ none
    → Plain es
    → told (same_partition e) start es ≡ told (tells_run e.run_id) start es
unfolding told
told_run e start [] run p = refl
told_run e start (d ∷ es) run p =
    rw (partition_of_run e d run p.0)
      (told_run e (if tells_run e.run_id d then d.to_state else start) es run p.1)

pub told_step :
    (e : RunEvent) (name : String) (start : Option String) (es : List RunEvent)
    → e.step_name ≡ some name
    → name ≢ ""
    → told (same_partition e) start es ≡ told (tells_step e.run_id name) start es
unfolding told
told_step e name start [] step named = refl
told_step e name start (d ∷ es) step named =
    rw (partition_of_step e d name step named)
      (told_step e name (if tells_step e.run_id name d then d.to_state else start) es step named)

-- Without a start, the events tell nothing or what they tell from any start.
told_or_nothing :
    (about : RunEvent → Bool) (start : Option String) (es : List RunEvent)
    → (told about none es ≡ none) ⊎ (told about none es ≡ told about start es)
unfolding told
told_or_nothing about start [] = inl refl
told_or_nothing about start (d ∷ es) = elim (Bool-cases (about d)) [
  | inl is ↦ inr (rw is refl)
  | inr not_it ↦ rw not_it (told_or_nothing about start es)
]

-- An event that leaves the state that the earlier ones tell does not break the chain.
pub picks_up :
    (e : RunEvent) (start : Option String) (from : String) (es : List RunEvent)
    → e.from_state ≡ some from
    → told (same_partition e) start es ≡ some from
    → breaks es e ≡ false
unfolding breaks
picks_up e start from es leaves tells = elim (told_or_nothing (same_partition e) start es) [
  | inl nothing ↦ rw nothing refl
  | inr same ↦ rw (same, tells, leaves) (ground (arith, eq_refl from))
]

pub first_of_chain :
    (e : RunEvent) (es : List RunEvent)
    → told (same_partition e) none es ≡ none
    → breaks es e ≡ false
unfolding breaks
first_of_chain e es nothing = rw nothing refl

pub chain_breaks-append :
    (earlier es : List RunEvent) (e : RunEvent)
    → chain_breaks earlier es ≡ []
    → breaks (earlier ++ es) e ≡ false
    → chain_breaks earlier (es ++ e ∷ []) ≡ []
unfolding chain_breaks
chain_breaks-append earlier [] e whole next =
    rw (subst (λ x. breaks x e ≡ false) (append-nil earlier) next) refl
chain_breaks-append earlier (d ∷ es) e whole next = elim (Bool-cases (breaks earlier d)) [
  | inl broken ↦ absurd (let h = rw broken at whole in cc)
  | inr fine ↦ rw fine (
      chain_breaks-append (earlier ++ d ∷ []) es e (let h = rw fine at whole in h)
        (subst (λ x. breaks x e ≡ false) (sym (append_assoc earlier (d ∷ []) es)) next))
]
