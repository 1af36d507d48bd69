-- ===== src/Store/Migrate/Written.antt =====
-- What `holderAlive` of internal/store/migrate.go reads of the names that `lockHolder` writes.
use pulseq.Prelude.{
  ℕ, zero, suc, ◌+◌, ◌/◌, ◌%◌, ◌≤◌, ◌<◌, ◌≡◌, refl, subst, ◌∙◌, ap, Bool, true, false, not, ◌&&◌,
  [], ◌∷◌, ◌++◌, some, Text, same_text, Without, cut-append, cut-none, Bool-cases, inl, inr, arith,
  if◌then◌else◌, ltb, ◌==◌,
}
use pulseq.Prelude.Int.{pos, half_range}
use pulseq.Spec.Duration.{decimal, is_digit}
use pulseq.Spec.Duration.Decimal.{Digits, decimal-Digits, decimal_cons}
use pulseq.Store.Migrate.Holder.{
  Host, digits_number, unsigned_number, atoi, itoa, lock_holder, pid_alive, holder_here,
  holder_alive, slash,
}

digits_number-decimal :
    (fuel n : ℕ) (text : Text)
    → n < fuel
    → digits_number 0 (decimal fuel n text) ≡ digits_number n text
unfolding decimal digits_number
digits_number-decimal zero n text more = absurd (omega (arith, more))
digits_number-decimal (suc fuel) n text more = elim (Bool-cases (ltb n 10)) [
  | inl small ↦ rw small (
      let digit : is_digit (48 + n) ≡ true = ground arith in
      rw digit (ap (λ v. digits_number v text) (omega arith)))
  | inr large ↦ rw large (
      let ten : 10 ≤ n = ground arith in
      let digit : is_digit (48 + n % 10) ≡ true = ground arith in
      digits_number-decimal fuel (n / 10) ((48 + n % 10) ∷ text) (omega (arith, more, ten))
      ∙ rw digit (ap (λ v. digits_number v text) (omega arith)))
]

-- What `Itoa` writes, `Atoi` reads.
pub atoi-itoa : (n : ℕ) → n < half_range → atoi (itoa n) ≡ some (pos n)
unfolding atoi itoa unsigned_number
atoi-itoa n small =
    let (d, ds, e) = decimal_cons n n in
    let digits : Digits (d ∷ ds) = subst Digits e (decimal-Digits (suc n) n [] tt) in
    let value : digits_number 0 (d ∷ ds) ≡ some n =
      subst (λ t. digits_number 0 t ≡ some n) e
        (digits_number-decimal (suc n) n [] (omega arith)) in
    let no_minus : (d == 45) ≡ false = ground (arith, digits.0) in
    let no_plus : (d == 43) ≡ false = ground (arith, digits.0) in
    rw (e, no_minus, no_plus, value) (ground arith)

Digits-Without : (t : Text) → Digits t → Without slash t
Digits-Without [] h = tt
Digits-Without (c ∷ t) h = (ground (arith, h.0), Digits-Without t h.1)

itoa-Digits : (n : ℕ) → Digits (itoa n)
unfolding itoa
itoa-Digits n = decimal-Digits (suc n) n [] tt

pid_alive-itoa :
    (h : Host) (n : ℕ) → n < half_range → pid_alive h (itoa n) ≡ h.process_alive (pos n)
unfolding pid_alive
pid_alive-itoa h n small = rw (pid_alive, atoi-itoa n small) refl

-- A boot that both processes know and that is not the same.
abbrev pub other_boot : Host → Host → Bool
other_boot reader writer =
    not (same_text reader.boot [])
    && not (same_text writer.boot [])
    && not (same_text writer.boot reader.boot)

holder_here-boot :
    (reader writer : Host)
    → writer.pid < half_range
    → Without slash writer.boot
    → holder_here reader (writer.boot ++ slash ∷ itoa writer.pid)
      ≡ (if other_boot reader writer then false else reader.process_alive (pos writer.pid))
unfolding holder_here
holder_here-boot reader writer small plain =
    rw
      (
        holder_here,
        cut-append slash writer.boot (itoa writer.pid) plain,
        pid_alive-itoa reader writer.pid small,
      )
      refl

holder_here-pid :
    (reader : Host) (pid : ℕ)
    → pid < half_range
    → holder_here reader (itoa pid) ≡ reader.process_alive (pos pid)
unfolding holder_here
holder_here-pid reader pid small =
    rw
      (
        holder_here,
        cut-none slash (itoa pid) (Digits-Without (itoa pid) (itoa-Digits pid)),
        pid_alive-itoa reader pid small,
      )
      refl

-- One process reads the name that another wrote in the lock's row, where host names and boot ids
-- have no slash and the writer's host name was known: the writer is alive if it is on another host;
-- on the reader's host it is dead if both know their boots and these differ, and otherwise as alive
-- as the process with its id.
pub holder_alive-lock_holder :
    (reader writer : Host) (here there : Text)
    → reader.hostname ≡ some here
    → writer.hostname ≡ some there
    → Without slash there
    → Without slash writer.boot
    → writer.pid < half_range
    → holder_alive reader (lock_holder writer) ≡ (
        if not (same_text there here)
        then true
        else if other_boot reader writer
        then false
        else reader.process_alive (pos writer.pid))
unfolding holder_alive lock_holder
holder_alive-lock_holder reader writer here there r w plain plain_boot small =
    elim (Bool-cases (same_text writer.boot [])) [
      | inl bare ↦
          rw
            (
              lock_holder,
              holder_alive,
              w,
              bare,
              cut-append slash there (itoa writer.pid) plain,
              r,
              holder_here-pid reader writer.pid small,
            )
            (ground arith)
      | inr booted ↦
          rw
            (
              lock_holder,
              holder_alive,
              w,
              booted,
              cut-append slash there (writer.boot ++ slash ∷ itoa writer.pid) plain,
              r,
              holder_here-boot reader writer small plain_boot,
              booted,
            )
            (ground arith)
    ]
