-- ===== src/Store/Migrate/Holder.antt =====
-- internal/store/migrate.go: `lockHolder`, which names a process in the lock's row, and `holderAlive`,
-- which reads such a name; with `strconv.Atoi` and `Itoa`.
use pulseq.Prelude.{
  ℕ, suc, ◌+◌, ◌-◌, ◌*◌, Bool, true, false, not, ◌&&◌, [], ◌∷◌, ◌++◌, Option, none, some, Text,
  same_text, cut, if◌then◌else◌, ltb, leb, ◌==◌,
}
use pulseq.Prelude.Int.{ℤ, pos, negsuc, half_range}
use pulseq.Spec.Duration.{is_digit, decimal}

-- What a process knows of its machine: `os.Hostname`, if it answers, the id of the boot, empty if
-- none can be read, its own process id, and which processes are alive.
pub record Host : Type 0 where
  pub hostname : Option Text
  pub boot : Text
  pub pid : ℕ
  pub process_alive : ℤ → Bool

-- The number that the digits continue.
unfoldable pub digits_number : ℕ → Text → Option ℕ
digits_number value [] = some value
digits_number value (c ∷ text) =
    let later = digits_number (value * 10 + (c - 48)) text in if is_digit c then later else none

unfoldable pub unsigned_number : Text → Option ℕ
unfolding digits_number
unsigned_number [] = none
unsigned_number (c ∷ text) = digits_number 0 (c ∷ text)

abbrev negated : ℕ → ℤ
negated n = if n == 0 then pos 0 else negsuc (n - 1)

abbrev bounded : Bool → Option ℕ → Option ℤ
bounded minus none = none
bounded minus (some n) =
    if minus
    then (if ltb half_range n then none else some (negated n))
    else if leb half_range n
    then none
    else some (pos n)

-- `strconv.Atoi`, into an int of 64 bits.
unfoldable pub atoi : Text → Option ℤ
unfolding unsigned_number
atoi [] = none
atoi (c ∷ text) =
    if c == 45
    then bounded true (unsigned_number text)
    else if c == 43
    then bounded false (unsigned_number text)
    else bounded false (unsigned_number (c ∷ text))

-- `strconv.Itoa`, of a natural number.
unfoldable pub itoa : ℕ → Text
unfolding decimal
itoa n = decimal (suc n) n []

abbrev pub slash : ℕ
slash = 47

-- "unknown-host"
abbrev pub unknown_host : Text
unknown_host = 117 ∷ 110 ∷ 107 ∷ 110 ∷ 111 ∷ 119 ∷ 110 ∷ 45 ∷ 104 ∷ 111 ∷ 115 ∷ 116 ∷ []

abbrev named : Option Text → Text
named (some name) = name
named none = unknown_host

-- `lockHolder`.
unfoldable pub lock_holder : Host → Text
unfolding itoa
lock_holder h =
    let host = named h.hostname in
    if same_text h.boot []
    then host ++ slash ∷ itoa h.pid
    else host ++ slash ∷ (h.boot ++ slash ∷ itoa h.pid)

-- The process that a number names, or a live one if it names none.
unfoldable pub pid_alive : Host → Text → Bool
unfolding atoi
pid_alive h rest = elim (atoi rest) [ none ↦ true | some number ↦ h.process_alive number ]

-- What follows the host in the name of a holder on this machine.
unfoldable pub holder_here : Host → Text → Bool
unfolding cut pid_alive
holder_here h rest = elim (cut slash rest) [
  | none ↦ pid_alive h rest
  | some (holder_boot, holder_pid) ↦
      if not (same_text h.boot [])
        && not (same_text holder_boot [])
        && not (same_text holder_boot h.boot)
      then false
      else pid_alive h holder_pid
]

-- `holderAlive`.
unfoldable pub holder_alive : Host → Text → Bool
unfolding cut holder_here
holder_alive h holder = elim (cut slash holder) [
  | none ↦ true
  | some (host, rest) ↦ elim h.hostname [
    | none ↦ true
    | some me ↦ if not (same_text host me) then true else holder_here h rest
  ]
]
