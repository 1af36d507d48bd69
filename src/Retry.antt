-- ===== src/Retry.antt =====
-- internal/retry/backoff.go: the delay before the next attempt. A duration is an int64 number of
-- nanoseconds, an integer with its wrap-around written out.
pub mod Bounds
pub mod Doubling
use pulseq.Prelude.{
  ℕ, zero, suc, ◌-◌, ◌||◌, ◌&&◌, not, String, Option, none, some, str_eq, if◌then◌else◌,
}
use pulseq.Prelude.Int.{ℤ, pos, negsuc, ◌+ℤ◌, ltb_ℤ, leb_ℤ, wrap64}

pub record Policy : Type 0 where
  pub backoff : String
  pub initial : ℤ
  pub max_delay : ℤ
  pub jitter : String

abbrev pub exponential : String
exponential = "exponential"

abbrev pub fixed : String
fixed = "fixed"

abbrev pub jitter_full : String
jitter_full = "full"

abbrev pub jitter_none : String
jitter_none = "none"

-- The loop that doubles until the cap, over the rounds that are left.
unfoldable pub grow : ℕ → ℤ → ℤ → ℤ
unfolding wrap64 ◌+ℤ◌
grow zero base max_delay = base
grow (suc rounds) base max_delay =
    let next = wrap64 (base +ℤ base) in
    let rest = grow rounds next max_delay in
    if ltb_ℤ next base || leb_ℤ max_delay next then max_delay else rest

-- `attempt - 1`, with an attempt below one counted as the first.
unfoldable pub rounds_before : ℤ → ℕ
rounds_before (pos n) = n - 1
rounds_before (negsuc n) = 0

abbrev pub cap_at : ℤ → ℤ → ℤ
cap_at max_delay base = if ltb_ℤ (pos 0) max_delay && ltb_ℤ max_delay base then max_delay else base

abbrev pub floor_zero : ℤ → ℤ
floor_zero base = if ltb_ℤ base (pos 0) then pos 0 else base

-- The delay before the jitter.
unfoldable pub base_delay : Policy → ℤ → ℤ
unfolding grow rounds_before
base_delay p attempt = floor_zero (
    cap_at p.max_delay (
      if not (str_eq p.backoff fixed)
      then grow (rounds_before attempt) p.initial p.max_delay
      else p.initial))

-- `rnd.Int64N`: it panics at a nil source and at a bound that is not positive. The source draws a
-- number for a bound; `none` is the panic.
abbrev pub Source : Type 0
Source = Option (ℕ → ℕ)

unfoldable pub int64_n : Source → ℤ → Option ℤ
int64_n none n = none
int64_n (some draw) (negsuc n) = none
int64_n (some draw) (pos zero) = none
int64_n (some draw) (pos (suc n)) = some (pos (draw (suc n)))

-- `Delay`.
unfoldable pub delay : Policy → ℤ → Source → Option ℤ
unfolding base_delay int64_n wrap64 ◌+ℤ◌
delay p attempt rnd =
    let base = base_delay p attempt in
    if str_eq p.jitter jitter_none then some base else int64_n rnd (wrap64 (base +ℤ pos 1))
