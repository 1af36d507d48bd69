-- ===== src/Log/Quota.antt =====
-- internal/logsink/quota.go and tail.go: the ring of the newest lines, the tail of raw bytes, and the
-- check of the sequence numbers. A line is its bytes; a count is below 2 ^ 63.
pub mod Budget
use pulseq.Prelude.{
  ℕ, zero, suc, ◌+◌, ◌-◌, Bool, true, false, ◌&&◌, List, [], ◌∷◌, ◌++◌, Option, none, some, length,
  ltb, leb, if◌then◌else◌,
}
use pulseq.Prelude.Int.{ℤ, pos, ltb_ℤ, leb_ℤ, ◌-ℤ◌}

pub record RingEntry : Type 0 where
  pub encoded : List ℕ
  pub raw_len : ℕ

pub record Ring : Type 0 where
  pub entries : List RingEntry
  pub bytes : ℕ
  pub limit : ℕ

abbrev pub new_ring : ℕ → Ring
new_ring limit = record { entries = []; bytes = 0; limit = limit }

-- What the loop of `push` leaves: the entries, the bytes they hold, and the raw bytes evicted.
pub record Evicted : Type 0 where
  pub kept : List RingEntry
  pub held : ℕ
  pub evicted : ℕ

-- The loop of `push`: the oldest lines go while the new one does not fit.
unfoldable pub evict : ℕ → ℕ → List RingEntry → ℕ → ℕ → Evicted
evict limit size [] held evicted = record { kept = []; held = held; evicted = evicted }
evict limit size (oldest ∷ rest) held evicted =
    let next = evict limit size rest (held - length oldest.encoded) (evicted + oldest.raw_len) in
    if ltb limit (held + size)
    then next
    else record { kept = oldest ∷ rest; held = held; evicted = evicted }

-- `push`: the new ring, and the raw bytes that it lost.
unfoldable pub push : List ℕ → ℕ → Ring → Ring × ℕ
unfolding evict
push encoded raw_len r =
    let e = evict r.limit (length encoded) r.entries r.bytes 0 in
    if ltb r.limit (length encoded)
    then (record { entries = e.kept; bytes = e.held; limit = r.limit }, e.evicted + raw_len)
    else (
      record {
        entries = e.kept ++ record { encoded = encoded; raw_len = raw_len } ∷ [];
        bytes = e.held + length encoded;
        limit = r.limit;
      },
      e.evicted,
    )

-- `s[n:]`.
unfoldable pub drop_bytes : ℕ → List ℕ → List ℕ
drop_bytes zero bs = bs
drop_bytes (suc n) [] = []
drop_bytes (suc n) (b ∷ bs) = drop_bytes n bs

-- `textTail.add` on its buffer.
unfoldable pub tail_add : ℕ → List ℕ → List ℕ → List ℕ
unfolding drop_bytes
tail_add capacity buf p =
    let all = buf ++ p in
    if ltb capacity (length all) then drop_bytes (length all - capacity) all else all

-- tail.go: `SeqCheck`, the last number seen.
pub record SeqCheck : Type 0 where
  pub last : ℤ
  pub seen : Bool

-- `Next`: the new state, how many numbers are missing, and whether any is.
unfoldable pub next_seq : SeqCheck → ℤ → SeqCheck × ℤ × Bool
unfolding ◌-ℤ◌
next_seq c seq =
    let after : SeqCheck = record { last = seq; seen = true } in
    let gap = seq -ℤ c.last -ℤ pos 1 in
    if c.seen && ltb_ℤ c.last seq then (after, gap, ltb_ℤ (pos 0) gap) else (after, pos 0, false)

-- `ring.flush`: the retained lines go to a writer, oldest first, until it fails.
unfoldable pub flush {ℓ} : {E : Type ℓ} → (List ℕ → Option E) → List RingEntry → Option E
flush write [] = none
flush write (entry ∷ rest) =
    let later = flush write rest in elim (write entry.encoded) [ some e ↦ some e | none ↦ later ]
