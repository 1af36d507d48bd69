-- ===== src/Log/Quota/Budget.antt =====
-- What the ring and the tail of internal/logsink/quota.go promise: the budget is kept, the counters
-- are true, and every raw byte is kept or counted as lost.
use pulseq.Prelude.{
  ℕ, zero, suc, ◌+◌, ◌-◌, ◌≤◌, ◌≡◌, refl, sym, ap, ◌∙◌, List, [], ◌∷◌, ◌++◌, length, ltb, arith,
  Bool-cases, inl, inr, length-append,
}
use pulseq.Log.Quota.{RingEntry, Ring, Evicted, evict, push, drop_bytes, tail_add}

-- The encoded bytes and the raw bytes of some entries.
unfoldable pub encoded_size : List RingEntry → ℕ
encoded_size [] = 0
encoded_size (e ∷ es) = length e.encoded + encoded_size es

unfoldable pub raw_size : List RingEntry → ℕ
raw_size [] = 0
raw_size (e ∷ es) = e.raw_len + raw_size es

-- A ring whose counter is the bytes of its lines, within the limit.
pub record WithinBudget (r : Ring) : Type 0 where
  pub counted : r.bytes ≡ encoded_size r.entries
  pub within : r.bytes ≤ r.limit

encoded_size-append :
    (xs ys : List RingEntry) → encoded_size (xs ++ ys) ≡ encoded_size xs + encoded_size ys
unfolding encoded_size
encoded_size-append [] ys = omega arith
encoded_size-append (x ∷ xs) ys = omega (arith, encoded_size-append xs ys)

raw_size-append : (xs ys : List RingEntry) → raw_size (xs ++ ys) ≡ raw_size xs + raw_size ys
unfolding raw_size
raw_size-append [] ys = omega arith
raw_size-append (x ∷ xs) ys = omega (arith, raw_size-append xs ys)

-- The loop leaves a true counter, room for a line that fits at all, and loses no byte uncounted.
record Made (limit size : ℕ) (es : List RingEntry) (lost : ℕ) (e : Evicted) : Type 0 where
  counted : e.held ≡ encoded_size e.kept
  room : size ≤ limit → e.held + size ≤ limit
  fewer : e.held ≤ encoded_size es
  balanced : e.evicted + raw_size e.kept ≡ lost + raw_size es

evict-Made :
    (limit size : ℕ) (es : List RingEntry) (held lost : ℕ)
    → held ≡ encoded_size es
    → Made limit size es lost (evict limit size es held lost)
unfolding evict encoded_size raw_size
evict-Made limit size [] held lost h = record {
  counted = h;
  room = λ fits. omega arith;
  fewer = omega arith;
  balanced = refl;
}
evict-Made limit size (o ∷ rest) held lost h =
    let m = evict-Made limit size rest (held - length o.encoded) (lost + o.raw_len) (omega arith) in
    elim (Bool-cases (ltb limit (held + size))) [
      | inl e ↦ rw e (record {
        counted = m.counted;
        room = m.room;
        fewer = omega (arith, m.fewer);
        balanced = omega (arith, m.balanced);
      })
      | inr e ↦ rw e (record {
        counted = h;
        room = λ fits. ground arith;
        fewer = omega arith;
        balanced = refl;
      })
    ]

-- A push keeps the ring within its byte budget, with a true counter, and each raw byte that came in
-- is in the ring or in the count of lost bytes that `push` returns.
pub push_balance :
    (encoded : List ℕ) (raw_len : ℕ) (r : Ring)
    → WithinBudget r
    → WithinBudget (push encoded raw_len r).0
      × ((push encoded raw_len r).1 + raw_size (push encoded raw_len r).0.entries
          ≡ raw_size r.entries + raw_len)
unfolding push encoded_size raw_size
push_balance encoded raw_len r w =
    let m = evict-Made r.limit (length encoded) r.entries r.bytes 0 w.counted in
    let last : RingEntry = record { encoded = encoded; raw_len = raw_len } in
    elim (Bool-cases (ltb r.limit (length encoded))) [
      | inl e ↦ rw e (
        record { counted = m.counted; within = omega (arith, m.fewer, w.counted, w.within) },
        omega (arith, m.balanced),
      )
      | inr e ↦
          let kept = (evict r.limit (length encoded) r.entries r.bytes 0).kept in
          let size = encoded_size-append kept (last ∷ []) in
          let raw = raw_size-append kept (last ∷ []) in
          rw e (
            record { counted = omega (arith, size, m.counted); within = m.room (ground arith) },
            omega (arith, raw, m.balanced),
          )
    ]

length-drop_bytes : (n : ℕ) (bs : List ℕ) → length (drop_bytes n bs) ≡ length bs - n
unfolding drop_bytes
length-drop_bytes zero bs = omega arith
length-drop_bytes (suc n) [] = omega arith
length-drop_bytes (suc n) (b ∷ bs) = omega (arith, length-drop_bytes n bs)

drop-append :
    (n : ℕ) (xs ys : List ℕ) → n ≤ length xs → drop_bytes n (xs ++ ys) ≡ drop_bytes n xs ++ ys
unfolding drop_bytes
drop-append zero xs ys h = refl
drop-append (suc n) [] ys h = absurd (omega arith)
drop-append (suc n) (x ∷ xs) ys h = drop-append n xs ys (omega arith)

drop-nil : (n : ℕ) → drop_bytes n [] ≡ []
unfolding drop_bytes
drop-nil zero = refl
drop-nil (suc n) = refl

drop-drop : (a b c : ℕ) (xs : List ℕ) → c ≡ b + a → drop_bytes a (drop_bytes b xs) ≡ drop_bytes c xs
unfolding drop_bytes
drop-drop a zero c xs h = ap (λ k. drop_bytes k xs) (omega arith)
drop-drop a (suc b) c [] h = drop-nil a ∙ sym (drop-nil c)
drop-drop a (suc b) zero (x ∷ xs) h = absurd (omega arith)
drop-drop a (suc b) (suc c) (x ∷ xs) h = drop-drop a b c xs (omega arith)

-- The last bytes of all that a stream wrote.
unfoldable pub last_bytes : ℕ → List ℕ → List ℕ
unfolding drop_bytes
last_bytes capacity xs = drop_bytes (length xs - capacity) xs

-- A tail that holds the last bytes of what was written holds the last bytes again when more is.
pub tail_add-last_bytes :
    (capacity : ℕ) (written p : List ℕ)
    → tail_add capacity (last_bytes capacity written) p ≡ last_bytes capacity (written ++ p)
unfolding tail_add last_bytes
tail_add-last_bytes capacity written p =
    let n = length written - capacity in
    let size = length-drop_bytes n written in
    let all = length-append (drop_bytes n written) p in
    let total = length-append written p in
    let split = drop-append n written p (omega arith) in
    elim (Bool-cases (ltb capacity (length (drop_bytes n written ++ p)))) [
      | inl e ↦ rw e (
          ap (drop_bytes (length (drop_bytes n written ++ p) - capacity)) (sym split)
          ∙ drop-drop (length (drop_bytes n written ++ p) - capacity) n
              (length (written ++ p) - capacity) (written ++ p) (ground arith))
      | inr e ↦ rw e (sym split ∙ ap (λ k. drop_bytes k (written ++ p)) (ground arith))
    ]
