-- ===== src/Assembly/Sequence/Span.antt =====
-- `byteSpan` of capturer/extendedassembly.go: the new bytes of a segment.
use data_collector.Base.{
  ℕ, ◌+◌, ◌-◌, ◌^◌, ◌≤◌, ◌<◌, ◌≡◌, List, arith, inl, inr, Bool-cases, ap, ◌∙◌, length, drop,
  drop_all, max, ℤ, pos, ◌-ℤ◌, ltb_ℤ, leb_ℤ, eqb_ℤ,
}
use data_collector.Assembly.Sequence.{invalid_sequence, difference, add, byte_span}
use data_collector.Assembly.Sequence.Order.{difference_near}
use data_collector.Assembly.Sequence.Range.{IsSequence, add-IsSequence}

-- Where neither segment nor expectation wraps, and they are at most 2^31 apart: of a segment at `r` the
-- bytes from the expected sequence number `e` on are kept, all of them if it begins later, and the
-- larger of `e` and the segment's end is expected next.
pub byte_span_lem :
    (e r : ℕ) (bytes : List ℕ)
    → e < 2 ^ 32
    → r + length bytes < 2 ^ 32
    → e ≤ r + 2 ^ 31
    → r ≤ e + 2 ^ 31
    → byte_span (pos e) (pos r) bytes ≡ (drop (e - r) bytes, pos (max e (r + length bytes)))
unfolding byte_span add ◌-ℤ◌
byte_span_lem e r bytes he hr h k = ground (arith, difference_near r e, drop_all (e - r) bytes)

-- If the expected sequence number is in [0, 2^32), so is the one expected after any segment.
pub byte_span-IsSequence :
    (e r : ℤ) (bytes : List ℕ) → IsSequence e → IsSequence (byte_span e r bytes).1
unfolding byte_span
byte_span-IsSequence e r bytes s = elim (Bool-cases (eqb_ℤ e invalid_sequence)) [
  | inl a ↦ rw a (add-IsSequence r (pos (length bytes)))
  | inr a ↦ elim (Bool-cases (leb_ℤ (difference r e) (pos 0))) [
    | inl b ↦ rw (a, b) (add-IsSequence r (pos (length bytes)))
    | inr b ↦ elim (Bool-cases (ltb_ℤ (pos (length bytes)) (difference r e))) [
      | inl c ↦ rw (a, b, c) s
      | inr c ↦ rw (a, b, c) (add-IsSequence e (pos (length bytes) -ℤ difference r e))
    ]
  ]
]

add_wrapped :
    (r k : ℕ)
    → r < 2 ^ 32
    → k < 2 ^ 32
    → 2 ^ 32 ≤ r + k
    → add (pos r) (pos k) ≡ pos (r + k - 2 ^ 32)
unfolding add
add_wrapped r k hr hk wrap = ground arith

difference_wrapped :
    (r k : ℕ)
    → r < 2 ^ 32
    → 0 < k
    → k < 0x3FFF_FFFF
    → 2 ^ 32 ≤ r + k
    → difference (pos r) (pos (r + k - 2 ^ 32)) ≡ pos (k - 1)
unfolding difference
difference_wrapped r k hr hk hk' wrap = ground arith

cut_short :
    (e r k : ℕ) (bytes : List ℕ)
    → difference (pos r) (pos e) ≡ pos k
    → 0 < k
    → k ≤ length bytes
    → byte_span (pos e) (pos r) bytes ≡ (drop k bytes, add (pos e) (pos (length bytes - k)))
unfolding byte_span ◌-ℤ◌
cut_short e r k bytes d hk le = rw d (ground arith)

add_past :
    (r k n : ℕ)
    → r < 2 ^ 32
    → 2 ^ 32 ≤ r + k
    → k ≤ n
    → 0 < k
    → add (pos (r + k - 2 ^ 32)) (pos (n - (k - 1))) ≡ add (pos r) (pos (n + 1))
unfolding add
add_past r k n hr wrap le hk = ground arith

-- Over a wrap, with `1 < k` bytes of a segment at `r` already delivered: only `k - 1` bytes are cut
-- off, so one is delivered twice, and the sequence number expected next is one past the segment's end.
pub byte_span_wrap :
    (r k : ℕ) (bytes : List ℕ)
    → r < 2 ^ 32
    → 1 < k
    → k < 0x3FFF_FFFF
    → 2 ^ 32 ≤ r + k
    → k ≤ length bytes
    → byte_span (add (pos r) (pos k)) (pos r) bytes
      ≡ (drop (k - 1) bytes, add (pos r) (pos (length bytes + 1)))
byte_span_wrap r k bytes hr hk hk' wrap le = rw (add_wrapped r k hr (omega arith) wrap) (
    cut_short (r + k - 2 ^ 32) r (k - 1) bytes (difference_wrapped r k hr (omega arith) hk' wrap)
      (omega arith) (omega arith)
    ∙ ap (λ (n : ℤ). (drop (k - 1) bytes, n))
        (add_past r k (length bytes) hr wrap le (omega arith)))
