-- ===== src/Assembly/Content/Stretch.antt =====
-- Stretches of a sent stream, and the segments and pages of capturer/extendedassembly.go that hold one.
-- The stream gives the byte of each sequence number; nothing of it wraps.
use data_collector.Base.{
  ℕ, zero, suc, ◌+◌, ◌-◌, ◌^◌, ◌≤◌, ◌<◌, ◌≡◌, sym, ap, ◌∙◌, subst, List, [], ◌∷◌, ◌++◌, length,
  length-drop, drop, max, arith, ℤ, pos, leb_ℤ, ltb_ℤ, true, false,
}
use data_collector.Assembly.Sequence.{difference, byte_span}
use data_collector.Assembly.Sequence.Order.{difference_near}
use data_collector.Assembly.Sequence.Span.{byte_span_lem}

-- These bytes are those sent from sequence number n on.
abbrev pub IsStretch : (ℕ → ℕ) → ℕ → List ℕ → Type 0
IsStretch b n [] = Unit {0}
IsStretch b n (x ∷ xs) = (x ≡ b n) × IsStretch b (suc n) xs

pub IsStretch-append :
    (b : ℕ → ℕ) (n : ℕ) (xs ys : List ℕ)
    → IsStretch b n xs
    → IsStretch b (n + length xs) ys
    → IsStretch b n (xs ++ ys)
IsStretch-append b n [] ys h k =
    let e : n + 0 ≡ n = omega arith in subst (λ z. IsStretch b z ys) e k
IsStretch-append b n (x ∷ xs) ys h k =
    let e : n + suc (length xs) ≡ suc n + length xs = omega arith in
    (h.0, IsStretch-append b (suc n) xs ys h.1 (subst (λ z. IsStretch b z ys) e k))

pub IsStretch-drop :
    (b : ℕ → ℕ) (k n : ℕ) (xs : List ℕ) → IsStretch b n xs → IsStretch b (n + k) (drop k xs)
IsStretch-drop b zero n xs h = let e : n ≡ n + 0 = omega arith in subst (λ z. IsStretch b z xs) e h
IsStretch-drop b (suc k) n [] h = tt
IsStretch-drop b (suc k) n (x ∷ xs) h =
    let e : suc n + k ≡ n + suc k = omega arith in
    subst (λ z. IsStretch b z (drop k xs)) e (IsStretch-drop b k (suc n) xs h.1)

-- A part of the sequence space that does not wrap, small enough to compare the numbers in it.
pub record Window (lo hi : ℕ) : Type 0 where
  pub small : hi ≤ lo + 2 ^ 30
  pub within : hi < 2 ^ 32

-- A segment within the window, at r.
pub record Within (b : ℕ → ℕ) (lo hi : ℕ) (seq : ℤ) (bytes : List ℕ) : Type 0 where
  pub at : ℕ
  pub seq_is : seq ≡ pos at
  pub not_before : lo ≤ at
  pub not_after : at + length bytes ≤ hi
  pub stretch : IsStretch b at bytes

-- What `byteSpan` keeps of a segment that does not begin later than expected: it goes on where the
-- expected number is, and up to the next one.
pub record Cut (b : ℕ → ℕ) (hi e : ℕ) (kept : List ℕ) (next : ℤ) : Type 0 where
  pub goes_on : IsStretch b e kept
  pub next_is : next ≡ pos (e + length kept)
  pub bounded : e + length kept ≤ hi

pub byte_span-Cut :
    (b : ℕ → ℕ) (lo hi e : ℕ) (seq : ℤ) (bytes : List ℕ)
    → Window lo hi
    → lo ≤ e
    → e ≤ hi
    → (s : Within b lo hi seq bytes) → s.at ≤ e
    → Cut b hi e (byte_span (pos e) seq bytes).0 (byte_span (pos e) seq bytes).1
      × (s.at + length bytes ≤ e + length (byte_span (pos e) seq bytes).0)
byte_span-Cut b lo hi e seq bytes w l h s le =
    let r = s.at in
    let run : byte_span (pos e) seq bytes ≡ (drop (e - r) bytes, pos (max e (r + length bytes))) =
      ap (λ z. byte_span (pos e) z bytes) s.seq_is
      ∙ byte_span_lem e r bytes (omega (arith, w.within, h)) (omega (arith, w.within, s.not_after))
          (omega (arith, w.small, h, s.not_before)) (omega (arith, le)) in
    let at_e : r + (e - r) ≡ e = omega (arith, le) in
    let len = length-drop (e - r) bytes in
    let next : max e (r + length bytes) ≡ e + length (drop (e - r) bytes) =
      omega (arith, le, len) in
    let bound = s.not_after in
    (
      record {
        goes_on = subst (IsStretch b e) (sym (ap (λ z. z.0) run)) (
            subst (λ z. IsStretch b z (drop (e - r) bytes)) at_e
              (IsStretch-drop b (e - r) r bytes s.stretch));
        next_is = ap (λ z. z.1) run ∙ ap pos next ∙ ap (λ z. pos (e + length z.0)) (sym run);
        bounded = omega (arith, ap (λ z. length z.0) run, len, h, bound, le);
      },
      omega (arith, ap (λ z. length z.0) run, len, le),
    )

-- The tests of the source, in the window.
pub not_later :
    (lo hi e r : ℕ)
    → Window lo hi
    → lo ≤ e
    → e ≤ hi
    → lo ≤ r
    → r ≤ hi
    → leb_ℤ (difference (pos e) (pos r)) (pos 0) ≡ true
    → r ≤ e
not_later lo hi e r w a b c d t =
    let near = difference_near e r (omega (arith, w.small, b, c)) (omega (arith, w.small, a, d)) in
    ground (arith, near, t)

pub not_ahead :
    (lo hi e r : ℕ)
    → Window lo hi
    → lo ≤ e
    → e ≤ hi
    → lo ≤ r
    → r ≤ hi
    → ltb_ℤ (pos 0) (difference (pos e) (pos r)) ≡ false
    → r ≤ e
not_ahead lo hi e r w a b c d t =
    let near = difference_near e r (omega (arith, w.small, b, c)) (omega (arith, w.small, a, d)) in
    ground (arith, near, t)
