-- ===== src/Assembly/Sequence/Order.antt =====
-- `Difference` of capturer/extendedassembly.go: how far apart two sequence numbers are.
use data_collector.Base.{
  ℕ, ◌+◌, ◌-◌, ◌/◌, ◌^◌, ◌≤◌, ◌<◌, ◌≡◌, ◌&&◌, arith, if◌then◌else◌, Bool, true, false, inl, inr,
  Bool-cases, sym, ltb, ℤ, pos, negsuc, neg, eqb_ℤ, sub_ℕ,
}
use data_collector.Assembly.Sequence.{uint32_max, difference, add}

-- Whether the two sequence numbers are taken to lie on the two sides of the wrap, `s` before it.
abbrev across : ℕ → ℕ → Bool
across s t = ltb (uint32_max - uint32_max / 4) s && ltb t (uint32_max / 4)

difference_cases :
    (s t : ℕ)
    → difference (pos s) (pos t) ≡ (
        if across s t
        then sub_ℕ (t + uint32_max) s
        else if across t s
        then sub_ℕ t (s + uint32_max)
        else sub_ℕ t s)
unfolding difference
difference_cases s t = ground arith

neg-sub_ℕ : (a b : ℕ) → neg (sub_ℕ a b) ≡ sub_ℕ b a
unfolding neg
neg-sub_ℕ a b = ground arith

across_asym : (s t : ℕ) → across s t ≡ true → across t s ≡ false
across_asym s t h = ground arith

-- Comparing in the other order negates the difference, for all sequence numbers.
pub difference_antisym : (s t : ℕ) → difference (pos t) (pos s) ≡ neg (difference (pos s) (pos t))
difference_antisym s t =
    rw (difference_cases s t, difference_cases t s)
      (elim (Bool-cases (across s t)) [
        | inl a ↦ rw (a, across_asym s t a) (sym (neg-sub_ℕ (t + uint32_max) s))
        | inr n ↦ elim (Bool-cases (across t s)) [
          | inl b ↦ rw (n, b) (sym (neg-sub_ℕ t (s + uint32_max)))
          | inr m ↦ rw (n, m) (sym (neg-sub_ℕ t s))
        ]
      ])

-- A sequence number is `k` away from the one that comes `k` later, for `k` below a quarter of the
-- sequence space, if there is no wrap between them; over a wrap the distance comes out as `k - 1`.
pub difference-add :
    (s k : ℕ)
    → s < 2 ^ 32
    → k < 0x3FFF_FFFF
    → difference (pos s) (add (pos s) (pos k)) ≡ pos (if ltb (s + k) (2 ^ 32) then k else k - 1)
unfolding difference add
difference-add s k hs hk = ground arith

-- Without a wrap.
pub difference_near :
    (s t : ℕ) → s ≤ t + 2 ^ 31 → t ≤ s + 2 ^ 31 → difference (pos s) (pos t) ≡ sub_ℕ t s
unfolding difference
difference_near s t h k = ground arith

pub difference_self : (s : ℤ) → difference s s ≡ pos 0
unfolding difference
difference_self (pos n) = ground arith
difference_self (negsuc n) = ground arith

pub eqb_ℤ-eq : (a b : ℤ) → eqb_ℤ a b ≡ true → a ≡ b
eqb_ℤ-eq a b h = ground arith
