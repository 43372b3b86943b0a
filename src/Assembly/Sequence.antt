-- ===== src/Assembly/Sequence.antt =====
-- TCP sequence numbers of capturer/extendedassembly.go. An int64 is an integer here: the program
-- keeps them in [-1, 2^32), far from the ends of int64.
pub mod Order
pub mod Range
pub mod Span
use data_collector.Base.{
  ℕ, ◌+◌, ◌-◌, ◌*◌, ◌/◌, ◌%◌, ◌^◌, ◌≤◌, ◌<◌, ◌≡◌, refl, ◌≢◌, ◌⊎◌, ◌&&◌, List, [], arith,
  if◌then◌else◌, Bool, true, false, inl, inr, Bool-cases, sym, ltb, ap, ◌∙◌, length, drop,
  length-drop, drop_all, max, ℤ, pos, negsuc, ◌+ℤ◌, ◌-ℤ◌, neg, ltb_ℤ, leb_ℤ, eqb_ℤ, pos_part, sub_ℕ,
}

abbrev pub invalid_sequence : ℤ
invalid_sequence = negsuc 0

abbrev pub uint32_max : ℕ
uint32_max = 0xFFFF_FFFF

-- `x & uint32Max` on two's complement integers.
abbrev pub and_uint32_max : ℤ → ℤ
and_uint32_max (pos n) = pos (n % 2 ^ 32)
and_uint32_max (negsuc n) = pos (uint32_max - n % 2 ^ 32)

unfoldable pub difference : ℤ → ℤ → ℤ
unfolding ◌+ℤ◌ ◌-ℤ◌
difference s t =
    if ltb_ℤ (pos (uint32_max - uint32_max / 4)) s && ltb_ℤ t (pos (uint32_max / 4))
    then (t +ℤ pos uint32_max) -ℤ s
    else if ltb_ℤ (pos (uint32_max - uint32_max / 4)) t && ltb_ℤ s (pos (uint32_max / 4))
    then t -ℤ (s +ℤ pos uint32_max)
    else t -ℤ s

unfoldable pub add : ℤ → ℤ → ℤ
unfolding ◌+ℤ◌
add s t = and_uint32_max (s +ℤ t)

unfoldable pub byte_span : ℤ → ℤ → List ℕ → List ℕ × ℤ
byte_span expected received bytes =
    let span = difference received expected in
    if eqb_ℤ expected invalid_sequence
    then (bytes, add received (pos (length bytes)))
    else if leb_ℤ span (pos 0)
    then (bytes, add received (pos (length bytes)))
    else if ltb_ℤ (pos (length bytes)) span
    then ([], expected)
    else (drop (pos_part span) bytes, add expected (pos (length bytes) -ℤ span))
