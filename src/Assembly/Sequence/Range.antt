-- ===== src/Assembly/Sequence/Range.antt =====
-- `Add` of capturer/extendedassembly.go, and the range of sequence numbers.
use data_collector.Base.{ℕ, ◌+◌, ◌-◌, ◌%◌, ◌^◌, ◌<◌, ◌≡◌, refl, arith, ℤ, pos, negsuc, ◌+ℤ◌}
use data_collector.Assembly.Sequence.{uint32_max, and_uint32_max, add}

pub add_assoc : (s a b : ℕ) → add (add (pos s) (pos a)) (pos b) ≡ add (pos s) (pos (a + b))
unfolding add
add_assoc s a b = ground arith

-- A sum is a sequence number again.
pub add_range : (s a : ℕ) → (n : ℕ) × (add (pos s) (pos a) ≡ pos n) × (n < 2 ^ 32)
unfolding add
add_range s a = ((s + a) % 2 ^ 32, ground arith, omega arith)

-- The range that the type's comment promises.
abbrev pub IsSequence : ℤ → Type 0
IsSequence z = (n : ℕ) × (z ≡ pos n) × (n < 2 ^ 32)

and_uint32_max-IsSequence : (z : ℤ) → IsSequence (and_uint32_max z)
and_uint32_max-IsSequence (pos n) = (n % 2 ^ 32, refl, omega arith)
and_uint32_max-IsSequence (negsuc n) = (uint32_max - n % 2 ^ 32, refl, omega arith)

pub add-IsSequence : (s t : ℤ) → IsSequence (add s t)
unfolding add
add-IsSequence s t = and_uint32_max-IsSequence (s +ℤ t)
