-- ===== src/Streams/Concurrent/Status.antt =====
-- The status word of `ConcurrentReader` in capturer/MutiCoroutineAccessReader.go, and the loops that
-- set a bit of it while other goroutines change it.
use data_collector.Base.{
  ℕ, ◌++◌, refl, sym, ap, subst, ◌+◌, ◌/◌, ◌%◌, ◌^◌, ◌<◌, ◌==◌, ◌≡◌, ◌⊎◌, Bool, true, false, List,
  [], ◌∷◌, if◌then◌else◌, arith, inl, inr,
}

abbrev pub concurrent_read_allowed_checker : ℕ
concurrent_read_allowed_checker = 0x2000_0000

abbrev pub validate_checker : ℕ
validate_checker = 0x4000_0000

-- `word & bit != 0` and `word | bit`, for a bit that is a power of two.
unfoldable pub has_bit : ℕ → ℕ → Bool
has_bit bit word = (word / bit) % 2 == 1

unfoldable pub with_bit : ℕ → ℕ → ℕ
unfolding has_bit
with_bit bit word = if has_bit bit word then word else word + bit

-- `CompareAndSwapUint32`
unfoldable pub compare_and_swap : ℕ → ℕ → ℕ → ℕ × Bool
compare_and_swap old new word = if word == old then (new, true) else (word, false)

-- The loop of `SetValidStatus`: the word after it, and the changes that have not taken place by then.
-- Between the load and the swap of a round come changes of other goroutines: the next of `others`, and
-- nothing after the last.
unfoldable pub set_valid_status : List (ℕ → ℕ) → ℕ → ℕ × List (ℕ → ℕ)
unfolding with_bit compare_and_swap
set_valid_status [] old =
    let new = with_bit validate_checker old in
    (if new == old then old else (compare_and_swap old new old).0, [])
set_valid_status (change ∷ others) old =
    let new = with_bit validate_checker old in
    let (word, success) = compare_and_swap old new (change old) in
    let again = set_valid_status others word in
    if new == old then (old, change ∷ others) else if success then (word, others) else again

-- The loop of `ForbiddenConcurrentRead`.
unfoldable pub forbidden_concurrent_read : List (ℕ → ℕ) → ℕ → ℕ × List (ℕ → ℕ)
unfolding has_bit with_bit compare_and_swap
forbidden_concurrent_read [] old =
    let new = with_bit concurrent_read_allowed_checker old in
    (
      if has_bit concurrent_read_allowed_checker old then old else (compare_and_swap old new old).0,
      [],
    )
forbidden_concurrent_read (change ∷ others) old =
    let new = with_bit concurrent_read_allowed_checker old in
    let (word, success) = compare_and_swap old new (change old) in
    let again = forbidden_concurrent_read others word in
    if has_bit concurrent_read_allowed_checker old
    then (old, change ∷ others)
    else if success
    then (word, others)
    else again

-- The word after these changes.
abbrev pub changed : List (ℕ → ℕ) → ℕ → ℕ
changed [] word = word
changed (change ∷ others) word = changed others (change word)

-- The loop's bit is set in the word as all the changes left it that have taken place by then.
abbrev pub SetsBit : ℕ → List (ℕ → ℕ) → ℕ → ℕ × List (ℕ → ℕ) → Type 0
SetsBit bit others word result =
    (past : List (ℕ → ℕ)) × (others ≡ past ++ result.1)
    × (result.0 ≡ with_bit bit (changed past word))

valid_last : (old : ℕ) → set_valid_status [] old ≡ (with_bit validate_checker old, [])
unfolding set_valid_status with_bit compare_and_swap
valid_last old = ground arith

valid_cases :
    (change : ℕ → ℕ) (others : List (ℕ → ℕ)) (old : ℕ)
    → (set_valid_status (change ∷ others) old ≡ (with_bit validate_checker old, change ∷ others))
      ⊎ (((change old ≡ old)
            × (set_valid_status (change ∷ others) old ≡ (with_bit validate_checker old, others)))
          ⊎ (set_valid_status (change ∷ others) old ≡ set_valid_status others (change old)))
unfolding set_valid_status with_bit compare_and_swap
valid_cases change others old = ground arith

set_valid_status-SetsBit :
    (others : List (ℕ → ℕ)) (word : ℕ)
    → SetsBit validate_checker others word (set_valid_status others word)
set_valid_status-SetsBit [] word =
    subst (SetsBit validate_checker [] word) (sym (valid_last word)) ([], refl, refl)
set_valid_status-SetsBit (change ∷ others) word = elim (valid_cases change others word) [
  | inl e ↦ subst (SetsBit validate_checker (change ∷ others) word) (sym e) ([], refl, refl)
  | inr (inl (same, e)) ↦
      subst (SetsBit validate_checker (change ∷ others) word) (sym e)
        (change ∷ [], refl, ap (with_bit validate_checker) (sym same))
  | inr (inr e) ↦
      let (past, whole, eq) = set_valid_status-SetsBit others (change word) in
      subst (SetsBit validate_checker (change ∷ others) word) (sym e)
        (change ∷ past, ap (◌∷◌ change) whole, eq)
]

forbidden_last :
    (old : ℕ)
    → forbidden_concurrent_read [] old ≡ (with_bit concurrent_read_allowed_checker old, [])
unfolding forbidden_concurrent_read compare_and_swap with_bit
forbidden_last old = ground arith

forbidden_cases :
    (change : ℕ → ℕ) (others : List (ℕ → ℕ)) (old : ℕ)
    → (forbidden_concurrent_read (change ∷ others) old
        ≡ (with_bit concurrent_read_allowed_checker old, change ∷ others))
      ⊎ (((change old ≡ old)
            × (forbidden_concurrent_read (change ∷ others) old
                ≡ (with_bit concurrent_read_allowed_checker old, others)))
          ⊎ (forbidden_concurrent_read (change ∷ others) old
              ≡ forbidden_concurrent_read others (change old)))
unfolding forbidden_concurrent_read compare_and_swap with_bit
forbidden_cases change others old = ground arith

forbidden_concurrent_read-SetsBit :
    (others : List (ℕ → ℕ)) (word : ℕ)
    → SetsBit concurrent_read_allowed_checker others word (forbidden_concurrent_read others word)
forbidden_concurrent_read-SetsBit [] word =
    subst (SetsBit concurrent_read_allowed_checker [] word) (sym (forbidden_last word))
      ([], refl, refl)
forbidden_concurrent_read-SetsBit (change ∷ others) word =
    elim (forbidden_cases change others word) [
      | inl e ↦
          subst (SetsBit concurrent_read_allowed_checker (change ∷ others) word) (sym e)
            ([], refl, refl)
      | inr (inl (same, e)) ↦
          subst (SetsBit concurrent_read_allowed_checker (change ∷ others) word) (sym e)
            (change ∷ [], refl, ap (with_bit concurrent_read_allowed_checker) (sym same))
      | inr (inr e) ↦
          let (past, whole, eq) = forbidden_concurrent_read-SetsBit others (change word) in
          subst (SetsBit concurrent_read_allowed_checker (change ∷ others) word) (sym e)
            (change ∷ past, ap (◌∷◌ change) whole, eq)
    ]

-- Against any finite number of changes by other goroutines: each of the two loops sets its bit, in the
-- word as all the changes left it that took place before the loop's end, and loses none of them.
pub loops-SetsBit :
    (others : List (ℕ → ℕ)) (word : ℕ)
    → SetsBit validate_checker others word (set_valid_status others word)
      × SetsBit concurrent_read_allowed_checker others word (forbidden_concurrent_read others word)
loops-SetsBit others word =
    (set_valid_status-SetsBit others word, forbidden_concurrent_read-SetsBit others word)

-- In a 32-bit word, setting one of the two bits sets it, leaves the other as it is, and stays in 32
-- bits.
pub with_bit_lem :
    (word : ℕ)
    → word < 2 ^ 32
    → (has_bit validate_checker (with_bit validate_checker word) ≡ true)
      × (has_bit concurrent_read_allowed_checker (with_bit validate_checker word)
          ≡ has_bit concurrent_read_allowed_checker word)
      × (with_bit validate_checker word < 2 ^ 32)
      × (has_bit concurrent_read_allowed_checker (with_bit concurrent_read_allowed_checker word)
          ≡ true)
      × (has_bit validate_checker (with_bit concurrent_read_allowed_checker word)
          ≡ has_bit validate_checker word)
      × (with_bit concurrent_read_allowed_checker word < 2 ^ 32)
unfolding with_bit has_bit
with_bit_lem word h =
    (ground arith, ground arith, ground arith, ground arith, ground arith, ground arith)
