-- ===== src/Common/Goroutine.antt =====
-- `GoID` of common/common.go: the number of the goroutine, from the text that `runtime.Stack` prints.
use data_collector.Base.{
  ℕ, zero, suc, ◌+◌, ◌-◌, ◌*◌, ◌/◌, ◌%◌, ◌^◌, ◌≤◌, ◌<◌, ◌≡◌, refl, sym, ap, ◌∙◌, ◌==◌, ◌&&◌, Bool,
  Bool-cases, inl, inr, List, [], ◌∷◌, ◌++◌, map, Option, none, some, All, All-append,
  if◌then◌else◌, length, length-append, take, ltb, leb, arith, Text, codes, index_byte, Result, ok,
  err, index_out_of_range,
}

unfoldable pub is_digit : ℕ → Bool
is_digit c = leb b'0' c && leb c b'9'

-- `strconv.ParseUint` to base 10 and 64 bits, from the value so far. `GoID` drops the error, which
-- leaves 0 for a byte that is no digit and the greatest number for a value that is out of range.
unfoldable pub parse_digits : Text → ℕ → ℕ
unfolding is_digit
parse_digits [] n = n
parse_digits (c ∷ cs) n =
    let m = n * 10 + (c - b'0') in
    let rest = parse_digits cs m in
    if is_digit c then (if ltb m (2 ^ 64) then rest else 2 ^ 64 - 1) else 0

unfoldable pub parse_uint : Text → ℕ
unfolding parse_digits
parse_uint [] = 0
parse_uint (c ∷ cs) = parse_digits (c ∷ cs) 0

-- `bytes.TrimPrefix`
abbrev pub cut : Text → Text → Option Text
cut [] t = some t
cut (x ∷ xs) [] = none
cut (x ∷ xs) (y ∷ ys) = let rest = cut xs ys in if x == y then rest else none

abbrev pub or_whole : Text → Option Text → Text
or_whole t none = t
or_whole t (some r) = r

unfoldable pub trim_prefix : Text → Text → Text
trim_prefix prefix t = or_whole t (cut prefix t)

-- The number before the first blank; without one the slice is out of range.
unfoldable pub number_before_blank : Text → Result ℕ
unfolding index_byte parse_uint
number_before_blank t = elim (index_byte b' ' t) [
  | none ↦ err index_out_of_range
  | some i ↦ ok (parse_uint (take i t))
]

-- `GoID`, of what the runtime would print; the buffer takes 64 bytes of it.
unfoldable pub go_id : Text → Result ℕ
unfolding trim_prefix number_before_blank
go_id stack = number_before_blank (trim_prefix (codes "goroutine ") (take 64 stack))

-- The digits of a number, for numbers of at most fuel + 1 digits.
abbrev pub digits : ℕ → ℕ → List ℕ
digits zero n = n ∷ []
digits (suc fuel) n = if ltb n 10 then n ∷ [] else digits fuel (n / 10) ++ (n % 10) ∷ []

abbrev pub decimal : ℕ → Text
decimal n = map (λ d. b'0' + d) (digits 19 n)

abbrev value : ℕ → List ℕ → ℕ
value n [] = n
value n (d ∷ ds) = value (n * 10 + d) ds

abbrev pow10 : ℕ → ℕ
pow10 zero = 1
pow10 (suc k) = 10 * pow10 k

value-append : (n d : ℕ) (ds : List ℕ) → value n (ds ++ d ∷ []) ≡ value n ds * 10 + d
value-append n d [] = refl
value-append n d (x ∷ xs) = value-append (n * 10 + x) d xs

value-digits : (fuel n : ℕ) → n < pow10 (suc fuel) → value 0 (digits fuel n) ≡ n
value-digits zero n lt = omega arith
value-digits (suc fuel) n lt =
    let ih = value-digits fuel (n / 10) (omega (arith, lt)) in
    let last = value-append 0 (n % 10) (digits fuel (n / 10)) in
    elim (Bool-cases (ltb n 10)) [ inl e ↦ ground (arith, e) | inr e ↦ ground (arith, e, ih, last) ]

-- All digits are below ten, and there are at most twenty.
digits-below : (fuel n : ℕ) → n < pow10 (suc fuel) → All (λ d. d < 10) (digits fuel n)
digits-below zero n lt = (omega (arith, lt), tt)
digits-below (suc fuel) n lt =
    let ih = digits-below fuel (n / 10) (omega (arith, lt)) in
    elim (Bool-cases (ltb n 10)) [
      | inl e ↦ rw e (ground (arith, e), tt)
      | inr e ↦ rw e (All-append _ (digits fuel (n / 10)) ((n % 10) ∷ []) ih (omega arith, tt))
    ]

length-digits : (fuel n : ℕ) → length (digits fuel n) ≤ suc fuel
length-digits zero n = omega arith
length-digits (suc fuel) n =
    let ih = length-digits fuel (n / 10) in
    let longer = length-append (digits fuel (n / 10)) ((n % 10) ∷ []) in
    elim (Bool-cases (ltb n 10)) [
      | inl e ↦ ground (arith, e)
      | inr e ↦ ground (arith, e, ih, longer)
    ]

abbrev to_text : List ℕ → Text
to_text ds = map (λ d. b'0' + d) ds

value_least : (n : ℕ) (ds : List ℕ) → n ≤ value n ds
value_least n [] = omega arith
value_least n (d ∷ ds) = omega (arith, value_least (n * 10 + d) ds)

parse_digits-value :
    (ds : List ℕ) (n : ℕ)
    → All (λ d. d < 10) ds
    → value n ds < 2 ^ 64
    → parse_digits (to_text ds) n ≡ value n ds
unfolding parse_digits is_digit
parse_digits-value [] n h lt = refl
parse_digits-value (d ∷ ds) n h lt =
    let least = value_least (n * 10 + d) ds in
    let ih = parse_digits-value ds (n * 10 + d) h.1 lt in
    let same : n * 10 + (b'0' + d - b'0') ≡ n * 10 + d = omega arith in
    rw same (ground (arith, h.0, lt, least, ih))

index_byte-digits :
    (ds : List ℕ) (rest : Text)
    → All (λ d. d < 10) ds
    → index_byte b' ' (to_text ds ++ b' ' ∷ rest) ≡ some (length ds)
unfolding index_byte
index_byte-digits [] rest h = ground arith
index_byte-digits (d ∷ ds) rest h = ground (arith, h.0, index_byte-digits ds rest h.1)

take-digits : (ds : List ℕ) (rest : Text) → take (length ds) (to_text ds ++ rest) ≡ to_text ds
take-digits [] rest = refl
take-digits (d ∷ ds) rest = ap (◌∷◌ (b'0' + d)) (take-digits ds rest)

take_within :
    (n : ℕ) (ds : List ℕ) (c : ℕ) (rest : Text)
    → length ds < n
    → take n (to_text ds ++ c ∷ rest) ≡ to_text ds ++ c ∷ take (n - suc (length ds)) rest
take_within zero ds c rest le = absurd (omega (arith, le))
take_within (suc n) [] c rest le =
    let e : suc n - 1 ≡ n = omega arith in ap (λ (z : ℕ). c ∷ take z rest) (sym e)
take_within (suc n) (d ∷ ds) c rest le =
    let e : n - suc (length ds) ≡ suc n - suc (suc (length ds)) = omega arith in
    ap (◌∷◌ (b'0' + d)) (take_within n ds c rest (omega (arith, le)))
    ∙ ap (λ (z : ℕ). to_text (d ∷ ds) ++ c ∷ take z rest) e

trim_goroutine :
    (t : Text) → trim_prefix (codes "goroutine ") (take 64 (codes "goroutine " ++ t)) ≡ take 54 t
unfolding trim_prefix
trim_goroutine t = refl

parse_uint-value :
    (ds : List ℕ)
    → All (λ d. d < 10) ds
    → value 0 ds < 2 ^ 64
    → parse_uint (to_text ds) ≡ value 0 ds
unfolding parse_uint
parse_uint-value [] h lt = refl
parse_uint-value (d ∷ ds) h lt = parse_digits-value (d ∷ ds) 0 h lt

number_run :
    (t u : Text) (i n : ℕ)
    → index_byte b' ' t ≡ some i
    → take i t ≡ u
    → parse_uint u ≡ n
    → number_before_blank t ≡ ok n
unfolding number_before_blank
number_run t u i n e f g = rw (number_before_blank, e, f, g)

-- Of a trace that begins with the word goroutine, a number below 2^64 in decimal digits, and a blank,
-- as the runtime prints it, the number is read, whatever follows.
pub go_id-decimal :
    (n : ℕ) (rest : Text)
    → n < 2 ^ 64
    → go_id (codes "goroutine " ++ (decimal n ++ b' ' ∷ rest)) ≡ ok n
unfolding go_id
go_id-decimal n rest lt =
    let ds = digits 19 n in
    let below = digits-below 19 n (omega (arith, lt)) in
    let is_n = value-digits 19 n (omega (arith, lt)) in
    let short = length-digits 19 n in
    let left = take (54 - suc (length ds)) rest in
    ap number_before_blank (trim_goroutine (to_text ds ++ b' ' ∷ rest))
    ∙ ap number_before_blank (take_within 54 ds b' ' rest (omega (arith, short)))
    ∙ number_run (to_text ds ++ b' ' ∷ left) (to_text ds) (length ds) n
        (index_byte-digits ds left below) (take-digits ds (b' ' ∷ left))
        (parse_uint-value ds below (omega (arith, is_n, lt)) ∙ is_n)
