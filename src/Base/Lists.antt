-- ===== src/Base/Lists.antt =====
-- Lists measured by native numbers, under the library's names, and predicates on lists.
use Prim.Native.Nat.{ℕ, zero, suc, ◌+◌, ◌-◌, ◌≤◌, min}
use mathlib.Core.Path.{◌≡◌, refl, sym, ap}
use mathlib.Core.Logic.{◌≢◌, ◌⊎◌, inl, inr}
use mathlib.Core.List.{List, [], ◌∷◌, ◌++◌}
use mathlib.Core.Option.{Option, none, some}
use native.Mathlib.Omega.{arith}

module _ {ℓ} {A : Type ℓ} where
  abbrev pub length : List A → ℕ
  length [] = 0
  length (x ∷ xs) = suc (length xs)

  abbrev pub take : ℕ → List A → List A
  take zero xs = []
  take (suc n) [] = []
  take (suc n) (x ∷ xs) = x ∷ take n xs

  abbrev pub drop : ℕ → List A → List A
  drop zero xs = xs
  drop (suc n) [] = []
  drop (suc n) (x ∷ xs) = drop n xs

  -- The first element, and the last one, if there is one.
  abbrev pub head? : List A → Option A
  head? [] = none
  head? (x ∷ xs) = some x

  abbrev pub get_last? : List A → Option A
  get_last? [] = none
  get_last? (x ∷ []) = some x
  get_last? (x ∷ y ∷ ys) = get_last? (y ∷ ys)

  pub length-append : (xs ys : List A) → length (xs ++ ys) ≡ length xs + length ys
  length-append [] ys = omega arith
  length-append (x ∷ xs) ys = omega (arith, length-append xs ys)

  pub take-append-drop : (n : ℕ) (xs : List A) → take n xs ++ drop n xs ≡ xs
  take-append-drop zero xs = refl
  take-append-drop (suc n) [] = refl
  take-append-drop (suc n) (x ∷ xs) = rw (take-append-drop n xs)

  pub length-take : (n : ℕ) (xs : List A) → length (take n xs) ≡ min n (length xs)
  length-take zero xs = omega arith
  length-take (suc n) [] = omega arith
  length-take (suc n) (x ∷ xs) = omega (arith, length-take n xs)

  pub length-drop : (n : ℕ) (xs : List A) → length (drop n xs) ≡ length xs - n
  length-drop zero xs = omega arith
  length-drop (suc n) [] = omega arith
  length-drop (suc n) (x ∷ xs) = omega (arith, length-drop n xs)

  pub drop_all : (n : ℕ) (xs : List A) → length xs ≤ n → drop n xs ≡ []
  drop_all zero [] h = refl
  drop_all zero (x ∷ xs) h = absurd (omega arith)
  drop_all (suc n) [] h = refl
  drop_all (suc n) (x ∷ xs) h = drop_all n xs (omega arith)

  pub get_last?-append : (xs : List A) (x : A) → get_last? (xs ++ x ∷ []) ≡ some x
  get_last?-append [] x = refl
  get_last?-append (y ∷ []) x = refl
  get_last?-append (y ∷ z ∷ xs) x = get_last?-append (z ∷ xs) x

-- A predicate by recursion computes to tuples, which the tactics read and build.
abbrev pub All {ℓ κ} : {A : Type ℓ} → (A → Type κ) → List A → Type κ
All P [] = Unit
All P (x ∷ xs) = P x × All P xs

module _ {ℓ κ} {A : Type ℓ} (P : A → Type κ) where
  pub All-append : (xs ys : List A) → All P xs → All P ys → All P (xs ++ ys)
  All-append [] ys hx hy = hy
  All-append (x ∷ xs) ys hx hy = (hx.0, All-append xs ys hx.1 hy)

  pub All-left : (xs ys : List A) → All P (xs ++ ys) → All P xs
  All-left [] ys h = tt
  All-left (x ∷ xs) ys h = (h.0, All-left xs ys h.1)

  pub All-right : (xs ys : List A) → All P (xs ++ ys) → All P ys
  All-right [] ys h = h
  All-right (x ∷ xs) ys h = All-right xs ys h.1

pub All-map {ℓ κ μ} :
    {A : Type ℓ} (P : A → Type κ) (Q : A → Type μ) (xs : List A)
    → ((x : A) → P x → Q x)
    → All P xs
    → All Q xs
All-map P Q [] f h = tt
All-map P Q (x ∷ xs) f h = (f x h.0, All-map P Q xs f h.1)

pub All-map₂ {ℓ κ μ ν} :
    {A : Type ℓ} (P : A → Type κ) (Q : A → Type μ) (R : A → Type ν) (xs : List A)
    → ((x : A) → P x → Q x → R x)
    → All P xs
    → All Q xs
    → All R xs
All-map₂ P Q R [] f g h = tt
All-map₂ P Q R (x ∷ xs) f g h = (f x g.0 h.0, All-map₂ P Q R xs f g.1 h.1)

-- `p` is none of the numbers of a list, and no number stands twice in a list.
abbrev pub NotIn : ℕ → List ℕ → Type 0
NotIn p xs = All (λ x. p ≢ x) xs

abbrev pub Distinct : List ℕ → Type 0
Distinct [] = Unit {0}
Distinct (x ∷ xs) = NotIn x xs × Distinct xs

abbrev pub Apart : List ℕ → List ℕ → Type 0
Apart xs ys = All (λ x. NotIn x ys) xs

pub list_cases {ℓ} :
    {A : Type ℓ} (xs : List A) → (xs ≡ []) ⊎ ((x : A) × (r : List A) × (xs ≡ x ∷ r))
list_cases [] = inl refl
list_cases (x ∷ xs) = inr (x, xs, refl)

pub Distinct-left : (xs ys : List ℕ) → Distinct (xs ++ ys) → Distinct xs
Distinct-left [] ys d = tt
Distinct-left (x ∷ xs) ys d = (All-left _ xs ys d.0, Distinct-left xs ys d.1)

pub Distinct-right : (xs ys : List ℕ) → Distinct (xs ++ ys) → Distinct ys
Distinct-right [] ys d = d
Distinct-right (x ∷ xs) ys d = Distinct-right xs ys d.1

pub Distinct-Apart : (xs ys : List ℕ) → Distinct (xs ++ ys) → Apart xs ys
Distinct-Apart [] ys d = tt
Distinct-Apart (x ∷ xs) ys d = (All-right _ xs ys d.0, Distinct-Apart xs ys d.1)

-- Every page of `xs` is none of `ys`, read from the side of `ys`.
pub Apart-sym : (xs ys : List ℕ) → Apart xs ys → Apart ys xs
Apart-sym xs [] h = tt
Apart-sym xs (y ∷ ys) h = (
  All-map _ _ xs (λ x far e. far.0 (sym e)) h,
  Apart-sym xs ys (All-map _ _ xs (λ x far. far.1) h),
)

pub Distinct-append :
    (xs ys : List ℕ) → Distinct xs → Distinct ys → Apart xs ys → Distinct (xs ++ ys)
Distinct-append [] ys d e a = e
Distinct-append (x ∷ xs) ys d e a = (All-append _ xs ys d.0 a.0, Distinct-append xs ys d.1 e a.1)

pub Apart-left : (xs ys zs : List ℕ) → Apart xs (ys ++ zs) → Apart xs ys
Apart-left xs ys zs a = All-map _ _ xs (λ x. All-left _ ys zs) a

pub Apart-right : (xs ys zs : List ℕ) → Apart xs (ys ++ zs) → Apart xs zs
Apart-right xs ys zs a = All-map _ _ xs (λ x. All-right _ ys zs) a

pub snoc_cases {ℓ} :
    {A : Type ℓ} (xs : List A) → (xs ≡ []) ⊎ ((ys : List A) × (y : A) × (xs ≡ ys ++ y ∷ []))
snoc_cases [] = inl refl
snoc_cases (x ∷ xs) = elim (snoc_cases xs) [
  | inl e ↦ inr ([], x, ap (◌∷◌ x) e)
  | inr (ys, y, e) ↦ inr (x ∷ ys, y, ap (◌∷◌ x) e)
]

-- Two blocks change places.
pub All-block {ℓ κ} :
    {A : Type ℓ} (P : A → Type κ) (xs ys zs : List A)
    → All P (xs ++ (ys ++ zs))
    → All P (ys ++ (xs ++ zs))
All-block P xs ys zs h =
    let r = All-right P xs (ys ++ zs) h in
    All-append P ys (xs ++ zs) (All-left P ys zs r)
      (All-append P xs zs (All-left P xs (ys ++ zs) h) (All-right P ys zs r))

pub Distinct-block : (xs ys zs : List ℕ) → Distinct (xs ++ (ys ++ zs)) → Distinct (ys ++ (xs ++ zs))
Distinct-block xs ys zs d =
    let a = Distinct-Apart xs (ys ++ zs) d in
    let r = Distinct-right xs (ys ++ zs) d in
    Distinct-append ys (xs ++ zs) (Distinct-left ys zs r)
      (Distinct-append xs zs (Distinct-left xs (ys ++ zs) d) (Distinct-right ys zs r)
        (Apart-right xs ys zs a))
      (All-map₂ _ _ _ ys (λ y. All-append _ xs zs) (Apart-sym xs ys (Apart-left xs ys zs a))
        (Distinct-Apart ys zs r))

pub length_block {ℓ} :
    {A : Type ℓ} (xs ys zs : List A) → length (ys ++ (xs ++ zs)) ≡ length (xs ++ (ys ++ zs))
length_block xs ys zs = omega (
  arith,
  length-append ys (xs ++ zs),
  length-append xs zs,
  length-append xs (ys ++ zs),
  length-append ys zs,
)

pub All-intro {ℓ κ} : {A : Type ℓ} {P : A → Type κ} (xs : List A) → ((x : A) → P x) → All P xs
All-intro [] f = tt
All-intro (x ∷ xs) f = (f x, All-intro xs f)
