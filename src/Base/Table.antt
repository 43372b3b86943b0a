-- ===== src/Base/Table.antt =====
-- Maps from texts, as association lists in the order of their iteration.
use mathlib.Core.Path.{◌≡◌, sym, ap, ◌∙◌}
use mathlib.Core.Bool.{false}
use mathlib.Core.Logic.{◌⊎◌, inl, inr}
use mathlib.Core.List.{List, [], ◌∷◌}
use mathlib.Core.Option.{Option, none, some}
use native.Mathlib.Omega.{arith}
use data_collector.Base.Tests.{if◌then◌else◌, if_cases, Bool-cases}
use data_collector.Base.Bytes.{Text, text_eq, text_eq_self, text_eq_sound}

-- A map's lookup and assignment.
unfoldable pub get {ℓ} : {A : Type ℓ} → Text → List (Text × A) → Option A
get k [] = none
get k ((k', v) ∷ rest) = if text_eq k k' then some v else get k rest

unfoldable pub put {ℓ} : {A : Type ℓ} → Text → A → List (Text × A) → List (Text × A)
put k v [] = (k, v) ∷ []
put k v ((k', v') ∷ rest) = if text_eq k k' then (k, v) ∷ rest else (k', v') ∷ put k v rest

module _ {ℓ} {A : Type ℓ} where
  pub get-put : (k : Text) (v : A) (xs : List (Text × A)) → get k (put k v xs) ≡ some v
  unfolding get put
  get-put k v [] = ground (arith, text_eq_self k)
  get-put k v ((k', v') ∷ rest) =
      if_cases (λ z. get k z ≡ some v) (text_eq k k') (λ e. ground (arith, text_eq_self k))
        (λ e. ground (arith, e, get-put k v rest))

  -- At each key there is the new value or what was there.
  pub get-put_cases :
      (k : Text) (v : A) (xs : List (Text × A)) (q : Text)
      → ((q ≡ k) × (get q (put k v xs) ≡ some v)) ⊎ (get q (put k v xs) ≡ get q xs)
  unfolding get put
  get-put_cases k v [] q = elim (Bool-cases (text_eq q k)) [
    | inl e ↦ inl (text_eq_sound q k e, ground (arith, e))
    | inr e ↦ inr (ground (arith, e))
  ]
  get-put_cases k v ((k', v') ∷ rest) q =
      if_cases (λ z. ((q ≡ k) × (get q z ≡ some v)) ⊎ (get q z ≡ get q ((k', v') ∷ rest)))
        (text_eq k k')
        (λ e. elim (Bool-cases (text_eq q k)) [
          | inl d ↦ inl (text_eq_sound q k d, ground (arith, d))
          | inr d ↦
              let d' : text_eq q k' ≡ false = ap (text_eq q) (sym (text_eq_sound k k' e)) ∙ d in
              inr (ground (arith, d, d'))
        ])
        (λ e. elim (Bool-cases (text_eq q k')) [
          | inl d ↦ inr (ground (arith, d))
          | inr d ↦ elim (get-put_cases k v rest q) [
            | inl h ↦ inl (h.0, ground (arith, d, h.1))
            | inr h ↦ inr (ground (arith, d, h))
          ]
        ])
