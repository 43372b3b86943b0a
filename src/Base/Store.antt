-- ===== src/Base/Store.antt =====
-- A store: the objects that the program reaches by pointers, each at a number.
use Prim.Native.Nat.{ℕ}
use mathlib.Core.Path.{◌≡◌}
use mathlib.Core.Logic.{◌≢◌}
use data_collector.Base.Tests.{◌==◌, if◌then◌else◌, ==_refl, ==_ne}

module _ {ℓ} {A : Type ℓ} where
  -- The store after a write at `p`.
  unfoldable pub update : (ℕ → A) → ℕ → A → ℕ → A
  update h p v q = if p == q then v else h q

  pub update_self : (h : ℕ → A) (p : ℕ) (v : A) → update h p v p ≡ v
  unfolding update
  update_self h p v = rw (==_refl p)

  pub update_ne : (h : ℕ → A) (p q : ℕ) (v : A) → p ≢ q → update h p v q ≡ h q
  unfolding update
  update_ne h p q v n = rw (==_ne p q n)
