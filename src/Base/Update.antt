-- ===== src/Base/Update.antt =====
-- Arrays as functions of the index, and one write to them.
use Prim.Native.Nat.{ℕ}
use mathlib.Core.Path.{◌≡◌}
use mathlib.Core.Logic.{◌≢◌}
use native.Mathlib.Omega.{arith}
unfoldable use native.Mathlib.Decide.{ℕ_discrete}
use cs.Base.Tests.{◌==◌, if◌then◌else◌}

abbrev pub update {ℓ} : {A : Type ℓ} → (ℕ → A) → ℕ → A → ℕ → A
update f p v q = if p == q then v else f q

pub update_self {ℓ} : {A : Type ℓ} (f : ℕ → A) (p : ℕ) (v : A) → update f p v p ≡ v
update_self f p v = ground arith

pub update_ne {ℓ} : {A : Type ℓ} (f : ℕ → A) (p q : ℕ) (v : A) → p ≢ q → update f p v q ≡ f q
update_ne f p q v h = ground arith

-- What holds of the written value at its index and of the old ones elsewhere holds everywhere.
pub update_cases {ℓ ℓ'} :
    {A : Type ℓ} (B : A → Type ℓ') (f : ℕ → A) (p : ℕ) (v : A) (q : ℕ)
    → (p ≡ q → B v)
    → (p ≢ q → B (f q))
    → B (update f p v q)
update_cases B f p v q here there = elim (ℕ_discrete p q) [
  | yes e ↦ let at : update f p v q ≡ v = ground arith in rw at (here e)
  | no ne ↦ rw (update_ne f p q v ne) (there ne)
]
