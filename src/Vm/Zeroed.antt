-- ===== src/Vm/Zeroed.antt =====
-- HW3/xv6-src/vm.c: `memset` of a page to 0.
use cs.Base.{
  ℕ, zero, suc, ◌+◌, ◌*◌, ◌≤◌, ◌<◌, ◌≡◌, ◌⊎◌, refl, ◌∙◌, arith, update, update_ne, update_self,
}
use cs.Vm.{zeroes}

pub zeroes-outside :
    (k a p : ℕ) (mem : ℕ → ℕ) → (p < a) ⊎ (a + 4 * k ≤ p) → zeroes k a mem p ≡ mem p
unfolding zeroes
zeroes-outside zero a p mem h = refl
zeroes-outside (suc k) a p mem h =
    zeroes-outside k (a + 4) p (update mem a 0) (omega arith) ∙ update_ne mem a p 0 (omega arith)

pub zeroes-inside : (k a p i : ℕ) (mem : ℕ → ℕ) → p ≡ a + 4 * i → i < k → zeroes k a mem p ≡ 0
unfolding zeroes
zeroes-inside zero a p i mem e lt = absurd (omega arith)
zeroes-inside (suc k) a p zero mem e lt =
    let at : p ≡ a = omega arith in
    zeroes-outside k (a + 4) p (update mem a 0) (omega arith) ∙ rw at (update_self mem a 0)
zeroes-inside (suc k) a p (suc i) mem e lt =
    zeroes-inside k (a + 4) p i (update mem a 0) (omega arith) (omega arith)
