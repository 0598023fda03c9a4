-- ===== src/Vm/Space.antt =====
-- HW3/xv6-src/vm.c: the pages that user addresses are mapped to, and what giving one back changes.
use cs.Base.{ℕ, ◌%◌, ◌<◌, ◌≤◌, ◌≡◌, ◌≢◌, refl, sym, ◌∙◌, List, [], ◌∷◌, All, subst}
use cs.Kalloc.{Kmem, phystop}
use cs.Kalloc.Chain.{IsChain}
use cs.Vm.{pte_addr, p2v, v2p}
use cs.Vm.Tables.{table_of, HasTable, pte_at, IsDirectory}

-- The kernel's address of the page that an entry points to
abbrev pub frame : ℕ → ℕ
frame x = p2v (pte_addr x)

-- A page that the memory in use by an address space may occupy: `kfree` accepts it.
pub record IsFrame (end : ℕ) (k : Kmem) (d x : ℕ) : Type 0 where
  pub nonzero : pte_addr x ≢ 0
  pub above : end ≤ frame x
  pub below : v2p (frame x) < phystop
  pub not_directory : frame x ≢ d
  pub not_table : (j : ℕ) → j < 1024 → HasTable k.mem d j → frame x ≢ table_of k.mem d j
  pub not_free : (qs : List ℕ) → IsChain k.mem k.freelist qs → All (λ q. frame x ≢ q) qs

-- Present entries below `KERNBASE`, in the lower half of the directory, map different pages.
pub record IsSpace (end : ℕ) (k : Kmem) (d : ℕ) : Type 0 where
  pub directory : IsDirectory k d
  pub frames :
      (i m : ℕ)
      → i < 512
      → m < 1024
      → pte_at k.mem d i m % 2 ≡ 1
      → IsFrame end k d (pte_at k.mem d i m)
  pub frames_apart :
      (i m j l : ℕ)
      → i < 512
      → m < 1024
      → j < 512
      → l < 1024
      → pte_at k.mem d i m % 2 ≡ 1
      → pte_at k.mem d j l % 2 ≡ 1
      → frame (pte_at k.mem d i m) ≡ frame (pte_at k.mem d j l)
      → (i ≡ j) × (m ≡ l)

pub chain_unique :
    (mem : ℕ → ℕ) (p : ℕ) (qs rs : List ℕ) → IsChain mem p qs → IsChain mem p rs → qs ≡ rs
chain_unique mem p [] [] c e = refl
chain_unique mem p [] (r ∷ rs) c (at, nz, _, _, _) = absurd (nz (sym at ∙ c))
chain_unique mem p (q ∷ qs) [] (at, nz, _, _, _) e = absurd (nz (sym at ∙ e))
chain_unique mem p (q ∷ qs) (r ∷ rs) (at, nz, hq, ne, c) (at', nz', hr, ne', e) =
    let same : q ≡ r = sym at ∙ at' in
    let c' : IsChain mem (mem r) qs = subst (λ x. IsChain mem (mem x) qs) same c in
    let rest = chain_unique mem (mem r) qs rs c' e in cc
