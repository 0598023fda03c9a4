-- ===== src/Vm/Freed.antt =====
-- HW3/xv6-src/vm.c: giving back a page that is mapped, before its entry is cleared.
use cs.Base.{
  ℕ, ◌+◌, ◌*◌, ◌%◌, ◌^◌, ◌<◌, ◌≡◌, ◌≢◌, inl, inr, refl, sym, ap, ◌∙◌, arith, List, [], ◌∷◌, All,
  ◌==◌, Bool-cases, false, update_ne, subst, ok,
}
use cs.Kalloc.{Kmem, pgsize, kfree, junk}
use cs.Kalloc.Chain.{IsChain, kfree_lem, junk_lem}
use cs.Kalloc.Calls.{freed}
use cs.Vm.{pte_addr, p2v}
use cs.Vm.Tables.{
  pde_of, table_of, HasTable, pte_at, pte_at_has, IsSpare, IsDirectory, table_of-aligned,
}
use cs.Vm.Space.{frame, IsFrame, chain_unique}

-- The free list is a chain of the page `f` before the old one; other pages keep their words.
pub record Frees (k l : Kmem) (f : ℕ) : Type 0 where
  pub grown :
      (qs : List ℕ)
      → IsChain k.mem k.freelist qs
      → All (λ q. f ≢ q) qs
      → IsChain l.mem l.freelist (f ∷ qs)
  pub words : (p m : ℕ) → p % pgsize ≡ 0 → f ≢ p → m < 1024 → l.mem (p + 4 * m) ≡ k.mem (p + 4 * m)

pub kfree-Frees :
    (end f : ℕ) (k : Kmem) → f % pgsize ≡ 0 → kfree end f k ≡ ok (freed f k) → Frees k (freed f k) f
kfree-Frees end f k hf e = record {
  grown = λ qs c apart. kfree_lem end f k (freed f k) qs c apart e;
  words = λ p m hp ne hm.
      update_ne (junk 1024 f k.mem) f (p + 4 * m) k.freelist (omega arith)
      ∙ junk_lem 1024 f (p + 4 * m) k.mem (omega arith);
}

-- Giving back a page that is none of the directory's keeps the directory and its entries.
module _ {k l : Kmem} {d f : ℕ} (dir : IsDirectory k d) (h : Frees k l f) (fd : f ≢ d)
    (ft : (j : ℕ) → j < 1024 → HasTable k.mem d j → f ≢ table_of k.mem d j) where
  freed_pde : (j : ℕ) → j < 1024 → pde_of l.mem d j ≡ pde_of k.mem d j
  freed_pde j hj = h.words d j dir.aligned fd hj

  pub freed_table : (j : ℕ) → j < 1024 → table_of l.mem d j ≡ table_of k.mem d j
  freed_table j hj = ap (λ w. p2v (pte_addr w)) (freed_pde j hj)

  pub freed_had : (j : ℕ) → j < 1024 → HasTable l.mem d j → HasTable k.mem d j
  freed_had j hj has = ap (λ w. w % 2) (sym (freed_pde j hj)) ∙ has

  pub freed_has : (j : ℕ) → j < 1024 → HasTable k.mem d j → HasTable l.mem d j
  freed_has j hj has = ap (λ w. w % 2) (freed_pde j hj) ∙ has

  pub freed-pte_at : (j m : ℕ) → j < 1024 → m < 1024 → pte_at l.mem d j m ≡ pte_at k.mem d j m
  freed-pte_at j m hj hm = elim (Bool-cases (pde_of k.mem d j % 2 == 1)) [
    | inl b ↦
        let has : HasTable k.mem d j = ground arith in
        let has' : HasTable l.mem d j = ap (λ w. w % 2) (freed_pde j hj) ∙ has in
        pte_at_has l.mem d j m has'
        ∙ ap (λ p. l.mem (p + 4 * m)) (freed_table j hj)
        ∙ h.words (table_of k.mem d j) m (table_of-aligned k.mem d j) (ft j hj has) hm
        ∙ sym (pte_at_has k.mem d j m has)
    | inr b ↦
        let b' : (pde_of l.mem d j % 2 == 1) ≡ false = ap (λ w. w % 2 == 1) (freed_pde j hj) ∙ b in
        let zero_new : pte_at l.mem d j m ≡ 0 = rw b' refl in
        let zero_old : pte_at k.mem d j m ≡ 0 = rw b refl in zero_new ∙ sym zero_old
  ]

  freed-IsSpare : (q : ℕ) → IsSpare k.mem d q → IsSpare l.mem d q
  freed-IsSpare q sp = record {
    below = sp.below;
    not_directory = sp.not_directory;
    not_table = λ j hj has e. sp.not_table j hj (freed_had j hj has) (e ∙ freed_table j hj);
  }

  spares_given : (qs : List ℕ) → All (IsSpare k.mem d) qs → All (IsSpare l.mem d) qs
  spares_given [] sp = tt
  spares_given (q ∷ qs) (sq, sp) = (freed-IsSpare q sq, spares_given qs sp)

  pub freed-IsDirectory : f < 2 ^ 32 → All (λ q. f ≢ q) dir.free_pages → IsDirectory l d
  freed-IsDirectory lt apart = record {
    aligned = dir.aligned;
    table_nonzero =
        λ j hj has z. dir.table_nonzero j hj (freed_had j hj has) (sym (freed_table j hj) ∙ z);
    table_elsewhere =
        λ j hj has z. dir.table_elsewhere j hj (freed_had j hj has) (sym (freed_table j hj) ∙ z);
    tables_apart = λ i j hi hj has has' e.
        dir.tables_apart i j hi hj (freed_had i hi has) (freed_had j hj has')
          (sym (freed_table i hi) ∙ e ∙ freed_table j hj);
    free_pages = f ∷ dir.free_pages;
    chain = h.grown dir.free_pages dir.chain apart;
    spare = (
      record {
        below = lt;
        not_directory = fd;
        not_table = λ j hj has e. ft j hj (freed_had j hj has) (e ∙ freed_table j hj);
      },
      spares_given dir.free_pages dir.spare,
    );
  }

  pub freed-IsFrame :
      {end x : ℕ}
      → All (λ q. f ≢ q) dir.free_pages
      → IsFrame end k d x
      → frame x ≢ f
      → IsFrame end l d x
  freed-IsFrame {end} {x} apart fr ne = record {
    nonzero = fr.nonzero;
    above = fr.above;
    below = fr.below;
    not_directory = fr.not_directory;
    not_table = λ j hj has e. fr.not_table j hj (freed_had j hj has) (e ∙ freed_table j hj);
    not_free = λ qs c.
        subst (All (λ q. frame x ≢ q))
          (chain_unique l.mem l.freelist (f ∷ dir.free_pages) qs
            (h.grown dir.free_pages dir.chain apart) c)
          (ne, fr.not_free dir.free_pages dir.chain);
  }
