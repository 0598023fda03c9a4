-- ===== src/Vm/Stored.antt =====
-- HW3/xv6-src/vm.c: one write to an entry of a page table.
use cs.Base.{
  ℕ, ◌+◌, ◌*◌, ◌%◌, ◌<◌, ◌≡◌, ◌≢◌, inl, inr, refl, sym, ap, ◌∙◌, arith, List, [], ◌∷◌, All, ◌==◌,
  Bool-cases, false, update, update_ne, update_self, subst, ℕ_discrete,
}
use cs.Kalloc.{Kmem, pgsize}
use cs.Kalloc.Chain.{IsChain}
use cs.Vm.{pte_addr, p2v}
use cs.Vm.Tables.{
  pde_of, table_of, HasTable, pte_at, pte_at_has, IsSpare, IsDirectory, IsChain-kept, words_apart,
  table_of-aligned,
}

same_slot : {m l : ℕ} (p q : ℕ) → p ≡ q → p + 4 * m ≡ q + 4 * l → m ≡ l
same_slot p q e f = omega arith

-- Writing an entry of the table for index `i` leaves the directory and the free pages alone.
module _ (k : Kmem) (d i m x : ℕ) (dir : IsDirectory k d) (hi : i < 1024) (hm : m < 1024)
    (has : HasTable k.mem d i) where
  abbrev pub new_mem : ℕ → ℕ
  new_mem = update k.mem (table_of k.mem d i + 4 * m) x

  word_kept :
      (p j : ℕ)
      → p % pgsize ≡ 0
      → p ≢ table_of k.mem d i
      → j < 1024
      → new_mem (p + 4 * j) ≡ k.mem (p + 4 * j)
  word_kept p j hp ne hj = update_ne k.mem (table_of k.mem d i + 4 * m) (p + 4 * j) x (
      words_apart (table_of k.mem d i) p m j (table_of-aligned k.mem d i) hp (λ e. ne (sym e)) hm
        hj)

  pub pde_kept : (j : ℕ) → j < 1024 → pde_of new_mem d j ≡ pde_of k.mem d j
  pde_kept j hj = word_kept d j dir.aligned (λ e. dir.table_elsewhere i hi has (sym e)) hj

  pub table_kept : (j : ℕ) → j < 1024 → table_of new_mem d j ≡ table_of k.mem d j
  table_kept j hj = ap (λ w. p2v (pte_addr w)) (pde_kept j hj)

  pub had : (j : ℕ) → j < 1024 → HasTable new_mem d j → HasTable k.mem d j
  had j hj h = ap (λ w. w % 2) (sym (pde_kept j hj)) ∙ h

  stored-IsSpare : (q : ℕ) → IsSpare k.mem d q → IsSpare new_mem d q
  stored-IsSpare q sp = record {
    below = sp.below;
    not_directory = sp.not_directory;
    not_table = λ j hj h e. sp.not_table j hj (had j hj h) (e ∙ table_kept j hj);
  }

  stored_spares : (qs : List ℕ) → All (IsSpare k.mem d) qs → All (IsSpare new_mem d) qs
  stored_spares [] sp = tt
  stored_spares (q ∷ qs) (sq, sp) = (stored-IsSpare q sq, stored_spares qs sp)

  heads_stored :
      (p : ℕ) (qs : List ℕ)
      → IsChain k.mem p qs
      → All (IsSpare k.mem d) qs
      → All (λ q. new_mem q ≡ k.mem q) qs
  heads_stored p [] c sp = tt
  heads_stored p (q ∷ qs) (at, nz, hq, ne, c) (sq, sp) =
      let word = word_kept q 0 hq (sq.not_table i hi has) (omega arith) in
      let start : q + 4 * 0 ≡ q = omega arith in
      (subst (λ a. new_mem a ≡ k.mem a) start word, heads_stored (k.mem q) qs c sp)

  pub stored-IsChain : IsChain new_mem k.freelist dir.free_pages
  stored-IsChain =
      IsChain-kept k.mem new_mem k.freelist dir.free_pages
        (heads_stored k.freelist dir.free_pages dir.chain dir.spare) dir.chain

  pub stored-IsDirectory : IsDirectory (record { freelist = k.freelist; mem = new_mem }) d
  stored-IsDirectory = record {
    aligned = dir.aligned;
    table_nonzero = λ j hj h z. dir.table_nonzero j hj (had j hj h) (sym (table_kept j hj) ∙ z);
    table_elsewhere = λ j hj h z. dir.table_elsewhere j hj (had j hj h) (sym (table_kept j hj) ∙ z);
    tables_apart = λ j l hj hl h h' e.
        dir.tables_apart j l hj hl (had j hj h) (had l hl h')
          (sym (table_kept j hj) ∙ e ∙ table_kept l hl);
    free_pages = dir.free_pages;
    chain = stored-IsChain;
    spare = stored_spares dir.free_pages dir.spare;
  }

  pub stored_self : pte_at new_mem d i m ≡ x
  stored_self =
      let h : HasTable new_mem d i = ap (λ w. w % 2) (pde_kept i hi) ∙ has in
      pte_at_has new_mem d i m h
      ∙ ap (λ p. new_mem (p + 4 * m)) (table_kept i hi)
      ∙ update_self k.mem (table_of k.mem d i + 4 * m) x

  pub stored_other :
      (j l : ℕ) → j < 1024 → l < 1024 → (i ≡ j → m ≢ l) → pte_at new_mem d j l ≡ pte_at k.mem d j l
  stored_other j l hj hl ne = elim (Bool-cases (pde_of k.mem d j % 2 == 1)) [
    | inl b ↦
        let h : HasTable k.mem d j = ground arith in
        let h' : HasTable new_mem d j = ap (λ w. w % 2) (pde_kept j hj) ∙ h in
        let word : new_mem (table_of k.mem d j + 4 * l) ≡ k.mem (table_of k.mem d j + 4 * l) =
          elim (ℕ_discrete i j) [
            | yes e ↦
                let row : table_of k.mem d i ≡ table_of k.mem d j = ap (table_of k.mem d) e in
                update_ne k.mem (table_of k.mem d i + 4 * m) (table_of k.mem d j + 4 * l) x
                  (λ q. ne e (same_slot (table_of k.mem d i) (table_of k.mem d j) row q))
            | no nj ↦
                word_kept (table_of k.mem d j) l (table_of-aligned k.mem d j)
                  (λ e. nj (sym (dir.tables_apart j i hj hi h has e))) hl
          ] in
        pte_at_has new_mem d j l h'
        ∙ ap (λ p. new_mem (p + 4 * l)) (table_kept j hj)
        ∙ word
        ∙ sym (pte_at_has k.mem d j l h)
    | inr b ↦
        let b' : (pde_of new_mem d j % 2 == 1) ≡ false = ap (λ w. w % 2 == 1) (pde_kept j hj) ∙ b in
        let zero_new : pte_at new_mem d j l ≡ 0 = rw b' refl in
        let zero_old : pte_at k.mem d j l ≡ 0 = rw b refl in zero_new ∙ sym zero_old
  ]
