-- ===== src/Vm/Walk.antt =====
-- HW3/xv6-src/vm.c: `walkpgdir` finds the place of an entry, and makes a table for it if asked to.
use cs.Base.{
  ℕ, ◌+◌, ◌*◌, ◌%◌, ◌≡◌, ◌≢◌, ◌⊎◌, inl, inr, refl, sym, ap, ◌∙◌, arith, List, [], ◌∷◌, All, ◌==◌,
  if◌then◌else◌, Bool-cases, Bool, true, false, subst,
}
use cs.Kalloc.{Kmem, kalloc}
use cs.Kalloc.Chain.{IsChain}
use cs.Kalloc.Calls.{kalloc_empty, kalloc_head}
use cs.Vm.{pdx, ptx, add_table, walkpgdir}
use cs.Vm.Tables.{pde_of, table_of, HasTable, entry, IsSpare, IsDirectory, pdx_lt, ptx_lt}
use cs.Vm.Adds.{add_table-Adds, Adds-pte_at, Adds-IsDirectory}

-- The memory and the place that `walkpgdir` gives for `va`.
pub record Walked (d va : ℕ) (alloc : Bool) (k : Kmem) (r : Kmem × ℕ) : Type 0 where
  pub found :
      r.1 ≢ 0 → HasTable r.0.mem d (pdx va) × (r.1 ≡ table_of r.0.mem d (pdx va) + 4 * ptx va)
  pub missing :
      r.1 ≡ 0 → (r.0 ≡ k) × ¬ HasTable k.mem d (pdx va) × ((alloc ≡ false) ⊎ (k.freelist ≡ 0))
  pub unasked : alloc ≡ false → r.0 ≡ k
  pub kept : (vb : ℕ) → entry r.0.mem d vb ≡ entry k.mem d vb
  pub directory : IsDirectory r.0 d

abbrev walk_new : ℕ → ℕ → Kmem → Kmem × ℕ
walk_new d va k = (add_table (d + 4 * pdx va) (kalloc k).0 (kalloc k).1, (kalloc k).1 + 4 * ptx va)

walk_missing :
    (d va : ℕ) (alloc : Bool) (k : Kmem)
    → IsDirectory k d
    → (pde_of k.mem d (pdx va) % 2 == 1) ≡ false
    → (alloc ≡ false) ⊎ (k.freelist ≡ 0)
    → Walked d va alloc k (k, 0)
walk_missing d va alloc k dir absent why = record {
  found = λ nz. absurd (nz refl);
  missing = λ z. (refl, λ has. ground arith, why);
  unasked = λ n. refl;
  kept = λ vb. refl;
  directory = dir;
}

walk_found :
    (d va : ℕ) (alloc : Bool) (k : Kmem)
    → IsDirectory k d
    → HasTable k.mem d (pdx va)
    → Walked d va alloc k (k, table_of k.mem d (pdx va) + 4 * ptx va)
walk_found d va alloc k dir has = record {
  found = λ nz. (has, refl);
  missing = λ z. absurd (dir.table_nonzero (pdx va) (pdx_lt va) has (omega arith));
  unasked = λ n. refl;
  kept = λ vb. refl;
  directory = dir;
}

walk_made :
    (d va t : ℕ) (k : Kmem) (qs : List ℕ)
    → (dir : IsDirectory k d) → dir.free_pages ≡ t ∷ qs
    → (pde_of k.mem d (pdx va) % 2 == 1) ≡ false
    → Walked d va true k
        (add_table (d + 4 * pdx va) (record k { freelist = k.mem k.freelist }) t, t + 4 * ptx va)
walk_made d va t k qs dir e absent =
    let (at, nz, ht, apart, c) = subst (IsChain k.mem k.freelist) e dir.chain in
    let (st, sqs) = subst (All (IsSpare k.mem d)) e dir.spare in
    let adds =
      add_table-Adds (record k { freelist = k.mem k.freelist }) d (pdx va) t dir.aligned ht st.below
        (λ same. st.not_directory (sym same)) (pdx_lt va) in
    record {
      found = λ _. (adds.has, ap (λ p. p + 4 * ptx va) (sym adds.at));
      missing = λ z. absurd (nz (omega arith));
      unasked = λ n. cc;
      kept = λ vb. Adds-pte_at k dir adds st absent (pdx vb) (ptx vb) (pdx_lt vb) (ptx_lt vb);
      directory = Adds-IsDirectory k _ d (pdx va) t qs (pdx_lt va) dir e adds;
    }

walk_alloc :
    (d va : ℕ) (k : Kmem) (qs : List ℕ)
    → (dir : IsDirectory k d) → dir.free_pages ≡ qs
    → (pde_of k.mem d (pdx va) % 2 == 1) ≡ false
    → Walked d va true k (if (kalloc k).1 == 0 then (k, 0) else walk_new d va k)
walk_alloc d va k [] dir e absent =
    let z : k.freelist ≡ 0 = subst (IsChain k.mem k.freelist) e dir.chain in
    rw (kalloc_empty k z) (walk_missing d va true k dir absent (inr z))
walk_alloc d va k (t ∷ qs) dir e absent =
    let (at, nz, ht, apart, c) = subst (IsChain k.mem k.freelist) e dir.chain in
    let some_left : k.freelist ≢ 0 = λ z. nz (sym at ∙ z) in
    let b : (k.freelist == 0) ≡ false = ground arith in
    let made = walk_made d va k.freelist k qs dir (e ∙ ap (λ p. p ∷ qs) (sym at)) absent in
    rw (kalloc_head k some_left, b) made

-- `walkpgdir` on a well-formed directory keeps it well-formed and keeps every entry, changes nothing
-- unless it is asked to allocate, and gives the place of the entry for the address in its table; it
-- gives null only where there is no table, and either none was asked for or no page is free.
pub walkpgdir_lem :
    (d va : ℕ) (alloc : Bool) (k : Kmem)
    → IsDirectory k d
    → Walked d va alloc k (walkpgdir d va alloc k)
unfolding walkpgdir
walkpgdir_lem d va alloc k dir = elim (Bool-cases (pde_of k.mem d (pdx va) % 2 == 1)) [
  | inl b ↦ rw b (walk_found d va alloc k dir (ground arith))
  | inr b ↦ rw b (elim (Bool-cases alloc) [
    | inl a ↦ rw a (walk_alloc d va k dir.free_pages dir refl b)
    | inr a ↦ rw a (walk_missing d va false k dir b (inl refl))
  ])
]
