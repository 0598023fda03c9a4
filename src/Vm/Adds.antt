-- ===== src/Vm/Adds.antt =====
-- HW3/xv6-src/vm.c: what a new table that `walkpgdir` makes changes in memory.
use cs.Base.{
  ℕ, ◌+◌, ◌*◌, ◌%◌, ◌^◌, ◌≤◌, ◌<◌, ◌≡◌, ◌≢◌, ◌⊎◌, inl, inr, refl, sym, ap, ◌∙◌, arith, List, [],
  ◌∷◌, All, ◌==◌, Bool-cases, false, update_ne, update_self, ℕ_discrete, subst,
}
use cs.Kalloc.{Kmem, pgsize}
use cs.Kalloc.Chain.{IsChain}
use cs.Vm.{pte_addr, p2v, v2p, zeroes, add_table}
use cs.Vm.Or.{bit_or_flags}
use cs.Vm.Zeroed.{zeroes-outside, zeroes-inside}
use cs.Vm.Tables.{
  pde_of, table_of, HasTable, pte_at, pte_at_has, IsSpare, IsDirectory, IsChain-kept, words_apart,
  table_of-aligned,
}
use Prim.Native.Nat.{bit_or}

-- The entry of the directory for a new table points to it.
abbrev new_pde : ℕ → ℕ
new_pde t = bit_or (bit_or (bit_or (v2p t) 1) 2) 4

new_pde_lem :
    (t : ℕ) → t % pgsize ≡ 0 → t < 2 ^ 32 → (new_pde t % 2 ≡ 1) × (p2v (pte_addr (new_pde t)) ≡ t)
new_pde_lem t h lt =
    let e : new_pde t ≡ v2p t + 7 = bit_or_flags (v2p t) (omega arith) in
    rw e (omega arith, omega arith)

-- The page `t` becomes the table of the directory's entry `i`.
pub record Adds (old new : ℕ → ℕ) (d i t : ℕ) : Type 0 where
  pub has : HasTable new d i
  pub at : table_of new d i ≡ t
  pub others : (j : ℕ) → j < 1024 → i ≢ j → pde_of new d j ≡ pde_of old d j
  pub words :
      (p m : ℕ) → p % pgsize ≡ 0 → p ≢ d → p ≢ t → m < 1024 → new (p + 4 * m) ≡ old (p + 4 * m)
  pub blank : (m : ℕ) → m < 1024 → new (t + 4 * m) ≡ 0

-- What a new table leaves as it was: every word outside it but the directory's entry.
add_table-kept :
    (k : Kmem) (pde t p : ℕ)
    → (p < t) ⊎ (t + 4 * 1024 ≤ p)
    → pde ≢ p
    → (add_table pde k t).mem p ≡ k.mem p
add_table-kept k pde t p h ne =
    update_ne (zeroes 1024 t k.mem) pde p (new_pde t) ne ∙ zeroes-outside 1024 t p k.mem h

outside_page :
    (t p m : ℕ)
    → t % pgsize ≡ 0
    → p % pgsize ≡ 0
    → p ≢ t
    → m < 1024
    → (p + 4 * m < t) ⊎ (t + 4 * 1024 ≤ p + 4 * m)
outside_page t p m ht hp ne lt = omega arith

pub add_table-Adds :
    (k : Kmem) (d i t : ℕ)
    → d % pgsize ≡ 0
    → t % pgsize ≡ 0
    → t < 2 ^ 32
    → d ≢ t
    → i < 1024
    → Adds k.mem (add_table (d + 4 * i) k t).mem d i t
add_table-Adds k d i t hd ht lt ne hi =
    let new = (add_table (d + 4 * i) k t).mem in
    let set : new (d + 4 * i) ≡ new_pde t =
      update_self (zeroes 1024 t k.mem) (d + 4 * i) (new_pde t) in
    let made = new_pde_lem t ht lt in
    record {
      has = rw set made.0;
      at = ap (λ x. p2v (pte_addr x)) set ∙ made.1;
      others = λ j hj nj.
          add_table-kept k (d + 4 * i) t (d + 4 * j) (outside_page t d j ht hd ne hj) (omega arith);
      words = λ p m hp np nt hm.
          add_table-kept k (d + 4 * i) t (p + 4 * m) (outside_page t p m ht hp nt hm)
            (words_apart d p i m hd hp (λ e. np (sym e)) hi hm);
      blank = λ m hm.
          update_ne (zeroes 1024 t k.mem) (d + 4 * i) (t + 4 * m) (new_pde t)
            (words_apart d t i m hd ht ne hi hm)
          ∙ zeroes-inside 1024 t (t + 4 * m) m k.mem refl hm;
    }

-- A table of the new memory is the new one or an old one.
table_cases :
    {old new : ℕ → ℕ} {d i t : ℕ}
    → Adds old new d i t
    → (j : ℕ) → j < 1024
    → HasTable new d j
    → ((i ≡ j) × (table_of new d j ≡ t))
      ⊎ ((i ≢ j) × HasTable old d j × (table_of new d j ≡ table_of old d j))
table_cases {old} {new} {d} {i} {t} h j hj has = elim (ℕ_discrete i j) [
  | yes e ↦ inl (e, subst (λ n. table_of new d n ≡ t) e h.at)
  | no ne ↦
      let same = h.others j hj ne in inr (ne, rw (sym same) has, ap (λ x. p2v (pte_addr x)) same)
]

pub Adds-pte_at :
    (k : Kmem) {new : ℕ → ℕ} {d i t : ℕ}
    → IsDirectory k d
    → Adds k.mem new d i t
    → IsSpare k.mem d t
    → (pde_of k.mem d i % 2 == 1) ≡ false
    → (j m : ℕ) → j < 1024
    → m < 1024
    → pte_at new d j m ≡ pte_at k.mem d j m
Adds-pte_at k {new} {d} {i} {t} dir h sp absent j m hj hm = elim (ℕ_discrete i j) [
  | yes e ↦
      let none_yet : pte_at k.mem d i m ≡ 0 = rw absent refl in
      let made : pte_at new d i m ≡ 0 =
        pte_at_has new d i m h.has ∙ ap (λ p. new (p + 4 * m)) h.at ∙ h.blank m hm in
      subst (λ n. pte_at new d n m ≡ pte_at k.mem d n m) e (made ∙ sym none_yet)
  | no ne ↦ elim (Bool-cases (pde_of k.mem d j % 2 == 1)) [
    | inl b ↦
        let has : HasTable k.mem d j = ground arith in
        let same = h.others j hj ne in
        let at : table_of new d j ≡ table_of k.mem d j = ap (λ x. p2v (pte_addr x)) same in
        let has' : HasTable new d j = rw same has in
        let word =
          h.words (table_of k.mem d j) m (table_of-aligned k.mem d j) (dir.table_elsewhere j hj has)
            (λ e. sp.not_table j hj has (sym e)) hm in
        pte_at_has new d j m has'
        ∙ ap (λ p. new (p + 4 * m)) at
        ∙ word
        ∙ sym (pte_at_has k.mem d j m has)
    | inr b ↦
        let same = h.others j hj ne in
        let b' : (pde_of new d j % 2 == 1) ≡ false = rw same b in
        let zero_new : pte_at new d j m ≡ 0 = rw b' refl in
        let zero_old : pte_at k.mem d j m ≡ 0 = rw b refl in zero_new ∙ sym zero_old
  ]
]

Adds-IsSpare :
    {old new : ℕ → ℕ} {d i t : ℕ} (q : ℕ)
    → Adds old new d i t
    → t ≢ q
    → IsSpare old d q
    → IsSpare new d q
Adds-IsSpare q h ne sp = record {
  below = sp.below;
  not_directory = sp.not_directory;
  not_table = λ j hj has e. elim (table_cases h j hj has) [
    | inl (at, new_one) ↦ ne (sym (e ∙ new_one))
    | inr (away, had, same) ↦ sp.not_table j hj had (e ∙ same)
  ];
}

spares_kept :
    {old new : ℕ → ℕ} {d i t : ℕ} (qs : List ℕ)
    → Adds old new d i t
    → All (λ q. t ≢ q) qs
    → All (IsSpare old d) qs
    → All (IsSpare new d) qs
spares_kept [] h apart sp = tt
spares_kept (q ∷ qs) h (nq, apart) (sq, sp) = (Adds-IsSpare q h nq sq, spares_kept qs h apart sp)

heads_kept :
    {old new : ℕ → ℕ} {d i t : ℕ} (p : ℕ) (qs : List ℕ)
    → Adds old new d i t
    → IsChain old p qs
    → All (λ q. t ≢ q) qs
    → All (IsSpare old d) qs
    → All (λ q. new q ≡ old q) qs
heads_kept p [] h c apart sp = tt
heads_kept {old} {new} p (q ∷ qs) h (at, nz, hq, ne, c) (nq, apart) (sq, sp) =
    let word : new (q + 4 * 0) ≡ old (q + 4 * 0) =
      h.words q 0 hq sq.not_directory (λ e. nq (sym e)) (omega arith) in
    let start : q + 4 * 0 ≡ q = omega arith in
    (subst (λ p. new p ≡ old p) start word, heads_kept (old q) qs h c apart sp)

pub Adds-IsDirectory :
    (k : Kmem) (new : ℕ → ℕ) (d i t : ℕ) (qs : List ℕ)
    → i < 1024
    → (dir : IsDirectory k d) → dir.free_pages ≡ t ∷ qs
    → Adds k.mem new d i t
    → IsDirectory (record { freelist = k.mem k.freelist; mem = new }) d
Adds-IsDirectory k new d i t qs hi dir e h =
    let (at, nz, ht, apart, c) = subst (IsChain k.mem k.freelist) e dir.chain in
    let (st, sqs) = subst (All (IsSpare k.mem d)) e dir.spare in
    record {
      aligned = dir.aligned;
      table_nonzero = λ j hj has. elim (table_cases h j hj has) [
        | inl (_, is_new) ↦ λ z. nz (sym is_new ∙ z)
        | inr (_, had, same) ↦ λ z. dir.table_nonzero j hj had (sym same ∙ z)
      ];
      table_elsewhere = λ j hj has. elim (table_cases h j hj has) [
        | inl (_, is_new) ↦ λ z. st.not_directory (sym is_new ∙ z)
        | inr (_, had, same) ↦ λ z. dir.table_elsewhere j hj had (sym same ∙ z)
      ];
      tables_apart = λ j l hj hl hasj hasl same. elim (table_cases h j hj hasj) [
        | inl (ej, tj) ↦ elim (table_cases h l hl hasl) [
          | inl (el, tl) ↦ sym ej ∙ el
          | inr (nl, hadl, tl) ↦ absurd (st.not_table l hl hadl (sym tj ∙ same ∙ tl))
        ]
        | inr (nj, hadj, tj) ↦ elim (table_cases h l hl hasl) [
          | inl (el, tl) ↦ absurd (st.not_table j hj hadj (sym tl ∙ sym same ∙ tj))
          | inr (nl, hadl, tl) ↦ dir.tables_apart j l hj hl hadj hadl (sym tj ∙ same ∙ tl)
        ]
      ];
      free_pages = qs;
      chain = rw at (IsChain-kept k.mem new (k.mem t) qs (heads_kept (k.mem t) qs h c apart sqs) c);
      spare = spares_kept qs h apart sqs;
    }
