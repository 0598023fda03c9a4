-- ===== src/Vm/Tests.antt =====
-- An empty directory with one free page, and an address space of one mapped page.
use cs.Base.{
  some, Outcome, zero, suc, if◌then◌else◌, ◌==◌, Ensures, true, false, ℕ, ◌+◌, ◌*◌, ◌%◌, ◌<◌, ◌≡◌,
  ◌≢◌, refl, sym, ◌∙◌, arith, List, [], ◌∷◌, All, update, update_ne, ok, subst, ℕ_discrete,
}
use cs.Kalloc.{Kmem}
use cs.Kalloc.Chain.{IsChain}
use cs.Vm.{mappages, dealloc_rounds, deallocuvm, round_up}
use cs.Vm.Tables.{table_of, HasTable, pte_at, IsDirectory}
use cs.Vm.Map.{MapsPages}
use cs.Vm.Range.{mappages_lem}
use cs.Vm.Space.{IsFrame, IsSpace}
use cs.Vm.Round.{entry_lacks}
use cs.Vm.Interface.{paging}
use cs.Shared.{Shm, IsPage, map_shared_region}
use cs.Shared.Layout.{SeesRegion, map_shared_region-SeesRegion}
use cs.Vm.Ends.{deallocuvm-ends}
use cs.Vm.Dealloc.{Deallocs, deallocuvm_lem}

abbrev dir : ℕ
dir = 2151677952

abbrev table : ℕ
table = 2151682048

abbrev user_page : ℕ
user_page = 2151686144

abbrev empty : Kmem
empty = record { freelist = table; mem = λ a. 0 }

empty-IsDirectory : IsDirectory empty dir
empty-IsDirectory = record {
  aligned = refl;
  table_nonzero = λ i hi h. absurd (omega arith);
  table_elsewhere = λ i hi h. absurd (omega arith);
  tables_apart = λ i j hi hj h h' e. absurd (omega arith);
  free_pages = table ∷ [];
  chain = (refl, omega arith, refl, tt, refl);
  spare = (
    record {
      below = omega arith;
      not_directory = omega arith;
      not_table = λ i hi h. absurd (omega arith);
    },
    tt,
  );
}

mappages_lem_example : MapsPages dir 4096 2 8192 6 empty (mappages dir 4096 8192 8192 6 empty)
mappages_lem_example =
    mappages_lem 2 dir 4096 8192 6 empty empty-IsDirectory refl refl (omega arith) (omega arith)
      (omega arith) (omega arith) (λ i lt. refl)

abbrev words : ℕ → ℕ
words = update (update (λ a. 0) dir 4198407) 2151682052 4202503

abbrev one_page : Kmem
one_page = record { freelist = 0; mem = words }

only_table : (i : ℕ) → i < 1024 → HasTable words dir i → i ≡ 0
only_table i hi h = elim (ℕ_discrete i 0) [
  | yes e ↦ e
  | no ne ↦
      let none_there : words (dir + 4 * i) ≡ 0 =
        update_ne (update (λ a. 0) dir 4198407) 2151682052 (dir + 4 * i) 4202503 (omega arith)
        ∙ update_ne (λ a. 0) dir (dir + 4 * i) 4198407 (omega arith) in
      absurd (omega (arith, h, none_there))
]

its_table : (i : ℕ) → i < 1024 → HasTable words dir i → table_of words dir i ≡ table
its_table i hi h = subst (λ j. table_of words dir j ≡ table) (sym (only_table i hi h)) refl

only_entry : (i m : ℕ) → i < 1024 → m < 1024 → pte_at words dir i m % 2 ≡ 1 → (i ≡ 0) × (m ≡ 1)
only_entry i m hi hm h = elim (ℕ_discrete i 0) [
  | yes e ↦ (
    e,
    elim (ℕ_discrete m 1) [
      | yes one ↦ one
      | no ne ↦
          let none_there : words (table + 4 * m) ≡ 0 =
            update_ne (update (λ a. 0) dir 4198407) 2151682052 (table + 4 * m) 4202503 (omega arith)
            ∙ update_ne (λ a. 0) dir (table + 4 * m) 4198407 (omega arith) in
          let there : pte_at words dir 0 m % 2 ≡ 1 =
            subst (λ j. pte_at words dir j m % 2 ≡ 1) e h in
          absurd (omega (arith, none_there, there))
    ],
  )
  | no ne ↦
      let gone = entry_lacks words dir i m (λ has. ne (only_table i hi has)) in
      absurd (omega (arith, h, gone))
]

one_page-IsDirectory : IsDirectory one_page dir
one_page-IsDirectory = record {
  aligned = refl;
  table_nonzero = λ i hi h. let e = its_table i hi h in omega (arith, e);
  table_elsewhere = λ i hi h. let e = its_table i hi h in omega (arith, e);
  tables_apart = λ i j hi hj h h' e. only_table i hi h ∙ sym (only_table j hj h');
  free_pages = [];
  chain = refl;
  spare = tt;
}

the_frame : IsFrame 2148532224 one_page dir 4202503
the_frame = record {
  nonzero = omega arith;
  above = omega arith;
  below = omega arith;
  not_directory = omega arith;
  not_table = λ j hj h e. let at = its_table j hj h in omega (arith, e, at);
  not_free = λ qs c. none_free qs c;
}
  where
    none_free : (qs : List ℕ) → IsChain words 0 qs → All (λ q. user_page ≢ q) qs
    none_free [] c = tt
    none_free (q ∷ qs) (at, nz, _, _, _) = absurd (nz (sym at))

one_page-IsSpace : IsSpace 2148532224 one_page dir
one_page-IsSpace = record {
  directory = one_page-IsDirectory;
  frames = λ i m hi hm h.
      let (ei, em) = only_entry i m (omega arith) hm h in
      subst (λ a. IsFrame 2148532224 one_page dir (pte_at words dir a m)) (sym ei)
        (subst (λ b. IsFrame 2148532224 one_page dir (pte_at words dir 0 b)) (sym em) the_frame);
  frames_apart = λ i m j l hi hm hj hl h h' e.
      let (ei, em) = only_entry i m (omega arith) hm h in
      let (ej, el) = only_entry j l (omega arith) hl h' in (ei ∙ sym ej, em ∙ sym el);
}

deallocuvm_lem_example :
    (l : Kmem) × (deallocuvm 2148532224 dir 8192 1 one_page ≡ ok (l, 1))
    × Deallocs 2148532224 dir (round_up 1) 8192 one_page l
deallocuvm_lem_example =
    deallocuvm_lem 2148532224 dir 8192 1 one_page one_page-IsSpace (omega arith) (omega arith)

deallocuvm-ends_example :
    (e : Outcome Kmem) × (dealloc_rounds 4 2148532224 dir (round_up 1) 8192 one_page ≡ some e)
deallocuvm-ends_example = deallocuvm-ends 2148532224 dir 8192 1 one_page (omega arith)

-- A region of two pages, and processes whose page tables are `empty`.
abbrev region_only : Shm ((k : Kmem) × IsDirectory k dir)
region_only = record {
  regions = λ key. record {
    valid = true;
    ref_count = 0;
    page_count = 2;
    pages = λ j. if j == 0 then 4096 else 8192;
  };
  procs = λ i. record {
    pgdir = (empty, empty-IsDirectory);
    shaddr = 2147483648;
    shared = λ key. record { set = false; va = 0 };
  };
  ncli = 0;
}

two_pages : (j : ℕ) → j < 2 → IsPage (if j == 0 then 4096 else 8192)
two_pages zero lt = (refl, omega arith)
two_pages (suc zero) lt = (refl, omega arith)
two_pages (suc (suc j)) lt = absurd (omega arith)

-- What is known of shared memory holds of it on these page tables.
region_seen :
    Ensures
      (SeesRegion (paging dir) 0 3 region_only)
      (map_shared_region (paging dir) 0 3 region_only)
region_seen =
    map_shared_region-SeesRegion (paging dir) 0 3 region_only refl (omega arith) (omega arith) refl
      two_pages
