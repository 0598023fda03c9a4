-- ===== src/Vm/Unmap.antt =====
-- HW3/xv6-src/vm.c: giving back a mapped page and clearing its entry keeps the address space sound.
use cs.Base.{
  ℕ, ◌+◌, ◌*◌, ◌%◌, ◌^◌, ◌<◌, ◌≡◌, ◌≢◌, inl, inr, refl, sym, ap, ◌∙◌, arith, List, ◌∷◌, All, subst,
  ok,
}
use cs.Kalloc.{Kmem, pgsize, kfree}
use cs.Kalloc.Chain.{IsIn, IsChain}
use cs.Kalloc.Calls.{kfree_ok, freed}
use cs.Vm.{set_pte}
use cs.Vm.Tables.{table_of, HasTable, pte_at, IsDirectory}
use cs.Vm.Stored.{had, table_kept, stored-IsChain, stored-IsDirectory, stored_self, stored_other}
use cs.Vm.Space.{frame, IsFrame, IsSpace, chain_unique}
use cs.Vm.Freed.{
  Frees, kfree-Frees, freed_table, freed-pte_at, freed_has, freed-IsDirectory, freed-IsFrame,
}

-- The page `p` is on the free list.
abbrev pub IsFreed : Kmem → ℕ → Type 0
IsFreed k p = (qs : List ℕ) → IsChain k.mem k.freelist qs → IsIn p qs

-- The entry `m` of table `i` is cleared; other entries are kept, and what was free stays free.
pub record Unmaps (end d i m : ℕ) (k s : Kmem) : Type 0 where
  pub space : IsSpace end s d
  pub cleared : pte_at s.mem d i m ≡ 0
  pub others :
      (j l : ℕ) → j < 1024 → l < 1024 → (i ≡ j → m ≢ l) → pte_at s.mem d j l ≡ pte_at k.mem d j l
  pub given_back : IsFreed s (frame (pte_at k.mem d i m))
  pub free_kept : (p : ℕ) → IsFreed k p → IsFreed s p

module _ (end d i m : ℕ) (k : Kmem) (sp : IsSpace end k d) (hi : i < 512) (hm : m < 1024)
    (has : HasTable k.mem d i) (present : pte_at k.mem d i m % 2 ≡ 1) where
  abbrev page : ℕ
  page = frame (pte_at k.mem d i m)

  held : IsFrame end k d (pte_at k.mem d i m)
  held = sp.frames i m hi hm present

  page_aligned : page % pgsize ≡ 0
  page_aligned = aligned (pte_at k.mem d i m)
    where
      aligned : (x : ℕ) → frame x % pgsize ≡ 0
      aligned x = omega arith

  page_lt : page < 2 ^ 32
  page_lt = omega arith

  page_given : kfree end page k ≡ ok (freed page k)
  page_given = kfree_ok end page k page_aligned held.above held.below

  gives : Frees k (freed page k) page
  gives = kfree-Frees end page k page_aligned page_given

  apart : All (λ q. page ≢ q) sp.directory.free_pages
  apart = held.not_free sp.directory.free_pages sp.directory.chain

  -- The directory between the two writes
  middle : IsDirectory (freed page k) d
  middle = freed-IsDirectory sp.directory gives held.not_directory held.not_table page_lt apart

  hit : i < 1024
  hit = omega arith

  middle_has : HasTable (freed page k).mem d i
  middle_has = freed_has sp.directory gives held.not_directory held.not_table i hit has

  abbrev after : Kmem
  after = set_pte (freed page k) (table_of (freed page k).mem d i + 4 * m) 0

  after_kept :
      (j l : ℕ)
      → j < 1024
      → l < 1024
      → (i ≡ j → m ≢ l)
      → pte_at after.mem d j l ≡ pte_at k.mem d j l
  after_kept j l hj hl ne =
      stored_other (freed page k) d i m 0 middle hit hm middle_has j l hj hl ne
      ∙ freed-pte_at sp.directory gives held.not_directory held.not_table j l hj hl

  after_cleared : pte_at after.mem d i m ≡ 0
  after_cleared = stored_self (freed page k) d i m 0 middle hit hm middle_has

  after-IsDirectory : IsDirectory after d
  after-IsDirectory = stored-IsDirectory (freed page k) d i m 0 middle hit hm middle_has

  -- The free list afterwards
  after-IsChain : IsChain after.mem after.freelist (page ∷ sp.directory.free_pages)
  after-IsChain =
      let grown = gives.grown sp.directory.free_pages sp.directory.chain apart in
      subst (IsChain after.mem after.freelist)
        (chain_unique (freed page k).mem page middle.free_pages (page ∷ sp.directory.free_pages)
          middle.chain grown)
        (stored-IsChain (freed page k) d i m 0 middle hit hm middle_has)

  after_free :
      (qs : List ℕ) → IsChain after.mem after.freelist qs → (page ∷ sp.directory.free_pages) ≡ qs
  after_free qs c =
      chain_unique after.mem after.freelist (page ∷ sp.directory.free_pages) qs after-IsChain c

  after-IsFrame : (x : ℕ) → IsFrame end k d x → frame x ≢ page → IsFrame end after d x
  after-IsFrame x fr ne =
      let mid = freed-IsFrame sp.directory gives held.not_directory held.not_table apart fr ne in
      record {
        nonzero = fr.nonzero;
        above = fr.above;
        below = fr.below;
        not_directory = fr.not_directory;
        not_table = λ j hj h e.
            mid.not_table j hj (had (freed page k) d i m 0 middle hit hm middle_has j hj h)
              (e ∙ table_kept (freed page k) d i m 0 middle hit hm middle_has j hj);
        not_free = λ qs c.
            subst (All (λ q. frame x ≢ q)) (after_free qs c)
              (ne, fr.not_free sp.directory.free_pages sp.directory.chain);
      }

  -- A present entry afterwards is another one, and was present.
  still : (j l : ℕ) → j < 512 → l < 1024 → pte_at after.mem d j l % 2 ≡ 1 → (i ≡ j → m ≢ l)
  still j l hj hl h e f =
      let gone : pte_at after.mem d j l ≡ 0 =
        subst (λ a. pte_at after.mem d a l ≡ 0) e
          (subst (λ b. pte_at after.mem d i b ≡ 0) f after_cleared) in
      omega (arith, h, gone)

  was :
      (j l : ℕ)
      → j < 512
      → l < 1024
      → pte_at after.mem d j l % 2 ≡ 1
      → pte_at after.mem d j l ≡ pte_at k.mem d j l
  was j l hj hl h = after_kept j l (omega arith) hl (still j l hj hl h)

  after-IsSpace : IsSpace end after d
  after-IsSpace = record {
    directory = after-IsDirectory;
    frames = λ j l hj hl h.
        let same = was j l hj hl h in
        let had_one : pte_at k.mem d j l % 2 ≡ 1 = ap (λ x. x % 2) (sym same) ∙ h in
        subst (IsFrame end after d) (sym same) (
          after-IsFrame (pte_at k.mem d j l) (sp.frames j l hj hl had_one) (λ e.
            let both = sp.frames_apart j l i m hj hl hi hm had_one present e in
            still j l hj hl h (sym both.0) (sym both.1)));
    frames_apart = λ j l a b hj hl ha hb h h' e.
        let same = was j l hj hl h in
        let same' = was a b ha hb h' in
        sp.frames_apart j l a b hj hl ha hb (ap (λ x. x % 2) (sym same) ∙ h)
          (ap (λ x. x % 2) (sym same') ∙ h') (ap frame (sym same) ∙ e ∙ ap frame same');
  }

  after-Unmaps : Unmaps end d i m k after
  after-Unmaps = record {
    space = after-IsSpace;
    cleared = after_cleared;
    others = after_kept;
    given_back = λ qs c. subst (IsIn page) (after_free qs c) (inl refl);
    free_kept = λ p h qs c.
        subst (IsIn p) (after_free qs c) (inr (h sp.directory.free_pages sp.directory.chain));
  }

  -- `kfree` of the entry's page does not panic, and clearing the entry after it unmaps the page.
  pub unmap_lem :
      (kfree end page k ≡ ok (freed page k))
      × Unmaps end d i m k (set_pte (freed page k) (table_of k.mem d i + 4 * m) 0)
  unmap_lem = (
    page_given,
    subst (λ t. Unmaps end d i m k (set_pte (freed page k) (t + 4 * m) 0))
        (freed_table sp.directory gives held.not_directory held.not_table i hit) after-Unmaps,
  )
