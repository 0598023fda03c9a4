-- ===== src/Shared/Layout.antt =====
-- Where the pages of a region lie in a process that shares it.
use cs.Base.{
  subst, ℕ, zero, suc, ◌+◌, ◌-◌, ◌*◌, ◌%◌, ◌^◌, ◌≤◌, ◌<◌, ◌≡◌, refl, ap, ◌∙◌, Bool, true, false,
  Option, none, some, arith, update, update_self, Outcome, ok, panic, Ensures, Ensures-bind,
  Ensures-weaken, ◌>>=◌, ℕ_discrete,
}
use cs.Shared.{
  pgsize, IsPage, Reference, Sharer, Shm, Paging, map_loop, map_next, map_done, map_shared_region,
}

module _ (pg : Paging) where
  open pg use {Dir, entry, map_page, entry-map_page, entry-map_page_ne}

  -- The next `n` pages, from `pages[k]` on, lie one below the other under `shaddr`, and what was
  -- mapped above stays.
  pub record Mapped (n k : ℕ) (pages : ℕ → ℕ) (d : Dir) (shaddr : ℕ) (e : Dir) (low : ℕ)
      : Type 0 where
    pub lowest : low + pgsize * n ≡ shaddr
    pub placed : (j : ℕ) → j < n → entry e (shaddr - pgsize * (j + 1)) ≡ pages (k + j) + 7
    pub above : (va : ℕ) → shaddr ≤ va → IsPage va → entry e va ≡ entry d va

  abbrev MapsAll : ℕ → ℕ → (ℕ → ℕ) → Dir → ℕ → Dir × ℕ × Bool → Type 0
  MapsAll n k pages d shaddr (e, low, true) = Mapped n k pages d shaddr e low
  MapsAll n k pages d shaddr (e, low, false) = Unit

  Mapped-suc :
      (n k : ℕ) (pages : ℕ → ℕ) (d d' : Dir) (shaddr va : ℕ) (e : Dir) (low : ℕ)
      → pgsize + va ≡ shaddr
      → pgsize * n ≤ va
      → IsPage va
      → IsPage (pages k)
      → map_page d va (pages k) ≡ ok (some d')
      → Mapped (n) (k + 1) pages d' va e low
      → Mapped (suc n) k pages d shaddr e low
  Mapped-suc n k pages d d' shaddr va e low hv room al pal hm m = record {
    lowest = let l = m.lowest in omega arith;
    placed = λ j lt. elim (ℕ_discrete j 0) [
      | yes z ↦
          ap (entry e) (omega arith)
          ∙ m.above va (omega arith) al
          ∙ entry-map_page d d' va (pages k) al pal hm
          ∙ ap (λ i. pages i + 7) (omega arith)
      | no nz ↦
          ap (entry e) (omega arith)
          ∙ m.placed (j - 1) (omega arith)
          ∙ ap (λ i. pages i + 7) (omega arith)
    ];
    above = λ a le ha.
        m.above a (omega arith) ha
        ∙ entry-map_page_ne d d' va (pages k) a al pal ha hm (omega arith);
  }

  MapsAll-next :
      (n k : ℕ) (pages : ℕ → ℕ) (d : Dir) (shaddr va : ℕ) (r : Outcome (Option Dir))
      → pgsize + va ≡ shaddr
      → pgsize * n ≤ va
      → IsPage va
      → IsPage (pages k)
      → map_page d va (pages k) ≡ r
      → ((e : Dir) → Ensures (MapsAll n (k + 1) pages e va) (map_loop pg n (k + 1) pages e va))
      → Ensures
          (MapsAll (suc n) k pages d shaddr)
          (r >>= map_next pg (λ e. map_loop pg n (k + 1) pages e va) d va)
  MapsAll-next n k pages d shaddr va panic hv room al pal hm ih = tt
  MapsAll-next n k pages d shaddr va (ok none) hv room al pal hm ih = tt
  MapsAll-next n k pages d shaddr va (ok (some d')) hv room al pal hm ih =
      Ensures-weaken (MapsAll n (k + 1) pages d' va) (MapsAll (suc n) k pages d shaddr)
        (map_loop pg n (k + 1) pages d' va) (λ m. widen m.0 m.1 m.2) (ih d')
    where
      widen :
          (e : Dir) (low : ℕ) (all : Bool)
          → MapsAll n (k + 1) pages d' va (e, low, all)
          → MapsAll (suc n) k pages d shaddr (e, low, all)
      widen e low false h = tt
      widen e low true h = Mapped-suc n k pages d d' shaddr va e low hv room al pal hm h

  map_loop-MapsAll :
      (n k : ℕ) (pages : ℕ → ℕ) (d : Dir) (shaddr : ℕ)
      → pgsize * n ≤ shaddr
      → shaddr < 2 ^ 32
      → shaddr % pgsize ≡ 0
      → ((j : ℕ) → j < n → IsPage (pages (k + j)))
      → Ensures (MapsAll n k pages d shaddr) (map_loop pg n k pages d shaddr)
  unfolding map_loop
  map_loop-MapsAll zero k pages d shaddr room lt al pal = record {
    lowest = omega arith;
    placed = λ j l. absurd (omega arith);
    above = λ va le _. refl;
  }
  map_loop-MapsAll (suc n) k pages d shaddr room lt al pal =
      let va = (shaddr + 2 ^ 32 - pgsize) % 2 ^ 32 in
      let here : k + 0 ≡ k = omega arith in
      let first : IsPage (pages k) = subst (λ i. IsPage (pages i)) here (pal 0 (omega arith)) in
      let next : (j : ℕ) → k + (j + 1) ≡ k + 1 + j = λ j. omega arith in
      MapsAll-next n k pages d shaddr va (map_page d va (pages k)) (omega arith) (omega arith)
        (omega arith, omega arith) first refl
        (λ e.
          map_loop-MapsAll n (k + 1) pages e va (omega arith) (omega arith) (omega arith)
            (λ j lj. subst (λ i. IsPage (pages i)) (next j) (pal (j + 1) (omega arith))))

  -- What the process at `i` sees of region `key` at the address that it got.
  abbrev pub SeesRegion : ℕ → ℕ → Shm Dir → Shm Dir × Option ℕ → Type 0
  SeesRegion i key s (u, none) = Unit
  SeesRegion i key s (u, some va) =
      (j : ℕ)
      → j < (s.regions key).page_count
      → entry (u.procs i).pgdir (va + pgsize * ((s.regions key).page_count - (j + 1)))
        ≡ (s.regions key).pages j + 7

  map_done-SeesRegion :
      (i key : ℕ) (s : Shm Dir) (m : Dir × ℕ × Bool)
      → MapsAll
          (s.regions key).page_count
          0
          (s.regions key).pages
          (s.procs i).pgdir
          (s.procs i).shaddr
          m
      → SeesRegion i key s (map_done pg i key s m)
  map_done-SeesRegion i key s (d, low, false) h = tt
  map_done-SeesRegion i key s (d, low, true) h = λ j lt.
      let p = s.procs i in
      let r = s.regions key in
      let ref : Reference = record { set = true; va = low } in
      let p' = record p { pgdir = d; shaddr = low; shared = update p.shared key ref } in
      let whole = h.lowest in
      ap (λ (q : Sharer Dir). entry q.pgdir (low + pgsize * (r.page_count - (j + 1))))
        (update_self s.procs i p')
      ∙ ap (entry d) (omega arith)
      ∙ h.placed j lt
      ∙ ap (λ a. r.pages a + 7) (omega arith)

  -- A process with enough room below `shaddr`, which is a page's address, that maps a region of whole
  -- pages that it does not refer to, and does not fail, sees page j of the region at the address that it got, counted from the region's end: each
  -- process finds the same page at the same offset, writable (the flags are 7).
  pub map_shared_region-SeesRegion :
      (i key : ℕ) (s : Shm Dir)
      → ((s.procs i).shared key).set ≡ false
      → pgsize * (s.regions key).page_count ≤ (s.procs i).shaddr
      → (s.procs i).shaddr < 2 ^ 32
      → (s.procs i).shaddr % pgsize ≡ 0
      → ((j : ℕ) → j < (s.regions key).page_count → IsPage ((s.regions key).pages j))
      → Ensures (SeesRegion i key s) (map_shared_region pg i key s)
  unfolding map_shared_region
  map_shared_region-SeesRegion i key s free room lt al pal =
      let p = s.procs i in
      let r = s.regions key in
      let zero_first : (j : ℕ) → j ≡ 0 + j = λ j. omega arith in
      let loop = map_loop pg r.page_count 0 r.pages p.pgdir p.shaddr in
      rw free (
        Ensures-bind (MapsAll r.page_count 0 r.pages p.pgdir p.shaddr) (SeesRegion i key s) loop
          (λ m. ok (map_done pg i key s m))
          (map_loop-MapsAll r.page_count 0 r.pages p.pgdir p.shaddr room lt al
            (λ j lj. subst (λ a. IsPage (r.pages a)) (zero_first j) (pal j lj)))
          (λ m h. map_done-SeesRegion i key s m h))
