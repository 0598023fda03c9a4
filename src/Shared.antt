-- ===== src/Shared.antt =====
-- HW3/xv6-src/vm.c: regions of memory that processes share by key.
pub mod Counts
pub mod Refs
pub mod Freed
pub mod Layout
pub mod Failure
mod Tests
use cs.Base.{
  ℕ, zero, suc, ◌+◌, ◌-◌, ◌*◌, ◌%◌, ◌^◌, ◌≡◌, ◌≢◌, ◌<◌, Bool, true, false, ◌&&◌, ◌||◌, not, List,
  ◌++◌, [], ◌∷◌, Option, none, some, ◌==◌, ltb, leb, if◌then◌else◌, update, Outcome, ok, panic,
  ◌>>=◌,
}

-- `MAX_SH_KEY` and `MAX_SH_PAGES`
abbrev pub max_sh : ℕ
max_sh = 64

abbrev pub pgsize : ℕ
pgsize = 4096

-- `sharedRegion_t`; `pages` holds physical addresses.
pub record Region : Type 0 where
  pub valid : Bool
  pub ref_count : ℕ
  pub page_count : ℕ
  pub pages : ℕ → ℕ

-- `sharedReference_t`: a region pointer that is not null points to the region of the same key.
pub record Reference : Type 0 where
  pub set : Bool
  pub va : ℕ

-- What a process has to do with sharing.
pub record Sharer (D : Type 0) : Type 0 where
  pub pgdir : D
  pub shaddr : ℕ
  pub shared : ℕ → Reference

-- The regions, the processes, and how many more times `pushcli` than `popcli` was called.
pub record Shm (D : Type 0) : Type 0 where
  pub regions : ℕ → Region
  pub procs : ℕ → Sharer D
  pub ncli : ℕ

-- The address of a page
abbrev pub IsPage : ℕ → Type 0
IsPage a = (a % pgsize ≡ 0) × (a < 2 ^ 32)

-- Page tables: the entry for the page at an address (0 where there is none), whether there is a page
-- table for it, and what `mappages` of one page and a write of 0 to an entry make of them.
-- `mappages` gets the address and the physical address; `none` is -1.
pub record Paging : Type 1 where
  pub Dir : Type 0
  pub entry : Dir → ℕ → ℕ
  pub has_table : Dir → ℕ → Bool
  pub map_page : Dir → ℕ → ℕ → Outcome (Option Dir)
  pub clear : Dir → ℕ → Dir
  pub entry-map_page :
      (d e : Dir) (va pa : ℕ)
      → IsPage va
      → IsPage pa
      → map_page d va pa ≡ ok (some e)
      → entry e va ≡ pa + 7
  pub entry-map_page_ne :
      (d e : Dir) (va pa va' : ℕ)
      → IsPage va
      → IsPage pa
      → IsPage va'
      → map_page d va pa ≡ ok (some e)
      → va ≢ va'
      → entry e va' ≡ entry d va'

module _ {D : Type 0} where
  abbrev pub set_region : Shm D → ℕ → Region → Shm D
  set_region s key r = record s { regions = update s.regions key r }

  abbrev pub set_proc : Shm D → ℕ → Sharer D → Shm D
  set_proc s i p = record s { procs = update s.procs i p }

  abbrev pub pushcli : Shm D → Shm D
  pushcli s = record s { ncli = s.ncli + 1 }

  abbrev pub popcli : Shm D → Shm D
  popcli s = record s { ncli = s.ncli - 1 }

module _ (pg : Paging) where
  open pg use {Dir, entry, has_table, map_page, clear}

  abbrev pub map_next :
      (Dir → Outcome (Dir × ℕ × Bool)) → Dir → ℕ → Option Dir → Outcome (Dir × ℕ × Bool)
  map_next loop d va none = ok (d, va, false)
  map_next loop d va (some e) = loop e

  -- The loop of `mapSharedRegion` for `n` more pages from `pages[k]` on: the directory, `p->shaddr`,
  -- and whether all pages were mapped.
  pub map_loop : ℕ → ℕ → (ℕ → ℕ) → Dir → ℕ → Outcome (Dir × ℕ × Bool)
  map_loop zero k pages d shaddr = ok (d, shaddr, true)
  map_loop (suc n) k pages d shaddr =
      let va = (shaddr + 2 ^ 32 - pgsize) % 2 ^ 32 in
      map_page d va (pages k) >>= map_next (λ e. map_loop n (k + 1) pages e va) d va

  -- After the loop; `none` is the address -1.
  abbrev pub map_done : ℕ → ℕ → Shm Dir → Dir × ℕ × Bool → Shm Dir × Option ℕ
  map_done i key s (d, shaddr, false) =
      (set_proc (pushcli s) i (record (s.procs i) { pgdir = d; shaddr = shaddr }), none)
  map_done i key s (d, shaddr, true) =
      let p = s.procs i in
      let r = s.regions key in
      let ref : Reference = record { set = true; va = shaddr } in
      let counted =
        popcli (set_region (pushcli s) key (record r { ref_count = r.ref_count + 1 })) in
      (
        set_proc counted i
            (record p { pgdir = d; shaddr = shaddr; shared = update p.shared key ref }),
        some shaddr,
      )

  -- By the process at `i`.
  pub map_shared_region : ℕ → ℕ → Shm Dir → Outcome (Shm Dir × Option ℕ)
  map_shared_region i key s =
      let p = s.procs i in
      let r = s.regions key in
      if (p.shared key).set && r.valid
      then ok (s, some (p.shared key).va)
      else (map_loop r.page_count 0 r.pages p.pgdir p.shaddr >>= λ m. ok (map_done i key s m))

  -- The loop that fills a new region, for `n` more pages from `pages[k]` on, with the results of
  -- `kalloc` as physical addresses, 0 for none: the region, and whether all pages were there.
  pub fill_region : ℕ → ℕ → (ℕ → ℕ) → Region → Region × Bool
  fill_region zero k mems r = (r, true)
  fill_region (suc n) k mems r =
      let rest = fill_region n (k + 1) mems (record r { pages = update r.pages k (mems k) }) in
      if mems k == 0 then (r, false) else rest

  abbrev pub alloc_new : ℕ → ℕ → ℕ → Shm Dir → Region × Bool → Outcome (Shm Dir × Option ℕ)
  alloc_new i key count s (r, false) = ok (set_region (pushcli s) key r, none)
  alloc_new i key count s (r, true) = map_shared_region i key (
      popcli
        (set_region (pushcli s) key (record r { valid = true; ref_count = 0; page_count = count })))

  -- `count` is an `int`, negative from 2 ^ 31 on; so is `key`.
  pub alloc_shared_vm : (ℕ → ℕ) → ℕ → ℕ → ℕ → Shm Dir → Outcome (Shm Dir × Option ℕ)
  alloc_shared_vm mems i key count s =
      let r = s.regions key in
      if leb max_sh key || (count == 0 || ltb max_sh count)
      then ok (s, none)
      else if r.valid
      then (if ltb r.page_count count then ok (s, none) else map_shared_region i key s)
      else alloc_new i key count s (fill_region count 0 mems r)

  -- The loop that clears the entries of `n` more pages from `va` on: the directory, and whether each
  -- had a page table.
  pub clear_loop : ℕ → Dir → ℕ → Dir × Bool
  clear_loop zero d va = (d, true)
  clear_loop (suc n) d va =
      let rest = clear_loop n (clear d va) ((va + pgsize) % 2 ^ 32) in
      if has_table d va then rest else (d, false)

  -- The pages given to `kfree`.
  pub free_pages : ℕ → ℕ → (ℕ → ℕ) → List ℕ
  free_pages zero k pages = []
  free_pages (suc n) k pages = pages k ∷ free_pages n (k + 1) pages

  pub forget_pages : ℕ → ℕ → (ℕ → ℕ) → ℕ → ℕ
  forget_pages zero k pages = pages
  forget_pages (suc n) k pages = forget_pages n (k + 1) (update pages k 0)

  -- The region when a reference to it is given up, and the pages freed, between a `pushcli` and a
  -- `popcli` that balance.
  pub unref : Region → Region × List ℕ
  unref r =
      let rc = (r.ref_count + 2 ^ 32 - 1) % 2 ^ 32 in
      if r.valid
      then (if rc == 0
          then (
            record {
              valid = false;
              ref_count = 0;
              page_count = 0;
              pages = forget_pages r.page_count 0 r.pages;
            },
            free_pages r.page_count 0 r.pages,
          )
          else (record r { ref_count = rc }, []))
      else (r, [])

  abbrev pub dealloc_done : ℕ → ℕ → Shm Dir → Dir × Bool → Shm Dir × List ℕ × Option ℕ
  dealloc_done i key s (d, false) = (set_proc s i (record (s.procs i) { pgdir = d }), [], none)
  dealloc_done i key s (d, true) =
      let p = s.procs i in
      let ref : Reference = record { set = false; va = 0 } in
      let u = unref (s.regions key) in
      (
        set_proc (set_region s key u.0) i
            (record p { pgdir = d; shared = update p.shared key ref }),
        u.1,
        some u.0.ref_count,
      )

  -- `deallocProcSharedVM` for the process at `i`: the state, the pages freed, and the count (`none`
  -- is -1).
  pub dealloc_proc_shared_vm : ℕ → ℕ → Shm Dir → Shm Dir × List ℕ × Option ℕ
  dealloc_proc_shared_vm i key s =
      let p = s.procs i in
      let ref = p.shared key in
      if leb max_sh key
      then (s, [], none)
      else if not ref.set || ref.va == 0
      then (s, [], none)
      else dealloc_done i key s (clear_loop (s.regions key).page_count p.pgdir ref.va)

  -- The loop of `deallocProcAllSharedVM` over `n` more keys from `key` on.
  pub dealloc_from : ℕ → ℕ → ℕ → Shm Dir → Shm Dir × List ℕ
  dealloc_from zero key i s = (s, [])
  dealloc_from (suc n) key i s =
      let ref = (s.procs i).shared key in
      let out = dealloc_proc_shared_vm i key s in
      let here = ref.set && ((s.regions key).valid && not (ref.va == 0)) in
      let rest = dealloc_from n (key + 1) i (if here then out.0 else s) in
      (rest.0, (if here then out.1 else []) ++ rest.1)

  pub dealloc_proc_all_shared_vm : ℕ → Shm Dir → Shm Dir × List ℕ
  dealloc_proc_all_shared_vm i s = dealloc_from max_sh 0 i s
