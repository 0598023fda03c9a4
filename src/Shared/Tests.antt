-- ===== src/Shared/Tests.antt =====
-- Two processes that share a region of two pages, with page tables that are functions.
use cs.Base.{
  ℕ, zero, suc, ◌+◌, ◌*◌, ◌%◌, ◌≡◌, ◌≢◌, ◌<◌, inl, inr, refl, ap, sym, ◌∙◌, ◌≤◌, Bool-cases, true,
  false, Option, some, arith, ◌==◌, if◌then◌else◌, update, update_self, update_ne, Outcome, ok,
  panic, Ensures, [],
}
use cs.Shared.{
  IsPage, Shm, Paging, map_loop, map_shared_region, fill_region, alloc_shared_vm, clear_loop, unref,
  dealloc_proc_shared_vm, free_pages,
}
use cs.Shared.Counts.{CountsRefs, refers}
use cs.Shared.Refs.{Reach, begins, then_step, shares, Reach-CountsRefs}
use cs.Shared.Freed.{dealloc-unreferenced}
use cs.Shared.Layout.{SeesRegion, map_shared_region-SeesRegion}
use cs.Shared.Failure.{LeavesNcli, alloc_shared_vm-LeavesNcli}

abbrev map_one : (ℕ → ℕ) → ℕ → ℕ → Outcome (Option (ℕ → ℕ))
map_one d va pa = if d va == 0 then ok (some (update d va (pa + 7))) else panic

written :
    (d e : ℕ → ℕ) (va pa : ℕ)
    → (d va == 0) ≡ true
    → map_one d va pa ≡ ok (some e)
    → update d va (pa + 7) ≡ e
written d e va pa z h =
    let made : map_one d va pa ≡ ok (some (update d va (pa + 7))) = rw z refl in cc

map_one-entry : (d e : ℕ → ℕ) (va pa : ℕ) → map_one d va pa ≡ ok (some e) → e va ≡ pa + 7
map_one-entry d e va pa h = elim (Bool-cases (d va == 0)) [
  | inl z ↦
      let same : update d va (pa + 7) ≡ e = written d e va pa z h in
      ap (λ (f : ℕ → ℕ). f va) (sym same) ∙ update_self d va (pa + 7)
  | inr z ↦ absurd (ground arith)
]

map_one-entry_ne :
    (d e : ℕ → ℕ) (va pa va' : ℕ) → map_one d va pa ≡ ok (some e) → va ≢ va' → e va' ≡ d va'
map_one-entry_ne d e va pa va' h ne = elim (Bool-cases (d va == 0)) [
  | inl z ↦
      let same : update d va (pa + 7) ≡ e = written d e va pa z h in
      ap (λ (f : ℕ → ℕ). f va') (sym same) ∙ update_ne d va va' (pa + 7) ne
  | inr z ↦ absurd (ground arith)
]

abbrev flat : Paging
flat = record {
  Dir = ℕ → ℕ;
  entry = λ d va. d va;
  has_table = λ d va. true;
  map_page = map_one;
  clear = λ d va. update d va 0;
  entry-map_page = λ d e va pa _ _ h. map_one-entry d e va pa h;
  entry-map_page_ne = λ d e va pa va' _ _ _ h ne. map_one-entry_ne d e va pa va' h ne;
}

abbrev unshared : Shm (ℕ → ℕ)
unshared = record {
  regions = λ key. record { valid = false; ref_count = 0; page_count = 0; pages = λ k. 0 };
  procs = λ i. record {
    pgdir = λ va. 0;
    shaddr = 2147483648;
    shared = λ key. record { set = false; va = 0 };
  };
  ncli = 0;
}

-- The pages that `kalloc` hands out.
abbrev mems : ℕ → ℕ
mems k = 4096 * (k + 1)

abbrev state_of : Outcome (Shm (ℕ → ℕ) × Option ℕ) → Shm (ℕ → ℕ)
state_of (ok (u, o)) = u
state_of panic = unshared

one_shares : Shm (ℕ → ℕ)
unfolding alloc_shared_vm map_shared_region map_loop fill_region
one_shares = state_of (alloc_shared_vm flat mems 0 3 2 unshared)

two_share : Shm (ℕ → ℕ)
unfolding alloc_shared_vm map_shared_region map_loop fill_region one_shares
two_share = state_of (alloc_shared_vm flat mems 1 3 1 one_shares)

counted_two : (two_share.regions 3).ref_count ≡ 2
unfolding two_share alloc_shared_vm map_shared_region map_loop fill_region
counted_two = refl

one_shares-Reach : Reach flat one_shares
unfolding one_shares alloc_shared_vm map_shared_region map_loop fill_region
one_shares-Reach =
    then_step (begins {s = unshared} (λ key. refl) (λ i key. refl))
      (shares mems 0 3 2 (some 2147475456) (omega arith) refl)

Reach-CountsRefs_example : CountsRefs one_shares
Reach-CountsRefs_example = Reach-CountsRefs flat one_shares-Reach

pages_freed : (dealloc_proc_shared_vm flat 0 3 one_shares).1 ≢ []
unfolding one_shares dealloc_proc_shared_vm clear_loop unref free_pages alloc_shared_vm
    map_shared_region map_loop fill_region
pages_freed = λ e. cc

dealloc-unreferenced_example : refers (dealloc_proc_shared_vm flat 0 3 one_shares).0 3 1 ≡ false
dealloc-unreferenced_example =
    dealloc-unreferenced flat 0 3 1 one_shares one_shares-Reach (omega arith) (omega arith)
      pages_freed

second_free : ((one_shares.procs 1).shared 3).set ≡ false
unfolding one_shares alloc_shared_vm map_shared_region map_loop fill_region
second_free = refl

second_room : 4096 * (one_shares.regions 3).page_count ≤ (one_shares.procs 1).shaddr
unfolding one_shares alloc_shared_vm map_shared_region map_loop fill_region
second_room = omega arith

second_low : (one_shares.procs 1).shaddr < 4294967296
unfolding one_shares alloc_shared_vm map_shared_region map_loop fill_region
second_low = omega arith

second_aligned : (one_shares.procs 1).shaddr % 4096 ≡ 0
unfolding one_shares alloc_shared_vm map_shared_region map_loop fill_region
second_aligned = refl

region_aligned :
    (j : ℕ) → j < (one_shares.regions 3).page_count → IsPage ((one_shares.regions 3).pages j)
unfolding one_shares alloc_shared_vm map_shared_region map_loop fill_region
region_aligned zero lt = (refl, omega arith)
region_aligned (suc zero) lt = (refl, omega arith)
region_aligned (suc (suc j)) lt = absurd (omega arith)

map_shared_region-SeesRegion_example :
    Ensures (SeesRegion flat 1 3 one_shares) (map_shared_region flat 1 3 one_shares)
map_shared_region-SeesRegion_example =
    map_shared_region-SeesRegion flat 1 3 one_shares second_free second_room second_low
      second_aligned region_aligned

-- No memory at all.
alloc_shared_vm-LeavesNcli_example :
    Ensures (LeavesNcli flat 0) (alloc_shared_vm flat (λ k. 0) 0 3 2 unshared)
alloc_shared_vm-LeavesNcli_example =
    alloc_shared_vm-LeavesNcli flat (λ k. 0) 0 3 2 unshared (omega arith) (omega arith)
      (omega arith) (inl refl)
