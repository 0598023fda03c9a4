-- ===== src/Shared/Failure.antt =====
-- What a failed request leaves behind: a `pushcli` without its `popcli`.
use cs.Base.{
  ℕ, zero, suc, ◌+◌, ◌≤◌, ◌<◌, ◌≡◌, ◌≢◌, ◌⊎◌, inl, inr, refl, ap, Bool, true, false, ◌&&◌, ◌||◌,
  Option, none, some, arith, ◌==◌, leb, ltb, update, Bool-cases, Ensures, Ensures-map, subst,
}
use cs.Shared.{
  max_sh, Region, Shm, Paging, set_region, pushcli, popcli, map_loop, map_done, map_shared_region,
  fill_region, alloc_new, alloc_shared_vm,
}

module _ (pg : Paging) where
  open pg use {Dir}

  -- After a success `ncli` is what it was at `n`, after a failure one more.
  abbrev pub LeavesNcli : ℕ → Shm Dir × Option ℕ → Type 0
  LeavesNcli n (u, some va) = u.ncli ≡ n
  LeavesNcli n (u, none) = u.ncli ≡ n + 1

  map_done-LeavesNcli :
      (i key : ℕ) (s : Shm Dir) (m : Dir × ℕ × Bool) → LeavesNcli s.ncli (map_done pg i key s m)
  map_done-LeavesNcli i key s (d, low, false) = refl
  map_done-LeavesNcli i key s (d, low, true) = omega arith

  map_shared_region-LeavesNcli :
      (i key : ℕ) (s : Shm Dir) → Ensures (LeavesNcli s.ncli) (map_shared_region pg i key s)
  unfolding map_shared_region
  map_shared_region-LeavesNcli i key s =
      let p = s.procs i in
      let r = s.regions key in
      elim (Bool-cases ((p.shared key).set && r.valid)) [
        | inl e ↦ rw e refl
        | inr e ↦ rw e (
            Ensures-map (LeavesNcli s.ncli) (map_loop pg r.page_count 0 r.pages p.pgdir p.shaddr)
              (map_done pg i key s) (λ m. map_done-LeavesNcli i key s m))
      ]

  alloc_new-LeavesNcli :
      (i key n : ℕ) (s : Shm Dir) (f : Region × Bool)
      → Ensures (LeavesNcli s.ncli) (alloc_new pg i key n s f)
  alloc_new-LeavesNcli i key n s (r, false) = refl
  alloc_new-LeavesNcli i key n s (r, true) =
      let new = record r { valid = true; ref_count = 0; page_count = n } in
      let s' : Shm Dir = popcli (set_region (pushcli s) key new) in
      let same : s'.ncli ≡ s.ncli = omega arith in
      subst (λ k. Ensures (LeavesNcli k) (map_shared_region pg i key s')) same
        (map_shared_region-LeavesNcli i key s')

  -- A request with a key and a count in range, for a region that is new or large enough, leaves the
  -- depth of `pushcli` as it was if it succeeds, and one deeper if memory runs out.
  pub alloc_shared_vm-LeavesNcli :
      (mems : ℕ → ℕ) (i key n : ℕ) (s : Shm Dir)
      → key < max_sh
      → n ≢ 0
      → n ≤ max_sh
      → ((s.regions key).valid ≡ false) ⊎ (n ≤ (s.regions key).page_count)
      → Ensures (LeavesNcli s.ncli) (alloc_shared_vm pg mems i key n s)
  unfolding alloc_shared_vm
  alloc_shared_vm-LeavesNcli mems i key n s hk hn hm fits =
      let r = s.regions key in
      let good : leb max_sh key || (n == 0 || ltb max_sh n) ≡ false = ground arith in
      elim (Bool-cases r.valid) [
        | inl v ↦
            let large : ltb r.page_count n ≡ false = ground arith in
            rw (good, v, large) (map_shared_region-LeavesNcli i key s)
        | inr v ↦ simp (good, v) (alloc_new-LeavesNcli i key n s (fill_region pg n 0 mems r))
      ]

  -- Where the pages run out, the request does fail.
  fill_region-short :
      (n k j : ℕ) (mems : ℕ → ℕ) (r : Region)
      → k ≤ j
      → j < k + n
      → mems j ≡ 0
      → (fill_region pg n k mems r).1 ≡ false
  unfolding fill_region
  fill_region-short zero k j mems r lo hi z = absurd (omega arith)
  fill_region-short (suc n) k j mems r lo hi z = elim (Bool-cases (mems k == 0)) [
    | inl e ↦ rw e refl
    | inr e ↦
        let later : k ≢ j = λ eq. ground (arith, ap mems eq) in
        rw e (
          fill_region-short n (k + 1) j mems (record r { pages = update r.pages k (mems k) })
            (omega arith) (omega arith) z)
  ]
