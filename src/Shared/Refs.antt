-- ===== src/Shared/Refs.antt =====
-- The operations on shared regions keep the counts right, over any sequence of them.
use cs.Base.{
  ℕ, zero, suc, ◌+◌, ◌-◌, ◌%◌, ◌^◌, ◌≤◌, ◌<◌, ◌≡◌, inl, inr, refl, ap, sym, ◌∙◌, Bool, true, false,
  ◌&&◌, ◌||◌, not, Option, arith, ◌==◌, leb, ltb, update, update_cases, update_self, Bool-cases, ok,
  Ensures, Ensures-map, Ensures_ok,
}
use cs.Shared.{
  max_sh, Region, Reference, Sharer, Shm, Paging, set_region, set_proc, pushcli, popcli, map_loop,
  map_done, map_shared_region, fill_region, alloc_new, alloc_shared_vm, clear_loop, unref,
  dealloc_done, dealloc_proc_shared_vm, dealloc_from, dealloc_proc_all_shared_vm,
}
use cs.Shared.Counts.{
  bit, count, count-le, none-count, refers, IsCounted, CountsRefs, with_region-CountsRefs,
  region-CountsRefs, set_ref, own_ref, quiet-CountsRefs,
}

module _ (pg : Paging) where
  open pg use {Dir, clear, has_table}

  map_done-CountsRefs :
      (i key : ℕ) (s : Shm Dir) (m : Dir × ℕ × Bool)
      → i < max_sh
      → (s.regions key).valid ≡ true
      → refers s key i ≡ false
      → CountsRefs s
      → CountsRefs (map_done pg i key s m).0
  map_done-CountsRefs i key s (d, shaddr, false) lt v free h =
      quiet-CountsRefs s (map_done pg i key s (d, shaddr, false)).0 (λ k. refl)
        (λ k j.
          update_cases (λ (q : Sharer Dir). (q.shared k).set ≡ refers s k j) s.procs i
            (record (s.procs i) { pgdir = d; shaddr = shaddr }) j (λ e. ap (refers s k) e)
            (λ _. refl))
        h
  map_done-CountsRefs i key s (d, shaddr, true) lt v free h =
      let p = s.procs i in
      let r = s.regions key in
      let ref : Reference = record { set = true; va = shaddr } in
      let was : IsCounted r (count (refers s key) max_sh) = h key in
      let exact : r.ref_count ≡ count (refers s key) max_sh = rw v at was in
      with_region-CountsRefs s i key (record r { ref_count = r.ref_count + 1 })
        (record p { pgdir = d; shaddr = shaddr; shared = update p.shared key ref }) (s.ncli + 1 - 1)
        lt (set_ref s i key ref) h
        (λ n e.
          let one_bit : bit (update p.shared key ref key).set ≡ 1 = ap bit (own_ref s i key ref) in
          let zero_bit : bit (refers s key i) ≡ 0 = ap bit free in rw v (omega arith))

  map_shared_region-CountsRefs :
      (i key : ℕ) (s : Shm Dir)
      → i < max_sh
      → (s.regions key).valid ≡ true
      → CountsRefs s
      → Ensures (λ u. CountsRefs u.0) (map_shared_region pg i key s)
  unfolding map_shared_region
  map_shared_region-CountsRefs i key s lt v h = elim (Bool-cases (refers s key i)) [
    | inl e ↦ rw (e, v) h
    | inr e ↦
        let r = s.regions key in
        let p = s.procs i in
        rw e (
          Ensures-map (λ u. CountsRefs u.0) (map_loop pg r.page_count 0 r.pages p.pgdir p.shaddr)
            (map_done pg i key s) (λ m. map_done-CountsRefs i key s m lt v e h))
  ]

  fill_region-valid :
      (n k : ℕ) (mems : ℕ → ℕ) (r : Region) → (fill_region pg n k mems r).0.valid ≡ r.valid
  unfolding fill_region
  fill_region-valid zero k mems r = refl
  fill_region-valid (suc n) k mems r =
      let ih = fill_region-valid n (k + 1) mems (record r { pages = update r.pages k (mems k) }) in
      elim (Bool-cases (mems k == 0)) [ inl e ↦ rw e refl | inr e ↦ rw e ih ]

  alloc_new-CountsRefs :
      (i key n : ℕ) (s : Shm Dir) (f : Region × Bool)
      → i < max_sh
      → (s.regions key).valid ≡ false
      → f.0.valid ≡ false
      → CountsRefs s
      → Ensures (λ u. CountsRefs u.0) (alloc_new pg i key n s f)
  alloc_new-CountsRefs i key n s (r, false) lt v fv h =
      let was : IsCounted (s.regions key) (count (refers s key) max_sh) = h key in
      region-CountsRefs s key r (s.ncli + 1) h (rw fv (rw v at was))
  alloc_new-CountsRefs i key n s (r, true) lt v fv h =
      let was : IsCounted (s.regions key) (count (refers s key) max_sh) = h key in
      let new = record r { valid = true; ref_count = 0; page_count = n } in
      let s' : Shm Dir = popcli (set_region (pushcli s) key new) in
      map_shared_region-CountsRefs i key s' lt
        (ap (λ (q : Region). q.valid) (update_self s.regions key new))
        (region-CountsRefs s key new (s.ncli + 1 - 1) h (sym (rw v at was)))

  alloc_shared_vm-CountsRefs :
      (mems : ℕ → ℕ) (i key n : ℕ) (s : Shm Dir)
      → i < max_sh
      → CountsRefs s
      → Ensures (λ u. CountsRefs u.0) (alloc_shared_vm pg mems i key n s)
  unfolding alloc_shared_vm
  alloc_shared_vm-CountsRefs mems i key n s lt h =
      let r = s.regions key in
      elim (Bool-cases (leb max_sh key || (n == 0 || ltb max_sh n))) [
        | inl bad ↦ rw bad h
        | inr good ↦ elim (Bool-cases r.valid) [
          | inl v ↦ elim (Bool-cases (ltb r.page_count n)) [
            | inl small ↦ rw (good, v, small) h
            | inr fits ↦ rw (good, v, fits) (map_shared_region-CountsRefs i key s lt v h)
          ]
          | inr v ↦
              simp (good, v)
                (alloc_new-CountsRefs i key n s (fill_region pg n 0 mems r) lt v
                  (fill_region-valid n 0 mems r ∙ v) h)
        ]
      ]

  -- A reference that is given up.
  unref-IsCounted :
      (r : Region) (c n : ℕ) → c ≤ max_sh → IsCounted r c → n + 1 ≡ c → IsCounted (unref pg r).0 n
  unfolding unref
  unref-IsCounted r c n le h e = elim (Bool-cases r.valid) [
    | inl v ↦
        let exact : r.ref_count ≡ c = rw v at h in
        let less : (r.ref_count + 2 ^ 32 - 1) % 2 ^ 32 ≡ n = omega arith in
        elim (Bool-cases (n == 0)) [
          | inl z ↦ rw (v, less, z) (ground arith)
          | inr z ↦ rw (v, less, z) refl
        ]
    | inr v ↦ let empty : c ≡ 0 = rw v at h in absurd (omega arith)
  ]

  dealloc_done-CountsRefs :
      (i key : ℕ) (s : Shm Dir) (m : Dir × Bool)
      → i < max_sh
      → refers s key i ≡ true
      → CountsRefs s
      → CountsRefs (dealloc_done pg i key s m).0
  dealloc_done-CountsRefs i key s (d, false) lt e h =
      quiet-CountsRefs s (dealloc_done pg i key s (d, false)).0 (λ k. refl)
        (λ k j.
          update_cases (λ (q : Sharer Dir). (q.shared k).set ≡ refers s k j) s.procs i
            (record (s.procs i) { pgdir = d }) j (λ e. ap (refers s k) e) (λ _. refl))
        h
  dealloc_done-CountsRefs i key s (d, true) lt e h =
      let p = s.procs i in
      let ref : Reference = record { set = false; va = 0 } in
      with_region-CountsRefs s i key (unref pg (s.regions key)).0
        (record p { pgdir = d; shared = update p.shared key ref }) s.ncli lt (set_ref s i key ref) h
        (λ n eq.
          let zero_bit : bit (update p.shared key ref key).set ≡ 0 = ap bit (own_ref s i key ref) in
          let one_bit : bit (refers s key i) ≡ 1 = ap bit e in
          unref-IsCounted (s.regions key) (count (refers s key) max_sh) n
            (count-le (refers s key) max_sh) (h key) (omega arith))

  pub dealloc_proc_shared_vm-CountsRefs :
      (i key : ℕ) (s : Shm Dir)
      → i < max_sh
      → CountsRefs s
      → CountsRefs (dealloc_proc_shared_vm pg i key s).0
  unfolding dealloc_proc_shared_vm
  dealloc_proc_shared_vm-CountsRefs i key s lt h =
      let p = s.procs i in
      let ref = p.shared key in
      elim (Bool-cases (leb max_sh key)) [
        | inl out ↦ rw out h
        | inr key_in ↦ elim (Bool-cases (not ref.set || ref.va == 0)) [
          | inl no_ref ↦ rw (key_in, no_ref) h
          | inr some_ref ↦
              rw (key_in, some_ref)
                (dealloc_done-CountsRefs i key s
                  (clear_loop pg (s.regions key).page_count p.pgdir ref.va) lt (ground arith) h)
        ]
      ]

  dealloc_from-CountsRefs :
      (n key i : ℕ) (s : Shm Dir)
      → i < max_sh
      → CountsRefs s
      → CountsRefs (dealloc_from pg n key i s).0
  unfolding dealloc_from
  dealloc_from-CountsRefs zero key i s lt h = h
  dealloc_from-CountsRefs (suc n) key i s lt h =
      let ref = (s.procs i).shared key in
      let once = dealloc_proc_shared_vm-CountsRefs i key s lt h in
      elim (Bool-cases (ref.set && ((s.regions key).valid && not (ref.va == 0)))) [
        | inl e ↦
            simp e
              (dealloc_from-CountsRefs n (key + 1) i (dealloc_proc_shared_vm pg i key s).0 lt once)
        | inr e ↦ simp e (dealloc_from-CountsRefs n (key + 1) i s lt h)
      ]

  -- What happens to shared regions, in calls that do not overlap, since the code takes no lock
  -- around the test of `valid` and the change of `refCount`: processes share and give up, `wait` gives up all that a zombie
  -- left, and other code gives a process another directory or, when it begins, `shaddr`.
  pub data Step : Shm Dir → Shm Dir → Type 0 where
    shares :
        (mems : ℕ → ℕ) (i key n : ℕ) (o : Option ℕ) {s u : Shm Dir}
        → i < max_sh
        → alloc_shared_vm pg mems i key n s ≡ ok (u, o)
        → Step s u
    gives_up : (i key : ℕ) {s : Shm Dir} → i < max_sh → Step s (dealloc_proc_shared_vm pg i key s).0
    reaped : (i : ℕ) {s : Shm Dir} → i < max_sh → Step s (dealloc_proc_all_shared_vm pg i s).0
    other_memory :
        (i : ℕ) (d : Dir) (shaddr : ℕ) {s : Shm Dir}
        → Step s (set_proc s i (record (s.procs i) { pgdir = d; shaddr = shaddr }))

  -- From regions that are not valid and processes that refer to none.
  pub data Reach : Shm Dir → Type 0 where
    begins :
        {s : Shm Dir}
        → ((key : ℕ) → (s.regions key).valid ≡ false)
        → ((i key : ℕ) → refers s key i ≡ false)
        → Reach s
    then_step : {s u : Shm Dir} → Reach s → Step s u → Reach u

  Step-CountsRefs : {s u : Shm Dir} → Step s u → CountsRefs s → CountsRefs u
  unfolding dealloc_proc_all_shared_vm
  Step-CountsRefs (shares mems i key n o {s} {u} lt e) h =
      Ensures_ok (λ v. CountsRefs v.0) (alloc_shared_vm pg mems i key n s) (u, o)
        (alloc_shared_vm-CountsRefs mems i key n s lt h) e
  Step-CountsRefs (gives_up i key {s} lt) h = dealloc_proc_shared_vm-CountsRefs i key s lt h
  Step-CountsRefs (reaped i {s} lt) h = dealloc_from-CountsRefs max_sh 0 i s lt h
  Step-CountsRefs (other_memory i d shaddr {s}) h =
      let p = record (s.procs i) { pgdir = d; shaddr = shaddr } in
      quiet-CountsRefs s (set_proc s i p) (λ k. refl)
        (λ k j.
          update_cases (λ (q : Sharer Dir). (q.shared k).set ≡ refers s k j) s.procs i p j
            (λ e. ap (refers s k) e) (λ _. refl))
        h

  -- Whatever processes share and give up, one call after the other and each to its end, in any order
  -- and also where mapping or allocation fails, a valid region counts the processes that refer to it, and nobody refers to another region.
  pub Reach-CountsRefs : {s : Shm Dir} → Reach s → CountsRefs s
  Reach-CountsRefs (begins {s} v f) =
      λ key. rw (v key) (none-count (refers s key) max_sh (λ i. f i key))
  Reach-CountsRefs (then_step r st) = Step-CountsRefs st (Reach-CountsRefs r)
