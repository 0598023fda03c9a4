-- ===== src/Shared/Freed.antt =====
-- When the pages of a region are freed.
use cs.Base.{
  ℕ, ◌+◌, ◌-◌, ◌%◌, ◌^◌, ◌<◌, ◌≡◌, ◌≢◌, inl, inr, refl, ap, ◌∙◌, Bool, true, false, ◌||◌, not, ◌==◌,
  leb, update_self, Bool-cases, [],
}
use cs.Shared.{max_sh, Region, Shm, Paging, clear_loop, unref, dealloc_done, dealloc_proc_shared_vm}
use cs.Shared.Counts.{count, count-zero, refers, IsCounted}
use cs.Shared.Refs.{Reach, Reach-CountsRefs, dealloc_proc_shared_vm-CountsRefs}

module _ (pg : Paging) where
  open pg use {Dir}

  unref-frees : (r : Region) → (unref pg r).1 ≢ [] → (unref pg r).0.valid ≡ false
  unfolding unref
  unref-frees r ne = elim (Bool-cases r.valid) [
    | inl v ↦ elim (Bool-cases ((r.ref_count + 2 ^ 32 - 1) % 2 ^ 32 == 0)) [
      | inl z ↦ rw (v, z) refl
      | inr z ↦ absurd (ne (rw (v, z) refl))
    ]
    | inr v ↦ rw v refl
  ]

  dealloc_done-frees :
      (i key : ℕ) (s : Shm Dir) (m : Dir × Bool)
      → (dealloc_done pg i key s m).1 ≢ []
      → ((dealloc_done pg i key s m).0.regions key).valid ≡ false
  dealloc_done-frees i key s (d, false) ne = absurd (ne refl)
  dealloc_done-frees i key s (d, true) ne =
      ap (λ (r : Region). r.valid) (update_self s.regions key (unref pg (s.regions key)).0)
      ∙ unref-frees (s.regions key) ne

  dealloc-frees :
      (i key : ℕ) (s : Shm Dir)
      → (dealloc_proc_shared_vm pg i key s).1 ≢ []
      → ((dealloc_proc_shared_vm pg i key s).0.regions key).valid ≡ false
  unfolding dealloc_proc_shared_vm
  dealloc-frees i key s ne =
      let p = s.procs i in
      let ref = p.shared key in
      elim (Bool-cases (leb max_sh key)) [
        | inl out ↦ absurd (ne (rw out refl))
        | inr key_in ↦ elim (Bool-cases (not ref.set || ref.va == 0)) [
          | inl no_ref ↦ absurd (ne (rw (key_in, no_ref) refl))
          | inr some_ref ↦
              let m = clear_loop pg (s.regions key).page_count p.pgdir ref.va in
              let ne' : (dealloc_done pg i key s m).1 ≢ [] = rw (key_in, some_ref) at ne in
              rw (key_in, some_ref) (dealloc_done-frees i key s m ne')
        ]
      ]

  -- In any state that sharing reaches by calls that do not overlap, giving up a region frees pages only if afterwards no process
  -- refers to it.
  pub dealloc-unreferenced :
      (i key j : ℕ) (s : Shm Dir)
      → Reach pg s
      → i < max_sh
      → j < max_sh
      → (dealloc_proc_shared_vm pg i key s).1 ≢ []
      → refers (dealloc_proc_shared_vm pg i key s).0 key j ≡ false
  dealloc-unreferenced i key j s r li lj ne =
      let u = (dealloc_proc_shared_vm pg i key s).0 in
      let sound = dealloc_proc_shared_vm-CountsRefs pg i key s li (Reach-CountsRefs pg r) in
      let invalid = dealloc-frees i key s ne in
      let counted : IsCounted (u.regions key) (count (refers u key) max_sh) = sound key in
      count-zero (refers u key) max_sh j (rw invalid at counted) lj
