-- ===== src/Vm/Round.antt =====
-- HW3/xv6-src/vm.c: one round of the loop of `deallocuvm`.
use cs.Base.{
  ℕ, ◌+◌, ◌-◌, ◌*◌, ◌%◌, ◌^◌, ◌<◌, ◌≤◌, ◌≡◌, ◌≢◌, ◌⊎◌, inl, inr, refl, sym, ap, ap₂, ◌∙◌, arith,
  ◌==◌, Bool-cases, false, ok, subst,
}
use cs.Kalloc.{Kmem, pgsize}
use cs.Kalloc.Calls.{freed}
use cs.Vm.{pdx, ptx, pte_addr, set_pte, walkpgdir, dealloc_step}
use cs.Vm.Tables.{
  pde_of, table_of, HasTable, pte_at, entry, pte_at_has, pdx_lt, ptx_lt, pages_apart,
}
use cs.Vm.Walk.{walkpgdir_lem}
use cs.Vm.Space.{frame, IsSpace}
use cs.Vm.Unmap.{IsFreed, Unmaps, unmap_lem}

-- A round at `a` unmaps its page and goes on at `b`, with nothing mapped between.
pub record Passes (end d a : ℕ) (k : Kmem) (r : Kmem × ℕ) : Type 0 where
  pub space : IsSpace end r.0 d
  pub aligned : r.1 % pgsize ≡ 0
  pub forward : a + pgsize ≤ r.1
  pub bounded : r.1 ≤ 2 ^ 31
  pub cleared : (va : ℕ) → a ≤ va → va < r.1 → entry r.0.mem d va % 2 ≡ 0
  pub others :
      (va : ℕ) → va < 2 ^ 32 → (va < a) ⊎ (a + pgsize ≤ va) → entry r.0.mem d va ≡ entry k.mem d va
  pub given_back :
      (va : ℕ)
      → a ≤ va
      → va < a + pgsize
      → entry k.mem d va % 2 ≡ 1
      → IsFreed r.0 (frame (entry k.mem d va))
  pub free_kept : (p : ℕ) → IsFreed k p → IsFreed r.0 p

pub entry_lacks : (mem : ℕ → ℕ) (d i m : ℕ) → ¬ HasTable mem d i → pte_at mem d i m ≡ 0
entry_lacks mem d i m h =
    let b : (pde_of mem d i % 2 == 1) ≡ false = elim (Bool-cases (pde_of mem d i % 2 == 1)) [
      | inl e ↦ absurd (h (ground arith))
      | inr e ↦ e
    ] in
    rw b refl

-- Addresses of one page have one entry.
same_page :
    (mem : ℕ → ℕ) (d a va : ℕ)
    → a % pgsize ≡ 0
    → a ≤ va
    → va < a + pgsize
    → entry mem d va ≡ entry mem d a
same_page mem d a va h le lt =
    let i : pdx va ≡ pdx a = omega arith in
    let m : ptx va ≡ ptx a = omega arith in ap₂ (pte_at mem d) i m

lacking-Passes :
    (end d a : ℕ) (k : Kmem)
    → IsSpace end k d
    → a % pgsize ≡ 0
    → a < 2 ^ 31
    → ¬ HasTable k.mem d (pdx a)
    → Passes end d a k (k, (pdx a + 1) * 4194304)
lacking-Passes end d a k sp ha lt lacks =
    let blank : (va : ℕ) → a ≤ va → va < (pdx a + 1) * 4194304 → entry k.mem d va ≡ 0 =
      λ va le below.
        let row : pdx a ≡ pdx va = omega arith in
        entry_lacks k.mem d (pdx va) (ptx va) (subst (λ i. ¬ HasTable k.mem d i) row lacks) in
    record {
      space = sp;
      aligned = omega arith;
      forward = omega arith;
      bounded = omega arith;
      cleared = λ va le below. ap (λ x. x % 2) (blank va le below);
      others = λ va _ _. refl;
      given_back =
          λ va le below h. let gone = blank va le (omega arith) in absurd (omega (arith, h, gone));
      free_kept = λ p h. h;
    }

absent-Passes :
    (end d a : ℕ) (k : Kmem)
    → IsSpace end k d
    → a % pgsize ≡ 0
    → a < 2 ^ 31
    → entry k.mem d a % 2 ≢ 1
    → Passes end d a k (k, a + pgsize)
absent-Passes end d a k sp ha lt absent = record {
  space = sp;
  aligned = omega arith;
  forward = omega arith;
  bounded = omega arith;
  cleared =
      λ va le below. let same = same_page k.mem d a va ha le below in omega (arith, same, absent);
  others = λ va _ _. refl;
  given_back = λ va le below h.
      let same = same_page k.mem d a va ha le below in absurd (absent (omega (arith, same, h)));
  free_kept = λ p h. h;
}

present-Passes :
    (end d a : ℕ) (k s : Kmem)
    → a % pgsize ≡ 0
    → a < 2 ^ 31
    → Unmaps end d (pdx a) (ptx a) k s
    → Passes end d a k (s, a + pgsize)
present-Passes end d a k s ha lt un = record {
  space = un.space;
  aligned = omega arith;
  forward = omega arith;
  bounded = omega arith;
  cleared = λ va le below. ap (λ x. x % 2) (same_page s.mem d a va ha le below ∙ un.cleared);
  others = λ va lv away.
      un.others (pdx va) (ptx va) (pdx_lt va) (ptx_lt va)
        (pages_apart a va (omega arith) lv (omega arith));
  given_back = λ va le below h.
      subst (λ x. IsFreed s (frame x)) (sym (same_page k.mem d a va ha le below)) un.given_back;
  free_kept = un.free_kept;
}

-- On a sound address space a round does not panic, and passes its page.
pub dealloc_step_lem :
    (end d a : ℕ) (k : Kmem)
    → IsSpace end k d
    → a % pgsize ≡ 0
    → a < 2 ^ 31
    → (r : Kmem × ℕ) × (dealloc_step end d a k ≡ ok r) × Passes end d a k r
unfolding dealloc_step
dealloc_step_lem end d a k sp ha lt =
    let r = walkpgdir d a false k in
    let walked = walkpgdir_lem d a false k sp.directory in
    elim (Bool-cases (r.1 == 0)) [
      | inl b ↦
          let lacks = (walked.missing (ground arith)).1 in
          let next : ((pdx a + 1) * 4194304 % 2 ^ 32 + 2 ^ 32 - pgsize + pgsize) % 2 ^ 32
              ≡ (pdx a + 1) * 4194304 =
            omega arith in
          ((k, (pdx a + 1) * 4194304), rw (b, next) refl, lacking-Passes end d a k sp ha lt lacks)
      | inr b ↦
          let (has', at') = walked.found (ground arith) in
          let same = walked.unasked refl in
          let has : HasTable k.mem d (pdx a) =
            subst (λ (l : Kmem). HasTable l.mem d (pdx a)) same has' in
          let at : r.1 ≡ table_of k.mem d (pdx a) + 4 * ptx a =
            subst (λ (l : Kmem). r.1 ≡ table_of l.mem d (pdx a) + 4 * ptx a) same at' in
          let word : k.mem r.1 ≡ entry k.mem d a =
            ap k.mem at ∙ sym (pte_at_has k.mem d (pdx a) (ptx a) has) in
          let next : (a + pgsize) % 2 ^ 32 ≡ a + pgsize = omega arith in
          elim (Bool-cases (entry k.mem d a % 2 == 1)) [
            | inl e ↦
                let present : entry k.mem d a % 2 ≡ 1 = ground arith in
                let low : pdx a < 512 = omega arith in
                let held = sp.frames (pdx a) (ptx a) low (ptx_lt a) present in
                let nz : (pte_addr (entry k.mem d a) == 0) ≡ false =
                  elim (Bool-cases (pte_addr (entry k.mem d a) == 0)) [
                    | inl z ↦ absurd (held.nonzero (ground arith))
                    | inr z ↦ z
                  ] in
                let (given, un) = unmap_lem end d (pdx a) (ptx a) k sp low (ptx_lt a) has present in
                let s = set_pte (freed (frame (entry k.mem d a)) k) r.1 0 in
                let done : Unmaps end d (pdx a) (ptx a) k s =
                  subst
                    (λ w.
                      Unmaps end d (pdx a) (ptx a) k
                        (set_pte (freed (frame (entry k.mem d a)) k) w 0))
                    (sym at) un in
                (
                  (s, a + pgsize),
                  rw (b, word, e, nz, given, next) refl,
                  present-Passes end d a k s ha lt done,
                )
            | inr e ↦ (
              (k, a + pgsize),
              rw (b, word, e, next) refl,
              absent-Passes end d a k sp ha lt (ground arith),
            )
          ]
    ]
