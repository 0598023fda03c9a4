-- ===== src/Vm/Dealloc.antt =====
-- HW3/xv6-src/vm.c: `deallocuvm` unmaps a range of pages and gives them back, and its loop ends.
use cs.Base.{
  some, ℕ, zero, suc, ◌+◌, ◌-◌, ◌*◌, ◌/◌, ◌%◌, ◌^◌, ◌<◌, ◌≤◌, ◌≡◌, ◌⊎◌, inl, inr, refl, ap, ◌∙◌,
  arith, leb, Bool-cases, false, ok, subst, dec_lt,
}
use cs.Kalloc.{Kmem, pgsize}
use cs.Vm.{pte_addr, round_up, dealloc_rounds, deallocuvm}
use cs.Vm.Tables.{entry}
use cs.Vm.Space.{frame, IsSpace}
use cs.Vm.Unmap.{IsFreed}
use cs.Vm.Round.{Passes, dealloc_step_lem}

-- The pages from `a` on that start below `b` are unmapped and given back; the rest is kept.
pub record Deallocs (end d a b : ℕ) (k l : Kmem) : Type 0 where
  pub space : IsSpace end l d
  pub cleared : (va : ℕ) → a ≤ va → pte_addr va < b → entry l.mem d va % 2 ≡ 0
  pub others :
      (va : ℕ) → va < 2 ^ 32 → (va < a) ⊎ (b ≤ pte_addr va) → entry l.mem d va ≡ entry k.mem d va
  pub given_back :
      (va : ℕ)
      → a ≤ va
      → pte_addr va < b
      → entry k.mem d va % 2 ≡ 1
      → IsFreed l (frame (entry k.mem d va))
  pub free_kept : (p : ℕ) → IsFreed k p → IsFreed l p

Passes-then :
    (end d a b : ℕ) (k s : Kmem) (r : Kmem × ℕ)
    → a % pgsize ≡ 0
    → a < b
    → b ≤ 2 ^ 31
    → Passes end d a k r
    → Deallocs end d r.1 b r.0 s
    → Deallocs end d a b k s
Passes-then end d a b k s r ha lt hb one rest =
    let al = one.aligned in
    let fw = one.forward in
    record {
      space = rest.space;
      cleared = λ va le below. elim (dec_lt va r.1) [
        | yes before ↦
            ap (λ x. x % 2) (rest.others va (omega arith) (inl before)) ∙ one.cleared va le before
        | no after ↦ rest.cleared va (omega arith) below
      ];
      others = λ va lv away. elim away [
        | inl before ↦ rest.others va lv (inl (omega arith)) ∙ one.others va lv (inl before)
        | inr above ↦ rest.others va lv (inr above) ∙ one.others va lv (inr (omega arith))
      ];
      given_back = λ va le below h. elim (dec_lt va (a + pgsize)) [
        | yes at ↦ rest.free_kept (frame (entry k.mem d va)) (one.given_back va le at h)
        | no later ↦
            let same = one.others va (omega arith) (inr (omega arith)) in
            let h' : entry r.0.mem d va % 2 ≡ 1 = ap (λ x. x % 2) same ∙ h in
            elim (dec_lt va r.1) [
              | yes before ↦ let gone = one.cleared va le before in absurd (omega (arith, gone, h'))
              | no after ↦
                  subst (λ x. IsFreed s (frame x)) same (rest.given_back va (omega arith) below h')
            ]
      ];
      free_kept = λ p h. rest.free_kept p (one.free_kept p h);
    }

dealloc_rounds_lem :
    (n end d a b : ℕ) (k : Kmem)
    → IsSpace end k d
    → a % pgsize ≡ 0
    → b ≤ 2 ^ 31
    → b - a + pgsize ≤ pgsize * n
    → (l : Kmem) × (dealloc_rounds n end d a b k ≡ some (ok l)) × Deallocs end d a b k l
unfolding dealloc_rounds
dealloc_rounds_lem zero end d a b k sp ha hb fuel = absurd (omega arith)
dealloc_rounds_lem (suc n) end d a b k sp ha hb fuel = elim (Bool-cases (leb b a)) [
  | inl e ↦
      let le : b ≤ a = ground arith in
      (
        k,
        rw e refl,
        record {
          space = sp;
          cleared = λ va from below. absurd (omega arith);
          others = λ va _ _. refl;
          given_back = λ va from below h. absurd (omega arith);
          free_kept = λ p h. h;
        },
      )
  | inr e ↦
      let lt : a < b = ground arith in
      let (r, stepped, one) = dealloc_step_lem end d a k sp ha (omega arith) in
      let fw = one.forward in
      let (l, done, rest) =
        dealloc_rounds_lem n end d r.1 b r.0 one.space one.aligned hb (omega arith) in
      (l, rw (e, stepped) done, Passes-then end d a b k l r ha lt hb one rest)
]

-- On a sound address space, and for sizes up to `KERNBASE` of which the new one is smaller:
-- `deallocuvm` does not panic, its rounds suffice, and it returns the new size; the address space
-- stays sound, the pages that start from the new size on and below the old one have no present
-- entry, those that were mapped there are on the free list, and so are those that were; the
-- entries of all other pages are kept.
pub deallocuvm_lem :
    (end d oldsz newsz : ℕ) (k : Kmem)
    → IsSpace end k d
    → newsz < oldsz
    → oldsz ≤ 2 ^ 31
    → (l : Kmem) × (deallocuvm end d oldsz newsz k ≡ ok (l, newsz))
      × Deallocs end d (round_up newsz) oldsz k l
unfolding deallocuvm
deallocuvm_lem end d oldsz newsz k sp lt le =
    let b : leb oldsz newsz ≡ false = ground arith in
    let (l, e, h) =
      dealloc_rounds_lem (oldsz / 4096 + 2) end d (round_up newsz) oldsz k sp (omega arith) le
        (omega arith) in
    (l, rw (b, e) refl, h)
