-- ===== src/Vm/Ends.antt =====
-- HW3/xv6-src/vm.c: the loop of `deallocuvm` ends on every memory, sound or not.
use cs.Base.{
  ℕ, zero, suc, ◌+◌, ◌-◌, ◌*◌, ◌/◌, ◌%◌, ◌^◌, ◌<◌, ◌≤◌, ◌≡◌, inl, inr, refl, arith, ◌==◌, leb,
  Bool-cases, false, some, Outcome, ok, panic, Ensures, Ensures-map,
}
use cs.Kalloc.{Kmem, pgsize, kfree}
use cs.Vm.{pte_addr, p2v, set_pte, walkpgdir, round_up, next_round, dealloc_step, dealloc_rounds}

-- The next round is at a later page.
abbrev Advances : ℕ → Kmem × ℕ → Type 0
Advances a r = (a + pgsize ≤ r.1) × (r.1 % pgsize ≡ 0)

dealloc_step-Advances :
    (end d a : ℕ) (k : Kmem)
    → a % pgsize ≡ 0
    → a < 2 ^ 32 - 2 ^ 22
    → Ensures (Advances a) (dealloc_step end d a k)
unfolding dealloc_step
dealloc_step-Advances end d a k ha lt =
    let w = (walkpgdir d a false k).1 in
    elim (Bool-cases (w == 0)) [
      | inl b ↦ rw b (omega arith, omega arith)
      | inr b ↦ elim (Bool-cases (k.mem w % 2 == 1)) [
        | inl e ↦ elim (Bool-cases (pte_addr (k.mem w) == 0)) [
          | inl z ↦ rw (b, e, z) tt
          | inr z ↦
              rw (b, e, z)
                (Ensures-map (Advances a) (kfree end (p2v (pte_addr (k.mem w))) k)
                  (λ l. (set_pte l w 0, (a + pgsize) % 2 ^ 32)) (λ l. (omega arith, omega arith)))
        ]
        | inr e ↦ rw (b, e) (omega arith, omega arith)
      ]
    ]

rest_ends :
    (n end d a b : ℕ) (o : Outcome (Kmem × ℕ))
    → Ensures (Advances a) o
    → ((r : Kmem × ℕ)
        → Advances a r
        → (e : Outcome Kmem) × (dealloc_rounds n end d r.1 b r.0 ≡ some e))
    → (e : Outcome Kmem) × (next_round o (λ (l, c). dealloc_rounds n end d c b l) ≡ some e)
rest_ends n end d a b (ok r) h go = go r h
rest_ends n end d a b panic h go = (panic, refl)

dealloc_rounds-ends :
    (n end d a b : ℕ) (k : Kmem)
    → a % pgsize ≡ 0
    → b ≤ 2 ^ 32 - 2 ^ 22
    → b - a + pgsize ≤ pgsize * n
    → (e : Outcome Kmem) × (dealloc_rounds n end d a b k ≡ some e)
unfolding dealloc_rounds
dealloc_rounds-ends zero end d a b k ha hb fuel = absurd (omega arith)
dealloc_rounds-ends (suc n) end d a b k ha hb fuel = elim (Bool-cases (leb b a)) [
  | inl e ↦ (ok k, rw e refl)
  | inr e ↦
      let lt : a < b = ground arith in
      let rest =
        rest_ends n end d a b (dealloc_step end d a k)
          (dealloc_step-Advances end d a k ha (omega arith))
          (λ r h. dealloc_rounds-ends n end d r.1 b r.0 h.1 hb (less_left a b r.1 n lt h.0 fuel)) in
      (rest.0, rw e rest.1)
]
  where
    less_left :
        (a b c n : ℕ)
        → a < b
        → a + pgsize ≤ c
        → b - a + pgsize ≤ pgsize * suc n
        → b - c + pgsize ≤ pgsize * n
    less_left a b c n lt h fuel = omega arith

-- On any memory and for an old size up to 2 ^ 32 - 2 ^ 22, the loop of `deallocuvm` ends, with a
-- memory or a panic, within the rounds that it is given: it does not run out of them.
pub deallocuvm-ends :
    (end d oldsz newsz : ℕ) (k : Kmem)
    → oldsz ≤ 2 ^ 32 - 2 ^ 22
    → (e : Outcome Kmem) × (dealloc_rounds (oldsz / 4096 + 2) end d (round_up newsz) oldsz k
        ≡ some e)
deallocuvm-ends end d oldsz newsz k le =
    dealloc_rounds-ends (oldsz / 4096 + 2) end d (round_up newsz) oldsz k (omega arith) le
      (omega arith)
