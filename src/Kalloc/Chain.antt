-- ===== src/Kalloc/Chain.antt =====
-- The free list as a list of pages, and how `kfree` and `kalloc` change it.
use cs.Base.{
  ℕ, zero, suc, ◌+◌, ◌-◌, ◌*◌, ◌%◌, ◌^◌, ◌≤◌, ◌<◌, ◌≡◌, ◌≢◌, ◌⊎◌, inl, inr, refl, ◌∙◌, ◌||◌, List,
  [], ◌∷◌, ◌==◌, ltb, leb, Bool-cases, arith, update, update_ne, update_self, ok, subst, All,
}
use cs.Kalloc.{Kmem, pgsize, phystop, kernbase, junk, kfree}

abbrev pub IsIn : ℕ → List ℕ → Type 0
IsIn p [] = ⊥
IsIn p (q ∷ qs) = (p ≡ q) ⊎ IsIn p qs

-- The pages of the list that starts at `p`: aligned, none twice, linked by their first words.
abbrev pub IsChain : (ℕ → ℕ) → ℕ → List ℕ → Type 0
IsChain mem p [] = p ≡ 0
IsChain mem p (q ∷ qs) =
    (p ≡ q) × (q ≢ 0) × (q % pgsize ≡ 0) × All (λ r. q ≢ r) qs × IsChain mem (mem q) qs

pub junk_lem : (k a p : ℕ) (mem : ℕ → ℕ) → (p < a) ⊎ (a + 4 * k ≤ p) → junk k a mem p ≡ mem p
unfolding junk
junk_lem zero a p mem h = refl
junk_lem (suc k) a p mem h =
    junk_lem k (a + 4) p (update mem a 16843009) (omega arith)
    ∙ update_ne mem a p 16843009 (omega arith)

pages_apart : (v q : ℕ) → v % pgsize ≡ 0 → q % pgsize ≡ 0 → v ≢ q → (q < v) ⊎ (v + 4 * 1024 ≤ q)
pages_apart v q hv hq ne = omega arith

freed-IsChain :
    (mem : ℕ → ℕ) (v w p : ℕ) (qs : List ℕ)
    → v % pgsize ≡ 0
    → All (λ r. v ≢ r) qs
    → IsChain mem p qs
    → IsChain (update (junk 1024 v mem) v w) p qs
freed-IsChain mem v w p [] hv ne h = h
freed-IsChain mem v w p (q ∷ qs) hv (nq, ne) (hp, nz, hq, apart, rest) =
    let kept : update (junk 1024 v mem) v w q ≡ mem q =
      update_ne (junk 1024 v mem) v q w nq ∙ junk_lem 1024 v q mem (pages_apart v q hv hq nq) in
    (hp, nz, hq, apart, rw kept (freed-IsChain mem v w (mem q) qs hv ne rest))

-- Where `kfree` does not panic, its page is aligned and heads the list.
pub kfree_lem :
    (end v : ℕ) (k l : Kmem) (qs : List ℕ)
    → IsChain k.mem k.freelist qs
    → All (λ r. v ≢ r) qs
    → kfree end v k ≡ ok l
    → IsChain l.mem l.freelist (v ∷ qs)
unfolding kfree
kfree_lem end v k l qs h ne e = elim (Bool-cases (v % pgsize == 0)) [
  | inl a ↦ elim (Bool-cases (ltb v end || leb phystop ((v + 2 ^ 32 - kernbase) % 2 ^ 32))) [
    | inl b ↦ absurd (ground arith)
    | inr b ↦
        let hv : v % pgsize ≡ 0 = ground arith in
        let same : record { freelist = v; mem = update (junk 1024 v k.mem) v k.freelist } ≡ l =
          ground arith in
        let nz : v ≢ 0 = λ z. ground arith in
        subst (λ (m : Kmem). IsChain m.mem m.freelist (v ∷ qs)) same
          (
            refl,
            nz,
            hv,
            ne,
            rw (update_self (junk 1024 v k.mem) v k.freelist)
                (freed-IsChain k.mem v k.freelist k.freelist qs hv ne h),
          )
  ]
  | inr a ↦ absurd (ground arith)
]
