-- ===== src/Memory/Compare.antt =====
-- `memcmp` and `strncmp`: the result comes from the first difference.
use cs.Base.{
  ℕ, zero, suc, ◌+◌, ◌≤◌, ◌<◌, ◌≡◌, ◌≢◌, ◌⊎◌, inl, inr, refl, ap, sym, ◌∙◌, ◌==◌, arith, Bool-cases,
  ℤ, pos, sub_ℕ,
}
use cs.Memory.{memcmp, strncmp}

module _ (mem : ℕ → ℕ) (p q : ℕ) where
  -- The first `n` bytes agree.
  abbrev pub Agree : ℕ → Type 0
  Agree n = (i : ℕ) → i < n → mem (p + i) ≡ mem (q + i)

  -- No nul among the first `n` bytes.
  abbrev pub NoNul : ℕ → Type 0
  NoNul n = (i : ℕ) → i < n → mem (p + i) ≢ 0

  -- `r` compares the blocks of `n` bytes: 0 if they agree, or the difference of the first two bytes
  -- that differ.
  abbrev pub Compares : ℕ → ℤ → Type 0
  Compares n r =
      (Agree n × (r ≡ pos 0))
      ⊎ ((i : ℕ) × (i < n)
          × Agree i
          × (mem (p + i) ≢ mem (q + i))
          × (r ≡ sub_ℕ (mem (p + i)) (mem (q + i))))

  -- The same of texts, which may end before `n` bytes.
  abbrev pub ComparesText : ℕ → ℤ → Type 0
  ComparesText n r =
      ((i : ℕ) × (i ≤ n)
        × Agree i
        × NoNul i
        × ((i ≡ n) ⊎ ((mem (p + i) ≡ 0) × (mem (q + i) ≡ 0)))
        × (r ≡ pos 0))
      ⊎ ((i : ℕ) × (i < n)
          × Agree i
          × NoNul i
          × (mem (p + i) ≢ mem (q + i))
          × (r ≡ sub_ℕ (mem (p + i)) (mem (q + i))))

shift : (mem : ℕ → ℕ) (p i : ℕ) → mem (p + suc i) ≡ mem (p + 1 + i)
shift mem p i = ap mem (omega arith)

start : (mem : ℕ → ℕ) (p : ℕ) → mem (p + 0) ≡ mem p
start mem p = ap mem (omega arith)

module _ (mem : ℕ → ℕ) (p q : ℕ) where
  Agree-suc : (n : ℕ) → mem p ≡ mem q → Agree mem (p + 1) (q + 1) n → Agree mem p q (suc n)
  Agree-suc n e h zero lt = start mem p ∙ e ∙ sym (start mem q)
  Agree-suc n e h (suc i) lt = shift mem p i ∙ h i (omega arith) ∙ sym (shift mem q i)

  NoNul-suc : (n : ℕ) → mem p ≢ 0 → NoNul mem (p + 1) (q + 1) n → NoNul mem p q (suc n)
  NoNul-suc n e h zero lt z = e (sym (start mem p) ∙ z)
  NoNul-suc n e h (suc i) lt z = h i (omega arith) (sym (shift mem p i) ∙ z)

  Compares-suc :
      (n : ℕ) (r : ℤ)
      → mem p ≡ mem q
      → Compares mem (p + 1) (q + 1) n r
      → Compares mem p q (suc n) r
  Compares-suc n r e (inl (same, z)) = inl (Agree-suc n e same, z)
  Compares-suc n r e (inr (i, lt, same, ne, d)) = inr (
    suc i,
    omega arith,
    Agree-suc i e same,
    rw (shift mem p i, shift mem q i) ne,
    rw (shift mem p i, shift mem q i) d,
  )

  ComparesText-suc :
      (n : ℕ) (r : ℤ)
      → mem p ≡ mem q
      → mem p ≢ 0
      → ComparesText mem (p + 1) (q + 1) n r
      → ComparesText mem p q (suc n) r
  ComparesText-suc n r e nz (inl (i, le, same, whole, end, z)) = inl (
    suc i,
    omega arith,
    Agree-suc i e same,
    NoNul-suc i nz whole,
    rw (shift mem p i, shift mem q i) elim end [ inl at ↦ inl (ap suc at) | inr nul ↦ inr nul ],
    z,
  )
  ComparesText-suc n r e nz (inr (i, lt, same, whole, ne, d)) = inr (
    suc i,
    omega arith,
    Agree-suc i e same,
    NoNul-suc i nz whole,
    rw (shift mem p i, shift mem q i) ne,
    rw (shift mem p i, shift mem q i) d,
  )

  none_before : Agree mem p q 0
  none_before i lt = absurd (omega arith)

  NoNul-before : NoNul mem p q 0
  NoNul-before i lt = absurd (omega arith)

-- `memcmp` returns 0 if the blocks agree, and else the difference of the first bytes that differ.
pub memcmp_lem : (mem : ℕ → ℕ) (s1 s2 n : ℕ) → Compares mem s1 s2 n (memcmp mem s1 s2 n)
unfolding memcmp
memcmp_lem mem s1 s2 zero = inl (none_before mem s1 s2, refl)
memcmp_lem mem s1 s2 (suc n) = elim (Bool-cases (mem s1 == mem s2)) [
  | inl e ↦
      let rest = memcmp_lem mem (s1 + 1) (s2 + 1) n in
      rw e (Compares-suc mem s1 s2 n (memcmp mem (s1 + 1) (s2 + 1) n) (ground arith) rest)
  | inr e ↦
      let differ : mem s1 ≢ mem s2 = ground arith in
      rw e (
        inr (
          0,
          omega arith,
          none_before mem s1 s2,
          rw (start mem s1, start mem s2) differ,
          rw (start mem s1, start mem s2) refl,
        ))
]

-- `strncmp` compares texts of at most `n` bytes: it returns 0 if they agree up to a common nul or up
-- to `n` bytes, and else the difference of the first bytes that differ, before which there is no nul.
pub strncmp_lem : (mem : ℕ → ℕ) (p q n : ℕ) → ComparesText mem p q n (strncmp mem p q n)
unfolding strncmp
strncmp_lem mem p q zero =
    inl (0, omega arith, none_before mem p q, NoNul-before mem p q, inl refl, refl)
strncmp_lem mem p q (suc n) = elim (Bool-cases (mem p == 0)) [
  | inl z ↦ elim (Bool-cases (mem q == 0)) [
    | inl y ↦ rw z (
        inl (
          0,
          omega arith,
          none_before mem p q,
          NoNul-before mem p q,
          rw (start mem p, start mem q) (inr (ground arith, ground arith)),
          ground arith,
        ))
    | inr y ↦
        let differ : mem p ≢ mem q = λ e. ground arith in
        rw z (
          inr (
            0,
            omega arith,
            none_before mem p q,
            NoNul-before mem p q,
            rw (start mem p, start mem q) differ,
            rw (start mem p, start mem q) refl,
          ))
  ]
  | inr z ↦ elim (Bool-cases (mem p == mem q)) [
    | inl e ↦
        let rest = strncmp_lem mem (p + 1) (q + 1) n in
        rw (z, e)
          (ComparesText-suc mem p q n (strncmp mem (p + 1) (q + 1) n) (ground arith) (ground arith)
            rest)
    | inr e ↦
        let differ : mem p ≢ mem q = ground arith in
        rw (z, e)
          (inr (
            0,
            omega arith,
            none_before mem p q,
            NoNul-before mem p q,
            rw (start mem p, start mem q) differ,
            rw (start mem p, start mem q) refl,
          ))
  ]
]
