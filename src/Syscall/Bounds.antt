-- ===== src/Syscall/Bounds.antt =====
-- What a fetched argument is, and that it lies in the memory of the process.
use cs.Base.{
  ℕ, zero, suc, ◌+◌, ◌-◌, ◌*◌, ◌%◌, ◌^◌, ◌≤◌, ◌<◌, ◌≡◌, ◌≢◌, ◌⊎◌, inl, inr, refl, ap, sym, ◌∙◌,
  Option, none, some, ◌==◌, ltb, leb, Bool-cases, arith, ℕ_discrete,
}
use cs.Syscall.{User, int_at, fetchint, find_nul, fetchstr, argint, ptr_in, bind_arg, argptr}

-- A string of length `n` at `addr`, with its nul, or none that ends in the memory.
abbrev pub IsString : User → ℕ → Option ℕ → Type 0
IsString u addr none = (i : ℕ) → addr ≤ i → i < u.sz → u.mem i ≢ 0
IsString u addr (some n) =
    (addr + n < u.sz) × (u.mem (addr + n) ≡ 0) × ((i : ℕ) → i < n → u.mem (addr + i) ≢ 0)

-- The block at the fetched pointer and the word that held the pointer lie in the memory.
abbrev pub IsBlock : User → ℕ → ℕ → Option ℕ → Type 0
IsBlock u slot size none =
    (u.sz < slot + 4)
    ⊎ (2 ^ 31 ≤ size)
    ⊎ (u.sz ≤ int_at u.mem slot)
    ⊎ (u.sz < int_at u.mem slot + size)
IsBlock u slot size (some p) =
    (slot + 4 ≤ u.sz) × (p ≡ int_at u.mem slot) × (p < u.sz) × (p + size ≤ u.sz) × (size < 2 ^ 31)

within : (a i : ℕ) → a ≤ i → a + (i - a) ≡ i
within a i h = omega arith

find_nul_lem :
    (u : User) (addr k s n : ℕ)
    → s ≡ addr + n
    → s + k ≡ u.sz
    → ((i : ℕ) → i < n → u.mem (addr + i) ≢ 0)
    → IsString u addr (find_nul u.mem k s n)
unfolding find_nul
find_nul_lem u addr zero s n hs hk before =
    λ i lo hi z. before (i - addr) (omega arith) (ap u.mem (within addr i lo) ∙ z)
find_nul_lem u addr (suc k) s n hs hk before = elim (Bool-cases (u.mem s == 0)) [
  | inl e ↦
      let at : u.mem s ≡ 0 = ground arith in rw e (omega arith, ap u.mem (sym hs) ∙ at, before)
  | inr e ↦ rw e (
      find_nul_lem u addr k (s + 1) (n + 1) (omega arith) (omega arith) (λ i lt z.
        elim (ℕ_discrete i n) [
          | yes here ↦
              let at : u.mem s ≡ 0 = ap u.mem (hs ∙ ap (λ k. addr + k) (sym here)) ∙ z in
              ground arith
          | no away ↦ before i (omega arith) z
        ]))
]

-- `fetchstr` finds the string at an address and its length, nul and all below `sz`, and fails only
-- where no nul stands between the address and `sz`.
pub fetchstr_lem : (u : User) (addr : ℕ) → IsString u addr (fetchstr u addr)
unfolding fetchstr
fetchstr_lem u addr = elim (Bool-cases (leb u.sz addr)) [
  | inl e ↦ rw e (λ i lo hi z. let out : u.sz ≤ addr = ground arith in omega arith)
  | inr e ↦
      let below : addr < u.sz = ground arith in
      rw e (
        find_nul_lem u addr (u.sz - addr) addr 0 (omega arith) (omega arith)
          (λ i lt. absurd (omega arith)))
]

-- What `ptr_in` makes of a fetched pointer.
ptr_in_lem :
    (u : User) (slot size : ℕ)
    → u.sz ≤ 2 ^ 31
    → size < 2 ^ 32
    → slot + 4 ≤ u.sz
    → IsBlock u slot size (ptr_in u size (int_at u.mem slot))
unfolding ptr_in
ptr_in_lem u slot size hsz hsize hs =
    let i = int_at u.mem slot in
    elim (Bool-cases (leb (2 ^ 31) size)) [
      | inl e ↦ rw e (inr (inl (ground arith)))
      | inr e ↦ elim (Bool-cases (leb u.sz i)) [
        | inl d ↦ rw (e, d) (inr (inr (inl (ground arith))))
        | inr d ↦
            let small : size < 2 ^ 31 = ground arith in
            let low : i < u.sz = ground arith in
            let whole : (i + size) % 2 ^ 32 ≡ i + size = omega arith in
            elim (Bool-cases (ltb u.sz ((i + size) % 2 ^ 32))) [
              | inl c ↦ rw (e, d, c) (inr (inr (inr (ground arith))))
              | inr c ↦
                  let fits : i + size ≤ u.sz = ground arith in
                  rw (e, d, c) (hs, refl, low, fits, small)
            ]
      ]
    ]

IsBlock-at :
    (u : User) (a size : ℕ)
    → u.sz ≤ 2 ^ 31
    → size < 2 ^ 32
    → a < 2 ^ 32
    → IsBlock u a size (bind_arg (fetchint u a) (ptr_in u size))
unfolding fetchint bind_arg
IsBlock-at u a size hsz hsize ha = elim (Bool-cases (leb u.sz a)) [
  | inl e ↦ let out : u.sz ≤ a = ground arith in rw e (inl (omega arith))
  | inr e ↦
      let low : a < u.sz = ground arith in
      let whole : (a + 4) % 2 ^ 32 ≡ a + 4 = omega arith in
      elim (Bool-cases (ltb u.sz ((a + 4) % 2 ^ 32))) [
        | inl d ↦ rw (e, d) (inl (ground arith))
        | inr d ↦
            let fits : a + 4 ≤ u.sz = ground arith in rw (e, d) (ptr_in_lem u a size hsz hsize fits)
      ]
]

-- The address of the n-th argument.
pub slot_of : User → ℕ → ℕ
slot_of u n = (u.esp + 4 + 4 * n) % 2 ^ 32

-- In a process of at most 2 ^ 31 bytes, `argptr` with a size below 2 ^ 32 returns a pointer only if
-- the word of the argument, the pointer and the block of that size at it lie below `sz` and the size
-- is not negative as an `int`; the pointer is that word. It fails only if one of these does not hold.
pub argptr_lem :
    (u : User) (n size : ℕ)
    → u.sz ≤ 2 ^ 31
    → size < 2 ^ 32
    → IsBlock u (slot_of u n) size (argptr u n size)
unfolding argptr argint slot_of
argptr_lem u n size hsz hsize = IsBlock-at u (slot_of u n) size hsz hsize (omega arith)
