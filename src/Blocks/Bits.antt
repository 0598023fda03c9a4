-- ===== src/Blocks/Bits.antt =====
-- Bits of a byte, and the set of blocks in use that the bitmap stands for.
use cs.Base.{
  ℕ, zero, suc, ◌+◌, ◌*◌, ◌/◌, ◌%◌, ◌<◌, ◌≡◌, inl, inr, refl, ap, ◌∙◌, Bool, true, false, ◌&&◌,
  arith, ◌==◌, if◌then◌else◌, Bool-cases, update, ℕ_discrete,
}
use cs.Blocks.{bpb, bit_at, set_bit, clear_bit, Blocks, bblock, write_byte}

pub bit_at-set_bit : (k j x : ℕ) → bit_at j (set_bit k x) ≡ (if k == j then true else bit_at j x)
unfolding bit_at set_bit
bit_at-set_bit zero zero x = ground arith
bit_at-set_bit zero (suc j) x =
    let h : (x / 2 * 2 + 1) / 2 ≡ x / 2 = omega arith in rw h (ground arith)
bit_at-set_bit (suc k) zero x = ground arith
bit_at-set_bit (suc k) (suc j) x =
    let h : (set_bit k (x / 2) * 2 + x % 2) / 2 ≡ set_bit k (x / 2) = omega arith in
    let ih = bit_at-set_bit k j (x / 2) in rw h (ground arith)

pub bit_at-clear_bit :
    (k j x : ℕ) → bit_at j (clear_bit k x) ≡ (if k == j then false else bit_at j x)
unfolding bit_at clear_bit
bit_at-clear_bit zero zero x = ground arith
bit_at-clear_bit zero (suc j) x = let h : x / 2 * 2 / 2 ≡ x / 2 = omega arith in rw h (ground arith)
bit_at-clear_bit (suc k) zero x = ground arith
bit_at-clear_bit (suc k) (suc j) x =
    let h : (clear_bit k (x / 2) * 2 + x % 2) / 2 ≡ clear_bit k (x / 2) = omega arith in
    let ih = bit_at-clear_bit k j (x / 2) in rw h (ground arith)

-- Whether block `n` is in use.
abbrev pub used : Blocks → ℕ → Bool
used s n = bit_at (n % bpb % 8) (s.bytes (bblock n s) (n % bpb / 8))

update_twice :
    (f : ℕ → ℕ → ℕ) (b i v c j : ℕ)
    → update f b (update (f b) i v) c j ≡ (if (b == c) && (i == j) then v else f c j)
update_twice f b i v c j = elim (Bool-cases (b == c)) [
  | inl e ↦ elim (Bool-cases (i == j)) [
    | inl e' ↦ let eq : b ≡ c = ground arith in rw (e, e') refl
    | inr e' ↦ let eq : b ≡ c = ground arith in rw (e, e') (ap (λ x. f x j) eq)
  ]
  | inr e ↦ rw e refl
]

-- One bit of the bitmap changes.
pub used-write :
    (s : Blocks) (n m v : ℕ) (c : Bool)
    → ((j : ℕ)
        → bit_at j v
          ≡ (if n % bpb % 8 == j then c else bit_at j (s.bytes (bblock n s) (n % bpb / 8))))
    → used (write_byte (bblock n s) (n % bpb / 8) v s) m ≡ (if n == m then c else used s m)
used-write s n m v c h =
    let at = update_twice s.bytes (bblock n s) (n % bpb / 8) v (bblock m s) (m % bpb / 8) in
    ap (bit_at (m % bpb % 8)) at ∙ elim (ℕ_discrete n m) [
      | yes e ↦
          let same : (n == m) ≡ true = ground arith in
          let block : ((bblock n s == bblock m s) && (n % bpb / 8 == m % bpb / 8)) ≡ true =
            ground arith in
          let bit : (n % bpb % 8 == m % bpb % 8) ≡ true = ground arith in
          rw (block, same) (h (m % bpb % 8) ∙ rw bit refl)
      | no ne ↦
          let differ : (n == m) ≡ false = ground arith in
          elim (Bool-cases ((bblock n s == bblock m s) && (n % bpb / 8 == m % bpb / 8))) [
            | inl block ↦
                let b1 : bblock n s ≡ bblock m s = ground arith in
                let b2 : n % bpb / 8 ≡ m % bpb / 8 = ground arith in
                let bit : (n % bpb % 8 == m % bpb % 8) ≡ false = ground arith in
                rw (block, differ)
                  (h (m % bpb % 8)
                    ∙ rw bit (
                        ap (λ x. bit_at (m % bpb % 8) (s.bytes x (n % bpb / 8))) b1
                        ∙ ap (λ x. bit_at (m % bpb % 8) (s.bytes (bblock m s) x)) b2))
            | inr block ↦ rw (block, differ) refl
          ]
    ]

-- The bitmap marks its own blocks.
abbrev pub MarksBitmap : Blocks → Type 0
MarksBitmap s = (m : ℕ) → m < s.size → used s (bblock m s) ≡ true
