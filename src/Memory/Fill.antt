-- ===== src/Memory/Fill.antt =====
-- `memset` and `strncpy`: what each byte holds afterwards.
use cs.Base.{
  ℕ, zero, suc, ◌+◌, ◌*◌, ◌/◌, ◌%◌, ◌^◌, ◌<◌, ◌≡◌, inl, inr, refl, ◌∙◌, ◌&&◌, ◌==◌, ltb, leb,
  if◌then◌else◌, update, arith, Bool-cases,
}
use cs.Memory.{stosb, stosl, store, memset, zero_rest}

stosb_lem :
    (d c n : ℕ) (mem : ℕ → ℕ) (q : ℕ)
    → stosb d c n mem q ≡ (if leb d q && ltb q (d + n) then c % 256 else mem q)
unfolding stosb
stosb_lem d c zero mem q = ground arith
stosb_lem d c (suc n) mem q = stosb_lem (d + 1) c n (update mem d (c % 256)) q ∙ ground arith

-- A word whose four bytes are `b`.
abbrev word_of : ℕ → ℕ
word_of b = b * 2 ^ 24 + b * 2 ^ 16 + b * 2 ^ 8 + b

store_lem :
    (mem : ℕ → ℕ) (d b q : ℕ)
    → b < 256
    → store mem d (word_of b) q ≡ (if leb d q && ltb q (d + 4) then b else mem q)
unfolding store
store_lem mem d b q h =
    let b0 : word_of b % 256 ≡ b = omega arith in
    let b1 : word_of b / 256 % 256 ≡ b = omega arith in
    let b2 : word_of b / 65536 % 256 ≡ b = omega arith in
    let b3 : word_of b / 16777216 % 256 ≡ b = omega arith in rw (b0, b1, b2, b3) (ground arith)

stosl_lem :
    (d b n : ℕ) (mem : ℕ → ℕ) (q : ℕ)
    → b < 256
    → stosl d (word_of b) n mem q ≡ (if leb d q && ltb q (d + 4 * n) then b else mem q)
unfolding stosl
stosl_lem d b zero mem q h = ground arith
stosl_lem d b (suc n) mem q h =
    stosl_lem (d + 4) b n (store mem d (word_of b)) q h ∙ ground (arith, store_lem mem d b q h)

-- `memset` writes the low byte of `c` to each byte of the block, words at a time or bytes at a time,
-- and no other byte changes.
pub memset_lem :
    (dst c n : ℕ) (mem : ℕ → ℕ) (q : ℕ)
    → memset dst c n mem q ≡ (if leb dst q && ltb q (dst + n) then c % 256 else mem q)
unfolding memset
memset_lem dst c n mem q = elim (Bool-cases (dst % 4 == 0 && n % 4 == 0)) [
  | inl words ↦
      let whole : 4 * (n / 4) ≡ n = ground arith in
      rw words (stosl_lem dst (c % 256) (n / 4) mem q (omega arith) ∙ rw whole refl)
  | inr bytes ↦ rw bytes (stosb_lem dst c n mem q)
]

zero_rest_lem :
    (d n : ℕ) (mem : ℕ → ℕ) (q : ℕ)
    → zero_rest d n mem q ≡ (if leb d q && ltb q (d + n) then 0 else mem q)
unfolding zero_rest
zero_rest_lem d zero mem q = ground arith
zero_rest_lem d (suc n) mem q = zero_rest_lem (d + 1) n (update mem d 0) q ∙ ground arith
