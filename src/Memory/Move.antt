-- ===== src/Memory/Move.antt =====
-- `memmove` copies whole blocks, also where they overlap.
use cs.Base.{
  ℕ, zero, suc, ◌+◌, ◌-◌, ◌≤◌, ◌<◌, ◌≡◌, ◌⊎◌, inl, inr, refl, ap, ◌∙◌, ◌&&◌, ltb, leb,
  if◌then◌else◌, update, update_ne, update_self, arith, ℕ_discrete, Bool-cases,
}
use cs.Memory.{copy_up, copy_down, memmove}

-- Outside the block that is written nothing changes.
copy_up_outside :
    (d s n : ℕ) (mem : ℕ → ℕ) (q : ℕ) → (q < d) ⊎ (d + n ≤ q) → copy_up d s n mem q ≡ mem q
unfolding copy_up
copy_up_outside d s zero mem q h = refl
copy_up_outside d s (suc n) mem q h =
    copy_up_outside (d + 1) (s + 1) n (update mem d (mem s)) q (omega arith)
    ∙ update_ne mem d q (mem s) (omega arith)

copy_down_outside :
    (d s n : ℕ) (mem : ℕ → ℕ) (q : ℕ)
    → n ≤ d
    → (q < d - n) ⊎ (d ≤ q)
    → copy_down d s n mem q ≡ mem q
unfolding copy_down
copy_down_outside d s zero mem q le h = refl
copy_down_outside d s (suc n) mem q le h =
    copy_down_outside (d - 1) (s - 1) n (update mem (d - 1) (mem (s - 1))) q (omega arith)
      (omega arith)
    ∙ update_ne mem (d - 1) q (mem (s - 1)) (omega arith)

-- Upwards is right where the target does not begin inside the source. Byte `q` of the target has
-- byte `p` of the source.
copy_up_inside :
    (d s n : ℕ) (mem : ℕ → ℕ) (q p : ℕ)
    → (d ≤ s) ⊎ (s + n ≤ d)
    → d ≤ q
    → q < d + n
    → p + d ≡ s + q
    → copy_up d s n mem q ≡ mem p
unfolding copy_up
copy_up_inside d s zero mem q p h lo hi e = absurd (omega arith)
copy_up_inside d s (suc n) mem q p h lo hi e = elim (ℕ_discrete q d) [
  | yes at ↦
      copy_up_outside (d + 1) (s + 1) n (update mem d (mem s)) q (omega arith)
      ∙ ap (update mem d (mem s)) at
      ∙ update_self mem d (mem s)
      ∙ ap mem (omega arith)
  | no ne ↦
      copy_up_inside (d + 1) (s + 1) n (update mem d (mem s)) q p (omega arith) (omega arith)
        (omega arith) (omega arith)
      ∙ update_ne mem d p (mem s) (omega arith)
]

copy_down_inside :
    (d s n : ℕ) (mem : ℕ → ℕ) (q p : ℕ)
    → n ≤ s
    → s ≤ d
    → d ≤ q + n
    → q < d
    → p + d ≡ s + q
    → copy_down d s n mem q ≡ mem p
unfolding copy_down
copy_down_inside d s zero mem q p hs h lo hi e = absurd (omega arith)
copy_down_inside d s (suc n) mem q p hs h lo hi e = elim (ℕ_discrete q (d - 1)) [
  | yes at ↦
      copy_down_outside (d - 1) (s - 1) n (update mem (d - 1) (mem (s - 1))) q (omega arith)
        (omega arith)
      ∙ ap (update mem (d - 1) (mem (s - 1))) at
      ∙ update_self mem (d - 1) (mem (s - 1))
      ∙ ap mem (omega arith)
  | no ne ↦
      copy_down_inside (d - 1) (s - 1) n (update mem (d - 1) (mem (s - 1))) q p (omega arith)
        (omega arith) (omega arith) (omega arith) (omega arith)
      ∙ update_ne mem (d - 1) p (mem (s - 1)) (omega arith)
]

-- `memmove` leaves in each byte of the target what the source held before, and no other byte
-- changes, however the two blocks overlap.
pub memmove_lem :
    (dst src n : ℕ) (mem : ℕ → ℕ) (q : ℕ)
    → memmove dst src n mem q
      ≡ (if leb dst q && ltb q (dst + n) then mem (src + (q - dst)) else mem q)
unfolding memmove
memmove_lem dst src n mem q = elim (Bool-cases (ltb src dst && ltb dst (src + n))) [
  | inl over ↦ elim (Bool-cases (leb dst q && ltb q (dst + n))) [
    | inl here ↦
        let inside =
          copy_down_inside (dst + n) (src + n) n mem q (src + (q - dst)) (omega arith)
            (ground arith) (ground arith) (ground arith) (ground arith) in
        rw (over, here) inside
    | inr away ↦
        let outside = copy_down_outside (dst + n) (src + n) n mem q (omega arith) (ground arith) in
        rw (over, away) outside
  ]
  | inr apart ↦ elim (Bool-cases (leb dst q && ltb q (dst + n))) [
    | inl here ↦
        let inside =
          copy_up_inside dst src n mem q (src + (q - dst)) (ground arith) (ground arith)
            (ground arith) (ground arith) in
        rw (apart, here) inside
    | inr away ↦
        let outside = copy_up_outside dst src n mem q (ground arith) in rw (apart, away) outside
  ]
]
