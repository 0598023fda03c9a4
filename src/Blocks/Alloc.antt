-- ===== src/Blocks/Alloc.antt =====
-- `balloc` takes the first free block, and `bfree` gives it back.
use cs.Base.{
  ℕ, zero, suc, ◌+◌, ◌-◌, ◌*◌, ◌/◌, ◌%◌, ◌<◌, ◌≤◌, ◌≡◌, ◌≢◌, inl, inr, refl, ap, sym, ◌∙◌, true,
  false, none, some, arith, ◌==◌, ltb, if◌then◌else◌, Bool-cases, update, Option-cases, update_self,
  update_ne, ℕ_discrete, subst, Outcome, ok, panic,
}
use cs.Blocks.{
  bpb, bit_at, set_bit, clear_bit, Blocks, bblock, write_byte, bzero, is_used, mark, find_bit,
  balloc_from, balloc, bfree,
}
use cs.Blocks.Bits.{bit_at-set_bit, bit_at-clear_bit, used, used-write, MarksBitmap}

-- Places in the bitmap, from a block of it on.
is_used-used : (b bi : ℕ) (s : Blocks) → b % bpb ≡ 0 → bi < bpb → is_used b bi s ≡ used s (b + bi)
is_used-used b bi s z lt =
    let e1 : (b + bi) % bpb ≡ bi = omega arith in
    let e2 : (b + bi) / bpb ≡ b / bpb = omega arith in
    sym (
      ap (λ x. bit_at (x % 8) (s.bytes ((b + bi) / bpb + s.bmapstart) (x / 8))) e1
      ∙ ap (λ x. bit_at (bi % 8) (s.bytes (x + s.bmapstart) (bi / 8))) e2)

abbrev marked : ℕ → Blocks → Blocks
marked k s =
    write_byte (bblock k s) (k % bpb / 8)
      (set_bit (k % bpb % 8) (s.bytes (bblock k s) (k % bpb / 8))) s

mark-marked : (b bi : ℕ) (s : Blocks) → b % bpb ≡ 0 → bi < bpb → mark b bi s ≡ marked (b + bi) s
mark-marked b bi s z lt =
    let e1 : (b + bi) % bpb ≡ bi = omega arith in
    let e2 : (b + bi) / bpb ≡ b / bpb = omega arith in
    sym (
      ap
        (λ x.
          let bn = (b + bi) / bpb + s.bmapstart in
          write_byte bn (x / 8) (set_bit (x % 8) (s.bytes bn (x / 8))) s)
        e1
      ∙ ap
          (λ x.
            let bn = x + s.bmapstart in
            write_byte bn (bi / 8) (set_bit (bi % 8) (s.bytes bn (bi / 8))) s)
          e2)

find_bit-some :
    (n bi b : ℕ) (s : Blocks) (j : ℕ)
    → b % bpb ≡ 0
    → bi + n ≤ bpb
    → find_bit n bi b s ≡ some j
    → (b + j < s.size)
      × (j < bpb)
      × (used s (b + j) ≡ false)
      × ((m : ℕ) → bi ≤ m → m < j → used s (b + m) ≡ true)
unfolding find_bit
find_bit-some zero bi b s j z le h = cc
find_bit-some (suc n) bi b s j z le h = elim (Bool-cases (ltb (b + bi) s.size)) [
  | inr far ↦ let bad : none ≡ some j = rw far at h in cc
  | inl near ↦ elim (Bool-cases (is_used b bi s)) [
    | inl e ↦
        let ih = find_bit-some n (bi + 1) b s j z (omega arith) (rw (near, e) at h) in
        (
          ih.0,
          ih.1,
          ih.2,
          λ m le' lt. elim (ℕ_discrete bi m) [
            | yes same ↦
                subst (λ x. used s (b + x) ≡ true) same
                  (sym (is_used-used b bi s z (omega arith)) ∙ e)
            | no ne ↦ ih.3 m (omega arith) lt
          ],
        )
    | inr e ↦
        let same : some bi ≡ some j = rw (near, e) at h in
        let eq : bi ≡ j = cc in
        (
          ground arith,
          omega arith,
          subst (λ x. used s (b + x) ≡ false) eq (sym (is_used-used b bi s z (omega arith)) ∙ e),
          λ m le' lt. absurd (omega arith),
        )
  ]
]

find_bit-none :
    (n bi b : ℕ) (s : Blocks) (m : ℕ)
    → b % bpb ≡ 0
    → bi + n ≤ bpb
    → find_bit n bi b s ≡ none
    → bi ≤ m
    → m < bi + n
    → b + m < s.size
    → used s (b + m) ≡ true
unfolding find_bit
find_bit-none zero bi b s m z le h from to lt = absurd (omega arith)
find_bit-none (suc n) bi b s m z le h from to lt = elim (Bool-cases (ltb (b + bi) s.size)) [
  | inr far ↦ absurd (ground arith)
  | inl near ↦ elim (Bool-cases (is_used b bi s)) [
    | inr e ↦ let bad : some bi ≡ none = rw (near, e) at h in cc
    | inl e ↦ elim (ℕ_discrete bi m) [
      | yes same ↦
          subst (λ x. used s (b + x) ≡ true) same (sym (is_used-used b bi s z (omega arith)) ∙ e)
      | no ne ↦
          find_bit-none n (bi + 1) b s m z (omega arith) (rw (near, e) at h) (omega arith)
            (omega arith) lt
    ]
  ]
]

-- What `balloc` returns, in terms of the blocks in use: `panic` only if all are; else the first block
-- that is not, filled with zeros, after which it is the only one more in use; and `bfree` of it
-- returns and leaves in use what was before. No other block changes but of the bitmap.
abbrev pub Allocates : Blocks → Outcome (Blocks × ℕ) → Type 0
Allocates s panic = (m : ℕ) → m < s.size → used s m ≡ true
Allocates s (ok (u, k)) =
    (k < s.size)
    × (used s k ≡ false)
    × ((m : ℕ) → m < k → used s m ≡ true)
    × ((m : ℕ) → m < s.size → used u m ≡ (if k == m then true else used s m))
    × ((i : ℕ) → u.bytes k i ≡ 0)
    × ((v : Blocks) × (bfree k u ≡ ok v) × ((m : ℕ) → m < s.size → used v m ≡ used s m))
    × (u.size ≡ s.size)
    × (u.bmapstart ≡ s.bmapstart)
    × ((b : ℕ)
        → b ≢ k
        → ((m : ℕ) → m < s.size → b ≢ bblock m s)
        → (i : ℕ) → u.bytes b i ≡ s.bytes b i)

-- `bzero` of a block that is not in the bitmap.
used-bzero :
    (s u : Blocks) (k m : ℕ)
    → MarksBitmap s
    → used s k ≡ false
    → u.bmapstart ≡ s.bmapstart
    → m < s.size
    → used (bzero k u) m ≡ used u m
unfolding bzero
used-bzero s u k m marks free start lt = elim (ℕ_discrete k (bblock m u)) [
  | yes e ↦
      let at : k ≡ bblock m s = e ∙ ap (λ x. m / bpb + x) start in
      let bad : used s k ≡ true = ap (used s) at ∙ marks m lt in cc
  | no ne ↦
      ap (λ f. bit_at (m % bpb % 8) (f (m % bpb / 8)))
        (update_ne u.bytes k (bblock m u) (λ _. 0) ne)
]

-- `bfree` of a block in use returns, and only that block is in use no more.
pub bfree_lem :
    (b : ℕ) (s : Blocks)
    → used s b ≡ true
    → (v : Blocks) × (bfree b s ≡ ok v)
      × ((m : ℕ) → used v m ≡ (if b == m then false else used s m))
      × (v.size ≡ s.size)
      × (v.bmapstart ≡ s.bmapstart)
      × ((c : ℕ) → c ≢ bblock b s → (i : ℕ) → v.bytes c i ≡ s.bytes c i)
unfolding bfree
bfree_lem b s in_use =
    let x = s.bytes (bblock b s) (b % bpb / 8) in
    let v = write_byte (bblock b s) (b % bpb / 8) (clear_bit (b % bpb % 8) x) s in
    (
      v,
      ap (λ c. if c then ok v else panic) in_use,
      λ m.
          used-write s b m (clear_bit (b % bpb % 8) x) false
            (λ j. bit_at-clear_bit (b % bpb % 8) j x),
      refl,
      refl,
      λ c ne i.
          ap (λ f. f i)
            (update_ne s.bytes (bblock b s) c
              (update (s.bytes (bblock b s)) (b % bpb / 8) (clear_bit (b % bpb % 8) x))
              (λ e. ne (sym e))),
    )

allocated :
    (s : Blocks) (k : ℕ)
    → MarksBitmap s
    → k < s.size
    → used s k ≡ false
    → ((m : ℕ) → m < k → used s m ≡ true)
    → Allocates s (ok (bzero k (marked k s), k))
unfolding bzero
allocated s k marks lt free first =
    let s1 = marked k s in
    let u = bzero k s1 in
    let now : (m : ℕ) → m < s.size → used u m ≡ (if k == m then true else used s m) = λ m ltm.
      used-bzero s s1 k m marks free refl ltm
      ∙ used-write s k m (set_bit (k % bpb % 8) (s.bytes (bblock k s) (k % bpb / 8))) true
          (λ j. bit_at-set_bit (k % bpb % 8) j (s.bytes (bblock k s) (k % bpb / 8))) in
    let own : (k == k) ≡ true = ground arith in
    let in_use : used u k ≡ true = now k lt ∙ rw own refl in
    let freed = bfree_lem k u in_use in
    (
      lt,
      free,
      first,
      now,
      λ i. ap (λ f. f i) (update_self s1.bytes k (λ _. 0)),
      (
        freed.0,
        freed.1,
        λ m ltm. freed.2 m ∙ elim (ℕ_discrete k m) [
          | yes e ↦
              let same : (k == m) ≡ true = ground arith in
              rw same (sym (ap (used s) (sym e) ∙ free))
          | no ne ↦
              let differ : (k == m) ≡ false = ground arith in rw differ (now m ltm ∙ rw differ refl)
        ],
      ),
      refl,
      refl,
      λ b ne out i.
          ap (λ f. f i)
            (update_ne s1.bytes k b (λ _. 0) (λ e. ne (sym e))
              ∙ update_ne s.bytes (bblock k s) b
                  (update (s.bytes (bblock k s)) (k % bpb / 8)
                    (set_bit (k % bpb % 8) (s.bytes (bblock k s) (k % bpb / 8))))
                  (λ e. out k lt (sym e))),
    )

-- What is known below `b`, and from `b` on below `c`, is known below `c`.
extend_range :
    (P : ℕ → Type 0) (b c : ℕ)
    → ((m : ℕ) → m < b → P m)
    → ((m : ℕ) → b + m < c → P (b + m))
    → (m : ℕ) → m < c
    → P m
extend_range P b c low high m lt = elim (Bool-cases (ltb m b)) [
  | inl e ↦ low m (ground arith)
  | inr e ↦ let at : b + (m - b) ≡ m = ground arith in subst P at (high (m - b) (omega arith))
]

balloc_from_lem :
    (n b : ℕ) (s : Blocks)
    → MarksBitmap s
    → b % bpb ≡ 0
    → s.size < b + n * bpb
    → ((m : ℕ) → m < b → m < s.size → used s m ≡ true)
    → Allocates s (balloc_from n b s)
unfolding balloc_from
balloc_from_lem zero b s marks z le before = λ m lt. before m (omega arith) lt
balloc_from_lem (suc n) b s marks z le before = elim (Bool-cases (ltb b s.size)) [
  | inr far ↦ rw far (λ m lt. before m (ground arith) lt)
  | inl near ↦ elim (Option-cases (find_bit bpb 0 b s)) [
    | inr (j, e) ↦
        let f = find_bit-some bpb 0 b s j z (omega arith) e in
        rw (near, e)
          (subst (λ x. Allocates s (ok (bzero (b + j) x, b + j))) (sym (mark-marked b j s z f.1))
            (allocated s (b + j) marks f.0 f.2 (
              extend_range (λ m. used s m ≡ true) b (b + j)
                (λ m lt. let f0 = f.0 in before m lt (omega arith))
                (λ m lt. f.3 m (omega arith) (omega arith)))))
    | inl e ↦
        rw (near, e)
          (balloc_from_lem n (b + bpb) s marks (omega arith) (omega arith) (
            extend_range (λ m. m < s.size → used s m ≡ true) b (b + bpb) before
              (λ m lt lts.
                find_bit-none bpb 0 b s m z (omega arith) e (omega arith) (omega arith) lts)))
  ]
]

-- On a disk whose bitmap marks its own blocks, `balloc` panics only if all blocks are in use; else it
-- returns the first that is not, filled with zeros, which is then the only one more in use; and
-- `bfree` of it returns and leaves in use what was before. `balloc` changes no other block but of
-- the bitmap.
pub balloc_lem : (s : Blocks) → MarksBitmap s → Allocates s (balloc s)
unfolding balloc
balloc_lem s marks =
    balloc_from_lem (s.size / bpb + 1) 0 s marks (omega arith) (omega arith)
      (λ m lt. absurd (omega arith))
