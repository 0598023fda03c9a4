-- ===== src/Content/Room.antt =====
-- HW2/src/fs.c: how many free blocks `bmap` and the loop of `writei` take, and that they do not panic
-- where there are as many.
use cs.Base.{
  ℕ, zero, suc, ◌+◌, ◌-◌, ◌<◌, ◌≤◌, ◌≡◌, refl, ap, sym, ◌∙◌, true, false, arith, ◌==◌, ltb,
  if◌then◌else◌, Bool-cases, inl, inr, subst, ℕ_discrete, update, update_self, update_ne, Outcome,
  ok, panic, ◌>>=◌, Ensures_ok,
}
use cs.Blocks.{Blocks, balloc}
use cs.Blocks.Bits.{used}
use cs.Blocks.Alloc.{Allocates, balloc_lem}
use cs.Content.{ndirect, nindirect, word_at, addr_at, set_entry, entry_at, bmap}
use cs.Content.Slots.{maxfile, IsData, IsDisk, IsMapped}
use cs.Content.Grow.{Fresh, balloc-Fresh, fresh-ne-zero}
use cs.Content.Bmap.{Maps, addr_at_lem, set_entry-used}

-- How many of the first `n` blocks are free
unfoldable pub free_count : ℕ → Blocks → ℕ
free_count zero s = 0
free_count (suc m) s = free_count m s + (if used s m then 0 else 1)

abbrev pub free_blocks : Blocks → ℕ
free_blocks s = free_count s.size s

-- The indirect block, where there is none yet
abbrev pub indirect_need : (ℕ → ℕ) → ℕ
indirect_need addrs = if addrs ndirect == 0 then 1 else 0

pub count_same :
    (n : ℕ) (s u : Blocks)
    → ((m : ℕ) → m < n → used u m ≡ used s m)
    → free_count n u ≡ free_count n s
unfolding free_count
count_same zero s u h = refl
count_same (suc n) s u h =
    let here = h n (omega arith) in
    let rest = count_same n s u (λ m lt. h m (omega arith)) in rw (here, rest) refl

count_full : (n : ℕ) (s : Blocks) → ((m : ℕ) → m < n → used s m ≡ true) → free_count n s ≡ 0
unfolding free_count
count_full zero s h = refl
count_full (suc n) s h =
    let here = h n (omega arith) in
    let rest = count_full n s (λ m lt. h m (omega arith)) in rw (here, rest) refl

count-Fresh :
    (n : ℕ) (s u : Blocks) (a : ℕ)
    → Fresh s u a
    → n ≤ s.size
    → free_count n s ≤ free_count n u + (if ltb a n then 1 else 0)
unfolding free_count
count-Fresh zero s u a f le = omega arith
count-Fresh (suc n) s u a f le =
    let rest = count-Fresh n s u a f (omega arith) in
    let now = f.now n (omega arith) in
    elim (ℕ_discrete a n) [
      | yes e ↦
          let was : used s n ≡ false = subst (λ x. used s x ≡ false) e f.free in
          let low : ltb a n ≡ false = ground arith in
          let high : ltb a (suc n) ≡ true = ground arith in
          let rest' = rw low at rest in rw (was, high) (omega arith)
      | no ne ↦
          let other : (a == n) ≡ false = ground arith in
          let same : used u n ≡ used s n = now ∙ rw other refl in
          let step : ltb a (suc n) ≡ ltb a n = ground arith in rw (same, step) (omega arith)
    ]

-- `v` has the free blocks of `u`, which is one block short of `s`.
spent :
    (s u v : Blocks) (a : ℕ)
    → Fresh s u a
    → v.size ≡ u.size
    → ((m : ℕ) → m < s.size → used v m ≡ used u m)
    → free_blocks s ≤ free_blocks v + 1
spent s u v a f size bits =
    let count = count-Fresh s.size s u a f (omega arith) in
    let within = f.within in
    let in_range : ltb a s.size ≡ true = ground arith in
    let count' = rw in_range at count in
    let same = count_same s.size u v bits in
    let whole : free_blocks v ≡ free_count s.size v = ap (λ n. free_count n v) (size ∙ f.size) in
    omega (arith, count', same, whole)

balloc_room :
    (s : Blocks)
    → IsDisk s
    → 0 < free_blocks s
    → (u : Blocks) × (a : ℕ) × (balloc s ≡ ok (u, a)) × Fresh s u a
balloc_room s d room = found (balloc s) refl (balloc_lem s d.marks)
  where
    found :
        (o : Outcome (Blocks × ℕ))
        → balloc s ≡ o
        → Allocates s o
        → (u : Blocks) × (a : ℕ) × (balloc s ≡ ok (u, a)) × Fresh s u a
    found (ok (u, a)) e h = (u, a, e, balloc-Fresh s u a d e)
    found panic e h =
        let none_left = count_full s.size s h in absurd (omega (arith, room, none_left))

-- The call returns, and takes at most `n` free blocks, the indirect block aside.
abbrev pub Takes : ℕ → (ℕ → ℕ) → Blocks → Outcome ((ℕ → ℕ) × Blocks × ℕ) → Type 0
Takes n addrs s o =
    (r : (ℕ → ℕ) × Blocks × ℕ) × (o ≡ ok r)
    × (free_blocks s + indirect_need r.0 ≤ free_blocks r.1 + n + indirect_need addrs)

direct_room :
    (i : ℕ) (addrs : ℕ → ℕ) (s : Blocks)
    → i < 12
    → IsMapped addrs s
    → 0 < free_blocks s
    → Takes 1 addrs s (addr_at i addrs s)
unfolding addr_at
direct_room i addrs s lt m room = elim (Bool-cases (addrs i == 0)) [
  | inr e ↦ ((addrs, s, addrs i), rw e refl, omega arith)
  | inl e ↦
      let (u, a, got, f) = balloc_room s m.disk room in
      let cost = spent s u u a f refl (λ _ _. refl) in
      let kept : update addrs i a ndirect ≡ addrs ndirect =
        update_ne addrs i ndirect a (omega arith) in
      let need : indirect_need (update addrs i a) ≡ indirect_need addrs =
        ap (λ x. if x == 0 then 1 else 0) kept in
      ((update addrs i a, u, a), rw (e, got) refl, omega (arith, cost, need))
]

indirect_room :
    (addrs : ℕ → ℕ) (s : Blocks)
    → IsMapped addrs s
    → 0 < free_blocks s
    → Takes 0 addrs s (addr_at ndirect addrs s)
unfolding addr_at
indirect_room addrs s m room = elim (Bool-cases (addrs ndirect == 0)) [
  | inr e ↦ ((addrs, s, addrs ndirect), rw e refl, omega arith)
  | inl e ↦
      let (u, a, got, f) = balloc_room s m.disk room in
      let cost = spent s u u a f refl (λ _ _. refl) in
      let nz = fresh-ne-zero s u u a m.disk f in
      let there : update addrs ndirect a ndirect ≡ a = update_self addrs ndirect a in
      let full : (a == 0) ≡ false = ground arith in
      let after : indirect_need (update addrs ndirect a) ≡ 0 =
        ap (λ x. if x == 0 then 1 else 0) there ∙ rw full refl in
      let before : indirect_need addrs ≡ 1 = rw e refl in
      ((update addrs ndirect a, u, a), rw (e, got) refl, omega (arith, cost, after, before))
]

entry_room :
    (j : ℕ) (addrs : ℕ → ℕ) (s : Blocks) (ind : ℕ)
    → IsMapped addrs s
    → IsData s ind
    → 0 < free_blocks s
    → Takes 1 addrs s (entry_at j (addrs, s, ind))
unfolding entry_at
entry_room j addrs s ind m data_block room = elim (Bool-cases (word_at (s.bytes ind) j == 0)) [
  | inr e ↦ ((addrs, s, word_at (s.bytes ind) j), rw e refl, omega arith)
  | inl e ↦
      let (u, a, got, f) = balloc_room s m.disk room in
      let cost =
        spent s u (set_entry ind j a u) a f refl
          (λ k lt. set_entry-used s u ind j a k f.start data_block lt) in
      ((addrs, set_entry ind j a u, a), rw (e, got) refl, omega (arith, cost))
]

-- `bmap` of a block within the largest file, with one free block, and one more where there is no
-- indirect block yet.
pub bmap_room :
    (bn : ℕ) (addrs : ℕ → ℕ) (s : Blocks)
    → bn < maxfile
    → IsMapped addrs s
    → 1 + indirect_need addrs ≤ free_blocks s
    → Takes 1 addrs s (bmap bn addrs s)
unfolding bmap
bmap_room bn addrs s lt m room = elim (Bool-cases (ltb bn ndirect)) [
  | inl e ↦ rw e (direct_room bn addrs s (ground arith) m (omega arith))
  | inr e ↦
      let near : ltb (bn - ndirect) nindirect ≡ true = ground arith in
      let (r, got, cost) = indirect_room addrs s m (omega arith) in
      let (g, at, nz) =
        Ensures_ok (Maps 12 addrs s) (addr_at ndirect addrs s) r
          (addr_at_lem 12 addrs s (omega arith) m) got in
      let held : IsData r.1 r.2 =
        subst (IsData r.1) at (g.mapped.held 12 (omega arith) (λ z. nz (sym at ∙ z))) in
      let (q, did, more) = entry_room (bn - ndirect) r.0 r.1 r.2 g.mapped held (omega arith) in
      (
        q,
        rw (e, near) (ap (λ o. o >>= entry_at (bn - ndirect)) got ∙ did),
        omega (arith, cost, more),
      )
]
