-- ===== src/Content/Bmap.antt =====
-- `bmap` finds or makes the block for a place in the contents, and changes no contents.
use cs.Base.{
  ℕ, ◌+◌, ◌-◌, ◌/◌, ◌%◌, ◌<◌, ◌≤◌, ◌≡◌, ◌≢◌, refl, ap, sym, ◌∙◌, true, false, arith, ◌==◌, ltb,
  if◌then◌else◌, Bool-cases, inl, inr, subst, ℕ_discrete, update, update_self, update_ne, Outcome,
  ok, panic, ◌>>=◌, Ensures, Ensures-bind, Ensures-weaken,
}
use cs.Blocks.{Blocks, bblock, balloc, bit_at}
use cs.Blocks.Bits.{used}
use cs.Content.{ndirect, nindirect, word_at, put_word, addr_at, set_entry, entry_at, bmap}
use cs.Content.Entries.{word_at-put_word, word_at-put_word_ne, word_at_zero, word_at_same}
use cs.Content.Slots.{
  entry, slot, maxfile, slot_for, IsData, IsMapped, Grown, Grown-refl, Grown-trans,
}
use cs.Content.Grow.{Fresh, balloc-Fresh, fresh-ne, fresh-ne-zero, fill-Grown}

-- The result has the block at slot `k`.
abbrev pub Maps : ℕ → (ℕ → ℕ) → Blocks → (ℕ → ℕ) × Blocks × ℕ → Type 0
Maps k addrs s r = Grown addrs s r.0 r.1 × (slot r.0 r.1 k ≡ r.2) × (r.2 ≢ 0)

-- The result of `balloc`, if there is one.
balloc_cases :
    {A : Type 0} (P : A → Type 0) (s : Blocks) (g : Blocks × ℕ → A)
    → ((u : Blocks) (a : ℕ) → balloc s ≡ ok (u, a) → P (g (u, a)))
    → Ensures P (balloc s >>= λ r. ok (g r))
balloc_cases P s g h = go (balloc s) (λ u a e. h u a e)
  where
    go :
        (o : Outcome (Blocks × ℕ))
        → ((u : Blocks) (a : ℕ) → o ≡ ok (u, a) → P (g (u, a)))
        → Ensures P (o >>= λ r. ok (g r))
    go (ok (u, a)) k = k u a refl
    go panic k = tt

pub low_slot : (addrs : ℕ → ℕ) (s : Blocks) (k : ℕ) → k < 13 → slot addrs s k ≡ addrs k
low_slot addrs s k lt = let low : ltb k 13 ≡ true = ground arith in rw low refl

pub high_slot :
    (addrs : ℕ → ℕ) (s : Blocks) (k : ℕ)
    → 13 ≤ k
    → slot addrs s k ≡ entry (addrs ndirect) (k - 13) s
high_slot addrs s k le = let high : ltb k 13 ≡ false = ground arith in rw high refl

pub entry_nz : (ind j : ℕ) (s : Blocks) → ind ≢ 0 → entry ind j s ≡ word_at (s.bytes ind) j
entry_nz ind j s ne = let nz : (ind == 0) ≡ false = ground arith in rw nz refl

-- An indirect block that was there keeps its entries.
entry_same :
    (addrs : ℕ → ℕ) (s u : Blocks) (a j : ℕ)
    → IsMapped addrs s
    → Fresh s u a
    → entry (addrs ndirect) j u ≡ entry (addrs ndirect) j s
entry_same addrs s u a j m f = elim (ℕ_discrete (addrs ndirect) 0) [
  | yes z ↦ ap (λ x. entry x j u) z ∙ sym (ap (λ x. entry x j s) z)
  | no nz ↦
      let ind = addrs ndirect in
      let h = m.held 12 (omega arith) nz in
      entry_nz ind j u nz
      ∙ word_at_same (u.bytes ind) (s.bytes ind) j
          (f.frame ind (fresh-ne s u u a m.disk f ind h) h.no_bitmap)
      ∙ sym (entry_nz ind j s nz)
]

addr_slots :
    (addrs : ℕ → ℕ) (s u : Blocks) (a i k : ℕ)
    → IsMapped addrs s
    → Fresh s u a
    → i < 13
    → addrs i ≡ 0
    → slot (update addrs i a) u k ≡ (if i == k then a else slot addrs s k)
addr_slots addrs s u a i k m f lt z = elim (Bool-cases (ltb k 13)) [
  | inl e ↦ rw e refl
  | inr e ↦
      let other : (i == k) ≡ false = ground arith in
      high_slot (update addrs i a) u k (ground arith)
      ∙ elim (ℕ_discrete i 12) [
        | yes e12 ↦
            let at : update addrs i a 12 ≡ a = ground arith in
            ap (λ x. entry x (k - 13) u) at
            ∙ entry_nz a (k - 13) u (fresh-ne-zero s u u a m.disk f)
            ∙ word_at_zero (u.bytes a) (k - 13) f.zero
            ∙ sym (ap (λ x. entry x (k - 13) s) (ap addrs (sym e12) ∙ z))
        | no ne ↦
            ap (λ x. entry x (k - 13) u) (update_ne addrs i 12 a ne)
            ∙ entry_same addrs s u a (k - 13) m f
      ]
      ∙ sym (rw other (high_slot addrs s k (ground arith)))
]

pub addr_at_lem :
    (i : ℕ) (addrs : ℕ → ℕ) (s : Blocks)
    → i < 13
    → IsMapped addrs s
    → Ensures (Maps i addrs s) (addr_at i addrs s)
unfolding addr_at
addr_at_lem i addrs s lt m = elim (Bool-cases (addrs i == 0)) [
  | inl e ↦
      let z : addrs i ≡ 0 = ground arith in
      simp e (
        balloc_cases (Maps i addrs s) s (λ r. (update addrs i r.1, r.0, r.1))
          (λ u a got.
            let f = balloc-Fresh s u a m.disk got in
            (
              fill-Grown s u u a m.disk f refl refl (λ _ _. refl) addrs (update addrs i a) i m
                  (omega arith) (low_slot addrs s i lt ∙ z)
                  (λ k _. addr_slots addrs s u a i k m f lt z) (λ _ _ _. refl),
              low_slot (update addrs i a) u i lt ∙ update_self addrs i a,
              fresh-ne-zero s u u a m.disk f,
            )))
  | inr e ↦ simp e (Grown-refl addrs s m, low_slot addrs s i lt, λ z. absurd (ground arith))
]

-- A word of the indirect block is no part of the bitmap.
pub set_entry-used :
    (s u : Blocks) (ind j a m : ℕ)
    → u.bmapstart ≡ s.bmapstart
    → IsData s ind
    → m < s.size
    → used (set_entry ind j a u) m ≡ used u m
set_entry-used s u ind j a m start h lt =
    ap (λ f. bit_at (m % 4096 % 8) (f (m % 4096 / 8)))
      (update_ne u.bytes ind (bblock m u) (put_word (u.bytes ind) j a)
        (λ e. h.no_bitmap m lt (e ∙ ap (λ x. m / 4096 + x) start)))

entry_slots :
    (addrs : ℕ → ℕ) (s u : Blocks) (a j k : ℕ)
    → IsMapped addrs s
    → Fresh s u a
    → addrs ndirect ≢ 0
    → slot addrs (set_entry (addrs ndirect) j a u) k ≡ (if j + 13 == k then a else slot addrs s k)
entry_slots addrs s u a j k m f nz = elim (Bool-cases (ltb k 13)) [
  | inl e ↦ let other : (j + 13 == k) ≡ false = ground arith in rw (e, other) refl
  | inr e ↦
      let ind = addrs ndirect in
      let v = set_entry ind j a u in
      let words = put_word (u.bytes ind) j a in
      let at : v.bytes ind ≡ words = update_self u.bytes ind words in
      high_slot addrs v k (ground arith)
      ∙ entry_nz ind (k - 13) v nz
      ∙ ap (λ f. word_at f (k - 13)) at
      ∙ elim (ℕ_discrete (j + 13) k) [
        | yes ek ↦
            let here : (j + 13 == k) ≡ true = ground arith in
            let back : k - 13 ≡ j = omega arith in
            let fits = m.disk.fits in
            let within = f.within in
            ap (word_at words) back
            ∙ word_at-put_word (u.bytes ind) j a (omega arith)
            ∙ sym (rw here refl)
        | no ne ↦
            let other : (j + 13 == k) ≡ false = ground arith in
            let le : 13 ≤ k = ground arith in
            word_at-put_word_ne (u.bytes ind) j (k - 13) a (λ x. ne (omega arith))
            ∙ sym (entry_nz ind (k - 13) u nz)
            ∙ entry_same addrs s u a (k - 13) m f
            ∙ sym (rw other (high_slot addrs s k le))
      ]
]

entry_at_lem :
    (j : ℕ) (addrs : ℕ → ℕ) (s : Blocks)
    → j < nindirect
    → addrs ndirect ≢ 0
    → IsMapped addrs s
    → Ensures (Maps (j + 13) addrs s) (entry_at j (addrs, s, addrs ndirect))
unfolding entry_at
entry_at_lem j addrs s lt nz m =
    let ind = addrs ndirect in
    let back : j + 13 - 13 ≡ j = omega arith in
    let now : slot addrs s (j + 13) ≡ word_at (s.bytes ind) j =
      high_slot addrs s (j + 13) (omega arith)
      ∙ entry_nz ind (j + 13 - 13) s nz
      ∙ ap (word_at (s.bytes ind)) back in
    elim (Bool-cases (word_at (s.bytes ind) j == 0)) [
      | inl e ↦
          let z : word_at (s.bytes ind) j ≡ 0 = ground arith in
          simp e (
            balloc_cases (Maps (j + 13) addrs s) s (λ r. (addrs, set_entry ind j r.1 r.0, r.1))
              (λ u a got.
                let f = balloc-Fresh s u a m.disk got in
                let h = m.held 12 (omega arith) nz in
                (
                  fill-Grown s u (set_entry ind j a u) a m.disk f refl refl
                      (λ k ltk. set_entry-used s u ind j a k f.start h ltk) addrs addrs (j + 13) m
                      (omega arith) (now ∙ z) (λ k _. entry_slots addrs s u a j k m f nz)
                      (λ b ne i.
                        ap (λ g. g i)
                          (update_ne u.bytes ind b (put_word (u.bytes ind) j a) (λ x. ne (sym x)))),
                  entry_slots addrs s u a j (j + 13) m f nz
                      ∙ (let own : (j + 13 == j + 13) ≡ true = ground arith in rw own refl),
                  fresh-ne-zero s u u a m.disk f,
                )))
      | inr e ↦ simp e (Grown-refl addrs s m, now, λ z. absurd (ground arith))
    ]

-- `bmap` of a block within the largest file.
pub bmap_lem :
    (bn : ℕ) (addrs : ℕ → ℕ) (s : Blocks)
    → bn < maxfile
    → IsMapped addrs s
    → Ensures (Maps (slot_for bn) addrs s) (bmap bn addrs s)
unfolding bmap
bmap_lem bn addrs s lt m = elim (Bool-cases (ltb bn ndirect)) [
  | inl e ↦ simp e (addr_at_lem bn addrs s (ground arith) m)
  | inr e ↦
      let near : ltb (bn - ndirect) nindirect ≡ true = ground arith in
      let back : bn - ndirect + 13 ≡ bn + 1 = ground arith in
      simp (e, near)
        (Ensures-bind (Maps 12 addrs s) (Maps (bn + 1) addrs s) (addr_at ndirect addrs s)
          (entry_at (bn - ndirect)) (addr_at_lem 12 addrs s (omega arith) m)
          (λ r h. through bn addrs s r back (ground arith) h))
]
  where
    through :
        (bn : ℕ) (addrs : ℕ → ℕ) (s : Blocks) (r : (ℕ → ℕ) × Blocks × ℕ)
        → bn - ndirect + 13 ≡ bn + 1
        → bn - ndirect < nindirect
        → Maps 12 addrs s r
        → Ensures (Maps (bn + 1) addrs s) (entry_at (bn - ndirect) r)
    through bn addrs s (a1, s1, ind) back lt (g, at, nz) =
        subst (λ x. Ensures (Maps (bn + 1) addrs s) (entry_at (bn - ndirect) (a1, s1, x))) at
          (Ensures-weaken (Maps (bn - ndirect + 13) a1 s1) (Maps (bn + 1) addrs s)
            (entry_at (bn - ndirect) (a1, s1, a1 ndirect))
            (λ q h. (
              Grown-trans addrs a1 q.0 s s1 q.1 g h.0,
              subst (λ k. slot q.0 q.1 k ≡ q.2) back h.1,
              h.2,
            ))
            (entry_at_lem (bn - ndirect) a1 s1 lt (λ z. nz (sym at ∙ z)) g.mapped))
