-- ===== src/Content/Write.antt =====
-- The loop of `writei`.
use cs.Base.{
  ℕ, zero, suc, ◌+◌, ◌-◌, ◌/◌, ◌%◌, ◌<◌, ◌≤◌, ◌≡◌, ◌≢◌, refl, ap, sym, ◌∙◌, true, false, ◌&&◌,
  arith, ltb, leb, if◌then◌else◌, Bool-cases, inl, inr, subst, ℕ_discrete, Ensures, Ensures-bind,
  Ensures-weaken,
}
use cs.Blocks.{Blocks}
use cs.Content.{bsize, bmap}
use cs.Content.Io.{max_bytes, moved, piece, write_bytes, write_from}
use cs.Content.Slots.{nslots, slot, maxfile, slot_for, content, IsMapped}
use cs.Content.Bmap.{Maps, bmap_lem}
use cs.Content.Blit.{
  byte_at, Wrote, slots_same, after-IsMapped, content_here, content_there, after-IsForeign,
}

pub piece-le : (left off : ℕ) → 0 < left → (0 < piece left off) × (piece left off ≤ left)
piece-le left off h = elim (Bool-cases (ltb left (bsize - off % bsize))) [
  | inl e ↦ rw e (omega arith, omega arith)
  | inr e ↦ rw e (omega arith, ground arith)
]

pub piece_in_block : (left off : ℕ) → off % bsize + piece left off ≤ bsize
piece_in_block left off = elim (Bool-cases (ltb left (bsize - off % bsize))) [
  | inl e ↦ rw e (ground arith)
  | inr e ↦ rw e (omega arith)
]

-- Bytes of a block and of the contents.
block_range :
    (off n j : ℕ)
    → off % bsize + n ≤ bsize
    → j / bsize ≡ off / bsize
    → (leb (off % bsize) (j % bsize) && ltb (j % bsize) (off % bsize + n))
      ≡ (leb off j && ltb j (off + n))
block_range off n j le e = elim (Bool-cases (leb off j && ltb j (off + n))) [
  | inl h ↦
      let a : off % bsize ≤ j % bsize = ground arith in
      let b : j % bsize < off % bsize + n = ground arith in rw h (ground arith)
  | inr h ↦ rw h (ground arith)
]

other_block :
    (off n j : ℕ)
    → off % bsize + n ≤ bsize
    → j / bsize ≢ off / bsize
    → (leb off j && ltb j (off + n)) ≡ false
other_block off n j le ne = elim (Bool-cases (leb off j && ltb j (off + n))) [
  | inl h ↦
      let a : off ≤ j = ground arith in
      let b : j < off + n = ground arith in absurd (ne (omega arith))
  | inr h ↦ h
]

moved_block :
    (f g : ℕ → ℕ) (off n src : ℕ) (mem : ℕ → ℕ) (j : ℕ)
    → off % bsize + n ≤ bsize
    → j / bsize ≡ off / bsize
    → f (j % bsize) ≡ g j
    → moved f (off % bsize) n mem src (j % bsize) ≡ moved g off n mem src j
moved_block f g off n src mem j le e h =
    let range = block_range off n j le e in
    elim (Bool-cases (leb off j && ltb j (off + n))) [
      | inl i ↦
          let i' = range ∙ i in
          let le' : off ≤ j = ground arith in
          let at : src + (j % bsize - off % bsize) ≡ src + (j - off) = omega arith in
          rw (i', i) (ap mem at)
      | inr o ↦ let o' = range ∙ o in rw (o', o) h
    ]

-- The write of one piece, after `bmap`.
piece-Wrote :
    (off n src : ℕ) (mem addrs : ℕ → ℕ) (s : Blocks) (a1 : ℕ → ℕ) (s1 : Blocks) (b : ℕ)
    → off % bsize + n ≤ bsize
    → off / bsize < maxfile
    → Maps (slot_for (off / bsize)) addrs s (a1, s1, b)
    → Wrote off n src mem addrs s a1 (write_bytes b (off % bsize) n mem src s1)
piece-Wrote off n src mem addrs s a1 s1 b le lt (g, at, nz) =
    let bn = off / bsize in
    let m = g.mapped in
    let same = slots_same a1 s1 m bn lt b at nz (off % bsize) n src mem in
    record {
      mapped = after-IsMapped a1 s1 m bn lt b at nz (off % bsize) n src mem;
      kept = λ k ltk nzk. same k ∙ g.kept k ltk nzk;
      filled = λ j from to z.
          let here : j / bsize ≡ bn = omega arith in
          nz (
            sym at
            ∙ sym (same (slot_for bn))
            ∙ ap (λ x. slot a1 (write_bytes b (off % bsize) n mem src s1) (slot_for x)) (sym here)
            ∙ z);
      bytes = λ j ltj. elim (ℕ_discrete (j / bsize) bn) [
        | yes e ↦
            let t = write_bytes b (off % bsize) n mem src s1 in
            ap (λ x. content a1 t x (j % bsize)) e
            ∙ content_here a1 s1 m bn lt b at nz (off % bsize) n src mem (j % bsize)
            ∙ moved_block (content a1 s1 bn) (byte_at addrs s) off n src mem j le e
                (g.same bn (j % bsize) lt ∙ ap (λ x. content addrs s x (j % bsize)) (sym e))
        | no ne ↦
            content_there a1 s1 m bn lt b at nz (off % bsize) n src mem (j / bsize) (j % bsize)
              (omega arith) ne
            ∙ g.same (j / bsize) (j % bsize) (omega arith)
            ∙ (let out = other_block off n j le ne in rw out refl)
      ];
      foreign = λ c h.
          let h1 = g.foreign c h in
          let h2 = after-IsForeign a1 s1 m bn lt b at nz (off % bsize) n src mem c h1.0 in
          (h2.0, λ i. h2.1 i ∙ h1.1 i);
      size = g.size;
    }

Wrote-none :
    (off src : ℕ) (mem addrs : ℕ → ℕ) (s : Blocks)
    → IsMapped addrs s
    → Wrote off 0 src mem addrs s addrs s
Wrote-none off src mem addrs s m = record {
  mapped = m;
  kept = λ k _ _. refl;
  filled = λ j from to. absurd (omega arith);
  bytes = λ j _. let out : (leb off j && ltb j (off + 0)) ≡ false = ground arith in rw out refl;
  foreign = λ b h. (h, λ i. refl);
  size = refl;
}

pub moved_trans :
    (f : ℕ → ℕ) (off n k src : ℕ) (mem : ℕ → ℕ) (j : ℕ)
    → moved (moved f off n mem src) (off + n) k mem (src + n) j ≡ moved f off (n + k) mem src j
moved_trans f off n k src mem j = elim (Bool-cases (leb (off + n) j && ltb j (off + n + k))) [
  | inl e ↦
      let whole : (leb off j && ltb j (off + (n + k))) ≡ true = ground arith in
      let le : off + n ≤ j = ground arith in
      let at : src + n + (j - (off + n)) ≡ src + (j - off) = omega arith in
      rw (e, whole) (ap mem at)
  | inr e ↦ elim (Bool-cases (leb off j && ltb j (off + n))) [
    | inl e1 ↦
        let whole : (leb off j && ltb j (off + (n + k))) ≡ true = ground arith in
        rw (e, e1, whole) refl
    | inr e1 ↦
        let whole : (leb off j && ltb j (off + (n + k))) ≡ false = ground arith in
        rw (e, e1, whole) refl
  ]
]

Wrote-trans :
    (off n k src : ℕ) (mem a1 a2 a3 : ℕ → ℕ) (s1 s2 s3 : Blocks)
    → off + n ≤ max_bytes
    → Wrote off n src mem a1 s1 a2 s2
    → Wrote (off + n) k (src + n) mem a2 s2 a3 s3
    → Wrote off (n + k) src mem a1 s1 a3 s3
Wrote-trans off n k src mem a1 a2 a3 s1 s2 s3 le g h = record {
  mapped = h.mapped;
  kept = λ i lt nz. h.kept i lt (λ z. nz (sym (g.kept i lt nz) ∙ z)) ∙ g.kept i lt nz;
  filled = λ j from to. elim (Bool-cases (ltb j (off + n))) [
    | inl e ↦
        let nz = g.filled j from (ground arith) in
        let below : j < off + n = ground arith in
        let lt : slot_for (j / bsize) < nslots = ground arith in
        λ z. nz (sym (h.kept (slot_for (j / bsize)) lt nz) ∙ z)
    | inr e ↦ h.filled j (ground arith) (omega arith)
  ];
  bytes = λ j lt.
      h.bytes j lt
      ∙ ap
          (λ x.
            if leb (off + n) j && ltb j (off + n + k) then mem (src + n + (j - (off + n))) else x)
          (g.bytes j lt)
      ∙ moved_trans (byte_at a1 s1) off n k src mem j;
  foreign =
      λ b f. let f1 = g.foreign b f in let f2 = h.foreign b f1.0 in (f2.0, λ i. f2.1 i ∙ f1.1 i);
  size = h.size ∙ g.size;
}

-- The loop, with enough fuel, writes all that is left.
pub write_from_lem :
    (fuel : ℕ) (mem : ℕ → ℕ) (src off left : ℕ) (addrs : ℕ → ℕ) (s : Blocks)
    → left ≤ fuel
    → off + left ≤ max_bytes
    → IsMapped addrs s
    → Ensures
        (λ r. Wrote off left src mem addrs s r.0 r.1)
        (write_from fuel mem src off left (addrs, s))
unfolding write_from
write_from_lem zero mem src off left addrs s le fits m =
    let none_left : left ≡ 0 = omega arith in
    subst (λ n. Wrote off n src mem addrs s addrs s) (sym none_left)
      (Wrote-none off src mem addrs s m)
write_from_lem (suc fuel) mem src off left addrs s le fits m = elim (Bool-cases (ltb 0 left)) [
  | inr e ↦
      let none_left : left ≡ 0 = ground arith in
      rw e (
        subst (λ n. Wrote off n src mem addrs s addrs s) (sym none_left)
          (Wrote-none off src mem addrs s m))
  | inl e ↦
      let n = piece left off in
      let some_left : 0 < left = ground arith in
      let p = piece-le left off some_left in
      let p0 = p.0 in
      let p1 = p.1 in
      let lt : off / bsize < maxfile = omega arith in
      rw e (
        Ensures-bind (Maps (slot_for (off / bsize)) addrs s)
          (λ r. Wrote off left src mem addrs s r.0 r.1) (bmap (off / bsize) addrs s)
          (λ b.
            write_from fuel mem (src + n) (off + n) (left - n)
              (b.0, write_bytes b.2 (off % bsize) n mem src b.1))
          (bmap_lem (off / bsize) addrs s lt m)
          (λ b h.
            let w = piece-Wrote off n src mem addrs s b.0 b.1 b.2 (piece_in_block left off) lt h in
            let t = write_bytes b.2 (off % bsize) n mem src b.1 in
            let whole : n + (left - n) ≡ left = omega arith in
            Ensures-weaken (λ r. Wrote (off + n) (left - n) (src + n) mem b.0 t r.0 r.1)
              (λ r. Wrote off left src mem addrs s r.0 r.1)
              (write_from fuel mem (src + n) (off + n) (left - n) (b.0, t))
              (λ r v.
                subst (λ x. Wrote off x src mem addrs s r.0 r.1) whole
                  (Wrote-trans off n (left - n) src mem addrs b.0 r.0 s t r.1 (omega arith) w v))
              (write_from_lem fuel mem (src + n) (off + n) (left - n) b.0 t (omega arith)
                (omega arith) w.mapped)))
]
