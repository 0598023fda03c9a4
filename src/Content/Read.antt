-- ===== src/Content/Read.antt =====
-- The loop of `readi` on blocks that are there.
use cs.Base.{
  ℕ, zero, suc, ◌+◌, ◌-◌, ◌/◌, ◌%◌, ◌<◌, ◌≤◌, ◌≡◌, ◌≢◌, refl, ap, sym, ◌∙◌, true, false, ◌&&◌,
  arith, ◌==◌, ltb, leb, if◌then◌else◌, Bool-cases, inl, inr, ok, ◌>>=◌,
}
use cs.Blocks.{Blocks}
use cs.Content.{bsize, ndirect, nindirect, word_at, addr_at, entry_at, bmap}
use cs.Content.Io.{max_bytes, moved, piece, read_from}
use cs.Content.Slots.{entry, slot, maxfile, slot_for, content}
use cs.Content.Grow.{in_block}
use cs.Content.Bmap.{low_slot, high_slot, entry_nz}
use cs.Content.Blit.{byte_at}
use cs.Content.Write.{piece-le, piece_in_block, moved_trans}

addr_at_there :
    (i : ℕ) (addrs : ℕ → ℕ) (s : Blocks) → addrs i ≢ 0 → addr_at i addrs s ≡ ok (addrs, s, addrs i)
unfolding addr_at
addr_at_there i addrs s nz = let has : (addrs i == 0) ≡ false = ground arith in simp has refl

entry_at_there :
    (j : ℕ) (addrs : ℕ → ℕ) (s : Blocks) (ind : ℕ)
    → word_at (s.bytes ind) j ≢ 0
    → entry_at j (addrs, s, ind) ≡ ok (addrs, s, word_at (s.bytes ind) j)
unfolding entry_at
entry_at_there j addrs s ind nz =
    let has : (word_at (s.bytes ind) j == 0) ≡ false = ground arith in simp has refl

-- `bmap` of a block that is there finds it and changes nothing.
pub bmap_there :
    (bn : ℕ) (addrs : ℕ → ℕ) (s : Blocks)
    → bn < maxfile
    → slot addrs s (slot_for bn) ≢ 0
    → bmap bn addrs s ≡ ok (addrs, s, slot addrs s (slot_for bn))
unfolding bmap
bmap_there bn addrs s lt nz = elim (Bool-cases (ltb bn ndirect)) [
  | inl e ↦
      let own : slot addrs s (slot_for bn) ≡ addrs bn = rw e (low_slot addrs s bn (ground arith)) in
      simp e (
        addr_at_there bn addrs s (λ z. nz (own ∙ z))
        ∙ ap (λ x. ok (addrs, s, x)) (sym (low_slot addrs s bn (ground arith))))
  | inr e ↦
      let near : ltb (bn - ndirect) nindirect ≡ true = ground arith in
      let at : bn + 1 - 13 ≡ bn - ndirect = omega arith in
      let le : 13 ≤ bn + 1 = ground arith in
      let own : slot addrs s (slot_for bn) ≡ entry (addrs ndirect) (bn - ndirect) s =
        rw e (high_slot addrs s (bn + 1) le ∙ ap (λ x. entry (addrs ndirect) x s) at) in
      let ind : addrs ndirect ≢ 0 = λ z. nz (own ∙ ap (λ x. entry x (bn - ndirect) s) z) in
      let word = entry_nz (addrs ndirect) (bn - ndirect) s ind in
      let found : slot addrs s (bn + 1) ≡ word_at (s.bytes (addrs ndirect)) (bn - ndirect) =
        high_slot addrs s (bn + 1) le ∙ ap (λ x. entry (addrs ndirect) x s) at ∙ word in
      simp (e, near)
        (ap (λ m. m >>= entry_at (bn - ndirect)) (addr_at_there ndirect addrs s ind)
          ∙ entry_at_there (bn - ndirect) addrs s (addrs ndirect) (λ z. nz (own ∙ word ∙ z))
          ∙ ap (λ x. ok (addrs, s, x)) (sym found))
]

first_piece :
    (addrs : ℕ → ℕ) (s : Blocks) (off n : ℕ) (mem : ℕ → ℕ) (dst i : ℕ)
    → slot addrs s (slot_for (off / bsize)) ≢ 0
    → off % bsize + n ≤ bsize
    → moved mem dst n (s.bytes (slot addrs s (slot_for (off / bsize)))) (off % bsize) i
      ≡ moved mem dst n (byte_at addrs s) off i
first_piece addrs s off n mem dst i nz le = elim (Bool-cases (leb dst i && ltb i (dst + n))) [
  | inr e ↦ rw e refl
  | inl e ↦
      let b = slot addrs s (slot_for (off / bsize)) in
      let t = i - dst in
      let short : t < n = ground arith in
      let place : (off + t) / bsize ≡ off / bsize = omega arith in
      let at : (off + t) % bsize ≡ off % bsize + t = omega arith in
      rw e (
        sym (in_block b (off % bsize + t) s nz)
        ∙ sym (
            ap (λ x. content addrs s x ((off + t) % bsize)) place
            ∙ ap (content addrs s (off / bsize)) at))
]

-- What the loop reads, where there is a block for each byte.
pub read_from_lem :
    (fuel dst off left : ℕ) (addrs : ℕ → ℕ) (s : Blocks) (mem : ℕ → ℕ)
    → left ≤ fuel
    → off + left ≤ max_bytes
    → ((j : ℕ) → off ≤ j → j < off + left → slot addrs s (slot_for (j / bsize)) ≢ 0)
    → (mem' : ℕ → ℕ) × (read_from fuel dst off left (addrs, s, mem) ≡ ok (addrs, s, mem'))
      × ((i : ℕ) → mem' i ≡ moved mem dst left (byte_at addrs s) off i)
unfolding read_from
read_from_lem zero dst off left addrs s mem le fits there =
    (mem, refl, λ i. nothing mem dst left (byte_at addrs s) off i (omega arith))
  where
    nothing : (f : ℕ → ℕ) (at n : ℕ) (g : ℕ → ℕ) (from i : ℕ) → n ≡ 0 → f i ≡ moved f at n g from i
    nothing f at n g from i z =
        let out : (leb at i && ltb i (at + n)) ≡ false = ground arith in rw out refl
read_from_lem (suc fuel) dst off left addrs s mem le fits there = elim (Bool-cases (ltb 0 left)) [
  | inr e ↦ (
    mem,
    rw e refl,
    λ i. let out : (leb dst i && ltb i (dst + left)) ≡ false = ground arith in rw out refl,
  )
  | inl e ↦
      let n = piece left off in
      let some_left : 0 < left = ground arith in
      let p = piece-le left off some_left in
      let p0 = p.0 in
      let p1 = p.1 in
      let in_one = piece_in_block left off in
      let bn = off / bsize in
      let nz = there off (omega arith) (omega arith) in
      let b = slot addrs s (slot_for bn) in
      let mem1 = moved mem dst n (s.bytes b) (off % bsize) in
      let found = bmap_there bn addrs s (omega arith) nz in
      let rest =
        read_from_lem fuel (dst + n) (off + n) (left - n) addrs s mem1 (omega arith) (omega arith)
          (λ j from to. there j (omega arith) (omega arith)) in
      let whole : n + (left - n) ≡ left = omega arith in
      (
        rest.0,
        rw e (
            ap
              (λ m. m >>= λ b.
                read_from fuel (dst + n) (off + n) (left - n)
                  (b.0, b.1, moved mem dst n (b.1.bytes b.2) (off % bsize)))
              found
            ∙ rest.1),
        λ i.
            rest.2 i
            ∙ ap
                (λ x.
                  if leb (dst + n) i && ltb i (dst + n + (left - n))
                  then byte_at addrs s (off + n + (i - (dst + n)))
                  else x)
                (first_piece addrs s off n mem dst i nz in_one)
            ∙ moved_trans mem dst n (left - n) off (byte_at addrs s) i
            ∙ ap (λ x. moved mem dst x (byte_at addrs s) off i) whole,
      )
]
