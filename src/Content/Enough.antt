-- ===== src/Content/Enough.antt =====
-- HW2/src/fs.c: the loop of `writei` does not panic where enough blocks are free.
use cs.Base.{
  ℕ, zero, suc, ◌+◌, ◌-◌, ◌/◌, ◌%◌, ◌<◌, ◌≤◌, ◌≡◌, refl, ap, ◌∙◌, true, false, arith, ◌==◌, ltb,
  if◌then◌else◌, Bool-cases, inl, inr, ok, ◌>>=◌, Ensures_ok,
}
use cs.Blocks.{Blocks}
use cs.Content.{bsize, bmap}
use cs.Content.Io.{max_bytes, piece, write_bytes, write_from}
use cs.Content.Slots.{maxfile, slot_for, IsMapped}
use cs.Content.Bmap.{Maps, bmap_lem}
use cs.Content.Blit.{after-IsMapped, used_same}
use cs.Content.Write.{piece-le}
use cs.Content.Room.{free_blocks, indirect_need, count_same, bmap_room}

-- How many blocks `n` bytes from `off` on touch
abbrev pub touched : ℕ → ℕ → ℕ
touched off n = if n == 0 then 0 else (off % bsize + n + bsize - 1) / bsize

touched_step :
    (off left : ℕ)
    → 0 < left
    → touched (off + piece left off) (left - piece left off) + 1 ≤ touched off left
touched_step off left some_left =
    let nz : (left == 0) ≡ false = ground arith in
    elim (Bool-cases (ltb left (bsize - off % bsize))) [
      | inl e ↦
          let none_left : (left - left == 0) ≡ true = ground arith in
          rw (nz, e, none_left) (omega arith)
      | inr e ↦
          let le : bsize - off % bsize ≤ left = ground arith in
          let start : (off + (bsize - off % bsize)) % bsize ≡ 0 = omega arith in
          elim (Bool-cases (left - (bsize - off % bsize) == 0)) [
            | inl z ↦ rw (nz, e, z) (omega arith)
            | inr z ↦ rw (nz, e, z, start) (omega arith)
          ]
    ]

-- The loop, with enough fuel, and with a free block for each that is touched and for the indirect
-- block if there is none: it returns, and takes no more.
pub write_from_room :
    (fuel : ℕ) (mem : ℕ → ℕ) (src off left : ℕ) (addrs : ℕ → ℕ) (s : Blocks)
    → left ≤ fuel
    → off + left ≤ max_bytes
    → IsMapped addrs s
    → touched off left + indirect_need addrs ≤ free_blocks s
    → (r : (ℕ → ℕ) × Blocks) × (write_from fuel mem src off left (addrs, s) ≡ ok r)
      × (free_blocks s + indirect_need r.0
          ≤ free_blocks r.1 + touched off left + indirect_need addrs)
unfolding write_from
write_from_room zero mem src off left addrs s le fits m room = ((addrs, s), refl, omega arith)
write_from_room (suc fuel) mem src off left addrs s le fits m room =
    elim (Bool-cases (ltb 0 left)) [
      | inr e ↦ ((addrs, s), rw e refl, omega arith)
      | inl e ↦
          let n = piece left off in
          let some_left : 0 < left = ground arith in
          let p = piece-le left off some_left in
          let p0 = p.0 in
          let p1 = p.1 in
          let lt : off / bsize < maxfile = omega arith in
          let step = touched_step off left some_left in
          let (b, got, cost) = bmap_room (off / bsize) addrs s lt m (omega (arith, step, room)) in
          let (g, at, nz) =
            Ensures_ok (Maps (slot_for (off / bsize)) addrs s) (bmap (off / bsize) addrs s) b
              (bmap_lem (off / bsize) addrs s lt m) got in
          let t = write_bytes b.2 (off % bsize) n mem src b.1 in
          let bits =
            used_same b.0 b.1 g.mapped (off / bsize) lt b.2 at nz (off % bsize) n src mem in
          let same : free_blocks t ≡ free_blocks b.1 = count_same b.1.size b.1 t bits in
          let mapped =
            after-IsMapped b.0 b.1 g.mapped (off / bsize) lt b.2 at nz (off % bsize) n src mem in
          let (r, did, more) =
            write_from_room fuel mem (src + n) (off + n) (left - n) b.0 t (omega arith)
              (omega arith) mapped (omega (arith, step, room, cost, same)) in
          (
            r,
            rw e (
                ap
                  (λ o. o >>= λ c.
                    write_from fuel mem (src + n) (off + n) (left - n)
                      (c.0, write_bytes c.2 (off % bsize) n mem src c.1))
                  got
                ∙ did),
            omega (arith, step, cost, more, same),
          )
    ]
