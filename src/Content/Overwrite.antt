-- ===== src/Content/Overwrite.antt =====
-- Writing within a file returns, and reading gives what was written.
use cs.Base.{
  ℕ, zero, suc, ◌+◌, ◌-◌, ◌/◌, ◌%◌, ◌<◌, ◌≤◌, ◌≡◌, ◌≢◌, refl, ap, sym, ◌∙◌, true, false, ◌&&◌,
  Option, arith, ◌==◌, ltb, leb, if◌then◌else◌, Bool-cases, inl, inr, pos, ok, ◌>>=◌, Ensures_ok,
}
use cs.Blocks.{Blocks}
use cs.Content.{bsize, Inode, Fs}
use cs.Content.Io.{
  t_dev, max_bytes, Device, moved, piece, write_bytes, write_from, with_blocks, wrote, readi,
  writei,
}
use cs.Content.Slots.{slot, maxfile, slot_for, IsMapped}
use cs.Content.Blit.{slots_same, after-IsMapped}
use cs.Content.Write.{piece-le}
use cs.Content.Read.{bmap_there}
use cs.Content.Files.{
  file_byte, IsFile, FileWrote, in_file, in_bounds, small_int, readi_lem, writei-Ensures,
}

-- The loop of `writei` where there is a block for each byte returns, with the same addresses.
write_there :
    (fuel : ℕ) (mem : ℕ → ℕ) (src off left : ℕ) (addrs : ℕ → ℕ) (s : Blocks)
    → left ≤ fuel
    → off + left ≤ max_bytes
    → IsMapped addrs s
    → ((j : ℕ) → off ≤ j → j < off + left → slot addrs s (slot_for (j / bsize)) ≢ 0)
    → (u : Blocks) × (write_from fuel mem src off left (addrs, s) ≡ ok (addrs, u))
unfolding write_from
write_there zero mem src off left addrs s le fits m there = (s, refl)
write_there (suc fuel) mem src off left addrs s le fits m there = elim (Bool-cases (ltb 0 left)) [
  | inr e ↦ (s, rw e refl)
  | inl e ↦
      let n = piece left off in
      let some_left : 0 < left = ground arith in
      let p = piece-le left off some_left in
      let p0 = p.0 in
      let p1 = p.1 in
      let bn = off / bsize in
      let lt : bn < maxfile = omega arith in
      let nz = there off (omega arith) (omega arith) in
      let b = slot addrs s (slot_for bn) in
      let t = write_bytes b (off % bsize) n mem src s in
      let same = slots_same addrs s m bn lt b refl nz (off % bsize) n src mem in
      let rest =
        write_there fuel mem (src + n) (off + n) (left - n) addrs t (omega arith) (omega arith)
          (after-IsMapped addrs s m bn lt b refl nz (off % bsize) n src mem)
          (λ j from to z.
            there j (omega arith) (omega arith) (sym (same (slot_for (j / bsize))) ∙ z)) in
      (
        rest.0,
        rw e (
            ap
              (λ o. o >>= λ b.
                write_from fuel mem (src + n) (off + n) (left - n)
                  (b.0, write_bytes b.2 (off % bsize) n mem src b.1))
              (bmap_there bn addrs s lt nz)
            ∙ rest.1),
      )
]

-- A write within a file returns, and changes neither the inode nor the inodes on disk.
overwrite-returns :
    (devsw : ℕ → Option Device) (src off n : ℕ) (ip : Inode) (fs : Fs) (mem : ℕ → ℕ)
    → IsFile ip fs
    → off + n ≤ ip.copy.size
    → (u : Blocks) × (writei devsw src off n ip fs mem ≡ ok (ip, with_blocks fs u, mem, pos n))
unfolding writei
overwrite-returns devsw src off n ip fs mem f le =
    let bounded = f.bounded in
    let plain : (ip.copy.type == t_dev) ≡ false = (let p = f.plain in ground arith) in
    let inside = in_file ip off n (omega arith) (omega arith) in
    let bounds = in_bounds off n (omega arith) in
    let stays : (ltb 0 n && ltb ip.copy.size (off + n)) ≡ false = ground arith in
    let loop =
      write_there n mem src off n ip.copy.addrs fs.blocks (omega arith) (omega arith) f.mapped
        (λ j _ to. f.whole j (omega arith)) in
    (
      loop.0,
      simp (plain, inside, bounds)
          (ap (λ m. m >>= λ r. ok (wrote off n mem ip fs r)) loop.1
            ∙ simp stays
                (ap (λ z. ok (ip, with_blocks fs loop.0, mem, z)) (small_int n (omega arith)))),
    )

-- A write within a file returns, with the inode as it was, and a read of the same place, into any
-- memory, returns and gives the bytes that were written.
pub writei-readi :
    (devsw : ℕ → Option Device) (src dst off n : ℕ) (ip : Inode) (fs : Fs) (mem to : ℕ → ℕ)
    → IsFile ip fs
    → off + n ≤ ip.copy.size
    → (u : Fs) × (to' : ℕ → ℕ) × (writei devsw src off n ip fs mem ≡ ok (ip, u, mem, pos n))
      × (readi devsw dst off n ip u to ≡ ok (ip, u, to', pos n))
      × ((i : ℕ) → i < n → to' (dst + i) ≡ mem (src + i))
writei-readi devsw src dst off n ip fs mem to f le =
    let bounded = f.bounded in
    let w = overwrite-returns devsw src off n ip fs mem f le in
    let u = with_blocks fs w.0 in
    let h =
      Ensures_ok (FileWrote off n src mem ip fs) (writei devsw src off n ip fs mem)
        (ip, u, mem, pos n) (writei-Ensures devsw src off n ip fs mem f (omega arith) (omega arith))
        w.1 in
    let r = readi_lem devsw dst off n ip u to h.file (omega arith) (omega arith) in
    let all : (if ltb ip.copy.size (off + n) then ip.copy.size - off else n) ≡ n = ground arith in
    (
      u,
      r.0,
      w.1,
      r.1 ∙ ap (λ k. ok (ip, u, r.0, pos k)) all,
      λ i lt.
          r.2 (dst + i)
          ∙ ap (λ k. moved to dst k (file_byte ip u) off (dst + i)) all
          ∙ read_back (file_byte ip fs) (file_byte ip u) mem to dst off n src i lt
              (h.bytes (off + i) (omega arith)),
    )
  where
    read_back :
        (old new mem to : ℕ → ℕ) (dst off n src i : ℕ)
        → i < n
        → new (off + i) ≡ moved old off n mem src (off + i)
        → moved to dst n new off (dst + i) ≡ mem (src + i)
    read_back old new mem to dst off n src i lt e =
        let here : (leb dst (dst + i) && ltb (dst + i) (dst + n)) ≡ true = ground arith in
        let there : (leb off (off + i) && ltb (off + i) (off + n)) ≡ true = ground arith in
        let a : off + (dst + i - dst) ≡ off + i = omega arith in
        let b : src + (off + i - off) ≡ src + i = omega arith in
        rw here (ap new a ∙ e ∙ rw there (ap mem b))
