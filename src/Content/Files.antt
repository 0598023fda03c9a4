-- ===== src/Content/Files.antt =====
-- `readi` and `writei` of a file: its contents as one array of bytes.
use cs.Base.{
  ℕ, ◌+◌, ◌-◌, ◌/◌, ◌%◌, ◌^◌, ◌<◌, ◌≤◌, ◌≡◌, ◌≢◌, refl, ap, sym, ◌∙◌, true, false, ◌&&◌, Option,
  arith, ◌==◌, ltb, if◌then◌else◌, Bool-cases, inl, inr, ℤ, pos, Outcome, ok, panic, ◌>>=◌, Ensures,
  Ensures-bind, Ensures_ok, subst,
}
use cs.Blocks.{Blocks}
use cs.Content.{bsize, Inode, Fs, iupdate}
use cs.Content.Io.{
  t_dev, max_bytes, to_int, Device, out_of_file, clipped, moved, read_from, write_from, with_addrs,
  with_blocks, wrote, readi, writei,
}
use cs.Content.Slots.{nslots, slot, maxfile, slot_for, IsMapped, IsForeign}
use cs.Content.Blit.{byte_at, Wrote}
use cs.Content.Write.{write_from_lem}
use cs.Content.Room.{free_blocks, indirect_need}
use cs.Content.Enough.{touched, write_from_room}
use cs.Content.Read.{read_from_lem}

-- Byte `j` of a file.
abbrev pub file_byte : Inode → Fs → ℕ → ℕ
file_byte ip fs = byte_at ip.copy.addrs fs.blocks

-- An inode that is no device, with a block for each byte.
pub record IsFile (ip : Inode) (fs : Fs) : Type 0 where
  pub mapped : IsMapped ip.copy.addrs fs.blocks
  pub whole : (j : ℕ) → j < ip.copy.size → slot ip.copy.addrs fs.blocks (slot_for (j / bsize)) ≢ 0
  pub bounded : ip.copy.size ≤ max_bytes
  pub plain : ip.copy.type ≢ t_dev

-- The disk has the inode as memory has it.
abbrev pub IsSaved : Inode → Fs → Type 0
IsSaved ip fs = fs.dinodes ip.inum ≡ ip.copy

pub small_int : (n : ℕ) → n ≤ max_bytes → to_int n ≡ pos n
small_int n le = let small : ltb n (2 ^ 31) ≡ true = ground arith in rw small refl

pub in_file :
    (ip : Inode) (off n : ℕ) → off ≤ ip.copy.size → off + n < 2 ^ 32 → out_of_file ip off n ≡ false
in_file ip off n le lt =
    let low : (off + n) % 2 ^ 32 ≡ off + n = omega arith in
    let a : ltb ip.copy.size off ≡ false = ground arith in
    let b : ltb (off + n) off ≡ false = ground arith in rw (low, a, b) refl

-- `readi` within a file returns, and the memory at `dst` then has its bytes, as many as there are of
-- those asked for; nothing else changes.
pub readi_lem :
    (devsw : ℕ → Option Device) (dst off n : ℕ) (ip : Inode) (fs : Fs) (mem : ℕ → ℕ)
    → IsFile ip fs
    → off ≤ ip.copy.size
    → off + n < 2 ^ 32
    → (mem' : ℕ → ℕ) × (readi devsw dst off n ip fs mem
        ≡ ok (ip, fs, mem', pos (if ltb ip.copy.size (off + n) then ip.copy.size - off else n)))
      × ((i : ℕ)
          → mem' i
            ≡ moved mem dst
                (if ltb ip.copy.size (off + n) then ip.copy.size - off else n)
                (file_byte ip fs)
                off
                i)
unfolding readi
readi_lem devsw dst off n ip fs mem f le lt =
    let k = if ltb ip.copy.size (off + n) then ip.copy.size - off else n in
    let low : (off + n) % 2 ^ 32 ≡ off + n = omega arith in
    let same : clipped ip off n ≡ k =
      ap (λ x. if ltb ip.copy.size x then ip.copy.size - off else n) low in
    let bounded = f.bounded in
    let fits : off + k ≤ ip.copy.size = ground arith in
    let plain : (ip.copy.type == t_dev) ≡ false = (let p = f.plain in ground arith) in
    let inside = in_file ip off n le lt in
    let loop =
      read_from_lem k dst off k ip.copy.addrs fs.blocks mem (omega arith) (omega arith)
        (λ j _ to. f.whole j (omega arith)) in
    (
      loop.0,
      simp (plain, inside)
          (ap
              (λ x. read_from x dst off x (ip.copy.addrs, fs.blocks, mem) >>= λ r.
                ok (with_addrs ip r.0, with_blocks fs r.1, r.2, to_int x))
              same
            ∙ ap (λ m. m >>= λ r. ok (with_addrs ip r.0, with_blocks fs r.1, r.2, to_int k)) loop.1
            ∙ ap (λ z. ok (ip, fs, loop.0, z)) (small_int k (omega arith))),
      loop.2,
    )

-- What a write of `n` bytes from `src` on at `off` makes of a file: it returns `n`, the bytes are
-- there, the size is at least where they end, and the other bytes and blocks in use of others stay.
pub record FileWrote (off n src : ℕ) (mem : ℕ → ℕ) (ip : Inode) (fs : Fs)
    (r : Inode × Fs × (ℕ → ℕ) × ℤ) : Type 0 where
  pub returned : r.3 ≡ pos n
  pub file : IsFile r.0 r.1
  pub size : r.0.copy.size ≡ (if ltb ip.copy.size (off + n) then off + n else ip.copy.size)
  pub bytes :
      (j : ℕ) → j < max_bytes → file_byte r.0 r.1 j ≡ moved (file_byte ip fs) off n mem src j
  pub foreign :
      (b : ℕ)
      → IsForeign ip.copy.addrs fs.blocks b
      → IsForeign r.0.copy.addrs r.1.blocks b
        × ((i : ℕ) → r.1.blocks.bytes b i ≡ fs.blocks.bytes b i)
  pub memory : r.2 ≡ mem

wrote-FileWrote :
    (off n src : ℕ) (mem : ℕ → ℕ) (ip : Inode) (fs : Fs) (r : (ℕ → ℕ) × Blocks)
    → IsFile ip fs
    → off ≤ ip.copy.size
    → off + n ≤ max_bytes
    → Wrote off n src mem ip.copy.addrs fs.blocks r.0 r.1
    → FileWrote off n src mem ip fs (wrote off n mem ip fs r)
unfolding iupdate
wrote-FileWrote off n src mem ip fs (a, s) f le fits w =
    let ret = small_int n (omega arith) in
    let bounded = f.bounded in
    let old : (j : ℕ) → j < ip.copy.size → slot a s (slot_for (j / bsize)) ≢ 0 = λ j lt z.
      let k = slot_for (j / bsize) in
      let klt : k < nslots = (let small : j / bsize < maxfile = omega arith in ground arith) in
      f.whole j lt (sym (w.kept k klt (f.whole j lt)) ∙ z) in
    elim (Bool-cases (ltb 0 n && ltb ip.copy.size (off + n))) [
      | inl e ↦
          let grows : ltb ip.copy.size (off + n) ≡ true = ground arith in
          simp e (record {
            returned = ret;
            file = record {
              mapped = w.mapped;
              whole = λ j lt. elim (Bool-cases (ltb j off)) [
                | inl b ↦ old j (ground arith)
                | inr b ↦ w.filled j (ground arith) lt
              ];
              bounded = fits;
              plain = f.plain;
            };
            size = rw grows refl;
            bytes = w.bytes;
            foreign = w.foreign;
            memory = refl;
          })
      | inr e ↦
          let stays : ltb ip.copy.size (off + n) ≡ false = ground arith in
          simp e (record {
            returned = ret;
            file = record { mapped = w.mapped; whole = old; bounded = bounded; plain = f.plain };
            size = rw stays refl;
            bytes = w.bytes;
            foreign = w.foreign;
            memory = refl;
          })
    ]

pub in_bounds : (off n : ℕ) → off + n ≤ max_bytes → ltb max_bytes ((off + n) % 2 ^ 32) ≡ false
in_bounds off n le =
    let low : (off + n) % 2 ^ 32 ≡ off + n = omega arith in
    let a : ltb max_bytes (off + n) ≡ false = ground arith in rw (low, a) refl

pub writei-Ensures :
    (devsw : ℕ → Option Device) (src off n : ℕ) (ip : Inode) (fs : Fs) (mem : ℕ → ℕ)
    → IsFile ip fs
    → off ≤ ip.copy.size
    → off + n ≤ max_bytes
    → Ensures (FileWrote off n src mem ip fs) (writei devsw src off n ip fs mem)
unfolding writei
writei-Ensures devsw src off n ip fs mem f le fits =
    let plain : (ip.copy.type == t_dev) ≡ false = (let p = f.plain in ground arith) in
    let inside = in_file ip off n le (omega arith) in
    let bounds = in_bounds off n fits in
    simp (plain, inside, bounds)
      (Ensures-bind (λ r. Wrote off n src mem ip.copy.addrs fs.blocks r.0 r.1)
        (FileWrote off n src mem ip fs) (write_from n mem src off n (ip.copy.addrs, fs.blocks))
        (λ r. ok (wrote off n mem ip fs r))
        (write_from_lem n mem src off n ip.copy.addrs fs.blocks (omega arith) fits f.mapped)
        (λ r w. wrote-FileWrote off n src mem ip fs r f le fits w))

-- How many free blocks suffice for a write: one for each block that is touched, and one for the
-- indirect block if there is none.
abbrev pub write_need : ℕ → ℕ → Inode → ℕ
write_need off n ip = touched off n + indirect_need ip.copy.addrs

-- With as many free blocks, `writei` returns, and takes no more.
pub writei_room :
    (devsw : ℕ → Option Device) (src off n : ℕ) (ip : Inode) (fs : Fs) (mem : ℕ → ℕ)
    → IsFile ip fs
    → off ≤ ip.copy.size
    → off + n ≤ max_bytes
    → write_need off n ip ≤ free_blocks fs.blocks
    → (r : Inode × Fs × (ℕ → ℕ) × ℤ) × (writei devsw src off n ip fs mem ≡ ok r)
      × FileWrote off n src mem ip fs r
      × (free_blocks fs.blocks + indirect_need r.0.copy.addrs
          ≤ free_blocks r.1.blocks + write_need off n ip)
unfolding writei iupdate
writei_room devsw src off n ip fs mem f le fits room =
    let plain : (ip.copy.type == t_dev) ≡ false = (let p = f.plain in ground arith) in
    let inside = in_file ip off n le (omega arith) in
    let bounds = in_bounds off n fits in
    let (c, did, cost) =
      write_from_room n mem src off n ip.copy.addrs fs.blocks (omega arith) fits f.mapped room in
    let whole : writei devsw src off n ip fs mem ≡ ok (wrote off n mem ip fs c) =
      simp (plain, inside, bounds) (ap (λ o. o >>= λ r. ok (wrote off n mem ip fs r)) did) in
    (
      wrote off n mem ip fs c,
      whole,
      Ensures_ok (FileWrote off n src mem ip fs) (writei devsw src off n ip fs mem)
          (wrote off n mem ip fs c) (writei-Ensures devsw src off n ip fs mem f le fits) whole,
      same_blocks off n mem ip fs c cost,
    )
  where
    same_blocks :
        (off n : ℕ) (mem : ℕ → ℕ) (ip : Inode) (fs : Fs) (c : (ℕ → ℕ) × Blocks)
        → free_blocks fs.blocks + indirect_need c.0
          ≤ free_blocks c.1 + touched off n + indirect_need ip.copy.addrs
        → free_blocks fs.blocks + indirect_need (wrote off n mem ip fs c).0.copy.addrs
          ≤ free_blocks (wrote off n mem ip fs c).1.blocks + write_need off n ip
    same_blocks off n mem ip fs c cost = elim (Bool-cases (ltb 0 n && ltb ip.copy.size (off + n))) [
      | inl e ↦ simp e (omega (arith, cost))
      | inr e ↦ simp e (omega (arith, cost))
    ]

-- A write that returns is as `FileWrote` says; one that panics had too few free blocks.
abbrev pub Writes : ℕ → ℕ → ℕ → (ℕ → ℕ) → Inode → Fs → Outcome (Inode × Fs × (ℕ → ℕ) × ℤ) → Type 0
Writes off n src mem ip fs panic = free_blocks fs.blocks < write_need off n ip
Writes off n src mem ip fs (ok r) = FileWrote off n src mem ip fs r

-- `writei` that begins within a file and ends within the largest file panics only if fewer blocks are
-- free than one for each block that it touches and one for the indirect block if there is none; else
-- it returns `n`: the `n` bytes are in the file, its size is at least where they end, its other bytes
-- are as before, it is a file again, whose blocks are in use and different, and the blocks in use of
-- others have their contents.
pub writei_lem :
    (devsw : ℕ → Option Device) (src off n : ℕ) (ip : Inode) (fs : Fs) (mem : ℕ → ℕ)
    → IsFile ip fs
    → off ≤ ip.copy.size
    → off + n ≤ max_bytes
    → Writes off n src mem ip fs (writei devsw src off n ip fs mem)
writei_lem devsw src off n ip fs mem f le fits =
    elim (Bool-cases (ltb (free_blocks fs.blocks) (write_need off n ip))) [
      | inl few ↦
          short (writei devsw src off n ip fs mem) (ground arith)
            (writei-Ensures devsw src off n ip fs mem f le fits)
      | inr room ↦
          let (r, did, w, _) = writei_room devsw src off n ip fs mem f le fits (ground arith) in
          subst (Writes off n src mem ip fs) (sym did) w
    ]
  where
    short :
        (o : Outcome (Inode × Fs × (ℕ → ℕ) × ℤ))
        → free_blocks fs.blocks < write_need off n ip
        → Ensures (FileWrote off n src mem ip fs) o
        → Writes off n src mem ip fs o
    short (ok r) few h = h
    short panic few h = few
