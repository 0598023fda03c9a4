-- ===== src/File/Inodes.antt =====
-- HW2/src/file.c over HW2/src/fs.c: the inodes of Content.antt are what files take them to be.
use cs.Base.{
  ℕ, ◌+◌, ◌-◌, ◌≤◌, ◌<◌, ◌≡◌, refl, ap, ◌∙◌, arith, ◌==◌, ◌&&◌, ltb, leb, if◌then◌else◌, Bool-cases,
  inl, inr, Option, ℤ, pos, Outcome, ok, ◌>>=◌,
}
use cs.Content.{ndirect, Inode, Fs}
use cs.Content.Io.{max_bytes, Device, writei, readi}
use cs.Content.Room.{free_blocks}
use cs.Content.Files.{file_byte, IsFile, write_need, writei_room}
use cs.File.{View, Kept, Layers, max_write}

-- The inode in memory, and the disk as the log and the cache show it to the process.
abbrev pub Store : Type 0
Store = Inode × Fs

abbrev pub inode_view : View Store
inode_view = record {
  bytes = λ s ip. file_byte s.0 s.1;
  size = λ s ip. s.0.copy.size;
  free = λ s. free_blocks s.1.blocks;
  IsSound = λ s ip. IsFile s.0 s.1;
}

pub same_view : (s : Store) (ip : ℕ) → Kept inode_view s s ip
same_view s ip = record { bytes = λ j. refl; size = refl; free = refl; sound = λ h. h }

-- At most 1536 bytes touch at most four blocks.
small_need : (off n : ℕ) (ip : Inode) → n ≤ max_write → write_need off n ip ≤ 5
small_need off n ip le = elim (Bool-cases (n == 0)) [
  | inl e ↦ elim (Bool-cases (ip.copy.addrs ndirect == 0)) [
    | inl z ↦ rw (e, z) (omega arith)
    | inr z ↦ rw (e, z) (omega arith)
  ]
  | inr e ↦ elim (Bool-cases (ip.copy.addrs ndirect == 0)) [
    | inl z ↦ rw (e, z) (omega arith)
    | inr z ↦ rw (e, z) (omega arith)
  ]
]

-- The devices, the memory of the process, and pipes that belong to other files
module _ (devsw : ℕ → Option Device) (mem : ℕ → ℕ)
    (piperead pipewrite : ℕ → ℕ → ℤ → Store → Store × ℤ) where
  abbrev pub write_to : ℕ → ℕ → ℕ → ℕ → Store → Outcome (Store × ℤ)
  write_to ip addr off n (i, fs) = writei devsw addr off n i fs mem >>= λ r. ok ((r.0, r.1), r.3)

  abbrev pub read_of : ℕ → ℕ → ℕ → ℕ → Store → Outcome (Store × ℤ)
  read_of ip addr off n (i, fs) = readi devsw addr off n i fs mem >>= λ r. ok ((r.0, r.1), r.3)

  pub write_to_all :
      (s : Store) (ip addr off n : ℕ)
      → IsFile s.0 s.1
      → off ≤ s.0.copy.size
      → off + n ≤ max_bytes
      → n ≤ max_write
      → 5 ≤ free_blocks s.1.blocks
      → (u : Store) × (write_to ip addr off n s ≡ ok (u, pos n))
        × IsFile u.0 u.1
        × (off + n ≤ u.0.copy.size)
        × (free_blocks s.1.blocks ≤ free_blocks u.1.blocks + 5)
        × ((j : ℕ)
            → j < max_bytes
            → file_byte u.0 u.1 j ≡ (
                if leb off j && ltb j (off + n)
                then mem (addr + (j - off))
                else file_byte s.0 s.1 j))
  write_to_all (i, fs) ip addr off n file le fits small room =
      let need = small_need off n i small in
      let (r, did, w, cost) =
        writei_room devsw addr off n i fs mem file le fits (omega (arith, need, room)) in
      let size = w.size in
      (
        (r.0, r.1),
        ap (λ o. o >>= λ q. ok ((q.0, q.1), q.3)) did ∙ ap (λ z. ok ((r.0, r.1), z)) w.returned,
        w.file,
        big_enough (off + n) i.copy.size r.0.copy.size size,
        omega (arith, cost, need),
        w.bytes,
      )
    where
      big_enough : (m old new : ℕ) → new ≡ (if ltb old m then m else old) → m ≤ new
      big_enough m old new e = ground arith

  -- The calls of the log and the locks leave what the process sees.
  abbrev pub of_inode : Layers
  of_inode = record {
    S = Store;
    view = inode_view;
    begin_op = λ s. s;
    end_op = λ s. s;
    ilock = λ _ s. s;
    iunlock = λ _ s. s;
    writei = write_to;
    readi = read_of;
    piperead = piperead;
    pipewrite = pipewrite;
    user = mem;
    begin_op_kept = same_view;
    end_op_kept = same_view;
    ilock_kept = λ s ip k. same_view s ip;
    iunlock_kept = λ s ip k. same_view s ip;
    writei_all = write_to_all;
  }
